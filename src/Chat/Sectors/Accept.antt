-- ===== src/Chat/Sectors/Accept.antt =====
-- `ProcessAccept` and `CheckTimeout`: what they leave valid.
use iocp_model_server.Base.{
  ℕ, ◌<◌, ◌≡◌, ◌≢◌, sym, ◌∙◌, ap, subst, List, none, some, ◌∷◌, ◌==◌, arith, Bool-cases, inl, inr,
  length, drop, length-drop, set, set_here, set_there,
}
use iocp_model_server.Chat.{Player, Chat, invalid_sector, init, process_accept}
use iocp_model_server.Chat.Sectors.Vector.{get_elem?}
use iocp_model_server.Chat.Sectors.Placed.{Live, some-inj}
use iocp_model_server.Chat.Sectors.Release.{HasNames, IsValid}

module _ {s : Chat} (p now id : ℕ) (v : IsValid s) (fresh : (k : ℕ) → s.session_map k ≢ some p)
    (unused : s.session_map id ≡ none) where
  accepted : Chat
  accepted = process_accept p now id s

  others : (r : ℕ) → r ≢ p → accepted.heap r ≡ s.heap r
  unfolding accepted process_accept
  others r ne = set_there s.heap p (init id now (s.heap p)) r ne

  itself : accepted.heap p ≡ init id now (s.heap p)
  unfolding accepted process_accept
  itself = set_here s.heap p (init id now (s.heap p))

  known_apart : (r : ℕ) → Live s r → r ≢ p
  known_apart r live same = fresh (s.heap r).session_id (live ∙ ap some same)

  known : (r : ℕ) → Live s r → (s.heap r).session_id ≢ id
  known r live same =
      let nothing : none ≡ some r = sym unused ∙ ap s.session_map (sym same) ∙ live in
      absurd (ground arith)

  now_Live : (r : ℕ) → Live s r → Live accepted r
  unfolding accepted process_accept
  now_Live r live =
      ap (λ q. set s.session_map id (some p) q.session_id) (others r (known_apart r live))
      ∙ set_there s.session_map id (some p) (s.heap r).session_id (known r live)
      ∙ live

  accepted-sessions : (k r : ℕ) → accepted.session_map k ≡ some r → (accepted.heap r).session_id ≡ k
  unfolding accepted process_accept init
  accepted-sessions k r e = elim (Bool-cases (k == id)) [
    | inl e' ↦
        let here : k ≡ id = ground arith in
        let is_p : p ≡ r = some-inj _ _ (
          sym (set_here s.session_map id (some p))
          ∙ ap (set s.session_map id (some p)) (sym here)
          ∙ e) in
        ap (λ v. (accepted.heap v).session_id) (sym is_p) ∙ ap (λ q. q.session_id) itself ∙ sym here
    | inr e' ↦
        let old : s.session_map k ≡ some r =
          sym (set_there s.session_map id (some p) k (ground arith)) ∙ e in
        ap (λ q. q.session_id) (others r (λ same. fresh k (old ∙ ap some same)))
        ∙ v.is_placed.sessions k r old
  ]

  At : Player → ℕ → Type 0
  At q r = get_elem? (s.sectors q.sector_y q.sector_x) q.sector_index ≡ some r

  accepted-placed :
      (r : ℕ)
      → Live accepted r
      → (accepted.heap r).sector_x ≢ invalid_sector
      → At (accepted.heap r) r
  unfolding At accepted process_accept init
  accepted-placed r live inside = elim (Bool-cases (r == p)) [
    | inl e ↦
        let is_p : r ≡ p = ground arith in
        absurd (inside (ap (λ v. (accepted.heap v).sector_x) is_p ∙ ap (λ q. q.sector_x) itself))
    | inr e ↦
        let same = others r (ground arith) in
        let at : s.session_map (s.heap r).session_id ≡ some r = was_Live r (ground arith) live in
        subst (λ q. At q r) (sym same)
          (v.is_placed.placed r at (λ e. inside (ap (λ q. q.sector_x) same ∙ e))
            (λ e. absurd (ground arith)))
  ]
    where
      was_Live : (r : ℕ) → r ≢ p → Live accepted r → Live s r
      was_Live r ne live =
          let key = ap (λ q. q.session_id) (others r ne) in
          let far : (s.heap r).session_id ≢ id = λ same. ne (
            some-inj _ _ (
              sym live
              ∙ ap (set s.session_map id (some p)) (key ∙ same)
              ∙ set_here s.session_map id (some p))) in
          sym (set_there s.session_map id (some p) _ far)
          ∙ ap (set s.session_map id (some p)) (sym key)
          ∙ live

  accepted-listed :
      (y x i r : ℕ)
      → get_elem? (s.sectors y x) i ≡ some r
      → Live accepted r
        × (some r ≢ none)
        × ((accepted.heap r).sector_x ≡ x)
        × ((accepted.heap r).sector_y ≡ y)
        × ((accepted.heap r).sector_index ≡ i)
        × (x < 50)
        × (y < 50)
  accepted-listed y x i r e =
      let (live, ne, rx, ry, ri, hx, hy) = v.is_placed.listed y x i r e in
      let same = others r (known_apart r live) in
      (
        now_Live r live,
        ne,
        ap (λ q. q.sector_x) same ∙ rx,
        ap (λ q. q.sector_y) same ∙ ry,
        ap (λ q. q.sector_index) same ∙ ri,
        hx,
        hy,
      )

  zeroed : (xs : List ℕ) → length xs ≡ 40 → length (0 ∷ 0 ∷ drop 2 xs) ≡ 40
  zeroed xs e = omega (arith, length-drop 2 xs)

  accepted-HasNames : HasNames accepted
  unfolding accepted process_accept init
  accepted-HasNames = record { id = λ r. names_id r; nickname = λ r. names_nickname r }
    where
      names_id : (r : ℕ) → length (accepted.heap r).id ≡ 40
      names_id r = elim (Bool-cases (r == p)) [
        | inl e ↦
            let is_p : r ≡ p = ground arith in
            ap (λ v. length (accepted.heap v).id) is_p
            ∙ ap (λ q. length q.id) itself
            ∙ zeroed (s.heap p).id (v.has_names.id p)
        | inr e ↦ ap (λ q. length q.id) (others r (ground arith)) ∙ v.has_names.id r
      ]

      names_nickname : (r : ℕ) → length (accepted.heap r).nickname ≡ 40
      names_nickname r = elim (Bool-cases (r == p)) [
        | inl e ↦
            let is_p : r ≡ p = ground arith in
            ap (λ v. length (accepted.heap v).nickname) is_p
            ∙ ap (λ q. length q.nickname) itself
            ∙ zeroed (s.heap p).nickname (v.has_names.nickname p)
        | inr e ↦ ap (λ q. length q.nickname) (others r (ground arith)) ∙ v.has_names.nickname r
      ]

  -- `ProcessAccept` with a player that no session has, of a session that has none, keeps the state valid.
  pub process_accept-IsValid : IsValid (process_accept p now id s)
  unfolding accepted process_accept At
  process_accept-IsValid = record {
    is_placed = record {
      sessions = accepted-sessions;
      placed = λ r live inside ne. accepted-placed r live inside;
      listed = accepted-listed;
    };
    has_accounts = record {
      live = λ a r e. now_Live r (v.has_accounts.live a r e);
      login = λ a r e.
          ap (λ q. q.is_login) (others r (known_apart r (v.has_accounts.live a r e)))
          ∙ v.has_accounts.login a r e;
      account_no = λ a r e.
          ap (λ q. q.account_no) (others r (known_apart r (v.has_accounts.live a r e)))
          ∙ v.has_accounts.account_no a r e;
    };
    has_names = accepted-HasNames;
  }
