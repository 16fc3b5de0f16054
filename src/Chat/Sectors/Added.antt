-- ===== src/Chat/Sectors/Added.antt =====
-- Adding a player at the end of a sector.
use iocp_model_server.Base.{
  ℕ, ◌<◌, ◌≡◌, ◌≢◌, refl, sym, ◌∙◌, ap, ap₂, subst, none, some, ◌∷◌, [], ◌++◌, ltb, ◌==◌, arith,
  Bool-cases, inl, inr, length, set, set_here, set_same, set_there,
}
use iocp_model_server.Chat.{Player, Chat, invalid_sector, set_sector}
use iocp_model_server.Chat.Sectors.Vector.{get_elem?, get_elem?-lt, get_elem?-append}
use iocp_model_server.Chat.Sectors.Placed.{
  Live, IsPlaced, set_sector_here, set_sector_there, same_sector, some-inj,
}

module _ {s : Chat} (p x y : ℕ) (w : IsPlaced (some p) s) (live : Live s p) (hx : x < 50)
    (hy : y < 50) where
  unfoldable pub new : Player
  new = record (s.heap p) { sector_index = length (s.sectors y x); sector_x = x; sector_y = y }

  unfoldable pub entered : Chat
  entered = record s {
    heap = set s.heap p new;
    sectors = set_sector s.sectors y x (s.sectors y x ++ p ∷ []);
  }

  same_id : (r : ℕ) → (entered.heap r).session_id ≡ (s.heap r).session_id
  unfolding entered new
  same_id r = set_same (λ q. q.session_id) s.heap p new refl r

  others : (r : ℕ) → r ≢ p → entered.heap r ≡ s.heap r
  unfolding entered
  others r ne = set_there s.heap p new r ne

  pub itself : entered.heap p ≡ new
  unfolding entered
  itself = set_here s.heap p new

  now_Live : (r : ℕ) → Live s r → Live entered r
  unfolding entered
  now_Live r h = ap s.session_map (same_id r) ∙ h

  was_Live : (r : ℕ) → Live entered r → Live s r
  unfolding entered
  was_Live r h = ap s.session_map (sym (same_id r)) ∙ h

  Listed : ℕ → ℕ → ℕ → ℕ → Type 0
  Listed y' x' k r =
      Live entered r
      × (some r ≢ none)
      × ((entered.heap r).sector_x ≡ x')
      × ((entered.heap r).sector_y ≡ y')
      × ((entered.heap r).sector_index ≡ k)
      × (x' < 50)
      × (y' < 50)

  old-Listed : (y' x' k r : ℕ) → get_elem? (s.sectors y' x') k ≡ some r → Listed y' x' k r
  unfolding Listed
  old-Listed y' x' k r e =
      let (h, ne, rx, ry, ri, bx, by) = w.listed y' x' k r e in
      let same = others r (λ e. ne (ap some e)) in
      (
        now_Live r h,
        λ e. absurd (ground arith),
        ap (λ q. q.sector_x) same ∙ rx,
        ap (λ q. q.sector_y) same ∙ ry,
        ap (λ q. q.sector_index) same ∙ ri,
        bx,
        by,
      )

  new-Listed : Listed y x (length (s.sectors y x)) p
  unfolding Listed new
  new-Listed = (
    now_Live p live,
    λ e. absurd (ground arith),
    ap (λ q. q.sector_x) itself,
    ap (λ q. q.sector_y) itself,
    ap (λ q. q.sector_index) itself,
    hx,
    hy,
  )

  here-Listed : (k r : ℕ) → get_elem? (s.sectors y x ++ p ∷ []) k ≡ some r → Listed y x k r
  here-Listed k r e = elim (Bool-cases (ltb k (length (s.sectors y x)))) [
    | inl old ↦ old-Listed y x k r (ground (arith, get_elem?-append (s.sectors y x) p k))
    | inr past ↦ elim (Bool-cases (k == length (s.sectors y x))) [
      | inr beyond ↦ absurd (ground (arith, get_elem?-append (s.sectors y x) p k))
      | inl end ↦
          let is_p : p ≡ r = some-inj _ _ (ground (arith, get_elem?-append (s.sectors y x) p k)) in
          let is_end : length (s.sectors y x) ≡ k = ground arith in
          subst (λ v. Listed y x k v) is_p (subst (λ v. Listed y x v p) is_end new-Listed)
    ]
  ]

  entered-Listed : (y' x' k r : ℕ) → get_elem? (entered.sectors y' x') k ≡ some r → Listed y' x' k r
  unfolding entered
  entered-Listed y' x' k r e = elim (same_sector y x y' x') [
    | inl (ey, ex) ↦
        let here =
          ap (λ v. get_elem? v k)
            (sym (set_sector_here s.sectors y x _)
              ∙ ap₂ (set_sector s.sectors y x _) (sym ey) (sym ex))
          ∙ e in
        subst (λ v. Listed v x' k r) (sym ey)
          (subst (λ v. Listed y v k r) (sym ex) (here-Listed k r here))
    | inr away ↦
        old-Listed y' x' k r
          (ap (λ v. get_elem? v k) (sym (set_sector_there s.sectors y x _ y' x' away)) ∙ e)
  ]

  -- The vectors keep what they hold.
  grown :
      (y' x' k r : ℕ)
      → get_elem? (s.sectors y' x') k ≡ some r
      → get_elem? (entered.sectors y' x') k ≡ some r
  unfolding entered
  grown y' x' k r e = elim (same_sector y x y' x') [
    | inl (ey, ex) ↦
        let old : get_elem? (s.sectors y x) k ≡ some r =
          ap₂ (λ a b. get_elem? (s.sectors a b) k) (sym ey) (sym ex) ∙ e in
        let still : get_elem? (s.sectors y x ++ p ∷ []) k ≡ some r =
          ground
            (arith, get_elem?-append (s.sectors y x) p k, get_elem?-lt (s.sectors y x) k old) in
        ap (λ v. get_elem? v k)
          (ap₂ (set_sector s.sectors y x _) ey ex ∙ set_sector_here s.sectors y x _)
        ∙ still
    | inr away ↦ ap (λ v. get_elem? v k) (set_sector_there s.sectors y x _ y' x' away) ∙ e
  ]

  Placed : Player → ℕ → Type 0
  Placed q r = get_elem? (entered.sectors q.sector_y q.sector_x) q.sector_index ≡ some r

  new-Placed : Placed new p
  unfolding Placed entered new
  new-Placed =
      ap (λ v. get_elem? v (length (s.sectors y x))) (set_sector_here s.sectors y x _)
      ∙ ground (arith, get_elem?-append (s.sectors y x) p (length (s.sectors y x)))

  entered-Placed :
      (r : ℕ)
      → Live entered r
      → (entered.heap r).sector_x ≢ invalid_sector
      → Placed (entered.heap r) r
  unfolding Placed
  entered-Placed r h inside = elim (Bool-cases (r == p)) [
    | inl e ↦
        let is_p : p ≡ r = ground arith in
        subst (λ v. Placed (entered.heap v) v) is_p
          (subst (λ q. Placed q p) (sym itself) new-Placed)
    | inr e ↦
        let ne : r ≢ p = ground arith in
        let same = others r ne in
        let old =
          w.placed r (was_Live r h) (λ e. inside (ap (λ q. q.sector_x) same ∙ e))
            (λ e. ne (some-inj _ _ e)) in
        subst (λ q. Placed q r) (sym same) (grown _ _ _ r old)
  ]

  pub entered-IsPlaced : IsPlaced none entered
  unfolding Placed Listed entered
  entered-IsPlaced = record {
    sessions = λ k r e. same_id r ∙ w.sessions k r e;
    placed = λ r h inside ne. entered-Placed r h inside;
    listed = entered-Listed;
  }
