-- ===== src/Chat/Sectors/Removed.antt =====
-- The last player of a vector takes the place of the one that leaves.
use iocp_model_server.Base.{
  ℕ, ◌<◌, ◌+◌, ◌≡◌, ◌≢◌, refl, sym, ◌∙◌, ap, ap₂, subst, List, none, some, ltb, ◌==◌, arith,
  if◌then◌else◌, Bool-cases, inl, inr, length, set, set_here, set_same, set_there,
}
use iocp_model_server.Chat.{Player, Chat, invalid_sector, set_sector}
use iocp_model_server.Chat.Sectors.Vector.{get_elem?, get_elem?-lt}
use iocp_model_server.Chat.Sectors.Placed.{
  Live, IsPlaced, set_sector_here, set_sector_there, same_sector, some-inj,
}

-- The state after `leave_sector` with last player `l`, its place `i`, and the vector `ys`.
abbrev pub after : Chat → ℕ → ℕ → ℕ → ℕ → List ℕ → Chat
after s y x l i ys = record s {
  heap = set s.heap l (record (s.heap l) { sector_index = i });
  sectors = set_sector s.sectors y x ys;
}

module _ {s : Chat} (w : IsPlaced none s) (y x i n p l : ℕ) (ys : List ℕ)
    (at_p : get_elem? (s.sectors y x) i ≡ some p) (at_l : get_elem? (s.sectors y x) n ≡ some l)
    (size : length (s.sectors y x) ≡ n + 1)
    (at_ys : (k : ℕ)
      → get_elem? ys k ≡ (
          if ltb k n then (if k == i then some l else get_elem? (s.sectors y x) k) else none)) where
  unfoldable pub moved : Chat
  moved = after s y x l i ys

  kept_field :
      {B : Type 0} (g : Player → B)
      → g (record (s.heap l) { sector_index = i }) ≡ g (s.heap l)
      → (r : ℕ) → g (moved.heap r) ≡ g (s.heap r)
  unfolding moved
  kept_field g same r = set_same g s.heap l (record (s.heap l) { sector_index = i }) same r

  kept_index : (r : ℕ) → r ≢ l → (moved.heap r).sector_index ≡ (s.heap r).sector_index
  unfolding moved
  kept_index r ne =
      ap (λ q. q.sector_index) (set_there s.heap l (record (s.heap l) { sector_index = i }) r ne)

  l_index : (moved.heap l).sector_index ≡ i
  unfolding moved
  l_index = ap (λ q. q.sector_index) (set_here s.heap l (record (s.heap l) { sector_index = i }))

  kept_Live : (r : ℕ) → Live s r → Live moved r
  unfolding moved
  kept_Live r live = ap s.session_map (kept_field (λ q. q.session_id) refl r) ∙ live

  was_Live : (r : ℕ) → Live moved r → Live s r
  unfolding moved
  was_Live r live = ap s.session_map (sym (kept_field (λ q. q.session_id) refl r)) ∙ live

  Listed : ℕ → ℕ → ℕ → ℕ → Type 0
  Listed y' x' k r =
      Live moved r
      × (some r ≢ some p)
      × ((moved.heap r).sector_x ≡ x')
      × ((moved.heap r).sector_y ≡ y')
      × ((moved.heap r).sector_index ≡ k)
      × (x' < 50)
      × (y' < 50)

  last-Listed : i < n → Listed y x i l
  unfolding Listed
  last-Listed h =
      let (live, _, lx, ly, li, bx, by) = w.listed y x n l at_l in
      let (_, _, _, _, pi, _, _) = w.listed y x i p at_p in
      let other : some l ≢ some p = λ e.
        let same : (s.heap l).sector_index ≡ (s.heap p).sector_index =
          ap (λ z. (s.heap z).sector_index) (some-inj _ _ e) in
        omega arith in
      (
        kept_Live l live,
        other,
        kept_field (λ q. q.sector_x) refl l ∙ lx,
        kept_field (λ q. q.sector_y) refl l ∙ ly,
        l_index,
        bx,
        by,
      )

  other-Listed :
      (y' x' k r : ℕ) → get_elem? (s.sectors y' x') k ≡ some r → r ≢ l → r ≢ p → Listed y' x' k r
  unfolding Listed
  other-Listed y' x' k r e not_l not_p =
      let (live, _, rx, ry, ri, bx, by) = w.listed y' x' k r e in
      let other : some r ≢ some p = λ e. not_p (some-inj _ _ e) in
      (
        kept_Live r live,
        other,
        kept_field (λ q. q.sector_x) refl r ∙ rx,
        kept_field (λ q. q.sector_y) refl r ∙ ry,
        kept_index r not_l ∙ ri,
        bx,
        by,
      )

  differ :
      (r : ℕ) (a b : ℕ)
      → (g : Player → ℕ) → g (s.heap r) ≡ a
      → (z : ℕ) → g (s.heap z) ≡ b
      → a ≢ b
      → r ≢ z
  differ r a b g ra z zb ne e = ne (sym ra ∙ ap (λ v. g (s.heap v)) e ∙ zb)

  here-Listed : (k r : ℕ) → get_elem? ys k ≡ some r → Listed y x k r
  here-Listed k r e = elim (Bool-cases (ltb k n)) [
    | inr past ↦ absurd (ground (arith, at_ys k))
    | inl before ↦ elim (Bool-cases (k == i)) [
      | inl e' ↦
          let l_is_r : l ≡ r = some-inj _ _ (ground (arith, at_ys k)) in
          let k_is_i : i ≡ k = ground arith in
          subst (λ v. Listed y x k v) l_is_r
            (subst (λ v. Listed y x v l) k_is_i (last-Listed (ground arith)))
      | inr e' ↦
          let old : get_elem? (s.sectors y x) k ≡ some r = ground (arith, at_ys k) in
          let (_, _, _, _, ri, _, _) = w.listed y x k r old in
          let (_, _, _, _, li, _, _) = w.listed y x n l at_l in
          let (_, _, _, _, pi, _, _) = w.listed y x i p at_p in
          other-Listed y x k r old (differ r k n (λ q. q.sector_index) ri l li (ground arith))
            (differ r k i (λ q. q.sector_index) ri p pi (ground arith))
    ]
  ]

  there-Listed :
      (y' x' k r : ℕ)
      → ((y' ≡ y) → (x' ≡ x) → y' ≢ y')
      → get_elem? (s.sectors y' x') k ≡ some r
      → Listed y' x' k r
  there-Listed y' x' k r away e =
      let (_, _, rx, ry, _, _, _) = w.listed y' x' k r e in
      let (_, _, lx, ly, _, _, _) = w.listed y x n l at_l in
      let (_, _, px, py, _, _, _) = w.listed y x i p at_p in
      other-Listed y' x' k r e
        (λ same.
          away (sym ry ∙ ap (λ v. (s.heap v).sector_y) same ∙ ly)
            (sym rx ∙ ap (λ v. (s.heap v).sector_x) same ∙ lx) refl)
        (λ same.
          away (sym ry ∙ ap (λ v. (s.heap v).sector_y) same ∙ py)
            (sym rx ∙ ap (λ v. (s.heap v).sector_x) same ∙ px) refl)

  moved-Listed : (y' x' k r : ℕ) → get_elem? (moved.sectors y' x') k ≡ some r → Listed y' x' k r
  unfolding moved
  moved-Listed y' x' k r e = elim (same_sector y x y' x') [
    | inl (ey, ex) ↦
        let here : get_elem? ys k ≡ some r =
          ap (λ v. get_elem? v k)
            (sym (set_sector_here s.sectors y x ys)
              ∙ ap₂ (set_sector s.sectors y x ys) (sym ey) (sym ex))
          ∙ e in
        subst (λ v. Listed v x' k r) (sym ey)
          (subst (λ v. Listed y v k r) (sym ex) (here-Listed k r here))
    | inr away ↦
        there-Listed y' x' k r away
          (ap (λ v. get_elem? v k) (sym (set_sector_there s.sectors y x ys y' x' away)) ∙ e)
  ]

  Placed : ℕ → Type 0
  Placed r =
      get_elem? (moved.sectors (moved.heap r).sector_y (moved.heap r).sector_x)
        (moved.heap r).sector_index
      ≡ some r

  placed_here :
      (k r : ℕ)
      → get_elem? (s.sectors y x) k ≡ some r
      → r ≢ p
      → get_elem? ys (moved.heap r).sector_index ≡ some r
  placed_here k r e not_p =
      let below : k < n + 1 = ground (arith, get_elem?-lt (s.sectors y x) k e, size) in
      let below_p : i < n + 1 = ground (arith, get_elem?-lt (s.sectors y x) i at_p, size) in
      let other : k ≢ i =
        λ same. not_p (some-inj _ _ (sym e ∙ ap (get_elem? (s.sectors y x)) same ∙ at_p)) in
      elim (Bool-cases (k == n)) [
        | inl last ↦
            let is_l : l ≡ r =
              some-inj _ _ (sym at_l ∙ ap (get_elem? (s.sectors y x)) (ground arith) ∙ e) in
            let found : get_elem? ys i ≡ some l = ground (arith, at_ys i) in
            subst (λ v. get_elem? ys (moved.heap v).sector_index ≡ some v) is_l
              (ap (get_elem? ys) l_index ∙ found)
        | inr inner ↦
            let (_, _, _, _, ri, _, _) = w.listed y x k r e in
            let (_, _, _, _, li, _, _) = w.listed y x n l at_l in
            let found : get_elem? ys k ≡ some r = ground (arith, at_ys k) in
            ap (get_elem? ys)
              (kept_index r (differ r k n (λ q. q.sector_index) ri l li (ground arith)) ∙ ri)
            ∙ found
      ]

  placed_there :
      (y' x' k r : ℕ)
      → ((y' ≡ y) → (x' ≡ x) → y' ≢ y')
      → get_elem? (s.sectors y' x') k ≡ some r
      → get_elem? (s.sectors y' x') (moved.heap r).sector_index ≡ some r
  placed_there y' x' k r away e =
      let (_, _, rx, ry, ri, _, _) = w.listed y' x' k r e in
      let (_, _, lx, ly, _, _, _) = w.listed y x n l at_l in
      let not_l : r ≢ l = λ same.
        away (sym ry ∙ ap (λ v. (s.heap v).sector_y) same ∙ ly)
          (sym rx ∙ ap (λ v. (s.heap v).sector_x) same ∙ lx) refl in
      ap (get_elem? (s.sectors y' x')) (kept_index r not_l ∙ ri) ∙ e

  placed_at :
      (y' x' k r : ℕ)
      → get_elem? (s.sectors y' x') k ≡ some r
      → r ≢ p
      → get_elem? (moved.sectors y' x') (moved.heap r).sector_index ≡ some r
  unfolding moved
  placed_at y' x' k r e not_p = elim (same_sector y x y' x') [
    | inl (ey, ex) ↦
        let same : get_elem? (s.sectors y x) k ≡ some r =
          ap₂ (λ a b. get_elem? (s.sectors a b) k) (sym ey) (sym ex) ∙ e in
        ap₂ (λ a b. get_elem? (set_sector s.sectors y x ys a b) (moved.heap r).sector_index) ey ex
        ∙ ap (λ v. get_elem? v (moved.heap r).sector_index) (set_sector_here s.sectors y x ys)
        ∙ placed_here k r same not_p
    | inr away ↦
        ap (λ v. get_elem? v (moved.heap r).sector_index)
          (set_sector_there s.sectors y x ys y' x' away)
        ∙ placed_there y' x' k r away e
  ]

  moved-Placed :
      (r : ℕ) → Live moved r → (moved.heap r).sector_x ≢ invalid_sector → some r ≢ some p → Placed r
  unfolding Placed
  moved-Placed r live inside ne =
      let xs = kept_field (λ q. q.sector_x) refl r in
      let ys' = kept_field (λ q. q.sector_y) refl r in
      let old = w.placed r (was_Live r live) (λ e. inside (xs ∙ e)) (λ e. absurd (ground arith)) in
      ap₂ (λ a b. get_elem? (moved.sectors a b) (moved.heap r).sector_index) ys' xs
      ∙ placed_at _ _ _ r old (λ e. ne (ap some e))

  moved-sessions : (k r : ℕ) → s.session_map k ≡ some r → (moved.heap r).session_id ≡ k
  moved-sessions k r e = kept_field (λ q. q.session_id) refl r ∙ w.sessions k r e

  pub moved-IsPlaced : IsPlaced (some p) moved
  unfolding moved Placed Listed
  moved-IsPlaced = record {
    sessions = moved-sessions;
    placed = moved-Placed;
    listed = moved-Listed;
  }
