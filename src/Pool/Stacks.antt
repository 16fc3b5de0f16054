-- ===== src/Pool/Stacks.antt =====
-- Stacks of linked nodes that share a memory: every node has one place, in a stack or away from all.
use iocp_model_server.Base.{
  ℕ, zero, suc, ◌<◌, ◌≡◌, ◌≢◌, ◌⊎◌, inl, inr, refl, sym, ap, subst, ◌∙◌, arith,
}
use iocp_model_server.Pool.Seg.{Seg, Seg_frame, Seg_renamed, Seg_nil}

pub data Place (O : Type 0) : Type 0 where
  away : ℕ → Place O
  at : O → ℕ → Place O

module _ {O : Type 0} where
  height : Place O → ℕ
  height (away w) = 0
  height (at o k) = k

  owner_of : O → Place O → O
  owner_of d (away w) = d
  owner_of d (at o k) = o

  pub away-at : {w : ℕ} {o : O} {k : ℕ} → away w ≢ at o k
  away-at same = absurd (ground arith)

  pub at-height : {o p : O} {j k : ℕ} → j ≢ k → at o j ≢ at p k
  unfolding height
  at-height differ same = differ (ap height same)

  pub at-owner : {o p : O} {j k : ℕ} → o ≢ p → at o j ≢ at p k
  unfolding owner_of
  at-owner {o} differ same = differ (ap (owner_of o) same)

  unfoldable pub Stacks : (ℕ → Place O) → (ℕ → ℕ) → (O → ℕ) → (O → ℕ) → Type 0
  Stacks place next tops sizes = (o : O) → Seg place next (at o) (tops o) (sizes o)

  -- A node that is away from all stacks is put on top of the stack of `o`.
  pub push-Stacks :
      (decide : (p q : O) → (p ≡ q) ⊎ (p ≢ q)) (place place' : ℕ → Place O) (next next' : ℕ → ℕ)
      (tops tops' sizes sizes' : O → ℕ) (o : O) (b w : ℕ)
      → Stacks place next tops sizes
      → place b ≡ away w
      → b ≢ 0
      → place' b ≡ at o (sizes o)
      → next' b ≡ tops o
      → ((j : ℕ) → j ≢ b → (place' j ≡ place j) × (next' j ≡ next j))
      → tops' o ≡ b
      → sizes' o ≡ suc (sizes o)
      → ((p : O) → p ≢ o → (tops' p ≡ tops p) × (sizes' p ≡ sizes p))
      → Stacks place' next' tops' sizes'
  unfolding Stacks Seg
  push-Stacks decide place place' next next' tops tops' sizes sizes' o b w h was some_block now link
        same top size other p =
      elim (decide p o) [
        | inl e ↦ subst (λ q. Seg place' next' (at q) (tops' q) (sizes' q)) (sym e) pushed
        | inr differ ↦
            Seg_renamed place' next' (at p) (other p differ).0 (other p differ).1 (kept p)
      ]
    where
      kept : (q : O) → Seg place' next' (at q) (tops q) (sizes q)
      kept q = Seg_frame (tops q) (sizes q) stays (h q)
        where
          stays :
              (j k : ℕ) → k < sizes q → place j ≡ at q k → (place' j ≡ at q k) × (next' j ≡ next j)
          stays j k lt here =
              let differ : j ≢ b = λ e. away-at (sym was ∙ ap place (sym e) ∙ here) in
              ((same j differ).0 ∙ here, (same j differ).1)

      pushed : Seg place' next' (at o) (tops' o) (sizes' o)
      pushed =
          Seg_renamed place' next' (at o) {b = b} {n = suc (sizes o)} top size
            (some_block, now, Seg_renamed place' next' (at o) link refl (kept o))

  -- The top of the stack of `o` is taken off.
  pub pop-Stacks :
      (decide : (p q : O) → (p ≡ q) ⊎ (p ≢ q)) (place place' : ℕ → Place O) (next next' : ℕ → ℕ)
      (tops tops' sizes sizes' : O → ℕ) (o : O) (n : ℕ)
      → Stacks place next tops sizes
      → sizes o ≡ suc n
      → ((j : ℕ) → next' j ≡ next j)
      → ((j : ℕ) → j ≢ tops o → place' j ≡ place j)
      → tops' o ≡ next (tops o)
      → sizes' o ≡ n
      → ((p : O) → p ≢ o → (tops' p ≡ tops p) × (sizes' p ≡ sizes p))
      → Stacks place' next' tops' sizes'
  unfolding Stacks Seg
  pop-Stacks decide place place' next next' tops tops' sizes sizes' o n h full link same top size
        other p =
      elim (decide p o) [
        | inl e ↦ subst (λ q. Seg place' next' (at q) (tops' q) (sizes' q)) (sym e) popped
        | inr differ ↦
            Seg_renamed place' next' (at p) (other p differ).0 (other p differ).1 (kept p differ)
      ]
    where
      first : (tops o ≢ 0) × (place (tops o) ≡ at o n) × Seg place next (at o) (next (tops o)) n
      first = subst (Seg place next (at o) (tops o)) full (h o)

      stays : (q : O) (j k : ℕ) → at q k ≢ at o n → place j ≡ at q k → place' j ≡ at q k
      stays q j k apart here = same j (λ e. apart (sym here ∙ ap place e ∙ first.1)) ∙ here

      kept : (q : O) → q ≢ o → Seg place' next' (at q) (tops q) (sizes q)
      kept q differ =
          Seg_frame (tops q) (sizes q) (λ j k lt here. (stays q j k (at-owner differ) here, link j))
            (h q)

      popped : Seg place' next' (at o) (tops' o) (sizes' o)
      popped = Seg_renamed place' next' (at o) top size (
          Seg_frame (next (tops o)) n
            (λ j k lt here. (stays o j k (at-height (omega arith)) here, link j)) first.2)

  -- The stack of `o` becomes that of `p`, which has none.
  pub move-Stacks :
      (decide : (p q : O) → (p ≡ q) ⊎ (p ≢ q)) (place place' : ℕ → Place O) (next next' : ℕ → ℕ)
      (tops tops' sizes sizes' : O → ℕ) (o p : O)
      → Stacks place next tops sizes
      → ((j k : ℕ) → place j ≡ at o k → place' j ≡ at p k)
      → ((q : O) (j k : ℕ) → q ≢ o → place j ≡ at q k → place' j ≡ at q k)
      → ((j : ℕ) → next' j ≡ next j)
      → (tops' p ≡ tops o) × (sizes' p ≡ sizes o)
      → (tops' o ≡ 0) × (sizes' o ≡ 0)
      → ((q : O) → q ≢ o → q ≢ p → (tops' q ≡ tops q) × (sizes' q ≡ sizes q))
      → Stacks place' next' tops' sizes'
  unfolding Stacks Seg
  move-Stacks decide place place' next next' tops tops' sizes sizes' o p h moved stays link taken
        left other q =
      elim (decide q p) [
        | inl e ↦
            subst (λ r. Seg place' next' (at r) (tops' r) (sizes' r)) (sym e)
              (Seg_renamed place' next' (at p) taken.0 taken.1
                (Seg_frame (tops o) (sizes o) (λ j k lt here. (moved j k here, link j)) (h o)))
        | inr not_p ↦ elim (decide q o) [
          | inl e ↦
              subst (λ r. Seg place' next' (at r) (tops' r) (sizes' r)) (sym e)
                (Seg_renamed place' next' (at o) {n = 0} left.0 left.1 refl)
          | inr not_o ↦
              Seg_renamed place' next' (at q) (other q not_o not_p).0 (other q not_o not_p).1 (
                Seg_frame (tops q) (sizes q) (λ j k lt here. (stays q j k not_o here, link j))
                  (h q))
        ]
      ]

  -- Nothing that the stacks are made of has changed.
  pub kept-Stacks :
      (place place' : ℕ → Place O) (next next' : ℕ → ℕ) (tops tops' sizes sizes' : O → ℕ)
      → Stacks place next tops sizes
      → ((j k : ℕ) (q : O) → place j ≡ at q k → (place' j ≡ at q k) × (next' j ≡ next j))
      → ((q : O) → (tops' q ≡ tops q) × (sizes' q ≡ sizes q))
      → Stacks place' next' tops' sizes'
  unfolding Stacks
  kept-Stacks place place' next next' tops tops' sizes sizes' h stays same q =
      Seg_renamed place' next' (at q) (same q).0 (same q).1
        (Seg_frame (tops q) (sizes q) (λ j k lt here. stays j k q here) (h q))

  pub same-Stacks :
      (place place' : ℕ → Place O) (next next' : ℕ → ℕ) (tops tops' sizes sizes' : O → ℕ)
      → Stacks place next tops sizes
      → ((j k : ℕ) (q : O) → place j ≡ at q k → place' j ≡ at q k)
      → ((j : ℕ) → next' j ≡ next j)
      → ((q : O) → (tops' q ≡ tops q) × (sizes' q ≡ sizes q))
      → Stacks place' next' tops' sizes'
  same-Stacks place place' next next' tops tops' sizes sizes' h stays link =
      kept-Stacks place place' next next' tops tops' sizes sizes' h
        (λ j k q here. (stays j k q here, link j))

  -- The top of a stack that is not empty.
  pub Stacks-top :
      (place : ℕ → Place O) (next : ℕ → ℕ) (tops sizes : O → ℕ) (o : O)
      → Stacks place next tops sizes
      → tops o ≢ 0
      → (n : ℕ) × (sizes o ≡ suc n) × (place (tops o) ≡ at o n)
  unfolding Stacks Seg
  Stacks-top place next tops sizes o h some_node = of_size (sizes o) refl
    where
      of_size : (m : ℕ) → sizes o ≡ m → (n : ℕ) × (sizes o ≡ suc n) × (place (tops o) ≡ at o n)
      of_size zero e = absurd (some_node (subst (Seg place next (at o) (tops o)) e (h o)))
      of_size (suc n) e = (n, e, (subst (Seg place next (at o) (tops o)) e (h o)).1)

  pub Stacks-bottom :
      (place : ℕ → Place O) (next : ℕ → ℕ) (tops sizes : O → ℕ) (o : O)
      → Stacks place next tops sizes
      → tops o ≡ 0
      → sizes o ≡ 0
  unfolding Stacks Seg
  Stacks-bottom place next tops sizes o h none_there = of_size (sizes o) refl
    where
      of_size : (m : ℕ) → sizes o ≡ m → sizes o ≡ 0
      of_size zero e = e
      of_size (suc n) e = absurd ((subst (Seg place next (at o) (tops o)) e (h o)).0 none_there)

  pub Stacks-full :
      (place : ℕ → Place O) (next : ℕ → ℕ) (tops sizes : O → ℕ) (o : O) (n : ℕ)
      → Stacks place next tops sizes
      → sizes o ≡ suc n
      → (tops o ≢ 0) × (place (tops o) ≡ at o n)
  unfolding Stacks Seg
  Stacks-full place next tops sizes o n h e =
      let first = subst (Seg place next (at o) (tops o)) e (h o) in (first.0, first.1)

  pub Stacks-empty :
      (place : ℕ → Place O) (next : ℕ → ℕ) (tops sizes : O → ℕ) (o : O)
      → Stacks place next tops sizes
      → sizes o ≡ 0
      → tops o ≡ 0
  unfolding Stacks Seg
  Stacks-empty place next tops sizes o h e = subst (Seg place next (at o) (tops o)) e (h o)

  pub empty-Stacks :
      (place : ℕ → Place O) (next : ℕ → ℕ) (tops sizes : O → ℕ)
      → ((o : O) → (tops o ≡ 0) × (sizes o ≡ 0))
      → Stacks place next tops sizes
  unfolding Stacks
  empty-Stacks place next tops sizes empty o =
      Seg_renamed place next (at o) (empty o).0 (empty o).1 (Seg_nil place next (at o))
