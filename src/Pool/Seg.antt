-- ===== src/Pool/Seg.antt =====
-- Linked blocks: `n` of them from the address `a` on, each one in the place that its height gives.
use iocp_model_server.Base.{
  ℕ, zero, suc, List, [], ◌∷◌, ap, ◌∙◌, ◌<◌, ◌≡◌, ◌≢◌, refl, sym, subst, arith,
}

module _ {P : Type 0} where
  unfoldable pub Seg : (ℕ → P) → (ℕ → ℕ) → (ℕ → P) → ℕ → ℕ → Type 0
  Seg place next at a zero = a ≡ 0
  Seg place next at a (suc n) = (a ≢ 0) × (place a ≡ at n) × Seg place next at (next a) n

  -- A list whose blocks and links are what they were is still one, also under new names of places.
  pub Seg_frame :
      {place place' : ℕ → P} {next next' : ℕ → ℕ} {at at' : ℕ → P} (a n : ℕ)
      → ((b k : ℕ) → k < n → place b ≡ at k → (place' b ≡ at' k) × (next' b ≡ next b))
      → Seg place next at a n
      → Seg place' next' at' a n
  unfolding Seg
  Seg_frame a zero keep h = h
  Seg_frame {place} {place'} {next} {next'} {at} {at'} a (suc n) keep (some_block, here, rest) =
      let now = keep a n (omega arith) here in
      (
        some_block,
        now.0,
        subst (λ k. Seg place' next' at' k n) (sym now.1)
            (Seg_frame (next a) n (λ b k lt. keep b k (omega arith)) rest),
      )

  -- A list under other names of its first address and length.
  pub Seg_renamed :
      (place : ℕ → P) (next : ℕ → ℕ) (at : ℕ → P) {a b m n : ℕ}
      → a ≡ b
      → m ≡ n
      → Seg place next at b n
      → Seg place next at a m
  Seg_renamed place next at {a} {b} {m} {n} ea em h =
      subst (λ k. Seg place next at k m) (sym ea) (subst (Seg place next at b) (sym em) h)

  pub Seg_nil : (place : ℕ → P) (next : ℕ → ℕ) (at : ℕ → P) → Seg place next at 0 0
  unfolding Seg
  Seg_nil place next at = refl

-- The addresses of `n` linked nodes, from `a` on.
abbrev pub walk : (ℕ → ℕ) → ℕ → ℕ → List ℕ
walk next a zero = []
walk next a (suc n) = a ∷ walk next (next a) n

-- The nodes of a stack are met in the same order when their links are what they were.
pub walk-frame :
    {P : Type 0} {place : ℕ → P} {next : ℕ → ℕ} {at : ℕ → P} (next' : ℕ → ℕ) (a n : ℕ)
    → ((b k : ℕ) → k < n → place b ≡ at k → next' b ≡ next b)
    → Seg place next at a n
    → walk next' a n ≡ walk next a n
unfolding Seg
walk-frame next' a zero keep h = refl
walk-frame {next = next} next' a (suc n) keep (_, here, rest) = ap (◌∷◌ a) (
    ap (λ k. walk next' k n) (keep a n (omega arith) here)
    ∙ walk-frame next' (next a) n (λ b k lt. keep b k (omega arith)) rest)

pub walk-congr :
    {next next' : ℕ → ℕ} → ((b : ℕ) → next' b ≡ next b) → (a n : ℕ) → walk next' a n ≡ walk next a n
walk-congr same a zero = refl
walk-congr {next} {next'} same a (suc n) =
    ap (◌∷◌ a) (ap (λ k. walk next' k n) (same a) ∙ walk-congr same (next a) n)
