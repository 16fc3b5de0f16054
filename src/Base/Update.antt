-- ===== src/Base/Update.antt =====
-- Functions changed at one place: how a heap, a map and the threads' places in the code are written.
use Prim.Native.Nat.{ℕ}
use mathlib.Core.Path.{◌≡◌, refl, sym, ap, ◌∙◌, subst, fun_ext}
use mathlib.Core.Logic.{◌≢◌, inl, inr}
use native.Mathlib.Omega.{arith}
use iocp_model_server.Base.Tests.{◌==◌, if◌then◌else◌, Bool-cases}

module _ {ℓ} {A : Type ℓ} where
  unfoldable pub set : (ℕ → A) → ℕ → A → ℕ → A
  set f k v j = if j == k then v else f j

  pub set_here : (f : ℕ → A) (k : ℕ) (v : A) → set f k v k ≡ v
  unfolding set
  set_here f k v = elim (Bool-cases (k == k)) [ inl e ↦ rw e | inr e ↦ absurd (ground arith) ]

  pub set_there : (f : ℕ → A) (k : ℕ) (v : A) (j : ℕ) → j ≢ k → set f k v j ≡ f j
  unfolding set
  set_there f k v j h = elim (Bool-cases (j == k)) [ inl e ↦ absurd (ground arith) | inr e ↦ rw e ]

  -- A field that the new value agrees on with the old one is unchanged everywhere.
  pub set_same {κ} :
      {B : Type κ} (g : A → B) (f : ℕ → A) (k : ℕ) (v : A)
      → g v ≡ g (f k)
      → (j : ℕ) → g (set f k v j) ≡ g (f j)
  set_same g f k v same j = elim (Bool-cases (j == k)) [
    | inl e ↦
        let here : j ≡ k = ground arith in
        ap (λ i. g (set f k v i)) here ∙ ap g (set_here f k v) ∙ same ∙ ap (λ i. g (f i)) (sym here)
    | inr e ↦ ap g (set_there f k v j (ground arith))
  ]

  -- What holds of the new value and, elsewhere, of the old ones holds everywhere.
  pub set_all {κ} :
      (P : ℕ → A → Type κ) (f : ℕ → A) (k : ℕ) (v : A)
      → P k v
      → ((j : ℕ) → j ≢ k → P j (f j))
      → (j : ℕ) → P j (set f k v j)
  set_all P f k v here there j = elim (Bool-cases (j == k)) [
    | inl e ↦
        let same : j ≡ k = ground arith in
        subst (λ i. P i (set f k v i)) (sym same) (subst (P k) (sym (set_here f k v)) here)
    | inr e ↦
        let other : j ≢ k = ground arith in
        subst (P j) (sym (set_there f k v j other)) (there j other)
  ]

  pub set_again : (f : ℕ → A) (k : ℕ) (v w : A) → set (set f k v) k w ≡ set f k w
  set_again f k v w = fun_ext (λ j. elim (Bool-cases (j == k)) [
    | inl e ↦
        let same : j ≡ k = ground arith in
        subst (λ i. set (set f k v) k w i ≡ set f k w i) (sym same)
          (set_here (set f k v) k w ∙ sym (set_here f k w))
    | inr e ↦
        let other : j ≢ k = ground arith in
        set_there (set f k v) k w j other ∙ set_there f k v j other ∙ sym (set_there f k w j other)
  ])

  -- A place changed twice, the second time from what the first change left there.
  pub set_twice :
      (f : ℕ → A) (k : ℕ) (v : A) (g : A → A) → set (set f k v) k (g (set f k v k)) ≡ set f k (g v)
  set_twice f k v g = ap (λ x. set (set f k v) k (g x)) (set_here f k v) ∙ set_again f k v (g v)

-- The same for two functions that are changed together.
pub set_both {ℓ ℓ' κ} :
    {A : Type ℓ} {B : Type ℓ'} (P : ℕ → A → B → Type κ) (f : ℕ → A) (g : ℕ → B) (k : ℕ) (v : A)
    (w : B)
    → P k v w
    → ((j : ℕ) → j ≢ k → P j (f j) (g j))
    → (j : ℕ) → P j (set f k v j) (set g k w j)
set_both P f g k v w here there =
    set_all (λ j x. P j x (set g k w j)) f k v (subst (P k v) (sym (set_here g k w)) here)
      (λ j differ. subst (P j (f j)) (sym (set_there g k w j differ)) (there j differ))

pub set_self {ℓ} : {A : Type ℓ} (f : ℕ → A) (k : ℕ) → set f k (f k) ≡ f
set_self f k = fun_ext (set_all (λ j v. v ≡ f j) f k (f k) refl (λ j differ. refl))
