-- ===== src/Base/Tabulate.antt =====
-- The list of the values of a function at 0, 1, ..., n - 1: how byte ranges are compared.
use Prim.Native.Nat.{ℕ, zero, suc, ◌+◌, ◌≤◌, ◌<◌}
use Prim.Native.Nat.add
use mathlib.Core.Path.{◌≡◌, refl, sym, ap, ap₂, ◌∙◌}
use mathlib.Core.List.{List, [], ◌∷◌, ◌++◌}
use native.Mathlib.Omega.{arith}
use iocp_model_server.Base.Lists.{
  length, get_or, take, drop, get_or-drop, get_or-take, length-take, length-drop,
  drop-append_length,
}

module _ {ℓ} {A : Type ℓ} where
  abbrev pub tabulate : ℕ → (ℕ → A) → List A
  tabulate zero f = []
  tabulate (suc n) f = f 0 ∷ tabulate n (λ i. f (suc i))

  pub length-tabulate : (n : ℕ) (f : ℕ → A) → length (tabulate n f) ≡ n
  length-tabulate zero f = refl
  length-tabulate (suc n) f = ap suc (length-tabulate n (λ i. f (suc i)))

  pub tabulate-congr :
      (n : ℕ) (f g : ℕ → A) → ((i : ℕ) → i < n → f i ≡ g i) → tabulate n f ≡ tabulate n g
  tabulate-congr zero f g h = refl
  tabulate-congr (suc n) f g h =
      ap₂ ◌∷◌ (h 0 (omega arith))
        (tabulate-congr n (λ i. f (suc i)) (λ i. g (suc i)) (λ i p. h (suc i) (omega arith)))

  pub tabulate-add :
      (m n : ℕ) (f : ℕ → A) → tabulate (m + n) f ≡ tabulate m f ++ tabulate n (λ i. f (m + i))
  tabulate-add zero n f = simp (add.zero)
  tabulate-add (suc m) n f = simp (add.suc, ← tabulate-add m n (λ i. f (suc i)))

  -- A list is the table of its elements.
  pub tabulate-get_or :
      (n : ℕ) (xs : List A) (d : A) → length xs ≡ n → tabulate n (λ i. get_or xs i d) ≡ xs
  tabulate-get_or zero [] d h = refl
  tabulate-get_or zero (x ∷ xs) d h = absurd (omega arith)
  tabulate-get_or (suc n) [] d h = absurd (omega arith)
  tabulate-get_or (suc n) (x ∷ xs) d h = ap (◌∷◌ x) (tabulate-get_or n xs d (omega arith))

  pub take-tabulate : (m n : ℕ) (f : ℕ → A) → m ≤ n → take m (tabulate n f) ≡ tabulate m f
  take-tabulate zero n f h = refl
  take-tabulate (suc m) zero f h = absurd (omega arith)
  take-tabulate (suc m) (suc n) f h =
      ap (◌∷◌ (f 0)) (take-tabulate m n (λ i. f (suc i)) (omega arith))

  -- The bytes at `off`, `off + 1`, ... of a list that is long enough.
  pub take-drop_table :
      (off n : ℕ) (xs : List A) (d : A)
      → off + n ≤ length xs
      → take n (drop off xs) ≡ tabulate n (λ i. get_or xs (off + i) d)
  take-drop_table off n xs d h =
      sym (
        tabulate-get_or n (take n (drop off xs)) d
          (omega (arith, length-take n (drop off xs), length-drop off xs)))
      ∙ tabulate-congr n _ _ (λ i p. get_or-take n (drop off xs) i d p ∙ get_or-drop off xs i d)

  pub drop-tabulate :
      (m n : ℕ) (f : ℕ → A) → drop m (tabulate (m + n) f) ≡ tabulate n (λ i. f (m + i))
  drop-tabulate m n f = rw (tabulate-add m n f) (drop-append_length m _ _ (length-tabulate m f))
