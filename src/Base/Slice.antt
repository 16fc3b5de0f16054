-- ===== src/Base/Slice.antt =====
-- The bytes of a range, and what a write does to them.
use Prim.Native.Nat.{ℕ, ◌+◌, ◌-◌, ◌≤◌, ◌<◌}
use mathlib.Core.Path.{◌≡◌, refl, sym, ap, ap₂, ◌∙◌}
use mathlib.Core.Logic.{◌⊎◌, inl}
use mathlib.Core.List.{List, ◌++◌}
use native.Mathlib.Omega.{arith}
use iocp_model_server.Base.Lists.{
  length, get_or, take, drop, length-take, length-drop, take-append_length, drop-append_length,
}
use iocp_model_server.Base.Tabulate.{tabulate-add, tabulate-congr, tabulate-get_or, take-drop_table}
use iocp_model_server.Base.Memory.{splice, length-splice, get_or-splice}

abbrev pub slice : ℕ → ℕ → List ℕ → List ℕ
slice off n xs = take n (drop off xs)

pub length-slice : (off n : ℕ) (xs : List ℕ) → off + n ≤ length xs → length (slice off n xs) ≡ n
length-slice off n xs h = omega (arith, length-take n (drop off xs), length-drop off xs)

pub slice-append :
    (off m n : ℕ) (xs : List ℕ)
    → off + m + n ≤ length xs
    → slice off (m + n) xs ≡ slice off m xs ++ slice (off + m) n xs
slice-append off m n xs h =
    take-drop_table off (m + n) xs 0 (omega arith)
    ∙ tabulate-add m n (λ i. get_or xs (off + i) 0)
    ∙ ap₂ ◌++◌ (sym (take-drop_table off m xs 0 (omega arith))) (
        tabulate-congr n _ _
          (λ i k. ap (λ t. get_or xs t 0) {x = off + (m + i)} {y = off + m + i} (omega arith))
        ∙ sym (take-drop_table (off + m) n xs 0 h))

-- Two arrays that agree on a range have the same bytes there.
pub slice-congr :
    (off n : ℕ) (xs ys : List ℕ)
    → off + n ≤ length xs
    → off + n ≤ length ys
    → ((i : ℕ) → i < n → get_or xs (off + i) 0 ≡ get_or ys (off + i) 0)
    → slice off n xs ≡ slice off n ys
slice-congr off n xs ys h k same =
    take-drop_table off n xs 0 h ∙ tabulate-congr n _ _ same ∙ sym (take-drop_table off n ys 0 k)

-- A write changes the bytes that it covers,
pub slice-splice_self :
    (off : ℕ) (src buf : List ℕ)
    → off + length src ≤ length buf
    → slice off (length src) (splice off src buf) ≡ src
slice-splice_self off src buf h =
    take-drop_table off (length src) (splice off src buf) 0
      (omega (arith, length-splice off src buf h))
    ∙ tabulate-congr (length src) _ _ at
    ∙ tabulate-get_or (length src) src 0 refl
  where
    at : (i : ℕ) → i < length src → get_or (splice off src buf) (off + i) 0 ≡ get_or src i 0
    at i k = ground (
      arith,
      get_or-splice off src buf (off + i) 0 h,
      ap (λ t. get_or src t 0) {x = off + i - off} {y = i},
    )

-- and no others.
pub slice-splice_other :
    (from n off : ℕ) (src buf : List ℕ)
    → off + length src ≤ length buf
    → from + n ≤ length buf
    → (from + n ≤ off) ⊎ (off + length src ≤ from)
    → slice from n (splice off src buf) ≡ slice from n buf
slice-splice_other from n off src buf h k apart =
    slice-congr from n (splice off src buf) buf (omega (arith, length-splice off src buf h)) k at
  where
    at : (i : ℕ) → i < n → get_or (splice off src buf) (from + i) 0 ≡ get_or buf (from + i) 0
    at i j = ground (arith, get_or-splice off src buf (from + i) 0 h)

-- A write at the end of a range makes the range longer by what is written.
pub slice-splice_end :
    (off n : ℕ) (src buf : List ℕ)
    → off + n + length src ≤ length buf
    → slice off (n + length src) (splice (off + n) src buf) ≡ slice off n buf ++ src
slice-splice_end off n src buf h =
    slice-append off n (length src) (splice (off + n) src buf)
      (omega (arith, length-splice (off + n) src buf h))
    ∙ ap₂ ◌++◌ (slice-splice_other off n (off + n) src buf h (omega arith) (inl (omega arith)))
        (slice-splice_self (off + n) src buf h)

pub take-slice :
    (m off n : ℕ) (xs : List ℕ)
    → off + (m + n) ≤ length xs
    → take m (slice off (m + n) xs) ≡ slice off m xs
take-slice m off n xs h =
    ap (take m) (slice-append off m n xs (omega arith))
    ∙ take-append_length m (slice off m xs) _ (length-slice off m xs (omega arith))

pub drop-slice :
    (m off n : ℕ) (xs : List ℕ)
    → off + (m + n) ≤ length xs
    → drop m (slice off (m + n) xs) ≡ slice (off + m) n xs
drop-slice m off n xs h =
    ap (drop m) (slice-append off m n xs (omega arith))
    ∙ drop-append_length m (slice off m xs) _ (length-slice off m xs (omega arith))
