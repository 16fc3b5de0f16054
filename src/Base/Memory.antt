-- ===== src/Base/Memory.antt =====
-- `memcpy` on byte arrays. `none` is an access outside the array, or an `int` that overflows.
use Prim.Native.Nat.{ℕ, ◌+◌, ◌-◌, ◌≤◌, ◌<◌, ◌^◌}
use mathlib.Core.Path.{◌≡◌, refl, ap}
use mathlib.Core.Option.{Option, none, some}
use mathlib.Core.List.{List, ◌++◌}
use native.Mathlib.Omega.{arith}
use iocp_model_server.Base.Tests.{ltb, leb, le→leb, lt→ltb, if◌then◌else◌}
use iocp_model_server.Base.Lists.{
  length, get_or, take, drop, length-append, length-take, length-drop, get_or-append, get_or-take,
  get_or-drop,
}

infixl 5 ◌>>=◌
abbrev pub ◌>>=◌ {ℓ κ} : {A : Type ℓ} {B : Type κ} → Option A → (A → Option B) → Option B
none >>= f = none
some a >>= f = f a

-- What a successful chain went through.
pub >>=-eq-some {ℓ κ} :
    {A : Type ℓ} {B : Type κ} (m : Option A) (f : A → Option B) {b : B}
    → (m >>= f) ≡ some b
    → (a : A) × (m ≡ some a) × (f a ≡ some b)
>>=-eq-some none f h = cc
>>=-eq-some (some a) f h = (a, refl, h)

-- Reads `n` bytes from `off` on.
unfoldable pub read_bytes : ℕ → ℕ → List ℕ → Option (List ℕ)
read_bytes off n buf = if leb (off + n) (length buf) then some (take n (drop off buf)) else none

unfoldable pub read_byte : ℕ → List ℕ → Option ℕ
read_byte off buf = if ltb off (length buf) then some (get_or buf off 0) else none

-- The array with `src` put at `off`.
unfoldable pub splice : ℕ → List ℕ → List ℕ → List ℕ
splice off src buf = take off buf ++ (src ++ drop (off + length src) buf)

-- Writes `src` from `off` on.
unfoldable pub write_bytes : ℕ → List ℕ → List ℕ → Option (List ℕ)
unfolding splice
write_bytes off src buf =
    if leb (off + length src) (length buf) then some (splice off src buf) else none

-- The sum of two `int`s that are not negative; overflow is undefined.
unfoldable pub add_int : ℕ → ℕ → Option ℕ
add_int a b = if ltb (a + b) (2 ^ 31) then some (a + b) else none

pub read_bytes_lem :
    (off n : ℕ) (buf : List ℕ)
    → off + n ≤ length buf
    → read_bytes off n buf ≡ some (take n (drop off buf))
unfolding read_bytes
read_bytes_lem off n buf h = rw (le→leb _ _ h)

pub read_byte_lem :
    (off : ℕ) (buf : List ℕ) → off < length buf → read_byte off buf ≡ some (get_or buf off 0)
unfolding read_byte
read_byte_lem off buf h = rw (lt→ltb _ _ h)

pub write_bytes_lem :
    (off : ℕ) (src buf : List ℕ)
    → off + length src ≤ length buf
    → write_bytes off src buf ≡ some (splice off src buf)
unfolding write_bytes
write_bytes_lem off src buf h = rw (le→leb _ _ h)

pub add_int_lem : (a b : ℕ) → a + b < 2 ^ 31 → add_int a b ≡ some (a + b)
unfolding add_int
add_int_lem a b h = rw (lt→ltb _ _ h)

pub length-splice :
    (off : ℕ) (src buf : List ℕ)
    → off + length src ≤ length buf
    → length (splice off src buf) ≡ length buf
unfolding splice
length-splice off src buf h = omega (
  arith,
  length-append (take off buf) (src ++ drop (off + length src) buf),
  length-append src (drop (off + length src) buf),
  length-take off buf,
  length-drop (off + length src) buf,
)

-- What stands at each place after a write.
pub get_or-splice :
    (off : ℕ) (src buf : List ℕ) (i d : ℕ)
    → off + length src ≤ length buf
    → get_or (splice off src buf) i d ≡ (
        if ltb i off
        then get_or buf i d
        else if ltb i (off + length src)
        then get_or src (i - off) d
        else get_or buf i d)
unfolding splice
get_or-splice off src buf i d h = ground (
  arith,
  get_or-append (take off buf) (src ++ drop (off + length src) buf) i d,
  get_or-append src (drop (off + length src) buf) (i - off) d,
  length-take off buf,
  get_or-take off buf i d,
  get_or-drop (off + length src) buf (i - off - length src) d,
  ap (λ k. get_or buf k d) {x = off + length src + (i - off - length src)} {y = i},
)
