-- ===== src/Packet/Field.antt =====
-- `operator<<` and `operator>>`: numbers as bytes, the least significant first.
pub mod Roundtrip
use iocp_model_server.Base.{
  ℕ, zero, suc, ◌+◌, ◌-◌, ◌*◌, ◌/◌, ◌%◌, ◌^◌, ◌≤◌, ◌<◌, ◌≡◌, refl, sym, ap, ◌∙◌, Bool, true, false,
  List, [], ◌∷◌, ◌++◌, Option, none, some, arith, inl, inr, map, append-nil, append_assoc, length,
  take, drop, ◌>>=◌, length-append, take-append_length, drop-append_length,
}
use native.Mathlib.Nat.{pow-suc}
use iocp_model_server.Packet.{Packet, push, pop}
use iocp_model_server.Packet.Valid.{
  IsValid, contents, room, length-contents, extended, extended-IsValid, contents-extended,
  push-extended, consumed, consumed-IsValid, contents-consumed, pop-consumed,
}

-- The types that the operators are declared for. A value is its bit pattern.
pub data Scalar : Type 0 where
  uchar char short ushort int long ulong float int64 double : Scalar

-- `sizeof`, on the program's platform.
abbrev pub size_of : Scalar → ℕ
size_of uchar = 1
size_of char = 1
size_of short = 2
size_of ushort = 2
size_of int = 4
size_of long = 4
size_of ulong = 4
size_of float = 4
size_of int64 = 8
size_of double = 8

unfoldable pub le_bytes : ℕ → ℕ → List ℕ
le_bytes zero n = []
le_bytes (suc w) n = n % 256 ∷ le_bytes w (n / 256)

unfoldable pub le_value : List ℕ → ℕ
le_value [] = 0
le_value (x ∷ xs) = x + 256 * le_value xs

pub length-le_bytes : (w n : ℕ) → length (le_bytes w n) ≡ w
unfolding le_bytes
length-le_bytes zero n = refl
length-le_bytes (suc w) n = ap suc (length-le_bytes w (n / 256))

pub le_value-le_bytes : (w n : ℕ) → n < 256 ^ w → le_value (le_bytes w n) ≡ n
unfolding le_bytes le_value
le_value-le_bytes zero n h = omega arith
le_value-le_bytes (suc w) n h =
    omega (arith, le_value-le_bytes w (n / 256) (omega (arith, pow-suc 256 w)))

-- `<<` ignores what `_Push` returns.
unfoldable pub put : Scalar → ℕ → Packet → Option Packet
put t n p = do (_, q) ← push p (le_bytes (size_of t) n); some q

-- `>>`: the value is `none` where the variable is left as it was.
unfoldable pub get : Scalar → Packet → Option (Option ℕ × Packet)
get t p = do
  (out, q) ← pop p (size_of t)
  some (elim out [ none ↦ none | some bytes ↦ some (le_value bytes) ], q)

-- A chain of `<<`, and one of `>>`.
abbrev pub Fields : Type 0
Fields = List (Scalar × ℕ)

unfoldable pub put_all : Fields → Packet → Option Packet
put_all [] p = some p
put_all ((t, n) ∷ fs) p = put t n p >>= put_all fs

unfoldable pub get_all : List Scalar → Packet → Option (List (Option ℕ) × Packet)
get_all [] p = some ([], p)
get_all (t ∷ ts) p = do (out, q) ← get t p; (outs, q') ← get_all ts q; some (out ∷ outs, q')

abbrev pub bytes_of : Fields → List ℕ
bytes_of [] = []
bytes_of ((t, n) ∷ fs) = le_bytes (size_of t) n ++ bytes_of fs

abbrev pub InRange : Fields → Type 0
InRange [] = Unit
InRange ((t, n) ∷ fs) = (n < 256 ^ size_of t) × InRange fs

abbrev pub types : Fields → List Scalar
types = map (λ f. f.0)

abbrev pub values : Fields → List (Option ℕ)
values = map (λ f. some f.1)
