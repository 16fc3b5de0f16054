-- ===== src/Packet/Codec.antt =====
-- The loops of `Packet::Encode` and `Packet::Decode` over the bytes from `_checkSum` on.
use iocp_model_server.Base.{
  ℕ, zero, suc, ◌+◌, ◌%◌, ◌≡◌, refl, ap, List, [], ◌∷◌, Option, none, some, bit_xor, ◌>>=◌, length,
  ◌++◌,
}
use iocp_model_server.Base.Bits.{bit_xor_cancel}

-- `unsigned char`
abbrev pub u8 : ℕ → ℕ
u8 n = n % 256

abbrev pub fixed_key : ℕ
fixed_key = 0x32

-- From the `i`-th byte on, `rounds` times; `p` and `e` are the last plain and encoded values.
unfoldable pub encode_from : ℕ → ℕ → ℕ → ℕ → ℕ → List ℕ → Option (List ℕ)
encode_from zero i key p e xs = some xs
encode_from (suc rounds) i key p e [] = none
encode_from (suc rounds) i key p e (x ∷ xs) =
    let n = u8 (i + 1) in
    let p' = bit_xor x (u8 (p + key + n)) in
    let e' = bit_xor p' (u8 (e + fixed_key + n)) in
    do rest ← encode_from rounds (i + 1) key p' e' xs; some (e' ∷ rest)

unfoldable pub decode_from : ℕ → ℕ → ℕ → ℕ → ℕ → List ℕ → Option (List ℕ)
decode_from zero i key p e xs = some xs
decode_from (suc rounds) i key p e [] = none
decode_from (suc rounds) i key p e (x ∷ xs) =
    let n = u8 (i + 1) in
    let p' = bit_xor x (u8 (e + fixed_key + n)) in
    do rest ← decode_from rounds (i + 1) key p' x xs; some (bit_xor p' (u8 (p + key + n)) ∷ rest)

-- `checkSum += data[i]`, `rounds` times.
unfoldable pub sum_from : ℕ → ℕ → List ℕ → Option ℕ
sum_from zero acc xs = some acc
sum_from (suc rounds) acc [] = none
sum_from (suc rounds) acc (x ∷ xs) = sum_from rounds (u8 (acc + x)) xs

-- `Decode` undoes `Encode` on any bytes, for every key and at every place of the loop, whatever
-- follows the bytes on either side.
pub decode-encode :
    (i key p e : ℕ) (xs : List ℕ)
    → (ys : List ℕ) × ((rest : List ℕ)
        → encode_from (length xs) i key p e (xs ++ rest) ≡ some (ys ++ rest))
      × ((rest : List ℕ) → decode_from (length xs) i key p e (ys ++ rest) ≡ some (xs ++ rest))
      × (length ys ≡ length xs)
unfolding encode_from decode_from
decode-encode i key p e [] = ([], λ rest. refl, λ rest. refl, refl)
decode-encode i key p e (x ∷ xs) =
    let n = u8 (i + 1) in
    let p' = bit_xor x (u8 (p + key + n)) in
    let e' = bit_xor p' (u8 (e + fixed_key + n)) in
    let (ys, encoded, decoded, same) = decode-encode (i + 1) key p' e' xs in
    (
      e' ∷ ys,
      λ rest. rw (encoded rest),
      λ rest. rw (
        bit_xor_cancel p' (u8 (e + fixed_key + n)),
        decoded rest,
        bit_xor_cancel x (u8 (p + key + n)),
      ),
      ap suc same,
    )

-- `Encode` undoes `Decode` as well: on the bytes of each length the code is a bijection.
pub encode-decode :
    (i key p e : ℕ) (ys : List ℕ)
    → (xs : List ℕ) × ((rest : List ℕ)
        → decode_from (length ys) i key p e (ys ++ rest) ≡ some (xs ++ rest))
      × ((rest : List ℕ) → encode_from (length ys) i key p e (xs ++ rest) ≡ some (ys ++ rest))
      × (length xs ≡ length ys)
unfolding encode_from decode_from
encode-decode i key p e [] = ([], λ rest. refl, λ rest. refl, refl)
encode-decode i key p e (y ∷ ys) =
    let n = u8 (i + 1) in
    let p' = bit_xor y (u8 (e + fixed_key + n)) in
    let (xs, decoded, encoded, same) = encode-decode (i + 1) key p' y ys in
    (
      bit_xor p' (u8 (p + key + n)) ∷ xs,
      λ rest. rw (decoded rest),
      λ rest. rw (
        bit_xor_cancel p' (u8 (p + key + n)),
        bit_xor_cancel y (u8 (e + fixed_key + n)),
        encoded rest,
      ),
      ap suc same,
    )

-- The sum of bytes that `sum_from` computes.
abbrev pub checksum : ℕ → List ℕ → ℕ
checksum acc [] = acc
checksum acc (x ∷ xs) = checksum (u8 (acc + x)) xs

pub sum_from-checksum :
    (acc : ℕ) (xs rest : List ℕ) → sum_from (length xs) acc (xs ++ rest) ≡ some (checksum acc xs)
unfolding sum_from
sum_from-checksum acc [] rest = refl
sum_from-checksum acc (x ∷ xs) rest = sum_from-checksum (u8 (acc + x)) xs rest
