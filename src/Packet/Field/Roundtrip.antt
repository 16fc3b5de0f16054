-- ===== src/Packet/Field/Roundtrip.antt =====
-- What a chain of `<<` writes, a chain of `>>` of the same types reads.
use iocp_model_server.Base.{
  ℕ, ◌-◌, ◌^◌, ◌≤◌, ◌<◌, ◌≡◌, refl, sym, ap, ◌∙◌, List, [], ◌∷◌, ◌++◌, some, arith, append-nil,
  append_assoc, length, drop, length-append, take-append_length, drop-append_length,
}
use iocp_model_server.Packet.{Packet}
use iocp_model_server.Packet.Valid.{
  IsValid, contents, room, length-contents, extended, extended-IsValid, contents-extended,
  push-extended, consumed, consumed-IsValid, contents-consumed, pop-consumed,
}
use iocp_model_server.Packet.Field.{
  Scalar, size_of, uchar, le_bytes, length-le_bytes, le_value-le_bytes, put, get, put_all, get_all,
  Fields, bytes_of, InRange, types, values,
}

size_of_pos : (t : Scalar) → 0 < size_of t
size_of_pos uchar = omega arith
size_of_pos _ = omega arith

pub put-extended :
    {p : Packet} (t : Scalar) (n : ℕ)
    → IsValid p
    → size_of t ≤ room p
    → put t n p ≡ some (extended p (le_bytes (size_of t) n))
unfolding put
put-extended {p} t n v h =
    let same = length-le_bytes (size_of t) n in
    rw (
      push-extended (le_bytes (size_of t) n) v (omega (arith, same))
        (omega (arith, same, size_of_pos t)))

room-extended : (p : Packet) (src : List ℕ) → room (extended p src) ≡ room p - length src
unfolding extended
room-extended p src = omega arith

-- A chain of `<<` for which there is room writes all of its values behind the packet's data.
pub put_all-contents :
    (fs : Fields) {p : Packet}
    → IsValid p
    → length (bytes_of fs) ≤ room p
    → (q : Packet) × (put_all fs p ≡ some q) × (contents q ≡ contents p ++ bytes_of fs) × IsValid q
unfolding put_all
put_all-contents [] {p} v h = (p, refl, sym (append-nil (contents p)), v)
put_all-contents ((t, n) ∷ fs) {p} v h =
    let bs = le_bytes (size_of t) n in
    let same = length-le_bytes (size_of t) n in
    let all = length-append bs (bytes_of fs) in
    let fits : length bs ≤ room p = omega (arith, all) in
    let (q, wrote, holds, valid) =
      put_all-contents fs {p = extended p bs} (extended-IsValid bs v fits)
        (omega (arith, all, room-extended p bs)) in
    (
      q,
      rw (put-extended t n v (omega (arith, same))) wrote,
      rw (holds, contents-extended bs v fits) (append_assoc (contents p) bs (bytes_of fs)),
      valid,
    )

get-consumed :
    {p : Packet} (t : Scalar) (n : ℕ) (rest : List ℕ)
    → IsValid p
    → contents p ≡ le_bytes (size_of t) n ++ rest
    → n < 256 ^ size_of t
    → (q : Packet) × (get t p ≡ some (some n, q)) × (contents q ≡ rest) × IsValid q
unfolding get
get-consumed {p} t n rest v e h =
    let k = size_of t in
    let bs = le_bytes k n in
    let same = length-le_bytes k n in
    let enough : k ≤ p.write_pos - p.read_pos =
      omega (arith, same, length-contents v, ap length e, length-append bs rest) in
    (
      consumed p k,
      rw (
        pop-consumed k v (size_of_pos t) enough,
        e,
        take-append_length k bs rest same,
        le_value-le_bytes k n h,
      ),
      contents-consumed k v enough ∙ ap (drop k) e ∙ drop-append_length k bs rest same,
      consumed-IsValid k v enough,
    )

-- A chain of `>>` reads the values that stand at the front of the packet's data, each at its type.
pub get_all-values :
    (fs : Fields) {p : Packet} (rest : List ℕ)
    → IsValid p
    → contents p ≡ bytes_of fs ++ rest
    → InRange fs
    → (q : Packet) × (get_all (types fs) p ≡ some (values fs, q)) × (contents q ≡ rest) × IsValid q
unfolding get_all
get_all-values [] {p} rest v e h = (p, refl, e, v)
get_all-values ((t, n) ∷ fs) {p} rest v e h =
    let split = append_assoc (le_bytes (size_of t) n) (bytes_of fs) rest in
    let (q, got, holds, valid) = get-consumed t n (bytes_of fs ++ rest) v (e ∙ split) h.0 in
    let (q', gots, left, valid') = get_all-values fs rest valid holds h.1 in
    (q', rw (got, gots), left, valid')

-- In an empty packet with room for them, a chain of `<<` of values in range leaves what a chain of
-- `>>` of the same types reads back, and after that the packet is empty again.
pub get_all-put_all :
    (fs : Fields) {p : Packet}
    → IsValid p
    → contents p ≡ []
    → length (bytes_of fs) ≤ room p
    → InRange fs
    → (q : Packet) × (q' : Packet) × (put_all fs p ≡ some q)
      × (get_all (types fs) q ≡ some (values fs, q'))
      × (contents q' ≡ [])
      × IsValid q'
get_all-put_all fs {p} v empty fits h =
    let (q, wrote, holds, valid) = put_all-contents fs v fits in
    let (q', got, left, valid') =
      get_all-values fs [] valid
        (holds ∙ ap (λ c. c ++ bytes_of fs) empty ∙ sym (append-nil (bytes_of fs))) h in
    (q, q', wrote, got, left, valid')
