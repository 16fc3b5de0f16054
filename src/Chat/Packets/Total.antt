-- ===== src/Chat/Packets/Total.antt =====
-- No operation on a valid packet faults, whatever the packet holds.
use iocp_model_server.Base.{
  ℕ, zero, suc, ◌-◌, ◌<◌, ◌≤◌, ◌≡◌, refl, List, [], ◌∷◌, Option, none, some, ltb, arith, length,
  take, min, Bool-cases, inl, inr, length-take,
}
use iocp_model_server.Packet.{Packet, pop, put_data, get_data}
use iocp_model_server.Packet.Valid.{
  IsValid, room, contents, extended, extended-IsValid, push-extended, push_full, consumed,
  consumed-IsValid, pop-consumed, pop_short, length-contents,
}
use iocp_model_server.Packet.Data.{put_data-Written, get_data-consumed}
use iocp_model_server.Packet.Field.{
  Scalar, uchar, char, short, ushort, int, long, ulong, float, int64, double, size_of, le_bytes,
  length-le_bytes, put, get, Fields, put_all, le_value,
}

size_of_pos : (t : Scalar) → 0 < size_of t
size_of_pos uchar = omega arith
size_of_pos char = omega arith
size_of_pos short = omega arith
size_of_pos ushort = omega arith
size_of_pos int = omega arith
size_of_pos long = omega arith
size_of_pos ulong = omega arith
size_of_pos float = omega arith
size_of_pos int64 = omega arith
size_of_pos double = omega arith

pub pop-total :
    {p : Packet} (n : ℕ)
    → IsValid p
    → 0 < n
    → (o : Option (List ℕ)) × (q : Packet) × (pop p n ≡ some (o, q)) × IsValid q
pop-total {p} n v h = elim (Bool-cases (ltb (p.write_pos - p.read_pos) n)) [
  | inl few ↦ (none, p, pop_short p n (ground arith), v)
  | inr enough ↦
      let fits : n ≤ p.write_pos - p.read_pos = ground arith in
      (some (take n (contents p)), consumed p n, pop-consumed n v h fits, consumed-IsValid n v fits)
]

pub get-total :
    {p : Packet} (t : Scalar)
    → IsValid p
    → (o : Option ℕ) × (q : Packet) × (get t p ≡ some (o, q)) × IsValid q
unfolding get
get-total {p} t v =
    let (o, q, e, w) = pop-total (size_of t) v (size_of_pos t) in
    (elim o [ none ↦ none | some bytes ↦ some (le_value bytes) ], q, rw e refl, w)

pub put-total :
    {p : Packet} (t : Scalar) (n : ℕ) → IsValid p → (q : Packet) × (put t n p ≡ some q) × IsValid q
unfolding put
put-total {p} t n v =
    let bytes = le_bytes (size_of t) n in
    let size : length bytes ≡ size_of t = length-le_bytes (size_of t) n in
    elim (Bool-cases (ltb (room p) (length bytes))) [
      | inl full ↦ (p, rw (push_full p bytes (ground arith)) refl, v)
      | inr fits ↦
          let fit : length bytes ≤ room p = ground arith in
          (
            extended p bytes,
            rw (push-extended bytes v fit (omega (arith, size, size_of_pos t))) refl,
            extended-IsValid bytes v fit,
          )
    ]

pub put_all-total :
    (fs : Fields) {p : Packet} → IsValid p → (q : Packet) × (put_all fs p ≡ some q) × IsValid q
unfolding put_all
put_all-total [] {p} v = (p, refl, v)
put_all-total ((t, n) ∷ fs) {p} v =
    let (q, e, w) = put-total t n v in
    let (q', e', w') = put_all-total fs w in (q', rw (e, e') refl, w')

pub get_data-total :
    {p : Packet} (n : ℕ) (space : ℕ)
    → IsValid p
    → n ≤ space
    → (k : ℕ) × (out : List ℕ) × (q : Packet) × (get_data p space n ≡ some (k, out, q))
      × IsValid q
      × (length out ≤ n)
unfolding get_data
get_data-total {p} zero space v h = (0, [], p, refl, v, omega arith)
get_data-total {p} (suc n) space v h =
    let m = min (suc n) (length (contents p)) in
    let fits : m ≤ p.write_pos - p.read_pos = omega (arith, length-contents v) in
    (
      m,
      take m (contents p),
      consumed p m,
      get_data-consumed space (suc n) v (omega arith) h,
      consumed-IsValid m v fits,
      omega (arith, length-take m (contents p)),
    )

pub put_data-total :
    {p : Packet} (src : List ℕ) (n : ℕ)
    → IsValid p
    → n ≤ length src
    → (k : ℕ) × (q : Packet) × (put_data p src n ≡ some (k, q)) × IsValid q
put_data-total src n v h = let w = put_data-Written src n v h in (_, w.packet, w.result, w.valid)
