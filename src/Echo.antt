-- ===== src/Echo.antt =====
-- NetworkLibrary/CLanServer/EchoServer.cpp, `OnRecv`: a number is read from a message and sent back.
mod Tests
use iocp_model_server.Base.{
  ℕ, ◌+◌, ◌-◌, ◌≤◌, ◌<◌, ◌≡◌, refl, sym, ap, ◌∙◌, Bool, true, false, Bool-cases, inl, inr, List, [],
  ◌∷◌, ◌++◌, append-nil, length, take, drop, Option, none, some, ltb, if◌then◌else◌, ◌>>=◌, arith,
}
use iocp_model_server.Packet.{Packet, alloc, pop, header_reserve}
use iocp_model_server.Packet.Valid.{
  IsValid, contents, room, length-contents, pop-consumed, pop_short, consumed, alloc-IsValid,
  extended, contents-extended, extended-IsValid,
}
use iocp_model_server.Packet.Field.{
  Scalar, int64, size_of, le_bytes, length-le_bytes, le_value, get, put,
}
use iocp_model_server.Packet.Field.Roundtrip.{put-extended}
use iocp_model_server.Server.NetRecv.Step.{IsPooled}

-- `data` is not initialised: `left_over` is what its place in memory holds. The result is the packet
-- that goes to `SendPacket`.
unfoldable pub on_recv : ℕ → Packet → Packet → Option Packet
on_recv left_over pooled packet = do
  (read, _) ← get int64 packet
  put int64 (elim read [ none ↦ left_over | some n ↦ n ]) (alloc pooled)

-- The number that is sent back.
abbrev pub echoed : ℕ → List ℕ → ℕ
echoed left_over message = if ltb (length message) 8 then left_over else le_value (take 8 message)

get-echoed :
    (left_over : ℕ) (p : Packet)
    → IsValid p
    → (out : Option ℕ) × (q : Packet) × (get int64 p ≡ some (out, q))
      × ((elim out [ none ↦ left_over | some n ↦ n ]) ≡ echoed left_over (contents p))
unfolding get
get-echoed left_over p v = elim (Bool-cases (ltb (length (contents p)) 8)) [
  | inl e ↦
      let short : p.write_pos - p.read_pos < 8 = ground (arith, e, length-contents v) in
      (none, p, rw (pop_short p 8 short) refl, rw e refl)
  | inr e ↦
      let enough : 8 ≤ p.write_pos - p.read_pos = ground (arith, e, length-contents v) in
      (
        some (le_value (take 8 (contents p))),
        consumed p 8,
        rw (pop-consumed 8 v (omega arith) enough) refl,
        rw e refl,
      )
]

-- `OnRecv` of the echo server answers every message with one number of eight bytes: the one that a
-- message of eight bytes or more begins with, and for a shorter message whatever stood in the memory
-- of a variable that is never written.
pub on_recv-contents :
    (left_over : ℕ) {pooled p : Packet}
    → IsPooled pooled
    → IsValid p
    → (q : Packet) × (on_recv left_over pooled p ≡ some q)
      × (contents q ≡ le_bytes 8 (echoed left_over (contents p)))
      × IsValid q
unfolding on_recv
on_recv-contents left_over {pooled} {p} w v =
    let (out, rest, read, number) = get-echoed left_over p v in
    let n = echoed left_over (contents p) in
    let (fresh, front, back, size, _) = alloc-IsValid w.valid in
    let a = alloc pooled in
    let fits : 8 ≤ room a = omega (arith, w.size, back, size) in
    let empty : contents a ≡ [] =
      ap (λ k. take k (drop a.read_pos a.buf)) {x = a.write_pos - a.read_pos} {y = 0}
        (omega (arith, front, back)) in
    let bytes = le_bytes 8 n in
    let whole : length bytes ≤ room a = omega (arith, length-le_bytes 8 n, fits) in
    (
      extended a bytes,
      rw (read, number) (put-extended int64 n fresh fits),
      contents-extended bytes fresh whole ∙ ap (λ c. c ++ bytes) empty,
      extended-IsValid bytes fresh whole,
    )
