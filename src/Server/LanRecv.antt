-- ===== src/Server/LanRecv.antt =====
-- NetworkLibrary/CLanServer/CLanServer.cpp, `RecvProc`: its loop, and a round of it. The header is a length of
-- two bytes, the messages are not coded, and the payload goes to the write position of the packet.
pub mod Loop
mod Tests
use iocp_model_server.Base.{
  ℕ, zero, suc, ◌+◌, ◌*◌, ◌-◌, ◌≤◌, ◌<◌, ◌≡◌, refl, sym, ap, ◌∙◌, min, false, true, List, [], ◌∷◌,
  ◌++◌, Option, none, some, ltb, if◌then◌else◌, ◌>>=◌, length, take, drop, arith, write_bytes,
  write_bytes_lem, take-append_length, drop-append_length, length-append, splice,
}
use iocp_model_server.Ring.{Ring, get_use_size, peek, dequeue, move_front, move_rear}
use iocp_model_server.Ring.Contents
use iocp_model_server.Ring.Contents.{length-contents}
use iocp_model_server.Ring.Read.{peek-contents, dequeue-Dequeued, move_front-contents}
use iocp_model_server.Packet.{Packet, alloc, move_write_pos, header_reserve}
use iocp_model_server.Packet.Valid
use iocp_model_server.Packet.Valid.{extended, contents-extended, extended-IsValid}
use iocp_model_server.Packet.Data.{move_write_pos_lem}
use iocp_model_server.Packet.Header.{lan_header_size}
use iocp_model_server.Packet.Field.{le_value}
use iocp_model_server.Server.NetRecv.{
  Round, waiting, cut_off, message, Run, finished, fault, out_of_fuel, deliver,
}
use iocp_model_server.Server.NetRecv.Step.{IsPooled}

-- The part of a round behind the header: `Dequeue` to `GetWritePtr`, and `MoveWritePos`.
pub lan_cut_out : Packet → Ring → ℕ → Option Round
lan_cut_out p r len = do
  (_, out, r') ← dequeue r (some (p.buffer_size - p.write_pos)) len
  buf ← write_bytes p.write_pos out p.buf
  let moved = move_write_pos (record p { buf = buf }) len
  some (message moved.1 r')

pub lan_round : Packet → Ring → Option Round
lan_round pooled r =
    let used = get_use_size r in
    if ltb used lan_header_size then some waiting else (do
      (_, header) ← peek r (some lan_header_size) lan_header_size
      let len = le_value header
      if ltb used (lan_header_size + len) then some waiting else (do
        (_, behind) ← move_front r lan_header_size
        lan_cut_out (alloc pooled) behind len))

-- The loop; a round that goes on takes two bytes at least.
pub lan_loop : ℕ → (ℕ → Packet) → Ring → Run
lan_loop zero pool r = out_of_fuel
lan_loop (suc fuel) pool r = elim (lan_round (pool 0) r) [
  | none ↦ fault
  | some o ↦ elim o [
    | waiting ↦ finished true r []
    | cut_off r' ↦ finished false r' []
    | message d r' ↦ deliver d (lan_loop fuel (λ i. pool (suc i)) r')
  ]
]

-- `RecvProc` up to the next `WSARecv`, after `count` bytes have been received.
pub lan_recv_proc : (ℕ → Packet) → Ring → ℕ → Run
lan_recv_proc pool r count = elim (move_rear r count) [
  | none ↦ fault
  | some moved ↦ lan_loop (suc (get_use_size moved.1)) pool moved.1
]

lan_cut_out_lem :
    (p : Packet) (r r' : Ring) (n k : ℕ) (out : List ℕ)
    → Valid.IsValid p
    → dequeue r (some (p.buffer_size - p.write_pos)) n ≡ some (k, out, r')
    → length out ≡ n
    → n ≤ p.buffer_size - p.write_pos
    → lan_cut_out p r n ≡ some (message (extended p out) r')
unfolding lan_cut_out extended
lan_cut_out_lem p r r' n k out v taken size fits =
    rw
      (
        taken,
        write_bytes_lem p.write_pos out p.buf (omega arith),
        move_write_pos_lem (record p { buf = splice p.write_pos out p.buf }) n,
      )
      (ap
        (λ m. some (
          message (record p { buf = splice p.write_pos out p.buf; write_pos = p.write_pos + m })
            r'))
        {x = min n (p.buffer_size - p.write_pos)} {y = length out} (omega arith))

lan_round-lan_cut_out :
    (p : Packet) (r behind : Ring) (n k : ℕ) (bytes : List ℕ) (o : Round)
    → ltb (get_use_size r) 2 ≡ false
    → peek r (some 2) 2 ≡ some (2, bytes)
    → le_value bytes ≡ n
    → ltb (get_use_size r) (2 + n) ≡ false
    → move_front r 2 ≡ some (k, behind)
    → lan_cut_out (alloc p) behind n ≡ some o
    → lan_round p r ≡ some o
unfolding lan_round
lan_round-lan_cut_out p r behind n k bytes o enough read len whole moved cut =
    rw (enough, read, len, whole, moved, cut) refl

pub le_value-pair : (low high : ℕ) → le_value (low ∷ high ∷ []) ≡ low + 256 * high
unfolding le_value
le_value-pair low high = omega arith

module _ {r : Ring} {p : Packet} (low high : ℕ) (body rest : List ℕ) (v : Contents.IsValid r)
    (w : IsPooled p) (len : low + 256 * high ≡ length body)
    (e : Contents.contents r ≡ low ∷ high ∷ (body ++ rest)) where
  used : get_use_size r ≡ 2 + length body + length rest
  used = omega (arith, length-contents r, ap length e, length-append body rest)

  header : peek r (some 2) 2 ≡ some (2, low ∷ high ∷ [])
  header = peek-contents 2 2 v (omega arith) ∙ ground (arith, used) ∙ ap (λ c. some (2, take 2 c)) e

  -- A round of the lan server on bytes that begin with a complete message of at most 1400 bytes of
  -- payload hands the payload to `OnRecv` and takes the message off the ring.
  pub lan_round-message :
      length body ≤ 1400
      → (d : Packet) × (r' : Ring) × (lan_round p r ≡ some (message d r'))
        × (Valid.contents d ≡ body)
        × Valid.IsValid d
        × (Contents.contents r' ≡ rest)
        × Contents.IsValid r'
  lan_round-message fits =
      let (fresh, front, back, size, _) = Valid.alloc-IsValid w.valid in
      let q = alloc p in
      let n = length body in
      let (behind, moved, holds, valid, _) = move_front-contents 2 v in
      let two : min 2 (get_use_size r) ≡ 2 = omega (arith, used) in
      let left : Contents.contents behind ≡ body ++ rest =
        holds ∙ ap (λ k. drop k (Contents.contents r)) two ∙ ap (drop 2) e in
      let there : get_use_size behind ≡ n + length rest =
        omega (arith, length-contents behind, ap length left, length-append body rest) in
      let taken =
        dequeue-Dequeued (q.buffer_size - q.write_pos) n valid (omega (arith, w.size))
          (omega arith) in
      let out : take n (Contents.contents behind) ≡ body =
        ap (take n) left ∙ take-append_length n body rest refl in
      let cut =
        lan_cut_out_lem q behind taken.ring n n body fresh
          (taken.result ∙ ap (λ o. some (n, o, taken.ring)) out) refl (omega (arith, w.size)) in
      let room : n ≤ Valid.room q = omega (arith, w.size) in
      let empty : Valid.contents q ≡ [] =
        ap (λ k. take k (drop q.read_pos q.buf)) {x = q.write_pos - q.read_pos} {y = 0}
          (omega arith) in
      let enough : ltb (get_use_size r) 2 ≡ false = ground (arith, used) in
      let whole : ltb (get_use_size r) (2 + n) ≡ false = ground (arith, used) in
      (
        extended q body,
        taken.ring,
        lan_round-lan_cut_out p r behind n _ (low ∷ high ∷ []) _ enough header
            (le_value-pair low high ∙ len) whole moved cut,
        contents-extended body fresh room ∙ ap (λ c. c ++ body) empty,
        extended-IsValid body fresh room,
        taken.holds ∙ ap (drop n) left ∙ drop-append_length n body rest refl,
        taken.valid,
      )
