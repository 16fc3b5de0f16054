-- ===== src/Server/NetRecv.antt =====
-- NetworkLibrary/CNetServer/CNetServer/CNetServer.cpp, `RecvProc`: messages are cut out of the bytes
-- that a session has received, decoded, and handed to `OnRecv` one by one.
-- `OnRecv` does not touch the session's ring, so what it is called with is a list. The packets come
-- from a pool that the caller supplies, one for each message.
pub mod Step
pub mod Loop
pub mod Overflow
mod Tests
use iocp_model_server.Base.{
  ℕ, zero, suc, ◌+◌, Bool, true, false, List, [], ◌∷◌, Option, none, some, ltb, ◌==◌, if◌then◌else◌,
  ◌>>=◌, read_byte, write_bytes,
}
use iocp_model_server.Ring.{Ring, get_use_size, peek, dequeue, move_rear}
use iocp_model_server.Packet.{Packet, alloc, move_write_pos}
use iocp_model_server.Packet.Header.{packet_code, net_header_size, header_len, decode}

-- What a round of the loop does: it stops with nothing to cut out, it stops because the session has
-- to be cut off, or it hands a packet to `OnRecv`.
pub data Round : Type 0 where
  waiting : Round
  cut_off : Ring → Round
  message : Packet → Ring → Round

-- The part of a round that takes a message of `len` bytes off the ring.
pub cut_out : Packet → Ring → ℕ → Option Round
cut_out p r len = do
  (_, out, r') ← dequeue r (some p.buffer_size) (net_header_size + len)
  buf ← write_bytes 0 out p.buf
  let moved = move_write_pos (record p { buf = buf }) len
  (ok, d) ← decode moved.1
  some (if ok then message d r' else cut_off r')

-- One round, with the packet that the pool would hand out.
pub round : Packet → Ring → Option Round
round pooled r =
    let used = get_use_size r in
    if ltb used net_header_size then some waiting else (do
      (_, header) ← peek r (some net_header_size) net_header_size
      len ← header_len header
      code ← read_byte 0 header
      if ltb used (net_header_size + len)
          then some waiting
          else (if code == packet_code then cut_out (alloc pooled) r len else some (cut_off r)))

-- How the loop ends: whether the session goes on, its ring, and the packets of `OnRecv` in order.
pub data Run : Type 0 where
  finished : Bool → Ring → List Packet → Run
  fault : Run
  out_of_fuel : Run

unfoldable pub deliver : Packet → Run → Run
deliver d (finished on r ds) = finished on r (d ∷ ds)
deliver d fault = fault
deliver d out_of_fuel = out_of_fuel

-- The loop. A round that goes on takes five bytes at least, so as many rounds as there are bytes
-- are enough.
pub loop : ℕ → (ℕ → Packet) → Ring → Run
loop zero pool r = out_of_fuel
loop (suc fuel) pool r = elim (round (pool 0) r) [
  | none ↦ fault
  | some o ↦ elim o [
    | waiting ↦ finished true r []
    | cut_off r' ↦ finished false r' []
    | message d r' ↦ deliver d (loop fuel (λ i. pool (suc i)) r')
  ]
]

-- `RecvProc` up to `RecvPost`, after `count` bytes have been received.
pub recv_proc : (ℕ → Packet) → Ring → ℕ → Run
recv_proc pool r count = elim (move_rear r count) [
  | none ↦ fault
  | some moved ↦ loop (suc (get_use_size moved.1)) pool moved.1
]
