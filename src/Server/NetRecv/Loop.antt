-- ===== src/Server/NetRecv/Loop.antt =====
-- The loop of `RecvProc`: which packets `OnRecv` gets, and that the loop ends.
use iocp_model_server.Base.{
  ℕ, zero, suc, ◌+◌, ◌≤◌, ◌<◌, ◌≡◌, ◌≢◌, inl, inr, refl, sym, subst, >>=-eq-some, ap, ap₂, ◌∙◌,
  true, List, [], ◌∷◌, ◌++◌, map, Option, none, some, arith, ltb, leb, Bool-cases, read_byte,
  leb→le, length-drop, length, length-append,
}
use iocp_model_server.Ring.{Ring, get_use_size, get_free_size, peek}
use iocp_model_server.Ring.Contents.{IsValid, contents, length-contents}
use iocp_model_server.Ring.Read.{dequeue-Dequeued, dequeue_overruns}
use iocp_model_server.Ring.Direct.{Received, move_rear-contents}
use iocp_model_server.Packet.{Packet, alloc}
use iocp_model_server.Packet.Valid
use iocp_model_server.Packet.Header.{header_len}
use iocp_model_server.Packet.Header.Roundtrip.{Frame, length-Frame}
use iocp_model_server.Server.NetRecv.{
  Round, waiting, cut_off, message, cut_out, round, Run, finished, out_of_fuel, deliver, loop,
  recv_proc,
}
use iocp_model_server.Server.NetRecv.Step.{IsPooled, round-message}
use iocp_model_server.Server.NetRecv.Overflow.{headed, stated, round_waits}

-- A payload that fits a packet, and its bytes on the wire.
pub record Message : Type 0 where
  pub body : List ℕ
  pub wire : List ℕ
  pub frame : Frame body wire
  pub fits : length body ≤ 1400

abbrev pub stream : List Message → List ℕ → List ℕ
stream [] rest = rest
stream (m ∷ ms) rest = m.wire ++ stream ms rest

-- The first bytes of a message that has not come in whole.
pub data Incomplete : List ℕ → Type 0 where
  header_missing : {rest : List ℕ} → length rest < 5 → Incomplete rest
  body_missing :
      {bytes : List ℕ} (code low high key sum : ℕ) (rest : List ℕ)
      → bytes ≡ headed code low high key sum rest
      → length rest < stated low high
      → Incomplete bytes

round-waiting :
    {r : Ring} {bytes : List ℕ} (p : Packet)
    → IsValid r
    → contents r ≡ bytes
    → Incomplete bytes
    → round p r ≡ some waiting
unfolding round
round-waiting {r} p v e (header_missing h) = ground (arith, length-contents r, ap length e)
round-waiting p v e (body_missing code low high key sum rest form h) =
    round_waits p code low high key sum rest v (e ∙ form) h

-- What the loop has done with a stream of messages.
pub record Delivered (ms : List Message) (rest : List ℕ) (run : Run) : Type 0 where
  pub ring : Ring
  pub packets : List Packet
  pub result : run ≡ finished true ring packets
  pub bodies : map Valid.contents packets ≡ map (λ m. m.body) ms
  pub left : contents ring ≡ rest
  pub valid : IsValid ring

pub loop-Delivered :
    (ms : List Message) (rest : List ℕ) (fuel : ℕ) (pool : ℕ → Packet) {r : Ring}
    → ((i : ℕ) → IsPooled (pool i))
    → IsValid r
    → contents r ≡ stream ms rest
    → Incomplete rest
    → length ms < fuel
    → Delivered ms rest (loop fuel pool r)
unfolding loop deliver
loop-Delivered ms rest zero pool w v e i h = absurd (omega arith)
loop-Delivered [] rest (suc fuel) pool {r} w v e i h = record {
  ring = r;
  packets = [];
  result = rw (loop, round-waiting (pool 0) v e i);
  bodies = refl;
  left = e;
  valid = v;
}
loop-Delivered (m ∷ ms) rest (suc fuel) pool w v e i h =
    let (d, r', took, body, _, left, valid) =
      round-message (stream ms rest) v (w 0) m.frame e m.fits in
    let later =
      loop-Delivered ms rest fuel (λ k. pool (suc k)) (λ k. w (suc k)) valid left i (omega arith) in
    record {
      ring = later.ring;
      packets = d ∷ later.packets;
      result = rw (loop, took) (ap (deliver d) later.result);
      bodies = ap₂ ◌∷◌ body later.bodies;
      left = later.left;
      valid = later.valid;
    }

cut_out-shorter :
    {r : Ring} (q : Packet) (n : ℕ) {d : Packet} {r' : Ring}
    → IsValid r
    → 5 + n ≤ get_use_size r
    → cut_out q r n ≡ some (message d r')
    → IsValid r' × (get_use_size r' < get_use_size r)
unfolding cut_out
cut_out-shorter {r} q n {d} {r'} v used h = elim (Bool-cases (leb (5 + n) q.buffer_size)) [
  | inl room ↦
      let taken = dequeue-Dequeued q.buffer_size (5 + n) v (leb→le _ _ room) used in
      let same : r' ≡ taken.ring = ground (arith, taken.result) in
      (
        subst IsValid (sym same) taken.valid,
        rw same (
            omega (
              arith,
              length-contents taken.ring,
              ap length taken.holds,
              length-drop (5 + n) (contents r),
              length-contents r,
            )),
      )
  | inr tight ↦ absurd (ground (arith, dequeue_overruns r q.buffer_size (5 + n)))
]

round-shorter :
    {r : Ring} (p : Packet) {d : Packet} {r' : Ring}
    → IsValid r
    → round p r ≡ some (message d r')
    → IsValid r' × (get_use_size r' < get_use_size r)
unfolding round
round-shorter {r} p {d} {r'} v h = elim (Bool-cases (ltb (get_use_size r) 5)) [
  | inl short ↦ absurd (ground arith)
  | inr enough ↦
      let (a, _, h₁) = >>=-eq-some (peek r (some 5) 5) _ (rw enough at h) in
      let (n, _, h₂) = >>=-eq-some (header_len a.1) _ h₁ in
      let (code, _, h₃) = >>=-eq-some (read_byte 0 a.1) _ h₂ in
      elim (Bool-cases (ltb (get_use_size r) (5 + n))) [
        | inl waits ↦ absurd (ground arith)
        | inr whole ↦ cut_out-shorter (alloc p) n {d = d} {r' = r'} v (ground arith) (ground arith)
      ]
]

deliver-ne : (d : Packet) (run : Run) → run ≢ out_of_fuel → deliver d run ≢ out_of_fuel
unfolding deliver
deliver-ne d run h = ground arith

loop-ends_step :
    (fuel : ℕ) (pool : ℕ → Packet) {r : Ring} (o : Option Round)
    → IsValid r
    → get_use_size r < suc fuel
    → round (pool 0) r ≡ o
    → ((r' : Ring)
        → IsValid r'
        → get_use_size r' < fuel
        → loop fuel (λ i. pool (suc i)) r' ≢ out_of_fuel)
    → loop (suc fuel) pool r ≢ out_of_fuel
unfolding loop
loop-ends_step fuel pool none v h e rest = rw (e, loop) (λ q. cc)
loop-ends_step fuel pool (some waiting) v h e rest = rw (e, loop) (λ q. cc)
loop-ends_step fuel pool (some (cut_off r')) v h e rest = rw (e, loop) (λ q. cc)
loop-ends_step fuel pool (some (message d r')) v h e rest =
    let (valid, shorter) = round-shorter (pool 0) v e in
    rw (e, loop) (deliver-ne d _ (rest r' valid (omega arith)))

-- Whatever a valid ring holds and whichever packets the pool hands out, as many rounds as there are
-- bytes, and one, are enough for the loop.
pub loop-ends :
    (fuel : ℕ) (pool : ℕ → Packet) {r : Ring}
    → IsValid r
    → get_use_size r < fuel
    → loop fuel pool r ≢ out_of_fuel
loop-ends zero pool v h = absurd (omega arith)
loop-ends (suc fuel) pool {r} v h =
    loop-ends_step fuel pool (round (pool 0) r) v h refl
      λ r' w k. loop-ends fuel (λ i. pool (suc i)) {r = r'} w k

length-stream : (ms : List Message) (rest : List ℕ) → length ms ≤ length (stream ms rest)
length-stream [] rest = omega arith
length-stream (m ∷ ms) rest =
    omega
      (arith, length-append m.wire (stream ms rest), length-stream ms rest, length-Frame m.frame)

-- When `d` is received behind what the ring holds, and the two together are a run of messages and
-- the first bytes of another, `RecvProc` hands the payloads of the messages to `OnRecv`, each once and in
-- order, the session goes on, and the ring keeps the bytes that are left.
pub recv_proc-Delivered :
    (ms : List Message) (rest d buf : List ℕ) (pool : ℕ → Packet) {r : Ring}
    → ((i : ℕ) → IsPooled (pool i))
    → IsValid r
    → Received r d buf
    → length d ≤ get_free_size r
    → contents r ++ d ≡ stream ms rest
    → Incomplete rest
    → Delivered ms rest (recv_proc pool (record r { buf = buf }) (length d))
unfolding recv_proc
recv_proc-Delivered ms rest d buf pool {r} w v got fits e i =
    let (r', moved, holds, valid, _) = move_rear-contents v d buf got fits in
    rw (moved, recv_proc)
      (loop-Delivered ms rest (suc (get_use_size r')) pool w valid (holds ∙ e) i
        (omega (arith, length-stream ms rest, length-contents r', ap length (holds ∙ e))))
