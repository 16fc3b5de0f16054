-- ===== src/Server/LanRecv/Loop.antt =====
-- The loop of the lan server's `RecvProc`: which packets `OnRecv` gets.
use iocp_model_server.Base.{
  ℕ, zero, suc, ◌+◌, ◌*◌, ◌≤◌, ◌<◌, ◌≡◌, refl, ap, ap₂, ◌∙◌, true, false, List, [], ◌∷◌, ◌++◌, map,
  some, arith, ltb, length, length-append, take,
}
use iocp_model_server.Ring.{Ring, get_use_size, get_free_size, peek}
use iocp_model_server.Ring.Contents.{IsValid, contents, length-contents}
use iocp_model_server.Ring.Read.{peek-contents}
use iocp_model_server.Ring.Direct.{Received, move_rear-contents}
use iocp_model_server.Packet.{Packet}
use iocp_model_server.Packet.Valid
use iocp_model_server.Server.NetRecv.{Run, waiting, finished, deliver}
use iocp_model_server.Server.NetRecv.Step.{IsPooled}
use iocp_model_server.Server.LanRecv.{
  lan_round, lan_loop, lan_recv_proc, lan_round-message, le_value-pair,
}

-- A payload that fits a packet, and its length in two bytes.
pub record LanMessage : Type 0 where
  pub low : ℕ
  pub high : ℕ
  pub body : List ℕ
  pub len : low + 256 * high ≡ length body
  pub fits : length body ≤ 1400

abbrev pub lan_stream : List LanMessage → List ℕ → List ℕ
lan_stream [] rest = rest
lan_stream (m ∷ ms) rest = m.low ∷ m.high ∷ (m.body ++ lan_stream ms rest)

-- The first bytes of a message that has not come in whole.
pub data LanIncomplete : List ℕ → Type 0 where
  header_missing : {rest : List ℕ} → length rest < 2 → LanIncomplete rest
  body_missing :
      (low high : ℕ) (rest : List ℕ)
      → length rest < low + 256 * high
      → LanIncomplete (low ∷ high ∷ rest)

lan_round-waiting :
    {r : Ring} {bytes : List ℕ} (p : Packet)
    → IsValid r
    → contents r ≡ bytes
    → LanIncomplete bytes
    → lan_round p r ≡ some waiting
unfolding lan_round
lan_round-waiting {r} p v e (header_missing h) = ground (arith, length-contents r, ap length e)
lan_round-waiting {r} p v e (body_missing low high rest h) =
    let used : get_use_size r ≡ 2 + length rest = omega (arith, length-contents r, ap length e) in
    let header : peek r (some 2) 2 ≡ some (2, low ∷ high ∷ []) =
      peek-contents 2 2 v (omega arith) ∙ ground (arith, used) ∙ ap (λ c. some (2, take 2 c)) e in
    let enough : ltb (get_use_size r) 2 ≡ false = ground (arith, used) in
    let short : ltb (get_use_size r) (2 + (low + 256 * high)) ≡ true = ground (arith, used, h) in
    rw (enough, header, le_value-pair low high, short) refl

pub record LanDelivered (ms : List LanMessage) (rest : List ℕ) (run : Run) : Type 0 where
  pub ring : Ring
  pub packets : List Packet
  pub result : run ≡ finished true ring packets
  pub bodies : map Valid.contents packets ≡ map (λ m. m.body) ms
  pub left : contents ring ≡ rest
  pub valid : IsValid ring

lan_loop-LanDelivered :
    (ms : List LanMessage) (rest : List ℕ) (fuel : ℕ) (pool : ℕ → Packet) {r : Ring}
    → ((i : ℕ) → IsPooled (pool i))
    → IsValid r
    → contents r ≡ lan_stream ms rest
    → LanIncomplete rest
    → length ms < fuel
    → LanDelivered ms rest (lan_loop fuel pool r)
unfolding lan_loop deliver
lan_loop-LanDelivered ms rest zero pool w v e i h = absurd (omega arith)
lan_loop-LanDelivered [] rest (suc fuel) pool {r} w v e i h = record {
  ring = r;
  packets = [];
  result = rw (lan_loop, lan_round-waiting (pool 0) v e i);
  bodies = refl;
  left = e;
  valid = v;
}
lan_loop-LanDelivered (m ∷ ms) rest (suc fuel) pool w v e i h =
    let (d, r', took, body, _, left, valid) =
      lan_round-message m.low m.high m.body (lan_stream ms rest) v (w 0) m.len e m.fits in
    let later =
      lan_loop-LanDelivered ms rest fuel (λ k. pool (suc k)) (λ k. w (suc k)) valid left i
        (omega arith) in
    record {
      ring = later.ring;
      packets = d ∷ later.packets;
      result = rw (lan_loop, took) (ap (deliver d) later.result);
      bodies = ap₂ ◌∷◌ body later.bodies;
      left = later.left;
      valid = later.valid;
    }

length-lan_stream : (ms : List LanMessage) (rest : List ℕ) → length ms ≤ length (lan_stream ms rest)
length-lan_stream [] rest = omega arith
length-lan_stream (m ∷ ms) rest =
    omega (arith, length-append m.body (lan_stream ms rest), length-lan_stream ms rest)

-- When `d` is received behind what the ring holds, and the two together are a run of messages of at
-- most 1400 bytes and the first bytes of another, the lan server's `RecvProc` ends, has handed the
-- payloads to `OnRecv`, each once and in order, and the ring keeps the bytes that are left.
pub lan_recv_proc-LanDelivered :
    (ms : List LanMessage) (rest d buf : List ℕ) (pool : ℕ → Packet) {r : Ring}
    → ((i : ℕ) → IsPooled (pool i))
    → IsValid r
    → Received r d buf
    → length d ≤ get_free_size r
    → contents r ++ d ≡ lan_stream ms rest
    → LanIncomplete rest
    → LanDelivered ms rest (lan_recv_proc pool (record r { buf = buf }) (length d))
unfolding lan_recv_proc
lan_recv_proc-LanDelivered ms rest d buf pool {r} w v got fits e i =
    let (r', moved, holds, valid, _) = move_rear-contents v d buf got fits in
    rw (moved, lan_recv_proc)
      (lan_loop-LanDelivered ms rest (suc (get_use_size r')) pool w valid (holds ∙ e) i
        (omega (arith, length-lan_stream ms rest, length-contents r', ap length (holds ∙ e))))
