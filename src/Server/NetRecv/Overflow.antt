-- ===== src/Server/NetRecv/Overflow.antt =====
-- What the round does with bytes that no sender of this program makes.
use iocp_model_server.Base.{
  ℕ, ◌+◌, ◌*◌, ◌≤◌, ◌<◌, ◌≡◌, ◌≢◌, ap, ◌∙◌, true, false, List, ◌∷◌, none, some, arith, ltb, ◌==◌,
  length, take, read_bytes_lem, read_byte_lem,
}
use iocp_model_server.Ring.{Ring, get_use_size, peek}
use iocp_model_server.Ring.Contents.{IsValid, contents, length-contents}
use iocp_model_server.Ring.Read.{peek-contents, dequeue_overruns}
use iocp_model_server.Packet.{Packet, alloc}
use iocp_model_server.Packet.Valid
use iocp_model_server.Packet.Field.{le_value}
use iocp_model_server.Packet.Header.{packet_code, header_len}
use iocp_model_server.Server.NetRecv.{waiting, cut_off, cut_out, round}
use iocp_model_server.Server.NetRecv.Step.{IsPooled}

-- Bytes that begin with a header, with any code and any length.
abbrev pub headed : ℕ → ℕ → ℕ → ℕ → ℕ → List ℕ → List ℕ
headed code low high key sum rest = code ∷ low ∷ high ∷ key ∷ sum ∷ rest

-- The length that a header states, its bytes read as an `unsigned short`.
abbrev pub stated : ℕ → ℕ → ℕ
stated low high = low + 256 * high

header_len-headed :
    (code low high key sum : ℕ) (rest : List ℕ)
    → header_len (headed code low high key sum rest) ≡ some (stated low high)
unfolding header_len le_value
header_len-headed code low high key sum rest =
    rw (read_bytes_lem 1 2 (headed code low high key sum rest) (omega arith))
      (ap some (omega arith))

module _ {r : Ring} (p : Packet) (code low high key sum : ℕ) (rest : List ℕ) (v : IsValid r)
    (e : contents r ≡ headed code low high key sum rest) where
  abbrev n : ℕ
  n = stated low high

  used : get_use_size r ≡ 5 + length rest
  used = omega (arith, length-contents r, ap length e)

  header : peek r (some 5) 5 ≡ some (5, headed code low high key sum (take 0 rest))
  header = peek-contents 5 5 v (omega arith) ∙ ground (arith, used) ∙ ap (λ c. some (5, take 5 c)) e

  read : ltb (get_use_size r) 5 ≡ false
  read = ground (arith, used)

  -- A message that is not complete waits for more bytes.
  pub round_waits : length rest < n → round p r ≡ some waiting
  unfolding round
  round_waits h =
      let short : ltb (get_use_size r) (5 + n) ≡ true = ground (arith, used) in
      rw (
        read,
        header,
        header_len-headed code low high key sum (take 0 rest),
        read_byte_lem 0 (headed code low high key sum (take 0 rest)) (omega arith),
        short,
      )

  complete : n ≤ length rest → ltb (get_use_size r) (5 + n) ≡ false
  complete h = ground (arith, used)

  -- A complete message with another code than the program's ends the session.
  pub round_cuts_off : n ≤ length rest → code ≢ packet_code → round p r ≡ some (cut_off r)
  unfolding round
  round_cuts_off h ne =
      let other : (code == packet_code) ≡ false = ground arith in
      rw (
        read,
        header,
        header_len-headed code low high key sum (take 0 rest),
        read_byte_lem 0 (headed code low high key sum (take 0 rest)) (omega arith),
        complete h,
        other,
      )

  -- A complete message with the program's code that states more than 1400 bytes, the size of a packet's
  -- buffer, is copied past the end of the packet's array, whatever it holds.
  pub round_overflows :
      IsPooled p → n ≤ length rest → code ≡ packet_code → 1400 < n → round p r ≡ none
  unfolding round cut_out
  round_overflows w h c big =
      let (_, _, _, size, _) = Valid.alloc-IsValid w.valid in
      let same : (code == packet_code) ≡ true = ground arith in
      rw (
        read,
        header,
        header_len-headed code low high key sum (take 0 rest),
        read_byte_lem 0 (headed code low high key sum (take 0 rest)) (omega arith),
        complete h,
        same,
        dequeue_overruns r (alloc p).buffer_size (5 + n) (omega (arith, used))
            (omega (arith, w.size)),
      )
