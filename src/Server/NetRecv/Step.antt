-- ===== src/Server/NetRecv/Step.antt =====
-- One round of the loop, on bytes that begin with a frame.
use iocp_model_server.Base.{
  ℕ, ◌+◌, ◌-◌, ◌≤◌, min, ◌≡◌, refl, ap, ◌∙◌, Bool, true, false, List, ◌++◌, some, arith, ltb,
  if◌then◌else◌, length, take, drop, length-append, take-append_length, drop-append_length, splice,
  write_bytes_lem, read_byte_lem,
}
use iocp_model_server.Ring.{Ring, get_use_size, peek, dequeue}
use iocp_model_server.Ring.Contents
use iocp_model_server.Ring.Contents.{length-contents}
use iocp_model_server.Ring.Read.{peek-contents, dequeue-Dequeued}
use iocp_model_server.Packet.{Packet, header_reserve, alloc, clear, create, create_default}
use iocp_model_server.Packet.Valid
use iocp_model_server.Packet.Data.{move_write_pos_lem}
use iocp_model_server.Packet.Header.{decode}
use iocp_model_server.Packet.Header.Seal.{prefix, header_len-prefix}
use iocp_model_server.Packet.Header.Roundtrip.{Frame, length-Frame, received, decode-Frame}
use iocp_model_server.Server.NetRecv.{cut_off, message, cut_out, round}

-- A packet of the pool: `Packet()` made it, and earlier uses have kept its array.
pub record IsPooled (p : Packet) : Type 0 where
  pub valid : Valid.IsValid p
  pub size : p.buffer_size ≡ 1405

-- The packets that the pool makes are such.
pub create_default-IsPooled : (fill : ℕ) → IsPooled (create_default fill)
unfolding create_default create clear
create_default-IsPooled fill = record { valid = Valid.create-IsValid fill 1400; size = refl }

-- A message whose bytes are taken off the ring, and fit, goes to `OnRecv` if `Decode` accepts it.
pub cut_out_lem :
    (q : Packet) (r : Ring) (n k : ℕ) (wire : List ℕ) (r' : Ring) (on : Bool) (d : Packet)
    → dequeue r (some q.buffer_size) (5 + n) ≡ some (k, wire, r')
    → length wire ≤ length q.buf
    → n ≤ q.buffer_size - q.write_pos
    → decode (received q wire n) ≡ some (on, d)
    → cut_out q r n ≡ some (if on then message d r' else cut_off r')
unfolding cut_out
cut_out_lem q r n k wire r' on d taken fits room decoded =
    let whole : min n (q.buffer_size - q.write_pos) ≡ n = omega arith in
    rw (
      taken,
      write_bytes_lem 0 wire q.buf (omega arith),
      move_write_pos_lem (record q { buf = splice 0 wire q.buf }) n,
      whole,
      decoded,
    )

module _ {r : Ring} {p : Packet} {body wire : List ℕ} (rest : List ℕ) (v : Contents.IsValid r)
    (w : IsPooled p) (f : Frame body wire) (e : Contents.contents r ≡ wire ++ rest) where
  abbrev n : ℕ
  n = length body

  used : get_use_size r ≡ 5 + n + length rest
  used = omega (arith, length-contents r, ap length e, length-append wire rest, length-Frame f)

  -- The first five bytes, as far as the round reads them.
  header : peek r (some 5) 5 ≡ some (5, prefix f.key n (take 1 (f.coded ++ rest)))
  header =
      peek-contents 5 5 v (omega arith)
      ∙ ground (arith, used)
      ∙ ap (λ c. some (5, take 5 c)) (e ∙ ap (λ b. b ++ rest) f.form)

  cut_out-message :
      (q : Packet)
      → n ≤ 1400
      → Valid.IsValid q
      → q.read_pos ≡ header_reserve
      → q.write_pos ≡ header_reserve
      → q.buffer_size ≡ 1405
      → (d : Packet) × (r' : Ring) × (cut_out q r n ≡ some (message d r'))
        × (Valid.contents d ≡ body)
        × Valid.IsValid d
        × (Contents.contents r' ≡ rest)
        × Contents.IsValid r'
  cut_out-message q fits fresh front back size =
      let long = length-Frame f in
      let taken = dequeue-Dequeued q.buffer_size (5 + n) v (omega arith) (omega (arith, used)) in
      let out : take (5 + n) (Contents.contents r) ≡ wire =
        ap (take (5 + n)) e ∙ take-append_length (5 + n) wire rest (omega arith) in
      let (d, decoded, holds, valid) = decode-Frame f fresh front back (omega arith) in
      (
        d,
        taken.ring,
        cut_out_lem q r n (5 + n) wire taken.ring true d
            (taken.result ∙ ap (λ o. some (5 + n, o, taken.ring)) out)
            (omega (arith, fresh.storage)) (omega arith) decoded,
        holds,
        valid,
        taken.holds ∙ ap (drop (5 + n)) e ∙ drop-append_length (5 + n) wire rest (omega arith),
        taken.valid,
      )

  round-cut_out : round p r ≡ cut_out (alloc p) r n
  unfolding round
  round-cut_out =
      let enough : ltb (get_use_size r) 5 ≡ false = ground (arith, used) in
      let whole : ltb (get_use_size r) (5 + n) ≡ false = ground (arith, used) in
      rw (
        enough,
        header,
        header_len-prefix f.key n (take 1 (f.coded ++ rest)) f.small,
        read_byte_lem 0 (prefix f.key n (take 1 (f.coded ++ rest))) (omega arith),
        whole,
      )

  -- A round on bytes that begin with a frame of at most 1400 bytes of payload takes the frame off the
  -- ring and hands its payload to `OnRecv`.
  pub round-message :
      n ≤ 1400
      → (d : Packet) × (r' : Ring) × (round p r ≡ some (message d r'))
        × (Valid.contents d ≡ body)
        × Valid.IsValid d
        × (Contents.contents r' ≡ rest)
        × Contents.IsValid r'
  round-message fits =
      let (fresh, front, back, size, _) = Valid.alloc-IsValid w.valid in
      let (d, r', cut, holds, valid, left, still) =
        cut_out-message (alloc p) fits fresh front back (omega (arith, w.size)) in
      (d, r', round-cut_out ∙ cut, holds, valid, left, still)
