-- ===== src/Packet/Data.antt =====
-- `PutData`, `GetData`, `MoveReadPos`, `MoveWritePos` and `operator=`: sizes are cut to what fits,
-- and nothing leaves the array.
use iocp_model_server.Base.{
  ℕ, zero, suc, ◌+◌, ◌-◌, ◌≤◌, ◌<◌, min, ◌≡◌, refl, sym, ap, ◌∙◌, List, ◌++◌, some, arith, inl, inr,
  ltb, length, take, Bool-cases, append-nil, slice, splice, length-splice, read_bytes,
  read_bytes_lem, write_bytes_lem, replicate, length-replicate, length-take, take_all, slice-append,
  slice-congr, get_or, get_or-splice,
}
use iocp_model_server.Packet.{
  Packet, move_write_pos, move_read_pos, assign, put_data, get_data, send_bytes, get_send_size,
  header_reserve,
}
use iocp_model_server.Packet.Valid.{
  IsValid, contents, room, length-contents, extended, extended-IsValid, contents-extended, consumed,
  oldest-contents,
}

-- What `PutData` leaves.
pub record Written (p : Packet) (src : List ℕ) (size : ℕ) : Type 0 where
  pub packet : Packet
  pub result : put_data p src size ≡ some (min size (room p), packet)
  pub holds : contents packet ≡ contents p ++ take (min size (room p)) src
  pub valid : IsValid packet

put_data-some :
    {p : Packet} (src : List ℕ) (size n : ℕ)
    → IsValid p
    → 0 < size
    → n ≡ min size (room p)
    → n ≤ length src
    → put_data p src size
      ≡ some
          (n, record p { buf = splice p.write_pos (take n src) p.buf; write_pos = p.write_pos + n })
unfolding put_data
put_data-some {p} src size n v h e k = ground (
  arith,
  length-take n src,
  read_bytes_lem 0 n src,
  write_bytes_lem p.write_pos (take n src) p.buf,
)

-- `PutData` from a source of at least `size` bytes writes as many as there is room for.
pub put_data-Written :
    {p : Packet} (src : List ℕ) (size : ℕ) → IsValid p → size ≤ length src → Written p src size
unfolding put_data extended
put_data-Written {p} src zero v h = record {
  packet = p;
  result = ground arith;
  holds =
      sym (append-nil (contents p))
      ∙ ap (λ k. contents p ++ take k src) {x = 0} {y = min 0 (room p)} (omega arith);
  valid = v;
}
put_data-Written {p} src (suc size) v h =
    let n = min (suc size) (room p) in
    let same : length (take n src) ≡ n = omega (arith, length-take n src) in
    record {
      packet = extended p (take n src);
      result =
          put_data-some src (suc size) n v (omega arith) refl (omega arith)
          ∙ ap
              (λ k. some (
                n,
                record p {
                  buf = splice p.write_pos (take n src) p.buf;
                  write_pos = p.write_pos + k;
                },
              ))
              (sym same);
      holds = contents-extended (take n src) v (omega (arith, same));
      valid = extended-IsValid (take n src) v (omega (arith, same));
    }

-- `GetData` into room for the bytes hands out as many of the oldest as there are.
pub get_data-consumed :
    {p : Packet} (space size : ℕ)
    → IsValid p
    → 0 < size
    → size ≤ space
    → let n = min size (length (contents p)) in
      get_data p space size ≡ some (n, take n (contents p), consumed p n)
unfolding get_data consumed
get_data-consumed {p} space size v k h =
    let n = min size (length (contents p)) in
    let same = length-contents v in taken n (omega (arith, same)) (omega (arith, same))
  where
    taken :
        (n : ℕ)
        → n ≡ min size (p.write_pos - p.read_pos)
        → n ≤ p.write_pos - p.read_pos
        → get_data p space size ≡ some (n, take n (contents p), consumed p n)
    taken n e used = ground (arith, read_bytes_lem p.read_pos n p.buf, oldest-contents n v used)

-- `MoveReadPos` skips as many bytes as there are, `size` at most.
pub move_read_pos-consumed :
    {p : Packet} (size : ℕ)
    → IsValid p
    → 0 < size
    → let n = min size (length (contents p)) in move_read_pos p size ≡ (n, consumed p n)
unfolding move_read_pos consumed
move_read_pos-consumed {p} size v h = ground (arith, length-contents v)

pub move_write_pos_lem :
    (p : Packet) (size : ℕ)
    → let n = min size (room p) in
      move_write_pos p size ≡ (n, record p { write_pos = p.write_pos + n })
unfolding move_write_pos
move_write_pos_lem p size = ground arith

-- `MoveWritePos` moves within the room: what is written is still there, in front of the bytes that
-- the move takes in.
pub move_write_pos-contents :
    {p : Packet} (size : ℕ)
    → IsValid p
    → let (n, q) = move_write_pos p size in
      (n ≡ min size (room p)) × (contents q ≡ contents p ++ slice p.write_pos n p.buf) × IsValid q
move_write_pos-contents {p} size v =
    rw (move_write_pos_lem p size) (refl, grown (min size (room p)) (omega arith), omega arith)
  where
    grown :
        (n : ℕ)
        → n ≤ room p
        → contents (record p { write_pos = p.write_pos + n })
          ≡ contents p ++ slice p.write_pos n p.buf
    grown n h =
        let d = p.write_pos - p.read_pos in
        ap (λ k. slice p.read_pos k p.buf) {x = p.write_pos + n - p.read_pos} {y = d + n}
          (omega arith)
        ∙ slice-append p.read_pos d n p.buf (omega arith)
        ∙ ap (λ k. contents p ++ slice k n p.buf) {x = p.read_pos + d} {y = p.write_pos}
            (omega arith)

-- `operator=` makes the packet one like the source: it has the source's positions, header and coding
-- flag, holds what the source holds, and goes out with the same bytes. Its array starts with the
-- source's and may be longer, and it keeps its own references.
pub record Assigned (p src : Packet) (fill : ℕ) : Type 0 where
  pub packet : Packet
  pub result : assign p src fill ≡ some packet
  pub read_pos : packet.read_pos ≡ src.read_pos
  pub write_pos : packet.write_pos ≡ src.write_pos
  pub header_size : packet.header_size ≡ src.header_size
  pub encoded : packet.encoded ≡ src.encoded
  pub whole : take src.buffer_size packet.buf ≡ src.buf
  pub holds : contents packet ≡ contents src
  pub sends : send_bytes packet ≡ send_bytes src
  pub valid : IsValid packet
  pub same_count : packet.ref_count ≡ p.ref_count

-- The bytes of the source, at the start of an array that is no shorter.
slice-copied :
    (off n : ℕ) (buf array : List ℕ)
    → length buf ≤ length array
    → off + n ≤ length buf
    → slice off n (splice 0 buf array) ≡ slice off n buf
slice-copied off n buf array h fits =
    slice-congr off n (splice 0 buf array) buf
      (omega (arith, length-splice 0 buf array (omega arith))) fits at
  where
    at : (i : ℕ) → i < n → get_or (splice 0 buf array) (off + i) 0 ≡ get_or buf (off + i) 0
    at i k = ground (
      arith,
      get_or-splice 0 buf array (off + i) 0,
      ap (λ t. get_or buf t 0) {x = off + i - 0} {y = off + i},
    )

assign_array :
    (p : Packet) {src : Packet} (array : List ℕ) (size : ℕ)
    → IsValid src
    → length array ≡ size
    → src.buffer_size ≤ size
    → let q = record p {
      buf = splice 0 src.buf array;
      buffer_size = size;
      read_pos = src.read_pos;
      write_pos = src.write_pos;
      header_size = src.header_size;
      encoded = src.encoded;
    } in
      (contents q ≡ contents src)
      × IsValid q
      × (take src.buffer_size q.buf ≡ src.buf)
      × (send_bytes q ≡ send_bytes src)
unfolding send_bytes get_send_size
assign_array p {src} array size v e h =
    let same = length-splice 0 src.buf array (omega arith) in
    let off = header_reserve - src.header_size in
    let n = src.header_size + (src.write_pos - header_reserve) in
    (
      slice-copied src.read_pos (src.write_pos - src.read_pos) src.buf array (omega arith)
          (omega arith),
      ground (arith, same),
      slice-copied 0 src.buffer_size src.buf array (omega arith) (omega arith)
          ∙ take_all src.buffer_size src.buf (omega arith),
      read_bytes_lem off n (splice 0 src.buf array) (omega (arith, same))
          ∙ ap some (slice-copied off n src.buf array (omega arith) (omega arith))
          ∙ sym (read_bytes_lem off n src.buf (omega arith)),
    )

copied : (src : Packet) → IsValid src → read_bytes 0 src.buffer_size src.buf ≡ some src.buf
copied src v =
    read_bytes_lem 0 src.buffer_size src.buf (omega arith)
    ∙ ap some (take_all src.buffer_size src.buf (omega arith))

-- `operator=` from a valid packet does not fault, whichever array is the larger, and makes the packet
-- one like the source: with the same bytes, positions, header and coding flag, so that it holds and
-- sends what the source does.
pub assign-Assigned : {p src : Packet} (fill : ℕ) → IsValid p → IsValid src → Assigned p src fill
unfolding assign
assign-Assigned {p} {src} fill v w = elim (Bool-cases (ltb p.buffer_size src.buffer_size)) [
  | inl grows ↦
      let array = replicate src.buffer_size fill in
      let same = length-replicate src.buffer_size fill in
      let (holds, valid, whole, sends) =
        assign_array p array src.buffer_size w same (omega arith) in
      record {
        packet = _;
        result = rw (grows, copied src w, write_bytes_lem 0 src.buf array (omega (arith, same)));
        read_pos = refl;
        write_pos = refl;
        header_size = refl;
        encoded = refl;
        whole = whole;
        holds = holds;
        sends = sends;
        valid = valid;
        same_count = refl;
      }
  | inr stays ↦
      let (holds, valid, whole, sends) =
        assign_array p p.buf p.buffer_size w v.storage (ground arith) in
      record {
        packet = _;
        result = rw (stays, copied src w, write_bytes_lem 0 src.buf p.buf (ground arith));
        read_pos = refl;
        write_pos = refl;
        header_size = refl;
        encoded = refl;
        whole = whole;
        holds = holds;
        sends = sends;
        valid = valid;
        same_count = refl;
      }
]
