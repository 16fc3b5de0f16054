-- ===== src/Packet.antt =====
-- MyLibrary/PacketBuffer.h and PacketBuffer.cpp: a buffer with a read and a write position behind
-- five bytes that are kept free for a header, and a count of the references to it.
-- An `int` size is a number that is not negative. `none` is a fault: an access outside an array.
pub mod Codec
pub mod Header
pub mod Field
pub mod Valid
pub mod Data
mod Tests
use iocp_model_server.Base.{
  ℕ, zero, suc, ◌+◌, ◌-◌, ◌%◌, ◌^◌, Bool, true, false, List, [], ◌∷◌, ◌++◌, Option, none, some, ltb,
  leb, ◌==◌, if◌then◌else◌, ◌>>=◌, length, replicate, read_bytes, write_bytes,
}

-- `en_PACKET`; `header_reserve` is `sizeof(NetServerHeader)`, packed.
abbrev pub buffer_default : ℕ
buffer_default = 1400

abbrev pub header_reserve : ℕ
header_reserve = 5

-- The fields of `Packet`; `buf` is the array at `m_chpBuffer`.
pub record Packet : Type 0 where
  pub buf : List ℕ
  pub buffer_size : ℕ
  pub read_pos : ℕ
  pub write_pos : ℕ
  pub header_size : ℕ
  pub encoded : Bool
  pub ref_count : ℕ

unfoldable pub clear : Packet → Packet
clear p = record p {
  read_pos = header_reserve;
  write_pos = header_reserve;
  header_size = 0;
  encoded = false;
}

-- `Packet(int)`. What `new char[]` leaves in the array is `fill`.
unfoldable pub create : ℕ → ℕ → Packet
unfolding clear
create fill size =
    let capacity = (if size == 0 then buffer_default else size) + header_reserve in
    clear (record {
      buf = replicate capacity fill;
      buffer_size = capacity;
      read_pos = 0;
      write_pos = 0;
      header_size = 0;
      encoded = false;
      ref_count = 0;
    })

-- `Packet()`
unfoldable pub create_default : ℕ → Packet
create_default fill = create fill buffer_default

pub get_buffer_size : Packet → ℕ
get_buffer_size p = p.buffer_size - header_reserve

pub get_data_size : Packet → ℕ
get_data_size p = p.write_pos - p.read_pos

pub move_write_pos : Packet → ℕ → ℕ × Packet
move_write_pos p size =
    if size == 0
    then (0, p)
    else (let free = p.buffer_size - p.write_pos in
        let n = if ltb free size then free else size in
        (n, record p { write_pos = p.write_pos + n }))

-- What `_Pop`, `GetData` and `MoveReadPos` do when all data has been read.
pub rewind : Packet → Packet
rewind p =
    if p.write_pos == p.read_pos
    then record p { read_pos = header_reserve; write_pos = header_reserve }
    else p

pub move_read_pos : Packet → ℕ → ℕ × Packet
unfolding rewind
move_read_pos p size =
    if size == 0
    then (0, p)
    else (let used = p.write_pos - p.read_pos in
        let n = if ltb used size then used else size in
        (n, rewind (record p { read_pos = p.read_pos + n })))

-- `operator=` from another packet, and from the packet itself. A larger source makes the packet
-- take a new array; all of the source's array is copied.
pub assign : Packet → Packet → ℕ → Option Packet
assign p src fill =
    let grows = ltb p.buffer_size src.buffer_size in
    let size = if grows then src.buffer_size else p.buffer_size in
    let array = if grows then replicate src.buffer_size fill else p.buf in
    do
      bytes ← read_bytes 0 src.buffer_size src.buf
      buf ← write_bytes 0 bytes array
      some (record p {
        buf = buf;
        buffer_size = size;
        read_pos = src.read_pos;
        write_pos = src.write_pos;
        header_size = src.header_size;
        encoded = src.encoded;
      })

pub assign_self : Packet → Packet
assign_self p = p

-- `PutData`; `src` is what can be read at the source.
pub put_data : Packet → List ℕ → ℕ → Option (ℕ × Packet)
put_data p src size =
    if size == 0
    then some (0, p)
    else (let free = p.buffer_size - p.write_pos in
        let n = if ltb free size then free else size in
        do
          bytes ← read_bytes 0 n src
          buf ← write_bytes p.write_pos bytes p.buf
          some (n, record p { buf = buf; write_pos = p.write_pos + n }))

-- `GetData`: the size and the bytes copied; `space` is the room at the destination.
unfoldable pub get_data : Packet → ℕ → ℕ → Option (ℕ × List ℕ × Packet)
unfolding rewind
get_data p space size =
    if size == 0
    then some (0, [], p)
    else (let used = p.write_pos - p.read_pos in
        let n = if ltb used size then used else size in
        if ltb space n then none else (do
          out ← read_bytes p.read_pos n p.buf
          some (n, out, rewind (record p { read_pos = p.read_pos + n }))))

-- `_Push` of a variable's bytes.
pub push : Packet → List ℕ → Option (Bool × Packet)
push p src =
    if length src == 0
    then some (true, p)
    else (if ltb (p.buffer_size - p.write_pos) (length src) then some (false, p) else (do
      buf ← write_bytes p.write_pos src p.buf
      some (true, record p { buf = buf; write_pos = p.write_pos + length src })))

-- `_Pop` into a variable of `size` bytes. The bytes are `none` where the variable is left as it was.
pub pop : Packet → ℕ → Option (Option (List ℕ) × Packet)
unfolding rewind
pop p size =
    if size == 0
    then some (some [], p)
    else (if ltb (p.write_pos - p.read_pos) size then some (none, p) else (do
      out ← read_bytes p.read_pos size p.buf
      some (some out, rewind (record p { read_pos = p.read_pos + size }))))

-- `GetSendPtr` and `GetSendSize`: what is handed to `WSASend`.
pub get_send_size : Packet → ℕ
get_send_size p = p.header_size + (p.write_pos - header_reserve)

pub send_bytes : Packet → Option (List ℕ)
unfolding get_send_size
send_bytes p = read_bytes (header_reserve - p.header_size) (get_send_size p) p.buf

-- `Alloc`, on a block that the pool hands out.
pub alloc : Packet → Packet
unfolding clear
alloc p = record (clear p) { ref_count = 1 }

pub add_ref : Packet → Packet
add_ref p = record p { ref_count = p.ref_count + 1 }

-- `Free`: the packet stays in use, goes back to the pool, or the count falls below 0 and the
-- debugger is called.
pub data Freed : Type 0 where
  kept pooled : Packet → Freed
  broken : Freed

pub free : Packet → Freed
free p =
    if p.ref_count == 0
    then broken
    else (let q = record p { ref_count = p.ref_count - 1 } in
        if q.ref_count == 0 then pooled q else kept q)
