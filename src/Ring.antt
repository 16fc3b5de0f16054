-- ===== src/Ring.antt =====
-- MyLibrary/RingBuffer.h and RingBuffer.cpp: a byte ring that keeps one place of its array free.
-- An `int` argument is a number that is not negative; the callers pass byte counts of the system
-- and sizes of headers. `none` is a fault: an access outside an array, or an `int` overflow.
-- The lock of the class is not modelled: a ring is driven by one thread at a time.
pub mod Contents
pub mod Valid
pub mod Write
pub mod Read
pub mod Direct
pub mod Run
mod Tests
use iocp_model_server.Base.{
  ℕ, ◌+◌, ◌-◌, ◌%◌, ◌^◌, ◌<◌, min, Bool, List, [], ◌++◌, Option, none, some, ltb, leb, ◌==◌,
  if◌then◌else◌, ◌>>=◌, length, replicate, take, drop, read_bytes, write_bytes, add_int,
}

-- The fields of `RingBuffer`; `buf` is the array at `m_pBuffer`.
pub record Ring : Type 0 where
  pub buf : List ℕ
  pub capacity : ℕ
  pub front : ℕ
  pub rear : ℕ

abbrev pub default_size : ℕ
default_size = 10000

-- `RingBuffer(int)`. What `new char[]` leaves in the array is `fill`.
pub create : ℕ → ℕ → Ring
create fill size = record {
  buf = replicate (size + 1) fill;
  capacity = size + 1;
  front = 0;
  rear = 0;
}

-- `RingBuffer()`
pub create_default : ℕ → Ring
create_default fill = create fill default_size

pub get_buffer_size : Ring → ℕ
get_buffer_size r = r.capacity - 1

unfoldable pub get_use_size : Ring → ℕ
get_use_size r = if leb r.front r.rear then r.rear - r.front else r.capacity - (r.front - r.rear)

unfoldable pub get_free_size : Ring → ℕ
unfolding get_use_size
get_free_size r = r.capacity - 1 - get_use_size r

-- The two `memcpy`s of `Enqueue`, at `rear` and at the start of the array.
pub copy_in : Ring → List ℕ → ℕ → Option (List ℕ)
copy_in r src size =
    let room = r.capacity - r.rear in
    let first = if ltb size room then size else room in
    let remain = size - first in
    do
      head ← read_bytes 0 first src
      buf ← write_bytes r.rear head r.buf
      if ltb 0 remain
          then (do tail ← read_bytes first remain src; write_bytes 0 tail buf)
          else some buf

-- `Enqueue`; the source is `none` for a null pointer, else the bytes that can be read from it.
pub enqueue : Ring → Option (List ℕ) → ℕ → Option (ℕ × Ring)
enqueue r none size = some (0, r)
enqueue r (some src) size =
    if size == 0
    then some (0, r)
    else (let free = get_free_size r in
        if free == 0
        then some (0, r)
        else (let n = if ltb free size then free else size in
            do
              buf ← copy_in r src n
              end ← add_int r.rear n
              some (n, record r { buf = buf; rear = end % r.capacity })))

-- The two `memcpy`s of `Peek` and `Dequeue`: the bytes that go to the destination.
pub copy_out : Ring → ℕ → Option (List ℕ)
copy_out r size =
    let room = r.capacity - r.front in
    let first = if ltb size room then size else room in
    let remain = size - first in
    do
      head ← read_bytes r.front first r.buf
      if ltb 0 remain then (do tail ← read_bytes 0 remain r.buf; some (head ++ tail)) else some head

-- `Peek`; the destination is `none` for a null pointer, else the room there. What it gives back is
-- the returned size and the bytes written.
pub peek : Ring → Option ℕ → ℕ → Option (ℕ × List ℕ)
peek r none size = some (0, [])
peek r (some room) size =
    if size == 0
    then some (0, [])
    else (if ltb (get_use_size r) size
        then some (0, [])
        else (if ltb room size then none else (do out ← copy_out r size; some (size, out))))

-- `Dequeue`: the size, the bytes written, and the ring with `front` moved.
pub dequeue : Ring → Option ℕ → ℕ → Option (ℕ × List ℕ × Ring)
dequeue r none size = some (0, [], r)
dequeue r (some room) size =
    if size == 0
    then some (0, [], r)
    else (if ltb (get_use_size r) size
        then some (0, [], r)
        else (if ltb room size then none else (do
          out ← copy_out r size
          start ← add_int r.front size
          some (size, out, record r { front = start % r.capacity }))))

pub clear_buffer : Ring → Ring
clear_buffer r = record r { front = 0; rear = 0 }

unfoldable pub direct_enqueue_size : Ring → ℕ
direct_enqueue_size r =
    let free = get_free_size r in
    if free == 0
    then 0
    else (if leb r.front r.rear then min (r.capacity - r.rear) free else r.front - r.rear - 1)

pub direct_dequeue_size : Ring → ℕ
direct_dequeue_size r =
    let used = get_use_size r in
    if used == 0 then 0 else (if ltb r.front r.rear then used else r.capacity - r.front)

pub move_front : Ring → ℕ → Option (ℕ × Ring)
move_front r size =
    let used = get_use_size r in
    let n = if ltb used size then used else size in
    do start ← add_int r.front n; some (n, record r { front = start % r.capacity })

pub move_rear : Ring → ℕ → Option (ℕ × Ring)
move_rear r size =
    let free = get_free_size r in
    let n = if ltb free size then free else size in
    do end ← add_int r.rear n; some (n, record r { rear = end % r.capacity })
