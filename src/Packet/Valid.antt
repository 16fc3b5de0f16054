-- ===== src/Packet/Valid.antt =====
-- When a packet's fields make sense, what it holds, and that no operation faults or spoils it.
use iocp_model_server.Base.{
  ℕ, ◌+◌, ◌-◌, ◌≤◌, ◌<◌, ◌≡◌, refl, sym, ap, ◌∙◌, true, false, List, [], ◌++◌, none, some, arith,
  inl, inr, ◌==◌, length, take, drop, Bool-cases, slice, length-slice, slice-splice_end, take-slice,
  drop-slice, splice, length-splice, read_bytes_lem, write_bytes_lem, length-replicate,
}
use iocp_model_server.Packet.{Packet, header_reserve, create, clear, alloc, rewind, push, pop}

pub record IsValid (p : Packet) : Type 0 where
  pub storage : length p.buf ≡ p.buffer_size
  pub behind_header : header_reserve ≤ p.read_pos
  pub ordered : p.read_pos ≤ p.write_pos
  pub fits : p.write_pos ≤ p.buffer_size
  pub header_fits : p.header_size ≤ header_reserve

-- The bytes that have been written and not yet read.
abbrev pub contents : Packet → List ℕ
contents p = slice p.read_pos (p.write_pos - p.read_pos) p.buf

abbrev pub room : Packet → ℕ
room p = p.buffer_size - p.write_pos

pub length-contents : {p : Packet} → IsValid p → length (contents p) ≡ p.write_pos - p.read_pos
length-contents {p} v = length-slice p.read_pos (p.write_pos - p.read_pos) p.buf (omega arith)

pub create-IsValid : (fill size : ℕ) → IsValid (create fill size)
unfolding create clear
create-IsValid fill size =
    ground (arith, length-replicate (size + 5) fill, length-replicate 1405 fill)

pub clear-IsValid : {p : Packet} → IsValid p → IsValid (clear p) × (contents (clear p) ≡ [])
unfolding clear
clear-IsValid v = (omega arith, refl)

-- A packet that the pool hands out again is empty and has one reference.
pub alloc-IsValid :
    {p : Packet}
    → IsValid p
    → IsValid (alloc p)
      × ((alloc p).read_pos ≡ header_reserve)
      × ((alloc p).write_pos ≡ header_reserve)
      × ((alloc p).buffer_size ≡ p.buffer_size)
      × ((alloc p).ref_count ≡ 1)
unfolding alloc clear
alloc-IsValid v = ground arith

-- Rewinding changes what an empty packet remembers, and not what it holds.
rewind-IsValid : {p : Packet} → IsValid p → IsValid (rewind p)
unfolding rewind
rewind-IsValid v = ground arith

contents-rewind : (p : Packet) → IsValid p → contents (rewind p) ≡ contents p
unfolding rewind
contents-rewind p v = elim (Bool-cases (p.write_pos == p.read_pos)) [
  | inl empty ↦
      rw (empty, rewind)
        (ap (λ k. take k (drop p.read_pos p.buf)) {x = 0} {y = p.write_pos - p.read_pos}
          (ground arith))
  | inr more ↦ rw (more, rewind)
]

-- The packet with `src` written behind its data.
unfoldable pub extended : Packet → List ℕ → Packet
extended p src = record p {
  buf = splice p.write_pos src p.buf;
  write_pos = p.write_pos + length src;
}

pub extended-IsValid :
    {p : Packet} (src : List ℕ) → IsValid p → length src ≤ room p → IsValid (extended p src)
unfolding extended
extended-IsValid {p} src v h = ground (arith, length-splice p.write_pos src p.buf)

pub contents-extended :
    {p : Packet} (src : List ℕ)
    → IsValid p
    → length src ≤ room p
    → contents (extended p src) ≡ contents p ++ src
unfolding extended
contents-extended {p} src v h =
    let n = p.write_pos - p.read_pos in
    let l = length src in
    ap (λ k. slice p.read_pos k (splice p.write_pos src p.buf)) {x = p.write_pos + l - p.read_pos}
      {y = n + l} (omega arith)
    ∙ ap (λ w. slice p.read_pos (n + l) (splice w src p.buf)) {x = p.write_pos} {y = p.read_pos + n}
        (omega arith)
    ∙ slice-splice_end p.read_pos n src p.buf (omega arith)

-- The packet with `n` bytes read.
unfoldable pub consumed : Packet → ℕ → Packet
consumed p n = rewind (record p { read_pos = p.read_pos + n })

pub consumed-IsValid :
    {p : Packet} (n : ℕ) → IsValid p → n ≤ p.write_pos - p.read_pos → IsValid (consumed p n)
unfolding consumed
consumed-IsValid {p} n v h =
    rewind-IsValid {p = record p { read_pos = p.read_pos + n }} (omega arith)

pub contents-consumed :
    {p : Packet} (n : ℕ)
    → IsValid p
    → n ≤ p.write_pos - p.read_pos
    → contents (consumed p n) ≡ drop n (contents p)
unfolding consumed
contents-consumed {p} n v h =
    let rest = p.write_pos - p.read_pos - n in
    contents-rewind (record p { read_pos = p.read_pos + n }) (omega arith)
    ∙ ap (λ k. slice (p.read_pos + n) k p.buf) {x = p.write_pos - (p.read_pos + n)} {y = rest}
        (omega arith)
    ∙ sym (drop-slice n p.read_pos rest p.buf (omega arith))
    ∙ ap (λ k. drop n (slice p.read_pos k p.buf)) {x = n + rest} {y = p.write_pos - p.read_pos}
        (omega arith)

-- The oldest `n` bytes stand at the read position.
pub oldest-contents :
    {p : Packet} (n : ℕ)
    → IsValid p
    → n ≤ p.write_pos - p.read_pos
    → slice p.read_pos n p.buf ≡ take n (contents p)
oldest-contents {p} n v h =
    let rest = p.write_pos - p.read_pos - n in
    sym (take-slice n p.read_pos rest p.buf (omega arith))
    ∙ ap (λ k. take n (slice p.read_pos k p.buf)) {x = n + rest} {y = p.write_pos - p.read_pos}
        (omega arith)

-- `_Push` of a variable that fits writes all of its bytes.
pub push-extended :
    {p : Packet} (src : List ℕ)
    → IsValid p
    → length src ≤ room p
    → 0 < length src
    → push p src ≡ some (true, extended p src)
unfolding push extended
push-extended {p} src v h k = ground (arith, write_bytes_lem p.write_pos src p.buf)

-- `_Push` of a variable that does not fit writes none.
pub push_full : (p : Packet) (src : List ℕ) → room p < length src → push p src ≡ some (false, p)
unfolding push
push_full p src h = ground arith

-- `_Pop` of no more than the packet holds hands out the oldest bytes.
pub pop-consumed :
    {p : Packet} (n : ℕ)
    → IsValid p
    → 0 < n
    → n ≤ p.write_pos - p.read_pos
    → pop p n ≡ some (some (take n (contents p)), consumed p n)
unfolding pop consumed
pop-consumed {p} n v k h = ground (arith, read_bytes_lem p.read_pos n p.buf, oldest-contents n v h)

-- `_Pop` of more leaves the variable and the packet as they are.
pub pop_short : (p : Packet) (n : ℕ) → p.write_pos - p.read_pos < n → pop p n ≡ some (none, p)
unfolding pop
pop_short p n h = ground arith
