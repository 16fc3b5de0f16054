-- ===== src/Ring/Read.antt =====
-- `Peek`, `Dequeue` and `MoveFront`: what they hand out and what stays.
use iocp_model_server.Base.{
  ℕ, zero, suc, ◌+◌, ◌-◌, ◌≤◌, ◌<◌, min, ◌≡◌, refl, sym, ap, ap₂, ◌∙◌, List, [], ◌++◌, none, some,
  arith, inl, inr, ltb, leb, if◌then◌else◌, length, get_or, take, drop, read_bytes_lem, tabulate,
  tabulate-add, tabulate-congr, take-drop_table, take-tabulate, drop-tabulate, Bool-cases,
}
use iocp_model_server.Ring.{Ring, get_use_size, copy_out, peek, dequeue, move_front}
use iocp_model_server.Ring.Contents.{IsValid, index, byte_at, contents}
use iocp_model_server.Ring.Valid.{position_fits, use_size-front, index_on, use_size-lt}

module _ {r : Ring} (v : IsValid r) (n : ℕ) (used : n ≤ get_use_size r) where
  abbrev room : ℕ
  room = r.capacity - r.front

  -- The oldest bytes stand in one piece up to the end of the array, and go on at its start.
  piece :
      (off from m : ℕ)
      → off + m ≤ length r.buf
      → ((i : ℕ) → i < m → index r.capacity r.front (from + i) ≡ off + i)
      → take m (drop off r.buf) ≡ tabulate m (λ i. byte_at r (from + i))
  piece off from m fits same =
      take-drop_table off m r.buf 0 fits
      ∙ tabulate-congr m _ _ (λ i h. ap (λ k. get_or r.buf k 0) (sym (same i h)))

  below : n < r.capacity
  below = omega (arith, use_size-lt v)

  abbrev oldest : List ℕ
  oldest = tabulate n (byte_at r)

  one_piece : n ≤ room → take n (drop r.front r.buf) ≡ oldest
  one_piece h =
      piece r.front 0 n (omega arith) (λ i k. ground (arith))
      ∙ tabulate-congr n _ _ (λ i k. ap (byte_at r) {x = 0 + i} {y = i} (omega arith))

  two_pieces : room ≤ n → take room (drop r.front r.buf) ++ take (n - room) (drop 0 r.buf) ≡ oldest
  two_pieces h =
      ap₂ ◌++◌
        (piece r.front 0 room (omega arith) (λ i k. ground arith)
          ∙ tabulate-congr room _ _ (λ i k. ap (byte_at r) {x = 0 + i} {y = i} (omega arith)))
        (piece 0 room (n - room) (omega (arith, below)) (λ i k. ground (arith, below)))
      ∙ sym (tabulate-add room (n - room) (byte_at r))
      ∙ ap (λ k. tabulate k (byte_at r)) {x = room + (n - room)} {y = n} (omega arith)

  copy_out-oldest : copy_out r n ≡ some oldest
  unfolding copy_out
  copy_out-oldest = elim (Bool-cases (ltb n room)) [
    | inl one ↦ ground (arith, read_bytes_lem r.front n r.buf, one_piece)
    | inr past ↦ elim (Bool-cases (ltb 0 (n - room))) [
      | inl more ↦ ground (
        arith,
        below,
        read_bytes_lem r.front room r.buf,
        read_bytes_lem 0 (n - room) r.buf,
        two_pieces,
      )
      | inr exact ↦ ground (
        arith,
        below,
        read_bytes_lem r.front room r.buf,
        ap (λ k. take k (drop r.front r.buf)) {x = room} {y = n},
        one_piece,
      )
    ]
  ]

  -- `copy_out` stays inside the array and hands out the oldest bytes, in order.
  pub copy_out-contents : copy_out r n ≡ some (take n (contents r))
  copy_out-contents =
      copy_out-oldest ∙ ap some (sym (take-tabulate n (get_use_size r) (byte_at r) used))

  abbrev advanced : Ring
  advanced = record r { front = index r.capacity r.front n }

  pub contents-advanced : contents advanced ≡ drop n (contents r)
  contents-advanced = rw (use_size-front n v used) (
      tabulate-congr (get_use_size r - n) _ _ on
      ∙ sym (drop-tabulate n (get_use_size r - n) (byte_at r))
      ∙ ap (λ k. drop n (tabulate k (byte_at r))) {x = n + (get_use_size r - n)}
          {y = get_use_size r} (omega arith))
    where
      on : (i : ℕ) → i < get_use_size r - n → byte_at advanced i ≡ byte_at r (n + i)
      on i h =
          ap (λ k. get_or r.buf k 0)
            (index_on r.capacity r.front n i v.front_in (omega (arith, use_size-lt v)))

  pub advanced-IsValid : IsValid advanced
  advanced-IsValid = ground (arith, below)

-- `Peek` into a destination that holds `size` bytes copies the oldest `size` bytes, or nothing if
-- there are fewer.
pub peek-contents :
    {r : Ring} (space size : ℕ)
    → IsValid r
    → size ≤ space
    → peek r (some space) size
      ≡ some (if leb size (get_use_size r) then (size, take size (contents r)) else (0, []))
unfolding peek
peek-contents {r} space size v h = ground (arith, copy_out-contents v size, none_taken size)
  where
    none_taken : (n : ℕ) → n ≡ 0 → take n (contents r) ≡ []
    none_taken zero e = refl
    none_taken (suc n) e = absurd (omega arith)

-- What `Dequeue` leaves when there are enough bytes.
pub record Dequeued (r : Ring) (space size : ℕ) : Type 0 where
  pub ring : Ring
  pub result : dequeue r (some space) size ≡ some (size, take size (contents r), ring)
  pub holds : contents ring ≡ drop size (contents r)
  pub valid : IsValid ring
  pub same_capacity : ring.capacity ≡ r.capacity

dequeue_nothing : (r : Ring) (space : ℕ) → IsValid r → Dequeued r space 0
unfolding dequeue
dequeue_nothing r space v = record {
  ring = r;
  result = refl;
  holds = refl;
  valid = v;
  same_capacity = refl;
}

dequeue_some :
    {r : Ring} (space size : ℕ)
    → IsValid r
    → suc size ≤ space
    → suc size ≤ get_use_size r
    → Dequeued r space (suc size)
unfolding dequeue
dequeue_some {r} space size v h used = record {
  ring = advanced v (suc size) used;
  result = ground (
    arith,
    use_size-lt v,
    copy_out-contents v (suc size) used,
    position_fits r.front (suc size) v,
  );
  holds = contents-advanced v (suc size) used;
  valid = advanced-IsValid v (suc size) used;
  same_capacity = refl;
}

-- `Dequeue` of no more bytes than the ring holds gives them to the destination in order and
-- takes them off the ring.
pub dequeue-Dequeued :
    {r : Ring} (space size : ℕ)
    → IsValid r
    → size ≤ space
    → size ≤ get_use_size r
    → Dequeued r space size
dequeue-Dequeued {r} space zero v h used = dequeue_nothing r space v
dequeue-Dequeued space (suc size) v h used = dequeue_some space size v h used

-- `Dequeue` of more bytes than the ring holds changes nothing and returns 0.
pub dequeue_short :
    (r : Ring) (space size : ℕ)
    → get_use_size r < size
    → dequeue r (some space) size ≡ some (0, [], r)
unfolding dequeue
dequeue_short r space size h = ground arith

-- `Dequeue` of bytes that the ring holds into a destination that is too small writes past its end.
pub dequeue_overruns :
    (r : Ring) (space n : ℕ) → n ≤ get_use_size r → space < n → dequeue r (some space) n ≡ none
unfolding dequeue
dequeue_overruns r space n h k = ground arith

-- `MoveFront` takes off as many of the oldest bytes as there are, `size` at most.
pub move_front-contents :
    {r : Ring} (size : ℕ)
    → IsValid r
    → let n = min size (get_use_size r) in
      (r' : Ring) × (move_front r size ≡ some (n, r'))
      × (contents r' ≡ drop n (contents r))
      × IsValid r'
      × (r'.capacity ≡ r.capacity)
unfolding move_front
move_front-contents {r} size v =
    let n = min size (get_use_size r) in
    let used : n ≤ get_use_size r = omega arith in
    (advanced v n used, moved n refl, contents-advanced v n used, advanced-IsValid v n used, refl)
  where
    moved :
        (n : ℕ)
        → n ≡ min size (get_use_size r)
        → move_front r size ≡ some (n, record r { front = index r.capacity r.front n })
    moved n e = ground (arith, use_size-lt v, position_fits r.front n v)
