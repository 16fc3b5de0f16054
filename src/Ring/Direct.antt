-- ===== src/Ring/Direct.antt =====
-- The places that the system writes to and reads from directly, and `MoveRear`.
use iocp_model_server.Base.{
  ℕ, ◌+◌, ◌-◌, ◌≤◌, ◌<◌, ◌≡◌, refl, List, some, arith, ltb, if◌then◌else◌, length, ◌++◌, get_or, ap,
  ap₂, ◌∙◌, ◌⊎◌, tabulate-add, tabulate-congr, tabulate-get_or,
}
use iocp_model_server.Ring.{
  Ring, get_use_size, get_free_size, direct_enqueue_size, direct_dequeue_size, move_rear,
}
use iocp_model_server.Ring.Contents.{IsValid, index, byte_at, contents}
use iocp_model_server.Ring.Valid.{position_fits, use_size-rear, index_behind}

-- The bytes at the front that stand in one piece: no byte is lost past the end of the array, and
-- what the first piece leaves stands at the start of the array.
pub direct_dequeue_pieces :
    {r : Ring} (i : ℕ)
    → IsValid r
    → i < get_use_size r
    → (direct_dequeue_size r ≤ get_use_size r)
      × (index r.capacity r.front i
          ≡ (if ltb i (direct_dequeue_size r) then r.front + i else i - direct_dequeue_size r))
unfolding direct_dequeue_size get_use_size
direct_dequeue_pieces i v h = ground arith

-- The free places behind the rear: the first piece is inside the free space and inside the array,
-- and the place of every free byte that it leaves is counted from the start of the array.
pub direct_enqueue_pieces :
    {r : Ring} (i : ℕ)
    → IsValid r
    → i < get_free_size r
    → (direct_enqueue_size r ≤ get_free_size r)
      × (index r.capacity r.rear i
          ≡ (if ltb i (direct_enqueue_size r) then r.rear + i else i - direct_enqueue_size r))
unfolding direct_enqueue_size get_free_size get_use_size
direct_enqueue_pieces i v h = ground arith

-- What the system does to the array when it receives `d` into the two pieces that the server hands
-- to `WSARecv`: the first at the rear, of `direct_enqueue_size` bytes, the second at the start of
-- the array, of the free bytes that are left. It fills them in order and touches nothing else.
pub record Received (r : Ring) (d : List ℕ) (buf : List ℕ) : Type 0 where
  pub kept_length : length buf ≡ length r.buf
  pub first :
      (i : ℕ) → i < length d → i < direct_enqueue_size r → get_or buf (r.rear + i) 0 ≡ get_or d i 0
  pub second :
      (i : ℕ)
      → direct_enqueue_size r + i < length d
      → get_or buf i 0 ≡ get_or d (direct_enqueue_size r + i) 0
  pub elsewhere :
      (j : ℕ)
      → (j < r.rear) ⊎ (r.rear + direct_enqueue_size r ≤ j)
      → get_free_size r - direct_enqueue_size r ≤ j
      → get_or buf j 0 ≡ get_or r.buf j 0

module _ {r : Ring} (v : IsValid r) (d : List ℕ) (buf : List ℕ) (got : Received r d buf)
    (fits : length d ≤ get_free_size r) where
  abbrev grown : Ring
  grown = record r { buf = buf; rear = index r.capacity r.rear (length d) }

  received_old :
      (i : ℕ) → i < get_use_size r → get_or buf (index r.capacity r.front i) 0 ≡ byte_at r i
  unfolding direct_enqueue_size get_free_size get_use_size
  received_old i h = ground (arith, got.elsewhere (index r.capacity r.front i))

  received_new : (i : ℕ) → i < length d → get_or buf (index r.capacity r.rear i) 0 ≡ get_or d i 0
  received_new i h = ground (
    arith,
    direct_enqueue_pieces {r = r} i v,
    got.first i,
    got.second (i - direct_enqueue_size r),
    ap (λ k. get_or d k 0) {x = direct_enqueue_size r + (i - direct_enqueue_size r)} {y = i},
  )

  contents-grown : contents grown ≡ contents r ++ d
  contents-grown =
      rw
        (
          use_size-rear buf (length d) v fits,
          tabulate-add (get_use_size r) (length d) (byte_at grown),
        )
        (ap₂ ◌++◌ (tabulate-congr (get_use_size r) _ _ received_old)
          (tabulate-congr (length d) _ _ behind ∙ tabulate-get_or (length d) d 0 refl))
    where
      behind : (i : ℕ) → i < length d → byte_at grown (get_use_size r + i) ≡ get_or d i 0
      behind i h = ap (λ k. get_or buf k 0) (index_behind i v (omega arith)) ∙ received_new i h

  -- `MoveRear` after a receive of `d`: the ring holds `d` behind what it held.
  pub move_rear-contents :
      (r' : Ring) × (move_rear (record r { buf = buf }) (length d) ≡ some (length d, r'))
      × (contents r' ≡ contents r ++ d)
      × IsValid r'
      × (r'.capacity ≡ r.capacity)
  unfolding move_rear get_free_size get_use_size
  move_rear-contents = (
    grown,
    ground (arith, position_fits r.rear (length d) v),
    contents-grown,
    ground (arith, got.kept_length),
    refl,
  )
