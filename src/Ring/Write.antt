-- ===== src/Ring/Write.antt =====
-- `Enqueue` adds the bytes that fit behind those that the ring holds.
use iocp_model_server.Base.{
  ℕ, ◌+◌, ◌-◌, ◌≤◌, ◌<◌, min, ◌≡◌, refl, sym, ap, ap₂, ◌∙◌, List, ◌++◌, some, arith, inl, inr,
  append-nil, ltb, length, get_or, take, drop, length-take, length-drop, get_or-take, get_or-drop,
  splice, length-splice, get_or-splice, read_bytes_lem, write_bytes_lem, tabulate-add,
  tabulate-congr, take-drop_table, Bool-cases, ltb→lt,
}
use iocp_model_server.Ring.{Ring, get_use_size, get_free_size, copy_in, enqueue}
use iocp_model_server.Ring.Contents.{IsValid, index, byte_at, contents}
use iocp_model_server.Ring.Valid.{position_fits, use_size-rear, index_behind}

module _ (r : Ring) (src : List ℕ) where
  abbrev room : ℕ
  room = r.capacity - r.rear

  -- The array after one copy of `n` bytes, and after two.
  abbrev once : ℕ → List ℕ
  once n = splice r.rear (take n src) r.buf

  abbrev twice : ℕ → List ℕ
  twice n = splice 0 (take (n - room) (drop room src)) (once room)

  -- What a copy of `n` bytes has to achieve.
  record Filled (n : ℕ) (buf : List ℕ) : Type 0 where
    kept_length : length buf ≡ length r.buf
    added : (i : ℕ) → i < n → get_or buf (index r.capacity r.rear i) 0 ≡ get_or src i 0
    kept : (i : ℕ) → i < get_use_size r → get_or buf (index r.capacity r.front i) 0 ≡ byte_at r i

  module _ (v : IsValid r) (n : ℕ) (free : n ≤ get_free_size r) (given : n ≤ length src) where
    once-Filled : n ≤ room → Filled n (once n)
    unfolding get_free_size get_use_size
    once-Filled fits = record {
      kept_length = length-splice r.rear (take n src) r.buf (omega (arith, length-take n src));
      added = λ i h. ground (
        arith,
        length-take n src,
        get_or-splice r.rear (take n src) r.buf (index r.capacity r.rear i) 0,
        get_or-take n src i 0,
        ap (λ k. get_or (take n src) k 0) {x = r.rear + i - r.rear} {y = i},
      );
      kept = λ i h. ground (
        arith,
        length-take n src,
        get_or-splice r.rear (take n src) r.buf (index r.capacity r.front i) 0,
      );
    }

    abbrev second : List ℕ
    second = take (n - room) (drop room src)

    length-second : length second ≡ n - room
    length-second = omega (arith, length-take (n - room) (drop room src), length-drop room src)

    twice-Filled : room ≤ n → Filled n (twice n)
    unfolding get_free_size get_use_size
    twice-Filled wraps =
        let first =
          length-splice r.rear (take room src) r.buf (omega (arith, length-take room src)) in
        record {
          kept_length =
              length-splice 0 second (once room) (omega (arith, length-second, first)) ∙ first;
          added = λ i h. ground (
            arith,
            length-second,
            length-take room src,
            first,
            get_or-splice 0 second (once room) (index r.capacity r.rear i) 0,
            get_or-splice r.rear (take room src) r.buf (index r.capacity r.rear i) 0,
            get_or-take room src i 0,
            get_or-take (n - room) (drop room src) (i - room) 0,
            get_or-drop room src (i - room) 0,
            ap (λ k. get_or (take room src) k 0) {x = r.rear + i - r.rear} {y = i},
            ap (λ k. get_or second k 0) {x = r.rear + i - r.capacity - 0} {y = i - room},
            ap (λ k. get_or src k 0) {x = room + (i - room)} {y = i},
          );
          kept = λ i h. ground (
            arith,
            length-second,
            length-take room src,
            first,
            get_or-splice 0 second (once room) (index r.capacity r.front i) 0,
            get_or-splice r.rear (take room src) r.buf (index r.capacity r.front i) 0,
          );
        }

    -- `copy_in` stays inside both arrays.
    copy_in-Filled : (buf : List ℕ) × (copy_in r src n ≡ some buf) × Filled n buf
    unfolding copy_in get_free_size get_use_size
    copy_in-Filled = elim (Bool-cases (ltb n room)) [
      | inl fits ↦ (
        once n,
        rw
            (
              fits,
              read_bytes_lem 0 n src (omega arith),
              write_bytes_lem r.rear (take n src) r.buf (ground (arith, length-take n src)),
            )
            (ground arith),
        once-Filled (ground arith),
      )
      | inr past ↦ elim (Bool-cases (ltb 0 (n - room))) [
        | inl more ↦ (
          twice n,
          ground (
            arith,
            length-take room src,
            length-second,
            length-splice r.rear (take room src) r.buf,
            read_bytes_lem 0 room src,
            write_bytes_lem r.rear (take room src) r.buf,
            read_bytes_lem room (n - room) src,
            write_bytes_lem 0 second (once room),
          ),
          twice-Filled (ground arith),
        )
        | inr exact ↦ (
          once n,
          ground (
            arith,
            length-take room src,
            read_bytes_lem 0 room src,
            write_bytes_lem r.rear (take room src) r.buf,
            ap once {x = room} {y = n},
          ),
          once-Filled (ground arith),
        )
      ]
    ]

-- The ring after `n` bytes have been copied to `buf`, and the bytes that it holds then.
module _ {r : Ring} (v : IsValid r) (src : List ℕ) (n : ℕ) (free : n ≤ get_free_size r)
    (given : n ≤ length src) where
  abbrev after : List ℕ → Ring
  after buf = record r { buf = buf; rear = index r.capacity r.rear n }

  contents-after :
      (buf : List ℕ) → Filled r src n buf → contents (after buf) ≡ contents r ++ take n src
  contents-after buf f =
      rw (use_size-rear buf n v free, tabulate-add (get_use_size r) n (byte_at (after buf)))
        (ap₂ ◌++◌ (tabulate-congr (get_use_size r) _ _ f.kept)
          (tabulate-congr n _ _ behind ∙ sym (take-drop_table 0 n src 0 (omega arith))))
    where
      behind : (i : ℕ) → i < n → byte_at (after buf) (get_use_size r + i) ≡ get_or src (0 + i) 0
      behind i h =
          ap (λ k. get_or buf k 0) (index_behind i v (omega arith))
          ∙ f.added i h
          ∙ ap (λ k. get_or src k 0) {x = i} {y = 0 + i} (omega arith)

  after-IsValid : (buf : List ℕ) → Filled r src n buf → IsValid (after buf)
  unfolding get_free_size get_use_size
  after-IsValid buf f = ground (arith, f.kept_length)

-- What `Enqueue` leaves: of `n` bytes the ring takes as many as are free, in order, behind those it
-- holds; it stays valid and keeps its size.
pub record Enqueued (r : Ring) (src : List ℕ) (size : ℕ) : Type 0 where
  pub ring : Ring
  pub result : enqueue r (some src) size ≡ some (min size (get_free_size r), ring)
  pub holds : contents ring ≡ contents r ++ take (min size (get_free_size r)) src
  pub valid : IsValid ring
  pub same_capacity : ring.capacity ≡ r.capacity

free-lt : {r : Ring} → IsValid r → (n : ℕ) → n ≤ get_free_size r → n < r.capacity
unfolding get_free_size get_use_size
free-lt v n h = ground arith

enqueue_nothing :
    {r : Ring} (src : List ℕ) (size : ℕ)
    → IsValid r
    → min size (get_free_size r) ≡ 0
    → Enqueued r src size
unfolding enqueue
enqueue_nothing {r} src size v h = record {
  ring = r;
  result = ground arith;
  holds = rw (h, append-nil);
  valid = v;
  same_capacity = refl;
}

enqueue-some :
    {r : Ring} (src : List ℕ) (size n : ℕ) (buf : List ℕ)
    → IsValid r
    → n ≡ min size (get_free_size r)
    → 0 < n
    → n ≤ r.capacity
    → copy_in r src n ≡ some buf
    → enqueue r (some src) size ≡ some (n, record r { buf = buf; rear = index r.capacity r.rear n })
unfolding enqueue
enqueue-some {r} src size n buf v e h k copied = ground (arith, position_fits r.rear n v)

-- `Enqueue` from a source of at least `size` bytes does not fault, and adds as many of the first of
-- them as fit behind the bytes of the ring.
pub enqueue-Enqueued :
    {r : Ring} (src : List ℕ) (size : ℕ) → IsValid r → size ≤ length src → Enqueued r src size
enqueue-Enqueued {r} src size v given = elim (Bool-cases (ltb 0 (min size (get_free_size r)))) [
  | inr nothing ↦ enqueue_nothing src size v (ground arith)
  | inl bytes ↦
      let n = min size (get_free_size r) in
      let free : n ≤ get_free_size r = omega arith in
      let enough : n ≤ length src = omega arith in
      let (buf, copied, f) = copy_in-Filled r src v n free enough in
      let below = free-lt v n free in
      record {
        ring = after v src n free enough buf;
        result = enqueue-some src size n buf v refl (ltb→lt _ _ bytes) (omega arith) copied;
        holds = contents-after v src n free enough buf f;
        valid = after-IsValid v src n free enough buf f;
        same_capacity = refl;
      }
]
