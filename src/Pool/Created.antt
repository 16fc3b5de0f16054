-- ===== src/Pool/Created.antt =====
-- The constructor of the shared pool.
use iocp_model_server.Base.{
  ℕ, zero, suc, ◌+◌, ◌-◌, ◌<◌, ◌≤◌, ◌≡◌, ◌≢◌, ◌⊎◌, refl, ap, ◌∙◌, arith, set, set_here, ◌/◌, ◌%◌,
  ◌^◌, some, List, [], ◌∷◌, ◌*◌, reverse_onto, tabulate,
}
use iocp_model_server.Pool.{
  Block, Pool, chunk_size, chunks_of, push_chunk, push_new, create, new_chunk, get_capacity_count,
}
use iocp_model_server.Pool.Cache.{Cache, no_cache}
use iocp_model_server.Pool.Stacks.{Place, at, empty-Stacks}
use iocp_model_server.Pool.Chunks.{push_chunk-IsPooled}
use iocp_model_server.Pool.Listed.{chunks_from, push_chunk-shared, push_chunk-count}
use iocp_model_server.Pool.Fresh.{IsFresh, new_place, new_place_out}
use iocp_model_server.Pool.Grown.{
  new_blocks, new_blocks-count, untouched, grown-IsPooled, grown-walk,
}
use iocp_model_server.Pool.Refill.{is_used, new_chunk_lem, new_place-used}
use iocp_model_server.Pool.Held.{
  Owner, thread, chunk, loose, outside, no_chunk, Sound, IsFilled, block_tops, block_sizes,
  chunk_tops, chunk_sizes, IsPooled,
}

-- The pool that a step leaves, wherever the blocks and the chunks are then: the chunks in the shared
-- pool are the ones listed, from the top on.
pub record IsKept (place : ℕ → Place Owner) (caches : ℕ → Cache) (p : Pool) (listed : List ℕ)
    : Type 0 where
  pub place' : ℕ → Place Owner
  pub role' : ℕ → Place ℕ
  pub size' : ℕ
  pub used : (j : ℕ) → is_used (place' j) ≡ is_used (place j)
  pub pooled : IsPooled place' role' size' caches p
  pub shared : chunks_from p p.top size' ≡ listed

-- The memory that `_aligned_malloc` returns for the chunks of the constructor: no two overlap.
unfoldable pub IsApart : (ℕ → ℕ) → Type 0
IsApart mem = (i j : ℕ) → i < j → (mem i + chunk_size ≤ mem j) ⊎ (mem j + chunk_size ≤ mem i)

still-IsFresh :
    (place : ℕ → Place Owner) (m other : ℕ)
    → (m + chunk_size ≤ other) ⊎ (other + chunk_size ≤ m)
    → IsFresh place other
    → IsFresh (new_place place m) other
unfolding IsFresh
still-IsFresh place m other apart fresh i lt =
    new_place_out place m (other + i) (ground (arith, apart, lt)) ∙ fresh i lt

-- An address outside the chunk at `m`.
abbrev IsBeside : ℕ → ℕ → Type 0
IsBeside m d = (d < m) ⊎ (m + chunk_size ≤ d)

first_IsBeside : (mem : ℕ → ℕ) → IsApart mem → (i : ℕ) → IsBeside (mem (suc i)) (mem 0)
unfolding IsApart
first_IsBeside mem apart i = ground (arith, apart 0 (suc i))

-- What the loop of the constructor leaves: `n` new chunks of 300 blocks in front of the others.
record Extended (n : ℕ) (mem : ℕ → ℕ) (place : ℕ → Place Owner) (caches : ℕ → Cache) (p : Pool)
    (size : ℕ) : Type 0 where
  pub pool : Pool
  pub result : push_new mem n p ≡ some pool
  pub number : pool.chunk_count ≡ p.chunk_count + n
  pub same : (d : ℕ) → ((i : ℕ) → IsBeside (mem i) d) → (pool.blocks d).count ≡ (p.blocks d).count
  pub full : (i : ℕ) → i < n → (pool.blocks (mem i)).count ≡ chunk_size
  pub kept : IsKept place caches pool (reverse_onto (tabulate n mem) (chunks_from p p.top size))

all_full :
    (mem : ℕ → ℕ) (n : ℕ) (p : Pool)
    → (p.blocks (mem 0)).count ≡ chunk_size
    → ((i : ℕ) → i < n → (p.blocks (mem (suc i))).count ≡ chunk_size)
    → (i : ℕ) → i < suc n
    → (p.blocks (mem i)).count ≡ chunk_size
all_full mem n p first others zero lt = first
all_full mem n p first others (suc i) lt = others i (omega arith)

-- The loop of the constructor, from any pool with room for the chunks.
push_new-Extended :
    (n : ℕ) (mem : ℕ → ℕ) (place : ℕ → Place Owner) (role : ℕ → Place ℕ) (size : ℕ)
    (caches : ℕ → Cache) (p : Pool)
    → IsPooled place role size caches p
    → IsApart mem
    → ((i : ℕ) → (mem i ≢ 0) × IsFresh place (mem i))
    → (p.max_chunks ≡ 0) ⊎ (p.chunk_count + n ≤ p.max_chunks)
    → Extended n mem place caches p size
unfolding push_new IsApart push_chunk
push_new-Extended zero mem place role size caches p h apart fresh room = record {
  pool = p;
  result = refl;
  number = omega arith;
  same = λ d out. refl;
  full = λ i lt. absurd (omega arith);
  kept = record {
    place' = place;
    role' = role;
    size' = size;
    used = λ j. refl;
    pooled = h;
    shared = refl;
  };
}
push_new-Extended (suc n) mem place role size caches p h apart fresh room =
    let m = mem 0 in
    let made : Pool = record p { chunk_count = p.chunk_count + 1; blocks = new_blocks m p } in
    let result : new_chunk m p ≡ some (m, made) =
      new_chunk_lem m p (fresh 0).0 (ground (arith, room)) in
    let grown =
      grown-IsPooled place role size caches p m h (fresh 0).1 (fresh 0).0 (p.chunk_count + 1) in
    let here = set_here role m loose in
    let pushed =
      push_chunk-IsPooled (new_place place m) (set role m loose) size caches made grown m here in
    let rest =
      push_new-Extended n (λ i. mem (suc i)) (new_place place m)
        (set (set role m loose) m (at 0 size)) (suc size) caches (push_chunk m made) pushed
        (λ i j lt. apart (suc i) (suc j) (omega arith))
        (λ i. (
          (fresh (suc i)).0,
          still-IsFresh place m (mem (suc i)) (apart 0 (suc i) (omega arith)) (fresh (suc i)).1,
        ))
        (ground (arith, room)) in
    let first_full : (rest.pool.blocks m).count ≡ chunk_size =
      rest.same m (first_IsBeside mem apart)
      ∙ push_chunk-count made m m
      ∙ new_blocks-count place role size caches p m h (fresh 0).1 (fresh 0).0 in
    record {
      pool = rest.pool;
      result = rw result rest.result;
      number = rest.number ∙ omega arith;
      same = λ d out.
          rest.same d (λ i. out (suc i))
          ∙ push_chunk-count made m d
          ∙ ap (λ x. x.count)
              (untouched place role size caches p m h (fresh 0).1 (fresh 0).0 d (out 0));
      full = all_full mem n rest.pool first_full rest.full;
      kept = record {
        place' = rest.kept.place';
        role' = rest.kept.role';
        size' = rest.kept.size';
        used = λ j. rest.kept.used j ∙ new_place-used place m j (fresh 0).1;
        pooled = rest.kept.pooled;
        shared =
            rest.kept.shared
            ∙ ap (reverse_onto (tabulate n (λ i. mem (suc i)))) (
                push_chunk-shared (set role m loose) made m here (new_place place m) size caches
                  grown
                ∙ ap (◌∷◌ m) (
                    grown-walk place role size caches p m h (fresh 0).1 (fresh 0).0
                      (p.chunk_count + 1)));
      };
    }

-- A pool without chunks.
pub empty-IsPooled :
    (self max : ℕ) (memory : ℕ → Block)
    → IsPooled
        (λ b. outside)
        (λ b. no_chunk)
        0
        (λ t. no_cache)
        (record { self = self; max_chunks = max; chunk_count = 0; top = 0; blocks = memory })
unfolding Sound IsFilled
empty-IsPooled self max memory = record {
  blocks =
      empty-Stacks (λ b. outside) (λ b. (memory b).next)
        (block_tops (λ b. no_chunk) (λ t. no_cache) p)
        (block_sizes (λ b. no_chunk) (λ t. no_cache) p) no_blocks;
  chunks =
      empty-Stacks (λ b. no_chunk) (λ b. (memory b).chunk_next) (chunk_tops 0 (λ t. no_cache) p)
        (chunk_sizes 0 (λ t. no_cache) p) no_chunks;
  filled = λ c e. absurd (ground arith);
  sound = λ b differ. absurd (differ refl);
  small = λ t. omega arith;
}
  where
    p : Pool
    p = record { self = self; max_chunks = max; chunk_count = 0; top = 0; blocks = memory }

    no_blocks :
        (o : Owner)
        → (block_tops (λ b. no_chunk) (λ t. no_cache) p o ≡ 0)
          × (block_sizes (λ b. no_chunk) (λ t. no_cache) p o ≡ 0)
    no_blocks (thread t) = (refl, refl)
    no_blocks (chunk c) = (refl, refl)

    no_chunks :
        (o : ℕ) → (chunk_tops 0 (λ t. no_cache) p o ≡ 0) × (chunk_sizes 0 (λ t. no_cache) p o ≡ 0)
    no_chunks zero = (refl, refl)
    no_chunks (suc t) = (refl, refl)

-- With memory for its chunks that does not overlap, and unless the maximum is below the initial
-- number, the constructor leaves a pool in order with as many blocks as were asked for, rounded up
-- by fewer than 300. They are there: the list of the shared pool goes through every chunk of that
-- memory, the last one first, each of these chunks has 300 blocks, and no block is in use.
pub create-IsKept :
    (self : ℕ) (mem : ℕ → ℕ) (memory : ℕ → Block) (initial max : ℕ)
    → IsApart mem
    → ((i : ℕ) → mem i ≢ 0)
    → initial + chunk_size ≤ 2 ^ 32
    → (chunks_of max ≡ 0) ⊎ (chunks_of initial ≤ chunks_of max)
    → (p : Pool) × (create self mem memory initial max ≡ some p)
      × (initial ≤ get_capacity_count p)
      × (get_capacity_count p < initial + chunk_size)
      × (get_capacity_count p ≡ chunks_of initial * chunk_size)
      × ((i : ℕ) → i < chunks_of initial → (p.blocks (mem i)).count ≡ chunk_size)
      × IsKept (λ b. outside) (λ t. no_cache) p (reverse_onto (tabulate (chunks_of initial) mem) [])
unfolding create get_capacity_count IsFresh
create-IsKept self mem memory initial max apart some_mem small room =
    let made =
      push_new-Extended (chunks_of initial) mem (λ b. outside) (λ b. no_chunk) 0 (λ t. no_cache)
        (record {
          self = self;
          max_chunks = chunks_of max;
          chunk_count = 0;
          top = 0;
          blocks = memory;
        })
        (empty-IsPooled self (chunks_of max) memory) apart (λ i. (some_mem i, λ j lt. refl))
        (ground (arith, room)) in
    let exact : (initial + chunk_size - 1) % 2 ^ 32 ≡ initial + chunk_size - 1 = omega arith in
    let number : made.pool.chunk_count ≡ (initial + chunk_size - 1) / chunk_size =
      made.number ∙ ap (λ k. 0 + k / chunk_size) exact ∙ omega arith in
    (
      made.pool,
      made.result,
      omega (arith, number),
      omega (arith, number),
      ap (λ n. n * chunk_size) {x = made.pool.chunk_count} {y = chunks_of initial}
          (made.number ∙ omega arith),
      made.full,
      made.kept,
    )
