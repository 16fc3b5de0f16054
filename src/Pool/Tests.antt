-- ===== src/Pool/Tests.antt =====
-- One thread that takes a block of a new pool, gives it back, and ends.
use iocp_model_server.Base.{
  ℕ, ◌+◌, ◌*◌, ◌<◌, ◌≤◌, ◌≡◌, inl, inr, refl, ◌∙◌, true, false, arith, set, set_here, some, none,
  ◌≢◌, [], ◌∷◌, ◌++◌, reverse_onto,
}
use iocp_model_server.Pool.{Block, Pool, chunk_size, create, get_capacity_count}
use iocp_model_server.Pool.Cache.{Cache, no_cache, free, end_thread}
use iocp_model_server.Pool.Fresh.{IsFresh}
use iocp_model_server.Pool.Refill.{is_used}
use iocp_model_server.Pool.Rest.{IsAtRest}
use iocp_model_server.Pool.Allocated.{Allocated, alloc-Allocated}
use iocp_model_server.Pool.Freed.{Freed, free-Freed, free-none}
use iocp_model_server.Pool.Ends.{current_chunk, end_thread-IsKept}
use iocp_model_server.Pool.Listed.{chunks_from}
use iocp_model_server.Pool.Created.{IsKept, IsApart, create-IsKept, empty-IsPooled}
use iocp_model_server.Pool.Held.{outside, no_chunk}

abbrev blank : Block
blank = record {
  next = 0;
  chunk_next = 0;
  count = 0;
  use_flag = 9;
  owner = 9;
  front_guard = 9;
  back_guard = 9;
}

-- At most 600 blocks, and none at first.
abbrev new_pool : Pool
new_pool = record { self = 7; max_chunks = 2; chunk_count = 0; top = 0; blocks = λ b. blank }

new_pool-IsAtRest : IsAtRest (λ b. outside) (λ b. no_chunk) 0 (λ t. no_cache) new_pool
new_pool-IsAtRest = record {
  pooled = empty-IsPooled 7 2 (λ b. blank);
  few_blocks = λ t. omega arith;
  few_chunks = λ t. omega arith;
}

new_memory : IsFresh (λ b. outside) 1000
unfolding IsFresh
new_memory i lt = refl

alloc-Allocated_example : Allocated (λ b. outside) 1000 (λ t. no_cache) 0 new_pool
alloc-Allocated_example =
    alloc-Allocated (λ b. outside) (λ b. no_chunk) 0 1000 (λ t. no_cache) 0 new_pool
      new_pool-IsAtRest new_memory (omega arith) (inr (omega arith))

-- The same, for the examples that go on from there.
first : Allocated (λ b. outside) 1000 (λ t. no_cache) 0 new_pool
first =
    alloc-Allocated (λ b. outside) (λ b. no_chunk) 0 1000 (λ t. no_cache) 0 new_pool
      new_pool-IsAtRest new_memory (omega arith) (inr (omega arith))

abbrev caches : ℕ → Cache
caches = set (λ t. no_cache) 0 first.cache

second : Freed first.place' caches 0 first.block first.pool
second =
    free-Freed first.place' first.role' first.size' caches 0 first.block first.pool first.at_rest
      (first.used first.block ∙ set_here (λ i. false) first.block true)

free-none_example : free first.block (set caches 0 second.cache 0) second.pool ≡ none
free-none_example =
    free-none second.place' second.role' second.size' (set caches 0 second.cache) 0 first.block
      second.pool second.at_rest second.of_pool
      (second.used first.block ∙ set_here (λ i. is_used (first.place' i)) first.block false)

end_thread-IsKept_example :
    let c = caches 0 in
    (p : Pool) × (end_thread true c first.pool ≡ some p)
    × ((d : ℕ) → (p.blocks d).next ≡ (first.pool.blocks d).next)
    × ((d : ℕ) → d ≢ c.cur → (p.blocks d).count ≡ (first.pool.blocks d).count)
    × (c.cur ≢ 0 → (p.blocks c.cur).count ≡ c.cur_count)
    × IsKept first.place' (set caches 0 no_cache) p (
        reverse_onto
          (chunks_from first.pool c.chunk_top c.chunk_count)
          (current_chunk c ++ chunks_from first.pool first.pool.top first.size'))
end_thread-IsKept_example =
    end_thread-IsKept first.place' first.role' first.size' caches 0 first.pool first.at_rest.pooled

-- A thread that ends where no pool exists keeps what it has.
ends_without_pool : end_thread false (caches 0) first.pool ≡ some first.pool
unfolding end_thread
ends_without_pool = refl

spaced : IsApart (λ i. 1000 + 300 * i)
unfolding IsApart
spaced i j lt = inl (omega (arith, lt))

-- 301 blocks make two chunks.
create-IsKept_example :
    (p : Pool) × (create 7 (λ i. 1000 + 300 * i) (λ b. blank) 301 0 ≡ some p)
    × (301 ≤ get_capacity_count p)
    × (get_capacity_count p < 301 + chunk_size)
    × (get_capacity_count p ≡ 2 * chunk_size)
    × ((i : ℕ) → i < 2 → (p.blocks (1000 + 300 * i)).count ≡ chunk_size)
    × IsKept (λ b. outside) (λ t. no_cache) p (1300 ∷ 1000 ∷ [])
create-IsKept_example =
    create-IsKept 7 (λ i. 1000 + 300 * i) (λ b. blank) 301 0 spaced (λ i. omega arith) (omega arith)
      (inl refl)
