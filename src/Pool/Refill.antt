-- ===== src/Pool/Refill.antt =====
-- `PopChunk` and `Refill` find a chunk, in the cache, in the shared pool or in new memory.
use iocp_model_server.Base.{
  ℕ, suc, ◌+◌, ◌<◌, ◌≤◌, ◌≡◌, ◌≢◌, ◌⊎◌, refl, sym, ap, subst, ◌∙◌, Bool, false, Bool-cases, inl,
  inr, arith, set, set_here, set_twice, ◌==◌, ltb, some, not, ◌&&◌, ◌||◌,
}
use iocp_model_server.Pool.{Pool, chunk_size, new_chunk, pop_chunk, link}
use iocp_model_server.Pool.Cache.{Cache, load, refill, take_chunk}
use iocp_model_server.Pool.Stacks.{Place, away, at, Stacks-top}
use iocp_model_server.Pool.Chunks.{take_chunk-IsPooled, pop_chunk-IsPooled}
use iocp_model_server.Pool.Moved.{to_thread}
use iocp_model_server.Pool.Moves.{load-IsPooled}
use iocp_model_server.Pool.Fresh.{
  IsFresh, new_place, new_place_in, new_place_out, range_cases, inside-IsFresh, link-head,
}
use iocp_model_server.Pool.Grown.{new_blocks, grown-IsPooled}
use iocp_model_server.Pool.Held.{
  Owner, thread, chunk, loose, is_chunk, chunk_tops, chunk_sizes, no_chunk, IsPooled, chunk_head,
}

-- A block that a user has.
abbrev pub is_used : Place Owner → Bool
is_used (away w) = w == 1
is_used (at o k) = false

to_thread-used : (c t : ℕ) (pl : Place Owner) → is_used (to_thread c t pl) ≡ is_used pl
unfolding to_thread
to_thread-used c t (away w) = refl
to_thread-used c t (at (thread u) k) = refl
to_thread-used c t (at (chunk d) k) = ground arith

pub new_place-used :
    (place : ℕ → Place Owner) (mem j : ℕ)
    → IsFresh place mem
    → is_used (new_place place mem j) ≡ is_used (place j)
new_place-used place mem j fresh = elim (range_cases mem j) [
  | inl r ↦
      ap is_used (new_place_in place mem j r.0 r.1)
      ∙ sym (ap is_used (inside-IsFresh place mem j fresh r))
  | inr out ↦ ap is_used (new_place_out place mem j out)
]

-- The maximum number of chunks leaves room for one more.
abbrev pub HasRoom : Pool → Type 0
HasRoom p = (p.max_chunks ≡ 0) ⊎ (p.chunk_count < p.max_chunks)

pub new_chunk_lem :
    (mem : ℕ) (p : Pool)
    → mem ≢ 0
    → HasRoom p
    → new_chunk mem p
      ≡ some (mem, record p { chunk_count = p.chunk_count + 1; blocks = new_blocks mem p })
unfolding new_chunk
new_chunk_lem mem p some_mem room =
    let tests : not (p.max_chunks == 0) && ltb p.max_chunks (p.chunk_count + 1) || (mem == 0)
        ≡ false =
      ground arith in
    rw tests (
      ap
        (λ head.
          let out = (link p.self mem chunk_size 0 p.blocks).1 in
          some (
            head,
            record p {
              chunk_count = p.chunk_count + 1;
              blocks = set out head (record (out head) { count = chunk_size });
            },
          ))
        (link-head p.self mem 299 0 p.blocks))

pub record Popped (place : ℕ → Place Owner) (mem : ℕ) (caches : ℕ → Cache) (p : Pool) : Type 0 where
  pub head : ℕ
  pub pool : Pool
  pub place' : ℕ → Place Owner
  pub role' : ℕ → Place ℕ
  pub size' : ℕ
  pub result : pop_chunk mem p ≡ some (head, pool)
  pub loose_head : role' head ≡ loose
  pub used : (j : ℕ) → is_used (place' j) ≡ is_used (place j)
  pub pooled : IsPooled place' role' size' caches pool

pub pop_chunk-Popped :
    (place : ℕ → Place Owner) (role : ℕ → Place ℕ) (size mem : ℕ) (caches : ℕ → Cache) (p : Pool)
    → IsPooled place role size caches p
    → IsFresh place mem
    → mem ≢ 0
    → HasRoom p
    → Popped place mem caches p
unfolding pop_chunk
pop_chunk-Popped place role size mem caches p h fresh some_mem room =
    elim (Bool-cases (p.top == 0)) [
      | inl e ↦ record {
        head = mem;
        pool = record p { chunk_count = p.chunk_count + 1; blocks = new_blocks mem p };
        place' = new_place place mem;
        role' = set role mem loose;
        size' = size;
        result = rw e (new_chunk_lem mem p some_mem room);
        loose_head = set_here role mem loose;
        used = λ j. new_place-used place mem j fresh;
        pooled = grown-IsPooled place role size caches p mem h fresh some_mem (p.chunk_count + 1);
      }
      | inr e ↦
          let top =
            Stacks-top role (λ b. (p.blocks b).chunk_next) (chunk_tops size caches p)
              (chunk_sizes size caches p) 0 h.chunks (λ z. absurd (ground arith)) in
          record {
            head = p.top;
            pool = record p { top = (p.blocks p.top).chunk_next };
            place' = place;
            role' = set role p.top loose;
            size' = top.0;
            result = rw e refl;
            loose_head = set_here role p.top loose;
            used = λ j. refl;
            pooled = pop_chunk-IsPooled place role size caches p h top.0 top.1 top.2;
          }
    ]

pub record Refilled (place : ℕ → Place Owner) (mem : ℕ) (caches : ℕ → Cache) (t : ℕ) (p : Pool)
    : Type 0 where
  pub cache : Cache
  pub pool : Pool
  pub place' : ℕ → Place Owner
  pub role' : ℕ → Place ℕ
  pub size' : ℕ
  pub result : refill mem (caches t) p ≡ some (cache, pool)
  pub some_block : cache.cur ≢ 0
  pub few : cache.chunk_count ≤ (caches t).chunk_count
  pub used : (j : ℕ) → is_used (place' j) ≡ is_used (place j)
  pub pooled : IsPooled place' role' size' (set caches t cache) pool

pub refill-Refilled :
    (place : ℕ → Place Owner) (role : ℕ → Place ℕ) (size mem : ℕ) (caches : ℕ → Cache) (t : ℕ)
    (p : Pool)
    → IsPooled place role size caches p
    → (caches t).cur_count ≡ 0
    → IsFresh place mem
    → mem ≢ 0
    → HasRoom p
    → Refilled place mem caches t p
unfolding refill load take_chunk
refill-Refilled place role size mem caches t p h no_blocks fresh some_mem room =
    elim (Bool-cases ((caches t).chunk_top == 0)) [
      | inl e ↦
          let popped = pop_chunk-Popped place role size mem caches p h fresh some_mem room in
          let p' : Pool = popped.pool in
          record {
            cache = load popped.head (caches t) p';
            pool = p';
            place' = λ j. to_thread popped.head t (popped.place' j);
            role' = set popped.role' popped.head no_chunk;
            size' = popped.size';
            result = rw (e, popped.result) refl;
            some_block =
                (chunk_head popped.place' popped.role' popped.size' caches p' popped.head
                  popped.pooled (ap is_chunk popped.loose_head)).2;
            few = omega arith;
            used = λ j. to_thread-used popped.head t (popped.place' j) ∙ popped.used j;
            pooled =
                load-IsPooled popped.place' popped.role' popped.size' caches t p' popped.pooled
                  popped.head popped.loose_head no_blocks;
          }
      | inr e ↦
          let top =
            Stacks-top role (λ b. (p.blocks b).chunk_next) (chunk_tops size caches p)
              (chunk_sizes size caches p) (suc t) h.chunks (λ z. absurd (ground arith)) in
          let c = (caches t).chunk_top in
          let k : Cache = take_chunk (caches t) p in
          let role' : ℕ → Place ℕ = set role c loose in
          let taken : IsPooled place role' size (set caches t k) p =
            take_chunk-IsPooled place role size caches p h t top.0 top.1 top.2 in
          record {
            cache = load c k p;
            pool = p;
            place' = λ j. to_thread c t (place j);
            role' = set role' c no_chunk;
            size' = size;
            result = rw e refl;
            some_block =
                (chunk_head place role' size (set caches t k) p c taken
                  (ap is_chunk (set_here role c loose))).2;
            few = omega arith;
            used = λ j. to_thread-used c t (place j);
            pooled =
                subst
                  (λ cs. IsPooled (λ j. to_thread c t (place j)) (set role' c no_chunk) size cs p)
                  (set_twice caches t k (λ x. load c x p))
                  (load-IsPooled place role' size (set caches t k) t p taken c
                    (set_here role c loose)
                    (ap (λ x. x.cur_count) (set_here caches t k) ∙ no_blocks));
          }
    ]
