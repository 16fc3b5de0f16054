-- ===== src/Pool/Sealed.antt =====
-- `Seal`: the blocks of a thread become a chunk in its cache, or one of its chunks goes to the pool.
use iocp_model_server.Base.{
  ℕ, suc, ◌+◌, ◌≤◌, ◌≡◌, ◌≢◌, refl, sym, subst, Bool-cases, inl, inr, arith, set, set_here,
  set_again, set_self, ltb,
}
use iocp_model_server.Pool.{Pool}
use iocp_model_server.Pool.Cache.{
  Cache, tls_max_chunks, seal, seal_blocks, give_chunk, write_count, take_chunk,
}
use iocp_model_server.Pool.Stacks.{Place, away, at, Stacks-top}
use iocp_model_server.Pool.Chunks.{take_chunk-IsPooled, keep_chunk-IsPooled, push_chunk-IsPooled}
use iocp_model_server.Pool.Moved.{to_chunk}
use iocp_model_server.Pool.Moves.{seal-IsPooled}
use iocp_model_server.Pool.Refill.{is_used}
use iocp_model_server.Pool.Held.{Owner, thread, chunk, loose, chunk_tops, chunk_sizes, IsPooled}

pub to_chunk-used : (t c : ℕ) (pl : Place Owner) → is_used (to_chunk t c pl) ≡ is_used pl
unfolding to_chunk
to_chunk-used t c (away w) = refl
to_chunk-used t c (at (thread u) k) = ground arith
to_chunk-used t c (at (chunk d) k) = refl

-- The cache and the pool after a step, wherever the chunks are then.
pub record IsLeft (place : ℕ → Place Owner) (caches : ℕ → Cache) (t : ℕ) (s : Cache × Pool)
    : Type 0 where
  pub role : ℕ → Place ℕ
  pub size : ℕ
  pub pooled : IsPooled place role size (set caches t s.0) s.1

give_chunk-IsLeft :
    (place : ℕ → Place Owner) (role : ℕ → Place ℕ) (size : ℕ) (caches : ℕ → Cache) (t : ℕ)
    (p : Pool)
    → IsPooled place role size caches p
    → (caches t).chunk_top ≢ 0
    → IsLeft place caches t (give_chunk (caches t) p)
unfolding give_chunk
give_chunk-IsLeft place role size caches t p h some_chunk =
    elim (Bool-cases (ltb tls_max_chunks (caches t).chunk_count)) [
      | inl e ↦
          let c = (caches t).chunk_top in
          let k : Cache = take_chunk (caches t) p in
          let top =
            Stacks-top role (λ b. (p.blocks b).chunk_next) (chunk_tops size caches p)
              (chunk_sizes size caches p) (suc t) h.chunks some_chunk in
          rw e (record {
            role = set (set role c loose) c (at 0 size);
            size = suc size;
            pooled =
                push_chunk-IsPooled place (set role c loose) size (set caches t k) p
                  (take_chunk-IsPooled place role size caches p h t top.0 top.1 top.2) c
                  (set_here role c loose);
          })
      | inr e ↦ rw e (record {
        role = role;
        size = size;
        pooled = subst (λ x. IsPooled place role size x p) (sym (set_self caches t)) h;
      })
    ]

seal_blocks-IsPooled :
    (place : ℕ → Place Owner) (role : ℕ → Place ℕ) (size : ℕ) (caches : ℕ → Cache) (t : ℕ)
    (p : Pool) (n : ℕ)
    → IsPooled place role size caches p
    → (caches t).cur_count ≡ suc n
    → place (caches t).cur ≡ at (thread t) n
    → IsLeft (λ j. to_chunk t (caches t).cur (place j)) caches t (seal_blocks (caches t) p)
unfolding seal_blocks
seal_blocks-IsPooled place role size caches t p n h full here =
    let b = (caches t).cur in
    let place' : ℕ → Place Owner = λ j. to_chunk t b (place j) in
    let role' : ℕ → Place ℕ = set role b loose in
    let k : Cache = record (caches t) { cur = 0; cur_count = 0 } in
    let p' : Pool = write_count (caches t) p in
    let next : Cache → Cache = λ x. record x { chunk_top = b; chunk_count = x.chunk_count + 1 } in
    let linked : Cache → Pool = λ x. record p' {
      blocks = set p'.blocks b (record (p'.blocks b) { chunk_next = x.chunk_top });
    } in
    record {
      role = set role' b (at (suc t) k.chunk_count);
      size = size;
      pooled =
          subst (λ cs. IsPooled place' (set role' b (at (suc t) k.chunk_count)) size cs (linked k))
            (set_again caches t k (next k))
            (subst
              (λ x.
                IsPooled place' (set role' b (at (suc t) x.chunk_count)) size
                  (set (set caches t k) t (next x)) (linked x))
              (set_here caches t k)
              (keep_chunk-IsPooled place' role' size (set caches t k) p'
                (seal-IsPooled place role size caches t p h n full here) t b
                (set_here role b loose)));
    }

-- A thread that had at most ten chunks has at most ten again, and no other blocks.
pub seal_counts :
    (c : Cache) (p : Pool)
    → c.chunk_count ≤ tls_max_chunks
    → ((seal c p).0.chunk_count ≤ tls_max_chunks) × ((seal c p).0.cur_count ≡ 0)
unfolding seal seal_blocks give_chunk take_chunk
seal_counts c p few = elim (Bool-cases (ltb tls_max_chunks (c.chunk_count + 1))) [
  | inl e ↦ rw e (omega (arith, few), refl)
  | inr e ↦ rw e (ground (arith, e), refl)
]

top_there : (c : Cache) (p : Pool) → c.cur ≢ 0 → (seal_blocks c p).0.chunk_top ≢ 0
unfolding seal_blocks
top_there c p h = h

pub seal-IsLeft :
    (place : ℕ → Place Owner) (role : ℕ → Place ℕ) (size : ℕ) (caches : ℕ → Cache) (t : ℕ)
    (p : Pool) (n : ℕ)
    → IsPooled place role size caches p
    → (caches t).cur ≢ 0
    → (caches t).cur_count ≡ suc n
    → place (caches t).cur ≡ at (thread t) n
    → IsLeft (λ j. to_chunk t (caches t).cur (place j)) caches t (seal (caches t) p)
unfolding seal
seal-IsLeft place role size caches t p n h some_block full here =
    let place' : ℕ → Place Owner = λ j. to_chunk t (caches t).cur (place j) in
    let s = seal_blocks (caches t) p in
    let sealed = seal_blocks-IsPooled place role size caches t p n h full here in
    let cs : ℕ → Cache = set caches t s.0 in
    let is : cs t ≡ s.0 = set_here caches t s.0 in
    let given =
      give_chunk-IsLeft place' sealed.role sealed.size cs t s.1 sealed.pooled
        (subst (λ k. k.chunk_top ≢ 0) (sym is) (top_there (caches t) p some_block)) in
    record {
      role = given.role;
      size = given.size;
      pooled =
          subst (λ x. IsPooled place' given.role given.size x (give_chunk s.0 s.1).1)
            (set_again caches t s.0 (give_chunk s.0 s.1).0)
            (subst
              (λ k.
                IsPooled place' given.role given.size (set cs t (give_chunk k s.1).0)
                  (give_chunk k s.1).1)
              is given.pooled);
    }
