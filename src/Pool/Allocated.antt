-- ===== src/Pool/Allocated.antt =====
-- `Alloc` of a thread, and what it does to the blocks that users have.
use iocp_model_server.Base.{
  ℕ, suc, ◌<◌, ◌≤◌, ◌≡◌, ◌≢◌, refl, sym, ap, subst, ◌∙◌, true, false, Bool-cases, inl, inr, arith,
  set, set_here, set_all, set_both, set_again, set_self, ◌==◌, ◌&&◌, some,
}
use iocp_model_server.Pool.{Pool, chunk_size, is_sound, validate_alloc, with_flag}
use iocp_model_server.Pool.Cache.{Cache, tls_max_chunks, alloc, take_block, next_block}
use iocp_model_server.Pool.Stacks.{Place, at, away-at, Stacks-top, Stacks-bottom}
use iocp_model_server.Pool.Blocks.{take-IsPooled}
use iocp_model_server.Pool.Fresh.{IsFresh}
use iocp_model_server.Pool.Refill.{is_used, HasRoom, refill-Refilled}
use iocp_model_server.Pool.Held.{Owner, thread, in_use, flag_of, block_tops, block_sizes, IsPooled}
use iocp_model_server.Pool.Rest.{IsAtRest, Sound-test}

pub record Allocated (place : ℕ → Place Owner) (mem : ℕ) (caches : ℕ → Cache) (t : ℕ) (p : Pool)
    : Type 0 where
  pub block : ℕ
  pub cache : Cache
  pub pool : Pool
  pub place' : ℕ → Place Owner
  pub role' : ℕ → Place ℕ
  pub size' : ℕ
  pub result : alloc mem (caches t) p ≡ some (block, cache, pool)
  pub unused : is_used (place block) ≡ false
  pub some_block : block ≢ 0
  pub used : (j : ℕ) → is_used (place' j) ≡ set (λ i. is_used (place i)) block true j
  pub at_rest : IsAtRest place' role' size' (set caches t cache) pool

take_block-result :
    (place : ℕ → Place Owner) (role : ℕ → Place ℕ) (size : ℕ) (caches : ℕ → Cache) (p : Pool)
    (c : Cache) (n : ℕ) (o : Owner)
    → IsPooled place role size caches p
    → place c.cur ≡ at o n
    → take_block c p ≡ some (c.cur, next_block c p, with_flag 1 c.cur p)
unfolding take_block validate_alloc
take_block-result place role size caches p c n o h here =
    let test =
      Sound-test p (place c.cur) c.cur (p.blocks c.cur) (h.sound c.cur)
        (λ e. away-at (sym e ∙ here)) in
    let flag : (p.blocks c.cur).use_flag ≡ 0 = test.1 ∙ ap flag_of here in
    let tests : is_sound p (p.blocks c.cur) && ((p.blocks c.cur).use_flag == 0) ≡ true =
      ground (arith, test.0, flag) in
    rw tests refl

record Taken (place : ℕ → Place Owner) (role : ℕ → Place ℕ) (size : ℕ) (caches : ℕ → Cache) (t : ℕ)
    (c : Cache) (p : Pool) : Type 0 where
  result : take_block c p ≡ some (c.cur, next_block c p, with_flag 1 c.cur p)
  unused : is_used (place c.cur) ≡ false
  at_rest :
      IsAtRest
        (set place c.cur in_use)
        role
        size
        (set caches t (next_block c p))
        (with_flag 1 c.cur p)

take_block-Taken :
    (place : ℕ → Place Owner) (role : ℕ → Place ℕ) (size : ℕ) (caches : ℕ → Cache) (t : ℕ)
    (c : Cache) (p : Pool)
    → IsPooled place role size (set caches t c) p
    → c.cur ≢ 0
    → c.chunk_count ≤ tls_max_chunks
    → ((u : ℕ) → (caches u).cur_count < chunk_size)
    → ((u : ℕ) → (caches u).chunk_count ≤ tls_max_chunks)
    → Taken place role size caches t c p
take_block-Taken place role size caches t c p h some_block few blocks chunks =
    let cs : ℕ → Cache = set caches t c in
    let is : cs t ≡ c = set_here caches t c in
    let top =
      Stacks-top place (λ b. (p.blocks b).next) (block_tops role cs p) (block_sizes role cs p)
        (thread t) h.blocks (subst (λ k. k.cur ≢ 0) (sym is) some_block) in
    let here : place c.cur ≡ at (thread t) top.0 =
      subst (λ k. place k.cur ≡ at (thread t) top.0) is top.2 in
    let number : c.cur_count ≡ suc top.0 = subst (λ k. k.cur_count ≡ suc top.0) is top.1 in
    let small : c.cur_count ≤ chunk_size = subst (λ k. k.cur_count ≤ chunk_size) is (h.small t) in
    record {
      result = take_block-result place role size cs p c top.0 (thread t) h here;
      unused = ap is_used here;
      at_rest = record {
        pooled =
            subst (λ x. IsPooled (set place c.cur in_use) role size x (with_flag 1 c.cur p))
              (set_again caches t c (next_block c p))
              (subst
                (λ k.
                  IsPooled (set place k.cur in_use) role size (set cs t (next_block k p))
                    (with_flag 1 k.cur p))
                is (take-IsPooled place role size cs t p h top.0 top.1 top.2));
        few_blocks =
            set_all (λ u k. k.cur_count < chunk_size) caches t (next_block c p)
              (omega (arith, number, small)) (λ u differ. blocks u);
        few_chunks =
            set_all (λ u k. k.chunk_count ≤ tls_max_chunks) caches t (next_block c p) few
              (λ u differ. chunks u);
      };
    }

use_block :
    (place place' : ℕ → Place Owner) (b : ℕ)
    → ((j : ℕ) → is_used (place j) ≡ is_used (place' j))
    → (j : ℕ) → is_used (set place b in_use j) ≡ set (λ i. is_used (place' i)) b true j
use_block place place' b same =
    set_both (λ j pl u. is_used pl ≡ u) place (λ i. is_used (place' i)) b in_use true refl
      (λ j differ. same j)

-- From any state between two calls, with memory at hand that is not of the pool and room for one
-- more chunk, `Alloc` does not break. The block it returns was not in use, and is the only one whose
-- use changes; the caches, the chunks and the pool stay in order, with fewer than 300 blocks and at
-- most ten chunks in each cache.
pub alloc-Allocated :
    (place : ℕ → Place Owner) (role : ℕ → Place ℕ) (size mem : ℕ) (caches : ℕ → Cache) (t : ℕ)
    (p : Pool)
    → IsAtRest place role size caches p
    → IsFresh place mem
    → mem ≢ 0
    → HasRoom p
    → Allocated place mem caches t p
unfolding alloc
alloc-Allocated place role size mem caches t p h fresh some_mem room =
    elim (Bool-cases ((caches t).cur == 0)) [
      | inl e ↦
          let none_there =
            Stacks-bottom place (λ b. (p.blocks b).next) (block_tops role caches p)
              (block_sizes role caches p) (thread t) h.pooled.blocks (ground arith) in
          let filled =
            refill-Refilled place role size mem caches t p h.pooled none_there fresh some_mem
              room in
          let c : Cache = filled.cache in
          let p' : Pool = filled.pool in
          let taken =
            take_block-Taken filled.place' filled.role' filled.size' caches t c p' filled.pooled
              filled.some_block (omega (arith, filled.few, h.few_chunks t)) h.few_blocks
              h.few_chunks in
          record {
            block = c.cur;
            cache = next_block c p';
            pool = with_flag 1 c.cur p';
            place' = set filled.place' c.cur in_use;
            role' = filled.role';
            size' = filled.size';
            result = rw (e, filled.result) taken.result;
            unused = sym (filled.used c.cur) ∙ taken.unused;
            some_block = filled.some_block;
            used = use_block filled.place' place c.cur filled.used;
            at_rest = taken.at_rest;
          }
      | inr e ↦
          let c : Cache = caches t in
          let some_block : c.cur ≢ 0 = ground arith in
          let taken =
            take_block-Taken place role size caches t c p
              (subst (λ x. IsPooled place role size x p) (sym (set_self caches t)) h.pooled)
              some_block (h.few_chunks t) h.few_blocks h.few_chunks in
          record {
            block = c.cur;
            cache = next_block c p;
            pool = with_flag 1 c.cur p;
            place' = set place c.cur in_use;
            role' = role;
            size' = size;
            result = rw e taken.result;
            unused = taken.unused;
            some_block = some_block;
            used = use_block place place c.cur (λ j. refl);
            at_rest = taken.at_rest;
          }
    ]
