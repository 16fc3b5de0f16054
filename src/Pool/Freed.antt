-- ===== src/Pool/Freed.antt =====
-- `Free` of a thread, and what it does to the blocks that users have.
use iocp_model_server.Base.{
  ℕ, ◌<◌, ◌≤◌, ◌≡◌, ◌≢◌, refl, sym, ap, subst, ◌∙◌, true, false, Bool-cases, inl, inr, arith, set,
  set_here, set_all, set_both, set_again, ◌==◌, ◌&&◌, some, none,
}
use iocp_model_server.Pool.{Block, Pool, chunk_size, is_sound, validate_free, with_flag}
use iocp_model_server.Pool.Cache.{Cache, tls_max_chunks, free, put_block, seal}
use iocp_model_server.Pool.Stacks.{Place, away, at, away-at}
use iocp_model_server.Pool.Blocks.{put-IsPooled}
use iocp_model_server.Pool.Moved.{to_chunk, to_chunk_here}
use iocp_model_server.Pool.Refill.{is_used}
use iocp_model_server.Pool.Sealed.{to_chunk-used, seal_counts, seal-IsLeft}
use iocp_model_server.Pool.Held.{
  Owner, thread, outside, in_use, flag_of, Sound, IsPooled, in_use-outside,
}
use iocp_model_server.Pool.Rest.{IsAtRest, Sound-test}

pub record Freed (place : ℕ → Place Owner) (caches : ℕ → Cache) (t b : ℕ) (p : Pool) : Type 0 where
  pub cache : Cache
  pub pool : Pool
  pub place' : ℕ → Place Owner
  pub role' : ℕ → Place ℕ
  pub size' : ℕ
  pub result : free b (caches t) p ≡ some (cache, pool)
  pub of_pool : place' b ≢ outside
  pub used : (j : ℕ) → is_used (place' j) ≡ set (λ i. is_used (place i)) b false j
  pub at_rest : IsAtRest place' role' size' (set caches t cache) pool

validate_free-result :
    (place : ℕ → Place Owner) (role : ℕ → Place ℕ) (size : ℕ) (caches : ℕ → Cache) (p : Pool)
    (b : ℕ)
    → IsPooled place role size caches p
    → place b ≡ in_use
    → validate_free p b ≡ some (with_flag 0 b p)
unfolding validate_free
validate_free-result place role size caches p b h here =
    let test =
      Sound-test p (place b) b (p.blocks b) (h.sound b) (λ e. in_use-outside (sym here ∙ e)) in
    let flag : (p.blocks b).use_flag ≡ 1 = test.1 ∙ ap flag_of here in
    let tests : is_sound p (p.blocks b) && ((p.blocks b).use_flag == 1) ≡ true =
      ground (arith, test.0, flag) in
    rw tests refl

used-in_use : (pl : Place Owner) → is_used pl ≡ true → pl ≡ in_use
used-in_use (away w) e = ap away {x = w} {y = 1} (ground arith)
used-in_use (at o k) e = absurd (ground arith)

used-flag : (pl : Place Owner) → (flag_of pl == 1) ≡ is_used pl
used-flag (away w) = refl
used-flag (at o k) = refl

-- A block of the pool that is not in use is not taken back: `Free` breaks, so a second `Free` of the
-- same block is found out on every thread.
pub free-none :
    (place : ℕ → Place Owner) (role : ℕ → Place ℕ) (size : ℕ) (caches : ℕ → Cache) (t b : ℕ)
    (p : Pool)
    → IsAtRest place role size caches p
    → place b ≢ outside
    → is_used (place b) ≡ false
    → free b (caches t) p ≡ none
unfolding free validate_free
free-none place role size caches t b p h of_pool unused =
    let test = Sound-test p (place b) b (p.blocks b) (h.pooled.sound b) of_pool in
    let flag : ((p.blocks b).use_flag == 1) ≡ false =
      ap (λ f. f == 1) test.1 ∙ used-flag (place b) ∙ unused in
    let tests : is_sound p (p.blocks b) && ((p.blocks b).use_flag == 1) ≡ false =
      ground (arith, test.0, flag) in
    rw tests refl

in_use-some :
    (pl : Place Owner) (b : ℕ) (k : Block) (self : ℕ) → pl ≡ in_use → Sound self pl b k → b ≢ 0
unfolding Sound
in_use-some pl b k self here h = (h (λ e. in_use-outside (sym here ∙ e))).0

pub free-Freed :
    (place : ℕ → Place Owner) (role : ℕ → Place ℕ) (size : ℕ) (caches : ℕ → Cache) (t b : ℕ)
    (p : Pool)
    → IsAtRest place role size caches p
    → is_used (place b) ≡ true
    → Freed place caches t b p
unfolding free put_block
free-Freed place role size caches t b p h taken =
    let here : place b ≡ in_use = used-in_use (place b) taken in
    let s = put_block b (caches t) (with_flag 0 b p) in
    let n = (caches t).cur_count in
    let place' : ℕ → Place Owner = set place b (at (thread t) n) in
    let ok = validate_free-result place role size caches p b h.pooled here in
    let some_block : b ≢ 0 = in_use-some (place b) b (p.blocks b) p.self here (h.pooled.sound b) in
    let put = put-IsPooled place role size caches t p h.pooled b here (h.few_blocks t) in
    let used' : (j : ℕ) → is_used (place' j) ≡ set (λ i. is_used (place i)) b false j =
      set_both (λ j pl u. is_used pl ≡ u) place (λ i. is_used (place i)) b (at (thread t) n) false
        refl (λ j differ. refl) in
    elim (Bool-cases (s.0.cur_count == chunk_size)) [
      | inl e ↦
          let full : n ≡ 299 = ground (arith, e) in
          let cs : ℕ → Cache = set caches t s.0 in
          let is : cs t ≡ s.0 = set_here caches t s.0 in
          let sealed =
            seal-IsLeft place' role size cs t s.1 299 put
              (subst (λ k. k.cur ≢ 0) (sym is) some_block)
              (ap (λ k. k.cur_count) is ∙ omega (arith, full))
              (ap (λ k. place' k.cur) is
                ∙ set_here place b (at (thread t) n)
                ∙ ap (at (thread t)) full) in
          let counts = seal_counts s.0 s.1 (h.few_chunks t) in
          record {
            cache = (seal s.0 s.1).0;
            pool = (seal s.0 s.1).1;
            place' = λ j. to_chunk t b (place' j);
            role' = sealed.role;
            size' = sealed.size;
            result = rw (ok, e) refl;
            of_pool = λ z. away-at (
                sym z
                ∙ ap (to_chunk t b) (set_here place b (at (thread t) n))
                ∙ to_chunk_here t b n);
            used = λ j. to_chunk-used t b (place' j) ∙ used' j;
            at_rest = record {
              pooled =
                  subst
                    (λ x.
                      IsPooled (λ j. to_chunk t b (place' j)) sealed.role sealed.size x
                        (seal s.0 s.1).1)
                    (set_again caches t s.0 (seal s.0 s.1).0)
                    (subst
                      (λ k.
                        IsPooled (λ j. to_chunk t k.cur (place' j)) sealed.role sealed.size
                          (set cs t (seal k s.1).0) (seal k s.1).1)
                      is sealed.pooled);
              few_blocks =
                  set_all (λ u k. k.cur_count < chunk_size) caches t (seal s.0 s.1).0
                    (omega (arith, counts.1)) (λ u differ. h.few_blocks u);
              few_chunks =
                  set_all (λ u k. k.chunk_count ≤ tls_max_chunks) caches t (seal s.0 s.1).0 counts.0
                    (λ u differ. h.few_chunks u);
            };
          }
      | inr e ↦ record {
        cache = s.0;
        pool = s.1;
        place' = place';
        role' = role;
        size' = size;
        result = rw (ok, e) refl;
        of_pool = λ z. away-at (sym z ∙ set_here place b (at (thread t) n));
        used = used';
        at_rest = record {
          pooled = put;
          few_blocks =
              set_all (λ u k. k.cur_count < chunk_size) caches t s.0
                (ground (arith, e, h.few_blocks t)) (λ u differ. h.few_blocks u);
          few_chunks =
              set_all (λ u k. k.chunk_count ≤ tls_max_chunks) caches t s.0 (h.few_chunks t)
                (λ u differ. h.few_chunks u);
        };
      }
    ]
