-- ===== src/Pool/Chunks.antt =====
-- A chunk that goes to the shared pool or to the cache of a thread, and one that is taken from there.
use iocp_model_server.Base.{
  ℕ, zero, suc, ◌+◌, ◌<◌, ◌≤◌, ◌≡◌, ◌≢◌, refl, sym, ap, subst, ◌∙◌, arith, set, set_here, set_there,
  set_same, if◌then◌else◌,
}
use iocp_model_server.Pool.{Block, Pool, chunk_size, push_chunk}
use iocp_model_server.Pool.Cache.{Cache, take_chunk}
use iocp_model_server.Pool.Stacks.{Place, at, Stacks, push-Stacks, pop-Stacks, same-Stacks}
use iocp_model_server.Pool.Held.{
  Owner, thread, chunk, is_chunk, loose, block_tops, block_sizes, chunk_tops, chunk_sizes, Sound,
  IsFilled, IsPooled, number_cases, other_stack, chunk_head,
}

module _ (place : ℕ → Place Owner) (role : ℕ → Place ℕ) (size : ℕ) (caches : ℕ → Cache) (p : Pool)
    (h : IsPooled place role size caches p) where
  -- Only the stacks of chunks have changed.
  restacked :
      (role' : ℕ → Place ℕ) (size' : ℕ) (caches' : ℕ → Cache) (top : ℕ) (blocks : ℕ → Block)
      → ((d : ℕ) → is_chunk (role' d) ≡ is_chunk (role d))
      → ((u : ℕ)
          → ((caches' u).cur ≡ (caches u).cur) × ((caches' u).cur_count ≡ (caches u).cur_count))
      → ((d : ℕ) → record (blocks d) { chunk_next = 0 } ≡ record (p.blocks d) { chunk_next = 0 })
      → let p' : Pool = record p { top = top; blocks = blocks } in
        Stacks role'
          (λ d. (blocks d).chunk_next)
          (chunk_tops size' caches' p')
          (chunk_sizes size' caches' p')
        → IsPooled place role' size' caches' p'
  unfolding IsFilled Sound
  restacked role' size' caches' top blocks kind cache block stacks =
      let p' : Pool = record p { top = top; blocks = blocks } in
      let count : (d : ℕ) → (blocks d).count ≡ (p.blocks d).count =
        λ d. ap (λ k. k.count) (block d) in
      record {
        blocks =
            same-Stacks place place (λ d. (p.blocks d).next) (λ d. (blocks d).next)
              (block_tops role caches p) (block_tops role' caches' p') (block_sizes role caches p)
              (block_sizes role' caches' p') h.blocks (λ j k q here. here)
              (λ d. ap (λ k. k.next) (block d)) same;
        chunks = stacks;
        filled = λ d some_chunk.
            subst (λ n. (0 < n) × (n ≤ chunk_size)) (sym (count d))
              (h.filled d (sym (kind d) ∙ some_chunk));
        sound = λ d differ.
            let was = h.sound d differ in
            (
              was.0,
              ap (λ k. k.owner) (block d) ∙ was.1,
              ap (λ k. k.front_guard) (block d) ∙ was.2,
              ap (λ k. k.back_guard) (block d) ∙ was.3,
              ap (λ k. k.use_flag) (block d) ∙ was.4,
            );
        small = λ u. subst (λ n. n ≤ chunk_size) (sym (cache u).1) (h.small u);
      }
    where
      p'' : Pool
      p'' = record p { top = top; blocks = blocks }

      same :
          (o : Owner)
          → (block_tops role' caches' p'' o ≡ block_tops role caches p o)
            × (block_sizes role' caches' p'' o ≡ block_sizes role caches p o)
      same (thread u) = cache u
      same (chunk d) = (
        ap (λ k. if k then d else 0) (kind d),
        ap (λ k. if k then (blocks d).count else 0) (kind d)
            ∙ ap (λ n. if is_chunk (role d) then n else 0) (ap (λ k. k.count) (block d)),
      )

  chunk-Block : (c : ℕ) → role c ≡ loose → c ≢ 0
  chunk-Block c e = (chunk_head place role size caches p c h (ap is_chunk e)).2

  -- `PushChunk`
  pub push_chunk-IsPooled :
      (c : ℕ)
      → role c ≡ loose
      → IsPooled place (set role c (at 0 size)) (suc size) caches (push_chunk c p)
  unfolding push_chunk
  push_chunk-IsPooled c here =
      let v : Block = record (p.blocks c) { chunk_next = p.top } in
      let blocks : ℕ → Block = set p.blocks c v in
      let p' : Pool = record p { top = c; blocks = blocks } in
      restacked (set role c (at 0 size)) (suc size) caches c blocks
        (set_same is_chunk role c (at 0 size) (ap is_chunk (sym here))) (λ u. (refl, refl))
        (set_same {A = Block} (λ k. record k { chunk_next = 0 }) p.blocks c v refl)
        (push-Stacks number_cases role (set role c (at 0 size)) (λ d. (p.blocks d).chunk_next)
          (λ d. (blocks d).chunk_next) (chunk_tops size caches p) (chunk_tops (suc size) caches p')
          (chunk_sizes size caches p) (chunk_sizes (suc size) caches p') 0 c 1 h.chunks here
          (chunk-Block c here) (set_here role c (at 0 size))
          (ap (λ k. k.chunk_next) (set_here p.blocks c v))
          (λ j differ. (
            set_there role c (at 0 size) j differ,
            ap (λ k. k.chunk_next) (set_there p.blocks c v j differ),
          ))
          refl refl others)
    where
      others :
          (o : ℕ)
          → o ≢ 0
          → (chunk_tops (suc size) caches (push_chunk c p) o ≡ chunk_tops size caches p o)
            × (chunk_sizes (suc size) caches (push_chunk c p) o ≡ chunk_sizes size caches p o)
      others zero differ = absurd (differ refl)
      others (suc u) differ = (refl, refl)

  -- The branch of `PopChunk` with a chunk in the pool.
  pub pop_chunk-IsPooled :
      (n : ℕ)
      → size ≡ suc n
      → role p.top ≡ at 0 n
      → IsPooled place
          (set role p.top loose)
          n
          caches
          (record p { top = (p.blocks p.top).chunk_next })
  pop_chunk-IsPooled n full here =
      let p' : Pool = record p { top = (p.blocks p.top).chunk_next } in
      restacked (set role p.top loose) n caches (p.blocks p.top).chunk_next p.blocks
        (set_same is_chunk role p.top loose (ap is_chunk (sym here))) (λ u. (refl, refl))
        (λ d. refl)
        (pop-Stacks number_cases role (set role p.top loose) (λ d. (p.blocks d).chunk_next)
          (λ d. (p.blocks d).chunk_next) (chunk_tops size caches p) (chunk_tops n caches p')
          (chunk_sizes size caches p) (chunk_sizes n caches p') 0 n h.chunks full (λ j. refl)
          (set_there role p.top loose) refl refl others)
    where
      next : Pool
      next = record p { top = (p.blocks p.top).chunk_next }

      others :
          (o : ℕ)
          → o ≢ 0
          → (chunk_tops n caches next o ≡ chunk_tops size caches p o)
            × (chunk_sizes n caches next o ≡ chunk_sizes size caches p o)
      others zero differ = absurd (differ refl)
      others (suc u) differ = (refl, refl)

  -- A thread puts a chunk into its cache.
  pub keep_chunk-IsPooled :
      (t c : ℕ)
      → role c ≡ loose
      → let k = caches t in
        IsPooled place
          (set role c (at (suc t) k.chunk_count))
          size
          (set caches t (record k { chunk_top = c; chunk_count = k.chunk_count + 1 }))
          (record p { blocks = set p.blocks c (record (p.blocks c) { chunk_next = k.chunk_top }) })
  keep_chunk-IsPooled t c here =
      let k : Cache = caches t in
      let k' : Cache = record k { chunk_top = c; chunk_count = k.chunk_count + 1 } in
      let pl : Place ℕ = at (suc t) k.chunk_count in
      let v : Block = record (p.blocks c) { chunk_next = k.chunk_top } in
      let p' : Pool = record p { blocks = set p.blocks c v } in
      restacked (set role c pl) size (set caches t k') p.top (set p.blocks c v)
        (set_same is_chunk role c pl (ap is_chunk (sym here)))
        (λ u. (
          set_same (λ i. i.cur) caches t k' refl u,
          set_same (λ i. i.cur_count) caches t k' refl u,
        ))
        (set_same {A = Block} (λ i. record i { chunk_next = 0 }) p.blocks c v refl)
        (push-Stacks number_cases role (set role c pl) (λ d. (p.blocks d).chunk_next)
          (λ d. (p'.blocks d).chunk_next) (chunk_tops size caches p)
          (chunk_tops size (set caches t k') p') (chunk_sizes size caches p)
          (chunk_sizes size (set caches t k') p') (suc t) c 1 h.chunks here (chunk-Block c here)
          (set_here role c pl) (ap (λ i. i.chunk_next) (set_here p.blocks c v))
          (λ j differ. (
            set_there role c pl j differ,
            ap (λ i. i.chunk_next) (set_there p.blocks c v j differ),
          ))
          (ap (λ i. i.chunk_top) (set_here caches t k'))
          (ap (λ i. i.chunk_count) (set_here caches t k') ∙ omega arith)
          (λ o differ. other_stack caches t k' p p' size o refl differ))

  -- A thread takes a chunk out of its cache.
  pub take_chunk-IsPooled :
      (t n : ℕ)
      → (caches t).chunk_count ≡ suc n
      → role (caches t).chunk_top ≡ at (suc t) n
      → IsPooled place
          (set role (caches t).chunk_top loose)
          size
          (set caches t (take_chunk (caches t) p))
          p
  unfolding take_chunk
  take_chunk-IsPooled t n full here =
      let k : Cache = caches t in
      let k' : Cache = take_chunk k p in
      let c = k.chunk_top in
      restacked (set role c loose) size (set caches t k') p.top p.blocks
        (set_same is_chunk role c loose (ap is_chunk (sym here)))
        (λ u. (
          set_same (λ i. i.cur) caches t k' refl u,
          set_same (λ i. i.cur_count) caches t k' refl u,
        ))
        (λ d. refl)
        (pop-Stacks number_cases role (set role c loose) (λ d. (p.blocks d).chunk_next)
          (λ d. (p.blocks d).chunk_next) (chunk_tops size caches p)
          (chunk_tops size (set caches t k') p) (chunk_sizes size caches p)
          (chunk_sizes size (set caches t k') p) (suc t) n h.chunks full (λ j. refl)
          (set_there role c loose) (ap (λ i. i.chunk_top) (set_here caches t k'))
          (ap (λ i. i.chunk_count) (set_here caches t k') ∙ omega arith)
          (λ o differ. other_stack caches t k' p p size o refl differ))
