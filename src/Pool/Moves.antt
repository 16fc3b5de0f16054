-- ===== src/Pool/Moves.antt =====
-- The blocks of a thread become a chunk, and those of a chunk the blocks of a thread.
use iocp_model_server.Base.{
  ℕ, suc, ◌≤◌, ◌≡◌, ◌≢◌, refl, sym, ap, ap₂, ◌∙◌, false, Bool-cases, inl, inr, arith, set, set_here,
  set_there, set_same, set_all, set_both, if◌then◌else◌,
}
use iocp_model_server.Pool.{Block, Pool, chunk_size}
use iocp_model_server.Pool.Cache.{Cache, load, write_count}
use iocp_model_server.Pool.Stacks.{Place, at, away-at, at-owner, move-Stacks, same-Stacks}
use iocp_model_server.Pool.Held.{
  Owner, thread, chunk, is_chunk, loose, no_chunk, block_tops, block_sizes, chunk_tops, chunk_sizes,
  Sound, IsFilled, IsPooled, owner_cases, same_stack, chunk_head,
}
use iocp_model_server.Pool.Moved.{
  to_chunk, to_thread, to_chunk_here, to_chunk_there, to_thread_here, to_thread_there,
  to_chunk-Sound, to_thread-Sound, counted-Sound,
}

module _ (place : ℕ → Place Owner) (role : ℕ → Place ℕ) (size : ℕ) (caches : ℕ → Cache) (t : ℕ)
    (p : Pool) (h : IsPooled place role size caches p) where
  pub load-IsPooled :
      (c : ℕ)
      → role c ≡ loose
      → (caches t).cur_count ≡ 0
      → IsPooled
          (λ j. to_thread c t (place j))
          (set role c no_chunk)
          size
          (set caches t (load c (caches t) p))
          p
  unfolding load IsFilled
  load-IsPooled c here no_blocks =
      let k : Cache = load c (caches t) p in
      let place' : ℕ → Place Owner = λ j. to_thread c t (place j) in
      let role' : ℕ → Place ℕ = set role c no_chunk in
      record {
        blocks =
            move-Stacks owner_cases place place' (λ d. (p.blocks d).next) (λ d. (p.blocks d).next)
              (block_tops role caches p) (block_tops role' (set caches t k) p)
              (block_sizes role caches p) (block_sizes role' (set caches t k) p) (chunk c)
              (thread t) h.blocks (λ j n e. ap (to_thread c t) e ∙ to_thread_here c t n)
              (λ q j n differ e. ap (to_thread c t) e ∙ to_thread_there c t n q differ) (λ j. refl)
              (
                ap (λ i. i.cur) (set_here caches t k)
                    ∙ sym (ap (λ r. if is_chunk r then c else 0) here),
                ap (λ i. i.cur_count) (set_here caches t k)
                    ∙ sym (ap (λ r. if is_chunk r then (p.blocks c).count else 0) here),
              )
              (
                ap (λ r. if is_chunk r then c else 0) (set_here role c no_chunk),
                ap (λ r. if is_chunk r then (p.blocks c).count else 0) (set_here role c no_chunk),
              )
              others;
        chunks =
            same-Stacks role role' (λ d. (p.blocks d).chunk_next) (λ d. (p.blocks d).chunk_next)
              (chunk_tops size caches p) (chunk_tops size (set caches t k) p)
              (chunk_sizes size caches p) (chunk_sizes size (set caches t k) p) h.chunks
              (λ j n q e.
                set_there role c no_chunk j (λ same. away-at (sym here ∙ ap role (sym same) ∙ e))
                ∙ e)
              (λ j. refl) (λ o. same_stack caches t k p p size o refl refl refl);
        filled =
            set_all (λ d r. IsFilled r (p.blocks d).count) role c no_chunk
              (λ e. absurd (ground arith)) (λ d differ. h.filled d);
        sound = λ b. to_thread-Sound p.self c t (place b) b (p.blocks b) (h.sound b);
        small =
            set_all (λ u i. i.cur_count ≤ chunk_size) caches t k ((h.filled c (ap is_chunk here)).1)
              (λ u differ. h.small u);
      }
    where
      others :
          (o : Owner)
          → o ≢ chunk c
          → o ≢ thread t
          → (block_tops (set role c no_chunk) (set caches t (load c (caches t) p)) p o
              ≡ block_tops role caches p o)
            × (block_sizes (set role c no_chunk) (set caches t (load c (caches t) p)) p o
                ≡ block_sizes role caches p o)
      others (thread u) not_c not_t =
          let there = set_there caches t (load c (caches t) p) u (λ e. not_t (ap thread e)) in
          (ap (λ i. i.cur) there, ap (λ i. i.cur_count) there)
      others (chunk d) not_c not_t =
          let there = set_there role c no_chunk d (λ e. not_c (ap chunk e)) in
          (
            ap (λ r. if is_chunk r then d else 0) there,
            ap (λ r. if is_chunk r then (p.blocks d).count else 0) there,
          )

  -- `emptied` is the cache without the blocks outside its chunks.
  abbrev pub emptied : Cache
  emptied = record (caches t) { cur = 0; cur_count = 0 }

  -- A block in the cache of a thread, outside its chunks, heads no chunk.
  cached-chunk : (b n : ℕ) → place b ≡ at (thread t) n → is_chunk (role b) ≡ false
  cached-chunk b n here = elim (Bool-cases (is_chunk (role b))) [
    | inl e ↦
        let head = chunk_head place role size caches p b h e in
        absurd (
          at-owner {o = thread t} {p = chunk b} (λ same. absurd (ground arith)) (sym here ∙ head.3))
    | inr e ↦ e
  ]

  pub seal-IsPooled :
      (n : ℕ)
      → (caches t).cur_count ≡ suc n
      → place (caches t).cur ≡ at (thread t) n
      → IsPooled
          (λ j. to_chunk t (caches t).cur (place j))
          (set role (caches t).cur loose)
          size
          (set caches t emptied)
          (write_count (caches t) p)
  unfolding write_count IsFilled
  seal-IsPooled n full here =
      let c = (caches t).cur in
      let k : Cache = emptied in
      let v : Block = record (p.blocks c) { count = (caches t).cur_count } in
      let p' : Pool = write_count (caches t) p in
      let place' : ℕ → Place Owner = λ j. to_chunk t c (place j) in
      let role' : ℕ → Place ℕ = set role c loose in
      record {
        blocks =
            move-Stacks owner_cases place place' (λ d. (p.blocks d).next) (λ d. (p'.blocks d).next)
              (block_tops role caches p) (block_tops role' (set caches t k) p')
              (block_sizes role caches p) (block_sizes role' (set caches t k) p') (thread t)
              (chunk c) h.blocks (λ j m e. ap (to_chunk t c) e ∙ to_chunk_here t c m)
              (λ q j m differ e. ap (to_chunk t c) e ∙ to_chunk_there t c m q differ)
              (set_same (λ i. i.next) p.blocks c v refl)
              (
                ap (λ r. if is_chunk r then c else 0) (set_here role c loose),
                ap (λ r. if is_chunk r then (p'.blocks c).count else 0) (set_here role c loose)
                    ∙ ap (λ i. i.count) (set_here p.blocks c v),
              )
              (ap (λ i. i.cur) (set_here caches t k), ap (λ i. i.cur_count) (set_here caches t k))
              others;
        chunks =
            same-Stacks role role' (λ d. (p.blocks d).chunk_next) (λ d. (p'.blocks d).chunk_next)
              (chunk_tops size caches p) (chunk_tops size (set caches t k) p')
              (chunk_sizes size caches p) (chunk_sizes size (set caches t k) p') h.chunks
              (λ j m q e.
                set_there role c loose j
                  (λ same. absurd (ground (arith, cached-chunk c n here, ap role (sym same) ∙ e)))
                ∙ e)
              (set_same (λ i. i.chunk_next) p.blocks c v refl)
              (λ o. same_stack caches t k p p' size o refl refl refl);
        filled =
            set_both (λ d r i. IsFilled r i.count) role p.blocks c loose v
              (λ e. (omega (arith, full), h.small t)) (λ d differ. h.filled d);
        sound = λ b. to_chunk-Sound p.self t c (place b) b (p'.blocks b) (
            set_all (λ j i. Sound p.self (place j) j i) p.blocks c v
              (counted-Sound p.self (place c) c (p.blocks c) (caches t).cur_count (h.sound c))
              (λ j differ. h.sound j) b);
        small =
            set_all (λ u i. i.cur_count ≤ chunk_size) caches t k (omega arith)
              (λ u differ. h.small u);
      }
    where
      others :
          (o : Owner)
          → o ≢ thread t
          → o ≢ chunk (caches t).cur
          → (block_tops
                (set role (caches t).cur loose)
                (set caches t emptied)
                (write_count (caches t) p)
                o
              ≡ block_tops role caches p o)
            × (block_sizes
                  (set role (caches t).cur loose)
                  (set caches t emptied)
                  (write_count (caches t) p)
                  o
                ≡ block_sizes role caches p o)
      others (thread u) not_t not_c =
          let there = set_there caches t emptied u (λ e. not_t (ap thread e)) in
          (ap (λ i. i.cur) there, ap (λ i. i.cur_count) there)
      others (chunk d) not_t not_c =
          let differ : d ≢ (caches t).cur = λ e. not_c (ap chunk e) in
          let there = set_there role (caches t).cur loose d differ in
          let same =
            set_there p.blocks (caches t).cur
              (record (p.blocks (caches t).cur) { count = (caches t).cur_count }) d differ in
          (
            ap (λ r. if is_chunk r then d else 0) there,
            ap₂ (λ r n. if is_chunk r then n else 0) there (ap (λ i. i.count) same),
          )
