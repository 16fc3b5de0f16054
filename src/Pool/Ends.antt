-- ===== src/Pool/Ends.antt =====
-- The end of a thread, which gives its blocks up.
use iocp_model_server.Base.{
  ℕ, zero, suc, ◌-◌, ◌≡◌, ◌≢◌, refl, sym, ap, ap₂, subst, ◌∙◌, true, false, Bool-cases, inl, inr,
  arith, set, set_here, set_again, set_self, ◌==◌, some, List, [], ◌∷◌, ◌++◌, reverse_onto,
  if◌then◌else◌,
}
use iocp_model_server.Pool.{Pool, push_chunk}
use iocp_model_server.Pool.Cache.{Cache, no_cache, end_thread, push_chunks, take_chunk, write_count}
use iocp_model_server.Pool.Seg.{Seg}
use iocp_model_server.Pool.Listed.{
  chunks_from, push_chunk-walk, push_chunk-shared, push_chunk-next, push_chunk-count,
  write_count-next, write_count-walk, write_count_here, write_count_there,
}
use iocp_model_server.Pool.Stacks.{
  Stacks, Place, at, Stacks-top, Stacks-bottom, Stacks-empty, Stacks-full,
}
use iocp_model_server.Pool.Chunks.{take_chunk-IsPooled, push_chunk-IsPooled}
use iocp_model_server.Pool.Moved.{to_chunk}
use iocp_model_server.Pool.Moves.{seal-IsPooled}
use iocp_model_server.Pool.Sealed.{to_chunk-used}
use iocp_model_server.Pool.Held.{
  Owner, thread, loose, block_tops, block_sizes, chunk_tops, chunk_sizes, IsPooled,
}
use iocp_model_server.Pool.Created.{IsKept}

-- `PushChunk` leaves the chunks in the cache of a thread.
own_chunks :
    (place : ℕ → Place Owner) (role : ℕ → Place ℕ) (size : ℕ) (caches : ℕ → Cache) (t : ℕ)
    (k : Cache) (p : Pool)
    → IsPooled place role size (set caches t k) p
    → (c : ℕ) → role c ≡ loose
    → chunks_from (push_chunk c p) k.chunk_top k.chunk_count
      ≡ chunks_from p k.chunk_top k.chunk_count
unfolding Stacks
own_chunks place role size caches t k p h c here =
    push_chunk-walk role p c here (suc t) k.chunk_top k.chunk_count (
      subst (λ x. Seg role (λ d. (p.blocks d).chunk_next) (at (suc t)) x.chunk_top x.chunk_count)
        (set_here caches t k) (h.chunks (suc t)))

-- The loop of the destructor of `Cache`: all chunks of the thread go to the shared pool, and the
-- blocks stay in their chunks.
push_chunks-IsKept :
    (n : ℕ) (place : ℕ → Place Owner) (role : ℕ → Place ℕ) (size : ℕ) (caches : ℕ → Cache) (t c : ℕ)
    (p : Pool)
    → IsPooled place role size
        (set caches t (record { cur = 0; cur_count = 0; chunk_top = c; chunk_count = n }))
        p
    → (p' : Pool) × (push_chunks n c p ≡ some p')
      × ((d : ℕ) → (p'.blocks d).next ≡ (p.blocks d).next)
      × ((d : ℕ) → (p'.blocks d).count ≡ (p.blocks d).count)
      × IsKept place
          (set caches t no_cache)
          p'
          (reverse_onto (chunks_from p c n) (chunks_from p p.top size))
unfolding push_chunks take_chunk
push_chunks-IsKept zero place role size caches t c p h =
    let k : Cache = record { cur = 0; cur_count = 0; chunk_top = c; chunk_count = 0 } in
    let cs : ℕ → Cache = set caches t k in
    let is : cs t ≡ k = set_here caches t k in
    let top : (cs t).chunk_top ≡ 0 =
      Stacks-empty role (λ b. (p.blocks b).chunk_next) (chunk_tops size cs p)
        (chunk_sizes size cs p) (suc t) h.chunks (ap (λ x. x.chunk_count) is) in
    let none_there : c ≡ 0 = sym (ap (λ x. x.chunk_top) is) ∙ top in
    let test : (c == 0) ≡ true = ground arith in
    (
      p,
      rw test refl,
      λ d. refl,
      λ d. refl,
      record {
        place' = place;
        role' = role;
        size' = size;
        used = λ j. refl;
        pooled =
            subst
              (λ x.
                IsPooled place role size
                  (set caches t (record { cur = 0; cur_count = 0; chunk_top = x; chunk_count = 0 }))
                  p)
              none_there h;
        shared = refl;
      },
    )
push_chunks-IsKept (suc n) place role size caches t c p h =
    let k : Cache = record { cur = 0; cur_count = 0; chunk_top = c; chunk_count = suc n } in
    let cs : ℕ → Cache = set caches t k in
    let is : cs t ≡ k = set_here caches t k in
    let full =
      Stacks-full role (λ b. (p.blocks b).chunk_next) (chunk_tops size cs p) (chunk_sizes size cs p)
        (suc t) n h.chunks (ap (λ x. x.chunk_count) is) in
    let some_chunk : c ≢ 0 = subst (λ x. x.chunk_top ≢ 0) is full.0 in
    let taken =
      take_chunk-IsPooled place role size cs p h t n (ap (λ x. x.chunk_count) is) full.1 in
    let taken' : IsPooled place (set role c loose) size
        (set caches t (record k { chunk_top = (p.blocks c).chunk_next; chunk_count = n })) p =
      subst
        (λ m.
          IsPooled place (set role c loose) size
            (set caches t (record k { chunk_top = (p.blocks c).chunk_next; chunk_count = m })) p)
        {x = suc n - 1} {y = n} (omega arith)
        (subst (λ x. IsPooled place (set role c loose) size x p)
          (set_again caches t k (take_chunk k p))
          (subst
            (λ x. IsPooled place (set role x.chunk_top loose) size (set cs t (take_chunk x p)) p) is
            taken)) in
    let pushed =
      push_chunk-IsPooled place (set role c loose) size
        (set caches t (record k { chunk_top = (p.blocks c).chunk_next; chunk_count = n })) p taken'
        c (set_here role c loose) in
    let p1 : Pool = push_chunk c p in
    let cs' : ℕ → Cache =
      set caches t (record k { chunk_top = (p.blocks c).chunk_next; chunk_count = n }) in
    let rest =
      push_chunks-IsKept n place (set (set role c loose) c (at 0 size)) (suc size) caches t
        (p.blocks c).chunk_next p1 pushed in
    let own =
      own_chunks place (set role c loose) size caches t
        (record k { chunk_top = (p.blocks c).chunk_next; chunk_count = n }) p taken' c
        (set_here role c loose) in
    let shared =
      push_chunk-shared (set role c loose) p c (set_here role c loose) place size cs' taken' in
    let test : (c == 0) ≡ false = ground arith in
    (
      rest.0,
      rw test rest.1,
      λ d. rest.2 d ∙ push_chunk-next p c d,
      λ d. rest.3 d ∙ push_chunk-count p c d,
      record {
        place' = rest.4.place';
        role' = rest.4.role';
        size' = rest.4.size';
        used = rest.4.used;
        pooled = rest.4.pooled;
        shared = rest.4.shared ∙ ap₂ reverse_onto own shared;
      },
    )

-- The chunk that the current blocks of a thread make.
abbrev pub current_chunk : Cache → List ℕ
current_chunk c = if c.cur == 0 then [] else c.cur ∷ []

-- The destructor of a thread's cache, in a program with a pool, ends after one round for each chunk
-- of the thread, whatever the thread has cached, and nothing of it is lost. The list of the shared
-- pool has the thread's chunks in front then, each at the address where it was and the last one
-- first, behind them its current blocks as a chunk with their number as its count, and then the
-- chunks that were there. The links inside the chunks and the counts of all others are what they
-- were. Without the cache of that thread all lists are in order, and the same blocks are in use.
pub end_thread-IsKept :
    (place : ℕ → Place Owner) (role : ℕ → Place ℕ) (size : ℕ) (caches : ℕ → Cache) (t : ℕ)
    (p : Pool)
    → IsPooled place role size caches p
    → let c = caches t in
      (p' : Pool) × (end_thread true c p ≡ some p')
      × ((d : ℕ) → (p'.blocks d).next ≡ (p.blocks d).next)
      × ((d : ℕ) → d ≢ c.cur → (p'.blocks d).count ≡ (p.blocks d).count)
      × (c.cur ≢ 0 → (p'.blocks c.cur).count ≡ c.cur_count)
      × IsKept place (set caches t no_cache) p' (
          reverse_onto
            (chunks_from p c.chunk_top c.chunk_count)
            (current_chunk c ++ chunks_from p p.top size))
unfolding end_thread write_count
end_thread-IsKept place role size caches t p h =
    let c : Cache = caches t in
    let k : Cache = record c { cur = 0; cur_count = 0 } in
    elim (Bool-cases (c.cur == 0)) [
      | inl e ↦
          let none_there : c.cur ≡ 0 = ground arith in
          let none_counted =
            Stacks-bottom place (λ b. (p.blocks b).next) (block_tops role caches p)
              (block_sizes role caches p) (thread t) h.blocks none_there in
          let same : caches ≡ set caches t k =
            sym (set_self caches t)
            ∙ ap₂ (λ a b. set caches t (record c { cur = a; cur_count = b })) none_there
                none_counted in
          let kept =
            push_chunks-IsKept c.chunk_count place role size caches t c.chunk_top p
              (subst (λ x. IsPooled place role size x p) same h) in
          (
            kept.0,
            rw e kept.1,
            kept.2,
            λ d differ. kept.3 d,
            λ some_block. absurd (some_block none_there),
            rw e kept.4,
          )
      | inr e ↦
          let some_block : c.cur ≢ 0 = ground arith in
          let top =
            Stacks-top place (λ b. (p.blocks b).next) (block_tops role caches p)
              (block_sizes role caches p) (thread t) h.blocks some_block in
          let place' : ℕ → Place Owner = λ j. to_chunk t c.cur (place j) in
          let p' : Pool = write_count c p in
          let role' : ℕ → Place ℕ = set role c.cur loose in
          let sealed = seal-IsPooled place role size caches t p h top.0 top.1 top.2 in
          let here = set_here role c.cur loose in
          let pushed =
            push_chunk-IsPooled place' role' size (set caches t k) p' sealed c.cur here in
          let kept =
            push_chunks-IsKept c.chunk_count place' (set role' c.cur (at 0 size)) (suc size) caches
              t c.chunk_top (push_chunk c.cur p') pushed in
          (
            kept.0,
            rw e kept.1,
            λ d. kept.2 d ∙ push_chunk-next p' c.cur d ∙ write_count-next c p d,
            λ d differ. kept.3 d ∙ push_chunk-count p' c.cur d ∙ write_count_there c p d differ,
            λ _. kept.3 c.cur ∙ push_chunk-count p' c.cur c.cur ∙ write_count_here c p,
            record {
              place' = kept.4.place';
              role' = kept.4.role';
              size' = kept.4.size';
              used = λ j. kept.4.used j ∙ to_chunk-used t c.cur (place j);
              pooled = kept.4.pooled;
              shared = rw e (
                  kept.4.shared
                  ∙ ap₂ reverse_onto
                      (own_chunks place' role' size caches t k p' sealed c.cur here
                        ∙ write_count-walk c p c.chunk_top c.chunk_count)
                      (push_chunk-shared role' p' c.cur here place' size (set caches t k) sealed
                        ∙ ap (◌∷◌ c.cur) (write_count-walk c p p.top size)));
            },
          )
    ]
