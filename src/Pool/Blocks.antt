-- ===== src/Pool/Blocks.antt =====
-- A block that leaves the cache of a thread for its user, and one that comes back.
use iocp_model_server.Base.{
  ℕ, suc, ◌+◌, ◌<◌, ◌≤◌, ◌≡◌, refl, sym, ap, subst, ◌∙◌, arith, set, set_here, set_there, set_same,
  set_all, set_both, set_twice,
}
use iocp_model_server.Pool.{Block, Pool, chunk_size, with_flag}
use iocp_model_server.Pool.Cache.{Cache, next_block, put_block}
use iocp_model_server.Pool.Stacks.{Place, at, Stacks, away-at, push-Stacks, pop-Stacks, same-Stacks}
use iocp_model_server.Pool.Held.{
  Owner, thread, in_use, in_use-outside, block_tops, block_sizes, chunk_tops, chunk_sizes, Sound,
  IsFilled, IsPooled, owner_cases, other_owner, same_stack,
}

module _ (place : ℕ → Place Owner) (role : ℕ → Place ℕ) (size : ℕ) (caches : ℕ → Cache) (t : ℕ)
    (p : Pool) (h : IsPooled place role size caches p) where
  -- A block changed in its next one and its use flag only.
  rest_of_pool :
      (c : Cache) (b : ℕ) (v : Block) (pl : Place Owner)
      → c.chunk_top ≡ (caches t).chunk_top
      → c.chunk_count ≡ (caches t).chunk_count
      → c.cur_count ≤ chunk_size
      → v.chunk_next ≡ (p.blocks b).chunk_next
      → v.count ≡ (p.blocks b).count
      → Sound p.self pl b v
      → let p' : Pool = record p { blocks = set p.blocks b v } in
        Stacks
          (set place b pl)
          (λ j. (p'.blocks j).next)
          (block_tops role (set caches t c) p')
          (block_sizes role (set caches t c) p')
        → IsPooled (set place b pl) role size (set caches t c) p'
  unfolding IsFilled
  rest_of_pool c b v pl first number few link count sound stacks =
      let p' : Pool = record p { blocks = set p.blocks b v } in
      record {
        blocks = stacks;
        chunks =
            same-Stacks role role (λ j. (p.blocks j).chunk_next) (λ j. (p'.blocks j).chunk_next)
              (chunk_tops size caches p) (chunk_tops size (set caches t c) p')
              (chunk_sizes size caches p) (chunk_sizes size (set caches t c) p') h.chunks
              (λ j k q here. here) (set_same (λ k. k.chunk_next) p.blocks b v link)
              (λ o. same_stack caches t c p p' size o refl first number);
        filled =
            set_all (λ j k. IsFilled (role j) k.count) p.blocks b v
              (subst (IsFilled (role b)) (sym count) (h.filled b)) (λ j differ. h.filled j);
        sound =
            set_both (λ j pl k. Sound p.self pl j k) place p.blocks b pl v sound
              (λ j differ. h.sound j);
        small = set_all (λ j k. k.cur_count ≤ chunk_size) caches t c few (λ u differ. h.small u);
      }

  -- The current block of the thread goes to its user.
  pub take-IsPooled :
      (n : ℕ)
      → (caches t).cur_count ≡ suc n
      → place (caches t).cur ≡ at (thread t) n
      → let b = (caches t).cur in
        IsPooled
          (set place b in_use)
          role
          size
          (set caches t (next_block (caches t) p))
          (with_flag 1 b p)
  unfolding Sound
  take-IsPooled n full here =
      let b = (caches t).cur in
      let v : Block = record (p.blocks b) { use_flag = 1 } in
      let p' : Pool = with_flag 1 b p in
      let c : Cache = next_block (caches t) p in
      let was = h.sound b (λ e. away-at (sym e ∙ here)) in
      rest_of_pool c b v in_use refl refl (omega (arith, h.small t)) refl refl
        (λ e. (was.0, was.1, was.2, was.3, refl))
        (pop-Stacks owner_cases place (set place b in_use) (λ j. (p.blocks j).next)
          (λ j. (p'.blocks j).next) (block_tops role caches p) (block_tops role (set caches t c) p')
          (block_sizes role caches p) (block_sizes role (set caches t c) p') (thread t) n h.blocks
          full (set_same (λ k. k.next) p.blocks b v refl) (set_there place b in_use)
          (ap (λ k. k.cur) (set_here caches t c))
          (ap (λ k. k.cur_count) (set_here caches t c) ∙ omega arith)
          (other_owner caches t c p p' role (set_same (λ k. k.count) p.blocks b v refl)))

  -- A block that its user gives back becomes the current one.
  pub put-IsPooled :
      (b : ℕ)
      → place b ≡ in_use
      → (caches t).cur_count < chunk_size
      → let s = put_block b (caches t) (with_flag 0 b p) in
        IsPooled (set place b (at (thread t) (caches t).cur_count)) role size (set caches t s.0) s.1
  unfolding Sound put_block
  put-IsPooled b here few =
      let v : Block = record (p.blocks b) { use_flag = 0; next = (caches t).cur } in
      let pl : Place Owner = at (thread t) (caches t).cur_count in
      let p' : Pool = record p { blocks = set p.blocks b v } in
      let c : Cache = record (caches t) { cur = b; cur_count = (caches t).cur_count + 1 } in
      let was = h.sound b (λ e. in_use-outside (sym here ∙ e)) in
      let once : IsPooled (set place b pl) role size (set caches t c) p' =
        rest_of_pool c b v pl refl refl (omega (arith, few)) refl refl
          (λ e. (was.0, was.1, was.2, was.3, refl))
          (push-Stacks owner_cases place (set place b pl) (λ j. (p.blocks j).next)
            (λ j. (p'.blocks j).next) (block_tops role caches p)
            (block_tops role (set caches t c) p') (block_sizes role caches p)
            (block_sizes role (set caches t c) p') (thread t) b 1 h.blocks here was.0
            (set_here place b pl) (ap (λ k. k.next) (set_here p.blocks b v))
            (λ j differ.
              (set_there place b pl j differ, ap (λ k. k.next) (set_there p.blocks b v j differ)))
            (ap (λ k. k.cur) (set_here caches t c))
            (ap (λ k. k.cur_count) (set_here caches t c) ∙ omega arith)
            (other_owner caches t c p p' role (set_same (λ k. k.count) p.blocks b v refl))) in
      subst (λ m. IsPooled (set place b pl) role size (set caches t c) (record p { blocks = m }))
        (sym (
          set_twice p.blocks b (record (p.blocks b) { use_flag = 0 })
            (λ k. record k { next = (caches t).cur })))
        once
