-- ===== src/Pool/Grown.antt =====
-- A new chunk in the pool.
use iocp_model_server.Base.{
  ℕ, zero, suc, ◌+◌, ◌-◌, ◌<◌, ◌≤◌, ◌≡◌, ◌≢◌, ◌⊎◌, refl, sym, ap, ap₂, subst, ◌∙◌, true, false,
  Bool-cases, inl, inr, arith, set, set_here, set_there, set_all, if◌then◌else◌,
}
use iocp_model_server.Pool.{Block, Pool, chunk_size, new_block, link}
use iocp_model_server.Pool.Cache.{Cache}
use iocp_model_server.Pool.Seg.{walk-frame, Seg, Seg_frame, Seg_renamed, Seg_nil}
use iocp_model_server.Pool.Listed.{chunks_from}
use iocp_model_server.Pool.Stacks.{Place, at, Stacks, away-at, kept-Stacks}
use iocp_model_server.Pool.Moved.{counted-Sound}
use iocp_model_server.Pool.Fresh.{
  IsFresh, new_place, new_place_in, new_place_out, link_here, link_there, link-Seg, link-head,
  range_cases, inside-IsFresh,
}
use iocp_model_server.Pool.Held.{
  Owner, thread, chunk, is_chunk, loose, block_tops, block_sizes, chunk_tops, chunk_sizes, Sound,
  IsFilled, IsPooled, number_cases, chunk_head,
}

-- The memory after `NewChunk`.
abbrev pub new_blocks : ℕ → Pool → ℕ → Block
new_blocks mem p =
    let out = link p.self mem chunk_size 0 p.blocks in
    set out.1 mem (record (out.1 mem) { count = chunk_size })

new_block-Sound :
    (self head c i b : ℕ) (k : Block)
    → b ≢ 0
    → Sound self (at (chunk c) i) b (new_block self head k)
unfolding new_block Sound
new_block-Sound self head c i b k some_block differ = (some_block, refl, refl, refl, refl)

module _ (place : ℕ → Place Owner) (role : ℕ → Place ℕ) (size : ℕ) (caches : ℕ → Cache) (p : Pool)
    (mem : ℕ) (h : IsPooled place role size caches p) (fresh : IsFresh place mem)
    (some_mem : mem ≢ 0) where
  placed_out : (j k : ℕ) (o : Owner) → place j ≡ at o k → (j < mem) ⊎ (mem + chunk_size ≤ j)
  placed_out j k o e = elim (range_cases mem j) [
    | inl r ↦ absurd (away-at (sym (inside-IsFresh place mem j fresh r) ∙ e))
    | inr out ↦ out
  ]

  pub chunk_out : (j : ℕ) → is_chunk (role j) ≡ true → (j < mem) ⊎ (mem + chunk_size ≤ j)
  chunk_out j e =
      let head = chunk_head place role size caches p j h e in placed_out j head.0 (chunk j) head.3

  pub untouched : (j : ℕ) → (j < mem) ⊎ (mem + chunk_size ≤ j) → new_blocks mem p j ≡ p.blocks j
  untouched j out =
      let made = link p.self mem chunk_size 0 p.blocks in
      set_there made.1 mem (record (made.1 mem) { count = chunk_size }) j (ground arith)
      ∙ link_there p.self mem chunk_size 0 p.blocks j out

  kept :
      (a n : ℕ) (o : Owner)
      → Seg place (λ j. (p.blocks j).next) (at o) a n
      → Seg (new_place place mem) (λ j. (new_blocks mem p j).next) (at o) a n
  kept a n o = Seg_frame a n (λ j k lt e.
      let out = placed_out j k o e in
      (new_place_out place mem j out ∙ e, ap (λ x. x.next) (untouched j out)))

  made-Seg :
      Seg (new_place place mem) (λ j. (new_blocks mem p j).next) (at (chunk mem)) mem chunk_size
  made-Seg =
      let made = link p.self mem chunk_size 0 p.blocks in
      Seg_frame mem chunk_size
        (λ j k lt e. (
          e,
          set_all (λ i x. x.next ≡ (made.1 i).next) made.1 mem
              (record (made.1 mem) { count = chunk_size }) refl (λ i differ. refl) j,
        ))
        (Seg_renamed (new_place place mem) (λ j. (made.1 j).next) (at (chunk mem))
          (sym (link-head p.self mem 299 0 p.blocks)) refl
          (link-Seg p.self mem chunk_size 0 0 p.blocks (new_place place mem) some_mem
            (λ i lt.
              new_place_in place mem (mem + i) (omega arith) (omega arith)
              ∙ ap (at (chunk mem)) {x = mem + chunk_size - suc (mem + i)}
                  {y = chunk_size + 0 - suc i} (omega arith))
            (Seg_nil (new_place place mem) (λ j. (p.blocks j).next) (at (chunk mem)))))

  pub new_blocks-count : (new_blocks mem p mem).count ≡ chunk_size
  new_blocks-count =
      let made = link p.self mem chunk_size 0 p.blocks in
      ap (λ x. x.count) (set_here made.1 mem (record (made.1 mem) { count = chunk_size }))

  new_count : IsFilled loose (new_blocks mem p mem).count
  unfolding IsFilled
  new_count e =
      subst (λ n. (0 < n) × (n ≤ chunk_size)) (sym new_blocks-count) (omega arith, omega arith)

  made-Sound :
      (j : ℕ)
      → (mem ≤ j) × (j < mem + chunk_size)
      → Sound p.self (new_place place mem j) j ((link p.self mem chunk_size 0 p.blocks).1 j)
  made-Sound j r =
      let made = link_here p.self mem chunk_size 0 p.blocks j r.0 r.1 in
      subst (Sound p.self (new_place place mem j) j) (sym made.2) (
        subst (λ pl. Sound p.self pl j (new_block p.self made.0 made.1))
          (sym (new_place_in place mem j r.0 r.1))
          (new_block-Sound p.self made.0 mem (mem + chunk_size - suc j) j made.1
            (λ e. some_mem (omega (arith, r.0)))))

  new-Sound :
      (j : ℕ)
      → (mem ≤ j) × (j < mem + chunk_size)
      → Sound p.self (new_place place mem j) j (new_blocks mem p j)
  new-Sound j =
      let made = (link p.self mem chunk_size 0 p.blocks).1 in
      set_all (λ i x. (mem ≤ i) × (i < mem + chunk_size) → Sound p.self (new_place place mem i) i x)
        made mem (record (made mem) { count = chunk_size })
        (λ r.
          counted-Sound p.self (new_place place mem mem) mem (made mem) chunk_size
            (made-Sound mem r))
        (λ i differ. made-Sound i) j

  pub grown-IsPooled :
      (number : ℕ)
      → IsPooled
          (new_place place mem)
          (set role mem loose)
          size
          caches
          (record p { chunk_count = number; blocks = new_blocks mem p })
  unfolding Stacks IsFilled
  grown-IsPooled number =
      let p' : Pool = record p { chunk_count = number; blocks = new_blocks mem p } in
      let role' : ℕ → Place ℕ = set role mem loose in
      record {
        blocks = stacks;
        chunks =
            kept-Stacks role role' (λ d. (p.blocks d).chunk_next) (λ d. (p'.blocks d).chunk_next)
              (chunk_tops size caches p) (chunk_tops size caches p') (chunk_sizes size caches p)
              (chunk_sizes size caches p') h.chunks
              (λ j k q e. (
                other_chunk j (ap is_chunk e) ∙ e,
                ap (λ x. x.chunk_next) (untouched j (chunk_out j (ap is_chunk e))),
              ))
              same_stacks;
        filled =
            set_all (λ d r. IsFilled r (new_blocks mem p d).count) role mem loose new_count
              (λ d differ e.
                subst (λ n. (0 < n) × (n ≤ chunk_size))
                  (sym (ap (λ x. x.count) (untouched d (chunk_out d e)))) (h.filled d e));
        sound = λ b. elim (range_cases mem b) [
          | inl r ↦ new-Sound b r
          | inr out ↦ subst (Sound p.self (new_place place mem b) b) (sym (untouched b out)) (
              subst (λ pl. Sound p.self pl b (p.blocks b)) (sym (new_place_out place mem b out))
                (h.sound b))
        ];
        small = h.small;
      }
    where
      other_chunk : (j : ℕ) → is_chunk (role j) ≡ true → set role mem loose j ≡ role j
      other_chunk j e = let out = chunk_out j e in set_there role mem loose j (ground arith)

      same_stacks :
          (o : ℕ)
          → (chunk_tops size caches (record p { chunk_count = number; blocks = new_blocks mem p }) o
              ≡ chunk_tops size caches p o)
            × (chunk_sizes size caches
                  (record p { chunk_count = number; blocks = new_blocks mem p })
                  o
                ≡ chunk_sizes size caches p o)
      same_stacks zero = (refl, refl)
      same_stacks (suc u) = (refl, refl)

      stacks :
          Stacks
            (new_place place mem)
            (λ j. (new_blocks mem p j).next)
            (block_tops
              (set role mem loose)
              caches
              (record p { chunk_count = number; blocks = new_blocks mem p }))
            (block_sizes
              (set role mem loose)
              caches
              (record p { chunk_count = number; blocks = new_blocks mem p }))
      stacks (thread u) = kept (caches u).cur (caches u).cur_count (thread u) (h.blocks (thread u))
      stacks (chunk d) = elim (number_cases d mem) [
        | inl e ↦
            let is : is_chunk (set role mem loose d) ≡ true =
              ap (λ x. is_chunk (set role mem loose x)) e ∙ ap is_chunk (set_here role mem loose) in
            Seg_renamed (new_place place mem) (λ j. (new_blocks mem p j).next) (at (chunk d))
              (ap (λ b. if b then d else 0) is)
              (ap (λ b. if b then (new_blocks mem p d).count else 0) is
                ∙ ap (λ x. (new_blocks mem p x).count) e
                ∙ new_blocks-count)
              (subst
                (λ x.
                  Seg (new_place place mem) (λ j. (new_blocks mem p j).next) (at (chunk x)) x
                    chunk_size)
                (sym e) made-Seg)
        | inr differ ↦ elim (Bool-cases (is_chunk (role d))) [
          | inl e ↦
              let there : set role mem loose d ≡ role d = set_there role mem loose d differ in
              Seg_renamed (new_place place mem) (λ j. (new_blocks mem p j).next) (at (chunk d))
                (ap (λ r. if is_chunk r then d else 0) there)
                (ap₂ (λ r n. if is_chunk r then n else 0) there
                  (ap (λ x. x.count) (untouched d (chunk_out d e))))
                (kept (block_tops role caches p (chunk d)) (block_sizes role caches p (chunk d))
                  (chunk d) (h.blocks (chunk d)))
          | inr e ↦
              let no : is_chunk (set role mem loose d) ≡ false =
                ap is_chunk (set_there role mem loose d differ) ∙ e in
              Seg_renamed (new_place place mem) (λ j. (new_blocks mem p j).next) (at (chunk d))
                (ap (λ b. if b then d else 0) no)
                (ap (λ b. if b then (new_blocks mem p d).count else 0) no)
                (Seg_nil (new_place place mem) (λ j. (new_blocks mem p j).next) (at (chunk d)))
        ]
      ]

  -- The list of the shared pool goes through the chunks that it went through.
  pub grown-walk :
      (number : ℕ)
      → chunks_from (record p { chunk_count = number; blocks = new_blocks mem p }) p.top size
        ≡ chunks_from p p.top size
  unfolding Stacks
  grown-walk number =
      walk-frame (λ d. (new_blocks mem p d).chunk_next) p.top size
        (λ j k lt e. ap (λ x. x.chunk_next) (untouched j (chunk_out j (ap is_chunk e))))
        (h.chunks 0)
