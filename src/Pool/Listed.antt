-- ===== src/Pool/Listed.antt =====
-- The chunks that the list of the shared pool goes through, and what `PushChunk` does to that list.
use iocp_model_server.Base.{
  ℕ, suc, ◌≡◌, ◌≢◌, refl, sym, ap, ◌∙◌, List, ◌∷◌, set_here, set_there, set_same,
}
use iocp_model_server.Pool.{Block, Pool, push_chunk}
use iocp_model_server.Pool.Cache.{Cache, write_count}
use iocp_model_server.Pool.Seg.{Seg, walk, walk-frame, walk-congr}
use iocp_model_server.Pool.Stacks.{Place, at, away-at, Stacks}
use iocp_model_server.Pool.Held.{Owner, loose, IsPooled}

-- The chunks behind `a`, by their addresses.
abbrev pub chunks_from : Pool → ℕ → ℕ → List ℕ
chunks_from p a n = walk (λ d. (p.blocks d).chunk_next) a n

-- A chunk that is in no list comes in front of one, and the other lists stay.
module _ (role : ℕ → Place ℕ) (p : Pool) (c : ℕ) (here : role c ≡ loose) where
  pub push_chunk-walk :
      (o a n : ℕ)
      → Seg role (λ d. (p.blocks d).chunk_next) (at o) a n
      → chunks_from (push_chunk c p) a n ≡ chunks_from p a n
  unfolding push_chunk
  push_chunk-walk o a n =
      walk-frame (λ d. ((push_chunk c p).blocks d).chunk_next) a n
        (λ b k lt at_k.
          ap (λ x. x.chunk_next)
            (set_there p.blocks c (record (p.blocks c) { chunk_next = p.top }) b
              (λ same. away-at (sym here ∙ ap role (sym same) ∙ at_k))))

  pub push_chunk-shared :
      (place : ℕ → Place Owner) (size : ℕ) (caches : ℕ → Cache)
      → IsPooled place role size caches p
      → chunks_from (push_chunk c p) (push_chunk c p).top (suc size) ≡ c ∷ chunks_from p p.top size
  unfolding push_chunk Stacks
  push_chunk-shared place size caches h = ap (◌∷◌ c) (
      ap (λ k. chunks_from (push_chunk c p) k size)
        (ap (λ x. x.chunk_next) (set_here p.blocks c (record (p.blocks c) { chunk_next = p.top })))
      ∙ push_chunk-walk 0 p.top size (h.chunks 0))

pub push_chunk-next : (p : Pool) (c d : ℕ) → ((push_chunk c p).blocks d).next ≡ (p.blocks d).next
unfolding push_chunk
push_chunk-next p c =
    set_same {A = Block} (λ x. x.next) p.blocks c (record (p.blocks c) { chunk_next = p.top }) refl

pub push_chunk-count : (p : Pool) (c d : ℕ) → ((push_chunk c p).blocks d).count ≡ (p.blocks d).count
unfolding push_chunk
push_chunk-count p c =
    set_same {A = Block} (λ x. x.count) p.blocks c (record (p.blocks c) { chunk_next = p.top }) refl

-- What `cur->count = curCount` leaves: all links, and the counts of the other blocks.
module _ (c : Cache) (p : Pool) where
  pub write_count-next : (d : ℕ) → ((write_count c p).blocks d).next ≡ (p.blocks d).next
  unfolding write_count
  write_count-next =
      set_same {A = Block} (λ x. x.next) p.blocks c.cur
        (record (p.blocks c.cur) { count = c.cur_count }) refl

  pub write_count_here : ((write_count c p).blocks c.cur).count ≡ c.cur_count
  unfolding write_count
  write_count_here =
      ap (λ x. x.count) (set_here p.blocks c.cur (record (p.blocks c.cur) { count = c.cur_count }))

  pub write_count_there :
      (d : ℕ) → d ≢ c.cur → ((write_count c p).blocks d).count ≡ (p.blocks d).count
  unfolding write_count
  write_count_there d differ =
      ap (λ x. x.count)
        (set_there p.blocks c.cur (record (p.blocks c.cur) { count = c.cur_count }) d differ)

  pub write_count-walk : (a n : ℕ) → chunks_from (write_count c p) a n ≡ chunks_from p a n
  unfolding write_count
  write_count-walk a n =
      walk-congr
        (set_same {A = Block} (λ x. x.chunk_next) p.blocks c.cur
          (record (p.blocks c.cur) { count = c.cur_count }) refl)
        a n
