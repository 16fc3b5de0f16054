-- ===== src/Pool/Cache.antt =====
-- MyLibrary/LockFreeMemoryPoolTLS.h: the blocks that a thread keeps in front of the shared pool. A
-- method runs on the cache of the calling thread, and no other thread reads that cache.
use iocp_model_server.Base.{
  ℕ, zero, suc, ◌+◌, ◌-◌, Bool, not, Option, none, some, ltb, ◌==◌, if◌then◌else◌, ◌>>=◌, set,
}
use iocp_model_server.Pool.{Pool, chunk_size, validate_alloc, validate_free, push_chunk, pop_chunk}

-- `TLS_MAX_CHUNKS`
abbrev pub tls_max_chunks : ℕ
tls_max_chunks = 10

pub record Cache : Type 0 where
  pub cur : ℕ
  pub cur_count : ℕ
  pub chunk_top : ℕ
  pub chunk_count : ℕ

abbrev pub no_cache : Cache
no_cache = record { cur = 0; cur_count = 0; chunk_top = 0; chunk_count = 0 }

-- The end of `Refill`.
unfoldable pub load : ℕ → Cache → Pool → Cache
load head c p = record c { cur = head; cur_count = (p.blocks head).count }

-- The branch of `Refill` with a chunk in the cache.
unfoldable pub take_chunk : Cache → Pool → Cache
take_chunk c p = record c {
  chunk_top = (p.blocks c.chunk_top).chunk_next;
  chunk_count = c.chunk_count - 1;
}

unfoldable pub refill : ℕ → Cache → Pool → Option (Cache × Pool)
refill mem c p =
    if c.chunk_top == 0
    then (do (head, p') ← pop_chunk mem p; some (load head c p', p'))
    else some (load c.chunk_top (take_chunk c p) p, p)

abbrev pub next_block : Cache → Pool → Cache
next_block c p = record c { cur = (p.blocks c.cur).next; cur_count = c.cur_count - 1 }

-- `Alloc` after its call of `Refill`.
unfoldable pub take_block : Cache → Pool → Option (ℕ × Cache × Pool)
take_block c p = do p' ← validate_alloc p c.cur; some (c.cur, next_block c p, p')

unfoldable pub alloc : ℕ → Cache → Pool → Option (ℕ × Cache × Pool)
alloc mem c p =
    if c.cur == 0 then (do (c', p') ← refill mem c p; take_block c' p') else take_block c p

-- `cur->count = curCount` where a thread gives its blocks up.
unfoldable pub write_count : Cache → Pool → Pool
write_count c p = record p {
  blocks = set p.blocks c.cur (record (p.blocks c.cur) { count = c.cur_count });
}

-- `Seal` up to its test.
unfoldable pub seal_blocks : Cache → Pool → Cache × Pool
seal_blocks c p =
    let p' = write_count c p in
    (
      record { cur = 0; cur_count = 0; chunk_top = c.cur; chunk_count = c.chunk_count + 1 },
      record p' {
        blocks = set p'.blocks c.cur (record (p'.blocks c.cur) { chunk_next = c.chunk_top });
      },
    )

-- The end of `Seal`: a thread that keeps too many chunks gives one to the shared pool.
unfoldable pub give_chunk : Cache → Pool → Cache × Pool
give_chunk c p =
    if ltb tls_max_chunks c.chunk_count then (take_chunk c p, push_chunk c.chunk_top p) else (c, p)

unfoldable pub seal : Cache → Pool → Cache × Pool
seal c p = let s = seal_blocks c p in give_chunk s.0 s.1

-- `Free` after its check.
unfoldable pub put_block : ℕ → Cache → Pool → Cache × Pool
put_block b c p = (
  record c { cur = b; cur_count = c.cur_count + 1 },
  record p { blocks = set p.blocks b (record (p.blocks b) { next = c.cur }) },
)

unfoldable pub free : ℕ → Cache → Pool → Option (Cache × Pool)
free b c p = do
  p' ← validate_free p b
  let s = put_block b c p'
  some (if s.0.cur_count == chunk_size then seal s.0 s.1 else s)

-- The destructor of `Cache`, at the end of its thread. The loop over the chunks runs on fuel.
unfoldable pub push_chunks : ℕ → ℕ → Pool → Option Pool
push_chunks zero chunk p = if chunk == 0 then some p else none
push_chunks (suc n) chunk p =
    let rest = push_chunks n (p.blocks chunk).chunk_next (push_chunk chunk p) in
    if chunk == 0 then some p else rest

-- Whether `s_self` leads to a pool is the first argument.
unfoldable pub end_thread : Bool → Cache → Pool → Option Pool
end_thread has_pool c p =
    if not has_pool
    then some p
    else push_chunks c.chunk_count c.chunk_top
        (if c.cur == 0 then p else push_chunk c.cur (write_count c p))
