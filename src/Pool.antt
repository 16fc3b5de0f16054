-- ===== src/Pool.antt =====
-- MyLibrary/LockFreeMemoryPool.h, the class `LockFreeMemoryPool`: chunks of blocks that threads share.
-- An address is counted in blocks, and 0 is the null pointer. What a block holds for its user, and
-- the calls of its constructor and destructor, are left out. `PushChunk` and `PopChunk` take effect
-- at once here: the compare-and-swap that makes them so, and its tag, are in Stack.
-- `none` stands for `__debugbreak`. The guards and checks that the header's switches control are on.
pub mod Cache
pub mod Seg
pub mod Stacks
pub mod Held
pub mod Blocks
pub mod Chunks
pub mod Moved
pub mod Moves
pub mod Fresh
pub mod Grown
pub mod Refill
pub mod Sealed
pub mod Rest
pub mod Listed
pub mod Allocated
pub mod Freed
pub mod Created
pub mod Ends
mod Tests
use iocp_model_server.Base.{
  ℕ, zero, suc, ◌+◌, ◌-◌, ◌*◌, ◌/◌, ◌%◌, ◌^◌, Bool, ◌&&◌, ◌||◌, not, Option, none, some, ltb, ◌==◌,
  if◌then◌else◌, ◌>>=◌, set,
}

-- `CHUNK_SIZE`
abbrev pub chunk_size : ℕ
chunk_size = 300

pub record Block : Type 0 where
  pub next : ℕ
  pub chunk_next : ℕ
  pub count : ℕ
  pub use_flag : ℕ
  pub owner : ℕ
  pub front_guard : ℕ
  pub back_guard : ℕ

-- `self` is the address that `this` stands for, and `blocks` is the memory.
pub record Pool : Type 0 where
  pub self : ℕ
  pub max_chunks : ℕ
  pub chunk_count : ℕ
  pub top : ℕ
  pub blocks : ℕ → Block

-- The chunks that a number of blocks makes; the sum is one of 32 bits.
abbrev pub chunks_of : ℕ → ℕ
chunks_of blocks = (blocks + chunk_size - 1) % 2 ^ 32 / chunk_size

unfoldable pub get_capacity_count : Pool → ℕ
get_capacity_count p = p.chunk_count * chunk_size

-- The tests that `ValidateAlloc` and `ValidateFree` share.
unfoldable pub is_sound : Pool → Block → Bool
is_sound p k = (k.owner == p.self) && (k.front_guard == p.self) && (k.back_guard == p.self)

abbrev pub with_flag : ℕ → ℕ → Pool → Pool
with_flag flag b p = record p { blocks = set p.blocks b (record (p.blocks b) { use_flag = flag }) }

unfoldable pub validate_alloc : Pool → ℕ → Option Pool
validate_alloc p b =
    let k = p.blocks b in if is_sound p k && (k.use_flag == 0) then some (with_flag 1 b p) else none

unfoldable pub validate_free : Pool → ℕ → Option Pool
validate_free p b =
    let k = p.blocks b in if is_sound p k && (k.use_flag == 1) then some (with_flag 0 b p) else none

-- A round of the loop of `NewChunk`; the count is not written.
unfoldable pub new_block : ℕ → ℕ → Block → Block
new_block self head k = record k {
  next = head;
  chunk_next = 0;
  use_flag = 0;
  owner = self;
  front_guard = self;
  back_guard = self;
}

-- The loop, for `n` blocks at `mem`, from the last one to the first.
unfoldable pub link : ℕ → ℕ → ℕ → ℕ → (ℕ → Block) → ℕ × (ℕ → Block)
link self mem zero head blocks = (head, blocks)
link self mem (suc n) head blocks =
    link self mem n (mem + n) (set blocks (mem + n) (new_block self head (blocks (mem + n))))

-- `NewChunk`, with the memory that `_aligned_malloc` returns.
unfoldable pub new_chunk : ℕ → Pool → Option (ℕ × Pool)
new_chunk mem p =
    let chunk_count = p.chunk_count + 1 in
    if not (p.max_chunks == 0) && ltb p.max_chunks chunk_count || (mem == 0) then none else (do
      let (head, blocks) = link p.self mem chunk_size 0 p.blocks
      some (
        head,
        record p {
          chunk_count = chunk_count;
          blocks = set blocks head (record (blocks head) { count = chunk_size });
        },
      ))

unfoldable pub push_chunk : ℕ → Pool → Pool
push_chunk head p = record p {
  blocks = set p.blocks head (record (p.blocks head) { chunk_next = p.top });
  top = head;
}

unfoldable pub pop_chunk : ℕ → Pool → Option (ℕ × Pool)
pop_chunk mem p =
    if p.top == 0
    then new_chunk mem p
    else some (p.top, record p { top = (p.blocks p.top).chunk_next })

-- The constructor: its loop pushes new chunks, the `i`th at the memory `mem i`.
unfoldable pub push_new : (ℕ → ℕ) → ℕ → Pool → Option Pool
push_new mem zero p = some p
push_new mem (suc n) p = do
  (head, p') ← new_chunk (mem 0) p
  push_new (λ i. mem (suc i)) n (push_chunk head p')

unfoldable pub create : ℕ → (ℕ → ℕ) → (ℕ → Block) → ℕ → ℕ → Option Pool
create self mem memory initial_blocks max_blocks = push_new mem (chunks_of initial_blocks) (record {
  self = self;
  max_chunks = chunks_of max_blocks;
  chunk_count = 0;
  top = 0;
  blocks = memory;
})
