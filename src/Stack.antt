-- ===== src/Stack.antt =====
-- MyLibrary/LockFreeStack.h: a stack that threads share without a lock.
-- A step is one access of a thread to the shared memory; other threads may run between two steps. A
-- node is known by its address, of 47 bits, and 0 is the null pointer. `s_nodePool` hands out a node
-- that is free and takes it back, as Pool does.
-- Next to the memory the state has what no code reads: how many exchanges of `_Top` have succeeded,
-- where each node is, how high the stack is, and in a thread's place the number of exchanges at the
-- time it read `_Top` and the value that its call is about.
pub mod Tagged
pub mod Linked
mod Spots
mod Push
mod Pop
pub mod Follows
mod Tests
use iocp_model_server.Base.{
  ℕ, zero, suc, ◌+◌, ◌-◌, ◌*◌, ◌/◌, ◌%◌, ◌^◌, ◌<◌, ◌≡◌, ◌≢◌, set, ◌==◌, if◌then◌else◌,
}

-- `GetPointer`, `GetTag` and `MakeTagged`: the lower 47 bits, the 17 bits above them, and the two
-- together, where `|` of different bits is their sum.
unfoldable pub get_pointer : ℕ → ℕ
get_pointer tagged = tagged % 2 ^ 47

unfoldable pub get_tag : ℕ → ℕ
get_tag tagged = tagged / 2 ^ 47 % 2 ^ 17

unfoldable pub make_tagged : ℕ → ℕ → ℕ
make_tagged tag pointer = tag % 2 ^ 17 * 2 ^ 47 + pointer % 2 ^ 47

-- A node is with the pool, with a thread, or on the stack above so many others.
pub data Spot : Type 0 where
  spare : Spot
  mine : ℕ → Spot
  stacked : ℕ → Spot

pub record Memory : Type 0 where
  pub top : ℕ
  pub next : ℕ → ℕ
  pub value_at : ℕ → ℕ
  pub version : ℕ
  pub spot : ℕ → Spot
  pub size : ℕ

-- Where a thread is in `Push` or `Pop`: at the head of the loop (`pushing`, `popping`), after it has
-- read `_Top` (`pop_read`), before its exchange (`push_swap`, `pop_swap`), or after it (`popped`).
pub data Thread : Type 0 where
  idle : Thread
  pushing : ℕ → ℕ → Thread
  push_swap : ℕ → ℕ → ℕ → Thread
  popping : Thread
  pop_read : ℕ → ℕ → Thread
  pop_swap : ℕ → ℕ → ℕ → Thread
  popped : ℕ → ℕ → Thread

pub record System : Type 0 where
  pub memory : Memory
  pub threads : ℕ → Thread

-- `LockFreeStack`, with any memory.
abbrev pub empty : (ℕ → ℕ) → (ℕ → ℕ) → System
empty next value_at = record {
  memory = record {
    top = 0;
    next = next;
    value_at = value_at;
    version = 0;
    spot = λ n. spare;
    size = 0;
  };
  threads = λ t. idle;
}

-- `Push` up to the loop: a node of the pool gets the value.
unfoldable pub begin_push : ℕ → ℕ → ℕ → System → System
begin_push t node value s = record {
  memory = record s.memory {
    value_at = set s.memory.value_at node value;
    spot = set s.memory.spot node (mine t);
  };
  threads = set s.threads t (pushing node value);
}

-- The body of its loop: `_Top` is read, and the node's `_Next` written.
unfoldable pub read_push : ℕ → ℕ → ℕ → System → System
read_push t node value s = record {
  memory = record s.memory { next = set s.memory.next node (get_pointer s.memory.top) };
  threads = set s.threads t (push_swap node value s.memory.top);
}

-- `InterlockedCompareExchange` of `Push`, and the loop's test.
unfoldable pub swap_push : ℕ → ℕ → ℕ → ℕ → System → System
swap_push t node value tagged s =
    if s.memory.top == tagged
    then record {
      memory = record s.memory {
        top = make_tagged (get_tag tagged + 1) node;
        version = s.memory.version + 1;
        spot = set s.memory.spot node (stacked s.memory.size);
        size = s.memory.size + 1;
      };
      threads = set s.threads t idle;
    }
    else record s { threads = set s.threads t (pushing node value) }

unfoldable pub begin_pop : ℕ → System → System
begin_pop t s = record s { threads = set s.threads t popping }

-- `Pop` reads `_Top`, and returns false if it is null.
unfoldable pub read_pop : ℕ → System → System
read_pop t s =
    if get_pointer s.memory.top == 0
    then record s { threads = set s.threads t idle }
    else record s { threads = set s.threads t (pop_read s.memory.top s.memory.version) }

-- It reads `_Next` of the node it has seen, which may have left the stack since.
unfoldable pub next_pop : ℕ → ℕ → ℕ → System → System
next_pop t tagged seen s = record s {
  threads = set s.threads t (pop_swap tagged seen (s.memory.next (get_pointer tagged)));
}

-- `InterlockedCompareExchange` of `Pop`, and the loop's test.
unfoldable pub swap_pop : ℕ → ℕ → ℕ → System → System
swap_pop t tagged next s =
    let node = get_pointer tagged in
    if s.memory.top == tagged
    then record {
      memory = record s.memory {
        top = make_tagged (get_tag tagged + 1) next;
        version = s.memory.version + 1;
        spot = set s.memory.spot node (mine t);
        size = s.memory.size - 1;
      };
      threads = set s.threads t (popped node (s.memory.value_at node));
    }
    else record s { threads = set s.threads t popping }

-- The value is read, and the node goes back to the pool.
unfoldable pub return_pop : ℕ → ℕ → System → System
return_pop t node s = record {
  memory = record s.memory { spot = set s.memory.spot node spare };
  threads = set s.threads t idle;
}

-- What a step is for the users of the stack: the point at which a push or a pop takes effect, a pop
-- that finds nothing, and the value that a pop returns, next to the one it has taken.
pub data Event : Type 0 where
  quiet : Event
  pushed : ℕ → Event
  took : ℕ → Event
  saw_empty : Event
  returned : ℕ → ℕ → Event

-- Fewer than 2^17 exchanges succeed between the look of a `Pop` at `_Top` and its own exchange.
pub data Step (s : System) : Event → System → Type 0 where
  begins_push :
      (t node value : ℕ)
      → s.threads t ≡ idle
      → s.memory.spot node ≡ spare
      → node ≢ 0
      → node < 2 ^ 47
      → Step s quiet (begin_push t node value s)
  reads_push :
      (t node value : ℕ)
      → s.threads t ≡ pushing node value
      → Step s quiet (read_push t node value s)
  swaps_push :
      (t node value tagged : ℕ)
      → s.threads t ≡ push_swap node value tagged
      → Step s
          (if s.memory.top == tagged then pushed value else quiet)
          (swap_push t node value tagged s)
  begins_pop : (t : ℕ) → s.threads t ≡ idle → Step s quiet (begin_pop t s)
  reads_pop :
      (t : ℕ)
      → s.threads t ≡ popping
      → Step s (if get_pointer s.memory.top == 0 then saw_empty else quiet) (read_pop t s)
  nexts_pop :
      (t tagged seen : ℕ)
      → s.threads t ≡ pop_read tagged seen
      → Step s quiet (next_pop t tagged seen s)
  swaps_pop :
      (t tagged seen next : ℕ)
      → s.threads t ≡ pop_swap tagged seen next
      → s.memory.version < seen + 2 ^ 17
      → Step s
          (if s.memory.top == tagged then took (s.memory.value_at (get_pointer tagged)) else quiet)
          (swap_pop t tagged next s)
  returns_pop :
      (t node value : ℕ)
      → s.threads t ≡ popped node value
      → Step s (returned value (s.memory.value_at node)) (return_pop t node s)

pub data Reach (next value_at : ℕ → ℕ) : System → Type 0 where
  initially : Reach next value_at (empty next value_at)
  later : {s s' : System} {e : Event} → Reach next value_at s → Step s e s' → Reach next value_at s'
