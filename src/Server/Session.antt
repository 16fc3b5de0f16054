-- ===== src/Server/Session.antt =====
-- NetworkLibrary/CNetServer/CNetServer/CNetServer.cpp and Session.h: the count of the references to
-- a session's place in the array, and its release flag.
-- Each step is one interlocked operation of a thread; between two of them other threads may run.
-- Next to the word itself the state counts the threads that stand at each point of the code.
pub mod Counts
mod Tests
use iocp_model_server.Base.{ℕ, ◌+◌, ◌-◌, ◌%◌, ◌^◌, ◌<◌, ◌≡◌, Bool, leb, ◌==◌, if◌then◌else◌}

-- `RELEASE_FLAG`, the top bit of a `LONG`.
abbrev pub release_flag : ℕ
release_flag = 2 ^ 31

-- `InterlockedIncrement` and `InterlockedDecrement` on 32 bits, and the tests and masks of the flag.
abbrev pub increment : ℕ → ℕ
increment w = (w + 1) % 2 ^ 32

abbrev pub decrement : ℕ → ℕ
decrement w = (w + (2 ^ 32 - 1)) % 2 ^ 32

abbrev pub is_released : ℕ → Bool
is_released w = leb release_flag w

abbrev pub clear_flag : ℕ → ℕ
clear_flag w = w % release_flag

-- Where the place is: in the stack of free ones, taken by the accept thread, or in use.
pub data Phase : Type 0 where
  unused opening active : Phase

-- `users` may use the session: calls that `AcquireSession` gave it to, posted operations and the
-- accept thread. `seen` and `refused` are calls of `AcquireSession` that have raised the count, and
-- saw the flag clear or set. `closers` have brought the count to 0 and are about to compare it.
pub record Slot : Type 0 where
  pub io_count : ℕ
  pub phase : Phase
  pub users : ℕ
  pub seen : ℕ
  pub refused : ℕ
  pub closers : ℕ
  pub accepts : ℕ
  pub releases : ℕ

-- `Session::Session`
abbrev pub start : Slot
start = record {
  io_count = release_flag;
  phase = unused;
  users = 0;
  seen = 0;
  refused = 0;
  closers = 0;
  accepts = 0;
  releases = 0;
}

-- `AcquireSession` up to its test of the flag.
unfoldable pub acquire : Slot → Slot
acquire s =
    let w = increment s.io_count in
    if is_released w
    then record s { io_count = w; refused = s.refused + 1 }
    else record s { io_count = w; seen = s.seen + 1 }

-- `InterlockedDecrement` of `ReturnSession`, and its test.
unfoldable pub return_session : Slot → Slot
return_session s =
    let w = decrement s.io_count in
    if w == 0 then record s { io_count = w; closers = s.closers + 1 } else record s { io_count = w }

-- `InterlockedCompareExchange` of `ReleaseSession`; the one that succeeds gives the place back.
unfoldable pub release_session : Slot → Slot
release_session s =
    if s.io_count == 0
    then record s {
      io_count = release_flag;
      phase = unused;
      closers = s.closers - 1;
      releases = s.releases + 1;
    }
    else record s { closers = s.closers - 1 }

-- `AcceptThreadMain`, which raises the count and then clears the flag.
unfoldable pub take_place : Slot → Slot
take_place s = record s { io_count = increment s.io_count; phase = opening }

unfoldable pub open_session : Slot → Slot
open_session s = record s {
  io_count = clear_flag s.io_count;
  phase = active;
  users = s.users + 1;
  accepts = s.accepts + 1;
}

-- A user raises the count for an operation that it posts.
unfoldable pub post : Slot → Slot
post s = record s { io_count = increment s.io_count; users = s.users + 1 }

-- There are fewer than 2^31 - 3 references at a time: a server has far fewer threads and operations.
abbrev pub Room : Slot → Type 0
Room s = s.users + s.seen + s.refused + 3 < 2 ^ 31

pub data Step (s : Slot) : Slot → Type 0 where
  acquires : Room s → Step s (acquire s)
  gets : 0 < s.seen → Step s (record s { seen = s.seen - 1; users = s.users + 1 })
  finishes : 0 < s.users → Step s (return_session (record s { users = s.users - 1 }))
  differs : 0 < s.seen → Step s (return_session (record s { seen = s.seen - 1 }))
  gives_up : 0 < s.refused → Step s (return_session (record s { refused = s.refused - 1 }))
  closes : 0 < s.closers → Step s (release_session s)
  takes : s.phase ≡ unused → Room s → Step s (take_place s)
  opens : s.phase ≡ opening → Step s (open_session s)
  posts : 0 < s.users → Room s → Step s (post s)

pub data Reach : Slot → Type 0 where
  initially : Reach start
  later : {s t : Slot} → Reach s → Step s t → Reach t
