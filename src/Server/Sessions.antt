-- ===== src/Server/Sessions.antt =====
-- NetworkLibrary/CNetServer/CNetServer/CNetServer.cpp: the numbers of sessions. A session has a place
-- in an array, and a number that says the place and how many sessions were accepted before it.
-- A call takes effect at once here; how the threads get there is in Server/Session and in Stack.
pub mod Numbers
pub mod Acquire
mod Tests
use iocp_model_server.Base.{
  ℕ, zero, suc, ◌+◌, ◌-◌, ◌*◌, ◌/◌, ◌%◌, ◌^◌, ◌≤◌, ◌<◌, ◌≡◌, Bool, true, false, not, ◌&&◌, ◌||◌,
  List, [], ◌∷◌, Option, none, some, ltb, ◌==◌, if◌then◌else◌, set,
}

-- `INDEX_MASK`: the lower 16 bits. The number of 64 bits has the generator above them.
unfoldable pub index_of : ℕ → ℕ
index_of id = id % 2 ^ 16

unfoldable pub make_id : ℕ → ℕ → ℕ
make_id generator index = generator * 2 ^ 16 % 2 ^ 64 + index

-- `live` says which places have the release flag clear.
pub record Server : Type 0 where
  pub max_session_count : ℕ
  pub session_id_generator : ℕ
  pub session_ids : ℕ → ℕ
  pub live : ℕ → Bool
  pub index_stack : List ℕ
  pub session_count : ℕ

-- The loop of `Start` that pushes the places, from the last one to the first.
unfoldable pub push_indices : ℕ → List ℕ → List ℕ
push_indices zero indices = indices
push_indices (suc n) indices = push_indices n (n ∷ indices)

-- `Start`, as far as its sessions go.
unfoldable pub started : ℕ → Server
started max = record {
  max_session_count = max;
  session_id_generator = 0;
  session_ids = λ i. 0;
  live = λ i. false;
  index_stack = push_indices max [];
  session_count = 0;
}

unfoldable pub start : ℕ → Option Server
start max = if (max == 0) || ltb (2 ^ 16) max then none else some (started max)

-- A round of `AcceptThreadMain`; `allowed` is the answer of `OnConnectionRequest`.
unfoldable pub init_session : ℕ → List ℕ → Server → Server
init_session index rest s =
    let generator = s.session_id_generator + 1 in
    record s {
      session_id_generator = generator;
      session_ids = set s.session_ids index (make_id generator index);
      live = set s.live index true;
      index_stack = rest;
      session_count = s.session_count + 1;
    }

unfoldable pub accept_from : Bool → List ℕ → Server → Server
accept_from allowed [] s = s
accept_from true (index ∷ rest) s = init_session index rest s
accept_from false (index ∷ rest) s = record s { index_stack = index ∷ rest }

unfoldable pub accept : Bool → Server → Server
accept allowed s = accept_from allowed s.index_stack s

-- `AcquireSession`
unfoldable pub acquire_session : ℕ → Server → Option ℕ
acquire_session id s =
    let index = index_of id in
    if ltb index s.max_session_count && s.live index && (s.session_ids index == id)
    then some index
    else none

-- `ReleaseSession`, of the one caller whose exchange of the count succeeds.
unfoldable pub release : ℕ → Server → Server
release index s = record s {
  live = set s.live index false;
  session_count = s.session_count - 1;
  index_stack = index ∷ s.index_stack;
}

pub data Step (s : Server) : Server → Type 0 where
  accepts : (allowed : Bool) → s.session_id_generator + 1 < 2 ^ 48 → Step s (accept allowed s)
  releases : (index : ℕ) → s.live index ≡ true → Step s (release index s)

pub data Later (s : Server) : Server → Type 0 where
  now : Later s s
  later : {s' s'' : Server} → Later s s' → Step s' s'' → Later s s''
