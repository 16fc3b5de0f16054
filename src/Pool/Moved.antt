-- ===== src/Pool/Moved.antt =====
-- The names of places after a move of blocks between a thread and a chunk.
use iocp_model_server.Base.{
  ℕ, ◌≡◌, ◌≢◌, refl, sym, ap, Bool-cases, inl, inr, arith, if◌then◌else◌, ◌==◌,
}
use iocp_model_server.Pool.{Block}
use iocp_model_server.Pool.Stacks.{Place, away, at, away-at}
use iocp_model_server.Pool.Held.{Owner, thread, chunk, Sound}

unfoldable pub to_chunk : ℕ → ℕ → Place Owner → Place Owner
to_chunk t c (away w) = away w
to_chunk t c (at (thread u) k) = if u == t then at (chunk c) k else at (thread u) k
to_chunk t c (at (chunk d) k) = at (chunk d) k

unfoldable pub to_thread : ℕ → ℕ → Place Owner → Place Owner
to_thread c t (away w) = away w
to_thread c t (at (thread u) k) = at (thread u) k
to_thread c t (at (chunk d) k) = if d == c then at (thread t) k else at (chunk d) k

pub to_chunk_here : (t c k : ℕ) → to_chunk t c (at (thread t) k) ≡ at (chunk c) k
unfolding to_chunk
to_chunk_here t c k = ground arith

pub to_chunk_there : (t c k : ℕ) (o : Owner) → o ≢ thread t → to_chunk t c (at o k) ≡ at o k
unfolding to_chunk
to_chunk_there t c k (thread u) differ =
    let other : u ≢ t = λ e. differ (ap thread e) in ground arith
to_chunk_there t c k (chunk d) differ = refl

pub to_thread_here : (c t k : ℕ) → to_thread c t (at (chunk c) k) ≡ at (thread t) k
unfolding to_thread
to_thread_here c t k = ground arith

pub to_thread_there : (c t k : ℕ) (o : Owner) → o ≢ chunk c → to_thread c t (at o k) ≡ at o k
unfolding to_thread
to_thread_there c t k (thread u) differ = refl
to_thread_there c t k (chunk d) differ =
    let other : d ≢ c = λ e. differ (ap chunk e) in ground arith

-- Neither changes what the checks look at.
pub to_chunk-Sound :
    (self t c : ℕ) (pl : Place Owner) (b : ℕ) (k : Block)
    → Sound self pl b k
    → Sound self (to_chunk t c pl) b k
unfolding to_chunk Sound
to_chunk-Sound self t c (away w) b k h = h
to_chunk-Sound self t c (at (thread u) j) b k h = elim (Bool-cases (u == t)) [
  | inl e ↦ rw e (λ differ. h (λ e'. away-at (sym e')))
  | inr e ↦ rw e h
]
to_chunk-Sound self t c (at (chunk d) j) b k h = h

pub to_thread-Sound :
    (self c t : ℕ) (pl : Place Owner) (b : ℕ) (k : Block)
    → Sound self pl b k
    → Sound self (to_thread c t pl) b k
unfolding to_thread Sound
to_thread-Sound self c t (away w) b k h = h
to_thread-Sound self c t (at (thread u) j) b k h = h
to_thread-Sound self c t (at (chunk d) j) b k h = elim (Bool-cases (d == c)) [
  | inl e ↦ rw e (λ differ. h (λ e'. away-at (sym e')))
  | inr e ↦ rw e h
]

pub counted-Sound :
    (self : ℕ) (pl : Place Owner) (b : ℕ) (k : Block) (n : ℕ)
    → Sound self pl b k
    → Sound self pl b (record k { count = n })
unfolding Sound
counted-Sound self pl b k n h = h
