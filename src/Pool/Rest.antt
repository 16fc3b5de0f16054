-- ===== src/Pool/Rest.antt =====
-- What holds between two calls of `Alloc` and `Free`.
use iocp_model_server.Base.{ℕ, ◌<◌, ◌≤◌, ◌≡◌, ◌≢◌, true, arith}
use iocp_model_server.Pool.{Block, Pool, chunk_size, is_sound}
use iocp_model_server.Pool.Cache.{Cache, tls_max_chunks}
use iocp_model_server.Pool.Stacks.{Place}
use iocp_model_server.Pool.Held.{Owner, outside, flag_of, Sound, IsPooled}

-- The pool and the caches of all threads between two calls.
pub record IsAtRest (place : ℕ → Place Owner) (role : ℕ → Place ℕ) (size : ℕ) (caches : ℕ → Cache)
    (p : Pool) : Type 0 where
  pub pooled : IsPooled place role size caches p
  pub few_blocks : (t : ℕ) → (caches t).cur_count < chunk_size
  pub few_chunks : (t : ℕ) → (caches t).chunk_count ≤ tls_max_chunks

pub Sound-test :
    (p : Pool) (pl : Place Owner) (b : ℕ) (k : Block)
    → Sound p.self pl b k
    → pl ≢ outside
    → (is_sound p k ≡ true) × (k.use_flag ≡ flag_of pl)
unfolding Sound is_sound
Sound-test p pl b k h differ = let was = h differ in (ground (arith, was.1, was.2, was.3), was.4)
