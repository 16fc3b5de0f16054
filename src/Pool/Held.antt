-- ===== src/Pool/Held.antt =====
-- Where the blocks and the chunks of a pool are. A block is in use, in a chunk, or in the cache of a
-- thread outside its chunks; a chunk is in the shared pool, in the cache of a thread, or on its way.
use iocp_model_server.Base.{
  ℕ, zero, suc, ◌<◌, Bool-cases, inl, inr, ◌≤◌, ◌≡◌, ◌≢◌, ◌⊎◌, inl, inr, refl, ap, subst, ◌∙◌, Bool,
  true, Bool-cases, if◌then◌else◌, ◌==◌, arith, set, set_there, set_same, not,
}
use iocp_model_server.Pool.{Block, Pool, chunk_size}
use iocp_model_server.Pool.Cache.{Cache}
use iocp_model_server.Pool.Stacks.{Place, away, at, Stacks, Stacks-full}

pub data Owner : Type 0 where
  thread : ℕ → Owner
  chunk : ℕ → Owner

-- A block away from all chunks and caches: not of the pool, or in use.
abbrev pub outside : Place Owner
outside = away 0

abbrev pub in_use : Place Owner
in_use = away 1

-- The chunks of the shared pool are those of 0, and the chunks in the cache of thread `t` are
-- those of `suc t`. A block that heads no chunk, and a chunk on its way, are in neither.
abbrev pub no_chunk : Place ℕ
no_chunk = away 0

abbrev pub loose : Place ℕ
loose = away 1

abbrev pub is_chunk : Place ℕ → Bool
is_chunk (away w) = not (w == 0)
is_chunk (at o k) = true

abbrev pub flag_of : Place Owner → ℕ
flag_of (away w) = w
flag_of (at o k) = 0

module _ (role : ℕ → Place ℕ) (caches : ℕ → Cache) (p : Pool) where
  abbrev pub block_tops : Owner → ℕ
  block_tops (thread t) = (caches t).cur
  block_tops (chunk c) = if is_chunk (role c) then c else 0

  abbrev pub block_sizes : Owner → ℕ
  block_sizes (thread t) = (caches t).cur_count
  block_sizes (chunk c) = if is_chunk (role c) then (p.blocks c).count else 0

module _ (size : ℕ) (caches : ℕ → Cache) (p : Pool) where
  abbrev pub chunk_tops : ℕ → ℕ
  chunk_tops zero = p.top
  chunk_tops (suc t) = (caches t).chunk_top

  abbrev pub chunk_sizes : ℕ → ℕ
  chunk_sizes zero = size
  chunk_sizes (suc t) = (caches t).chunk_count

-- What the two checks look at, in a block with this place.
unfoldable pub Sound : ℕ → Place Owner → ℕ → Block → Type 0
Sound self place b k =
    place ≢ outside
    → (b ≢ 0)
      × (k.owner ≡ self)
      × (k.front_guard ≡ self)
      × (k.back_guard ≡ self)
      × (k.use_flag ≡ flag_of place)

unfoldable pub IsFilled : Place ℕ → ℕ → Type 0
IsFilled role count = is_chunk role ≡ true → (0 < count) × (count ≤ chunk_size)

pub record IsPooled (place : ℕ → Place Owner) (role : ℕ → Place ℕ) (size : ℕ) (caches : ℕ → Cache)
    (p : Pool) : Type 0 where
  pub blocks :
      Stacks place (λ b. (p.blocks b).next) (block_tops role caches p) (block_sizes role caches p)
  pub chunks :
      Stacks role
        (λ b. (p.blocks b).chunk_next)
        (chunk_tops size caches p)
        (chunk_sizes size caches p)
  pub filled : (c : ℕ) → IsFilled (role c) (p.blocks c).count
  pub sound : (b : ℕ) → Sound p.self (place b) b (p.blocks b)
  pub small : (t : ℕ) → (caches t).cur_count ≤ chunk_size

pub in_use-outside : in_use ≢ outside
in_use-outside e = absurd (omega (arith, ap flag_of e))

pub number_cases : (p q : ℕ) → (p ≡ q) ⊎ (p ≢ q)
number_cases p q = elim (Bool-cases (p == q)) [
  | inl e ↦ inl (ground arith)
  | inr e ↦ inr (ground arith)
]

pub owner_cases : (o p : Owner) → (o ≡ p) ⊎ (o ≢ p)
owner_cases (thread t) (thread u) = elim (number_cases t u) [
  | inl e ↦ inl (ap thread e)
  | inr differ ↦ inr (λ e. differ (ground arith))
]
owner_cases (thread t) (chunk c) = inr (λ e. absurd (ground arith))
owner_cases (chunk c) (thread t) = inr (λ e. absurd (ground arith))
owner_cases (chunk c) (chunk d) = elim (number_cases c d) [
  | inl e ↦ inl (ap chunk e)
  | inr differ ↦ inr (λ e. differ (ground arith))
]

-- What a change of one thread's cache leaves of the other stacks.
module _ (caches : ℕ → Cache) (t : ℕ) (c : Cache) (p p' : Pool) where
  pub other_owner :
      (role : ℕ → Place ℕ)
      → ((d : ℕ) → (p'.blocks d).count ≡ (p.blocks d).count)
      → (o : Owner) → o ≢ thread t
      → (block_tops role (set caches t c) p' o ≡ block_tops role caches p o)
        × (block_sizes role (set caches t c) p' o ≡ block_sizes role caches p o)
  other_owner role same (thread u) differ =
      let there : set caches t c u ≡ caches u =
        set_there caches t c u (λ e. differ (ap thread e)) in
      (ap (λ k. k.cur) there, ap (λ k. k.cur_count) there)
  other_owner role same (chunk d) differ =
      (refl, ap (λ n. if is_chunk (role d) then n else 0) (same d))

  pub same_owner :
      (role : ℕ → Place ℕ)
      → ((d : ℕ) → (p'.blocks d).count ≡ (p.blocks d).count)
      → c.cur ≡ (caches t).cur
      → c.cur_count ≡ (caches t).cur_count
      → (o : Owner)
      → (block_tops role (set caches t c) p' o ≡ block_tops role caches p o)
        × (block_sizes role (set caches t c) p' o ≡ block_sizes role caches p o)
  same_owner role same top size (thread u) =
      (set_same (λ k. k.cur) caches t c top u, set_same (λ k. k.cur_count) caches t c size u)
  same_owner role same top size (chunk d) =
      (refl, ap (λ n. if is_chunk (role d) then n else 0) (same d))

  pub other_stack :
      (size : ℕ) (o : ℕ)
      → p'.top ≡ p.top
      → o ≢ suc t
      → (chunk_tops size (set caches t c) p' o ≡ chunk_tops size caches p o)
        × (chunk_sizes size (set caches t c) p' o ≡ chunk_sizes size caches p o)
  other_stack size zero top differ = (top, refl)
  other_stack size (suc u) top differ =
      let there : set caches t c u ≡ caches u = set_there caches t c u (λ e. differ (ap suc e)) in
      (ap (λ k. k.chunk_top) there, ap (λ k. k.chunk_count) there)

  pub same_stack :
      (size : ℕ) (o : ℕ)
      → p'.top ≡ p.top
      → c.chunk_top ≡ (caches t).chunk_top
      → c.chunk_count ≡ (caches t).chunk_count
      → (chunk_tops size (set caches t c) p' o ≡ chunk_tops size caches p o)
        × (chunk_sizes size (set caches t c) p' o ≡ chunk_sizes size caches p o)
  same_stack size zero top first number = (top, refl)
  same_stack size (suc u) top first number = (
    set_same (λ k. k.chunk_top) caches t c first u,
    set_same (λ k. k.chunk_count) caches t c number u,
  )

-- The head of a chunk is a block, and the last one of it to be taken.
pub chunk_head :
    (place : ℕ → Place Owner) (role : ℕ → Place ℕ) (size : ℕ) (caches : ℕ → Cache) (p : Pool)
    (c : ℕ)
    → IsPooled place role size caches p
    → is_chunk (role c) ≡ true
    → (n : ℕ) × ((p.blocks c).count ≡ suc n) × (c ≢ 0) × (place c ≡ at (chunk c) n)
unfolding IsFilled
chunk_head place role size caches p c h some_chunk = of_count (p.blocks c).count refl
  where
    tops : block_tops role caches p (chunk c) ≡ c
    tops = ap (λ b. if b then c else 0) some_chunk

    sizes : block_sizes role caches p (chunk c) ≡ (p.blocks c).count
    sizes = ap (λ b. if b then (p.blocks c).count else 0) some_chunk

    of_count :
        (m : ℕ)
        → (p.blocks c).count ≡ m
        → (n : ℕ) × ((p.blocks c).count ≡ suc n) × (c ≢ 0) × (place c ≡ at (chunk c) n)
    of_count zero e = absurd (omega (arith, e, (h.filled c some_chunk).0))
    of_count (suc n) e =
        let full =
          Stacks-full place (λ b. (p.blocks b).next) (block_tops role caches p)
            (block_sizes role caches p) (chunk c) n h.blocks (sizes ∙ e) in
        (n, e, subst (λ k. k ≢ 0) tops full.0, subst (λ k. place k ≡ at (chunk c) n) tops full.1)
