-- ===== src/Pool/Fresh.antt =====
-- The blocks of a new chunk.
use iocp_model_server.Base.{
  ℕ, zero, suc, ◌+◌, ◌-◌, ◌<◌, ◌≤◌, ◌≡◌, ◌≢◌, ◌⊎◌, refl, sym, ap, subst, ◌∙◌, true, false,
  Bool-cases, inl, inr, arith, set, set_here, set_there, if◌then◌else◌, ltb, leb, ◌==◌, ◌&&◌,
}
use iocp_model_server.Pool.{Block, chunk_size, new_block, link}
use iocp_model_server.Pool.Seg.{Seg, Seg_frame}
use iocp_model_server.Pool.Stacks.{Place, at, at-height}
use iocp_model_server.Pool.Held.{Owner, chunk, outside}

-- The loop writes the blocks from `mem` on, and no others.
pub link_there :
    (self mem n head : ℕ) (blocks : ℕ → Block) (j : ℕ)
    → (j < mem) ⊎ (mem + n ≤ j)
    → (link self mem n head blocks).1 j ≡ blocks j
unfolding link
link_there self mem zero head blocks j h = refl
link_there self mem (suc n) head blocks j h =
    link_there self mem n (mem + n) (set blocks (mem + n) (new_block self head (blocks (mem + n))))
      j (ground arith)
    ∙ set_there blocks (mem + n) (new_block self head (blocks (mem + n))) j (ground arith)

pub link_here :
    (self mem n head : ℕ) (blocks : ℕ → Block) (j : ℕ)
    → mem ≤ j
    → j < mem + n
    → (h : ℕ) × (k : Block) × ((link self mem n head blocks).1 j ≡ new_block self h k)
unfolding link
link_here self mem zero head blocks j low high = absurd (omega arith)
link_here self mem (suc n) head blocks j low high =
    let k = new_block self head (blocks (mem + n)) in
    let next = set blocks (mem + n) k in
    elim (Bool-cases (j == mem + n)) [
      | inl e ↦
          let same : j ≡ mem + n = ground arith in
          (
            head,
            blocks (mem + n),
            link_there self mem n (mem + n) next j (ground arith)
                ∙ ap next same
                ∙ set_here blocks (mem + n) k,
          )
      | inr e ↦ link_here self mem n (mem + n) next j low (ground arith)
    ]

-- It leaves a list of as many blocks, the lower ones nearer its head.
pub link-Seg :
    (self mem n m head : ℕ) (blocks : ℕ → Block) (place : ℕ → Place Owner)
    → mem ≢ 0
    → ((i : ℕ) → i < n + m → place (mem + i) ≡ at (chunk mem) (n + m - suc i))
    → Seg place (λ j. (blocks j).next) (at (chunk mem)) head m
    → let out = link self mem n head blocks in
      Seg place (λ j. (out.1 j).next) (at (chunk mem)) out.0 (n + m)
unfolding link Seg new_block
link-Seg self mem zero m head blocks place some_mem at_height tail =
    subst (Seg place (λ j. (blocks j).next) (at (chunk mem)) head) {x = m} {y = 0 + m} (omega arith)
      tail
link-Seg self mem (suc n) m head blocks place some_mem at_height tail =
    let b = mem + n in
    let k = new_block self head (blocks b) in
    let next = set blocks b k in
    let here : place b ≡ at (chunk mem) m =
      at_height n (omega arith) ∙ ap (at (chunk mem)) (omega arith) in
    let kept : Seg place (λ j. (next j).next) (at (chunk mem)) head m =
      Seg_frame head m
        (λ j i lt there. (
          there,
          ap (λ x. x.next)
              (set_there blocks b k j
                (λ e. at-height (omega arith) (sym there ∙ ap place e ∙ here))),
        ))
        tail in
    let longer : Seg place (λ j. (next j).next) (at (chunk mem)) b (suc m) = (
      (λ e. some_mem (omega arith)),
      here,
      subst (λ x. Seg place (λ j. (next j).next) (at (chunk mem)) x m)
          (sym (ap (λ x. x.next) (set_here blocks b k))) kept,
    ) in
    let out = link self mem n b next in
    subst (Seg place (λ j. (out.1 j).next) (at (chunk mem)) out.0) {x = n + suc m} {y = suc n + m}
      (omega arith)
      (link-Seg self mem n (suc m) b next place some_mem
        (λ i lt.
          at_height i (omega arith)
          ∙ ap (at (chunk mem)) {x = suc n + m - suc i} {y = n + suc m - suc i} (omega arith))
        longer)

-- The head of the list is at the beginning of the memory.
pub link-head :
    (self mem n head : ℕ) (blocks : ℕ → Block) → (link self mem (suc n) head blocks).0 ≡ mem
unfolding link
link-head self mem zero head blocks = omega arith
link-head self mem (suc n) head blocks =
    link-head self mem n (mem + suc n)
      (set blocks (mem + suc n) (new_block self head (blocks (mem + suc n))))

-- The places after a new chunk at `mem`.
pub new_place : (ℕ → Place Owner) → ℕ → ℕ → Place Owner
new_place place mem j =
    if leb mem j && ltb j (mem + chunk_size)
    then at (chunk mem) (mem + chunk_size - suc j)
    else place j

-- The memory is not of the pool yet.
unfoldable pub IsFresh : (ℕ → Place Owner) → ℕ → Type 0
IsFresh place mem = (i : ℕ) → i < chunk_size → place (mem + i) ≡ outside

pub new_place_in :
    (place : ℕ → Place Owner) (mem j : ℕ)
    → mem ≤ j
    → j < mem + chunk_size
    → new_place place mem j ≡ at (chunk mem) (mem + chunk_size - suc j)
unfolding new_place
new_place_in place mem j low high =
    let test : leb mem j && ltb j (mem + 300) ≡ true = ground arith in rw test refl

pub new_place_out :
    (place : ℕ → Place Owner) (mem j : ℕ)
    → (j < mem) ⊎ (mem + chunk_size ≤ j)
    → new_place place mem j ≡ place j
unfolding new_place
new_place_out place mem j out =
    let test : leb mem j && ltb j (mem + 300) ≡ false = ground arith in rw test refl

pub range_cases :
    (mem j : ℕ) → ((mem ≤ j) × (j < mem + chunk_size)) ⊎ ((j < mem) ⊎ (mem + chunk_size ≤ j))
range_cases mem j = ground arith

pub inside-IsFresh :
    (place : ℕ → Place Owner) (mem j : ℕ)
    → IsFresh place mem
    → (mem ≤ j) × (j < mem + chunk_size)
    → place j ≡ outside
unfolding IsFresh
inside-IsFresh place mem j fresh (low, high) =
    ap place {x = j} {y = mem + (j - mem)} (omega arith) ∙ fresh (j - mem) (omega arith)
