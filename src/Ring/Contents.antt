-- ===== src/Ring/Contents.antt =====
-- What a ring holds, oldest byte first, and when its fields make sense.
use iocp_model_server.Base.{
  ℕ, ◌+◌, ◌-◌, ◌^◌, ◌≤◌, ◌<◌, ◌≡◌, List, arith, ltb, if◌then◌else◌, length, get_or, tabulate,
  length-tabulate, tabulate-congr, take-drop_table, take, ap, ◌∙◌, sym,
}
use iocp_model_server.Ring.{Ring, get_use_size}

-- The index of the `i`-th byte from `start` on, going round at the end of the array.
abbrev pub index : ℕ → ℕ → ℕ → ℕ
index capacity start i = if ltb (start + i) capacity then start + i else start + i - capacity

abbrev pub byte_at : Ring → ℕ → ℕ
byte_at r i = get_or r.buf (index r.capacity r.front i) 0

abbrev pub contents : Ring → List ℕ
contents r = tabulate (get_use_size r) (byte_at r)

pub record IsValid (r : Ring) : Type 0 where
  pub storage : length r.buf ≡ r.capacity
  pub small : r.capacity ≤ 2 ^ 30
  pub front_in : r.front < r.capacity
  pub rear_in : r.rear < r.capacity

pub length-contents : (r : Ring) → length (contents r) ≡ get_use_size r
length-contents r = length-tabulate (get_use_size r) (byte_at r)

-- The contents of a ring whose oldest byte stands at the start of the array.
pub contents-front : (r : Ring) → IsValid r → r.front ≡ 0 → contents r ≡ take r.rear r.buf
unfolding get_use_size
contents-front r v e =
    ap (λ n. tabulate n (byte_at r)) {x = get_use_size r} {y = r.rear} (ground arith)
    ∙ tabulate-congr r.rear _ _ at
    ∙ sym (take-drop_table 0 r.rear r.buf 0 (omega arith))
  where
    at : (i : ℕ) → i < r.rear → byte_at r i ≡ get_or r.buf (0 + i) 0
    at i h = ap (λ k. get_or r.buf k 0) {x = index r.capacity r.front i} {y = 0 + i} (ground arith)
