-- ===== src/Ring/Valid.antt =====
-- The sizes that a valid ring reports, and the moves of its two positions.
use iocp_model_server.Base.{
  ℕ, ◌+◌, ◌-◌, ◌%◌, ◌≤◌, ◌<◌, ◌≡◌, List, some, arith, add_int, add_int_lem,
}
use native.Mathlib.Nat.{mod-eq_of_lt, mod-eq-sub-mod}
use native.Mathlib.Decide.{dec_lt}
use iocp_model_server.Ring.{Ring, get_use_size, get_free_size, get_buffer_size}
use iocp_model_server.Ring.Contents.{IsValid, index}

-- A position that has gone past the end comes back from the start, as `index` says.
pub mod-index : (cap start n : ℕ) → start < cap → n ≤ cap → (start + n) % cap ≡ index cap start n
mod-index cap start n h k = elim (dec_lt (start + n) cap) [
  | yes p ↦ ground (arith, mod-eq_of_lt {n = start + n} {m = cap} p)
  | no p ↦ ground (
    arith,
    mod-eq-sub-mod {n = start + n} {m = cap} (omega arith),
    mod-eq_of_lt {n = start + n - cap} {m = cap},
  )
]

pub use_size-lt : {r : Ring} → IsValid r → get_use_size r < r.capacity
unfolding get_use_size
use_size-lt v = ground arith

pub use_size-add-free_size :
    {r : Ring} → IsValid r → get_use_size r + get_free_size r ≡ get_buffer_size r
unfolding get_use_size get_free_size get_buffer_size
use_size-add-free_size v = ground arith

pub position_fits :
    {r : Ring} (start n : ℕ)
    → IsValid r
    → start < r.capacity
    → n ≤ r.capacity
    → (add_int start n ≡ some (start + n)) × ((start + n) % r.capacity ≡ index r.capacity start n)
position_fits {r} start n v h k =
    (add_int_lem start n (omega arith), mod-index r.capacity start n h k)

-- Adding `n` bytes behind the rear makes the used part longer by `n`.
pub use_size-rear :
    {r : Ring} (buf : List ℕ) (n : ℕ)
    → IsValid r
    → n ≤ get_free_size r
    → get_use_size (record r { buf = buf; rear = index r.capacity r.rear n }) ≡ get_use_size r + n
unfolding get_use_size get_free_size
use_size-rear buf n v h = ground arith

-- Taking `n` bytes from the front makes it shorter by `n`.
pub use_size-front :
    {r : Ring} (n : ℕ)
    → IsValid r
    → n ≤ get_use_size r
    → get_use_size (record r { front = index r.capacity r.front n }) ≡ get_use_size r - n
unfolding get_use_size
use_size-front n v h = ground arith

-- The places behind the used part start at the rear.
pub index_behind :
    {r : Ring} (i : ℕ)
    → IsValid r
    → i < get_free_size r
    → index r.capacity r.front (get_use_size r + i) ≡ index r.capacity r.rear i
unfolding get_use_size get_free_size
index_behind i v h = ground arith

-- Going on from the `n`-th place is going `n + i` places from the start.
pub index_on :
    (cap start n i : ℕ)
    → start < cap
    → n + i < cap
    → index cap (index cap start n) i ≡ index cap start (n + i)
index_on cap start n i h k = ground arith
