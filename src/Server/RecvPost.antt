-- ===== src/Server/RecvPost.antt =====
-- NetworkLibrary/CNetServer/CNetServer/CNetServer.cpp, `RecvPost`, and the end of `RecvProc` in
-- NetworkLibrary/CLanServer/CLanServer.cpp: the pieces of the receive ring that `WSARecv` gets.

mod Tests
use iocp_model_server.Base.{
  ℕ, ◌+◌, ◌-◌, ◌≤◌, ◌<◌, ◌≡◌, ◌≢◌, refl, sym, ap, ap₂, ◌∙◌, List, [], ◌∷◌, ◌++◌, append-nil, Option,
  some, none, ltb, ◌==◌, if◌then◌else◌, Bool, true, false, Bool-cases, inl, inr, arith, tabulate,
  tabulate-add, tabulate-congr,
}
use iocp_model_server.Ring.{Ring, get_use_size, get_free_size, direct_enqueue_size}
use iocp_model_server.Ring.Contents.{IsValid, index}
use iocp_model_server.Ring.Direct.{direct_enqueue_pieces}

-- `WSABUF`, with the place in the ring's array for the pointer.
pub record Piece : Type 0 where
  pub start : ℕ
  pub size : ℕ

-- `GetRearBufferPtr` and `GetBufferPtr`, each with a size.
unfoldable pub rear_piece : Ring → Piece
rear_piece r = record { start = r.rear; size = direct_enqueue_size r }

unfoldable pub wrapped_piece : Ring → Piece
wrapped_piece r = record { start = 0; size = get_free_size r - direct_enqueue_size r }

-- `RecvPost`
unfoldable pub recv_post : Ring → List Piece
recv_post r =
    if ltb (direct_enqueue_size r) (get_free_size r)
    then rear_piece r ∷ wrapped_piece r ∷ []
    else rear_piece r ∷ []

-- The lan server: `none` stands for no call of `WSARecv` at all.
unfoldable pub lan_recv_post : Ring → Option (List Piece)
lan_recv_post r =
    if get_free_size r == direct_enqueue_size r
    then some (rear_piece r ∷ [])
    else (if ltb (direct_enqueue_size r) (get_free_size r)
        then some (rear_piece r ∷ wrapped_piece r ∷ [])
        else none)

-- The places that pieces name, in the order in which they are filled.
pub places : List Piece → List ℕ
places [] = []
places (p ∷ ps) = tabulate p.size (λ i. p.start + i) ++ places ps

direct-free : {r : Ring} → IsValid r → direct_enqueue_size r ≤ get_free_size r
unfolding direct_enqueue_size get_free_size get_use_size
direct-free v = ground arith

places_one :
    {r : Ring} (n : ℕ)
    → IsValid r
    → n ≤ direct_enqueue_size r
    → tabulate n (λ i. r.rear + i) ≡ tabulate n (index r.capacity r.rear)
places_one {r} n v le =
    tabulate-congr n (λ i. r.rear + i) (index r.capacity r.rear)
      (λ i lt. ground (arith, direct_enqueue_pieces {r = r} i v, direct-free {r = r} v))

places_two :
    {r : Ring} (n : ℕ)
    → IsValid r
    → direct_enqueue_size r + n ≤ get_free_size r
    → tabulate n (λ i. 0 + i)
      ≡ tabulate n (λ i. index r.capacity r.rear (direct_enqueue_size r + i))
places_two {r} n v le =
    tabulate-congr n (λ i. 0 + i) (λ i. index r.capacity r.rear (direct_enqueue_size r + i))
      (λ i lt. ground (arith, direct_enqueue_pieces {r = r} (direct_enqueue_size r + i) v))

-- The pieces that a valid ring hands to `WSARecv` are its free places from the rear on, each one
-- once and in the order of the ring, and nothing else.
pub places-recv_post :
    {r : Ring}
    → IsValid r
    → places (recv_post r) ≡ tabulate (get_free_size r) (index r.capacity r.rear)
unfolding places recv_post rear_piece wrapped_piece
places-recv_post {r} v =
    let d = direct_enqueue_size r in
    let n = get_free_size r in
    let f = index r.capacity r.rear in
    elim (Bool-cases (ltb d n)) [
      | inl e ↦ rw e (
          ap₂ ◌++◌ (places_one {r = r} d v (omega arith)) (
            append-nil (tabulate (n - d) (λ i. 0 + i))
            ∙ places_two {r = r} (n - d) v (ground arith))
          ∙ sym (tabulate-add d (n - d) f)
          ∙ ap (λ k. tabulate k f) {x = d + (n - d)} {y = n} (ground arith))
      | inr e ↦
          let all : d ≡ n = ground (arith, direct-free {r = r} v) in
          rw e (
            append-nil (tabulate d (λ i. r.rear + i))
            ∙ places_one {r = r} d v (omega arith)
            ∙ ap (λ k. tabulate k f) all)
    ]

-- The lan server always posts a receive, and with the same pieces as the net server.
pub lan_recv_post-recv_post : {r : Ring} → IsValid r → lan_recv_post r ≡ some (recv_post r)
unfolding lan_recv_post recv_post direct_enqueue_size get_free_size get_use_size
lan_recv_post-recv_post v = ground arith
