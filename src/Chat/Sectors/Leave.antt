-- ===== src/Chat/Sectors/Leave.antt =====
-- Taking a player out of its sector.
use iocp_model_server.Base.{
  ℕ, ◌-◌, ◌+◌, ◌≡◌, ◌≢◌, refl, ◌∙◌, ap, ap₂, List, Option, none, some, ltb, ◌==◌, arith,
  if◌then◌else◌, length, set_same,
}
use iocp_model_server.Chat.{Chat, invalid_sector}
use iocp_model_server.Chat.Sectors.{leave_sector}
use iocp_model_server.Chat.Sectors.Vector.{
  get_elem?, get_elem?-lt, lt-get_elem?, get_elem?-take, put_elem, put_elem_lem, pop_back, back,
}
use iocp_model_server.Chat.Sectors.Placed.{Live, IsPlaced, SamePlayer}
use iocp_model_server.Chat.Sectors.Removed.{after, moved, moved-IsPlaced}

-- What leaving a sector changes for nobody.
pub record Kept (s s' : Chat) : Type 0 where
  pub session_map : s'.session_map ≡ s.session_map
  pub account_map : s'.account_map ≡ s.account_map
  pub players : (r : ℕ) → SamePlayer (s'.heap r) (s.heap r)

pub record Left (p : ℕ) (s : Chat) (o : Option Chat) : Type 0 where
  pub state : Chat
  pub result : o ≡ some state
  pub is_placed : IsPlaced (some p) state
  pub kept : Kept s state

leave_sector-some :
    (s : Chat) (p l : ℕ) (ys : List ℕ)
    → let q = s.heap p in
      let sector = s.sectors q.sector_y q.sector_x in
      back sector ≡ some l
      → put_elem sector q.sector_index l ≡ some ys
      → leave_sector p s ≡ some (after s q.sector_y q.sector_x l q.sector_index (pop_back ys))
unfolding leave_sector
leave_sector-some s p l ys e e' = rw (e, e') refl

removed_at :
    (xs ys : List ℕ) (i l n : ℕ)
    → length xs ≡ n + 1
    → length ys ≡ length xs
    → ((k : ℕ) → get_elem? ys k ≡ (if k == i then some l else get_elem? xs k))
    → (k : ℕ)
    → get_elem? (pop_back ys) k
      ≡ (if ltb k n then (if k == i then some l else get_elem? xs k) else none)
removed_at xs ys i l n size same at k =
    let m : length ys - 1 ≡ n = omega arith in
    get_elem?-take (length ys - 1) ys k ∙ ap₂ (λ a b. if ltb k a then b else none) m (at k)

leave_sector-Left_found :
    {s : Chat} (p n l : ℕ) (ys : List ℕ)
    → IsPlaced none s
    → let q = s.heap p in
      let sector = s.sectors q.sector_y q.sector_x in
      get_elem? sector q.sector_index ≡ some p
      → length sector ≡ n + 1
      → get_elem? sector n ≡ some l
      → put_elem sector q.sector_index l ≡ some ys
      → length ys ≡ length sector
      → ((k : ℕ) → get_elem? ys k ≡ (if k == q.sector_index then some l else get_elem? sector k))
      → Left p s (leave_sector p s)
unfolding moved
leave_sector-Left_found {s} p n l ys w at_p size at_l put same at =
    let q = s.heap p in
    let sector = s.sectors q.sector_y q.sector_x in
    let last : back sector ≡ some l = ap (get_elem? sector) (omega arith) ∙ at_l in
    record {
      state = after s q.sector_y q.sector_x l q.sector_index (pop_back ys);
      result = leave_sector-some s p l ys last put;
      is_placed =
          moved-IsPlaced w q.sector_y q.sector_x q.sector_index n p l (pop_back ys) at_p at_l size
            (removed_at sector ys q.sector_index l n size same at);
      kept = record {
        session_map = refl;
        account_map = refl;
        players = λ r. record {
          session_id = set_same (λ q. q.session_id) s.heap l _ refl r;
          account_no = set_same (λ q. q.account_no) s.heap l _ refl r;
          is_login = set_same (λ q. q.is_login) s.heap l _ refl r;
          id = set_same (λ q. q.id) s.heap l _ refl r;
          nickname = set_same (λ q. q.nickname) s.heap l _ refl r;
        };
      };
    }

-- A player that stands in a sector can leave it.
pub leave_sector-Left :
    {s : Chat} (p : ℕ)
    → IsPlaced none s
    → Live s p
    → (s.heap p).sector_x ≢ invalid_sector
    → Left p s (leave_sector p s)
leave_sector-Left {s} p w live inside =
    let q = s.heap p in
    let sector = s.sectors q.sector_y q.sector_x in
    let at_p = w.placed p live inside (λ e. absurd (ground arith)) in
    let here = get_elem?-lt sector q.sector_index at_p in
    let (l, at_l) = lt-get_elem? sector (length sector - 1) (omega arith) in
    let (ys, put, same, at) = put_elem_lem sector q.sector_index l here in
    leave_sector-Left_found p (length sector - 1) l ys w at_p (omega arith) at_l put same at
