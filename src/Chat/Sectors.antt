-- ===== src/Chat/Sectors.antt =====
-- ChatServer.cpp: the players of each sector stand in a vector, and a player knows its place there.
pub mod Vector
pub mod Placed
pub mod Removed
pub mod Leave
pub mod Added
pub mod Enter
pub mod Release
pub mod Accept
pub mod Unmoved
pub mod Timeout
pub mod Forget
use iocp_model_server.Base.{
  ℕ, ◌+◌, Bool, true, false, List, [], ◌∷◌, ◌++◌, Option, none, some, ◌==◌, if◌then◌else◌, ◌>>=◌,
  length, set,
}
use iocp_model_server.Chat.{Player, Chat, invalid_sector, set_sector}
use iocp_model_server.Chat.Sectors.Vector.{back, put_elem, pop_back}

-- What `ProcessRelease` and `PacketProcSectorMove` do to take a player out of its sector: the last
-- one of the vector takes its place.
unfoldable pub leave_sector : ℕ → Chat → Option Chat
leave_sector p s =
    let q = s.heap p in
    let sector = s.sectors q.sector_y q.sector_x in
    do
      last ← back sector
      moved ← put_elem sector q.sector_index last
      some (record s {
        heap = set s.heap last (record (s.heap last) { sector_index = q.sector_index });
        sectors = set_sector s.sectors q.sector_y q.sector_x (pop_back moved);
      })

-- What `PacketProcSectorMove` does to add a player at the end of a sector.
unfoldable pub enter_sector : ℕ → ℕ → ℕ → Chat → Chat
enter_sector p x y s =
    let sector = s.sectors y x in
    record s {
      heap =
          set s.heap p
            (record (s.heap p) { sector_index = length sector; sector_x = x; sector_y = y });
      sectors = set_sector s.sectors y x (sector ++ p ∷ []);
    }

unfoldable pub leave_if_placed : ℕ → Chat → Option Chat
leave_if_placed p s = if (s.heap p).sector_x == invalid_sector then some s else leave_sector p s

-- The part of `PacketProcSectorMove` that moves the player.
unfoldable pub change_sector : ℕ → ℕ → ℕ → Chat → Option Chat
change_sector p x y s = do left ← leave_if_placed p s; some (enter_sector p x y left)

-- `isLogin` leads to the account's entry being erased, whichever player it names.
unfoldable pub forget_account : ℕ → Chat → Chat
forget_account p s =
    if (s.heap p).is_login
    then record s { account_map = set s.account_map (s.heap p).account_no none }
    else s

unfoldable pub release_player : ℕ → ℕ → Chat → Option Chat
release_player session_id p s = do
  left ← leave_if_placed p s
  let kept = forget_account p left
  some (record kept { session_map = set kept.session_map session_id none })

-- `ProcessRelease`, with what `FindPlayer` gives back.
unfoldable pub release_found : ℕ → Option ℕ → Chat → Option Chat
release_found session_id none s = some s
release_found session_id (some p) s = release_player session_id p s

unfoldable pub process_release : ℕ → Chat → Option Chat
process_release session_id s = release_found session_id (s.session_map session_id) s
