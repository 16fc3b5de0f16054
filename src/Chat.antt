-- ===== src/Chat.antt =====
-- ChatServer_SingleThread: ChatServer.h, ChatServer.cpp and Player.h. The contents thread alone
-- runs what is modelled here, so a job is a function on the state.
-- A `Player*` is an address; `none` is a fault, an access outside an array or a vector.
-- Not modelled: the threads, the events and the job queue between them, and the packets' reference
-- counts. What the pools hand out, the time and what a variable holds that is not written yet are
-- arguments.
pub mod Sectors
pub mod Packets
pub mod Reach
mod Tests
use iocp_model_server.Base.{
  ℕ, ◌+◌, ◌-◌, ◌%◌, ◌^◌, Bool, true, false, List, [], ◌∷◌, ◌++◌, Option, none, some, ltb, ◌==◌,
  if◌then◌else◌, drop, set,
}
use iocp_model_server.Packet.{Packet}

-- `Player`; the strings are bytes.
pub record Player : Type 0 where
  pub session_id : ℕ
  pub account_no : ℕ
  pub id : List ℕ
  pub nickname : List ℕ
  pub session_key : List ℕ
  pub sector_x : ℕ
  pub sector_y : ℕ
  pub sector_index : ℕ
  pub last_recv_time : ℕ
  pub is_login : Bool
  pub is_disconnecting : Bool

abbrev pub invalid_sector : ℕ
invalid_sector = 0xffff

-- `Player::Init`: only the first character of the two names is reset.
unfoldable pub init : ℕ → ℕ → Player → Player
init session_id now p = record p {
  session_id = session_id;
  account_no = 0;
  id = 0 ∷ 0 ∷ drop 2 p.id;
  nickname = 0 ∷ 0 ∷ drop 2 p.nickname;
  sector_x = invalid_sector;
  sector_y = invalid_sector;
  sector_index = 0;
  last_recv_time = now;
  is_login = false;
  is_disconnecting = false;
}

-- The fields of `ChatServer`, the players in memory, and what went to the net server: the packets
-- of `SendPacket` and the sessions of `Disconnect`, in order. `stopped` is `__debugbreak`.
pub record Chat : Type 0 where
  pub heap : ℕ → Player
  pub session_map : ℕ → Option ℕ
  pub account_map : ℕ → Option ℕ
  pub sectors : ℕ → ℕ → List ℕ
  pub sent : List (ℕ × Packet)
  pub disconnects : List ℕ
  pub stopped : Bool

-- `operator[]` of the array of sectors; that of a map is `set`.
unfoldable pub set_sector : (ℕ → ℕ → List ℕ) → ℕ → ℕ → List ℕ → ℕ → ℕ → List ℕ
set_sector f y x v j i = if j == y then (if i == x then v else f j i) else f j i

-- `ProcessAccept`, with the player that the pool hands out.
unfoldable pub process_accept : ℕ → ℕ → ℕ → Chat → Chat
unfolding set init
process_accept p now session_id s = record s {
  heap = set s.heap p (init session_id now (s.heap p));
  session_map = set s.session_map session_id (some p);
}

-- `DisconnectPlayer`
unfoldable pub disconnect_player : ℕ → Chat → Chat
disconnect_player p s = if (s.heap p).is_disconnecting then s else record s {
  heap = set s.heap p (record (s.heap p) { is_disconnecting = true });
  disconnects = s.disconnects ++ (s.heap p).session_id ∷ [];
}

-- `now - lastRecvTime >= 40000` on 64 bits.
abbrev pub is_late : ℕ → Player → Bool
is_late now q = if ltb ((now + 2 ^ 64 - q.last_recv_time) % 2 ^ 64) 40000 then false else true

unfoldable pub check_player : ℕ → Option ℕ → Chat → Chat
check_player now none s = s
check_player now (some p) s = if is_late now (s.heap p) then disconnect_player p s else s

-- `CheckTimeout`; the map hands out its keys in an order of its own.
unfoldable pub check_timeout : ℕ → List ℕ → Chat → Chat
check_timeout now [] s = s
check_timeout now (k ∷ ks) s = check_timeout now ks (check_player now (s.session_map k) s)
