-- ===== src/Chat/Tests.antt =====
-- The chat server on concrete jobs, and its properties in concrete states.
use iocp_model_server.Base.{
  ◌≤◌, set_all, ℕ, ◌≡◌, refl, true, false, [], ◌∷◌, replicate, length-replicate, arith, ap, ◌∙◌,
  set, set_here,
}
use iocp_model_server.Packet.{Packet, create_default}
use iocp_model_server.Packet.Valid
use iocp_model_server.Chat.{
  Player, Chat, init, process_accept, invalid_sector, check_timeout, disconnect_player,
}
use iocp_model_server.Chat.Sectors.{change_sector, process_release}
use iocp_model_server.Chat.Sectors.Placed.{Live}
use iocp_model_server.Chat.Sectors.Enter.{Changed, change_sector-Changed}
use iocp_model_server.Chat.Sectors.Release.{IsValid, Safe, process_release-Safe}
use iocp_model_server.Chat.Sectors.Accept.{process_accept-IsValid}
use iocp_model_server.Chat.Sectors.Timeout.{IsTimely, IsDistinct, TimedOut, check_timeout-TimedOut}
use iocp_model_server.Chat.Sectors.Forget.{Lost, process_release-Lost}
use iocp_model_server.Chat.Packets.{Env, take_account, cut_off_other, set_player}
use iocp_model_server.Chat.Packets.Login.{set-IsValid_login, take_account-IsValid}
use iocp_model_server.Chat.Reach.{Reach, start, timeout, initial, Reach-IsValid}

abbrev blank : Player
blank = record {
  session_id = 0;
  account_no = 0;
  id = replicate 40 0;
  nickname = replicate 40 0;
  session_key = replicate 64 0;
  sector_x = invalid_sector;
  sector_y = invalid_sector;
  sector_index = 0;
  last_recv_time = 0;
  is_login = false;
  is_disconnecting = false;
}

abbrev empty : Chat
empty = initial (λ r. blank)

empty-Reach : Reach empty
empty-Reach =
    start (λ r. blank) (λ r. length-replicate {A = ℕ} 40 0) (λ r. length-replicate {A = ℕ} 40 0)

empty-IsValid : IsValid empty
empty-IsValid = Reach-IsValid empty-Reach

-- Sessions 11 and 12 of players 1 and 2.
one : Chat
one = process_accept 1 500 11 empty

one-IsValid : IsValid one
unfolding one
one-IsValid = process_accept-IsValid 1 500 11 empty-IsValid (λ k e. absurd (ground arith)) refl

process_accept-IsValid_example : IsValid (process_accept 1 500 11 empty)
process_accept-IsValid_example =
    process_accept-IsValid 1 500 11 empty-IsValid (λ k e. absurd (ground arith)) refl

one-Live : Live one 1
unfolding one process_accept set init
one-Live = refl

change_sector-Changed_example : Changed 1 3 49 one (change_sector 1 3 49 one)
change_sector-Changed_example =
    change_sector-Changed 1 3 49 one-IsValid.is_placed one-Live (omega arith) (omega arith)

process_release-Safe_example : Safe (process_release 11 one)
process_release-Safe_example = process_release-Safe 11 one-IsValid

abbrev env : Env
env = record {
  player = 2;
  response = create_default 0;
  now = 600;
  word = 0;
  message = replicate 1024 0;
}

-- A request to move to sector (3, 49).
abbrev request : Packet
request = record {
  buf = 0 ∷ 0 ∷ 0 ∷ 0 ∷ 0 ∷ 3 ∷ 0 ∷ 7 ∷ 0 ∷ 0 ∷ 0 ∷ 0 ∷ 0 ∷ 0 ∷ 0 ∷ 3 ∷ 0 ∷ 49 ∷ 0 ∷ [];
  buffer_size = 19;
  read_pos = 5;
  write_pos = 19;
  header_size = 0;
  encoded = false;
  ref_count = 2;
}

Reach-IsValid_example : IsValid (check_timeout 90000 (11 ∷ []) empty)
Reach-IsValid_example = Reach-IsValid (timeout 90000 (11 ∷ []) empty-Reach)

-- A session from which nothing has come since 500, at 90000.
one-IsTimely : IsTimely 90000 one
unfolding one process_accept init
one-IsTimely = record {
  sessions = one-IsValid.is_placed.sessions;
  times = λ k p e.
      set_all (λ j q. q.last_recv_time ≤ 90000) empty.heap 1 (init 11 500 blank) (omega arith)
        (λ j differ. omega arith) p;
  ticks = omega arith;
}

check_timeout-TimedOut_example : TimedOut 90000 (11 ∷ []) one (check_timeout 90000 (11 ∷ []) one)
unfolding IsDistinct
check_timeout-TimedOut_example =
    check_timeout-TimedOut 90000 (11 ∷ []) one-IsTimely (λ j e. elim e [ ], tt)

two : Chat
two = process_accept 2 600 12 one

two-IsValid : IsValid two
unfolding two one process_accept set
two-IsValid = process_accept-IsValid 2 600 12 one-IsValid (λ k e. absurd (ground arith)) refl

-- `p` logs in to account 7.
abbrev log_in : ℕ → Chat → Chat
log_in p s = set_player p (record (s.heap p) { account_no = 7; is_login = true }) s

log_in-IsValid :
    {s : Chat} (p : ℕ)
    → IsValid s
    → (s.heap p).is_login ≡ false
    → Live s p
    → IsValid (take_account p 7 (log_in p s))
log_in-IsValid {s} p v off live =
    let here = set_here s.heap p (record (s.heap p) { account_no = 7; is_login = true }) in
    take_account-IsValid p 7
      (set-IsValid_login p (record (s.heap p) { account_no = 7; is_login = true }) v off
        (record { session_id = refl; sector_x = refl; sector_y = refl; sector_index = refl }) refl
        refl refl refl refl refl)
      (ap (λ z. s.session_map z.session_id) here ∙ live) (ap (λ z. z.is_login) here)
      (ap (λ z. z.account_no) here)

first : Chat
first = take_account 1 7 (log_in 1 two)

second : Chat
second = take_account 2 7 (log_in 2 first)

first-IsValid : IsValid first
unfolding first two one process_accept set init
first-IsValid = log_in-IsValid 1 two-IsValid refl refl

second-IsValid : IsValid second
unfolding second first two one process_accept set init take_account cut_off_other disconnect_player
second-IsValid = log_in-IsValid 2 first-IsValid refl refl

process_release-Lost_example : Lost 7 2 (process_release 11 second)
unfolding second first two one process_accept set init take_account cut_off_other disconnect_player
process_release-Lost_example =
    process_release-Lost 11 1 2 second-IsValid refl refl refl (omega arith)
