-- ===== src/Chat/Packets.antt =====
-- ChatServer.cpp: what the contents thread does with a packet of a client, and with a job.
-- A response goes to `SendPacket` as the packet with its payload.
pub mod Total
pub mod Login
pub mod Safety
pub mod Message
pub mod Jobs
pub mod Heard
use iocp_model_server.Base.{
  ℕ, zero, suc, ◌+◌, ◌-◌, Bool, true, false, not, ◌||◌, List, [], ◌∷◌, ◌++◌, Option, none, some,
  ltb, ◌==◌, if◌then◌else◌, ◌>>=◌, length, drop, set,
}
use iocp_model_server.Packet.{Packet, get_data_size, get_data, put_data}
use iocp_model_server.Packet.Field.{ushort, uchar, int64, put, get, put_all}
use iocp_model_server.Chat.{Player, Chat, invalid_sector, process_accept, disconnect_player}
use iocp_model_server.Chat.Sectors.{change_sector, process_release}

-- What a handler gets from outside: the player and the packet that the pools hand out, the time,
-- and what its local variables hold before they are written.
pub record Env : Type 0 where
  pub player : ℕ
  pub response : Packet
  pub now : ℕ
  pub word : ℕ
  pub message : List ℕ

-- A variable after `>>`, which leaves it alone when the packet is short.
abbrev pub value : ℕ → Option ℕ → ℕ
value w none = w
value w (some n) = n

-- An array after `GetData`.
abbrev pub overlay : List ℕ → List ℕ → List ℕ
overlay out old = out ++ drop (length out) old

abbrev pub set_player : ℕ → Player → Chat → Chat
set_player p q s = record s { heap = set s.heap p q }

abbrev pub send_packet : ℕ → Packet → Chat → Chat
send_packet session_id packet s = record s { sent = s.sent ++ (session_id, packet) ∷ [] }

-- The three responses.
unfoldable pub mp_res_login : ℕ → ℕ → Packet → Option Packet
mp_res_login status account_no = put_all ((ushort, 2) ∷ (uchar, status) ∷ (int64, account_no) ∷ [])

unfoldable pub mp_res_sector_move : ℕ → ℕ → ℕ → Packet → Option Packet
mp_res_sector_move account_no x y =
    put_all ((ushort, 4) ∷ (int64, account_no) ∷ (ushort, x) ∷ (ushort, y) ∷ [])

unfoldable pub mp_res_message : ℕ → List ℕ → List ℕ → ℕ → List ℕ → Packet → Option Packet
mp_res_message account_no id nickname len message packet = do
  head ← put_all ((ushort, 6) ∷ (int64, account_no) ∷ []) packet
  (_, with_id) ← put_data head id 40
  (_, with_nickname) ← put_data with_id nickname 40
  sized ← put ushort len with_nickname
  (_, done) ← put_data sized message len
  some done

-- The end of `PacketProcLogin`: whoever had the account is disconnected, and it is the player's.
unfoldable pub cut_off_other : Option ℕ → Chat → Chat
cut_off_other none s = s
cut_off_other (some other) s = disconnect_player other s

unfoldable pub take_account : ℕ → ℕ → Chat → Chat
take_account p account_no s =
    let cut = cut_off_other (s.account_map account_no) s in
    record cut { account_map = set cut.account_map account_no (some p) }

-- `PacketProcLogin`
unfoldable pub packet_proc_login : Env → ℕ → Packet → Chat → Option Chat
packet_proc_login env p packet s =
    let q = s.heap p in
    if q.is_login || not (get_data_size packet == 152) then some (disconnect_player p s) else (do
      (got, after_account) ← get int64 packet
      let account_no = value env.word got
      response ← mp_res_login 1 account_no env.response
      (_, id, after_id) ← get_data after_account 40 40
      (_, nickname, after_nickname) ← get_data after_id 40 40
      (_, key, _) ← get_data after_nickname 64 64
      let logged_in = record q {
        id = overlay id q.id;
        nickname = overlay nickname q.nickname;
        session_key = overlay key q.session_key;
        account_no = account_no;
        is_login = true;
      }
      some (
          take_account p account_no (set_player p logged_in (send_packet q.session_id response s))))

-- `PacketProcSectorMove`; `__debugbreak` ends the program.
unfoldable pub packet_proc_sector_move : Env → ℕ → Packet → Chat → Option Chat
packet_proc_sector_move env p packet s =
    let q = s.heap p in
    if not q.is_login || not (get_data_size packet == 12) then some (disconnect_player p s) else (do
      (got, after_account) ← get int64 packet
      (got_x, after_x) ← get ushort after_account
      (got_y, _) ← get ushort after_x
      let x = value env.word got_x
      let y = value env.word got_y
      if not (value env.word got == q.account_no)
          then some (record s { stopped = true })
          else (if not (ltb x 50) || not (ltb y 50) then some (disconnect_player p s) else (do
            moved ← change_sector p x y s
            response ← mp_res_sector_move q.account_no x y env.response
            some (send_packet q.session_id response moved))))

-- The rows, or the columns, next to the `c`-th one, and itself.
abbrev pub range : ℕ → ℕ → List ℕ
range first zero = []
range first (suc n) = first ∷ range (first + 1) n

abbrev pub around : ℕ → List ℕ
around c =
    let begin = if c == 0 then 0 else c - 1 in
    let end = if c == 49 then c else c + 1 in range begin (end + 1 - begin)

unfoldable pub send_sector : Packet → List ℕ → Chat → Chat
send_sector packet [] s = s
send_sector packet (t ∷ ts) s = send_sector packet ts (send_packet (s.heap t).session_id packet s)

unfoldable pub send_row : Packet → ℕ → List ℕ → Chat → Chat
send_row packet y [] s = s
send_row packet y (x ∷ xs) s = send_row packet y xs (send_sector packet (s.sectors y x) s)

unfoldable pub send_rows : Packet → List ℕ → List ℕ → Chat → Chat
send_rows packet [] xs s = s
send_rows packet (y ∷ ys) xs s = send_rows packet ys xs (send_row packet y xs s)

-- `PacketProcMessage`
unfoldable pub packet_proc_message : Env → ℕ → Packet → Chat → Option Chat
packet_proc_message env p packet s =
    let q = s.heap p in
    if not q.is_login || ((q.sector_x == invalid_sector) || ltb (get_data_size packet) 10)
    then some (disconnect_player p s)
    else (do
      (got, after_account) ← get int64 packet
      (got_len, after_len) ← get ushort after_account
      let len = value env.word got_len
      if not (value env.word got == q.account_no)
          then some (record s { stopped = true })
          else (if ltb 1024 len || not (len == get_data_size after_len)
              then some (disconnect_player p s)
              else (do
                (_, text, _) ← get_data after_len 1024 len
                response ←
                    mp_res_message q.account_no q.id q.nickname len (overlay text env.message)
                      env.response
                some (send_rows response (around q.sector_y) (around q.sector_x) s))))

-- The switch of `PacketProc`.
unfoldable pub dispatch : Env → ℕ → ℕ → Packet → Chat → Option Chat
dispatch env type p packet s =
    if type == 1
    then packet_proc_login env p packet s
    else (if type == 3
        then packet_proc_sector_move env p packet s
        else (if type == 5
            then packet_proc_message env p packet s
            else (if type == 7 then some s else some (disconnect_player p s))))

-- `PacketProc` of a player that is not being disconnected.
unfoldable pub packet_live : Env → ℕ → Packet → Chat → Option Chat
packet_live env p packet s = do
  (got, after_type) ← get ushort packet
  dispatch env (value env.word got) p after_type
      (set_player p (record (s.heap p) { last_recv_time = env.now }) s)

-- `PacketProc`, with what `FindPlayer` gives back.
unfoldable pub packet_found : Env → Option ℕ → Packet → Chat → Option Chat
packet_found env none packet s = some s
packet_found env (some p) packet s =
    if (s.heap p).is_disconnecting then some s else packet_live env p packet s

unfoldable pub packet_proc : Env → ℕ → Packet → Chat → Option Chat
packet_proc env session_id packet s = packet_found env (s.session_map session_id) packet s

-- `HandleJob`
pub data Job : Type 0 where
  accept release : ℕ → Job
  recv : ℕ → Packet → Job

unfoldable pub handle_job : Env → Job → Chat → Option Chat
handle_job env (accept session_id) s = some (process_accept env.player env.now session_id s)
handle_job env (release session_id) s = process_release session_id s
handle_job env (recv session_id packet) s = packet_proc env session_id packet s
