-- ===== src/Chat/Packets/Safety.antt =====
-- `PacketProcLogin` and `PacketProcSectorMove` do not fault on any valid packet, and leave the state valid.
use iocp_model_server.Base.{
  ℕ, ◌<◌, ◌≤◌, ◌≡◌, refl, ◌∙◌, ap, true, false, List, [], ◌∷◌, some, ltb, ◌==◌, arith, length, drop,
  length-drop, length-append, Bool-cases, inl, inr, ◌>>=◌, set_here,
}
use iocp_model_server.Packet.{Packet, get_data_size}
use iocp_model_server.Packet.Valid
use iocp_model_server.Packet.Field.{ushort, uchar, int64}
use iocp_model_server.Chat.{Chat, disconnect_player}
use iocp_model_server.Chat.Sectors.{change_sector}
use iocp_model_server.Chat.Sectors.Placed.{Live}
use iocp_model_server.Chat.Sectors.Enter.{change_sector-Changed}
use iocp_model_server.Chat.Sectors.Release.{IsValid, Safe, HasAccounts-Kept, HasNames-Kept}
use iocp_model_server.Chat.Sectors.Unmoved.{disconnect_player-IsValid}
use iocp_model_server.Chat.Packets.{
  Env, value, overlay, set_player, send_packet, mp_res_login, mp_res_sector_move, take_account,
  packet_proc_login, packet_proc_sector_move,
}
use iocp_model_server.Chat.Packets.Total.{get-total, put_all-total, get_data-total}
use iocp_model_server.Chat.Packets.Login.{set-IsValid_login, take_account-IsValid}

-- What the pools and the stack give a handler: a valid packet, and the array of 512 characters.
pub record IsReady (env : Env) : Type 0 where
  pub response : Valid.IsValid env.response
  pub message : length env.message ≡ 1024

pub length-overlay :
    (out old : List ℕ) → length out ≤ length old → length (overlay out old) ≡ length old
length-overlay out old h =
    omega (arith, length-append out (drop (length out) old), length-drop (length out) old)

pub disconnected : {s : Chat} (p : ℕ) → IsValid s → Safe (some (disconnect_player p s))
disconnected {s} p v = record {
  state = disconnect_player p s;
  result = refl;
  is_valid = disconnect_player-IsValid p v;
}

pub sent-IsValid :
    {s : Chat} (id : ℕ) (packet : Packet) → IsValid s → IsValid (send_packet id packet s)
sent-IsValid id packet v = record {
  is_placed = record {
    sessions = v.is_placed.sessions;
    placed = v.is_placed.placed;
    listed = v.is_placed.listed;
  };
  has_accounts = record {
    live = v.has_accounts.live;
    login = v.has_accounts.login;
    account_no = v.has_accounts.account_no;
  };
  has_names = record { id = v.has_names.id; nickname = v.has_names.nickname };
}

module _ {env : Env} {s : Chat} (p : ℕ) {packet : Packet} (ready : IsReady env) (v : IsValid s)
    (live : Live s p) (w : Valid.IsValid packet) where
  login_read :
      (s.heap p).is_login ≡ false
      → (get_data_size packet == 152) ≡ true
      → Safe (packet_proc_login env p packet s)
  unfolding packet_proc_login mp_res_login
  login_read off size =
      let q = s.heap p in
      let (got, p1, e1, w1) = get-total int64 w in
      let account_no = value env.word got in
      let (res, e2, _) =
        put_all-total ((ushort, 2) ∷ (uchar, 1) ∷ (int64, account_no) ∷ []) ready.response in
      let (_, id, p2, e3, w2, l2) = get_data-total 40 40 w1 (omega arith) in
      let (_, nickname, p3, e4, w3, l3) = get_data-total 40 40 w2 (omega arith) in
      let (_, key, p4, e5, w4, _) = get_data-total 64 64 w3 (omega arith) in
      let logged_in = record q {
        id = overlay id q.id;
        nickname = overlay nickname q.nickname;
        session_key = overlay key q.session_key;
        account_no = account_no;
        is_login = true;
      } in
      let t = set_player p logged_in (send_packet q.session_id res s) in
      let here : t.heap p ≡ logged_in = set_here s.heap p logged_in in
      let valid : IsValid t =
        set-IsValid_login p logged_in v off
          (record { session_id = refl; sector_x = refl; sector_y = refl; sector_index = refl })
          (length-overlay id q.id (omega (arith, v.has_names.id p)))
          (length-overlay nickname q.nickname (omega (arith, v.has_names.nickname p))) refl refl
          refl refl in
      record {
        state = take_account p account_no t;
        result = rw (off, size, e1, e2, e3, e4, e5) refl;
        is_valid =
            take_account-IsValid p account_no valid
              (ap (λ z. s.session_map z.session_id) here ∙ live) (ap (λ z. z.is_login) here)
              (ap (λ z. z.account_no) here);
      }

  pub login-Safe : Safe (packet_proc_login env p packet s)
  unfolding packet_proc_login
  login-Safe = elim (Bool-cases (s.heap p).is_login) [
    | inl on ↦ rw on (disconnected p v)
    | inr off ↦ elim (Bool-cases (get_data_size packet == 152)) [
      | inl size ↦ login_read off size
      | inr size ↦ rw (off, size) (disconnected p v)
    ]
  ]

  moved_to :
      (x y : ℕ) (res : Packet)
      → x < 50
      → y < 50
      → Safe (do moved ← change_sector p x y s; some (send_packet (s.heap p).session_id res moved))
  moved_to x y res hx hy =
      let c = change_sector-Changed p x y v.is_placed live hx hy in
      let t = c.state in
      let valid : IsValid t = record {
        is_placed = c.is_placed;
        has_accounts = HasAccounts-Kept v.has_accounts c.kept;
        has_names = HasNames-Kept v.has_names c.kept;
      } in
      record {
        state = send_packet (s.heap p).session_id res t;
        result = rw c.result refl;
        is_valid = sent-IsValid (s.heap p).session_id res valid;
      }

  stopped-IsValid : IsValid (record s { stopped = true })
  stopped-IsValid = record {
    is_placed = record {
      sessions = v.is_placed.sessions;
      placed = v.is_placed.placed;
      listed = v.is_placed.listed;
    };
    has_accounts = record {
      live = v.has_accounts.live;
      login = v.has_accounts.login;
      account_no = v.has_accounts.account_no;
    };
    has_names = record { id = v.has_names.id; nickname = v.has_names.nickname };
  }

  pub stopped : Safe (some (record s { stopped = true }))
  stopped = record {
    state = record s { stopped = true };
    result = refl;
    is_valid = stopped-IsValid;
  }

  sector_move_read :
      (s.heap p).is_login ≡ true
      → (get_data_size packet == 12) ≡ true
      → Safe (packet_proc_sector_move env p packet s)
  unfolding packet_proc_sector_move mp_res_sector_move
  sector_move_read on size =
      let q = s.heap p in
      let (got, p1, e1, w1) = get-total int64 w in
      let (got_x, p2, e2, w2) = get-total ushort w1 in
      let (got_y, p3, e3, _) = get-total ushort w2 in
      let x = value env.word got_x in
      let y = value env.word got_y in
      let (res, e4, _) =
        put_all-total ((ushort, 4) ∷ (int64, q.account_no) ∷ (ushort, x) ∷ (ushort, y) ∷ [])
          ready.response in
      elim (Bool-cases (value env.word got == q.account_no)) [
        | inr bad ↦ rw (on, size, e1, e2, e3, bad) stopped
        | inl same ↦ elim (Bool-cases (ltb x 50)) [
          | inr far ↦ rw (on, size, e1, e2, e3, same, far) (disconnected p v)
          | inl hx ↦ elim (Bool-cases (ltb y 50)) [
            | inr far ↦ rw (on, size, e1, e2, e3, same, hx, far) (disconnected p v)
            | inl hy ↦
                rw (on, size, e1, e2, e3, same, hx, hy, e4)
                  (moved_to x y res (ground arith) (ground arith))
          ]
        ]
      ]

  pub sector_move-Safe : Safe (packet_proc_sector_move env p packet s)
  unfolding packet_proc_sector_move
  sector_move-Safe = elim (Bool-cases (s.heap p).is_login) [
    | inr off ↦ rw off (disconnected p v)
    | inl on ↦ elim (Bool-cases (get_data_size packet == 12)) [
      | inl size ↦ sector_move_read on size
      | inr size ↦ rw (on, size) (disconnected p v)
    ]
  ]
