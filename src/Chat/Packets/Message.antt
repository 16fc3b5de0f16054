-- ===== src/Chat/Packets/Message.antt =====
-- `PacketProcMessage` does not fault on any valid packet, and leaves the state valid.
use iocp_model_server.Base.{
  ℕ, ◌≤◌, ◌≡◌, refl, ◌∙◌, true, false, List, [], ◌∷◌, some, ltb, ◌==◌, arith, length, Bool-cases,
  inl, inr,
}
use iocp_model_server.Packet.{Packet, get_data_size}
use iocp_model_server.Packet.Valid
use iocp_model_server.Packet.Field.{ushort, int64}
use iocp_model_server.Chat.{Chat, invalid_sector}
use iocp_model_server.Chat.Sectors.Placed.{Live}
use iocp_model_server.Chat.Sectors.Release.{IsValid, Safe}
use iocp_model_server.Chat.Packets.{
  Env, value, overlay, mp_res_message, packet_proc_message, around, send_sector, send_row,
  send_rows,
}
use iocp_model_server.Chat.Packets.Total.{
  get-total, put-total, put_all-total, get_data-total, put_data-total,
}
use iocp_model_server.Chat.Packets.Safety.{
  IsReady, length-overlay, disconnected, sent-IsValid, stopped,
}

mp_res_message-total :
    (account_no : ℕ) (id nickname : List ℕ) (len : ℕ) (message : List ℕ) {packet : Packet}
    → Valid.IsValid packet
    → length id ≡ 40
    → length nickname ≡ 40
    → len ≤ length message
    → (q : Packet) × (mp_res_message account_no id nickname len message packet ≡ some q)
unfolding mp_res_message
mp_res_message-total account_no id nickname len message w hid hnick h =
    let (a, e1, w1) = put_all-total ((ushort, 6) ∷ (int64, account_no) ∷ []) w in
    let (_, b, e2, w2) = put_data-total id 40 w1 (omega arith) in
    let (_, c, e3, w3) = put_data-total nickname 40 w2 (omega arith) in
    let (d, e4, w4) = put-total ushort len w3 in
    let (_, e, e5, _) = put_data-total message len w4 h in (e, rw (e1, e2, e3, e4, e5) refl)

send_sector-IsValid :
    (packet : Packet) (ts : List ℕ) {s : Chat} → IsValid s → IsValid (send_sector packet ts s)
unfolding send_sector
send_sector-IsValid packet [] {s} v = v
send_sector-IsValid packet (t ∷ ts) {s} v =
    send_sector-IsValid packet ts (sent-IsValid (s.heap t).session_id packet v)

send_row-IsValid :
    (packet : Packet) (y : ℕ) (xs : List ℕ) {s : Chat}
    → IsValid s
    → IsValid (send_row packet y xs s)
unfolding send_row
send_row-IsValid packet y [] {s} v = v
send_row-IsValid packet y (x ∷ xs) {s} v =
    send_row-IsValid packet y xs (send_sector-IsValid packet (s.sectors y x) v)

send_rows-IsValid :
    (packet : Packet) (ys xs : List ℕ) {s : Chat} → IsValid s → IsValid (send_rows packet ys xs s)
unfolding send_rows
send_rows-IsValid packet [] xs {s} v = v
send_rows-IsValid packet (y ∷ ys) xs {s} v =
    send_rows-IsValid packet ys xs (send_row-IsValid packet y xs v)

module _ {env : Env} {s : Chat} (p : ℕ) {packet : Packet} (ready : IsReady env) (v : IsValid s)
    (live : Live s p) (w : Valid.IsValid packet) where
  message_read :
      (s.heap p).is_login ≡ true
      → ((s.heap p).sector_x == invalid_sector) ≡ false
      → ltb (get_data_size packet) 10 ≡ false
      → Safe (packet_proc_message env p packet s)
  unfolding packet_proc_message
  message_read on inside size =
      let q = s.heap p in
      let (got, p1, e1, w1) = get-total int64 w in
      let (got_len, p2, e2, w2) = get-total ushort w1 in
      let len = value env.word got_len in
      elim (Bool-cases (value env.word got == q.account_no)) [
        | inr bad ↦ rw (on, inside, size, e1, e2, bad) (stopped p ready v live w)
        | inl same ↦ elim (Bool-cases (ltb 1024 len)) [
          | inl long ↦ rw (on, inside, size, e1, e2, same, long) (disconnected p v)
          | inr fits ↦ elim (Bool-cases (len == get_data_size p2)) [
            | inr other ↦ rw (on, inside, size, e1, e2, same, fits, other) (disconnected p v)
            | inl all ↦
                let (_, text, p3, e3, _, l3) = get_data-total len 1024 w2 (ground arith) in
                let message = overlay text env.message in
                let room : length message ≡ 1024 =
                  length-overlay text env.message (ground (arith, ready.message)) ∙ ready.message in
                let (res, e4) =
                  mp_res_message-total q.account_no q.id q.nickname len message ready.response
                    (v.has_names.id p) (v.has_names.nickname p) (ground arith) in
                let valid : IsValid (send_rows res (around q.sector_y) (around q.sector_x) s) =
                  send_rows-IsValid res (around q.sector_y) (around q.sector_x) v in
                rw (on, inside, size, e1, e2, same, fits, all, e3, e4)
                  (record {
                    state = send_rows res (around q.sector_y) (around q.sector_x) s;
                    result = refl;
                    is_valid = valid;
                  })
          ]
        ]
      ]

  pub message-Safe : Safe (packet_proc_message env p packet s)
  unfolding packet_proc_message
  message-Safe = elim (Bool-cases (s.heap p).is_login) [
    | inr off ↦ rw off (disconnected p v)
    | inl on ↦ elim (Bool-cases ((s.heap p).sector_x == invalid_sector)) [
      | inl out ↦ rw (on, out) (disconnected p v)
      | inr inside ↦ elim (Bool-cases (ltb (get_data_size packet) 10)) [
        | inl few ↦ rw (on, inside, few) (disconnected p v)
        | inr size ↦ message_read on inside size
      ]
    ]
  ]
