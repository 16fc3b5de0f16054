-- ===== src/Chat/Packets/Jobs.antt =====
-- Any job that meets what the net server and the pools promise is done without a fault.
use iocp_model_server.Base.{
  ℕ, ◌≡◌, ◌≢◌, refl, ◌∙◌, ap, Option, none, some, ◌==◌, Bool-cases, inl, inr, set_here,
}
use iocp_model_server.Packet.{Packet}
use iocp_model_server.Packet.Valid
use iocp_model_server.Packet.Field.{ushort}
use iocp_model_server.Chat.{Chat}
use iocp_model_server.Chat.Sectors.Placed.{Live}
use iocp_model_server.Chat.Sectors.Release.{IsValid, Safe}
use iocp_model_server.Chat.Sectors.Unmoved.{set-IsValid}
use iocp_model_server.Chat.Packets.{
  Env, value, set_player, dispatch, packet_found, packet_live, packet_proc,
}
use iocp_model_server.Chat.Packets.Total.{get-total}
use iocp_model_server.Chat.{process_accept}
use iocp_model_server.Chat.Sectors.Release.{process_release-Safe}
use iocp_model_server.Chat.Sectors.Accept.{process_accept-IsValid}
use iocp_model_server.Chat.Packets.{Job, accept, release, recv, handle_job}
use iocp_model_server.Chat.Packets.Safety.{IsReady, disconnected, login-Safe, sector_move-Safe}
use iocp_model_server.Chat.Packets.Message.{message-Safe}

dispatch-Safe :
    {env : Env} {s : Chat} (type p : ℕ) {packet : Packet}
    → IsReady env
    → IsValid s
    → Live s p
    → Valid.IsValid packet
    → Safe (dispatch env type p packet s)
unfolding dispatch
dispatch-Safe {s = s} type p ready v live w = elim (Bool-cases (type == 1)) [
  | inl e ↦ rw e (login-Safe p ready v live w)
  | inr e1 ↦ elim (Bool-cases (type == 3)) [
    | inl e ↦ rw (e1, e) (sector_move-Safe p ready v live w)
    | inr e3 ↦ elim (Bool-cases (type == 5)) [
      | inl e ↦ rw (e1, e3, e) (message-Safe p ready v live w)
      | inr e5 ↦ elim (Bool-cases (type == 7)) [
        | inl e ↦ rw (e1, e3, e5, e) (record { state = s; result = refl; is_valid = v })
        | inr e ↦ rw (e1, e3, e5, e) (disconnected p v)
      ]
    ]
  ]
]

packet_live-Safe :
    {env : Env} {s : Chat} (p : ℕ) {packet : Packet}
    → IsReady env
    → IsValid s
    → Valid.IsValid packet
    → Live s p
    → Safe (packet_live env p packet s)
unfolding packet_live
packet_live-Safe {env} {s} p ready v w live =
    let q = record (s.heap p) { last_recv_time = env.now } in
    let (got, after_type, read, w') = get-total ushort w in
    let t = set_player p q s in
    let valid : IsValid t =
      set-IsValid p q v
        (record { session_id = refl; sector_x = refl; sector_y = refl; sector_index = refl }) refl
        refl refl refl refl refl refl refl in
    let live' : Live t p = ap (λ z. s.session_map z.session_id) (set_here s.heap p q) ∙ live in
    rw read (dispatch-Safe (value env.word got) p ready valid live' w')

packet_found-Safe :
    {env : Env} {s : Chat} (id : ℕ) (o : Option ℕ) {packet : Packet}
    → IsReady env
    → IsValid s
    → Valid.IsValid packet
    → s.session_map id ≡ o
    → Safe (packet_found env o packet s)
unfolding packet_found
packet_found-Safe {s = s} id none ready v w e = record { state = s; result = refl; is_valid = v }
packet_found-Safe {env} {s} id (some p) ready v w at_p =
    elim (Bool-cases (s.heap p).is_disconnecting) [
      | inl e ↦ rw e (record { state = s; result = refl; is_valid = v })
      | inr e ↦
          rw e (
            packet_live-Safe p ready v w (ap s.session_map (v.is_placed.sessions id p at_p) ∙ at_p))
    ]

-- What holds of a job when the contents thread gets it: the pool hands out a player that no session
-- has, sessions are accepted under new numbers, and a received packet is valid.
abbrev pub Promised : Env → Job → Chat → Type 0
Promised env (accept id) s =
    ((k : ℕ) → s.session_map k ≢ some env.player) × (s.session_map id ≡ none)
Promised env (release id) s = Unit
Promised env (recv id packet) s = Valid.IsValid packet

pub handle_job-Safe :
    {s : Chat} (env : Env) (job : Job)
    → IsValid s
    → IsReady env
    → Promised env job s
    → Safe (handle_job env job s)
unfolding handle_job packet_proc
handle_job-Safe {s} env (accept id) v ready (fresh, unused) = record {
  state = process_accept env.player env.now id s;
  result = refl;
  is_valid = process_accept-IsValid env.player env.now id v fresh unused;
}
handle_job-Safe env (release id) v ready h = process_release-Safe id v
handle_job-Safe {s} env (recv id packet) v ready h =
    packet_found-Safe id (s.session_map id) ready v h refl
