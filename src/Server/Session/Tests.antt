-- ===== src/Server/Session/Tests.antt =====
-- Sessions that are accepted, used and released, one step after the other.
use iocp_model_server.Base.{◌-◌, ◌≡◌, refl, arith}
use iocp_model_server.Server.Session.{
  Slot, active, start, acquire, return_session, release_session, take_place, open_session, Reach,
  initially, later, takes, opens, acquires,
}
use iocp_model_server.Server.Session.Counts.{IsCounted, Reach-IsCounted, Reach-users}

open_slot : Slot
open_slot = open_session (take_place start)

open_slot-Reach : Reach open_slot
unfolding open_slot take_place open_session
open_slot-Reach = later (later initially (takes refl (omega arith))) (opens refl)

-- Someone asks for the session before the accept thread is done with it.
visited-Reach : Reach (acquire open_slot)
unfolding open_slot take_place open_session
visited-Reach = later open_slot-Reach (acquires (omega arith))

-- The last one to go releases it.
released_after_use :
    release_session (return_session (record open_slot { users = 0 }))
    ≡ record start { accepts = 1; releases = 1 }
unfolding open_slot take_place open_session release_session return_session
released_after_use = refl

Reach-IsCounted_example : IsCounted (acquire open_slot)
Reach-IsCounted_example = Reach-IsCounted visited-Reach

Reach-users_example :
    (open_slot.phase ≡ active)
    × (release_session open_slot ≡ record open_slot { closers = open_slot.closers - 1 })
unfolding open_slot open_session take_place
Reach-users_example = Reach-users open_slot-Reach (omega arith)
