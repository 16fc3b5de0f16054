-- ===== src/Server/Sessions/Tests.antt =====
-- A server with two places, and a place that is used twice.
use iocp_model_server.Base.{◌≡◌, refl, true, some, none, arith, set}
use iocp_model_server.Server.Sessions.{
  Server, make_id, push_indices, started, start, init_session, accept_from, accept, acquire_session,
  release, accepts, now, later,
}
use iocp_model_server.Server.Sessions.Acquire.{acquire_session-some, acquire_session-none}

first_accepted : Server
first_accepted = accept true (started 2)

acquire_session-some_example : acquire_session 65536 first_accepted ≡ some 0
unfolding first_accepted start started accept accept_from init_session push_indices make_id set
acquire_session-some_example =
    acquire_session-some 2 0 refl (later now (accepts true (omega arith))) refl

-- Place 0 again, for the second session.
reused : Server
reused = accept true (release 0 first_accepted)

reused_number : reused.session_ids 0 ≡ 131072
unfolding reused first_accepted start started accept accept_from init_session push_indices make_id
    release set
reused_number = refl

acquire_session-none_example : acquire_session 65536 reused ≡ none
unfolding reused first_accepted start started accept accept_from init_session push_indices make_id
    release set
acquire_session-none_example =
    acquire_session-none 2 0 refl (later now (accepts true (omega arith))) refl
      (later now (accepts true (omega arith)))
