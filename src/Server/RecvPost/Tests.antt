-- ===== src/Server/RecvPost/Tests.antt =====
-- A ring whose free places wrap around the end of its array.
use iocp_model_server.Base.{◌≡◌, refl, [], ◌∷◌, arith, replicate, some}
use iocp_model_server.Ring.{Ring, get_free_size, get_use_size}
use iocp_model_server.Ring.Contents.{IsValid}
use iocp_model_server.Server.RecvPost.{
  recv_post, lan_recv_post, places, places-recv_post, lan_recv_post-recv_post,
}

abbrev late : Ring
late = record { buf = replicate 8 0; capacity = 8; front = 4; rear = 6 }

late-IsValid : IsValid late
late-IsValid = record {
  storage = refl;
  small = omega arith;
  front_in = omega arith;
  rear_in = omega arith;
}

places-recv_post_example : places (recv_post late) ≡ 6 ∷ 7 ∷ 0 ∷ 1 ∷ 2 ∷ []
unfolding get_free_size get_use_size
places-recv_post_example = places-recv_post late-IsValid

lan_recv_post-recv_post_example : lan_recv_post late ≡ some (recv_post late)
lan_recv_post-recv_post_example = lan_recv_post-recv_post late-IsValid
