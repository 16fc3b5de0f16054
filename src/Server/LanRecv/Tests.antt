-- ===== src/Server/LanRecv/Tests.antt =====
-- The lan server's loop on two bytes of payload and one byte of the next message.
use iocp_model_server.Base.{
  ℕ, ◌+◌, refl, [], ◌∷◌, ◌++◌, arith, replicate, ap, get_or, get_or-append, List,
}
use iocp_model_server.Ring.{Ring, direct_enqueue_size, get_free_size, get_use_size}
use iocp_model_server.Ring.Contents.{IsValid}
use iocp_model_server.Ring.Direct.{Received}
use iocp_model_server.Packet.{create_default}
use iocp_model_server.Server.NetRecv.Step.{create_default-IsPooled}
use iocp_model_server.Server.LanRecv.{lan_recv_proc}
use iocp_model_server.Server.LanRecv.Loop.{
  LanMessage, LanDelivered, lan_recv_proc-LanDelivered, header_missing,
}

abbrev arrived : List ℕ
arrived = 2 ∷ 0 ∷ 8 ∷ 9 ∷ 1 ∷ []

abbrev empty : Ring
empty = record { buf = replicate 7 0; capacity = 7; front = 0; rear = 0 }

empty-IsValid : IsValid empty
empty-IsValid = omega arith

arrived-Received : Received empty arrived (arrived ++ 0 ∷ 0 ∷ [])
unfolding direct_enqueue_size get_free_size get_use_size
arrived-Received = record {
  kept_length = refl;
  first = λ i h k. ground (
    arith,
    get_or-append {A = ℕ} arrived (0 ∷ 0 ∷ []) i 0,
    ap (λ j. get_or (arrived ++ 0 ∷ 0 ∷ []) j 0) {x = 0 + i} {y = i},
  );
  second = λ i h. absurd (omega arith);
  elsewhere = λ j h k. ground (
    arith,
    get_or-append {A = ℕ} arrived (0 ∷ 0 ∷ []) j 0,
    get_or-append {A = ℕ} (replicate 5 0) (0 ∷ 0 ∷ []) j 0,
  );
}

abbrev eight_nine : LanMessage
eight_nine = record { low = 2; high = 0; body = 8 ∷ 9 ∷ []; len = refl; fits = omega arith }

lan_recv_proc-LanDelivered_example :
    LanDelivered
      (eight_nine ∷ [])
      (1 ∷ [])
      (lan_recv_proc (λ i. create_default i) (record empty { buf = arrived ++ 0 ∷ 0 ∷ [] }) 5)
unfolding get_free_size get_use_size
lan_recv_proc-LanDelivered_example =
    lan_recv_proc-LanDelivered (eight_nine ∷ []) (1 ∷ []) arrived (arrived ++ 0 ∷ 0 ∷ [])
      (λ i. create_default i) (λ i. create_default-IsPooled i) empty-IsValid arrived-Received
      (omega arith) refl (header_missing (omega arith))
