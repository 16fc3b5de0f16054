-- ===== src/Server/NetRecv/Tests.antt =====
-- The receive loop on concrete bytes.
use iocp_model_server.Base.{
  ℕ, ◌+◌, ◌≡◌, ◌≢◌, refl, ap, List, [], ◌∷◌, ◌++◌, none, some, arith, replicate, length, get_or,
  get_or-append, length-replicate,
}
use iocp_model_server.Ring.{Ring, get_use_size, get_free_size, direct_enqueue_size}
use iocp_model_server.Ring.Contents.{IsValid, contents-front}
use iocp_model_server.Ring.Direct.{Received}
use iocp_model_server.Packet.{Packet, create_default}
use iocp_model_server.Packet.Codec.{decode_from}
use iocp_model_server.Packet.Header.Roundtrip.{Frame}
use iocp_model_server.Server.NetRecv.{cut_off, round, out_of_fuel, loop, recv_proc}
use iocp_model_server.Server.NetRecv.Step.{create_default-IsPooled}
use iocp_model_server.Server.NetRecv.Overflow.{headed, round_cuts_off, round_overflows}
use iocp_model_server.Server.NetRecv.Loop.{
  Message, header_missing, Delivered, loop-ends, recv_proc-Delivered,
}

-- The bytes 1, 2 and 3, sealed with the random key 7.
abbrev greeting : List ℕ
greeting = 0x77 ∷ 3 ∷ 0 ∷ 7 ∷ 61 ∷ 103 ∷ 190 ∷ 218 ∷ []

greeting-Frame : Frame (1 ∷ 2 ∷ 3 ∷ []) greeting
unfolding decode_from
greeting-Frame = record {
  key = 7;
  coded = 61 ∷ 103 ∷ 190 ∷ 218 ∷ [];
  small = omega arith;
  form = refl;
  length_coded = refl;
  opens = λ rest. refl;
}

abbrev hello : Message
hello = record {
  body = 1 ∷ 2 ∷ 3 ∷ [];
  wire = greeting;
  frame = greeting-Frame;
  fits = omega arith;
}

-- An empty ring, into which the greeting and two bytes of another message come.
abbrev empty : Ring
empty = record { buf = replicate 10 0 ++ 0 ∷ []; capacity = 11; front = 0; rear = 0 }

abbrev arrived : List ℕ
arrived = greeting ++ 0x77 ∷ 9 ∷ []

empty-IsValid : IsValid empty
empty-IsValid = omega arith

arrived-Received : Received empty arrived (arrived ++ 0 ∷ [])
unfolding direct_enqueue_size get_free_size get_use_size
arrived-Received = record {
  kept_length = refl;
  first = λ i h k. ground (
    arith,
    get_or-append {A = ℕ} arrived (0 ∷ []) i 0,
    ap (λ j. get_or (arrived ++ 0 ∷ []) j 0) {x = 0 + i} {y = i},
  );
  second = λ i h. absurd (omega arith);
  elsewhere = λ j h k. ground (
    arith,
    get_or-append {A = ℕ} arrived (0 ∷ []) j 0,
    get_or-append {A = ℕ} (replicate 10 0) (0 ∷ []) j 0,
  );
}

abbrev pool : ℕ → Packet
pool i = create_default i

recv_proc-Delivered_example :
    Delivered
      (hello ∷ [])
      (0x77 ∷ 9 ∷ [])
      (recv_proc pool (record empty { buf = arrived ++ 0 ∷ [] }) 10)
unfolding get_free_size get_use_size
recv_proc-Delivered_example =
    recv_proc-Delivered (hello ∷ []) (0x77 ∷ 9 ∷ []) arrived (arrived ++ 0 ∷ []) pool
      (λ i. create_default-IsPooled i) empty-IsValid arrived-Received (omega arith) refl
      (header_missing (omega arith))

abbrev held : Ring
held = record { buf = arrived ++ 0 ∷ []; capacity = 11; front = 0; rear = 10 }

held-IsValid : IsValid held
held-IsValid = omega arith

loop-ends_example : loop 11 pool held ≢ out_of_fuel
unfolding get_use_size
loop-ends_example = loop-ends 11 pool held-IsValid (omega arith)

-- A header with the code 1 and no payload.
abbrev stranger : Ring
stranger = record { buf = 1 ∷ 0 ∷ 0 ∷ 0 ∷ 0 ∷ 0 ∷ []; capacity = 6; front = 0; rear = 5 }

stranger-IsValid : IsValid stranger
stranger-IsValid = omega arith

round_cuts_off_example : round (pool 0) stranger ≡ some (cut_off stranger)
unfolding get_use_size
round_cuts_off_example =
    round_cuts_off (pool 0) 1 0 0 0 0 [] stranger-IsValid refl (omega arith) (omega arith)

-- A header that states 1401 bytes, and as many behind it.
abbrev flood : Ring
flood = record {
  buf = headed 0x77 121 5 0 0 (replicate 1402 9);
  capacity = 1407;
  front = 0;
  rear = 1406;
}

flood_payload : length {A = ℕ} (replicate 1401 9) ≡ 1401
flood_payload = length-replicate {A = ℕ} 1401 9

flood-IsValid : IsValid flood
flood-IsValid = record {
  storage = refl;
  small = omega arith;
  front_in = omega arith;
  rear_in = omega arith;
}

round_overflows_example : round (pool 0) flood ≡ none
unfolding get_use_size
round_overflows_example =
    round_overflows (pool 0) 0x77 121 5 0 0 (replicate 1401 9) flood-IsValid
      (contents-front flood flood-IsValid refl) (create_default-IsPooled 0)
      (omega (arith, flood_payload)) refl (omega arith)
