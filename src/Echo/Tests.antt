-- ===== src/Echo/Tests.antt =====
-- A message of eight bytes, and one of three.
use iocp_model_server.Base.{◌≡◌, [], ◌∷◌, ◌++◌, some, arith, replicate, false}
use iocp_model_server.Packet.{Packet, create_default}
use iocp_model_server.Packet.Valid.{IsValid, contents}
use iocp_model_server.Packet.Field.{le_bytes}
use iocp_model_server.Server.NetRecv.Step.{create_default-IsPooled}
use iocp_model_server.Echo.{on_recv, on_recv-contents}

-- Three bytes behind the room for the header.
abbrev short_message : Packet
short_message = record {
  buf = replicate 5 0 ++ 1 ∷ 2 ∷ 3 ∷ [];
  buffer_size = 8;
  read_pos = 5;
  write_pos = 8;
  header_size = 0;
  encoded = false;
  ref_count = 1;
}

short_message-IsValid : IsValid short_message
short_message-IsValid = omega arith

-- The bytes of 4660 were left in the memory of the variable.
on_recv-contents_example :
    (q : Packet) × (on_recv 4660 (create_default 0) short_message ≡ some q)
    × (contents q ≡ 52 ∷ 18 ∷ 0 ∷ 0 ∷ 0 ∷ 0 ∷ 0 ∷ 0 ∷ [])
    × IsValid q
unfolding le_bytes
on_recv-contents_example = on_recv-contents 4660 (create_default-IsPooled 0) short_message-IsValid
