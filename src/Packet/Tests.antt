-- ===== src/Packet/Tests.antt =====
-- Runs of the packet buffer, and its properties at concrete packets.
use iocp_model_server.Base.{
  ℕ, ◌≡◌, refl, true, false, List, [], ◌∷◌, ◌++◌, some, arith, replicate, length, read_bytes,
  write_bytes, read_byte, splice, ◌>>=◌,
}
use iocp_model_server.Packet.{Packet, add_ref, free, kept, pooled, send_bytes, get_send_size}
use iocp_model_server.Packet.Valid.{IsValid, contents}
use iocp_model_server.Packet.Data.{Assigned, assign-Assigned}
use iocp_model_server.Packet.Field.{uchar, ushort, Fields, put_all, get_all, le_bytes, le_value}
use iocp_model_server.Packet.Field.Roundtrip.{get_all-put_all}
use iocp_model_server.Packet.Codec.{encode_from, decode_from, sum_from, decode-encode}
use iocp_model_server.Packet.Header.{
  seal_net, set_lan_header, set_net_header, encode, decode, header_len,
}
use iocp_model_server.Packet.Header.Roundtrip.{
  decode-set_net_header, received, set_net_header_raced,
}

-- A packet for 8 bytes that holds 1, 2 and 3.
abbrev small : Packet
small = record {
  buf = 0 ∷ 0 ∷ 0 ∷ 0 ∷ 0 ∷ 1 ∷ 2 ∷ 3 ∷ 0 ∷ 0 ∷ 0 ∷ 0 ∷ 0 ∷ [];
  buffer_size = 13;
  read_pos = 5;
  write_pos = 8;
  header_size = 0;
  encoded = false;
  ref_count = 1;
}

abbrev fresh : Packet
fresh = record small { buf = replicate 13 0; write_pos = 5 }

small-IsValid : IsValid small
small-IsValid = omega arith

fresh-IsValid : IsValid fresh
fresh-IsValid = omega arith

-- What goes to a client with random key 7: the code, the length, the key, then coded bytes.
wire-small :
    (set_net_header 7 small >>= send_bytes) ≡ some (0x77 ∷ 3 ∷ 0 ∷ 7 ∷ 61 ∷ 103 ∷ 190 ∷ 218 ∷ [])
unfolding set_net_header seal_net send_bytes encode header_len encode_from sum_from le_bytes
    le_value read_bytes write_bytes read_byte splice get_send_size
wire-small = refl

lan-small : (set_lan_header small >>= send_bytes) ≡ some (3 ∷ 0 ∷ 1 ∷ 2 ∷ 3 ∷ [])
unfolding set_lan_header send_bytes le_bytes write_bytes read_bytes splice get_send_size
lan-small = refl

-- The second reference keeps the packet, the last one gives it back.
references :
    (free (add_ref small) ≡ kept small) × (free small ≡ pooled (record small { ref_count = 0 }))
unfolding free add_ref
references = (refl, refl)

abbrev answer : Fields
answer = (ushort, 2) ∷ (uchar, 1) ∷ (ushort, 515) ∷ []

get_all-put_all_example :
    (q : Packet) × (q' : Packet) × (put_all answer fresh ≡ some q)
    × (get_all (ushort ∷ uchar ∷ ushort ∷ []) q ≡ some (some 2 ∷ some 1 ∷ some 515 ∷ [], q'))
    × (contents q' ≡ [])
    × IsValid q'
unfolding le_bytes
get_all-put_all_example = get_all-put_all answer fresh-IsValid refl (omega arith) (omega arith)

assign-Assigned_example : Assigned fresh small 0
assign-Assigned_example = assign-Assigned 0 fresh-IsValid small-IsValid

decode-encode_example :
    (ys : List ℕ) × ((rest : List ℕ) → encode_from 2 0 9 0 0 (5 ∷ 6 ∷ rest) ≡ some (ys ++ rest))
    × ((rest : List ℕ) → decode_from 2 0 9 0 0 (ys ++ rest) ≡ some (5 ∷ 6 ∷ rest))
    × (length ys ≡ 2)
decode-encode_example = decode-encode 0 9 0 0 (5 ∷ 6 ∷ [])

decode-set_net_header_example :
    (q : Packet) × (wire : List ℕ) × (d : Packet) × (set_net_header 200 small ≡ some q)
    × (send_bytes q ≡ some wire)
    × (decode (received fresh wire 3) ≡ some (true, d))
    × (contents d ≡ 1 ∷ 2 ∷ 3 ∷ [])
decode-set_net_header_example =
    decode-set_net_header 200 small-IsValid refl (omega arith) fresh-IsValid refl refl (omega arith)

-- `small` as it goes out with random key 7.
abbrev sealed : Packet
sealed = record {
  buf = 0x77 ∷ 3 ∷ 0 ∷ 7 ∷ 61 ∷ 103 ∷ 190 ∷ 218 ∷ 0 ∷ 0 ∷ 0 ∷ 0 ∷ 0 ∷ [];
  buffer_size = 13;
  read_pos = 5;
  write_pos = 8;
  header_size = 5;
  encoded = true;
  ref_count = 1;
}

set_net_header_small : set_net_header 7 small ≡ some sealed
unfolding set_net_header seal_net encode header_len encode_from sum_from le_bytes le_value
    read_bytes write_bytes read_byte splice
set_net_header_small = refl

-- A second thread seals `sealed` with random key 9, and the receiver gets 103, 190 and 218 where 1,
-- 2 and 3 were sent.
set_net_header_raced_example :
    (set_net_header 9 sealed ≡ some sealed)
    × (key : ℕ) × (first : ℕ) × ((rest : List ℕ)
        → decode_from 4 0 key 0 0 (first ∷ 103 ∷ 190 ∷ 218 ∷ rest) ≡ some (6 ∷ 1 ∷ 2 ∷ 3 ∷ rest))
    × (q : Packet) × (wire : List ℕ) × (d : Packet) × (seal_net 9 sealed ≡ some q)
    × (send_bytes q ≡ some wire)
    × (decode (received fresh wire 3) ≡ some (true, d))
    × (contents d ≡ 103 ∷ 190 ∷ 218 ∷ [])
set_net_header_raced_example =
    set_net_header_raced 7 9 small-IsValid refl (omega arith) set_net_header_small fresh-IsValid
      refl refl (omega arith)
