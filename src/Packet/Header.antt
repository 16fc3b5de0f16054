-- ===== src/Packet/Header.antt =====
-- The two headers of PacketBuffer.h, and the coding of a packet that goes to a client.
pub mod Seal
pub mod Roundtrip
use iocp_model_server.Base.{
  ℕ, ◌+◌, ◌-◌, ◌%◌, Bool, true, false, List, [], ◌∷◌, ◌++◌, Option, none, some, ◌==◌, if◌then◌else◌,
  ◌>>=◌, take, drop, read_byte, read_bytes, write_bytes,
}
use iocp_model_server.Packet.{Packet, header_reserve}
use iocp_model_server.Packet.Codec.{u8, encode_from, decode_from, sum_from}
use iocp_model_server.Packet.Field.{le_bytes, le_value}

abbrev pub packet_code : ℕ
packet_code = 0x77

-- `sizeof(LanServerHeader)` and `sizeof(NetServerHeader)`, packed.
abbrev pub lan_header_size : ℕ
lan_header_size = 2

abbrev pub net_header_size : ℕ
net_header_size = 5

-- `(unsigned short)`
abbrev pub u16 : ℕ → ℕ
u16 n = n % 65536

abbrev pub payload_size : Packet → ℕ
payload_size p = p.write_pos - header_reserve

-- `SetLanHeader`
unfoldable pub set_lan_header : Packet → Option Packet
set_lan_header p = do
  buf ← write_bytes (header_reserve - lan_header_size) (le_bytes 2 (u16 (payload_size p))) p.buf
  some (record p { buf = buf; header_size = lan_header_size })

-- `_len` and `_randomKey` of the header at the start of the array.
unfoldable pub header_len : List ℕ → Option ℕ
header_len buf = do bytes ← read_bytes 1 2 buf; some (le_value bytes)

abbrev pub header_key : List ℕ → Option ℕ
header_key = read_byte 3

-- `Encode`, over the `_len + 1` bytes from `_checkSum` on.
unfoldable pub encode : Packet → Option Packet
encode p = do
  len ← header_len p.buf
  key ← header_key p.buf
  coded ← encode_from (len + 1) 0 key 0 0 (drop 4 p.buf)
  some (record p { buf = take 4 p.buf ++ coded })

-- `Decode`: whether the sum of the payload is the one that was sent.
unfoldable pub decode : Packet → Option (Bool × Packet)
decode p = do
  len ← header_len p.buf
  key ← header_key p.buf
  plain ← decode_from (len + 1) 0 key 0 0 (drop 4 p.buf)
  sum ← sum_from len 0 (drop 1 plain)
  sent ← read_byte 0 plain
  some (sum == sent, record p { buf = take 4 p.buf ++ plain })

-- `SetNetHeader` after its test of the flag; `random` is what `rand` returns.
unfoldable pub seal_net : ℕ → Packet → Option Packet
seal_net random p = do
  sum ← sum_from (payload_size p) 0 (drop header_reserve p.buf)
  buf ←
      write_bytes 0 (packet_code ∷ (le_bytes 2 (u16 (payload_size p)) ++ u8 random ∷ sum ∷ []))
        p.buf
  q ← encode (record p { buf = buf; header_size = net_header_size })
  some (record q { encoded = true })

unfoldable pub set_net_header : ℕ → Packet → Option Packet
set_net_header random p = if p.encoded then some p else seal_net random p
