-- ===== src/Packet/Header/Seal.antt =====
-- What `SetNetHeader` writes.
use iocp_model_server.Base.{
  ℕ, suc, ◌+◌, ◌/◌, ◌%◌, ◌<◌, ◌≡◌, refl, sym, ap, ◌∙◌, true, false, List, [], ◌∷◌, ◌++◌, some,
  arith, ◌==◌, length, length-drop, drop, take-append-drop, splice, slice, length-slice,
  read_bytes_lem, read_byte_lem, write_bytes_lem,
}
use iocp_model_server.Packet.{Packet, header_reserve}
use iocp_model_server.Packet.Valid.{IsValid}
use iocp_model_server.Packet.Codec.{
  u8, encode_from, decode_from, decode-encode, sum_from, sum_from-checksum, checksum,
}
use iocp_model_server.Packet.Field.{le_bytes, le_value}
use iocp_model_server.Packet.Header.{
  packet_code, u16, payload_size, header_len, encode, decode, set_net_header, seal_net,
}

-- The first four bytes of a header, before the coded part.
abbrev pub prefix : ℕ → ℕ → List ℕ → List ℕ
prefix key len rest = packet_code ∷ len % 256 ∷ len / 256 % 256 ∷ key ∷ rest

pub header_len-prefix :
    (key len : ℕ) (rest : List ℕ) → len < 65536 → header_len (prefix key len rest) ≡ some len
unfolding header_len le_value
header_len-prefix key len rest h =
    rw (read_bytes_lem 1 2 (prefix key len rest) (omega arith)) (ap some (omega arith))

pub encode-prefix :
    (p : Packet) (key len : ℕ) (rest coded : List ℕ)
    → len < 65536
    → p.buf ≡ prefix key len rest
    → encode_from (len + 1) 0 key 0 0 rest ≡ some coded
    → encode p ≡ some (record p { buf = prefix key len coded })
unfolding encode
encode-prefix p key len rest coded h e c =
    rw (e, header_len-prefix key len rest h, read_byte_lem 3 (prefix key len rest) (omega arith), c)

pub decode-prefix :
    (p : Packet) (key len sum : ℕ) (rest coded payload : List ℕ)
    → len < 65536
    → length payload ≡ len
    → p.buf ≡ prefix key len coded
    → decode_from (len + 1) 0 key 0 0 coded ≡ some (sum ∷ (payload ++ rest))
    → decode p
      ≡ some
          (checksum 0 payload == sum, record p { buf = prefix key len (sum ∷ (payload ++ rest)) })
unfolding decode
decode-prefix p key len sum rest coded payload h same e c =
    let summed : sum_from len 0 (payload ++ rest) ≡ some (checksum 0 payload) =
      ap (λ k. sum_from k 0 (payload ++ rest)) (sym same) ∙ sum_from-checksum 0 payload rest in
    rw (
      e,
      header_len-prefix key len coded h,
      read_byte_lem 3 (prefix key len coded) (omega arith),
      c,
      summed,
      read_byte_lem 0 (sum ∷ (payload ++ rest)) (omega arith),
    )

abbrev pub payload : Packet → List ℕ
payload p = slice header_reserve (payload_size p) p.buf

-- What `SetNetHeader` makes of a packet after its test: the header's first four bytes, then the coded sum and
-- payload, from which the same number of rounds of `Decode` gets the sum and the payload back.
pub record Sealed (random : ℕ) (p : Packet) : Type 0 where
  pub coded : List ℕ
  pub rest : List ℕ
  pub result :
      seal_net random p
      ≡ some (record p {
        buf = prefix (u8 random) (payload_size p) (coded ++ rest);
        header_size = 5;
        encoded = true;
      })
  pub length_coded : length coded ≡ suc (payload_size p)
  pub storage : length coded + length rest + 4 ≡ length p.buf
  pub opens :
      (rest' : List ℕ)
      → decode_from (suc (payload_size p)) 0 (u8 random) 0 0 (coded ++ rest')
        ≡ some (checksum 0 (payload p) ∷ (payload p ++ rest'))

pub seal_net-Sealed :
    (random : ℕ) {p : Packet} → IsValid p → payload_size p < 65536 → Sealed random p
unfolding seal_net splice le_bytes
seal_net-Sealed random {p} v small =
    let n = payload_size p in
    let body = drop header_reserve p.buf in
    let key = u8 random in
    let sum = checksum 0 (payload p) in
    let same : length (payload p) ≡ n = length-slice header_reserve n p.buf (omega arith) in
    let split : payload p ++ drop n body ≡ body = take-append-drop n body in
    let (ys, encoded, decoded, coded_length) = decode-encode 0 key 0 0 (sum ∷ payload p) in
    let summed : sum_from n 0 body ≡ some sum =
      ap (λ k. sum_from k 0 body) (sym same)
      ∙ ap (sum_from (length (payload p)) 0) (sym split)
      ∙ sum_from-checksum 0 (payload p) (drop n body) in
    let enc : encode_from (n + 1) 0 key 0 0 (sum ∷ body) ≡ some (ys ++ drop n body) =
      ap (λ k. encode_from k 0 key 0 0 (sum ∷ body)) {x = n + 1} {y = suc (length (payload p))}
        (omega (arith, same))
      ∙ ap (λ b. encode_from (suc (length (payload p))) 0 key 0 0 (sum ∷ b)) (sym split)
      ∙ encoded (drop n body) in
    let short : u16 n ≡ n = omega arith in
    let header : List ℕ = packet_code ∷ n % 256 ∷ n / 256 % 256 ∷ key ∷ sum ∷ [] in
    record {
      coded = ys;
      rest = drop n body;
      result = rw (
        summed,
        short,
        write_bytes_lem 0 header p.buf (omega arith),
        encode-prefix (record p { buf = prefix key n (sum ∷ body); header_size = 5 }) key n
            (sum ∷ body) (ys ++ drop n body) small refl enc,
      );
      length_coded = coded_length ∙ ap suc same;
      storage =
          omega (arith, coded_length, same, length-drop n body, length-drop header_reserve p.buf);
      opens =
          λ rest'. ap (λ k. decode_from (suc k) 0 key 0 0 (ys ++ rest')) (sym same) ∙ decoded rest';
    }

-- `SetNetHeader` of a packet whose flag is set, and of one whose flag is not.
pub already_sealed : (random : ℕ) (p : Packet) → p.encoded ≡ true → set_net_header random p ≡ some p
unfolding set_net_header
already_sealed random p e = ground arith

pub not_sealed :
    (random : ℕ) (p : Packet) → p.encoded ≡ false → set_net_header random p ≡ seal_net random p
unfolding set_net_header
not_sealed random p e = ground arith
