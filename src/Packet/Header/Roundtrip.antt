-- ===== src/Packet/Header/Roundtrip.antt =====
-- What a packet's sender seals with `SetNetHeader`, its receiver opens with `Decode`.
use iocp_model_server.Base.{
  ℕ, [], subst, suc, ◌+◌, ◌-◌, ◌≤◌, ◌<◌, ◌≡◌, refl, sym, ap, ◌∙◌, true, false, List, ◌∷◌, ◌++◌,
  some, arith, ==_iff, length, take, drop, length-drop, splice, length-slice, read_bytes_lem,
  take-append_length, length-append,
}
use iocp_model_server.Packet.{Packet, header_reserve, send_bytes}
use iocp_model_server.Packet.Valid.{IsValid, contents, room}
use iocp_model_server.Packet.Codec.{u8, decode_from, checksum}
use iocp_model_server.Packet.Header.{payload_size, decode, set_net_header, seal_net}
use iocp_model_server.Packet.Header.Seal.{
  prefix, decode-prefix, payload, seal_net-Sealed, already_sealed, not_sealed,
}

-- The receiver's packet, after the bytes from the wire have been put at the start of its array and
-- the write position moved over the payload.
abbrev pub received : Packet → List ℕ → ℕ → Packet
received r wire n = record r { buf = splice 0 wire r.buf; write_pos = r.write_pos + n }

-- The bytes of a message on the wire: what the sender's header and code make of a payload.
pub record Frame (body wire : List ℕ) : Type 0 where
  pub key : ℕ
  pub coded : List ℕ
  pub small : length body < 65536
  pub form : wire ≡ prefix key (length body) coded
  pub length_coded : length coded ≡ suc (length body)
  pub opens :
      (rest : List ℕ)
      → decode_from (suc (length body)) 0 key 0 0 (coded ++ rest)
        ≡ some (checksum 0 body ∷ (body ++ rest))

pub length-Frame : {body wire : List ℕ} → Frame body wire → length wire ≡ length body + 5
length-Frame f = omega (arith, ap length f.form, f.length_coded)

-- What `SetNetHeader` seals after its test, `GetSendPtr` and `GetSendSize` hand out as a frame.
send_bytes-seal_net :
    (random : ℕ) {p : Packet}
    → IsValid p
    → payload_size p < 65536
    → (q : Packet) × (wire : List ℕ) × (seal_net random p ≡ some q)
      × (send_bytes q ≡ some wire)
      × Frame (payload p) wire
unfolding send_bytes
send_bytes-seal_net random {p} v small =
    let s = seal_net-Sealed random v small in
    let n = payload_size p in
    let key = u8 random in
    let wire = prefix key n s.coded in
    let same : length (payload p) ≡ n = length-slice header_reserve n p.buf (omega arith) in
    let whole = length-append wire s.rest in
    (
      record p { buf = prefix key n (s.coded ++ s.rest); header_size = 5; encoded = true },
      wire,
      s.result,
      read_bytes_lem 0 (5 + n) (wire ++ s.rest) (omega (arith, whole))
          ∙ ap some (take-append_length (5 + n) wire s.rest (omega (arith, s.length_coded))),
      record {
        key = key;
        coded = s.coded;
        small = omega (arith, same);
        form = ap (λ k. prefix key k s.coded) (sym same);
        length_coded = omega (arith, s.length_coded, same);
        opens =
            λ rest. ap (λ k. decode_from (suc k) 0 key 0 0 (s.coded ++ rest)) same ∙ s.opens rest;
      },
    )

-- The same for the whole of `SetNetHeader`.
pub send_bytes-set_net_header :
    (random : ℕ) {p : Packet}
    → IsValid p
    → p.encoded ≡ false
    → payload_size p < 65536
    → (q : Packet) × (wire : List ℕ) × (set_net_header random p ≡ some q)
      × (send_bytes q ≡ some wire)
      × Frame (payload p) wire
send_bytes-set_net_header random {p} v plain small =
    let (q, wire, set, sent, frame) = send_bytes-seal_net random v small in
    (q, wire, not_sealed random p plain ∙ set, sent, frame)

-- `Decode` accepts a frame in a fresh packet with room for it, and leaves the payload.
pub decode-Frame :
    {body wire : List ℕ} {r : Packet}
    → Frame body wire
    → IsValid r
    → r.read_pos ≡ header_reserve
    → r.write_pos ≡ header_reserve
    → length body ≤ room r
    → (d : Packet) × (decode (received r wire (length body)) ≡ some (true, d))
      × (contents d ≡ body)
      × IsValid d
unfolding splice
decode-Frame {body} {wire} {r} f w front back fits =
    let n = length body in
    let sum = checksum 0 body in
    let tail = drop (0 + length wire) r.buf in
    let d : Packet = record (received r wire n) { buf = prefix f.key n (sum ∷ (body ++ tail)) } in
    (
      d,
      decode-prefix (received r wire n) f.key n sum tail (f.coded ++ tail) body f.small refl
            (ap (λ b. b ++ tail) f.form)
            (ap (λ k. decode_from k 0 f.key 0 0 (f.coded ++ tail)) {x = n + 1} {y = suc n}
                (omega arith)
              ∙ f.opens tail)
          ∙ ap (λ b. some (b, d)) ((==_iff sum sum).1 refl),
      rw (front, back)
          (ap (λ k. take k (body ++ tail)) {x = 5 + n - 5} {y = n} (omega arith)
            ∙ take-append_length n body tail refl),
      record {
        storage =
            omega
              (arith, length-append body tail, length-drop (0 + length wire) r.buf, length-Frame f);
        behind_header = w.behind_header;
        ordered = omega arith;
        fits = omega arith;
        header_fits = w.header_fits;
      },
    )

-- A valid packet with less than 64 KB of payload can be sealed and sent for every value of `rand`,
-- and `Decode` accepts the bytes from the wire in any fresh packet with room for them and leaves
-- the payload.
pub decode-set_net_header :
    (random : ℕ) {p r : Packet}
    → IsValid p
    → p.encoded ≡ false
    → payload_size p < 65536
    → IsValid r
    → r.read_pos ≡ header_reserve
    → r.write_pos ≡ header_reserve
    → payload_size p ≤ room r
    → (q : Packet) × (wire : List ℕ) × (d : Packet) × (set_net_header random p ≡ some q)
      × (send_bytes q ≡ some wire)
      × (decode (received r wire (payload_size p)) ≡ some (true, d))
      × (contents d ≡ payload p)
decode-set_net_header random {p} {r} v plain small w front back fits =
    let (q, wire, set, sent, frame) = send_bytes-set_net_header random v plain small in
    let same : length (payload p) ≡ payload_size p =
      length-slice header_reserve (payload_size p) p.buf (omega arith) in
    let (d, decoded, holds, _) = decode-Frame frame w front back (omega (arith, same)) in
    (q, wire, d, set, sent, ap (λ k. decode (received r wire k)) (sym same) ∙ decoded, holds)

-- The packet that `SetNetHeader` leaves: its payload's place has the coded payload.
record Left (p q : Packet) : Type 0 where
  pub valid : IsValid q
  pub encoded : q.encoded ≡ true
  pub size : payload_size q ≡ payload_size p
  pub key : ℕ
  pub first : ℕ
  pub opens :
      (rest : List ℕ)
      → decode_from (suc (payload_size p)) 0 key 0 0 (first ∷ (payload q ++ rest))
        ≡ some (checksum 0 (payload p) ∷ (payload p ++ rest))

coded_payload :
    (key n : ℕ) (coded rest : List ℕ)
    → length coded ≡ suc n
    → (first : ℕ) × (coded ≡ first ∷ take n (drop header_reserve (prefix key n (coded ++ rest))))
coded_payload key n [] rest e = absurd (omega (arith, e))
coded_payload key n (first ∷ more) rest e =
    (first, ap (◌∷◌ first) (sym (take-append_length n more rest (omega (arith, e)))))

seal_net-Left :
    (random : ℕ) {p q : Packet}
    → IsValid p
    → payload_size p < 65536
    → seal_net random p ≡ some q
    → Left p q
seal_net-Left random {p} {q} v small e =
    let s = seal_net-Sealed random v small in
    let n = payload_size p in
    let r : Packet = record p {
      buf = prefix (u8 random) n (s.coded ++ s.rest);
      header_size = 5;
      encoded = true;
    } in
    let same : r ≡ q = ground (arith, s.result, e) in
    let (first, split) = coded_payload (u8 random) n s.coded s.rest s.length_coded in
    subst (Left p) same (record {
      valid = record {
        storage = omega (arith, s.storage, v.storage, length-append s.coded s.rest);
        behind_header = v.behind_header;
        ordered = v.ordered;
        fits = v.fits;
        header_fits = omega arith;
      };
      encoded = refl;
      size = refl;
      key = u8 random;
      first = first;
      opens = λ rest.
          ap (λ c. decode_from (suc n) 0 (u8 random) 0 0 (c ++ rest)) (sym split) ∙ s.opens rest;
    })

-- `SetNetHeader` leaves a packet with its flag set, and the coded payload in the payload's place: a
-- call that comes later changes nothing. The test and the write of the flag are not one step though.
-- A thread that had tested the flag before codes the packet again; the receiver's `Decode` accepts
-- what is sent then, in any fresh packet with room for it, and leaves the coded bytes of the first
-- call, not the payload. The packet is valid with less than 64 KB of payload, and the two calls have
-- any random keys.
pub set_net_header_raced :
    (random random' : ℕ) {p q r : Packet}
    → IsValid p
    → p.encoded ≡ false
    → payload_size p < 65536
    → set_net_header random p ≡ some q
    → IsValid r
    → r.read_pos ≡ header_reserve
    → r.write_pos ≡ header_reserve
    → payload_size p ≤ room r
    → (set_net_header random' q ≡ some q)
      × (key : ℕ) × (first : ℕ) × ((rest : List ℕ)
          → decode_from (suc (payload_size p)) 0 key 0 0 (first ∷ (payload q ++ rest))
            ≡ some (checksum 0 (payload p) ∷ (payload p ++ rest)))
      × (q' : Packet) × (wire : List ℕ) × (d : Packet) × (seal_net random' q ≡ some q')
      × (send_bytes q' ≡ some wire)
      × (decode (received r wire (payload_size p)) ≡ some (true, d))
      × (contents d ≡ payload q)
set_net_header_raced random random' {p} {q} {r} v plain small e w front back fits =
    let left = seal_net-Left random v small (sym (not_sealed random p plain) ∙ e) in
    let (q', wire, set, sent, frame) =
      send_bytes-seal_net random' left.valid (omega (arith, left.size)) in
    let same : length (payload q) ≡ payload_size p =
      length-slice header_reserve (payload_size q) q.buf (omega (arith, left.valid)) ∙ left.size in
    let (d, decoded, holds, _) = decode-Frame frame w front back (omega (arith, same)) in
    (
      already_sealed random' q left.encoded,
      left.key,
      left.first,
      left.opens,
      q',
      wire,
      d,
      set,
      sent,
      ap (λ k. decode (received r wire k)) (sym same) ∙ decoded,
      holds,
    )
