-- ===== src/Rtp/Packet/RoundTrip.antt =====
-- Lab2/My Codes: a DATA packet from the file of the sender to the cache of the receiver.
use mathlib.Core.List.{append_assoc}
use computer_network_labs.Prelude.{
  ℕ, ◌+◌, ◌-◌, ◌%◌, ◌^◌, ◌≤◌, ◌<◌, ◌≡◌, refl, ap, ◌∙◌, true, false, List, ◌++◌, take, drop,
  replicate, length, take-append, take-append_add, take_all, take-append-replicate, length-append,
  length-replicate, length-take, arith, All-append, All-take, All-drop, All-replicate,
}
use computer_network_labs.Rtp.Crc.{checksum}
use computer_network_labs.Rtp.Crc.Ieee.{IsBytes}
use computer_network_labs.Rtp.Header.{Header, encode, make_rtp_header, rtp_data}
use computer_network_labs.Rtp.Header.RoundTrip.{
  IsHeader, decode-encode, encode-IsBytes, checksum-lt,
}
use computer_network_labs.Rtp.Packet.{
  encode_packet, fread, unsealed_packet, offset, data_datagram, receive_buffer, decode_packet,
  packet_checks,
}

pub length-fread-le : (file : List ℕ) (pos : ℕ) → length (fread file pos) ≤ 1461
unfolding fread
length-fread-le file pos = omega (arith, length-take 1461 (drop pos file))

length-encode : (h : Header) → length (encode h) ≡ 11
unfolding encode
length-encode h = refl

-- The packet for a payload of at most 1461 bytes.
module _ (seq : ℕ) (payload : List ℕ) (small : length payload ≤ 1461) where
  abbrev len : ℕ
  len = length payload

  abbrev sum : ℕ
  sum = checksum (take (11 + len) (encode_packet (unsealed_packet rtp_data seq payload)))

  abbrev header : Header
  header = record { type = 2; length = len % 2 ^ 16; seq_num = seq; checksum = sum }

  abbrev padded : List ℕ
  padded = payload ++ replicate (1461 - len) 0

  length-padded : length padded ≡ 1461
  length-padded =
      length-append payload (replicate (1461 - len) 0)
      ∙ omega (arith, length-replicate {A = ℕ} (1461 - len) 0)

  -- The bytes that are sent: the header and the payload.
  pub sent_bytes : (h : Header) → take (len + 11) (encode h ++ padded) ≡ encode h ++ payload
  sent_bytes h =
      let e : len + 11 ≡ length (encode h) + len = omega (arith, length-encode h) in
      rw e (
        take-append_add (encode h) padded len
        ∙ ap (λ t. encode h ++ t) (take-append payload (replicate (1461 - len) 0)))

  pub received_bytes : (h : Header) → receive_buffer (encode h ++ payload) ≡ encode h ++ padded
  unfolding receive_buffer
  received_bytes h =
      take-append-replicate (encode h ++ payload) 1472 (1461 - len) 1472 0
        (omega (arith, length-append (encode h) payload, length-encode h)) (omega arith)
      ∙ append_assoc (encode h) payload (replicate (1461 - len) 0)

  pub decoded :
      (h : Header)
      → IsHeader h
      → decode_packet (encode h ++ padded) ≡ record { rtp = h; payload = padded }
  unfolding decode_packet
  decoded h v =
      let tail : drop 11 (encode h ++ padded) ≡ padded = unfold encode in refl in
      let whole : take 1461 padded ≡ padded = take_all 1461 padded (omega (arith, length-padded)) in
      ground (arith, decode-encode h padded v, tail, whole)

  sum-lt : IsBytes payload → sum < 2 ^ 32
  unfolding encode_packet unsealed_packet
  sum-lt bytes =
      let h = make_rtp_header rtp_data len seq false in
      checksum-lt (take (11 + len) (encode h ++ padded)) (
        All-take (λ b. b < 256) (11 + len) (encode h ++ padded)
          (All-append (λ b. b < 256) (encode h) padded (encode-IsBytes h)
            (All-append (λ b. b < 256) payload (replicate (1461 - len) 0) bytes
              (All-replicate (λ b. b < 256) (1461 - len) 0 (omega arith)))))

  header-IsHeader : seq < 2 ^ 32 → IsBytes payload → IsHeader header
  header-IsHeader h bytes = record {
    type = omega arith;
    length = omega arith;
    seq_num = h;
    checksum = sum-lt bytes;
  }

  pub header-checks : packet_checks (record { rtp = header; payload = padded }) ≡ true
  unfolding packet_checks unsealed_packet make_rtp_header
  header-checks = let e : len % 2 ^ 16 ≡ len = omega arith in rw e (ground arith)

pub fread-IsBytes : (file : List ℕ) (pos : ℕ) → IsBytes file → IsBytes (fread file pos)
unfolding fread
fread-IsBytes file pos h =
    All-take (λ b. b < 256) 1461 (drop pos file) (All-drop (λ b. b < 256) pos file h)

data_datagram-eq :
    (file : List ℕ) (seq : ℕ)
    → let bytes = fread file (offset seq) in
      data_datagram file seq
      ≡ encode (header seq bytes (length-fread-le file (offset seq))) ++ bytes
unfolding data_datagram unsealed_packet make_rtp_header
data_datagram-eq file seq =
    let bytes = fread file (offset seq) in
    let small = length-fread-le file (offset seq) in
    sent_bytes seq bytes small (header seq bytes small)

-- What the receiver reads.
pub received-eq :
    (file : List ℕ) (seq : ℕ)
    → seq < 2 ^ 32
    → IsBytes file
    → let bytes = fread file (offset seq) in
      let small = length-fread-le file (offset seq) in
      decode_packet (receive_buffer (data_datagram file seq))
      ≡ record { rtp = header seq bytes small; payload = padded seq bytes small }
received-eq file seq h hf =
    let bytes = fread file (offset seq) in
    let small = length-fread-le file (offset seq) in
    rw (data_datagram-eq file seq, received_bytes seq bytes small (header seq bytes small))
      (decoded seq bytes small (header seq bytes small)
        (header-IsHeader seq bytes small h (fread-IsBytes file (offset seq) hf)))

-- A packet that arrives unchanged: the receiver reads the type, the sequence number and a length of
-- at most 1461, its test of the checksum passes, and the payload is the one that was read from the
-- file. The file is a string of bytes, and the sequence number fits 32 bits.
pub data_datagram_arrives :
    (file : List ℕ) (seq : ℕ)
    → seq < 2 ^ 32
    → IsBytes file
    → let p = decode_packet (receive_buffer (data_datagram file seq)) in
      (p.rtp.type ≡ rtp_data)
      × (p.rtp.seq_num ≡ seq)
      × (p.rtp.length ≤ 1461)
      × (packet_checks p ≡ true)
      × (take p.rtp.length p.payload ≡ fread file (offset seq))
data_datagram_arrives file seq h hf =
    let bytes = fread file (offset seq) in
    let small = length-fread-le file (offset seq) in
    let e : length bytes % 2 ^ 16 ≡ length bytes = omega arith in
    rw (received-eq file seq h hf) (
      refl,
      refl,
      omega arith,
      header-checks seq bytes small,
      rw e (take-append bytes (replicate (1461 - length bytes) 0)),
    )
