-- ===== src/Rtp/Header/RoundTrip.antt =====
-- Lab2/My Codes/rtp.h and sender_def.c: headers on the wire.
use computer_network_labs.Prelude.{ℕ, ◌^◌, ◌<◌, ◌≡◌, ap, ◌∙◌, Bool, true, false, List, ◌++◌, arith}
use computer_network_labs.Rtp.Crc.{checksum}
use computer_network_labs.Rtp.Crc.Ieee.{IsBytes, checksum_lem, crc_loop-lt}
use computer_network_labs.Rtp.Header.{Header, encode, decode, make_rtp_header, checks, unsealed}

-- The fields fit their types.
pub record IsHeader (h : Header) : Type 0 where
  pub type : h.type < 2 ^ 8
  pub length : h.length < 2 ^ 16
  pub seq_num : h.seq_num < 2 ^ 32
  pub checksum : h.checksum < 2 ^ 32

pub checksum-lt : (bs : List ℕ) → IsBytes bs → checksum bs < 2 ^ 32
checksum-lt bs h = omega (arith, checksum_lem bs, crc_loop-lt bs 0 (omega arith) h)

pub encode-IsBytes : (h : Header) → IsBytes (encode h)
unfolding encode
encode-IsBytes h = omega arith

-- What a datagram that starts with a header's image is read as, whatever follows.
pub decode-encode : (h : Header) (rest : List ℕ) → IsHeader h → decode (encode h ++ rest) ≡ h
unfolding decode encode
decode-encode h rest v = ground arith

pub make_rtp_header-IsHeader :
    (type len seq : ℕ) (flag : Bool) → seq < 2 ^ 32 → IsHeader (make_rtp_header type len seq flag)
unfolding make_rtp_header
make_rtp_header-IsHeader type len seq true h = record {
  type = omega arith;
  length = omega arith;
  seq_num = h;
  checksum = checksum-lt (encode (unsealed type len seq)) (encode-IsBytes (unsealed type len seq));
}
make_rtp_header-IsHeader type len seq false h = omega arith

pub made-checks : (type len seq : ℕ) → checks (make_rtp_header type len seq true) ≡ true
unfolding checks make_rtp_header
made-checks type len seq = ground arith

-- A header that is made with its checksum, sent, and read from the front of a datagram, is the
-- header that was made, and passes the test of the checksum.
pub made_header_arrives :
    (type len seq : ℕ) (rest : List ℕ)
    → seq < 2 ^ 32
    → let h = make_rtp_header type len seq true in
      (decode (encode h ++ rest) ≡ h) × (checks (decode (encode h ++ rest)) ≡ true)
made_header_arrives type len seq rest h =
    let e =
      decode-encode (make_rtp_header type len seq true) rest
        (make_rtp_header-IsHeader type len seq true h) in
    (e, ap checks e ∙ made-checks type len seq)
