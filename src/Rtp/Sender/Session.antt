-- ===== src/Rtp/Sender/Session.antt =====
-- Lab2/My Codes: the handshake between `initSender` of sender_def.c and `initReceiver` of
-- receiver_def.c.
use computer_network_labs.Prelude.{
  ℕ, ◌≤◌, ◌<◌, ◌%◌, ◌^◌, ◌≡◌, refl, ◌↔◌, ◌∙◌, Bool, true, List, [], ◌∷◌, ◌++◌, Option, none, some,
  pos, length, arith,
}
use computer_network_labs.Rtp.Header.{
  Header, encode, decode, make_rtp_header, checks, rtp_start, rtp_ack,
}
use computer_network_labs.Rtp.Header.RoundTrip.{made_header_arrives}
use computer_network_labs.Rtp.Packet.{receive_buffer}
use computer_network_labs.Rtp.Receiver.{init_receiver, ack_datagram}
use computer_network_labs.Rtp.Sender.{init_sender, start_datagram}

-- The reply that makes the sender's connection: a header's bytes, with its own number, the type
-- ACK, and a checksum that is right.
abbrev pub Accepts : ℕ → Option (List ℕ) → Type 0
Accepts seq none = ⊥
Accepts seq (some d) =
    (11 ≤ length d)
    × ((decode d).seq_num ≡ seq)
    × ((decode d).type ≡ rtp_ack)
    × (checks (decode d) ≡ true)

decode-empty : (decode []).type ≡ 0
unfolding decode
decode-empty = refl

-- `initSender` succeeds if and only if the socket was made, the START packet was sent, and the
-- reply is an acknowledgement of its number. Without a reply in time the unsigned comparison of -1
-- with the size of a header lets the code go on, and the test of the cleared buffer fails.
pub init_sender_iff :
    (seq : ℕ) (connected sent : Bool) (reply : Option (List ℕ))
    → ((init_sender seq connected sent reply).0 ≡ pos 0)
      ↔ ((connected ≡ true) × (sent ≡ true) × Accepts seq reply)
unfolding init_sender
init_sender_iff seq connected sent none = ground (arith, decode-empty)
init_sender_iff seq connected sent (some d) = ground arith

decode-receive_buffer : (h : Header) → decode (receive_buffer (encode h)) ≡ decode (encode h ++ [])
unfolding decode receive_buffer encode
decode-receive_buffer h = refl

decode-encode_nil : (h : Header) → decode (encode h) ≡ decode (encode h ++ [])
unfolding decode encode
decode-encode_nil h = refl

length-encode : (h : Header) → length (encode h) ≡ 11
unfolding encode
length-encode h = refl

pub made-type : (type seq : ℕ) → (make_rtp_header type 0 seq true).type ≡ type % 2 ^ 8
unfolding make_rtp_header
made-type type seq = refl

pub made-seq_num : (type seq : ℕ) → (make_rtp_header type 0 seq true).seq_num ≡ seq
unfolding make_rtp_header
made-seq_num type seq = refl

-- A made header without data, as either side reads it.
pub made_header_read :
    (type seq : ℕ)
    → seq < 2 ^ 32
    → let h = make_rtp_header type 0 seq true in
      (decode (encode h) ≡ h) × (decode (receive_buffer (encode h)) ≡ h) × (checks h ≡ true)
made_header_read type seq fits =
    let h = make_rtp_header type 0 seq true in
    let (read, checked) = made_header_arrives type 0 seq [] fits in
    (decode-encode_nil h ∙ read, decode-receive_buffer h ∙ read, rw read at checked)

-- The handshake: a receiver whose socket is bound and that gets the START packet of a sender
-- succeeds and answers with one datagram, and with this answer the sender succeeds.
pub handshake :
    (seq : ℕ)
    → seq < 2 ^ 32
    → (init_receiver true (some (start_datagram seq)) true ≡ (pos 0, ack_datagram seq ∷ []))
      × (init_sender seq true true (some (ack_datagram seq)) ≡ (pos 0, start_datagram seq ∷ []))
unfolding init_receiver init_sender
handshake seq fits = (
  ground (
    arith,
    made_header_read rtp_start seq fits,
    made-type rtp_start seq,
    made-seq_num rtp_start seq,
    length-encode (make_rtp_header rtp_start 0 seq true),
  ),
  ground (
    arith,
    made_header_read rtp_ack seq fits,
    made-type rtp_ack seq,
    made-seq_num rtp_ack seq,
    length-encode (make_rtp_header rtp_ack 0 seq true),
  ),
)
