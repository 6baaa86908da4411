-- ===== src/Rtp/Protocol/Ending.antt =====
-- Lab2/My Codes: the END packet of `terminateSender` at the receiver.
use computer_network_labs.Prelude.{
  ℕ, ◌+◌, ◌≤◌, ◌<◌, ◌^◌, ◌≡◌, refl, ◌∙◌, true, List, [], ◌∷◌, take, drop, arith,
}
use computer_network_labs.Rtp.Header.{Header, encode, make_rtp_header, checks, rtp_end}
use computer_network_labs.Rtp.Packet.{Packet, receive_buffer, decode_packet, packet_checks}
use computer_network_labs.Rtp.Receiver.{Receiver, ack_datagram, recv_packet_turn, finish}
use computer_network_labs.Rtp.Sender.{end_datagram}
use computer_network_labs.Rtp.Sender.Session.{made_header_read, made-seq_num, made-type}

-- A packet without data has the checksum of its header.
packet_checks-header :
    (h : Header) (payload : List ℕ)
    → h.length ≡ 0
    → packet_checks (record { rtp = h; payload = payload }) ≡ checks h
unfolding packet_checks checks encode
packet_checks-header h payload e = let size : 11 + h.length ≡ 11 = omega arith in rw size refl

end_turn :
    (r : Receiver) (p : Packet)
    → p.rtp.type ≡ rtp_end
    → p.rtp.seq_num ≤ r.recv_base
    → p.rtp.length ≡ 0
    → packet_checks p ≡ true
    → recv_packet_turn r p ≡ finish r (ack_datagram r.recv_base ∷ [])
unfolding recv_packet_turn
end_turn r p t le size c = ground arith

made-length : (type seq : ℕ) → (make_rtp_header type 0 seq true).length ≡ 0
unfolding make_rtp_header
made-length type seq = refl

-- The END packet ends the loop of a receiver that is not behind its number.
pub end_finishes :
    (r : Receiver) (seq : ℕ)
    → seq < 2 ^ 32
    → seq ≤ r.recv_base
    → recv_packet_turn r (decode_packet (receive_buffer (end_datagram seq)))
      ≡ finish r (ack_datagram r.recv_base ∷ [])
unfolding decode_packet
end_finishes r seq fits le =
    let (unused, read, checked) = made_header_read rtp_end seq fits in
    let h : Header = make_rtp_header rtp_end 0 seq true in
    let payload : List ℕ = take 1461 (drop 11 (receive_buffer (end_datagram seq))) in
    rw read (
      end_turn r (record { rtp = h; payload = payload }) (made-type rtp_end seq)
        (omega (arith, made-seq_num rtp_end seq)) (made-length rtp_end seq)
        (packet_checks-header h payload (made-length rtp_end seq) ∙ checked))
