-- ===== src/Rtp/Packet/Examples.antt =====
-- Lab2/My Codes: the theorems on packets at a small file.
use computer_network_labs.Prelude.{ℕ, ◌≡◌, ◌≤◌, true, List, [], ◌∷◌, take, arith}
use computer_network_labs.Rtp.Header.{rtp_data}
use computer_network_labs.Rtp.Packet.{
  fread, offset, data_datagram, receive_buffer, decode_packet, packet_checks,
}
use computer_network_labs.Rtp.Packet.RoundTrip.{data_datagram_arrives}

abbrev hello : List ℕ
hello = 104 ∷ 101 ∷ 108 ∷ 108 ∷ 111 ∷ []

data_datagram_arrives_example :
    let p = decode_packet (receive_buffer (data_datagram hello 0)) in
    (p.rtp.type ≡ rtp_data)
    × (p.rtp.seq_num ≡ 0)
    × (p.rtp.length ≤ 1461)
    × (packet_checks p ≡ true)
    × (take p.rtp.length p.payload ≡ fread hello (offset 0))
data_datagram_arrives_example = data_datagram_arrives hello 0 (omega arith) (omega arith)
