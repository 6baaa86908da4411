-- ===== src/Rtp/Packet.antt =====
-- Lab2/My Codes/rtp.h: `rtp_packet_t`; sender_def.c: `file_statics`, `make_rtp_packet`, `rtp_send`;
-- receiver_def.c: the packet that is read from the buffer of `recv_packet`. A file is the list of
-- its bytes; `fseek` and `fread` read a part of it. Sizes of files stay below 2 ^ 31 segments.
pub mod Segments
pub mod RoundTrip
pub mod Corruption
mod Examples
use computer_network_labs.Prelude.{
  ℕ, ◌+◌, ◌-◌, ◌*◌, ◌/◌, ◌%◌, ◌^◌, Bool, false, List, [], ◌∷◌, ◌++◌, ◌==◌, take, drop, replicate,
  length,
}
use computer_network_labs.Rtp.Crc.{checksum}
use computer_network_labs.Rtp.Header.{Header, encode, decode, make_rtp_header, rtp_data}

abbrev pub payload_size : ℕ
payload_size = 1461

pub record Packet : Type 0 where
  pub rtp : Header
  pub payload : List ℕ

-- `(char*)&packet`
unfoldable pub encode_packet : Packet → List ℕ
encode_packet p = encode p.rtp ++ p.payload

-- `file_statics`, for the size of the file.
unfoldable pub file_statics : ℕ → ℕ
file_statics size = size / 1461 + 1

-- `fread(data, 1, 1461, f)` at a position of the file.
unfoldable pub fread : List ℕ → ℕ → List ℕ
fread file position = take 1461 (drop position file)

-- The packet of `make_rtp_packet` before its checksum is set.
unfoldable pub unsealed_packet : ℕ → ℕ → List ℕ → Packet
unsealed_packet type seq_num bytes = record {
  rtp = make_rtp_header type (length bytes) seq_num false;
  payload = bytes ++ replicate (1461 - length bytes) 0;
}

-- `make_rtp_packet`: the packet and `*len`.
unfoldable pub make_rtp_packet : ℕ → ℕ → List ℕ → ℕ → Packet × ℕ
unfolding fread unsealed_packet encode_packet
make_rtp_packet type seq_num file position =
    let bytes = fread file position in
    let packet = unsealed_packet type seq_num bytes in
    let sum = checksum (take (11 + length bytes) (encode_packet packet)) in
    (record packet { rtp = record packet.rtp { checksum = sum } }, length bytes)

-- The argument of `fseek`, computed in 32 bits.
unfoldable pub offset : ℕ → ℕ
offset seq_num = (seq_num * 1461) % 2 ^ 32

-- `fseek`, `make_rtp_packet` and `rtp_send` as the senders call them for a sequence number: the
-- datagram on the wire.
unfoldable pub data_datagram : List ℕ → ℕ → List ℕ
unfolding make_rtp_packet offset encode_packet
data_datagram file seq_num =
    let (packet, len) = make_rtp_packet rtp_data seq_num file (offset seq_num) in
    take (len + 11) (encode_packet packet)

-- The buffer of `recv_packet` after a datagram: 1472 bytes, cleared before.
unfoldable pub receive_buffer : List ℕ → List ℕ
receive_buffer datagram = take 1472 (datagram ++ replicate 1472 0)

-- `*(rtp_packet_t*)recv_buffer_re`
unfoldable pub decode_packet : List ℕ → Packet
decode_packet buffer = record { rtp = decode buffer; payload = take 1461 (drop 11 buffer) }

-- `checksum = 0` and the test `Check == compute_checksum(&recv_p, 11 + data_len)`.
unfoldable pub clear_checksum : Packet → Packet
clear_checksum p = record p { rtp = record p.rtp { checksum = 0 } }

unfoldable pub packet_checks : Packet → Bool
unfolding encode_packet clear_checksum
packet_checks p =
    p.rtp.checksum == checksum (take (11 + p.rtp.length) (encode_packet (clear_checksum p)))
