-- ===== src/Rtp/Header.antt =====
-- Lab2/My Codes/rtp.h: `rtp_header_t`, its image in memory, and `make_rtp_header` of sender_def.c.
-- The fields hold numbers below 2 ^ 8, 2 ^ 16 and 2 ^ 32; the byte order is little-endian, as
-- Lab2/Documents/Lab2.md asks.
pub mod RoundTrip
mod Examples
use computer_network_labs.Prelude.{
  ℕ, ◌+◌, ◌*◌, ◌/◌, ◌%◌, ◌^◌, Bool, List, [], ◌∷◌, ◌++◌, ◌==◌, if◌then◌else◌, get_or,
}
use computer_network_labs.Rtp.Crc.{checksum}

abbrev pub rtp_start : ℕ
rtp_start = 0

abbrev pub rtp_end : ℕ
rtp_end = 1

abbrev pub rtp_data : ℕ
rtp_data = 2

abbrev pub rtp_ack : ℕ
rtp_ack = 3

pub record Header : Type 0 where
  pub type : ℕ
  pub length : ℕ
  pub seq_num : ℕ
  pub checksum : ℕ

-- The bytes of a `uint16_t` and of a `uint32_t` in memory.
abbrev pub le16 : ℕ → List ℕ
le16 v = (v % 256) ∷ (v / 256 % 256) ∷ []

abbrev pub le32 : ℕ → List ℕ
le32 v = (v % 256) ∷ (v / 256 % 256) ∷ (v / 65536 % 256) ∷ (v / 16777216 % 256) ∷ []

-- `(char*)&header`, 11 bytes: the struct is packed.
unfoldable pub encode : Header → List ℕ
encode h = (h.type % 256) ∷ (le16 h.length ++ le32 h.seq_num ++ le32 h.checksum)

-- The byte of a buffer at an index. A buffer is zero behind the datagram that was received.
abbrev pub byte_at : List ℕ → ℕ → ℕ
byte_at buffer i = get_or buffer i 0

-- `*(rtp_header_t*)buffer`
unfoldable pub decode : List ℕ → Header
decode buffer = record {
  type = byte_at buffer 0;
  length = byte_at buffer 1 + 256 * byte_at buffer 2;
  seq_num =
      byte_at buffer 3
      + 256 * byte_at buffer 4
      + 65536 * byte_at buffer 5
      + 16777216 * byte_at buffer 6;
  checksum =
      byte_at buffer 7
      + 256 * byte_at buffer 8
      + 65536 * byte_at buffer 9
      + 16777216 * byte_at buffer 10;
}

-- The header of `make_rtp_header` before the test of `flag`; the assignments cut `type` and
-- `length` to their fields.
abbrev pub unsealed : ℕ → ℕ → ℕ → Header
unsealed type length seq_num = record {
  type = type % 2 ^ 8;
  length = length % 2 ^ 16;
  seq_num = seq_num;
  checksum = 0;
}

unfoldable pub make_rtp_header : ℕ → ℕ → ℕ → Bool → Header
unfolding encode
make_rtp_header type length seq_num flag =
    let header = unsealed type length seq_num in
    if flag then record header { checksum = checksum (encode header) } else header

-- The test of a received header's checksum, which is computed over the header with checksum 0.
unfoldable pub checks : Header → Bool
checks h = h.checksum == checksum (encode (record h { checksum = 0 }))
