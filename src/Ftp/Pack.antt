-- ===== src/Ftp/Pack.antt =====
-- Lab1/My Codes/ftp_client.cpp and ftp_server.cpp: `FTPpack` as its 12 bytes.
use computer_network_labs.Prelude.{
  ℕ, ◌+◌, ◌*◌, ◌/◌, ◌%◌, ◌^◌, Bool, ◌&&◌, List, [], ◌∷◌, ◌++◌, ◌==◌, if◌then◌else◌, get_or, take,
  drop, replicate,
}

-- `htonl`, as the bytes in memory.
abbrev pub length_bytes : ℕ → List ℕ
length_bytes n = n / 2 ^ 24 % 256 ∷ n / 2 ^ 16 % 256 ∷ n / 2 ^ 8 % 256 ∷ n % 256 ∷ []

-- A packet with the protocol name, as the programs fill it; the length is in network order.
unfoldable pub pack : ℕ → ℕ → ℕ → List ℕ
pack m_type m_status m_length =
    0xE3 ∷ 109 ∷ 121 ∷ 102 ∷ 116 ∷ 112 ∷ m_type ∷ m_status ∷ length_bytes m_length

-- Byte `i` of a buffer that was cleared before the bytes were read into it.
abbrev pub byte_at : List ℕ → ℕ → ℕ
byte_at buf i = get_or buf i 0

-- `isMyFTP`, which both programs declare.
unfoldable pub is_my_ftp : List ℕ → Bool
is_my_ftp p =
    byte_at p 0 == 0xE3
    && (byte_at p 1 == 109
        && (byte_at p 2 == 121
            && (byte_at p 3 == 102 && (byte_at p 4 == 116 && byte_at p 5 == 112))))

-- `ntohl(m_length)` of the packet at the start of a buffer.
unfoldable pub length_field : List ℕ → ℕ
length_field p = byte_at p 8 * 2 ^ 24 + byte_at p 9 * 2 ^ 16 + byte_at p 10 * 2 ^ 8 + byte_at p 11

-- The packet that is read from a buffer, which was cleared before `recv`.
abbrev pub packet_at : List ℕ → List ℕ
packet_at buf = take 12 (buf ++ replicate 12 0)

-- The assignments to `m_type`, `m_status` and `m_length`.
abbrev pub with_type : ℕ → List ℕ → List ℕ
with_type t p = take 6 p ++ (t ∷ drop 7 p)

abbrev pub with_status : ℕ → List ℕ → List ℕ
with_status s p = take 7 p ++ (s ∷ drop 8 p)

abbrev pub with_length : ℕ → List ℕ → List ℕ
with_length n p = take 8 p ++ length_bytes n

-- The string at the start of some bytes, up to the first 0.
unfoldable pub c_string : List ℕ → List ℕ
c_string [] = []
c_string (c ∷ cs) = if c == 0 then [] else c ∷ c_string cs
