-- ===== src/Rtp/Crc.antt =====
-- Lab2/My Codes/util.c: the checksum. A `uint32_t` is a number below 2 ^ 32, a buffer a list of
-- bytes; every buffer has as many bytes as `n_bytes` says.
pub mod Xor
pub mod Ieee
pub mod Detection
mod Examples
use Prim.Native.Nat.{bit_and, bit_xor}
use computer_network_labs.Prelude.{
  ℕ, zero, suc, ◌+◌, ◌/◌, ◌%◌, ◌^◌, List, [], ◌∷◌, ◌==◌, if◌then◌else◌, replicate, get_or,
}

abbrev pub poly : ℕ
poly = 0xEDB88320

-- The body of the loop in `crc32_for_byte`.
unfoldable pub crc_bit : ℕ → ℕ
crc_bit r = bit_xor (if bit_and r 1 == 0 then poly else 0) (r / 2)

unfoldable pub crc_bits : ℕ → ℕ → ℕ
unfolding crc_bit
crc_bits zero r = r
crc_bits (suc j) r = crc_bits j (crc_bit r)

unfoldable pub crc32_for_byte : ℕ → ℕ
unfolding crc_bits
crc32_for_byte r = bit_xor (crc_bits 8 r) 0xFF000000

-- The static table before the first call.
abbrev pub zero_table : List ℕ
zero_table = replicate 0x100 0

-- The loop that fills the table, from index `i` on.
unfoldable pub fill_table : ℕ → ℕ → List ℕ
unfolding crc32_for_byte
fill_table zero i = []
fill_table (suc n) i = crc32_for_byte i ∷ fill_table n (i + 1)

-- `if(!*table)`: the table after that statement.
unfoldable pub init_table : List ℕ → List ℕ
unfolding fill_table
init_table table = if get_or table 0 0 == 0 then fill_table 0x100 0 else table

-- One byte: `table[(uint8_t)*crc ^ byte] ^ *crc >> 8`.
unfoldable pub crc_step : List ℕ → ℕ → ℕ → ℕ
crc_step table crc b = bit_xor (get_or table (bit_xor (crc % 256) b) 0) (crc / 2 ^ 8)

unfoldable pub crc_loop : List ℕ → List ℕ → ℕ → ℕ
unfolding crc_step
crc_loop table [] crc = crc
crc_loop table (b ∷ bytes) crc = crc_loop table bytes (crc_step table crc b)

-- `crc32`: the new value of `*crc` and the table after the call.
unfoldable pub crc32 : List ℕ → List ℕ → ℕ → ℕ × List ℕ
unfolding init_table crc_loop
crc32 table bytes crc = (crc_loop (init_table table) bytes crc, init_table table)

unfoldable pub compute_checksum : List ℕ → List ℕ → ℕ × List ℕ
unfolding crc32
compute_checksum table pkt = crc32 table pkt 0

-- The checksum that the first call returns; `Ieee.compute_checksum_stable` shows that every call
-- returns it.
unfoldable pub checksum : List ℕ → ℕ
unfolding compute_checksum
checksum pkt = (compute_checksum zero_table pkt).0
