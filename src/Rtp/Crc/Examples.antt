-- ===== src/Rtp/Crc/Examples.antt =====
-- Lab2/My Codes/util.c: the theorems at concrete bytes, and the check value of CRC-32.
use computer_network_labs.Prelude.{ℕ, ◌≡◌, refl, List, [], ◌∷◌, arith}
use computer_network_labs.Rtp.Crc.{checksum}
use computer_network_labs.Rtp.Crc.Ieee.{ieee_crc, checksum-ieee}

-- The text 123456789 in ASCII, whose CRC-32 is published.
abbrev digits : List ℕ
digits = 49 ∷ 50 ∷ 51 ∷ 52 ∷ 53 ∷ 54 ∷ 55 ∷ 56 ∷ 57 ∷ []

checksum-digits : checksum digits ≡ 0xCBF43926
unfolding checksum
checksum-digits = refl

checksum-ieee_example : checksum digits ≡ ieee_crc digits
checksum-ieee_example = checksum-ieee digits (omega arith)
