-- ===== src/Rtp/Header/Examples.antt =====
-- Lab2/My Codes/rtp.h and sender_def.c: the theorems on headers at a concrete header.
use computer_network_labs.Prelude.{◌≡◌, refl, [], ◌∷◌, ◌++◌, arith}
use computer_network_labs.Rtp.Header.{Header, encode, decode}
use computer_network_labs.Rtp.Header.RoundTrip.{decode-encode}

abbrev start : Header
start = record { type = 0; length = 0; seq_num = 0x01020304; checksum = 7 }

start-encode : encode start ≡ 0 ∷ 0 ∷ 0 ∷ 4 ∷ 3 ∷ 2 ∷ 1 ∷ 7 ∷ 0 ∷ 0 ∷ 0 ∷ []
unfolding encode
start-encode = refl

decode-encode_example : decode (encode start ++ 9 ∷ []) ≡ start
decode-encode_example = decode-encode start (9 ∷ []) (omega arith)
