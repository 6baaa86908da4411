-- ===== src/Rtp/Receiver/Rejection.antt =====
-- Lab2/My Codes/receiver_def.c: a datagram that was changed on its way.
use computer_network_labs.Prelude.{
  ℕ, zero, suc, ◌-◌, ◌≤◌, ◌<◌, ◌≡◌, ◌≢◌, refl, true, false, List, [], ◌∷◌, some, length, arith,
}
use computer_network_labs.Rtp.Header.{byte_at}
use computer_network_labs.Rtp.Packet.{Packet, receive_buffer, decode_packet, packet_checks}
use computer_network_labs.Rtp.Packet.Corruption.{
  IsWhole, set, set-IsWhole, IsWhole-length, corrupted-packet_checks,
}
use computer_network_labs.Rtp.Receiver.{
  Receiver, next, cache_size, flush_rounds, flush, flush_and_ack, flush_only, ack_datagram,
  recv_packet_turn, recv_packet_turn_opt,
}

-- The packet at `recv_base` is not there: all that can be written is written.
pub record IsDrained (r : Receiver) : Type 0 where
  pub inside : r.recv_base < cache_size
  pub missing : r.cached r.recv_base ≢ 1

flush_rounds-IsDrained : (n : ℕ) (r : Receiver) → 0 < n → IsDrained r → flush_rounds n r ≡ some r
unfolding flush_rounds
flush_rounds-IsDrained zero r h d = absurd (omega arith)
flush_rounds-IsDrained (suc n) r h d = ground (arith, d.missing)

flush-IsDrained : (r : Receiver) → IsDrained r → flush r ≡ some r
unfolding flush
flush-IsDrained r d =
    flush_rounds-IsDrained (cache_size - r.recv_base) r (omega (arith, d.inside)) d

flush_and_ack-IsDrained :
    (r : Receiver) → IsDrained r → flush_and_ack (some r) ≡ next r (ack_datagram r.recv_base ∷ [])
unfolding flush_and_ack
flush_and_ack-IsDrained r d = rw (flush-IsDrained r d, flush_and_ack) refl

flush_only-IsDrained : (r : Receiver) → IsDrained r → flush_only [] (some r) ≡ next r []
unfolding flush_only
flush_only-IsDrained r d = rw (flush-IsDrained r d, flush_only) refl

-- Either turn does nothing for a packet; only `recvMessage` sends its number again.
abbrev pub Ignores : Receiver → Packet → Type 0
Ignores r p =
    (recv_packet_turn r p ≡ next r (ack_datagram r.recv_base ∷ []))
    × (recv_packet_turn_opt r p ≡ next r [])

wrong_sum-Ignores :
    (r : Receiver) (p : Packet)
    → IsDrained r
    → p.rtp.length ≤ 1461
    → packet_checks p ≡ false
    → Ignores r p
unfolding recv_packet_turn recv_packet_turn_opt
wrong_sum-Ignores r p d small wrong =
    let ack = flush_and_ack-IsDrained r d in
    let only = flush_only-IsDrained r d in (ground arith, ground arith)

-- Take a datagram that is as long as its header says, fits the buffer and passes the test of the
-- checksum, and replace one of its bytes by another, not one of the two bytes of the length. Then a
-- turn of either version leaves the receiver as it was, whatever the type of the packet has become:
-- nothing is cached or written, the loop goes on, recvMessageOpt sends nothing, and recvMessage
-- repeats the number that it waits for. The receiver waits for a packet that it has not cached yet.
pub corrupted-Ignores :
    (r : Receiver) (d : List ℕ) (i b : ℕ)
    → IsDrained r
    → IsWhole d
    → packet_checks (decode_packet (receive_buffer d)) ≡ true
    → b < 256
    → i < length d
    → i ≢ 1
    → i ≢ 2
    → byte_at d i ≢ b
    → Ignores r (decode_packet (receive_buffer (set d i b)))
corrupted-Ignores r d i b drained w ok hb hi one two ne =
    wrong_sum-Ignores r (decode_packet (receive_buffer (set d i b))) drained
      (IsWhole-length (set d i b) (set-IsWhole d i b w hb one two))
      (corrupted-packet_checks d i b w ok hb hi one two ne)
