-- ===== src/Rtp/Receiver/Message.antt =====
-- Lab2/My Codes/receiver_def.c: `recvMessage` and `recvMessageOpt` from `fopen` to `stat`.
use computer_network_labs.Prelude.{
  ℕ, ◌-◌, ◌%◌, ◌^◌, ◌<◌, ◌||◌, Bool-cases, ◌≡◌, ◌⊎◌, inl, inr, refl, Bool, true, false, not, List,
  [], ◌∷◌, Option, none, some, ℤ, pos, negsuc, minus_one, ltb, if◌then◌else◌, length, All, arith,
}
use computer_network_labs.Rtp.Packet.{Packet}
use computer_network_labs.Rtp.Receiver.{
  Receiver, Turn, next, finish, fault, Poll, poll_turn, Run, going, timed_out, returned, faulted,
  recv_loop, fresh_receiver, recv_packet_turn, recv_packet_turn_opt,
}
use computer_network_labs.Rtp.Receiver.Invariant.{Holds}
use computer_network_labs.Rtp.Receiver.Delivery.{
  IsGenuinePoll, Delivers, recv_message-Delivers, recv_message_opt-Delivers,
}

-- A call is in its loop, has returned, or has faulted. What the file holds is known if it was
-- closed.
pub data Call : Type 0 where
  running : Receiver → Call
  ended : ℤ → Option (List ℕ) → Call
  crashed : Call

-- The conversion of `st_size` to the `int` that is returned.
unfoldable pub to_int : ℕ → ℤ
to_int n = let low = n % 2 ^ 32 in if ltb low (2 ^ 31) then pos low else negsuc (2 ^ 32 - 1 - low)

-- Behind the loop: on the timer the code returns without closing the file. `found` is whether
-- `stat` succeeds.
unfoldable pub after_loop : Bool → Run → Call
unfolding to_int
after_loop found (going r) = running r
after_loop found timed_out = ended minus_one none
after_loop found (returned n r) = ended (if found then to_int n else minus_one) (some r.written)
after_loop found faulted = crashed

-- `recvMessage`, for whether `fopen` and `stat` succeed, the two globals, and the turns that come.
unfoldable pub recv_message : Bool → Bool → ℕ → ℕ → List Poll → Call
unfolding after_loop
recv_message opened found window base ws =
    if not opened
    then ended minus_one none
    else after_loop found (recv_loop recv_packet_turn (fresh_receiver window base) ws)

-- `recvMessageOpt`
unfoldable pub recv_message_opt : Bool → Bool → ℕ → ℕ → List Poll → Call
unfolding after_loop
recv_message_opt opened found window base ws =
    if not opened
    then ended minus_one none
    else after_loop found (recv_loop recv_packet_turn_opt (fresh_receiver window base) ws)

-- The timer runs out in one of the turns.
abbrev pub any_expired : List Poll → Bool
any_expired [] = false
any_expired (w ∷ ws) = w.expired || any_expired ws

behind_turn :
    (t : Turn) (rest : Receiver → Run) (b : Bool)
    → ((r : Receiver) → rest r ≡ timed_out → b ≡ true)
    → (elim t [
      | next r' sent ↦ rest r'
      | finish r' sent ↦ returned (length r'.written) r'
      | fault ↦ faulted
    ])
      ≡ timed_out
    → b ≡ true
behind_turn (next r sent) rest b ih e = ih r e
behind_turn (finish r sent) rest b ih e = cc
behind_turn fault rest b ih e = cc

recv_loop-timed_out :
    (turn : Receiver → Packet → Turn) (ws : List Poll) (r : Receiver)
    → recv_loop turn r ws ≡ timed_out
    → any_expired ws ≡ true
unfolding recv_loop
recv_loop-timed_out turn [] r e = cc
recv_loop-timed_out turn (w ∷ ws) r e = elim (Bool-cases w.expired) [
  | inl over ↦ rw over refl
  | inr more ↦ rw more (
      behind_turn (poll_turn turn r w) (λ r'. recv_loop turn r' ws) (any_expired ws)
        (λ r' e'. recv_loop-timed_out turn ws r' e') (rw (more, recv_loop) at e))
]

-- What makes a call return -1.
abbrev pub Fails : Bool → Bool → List Poll → Type 0
Fails opened found ws = (opened ≡ false) ⊎ ((found ≡ false) ⊎ (any_expired ws ≡ true))

-- While the call runs, a prefix of the sender's file is written, in whole segments. Its result is
-- -1 for a reason, or the size of the file that the sender has and that was written.
abbrev pub Answers : List ℕ → Type 0 → Call → Type 0
Answers file reason (running r) = Holds file r
Answers file reason (ended result content) =
    ((result ≡ minus_one) × reason) ⊎ ((result ≡ pos (length file)) × (content ≡ some file))
Answers file reason crashed = Unit

after_loop-Answers :
    (file : List ℕ) (found opened : Bool) (ws : List Poll) (run : Run)
    → length file < 2 ^ 31
    → (run ≡ timed_out → any_expired ws ≡ true)
    → Delivers file run
    → Answers file (Fails opened found ws) (after_loop found run)
unfolding after_loop to_int
after_loop-Answers file found opened ws (going r) small late h = h
after_loop-Answers file found opened ws timed_out small late h = inl (refl, inr (inr (late refl)))
after_loop-Answers file true opened ws (returned n r) small late (same, size) =
    rw (size, same) (inr (ground arith, refl))
after_loop-Answers file false opened ws (returned n r) small late h = inl (refl, inr (inl refl))
after_loop-Answers file found opened ws faulted small late h = tt

-- A whole call of `recvMessage` with `recv_base` 0 and any window, on turns that bring nothing but
-- genuine packets, in any order and any number of times, for a file of fewer than 2 ^ 31 bytes:
-- while it is in its loop, it has written a prefix of the sender's file, in whole segments; it
-- returns -1 only if `fopen` or `stat` failed or the timer ran out; and every other result is the
-- size of the sender's file, which has been written and closed.
pub recv_message-Answers :
    (file : List ℕ) (opened found : Bool) (window : ℕ) (ws : List Poll)
    → length file < 2 ^ 31
    → All (IsGenuinePoll file) ws
    → Answers file (Fails opened found ws) (recv_message opened found window 0 ws)
unfolding recv_message
recv_message-Answers file false found window ws small g = inl (refl, inl refl)
recv_message-Answers file true found window ws small g =
    after_loop-Answers file found true ws (recv_loop recv_packet_turn (fresh_receiver window 0) ws)
      small (recv_loop-timed_out recv_packet_turn ws (fresh_receiver window 0))
      (recv_message-Delivers file window ws g)

-- A whole call of `recvMessageOpt` with `recv_base` 0 and any window, on turns that bring nothing
-- but genuine packets, in any order and any number of times, for a file of fewer than 2 ^ 31 bytes:
-- while it is in its loop, it has written a prefix of the sender's file, in whole segments; it
-- returns -1 only if `fopen` or `stat` failed or the timer ran out; and every other result is the
-- size of the sender's file, which has been written and closed.
pub recv_message_opt-Answers :
    (file : List ℕ) (opened found : Bool) (window : ℕ) (ws : List Poll)
    → length file < 2 ^ 31
    → All (IsGenuinePoll file) ws
    → Answers file (Fails opened found ws) (recv_message_opt opened found window 0 ws)
unfolding recv_message_opt
recv_message_opt-Answers file false found window ws small g = inl (refl, inl refl)
recv_message_opt-Answers file true found window ws small g =
    after_loop-Answers file found true ws
      (recv_loop recv_packet_turn_opt (fresh_receiver window 0) ws) small
      (recv_loop-timed_out recv_packet_turn_opt ws (fresh_receiver window 0))
      (recv_message_opt-Delivers file window ws g)
