-- ===== src/Rtp/SenderOpt/Bounds.antt =====
-- Lab2/My Codes/sender_def.c: `sendMessageOpt` and the length of its array `acked`.
use computer_network_labs.Prelude.{
  ℕ, zero, suc, ◌+◌, ◌-◌, ◌≤◌, ◌<◌, ◌≡◌, refl, inl, inr, true, List, ◌∷◌, some, leb, ltb,
  if◌then◌else◌, drop, length, ◌==◌, ==_iff, All, arith, Bool-cases,
}
use computer_network_labs.Rtp.Header.{decode}
use computer_network_labs.Rtp.Packet.{data_datagram}
use computer_network_labs.Rtp.Receiver.{update}
use computer_network_labs.Rtp.Sender.{Poll, recv_buffer, is_ack}
use computer_network_labs.Rtp.Sender.Window.{IsAck, is_ack-IsAck, headers, IsInWindow}
use computer_network_labs.Rtp.SenderOpt.{
  SenderOpt, acked_size, mark_ack, mark_acks, advance_rounds, advance, send_again_from, send_again,
  on_timer_opt, receive_turn_opt, catch_up, send_next_opt, send_turn_opt,
}
use computer_network_labs.Rtp.SenderOpt.Acked.{advance-IsFirstUnacked}
use computer_network_labs.Rtp.SenderOpt.Turn.{send_next_opt-IsMiddle}

-- The turn stays inside `acked`: what is acknowledged, now or before, is in the window.
pub record StaysInside (t : SenderOpt) (w : Poll) : Type 0 where
  pub window : IsInWindow t.window
  pub room : t.window.send_base + t.window.window < acked_size
  pub before : (k : ℕ) → t.acked k ≡ 1 → k < t.window.send_base + t.window.window
  pub now :
      All
        (λ h. IsAck h → h.seq_num < t.window.send_base + t.window.window)
        (headers (length (recv_buffer w.received)) (recv_buffer w.received))

abbrev Below : (ℕ → ℕ) → ℕ → Type 0
Below acked hi = (k : ℕ) → acked k ≡ 1 → k < hi

mark_acks_total :
    (n : ℕ) (d : List ℕ) (acked : ℕ → ℕ) (hi : ℕ)
    → hi ≤ acked_size
    → Below acked hi
    → All (λ h. IsAck h → h.seq_num < hi) (headers n d)
    → (acked' : ℕ → ℕ) × (mark_acks n d acked ≡ some acked') × Below acked' hi
unfolding mark_acks headers
mark_acks_total zero d acked hi fits below now = (acked, refl, below)
mark_acks_total (suc n) d acked hi fits below now = elim (Bool-cases (leb 11 (length d))) [
  | inr short ↦ (acked, rw (short, mark_acks) refl, below)
  | inl long ↦
      let (first, rest) : (IsAck (decode d) → (decode d).seq_num < hi)
          × All (λ h. IsAck h → h.seq_num < hi) (headers n (drop 11 d)) =
        rw (long, headers) at now in
      elim (Bool-cases (is_ack (decode d))) [
        | inl ack ↦
            let (acked', e, b) =
              mark_acks_total n (drop 11 d) (update acked (decode d).seq_num 1) hi fits
                (λ k h.
                  ground
                    (arith, ==_iff (decode d).seq_num k, below k, is_ack-IsAck (decode d), first))
                rest in
            let m : mark_ack (decode d) acked ≡ some (update acked (decode d).seq_num 1) =
              unfold mark_ack in ground (arith, is_ack-IsAck (decode d), first) in
            (acked', rw (long, mark_acks, m) e, b)
        | inr other ↦
            let (acked', e, b) = mark_acks_total n (drop 11 d) acked hi fits below rest in
            let m : mark_ack (decode d) acked ≡ some acked = unfold mark_ack in ground arith in
            (acked', rw (long, mark_acks, m) e, b)
      ]
]

advance_rounds_total :
    (n : ℕ) (acked : ℕ → ℕ) (base hi : ℕ)
    → Below acked hi
    → hi < base + n
    → base ≤ hi
    → (top : ℕ) × (advance_rounds n acked base ≡ some top)
unfolding advance_rounds
advance_rounds_total zero acked base hi below lt le = absurd (omega arith)
advance_rounds_total (suc n) acked base hi below lt le = elim (Bool-cases (acked base == 1)) [
  | inl more ↦
      rw more (
        advance_rounds_total n acked (base + 1) hi below (omega arith) (ground (arith, below base)))
  | inr done ↦ (base, rw done refl)
]

-- The loop that changes `send_base` ends inside the array if nothing from `hi` on is acknowledged.
advance_total :
    (acked : ℕ → ℕ) (base hi : ℕ)
    → Below acked hi
    → base ≤ hi
    → hi < acked_size
    → (top : ℕ) × (advance acked base ≡ some top)
unfolding advance
advance_total acked base hi below le lt =
    advance_rounds_total (acked_size - base) acked base hi below (omega arith) le

send_again_from_total :
    (n : ℕ) (file : List ℕ) (acked : ℕ → ℕ) (p : ℕ) (sent : List (List ℕ))
    → p + n ≤ acked_size
    → (out : List (List ℕ)) × (send_again_from n file acked p sent ≡ some out)
unfolding send_again_from
send_again_from_total zero file acked p sent le = (sent, refl)
send_again_from_total (suc n) file acked p sent le =
    let inside : ltb p acked_size ≡ true = ground arith in
    rw inside (
      send_again_from_total n file acked (p + 1)
        (if acked p == 0 then data_datagram file p ∷ sent else sent) (omega arith))

on_timer_opt_total :
    (file : List ℕ) (w : Poll) (t : SenderOpt) (sent : List (List ℕ))
    → t.window.next_seq_num ≤ acked_size
    → t.window.send_base ≤ acked_size
    → (out : SenderOpt × List (List ℕ)) × (on_timer_opt file w t sent ≡ some out)
unfolding on_timer_opt send_again
on_timer_opt_total file w t sent le ge = elim (Bool-cases w.expired) [
  | inr idle ↦ ((t, sent), rw (idle, on_timer_opt) refl)
  | inl timeout ↦
      let (out, e) =
        send_again_from_total (t.window.next_seq_num - t.window.send_base) file t.acked
          t.window.send_base sent (omega arith) in
      ((t, out), rw (timeout, on_timer_opt, e) refl)
]

-- Where the window ends inside the array `acked` and every acknowledgement, now or before, is of a
-- number before the end of the window, no loop of a turn of `sendMessageOpt` leaves the array: the
-- turn gives a state.
pub send_turn_opt-StaysInside :
    (file : List ℕ) (t : SenderOpt) (w : Poll)
    → StaysInside t w
    → (out : SenderOpt × List (List ℕ)) × (send_turn_opt file t w ≡ some out)
unfolding send_turn_opt receive_turn_opt
send_turn_opt-StaysInside file t w v =
    let m = send_next_opt-IsMiddle file t v.window in
    let (s, sent) = send_next_opt file (catch_up t.window) in
    let d = recv_buffer w.received in
    let hi = t.window.send_base + t.window.window in
    let (acked, e, below) =
      mark_acks_total (length d) d t.acked (t.window.send_base + t.window.window)
        (omega (arith, v.room)) v.before v.now in
    let (base, f) =
      advance_total acked s.send_base (t.window.send_base + t.window.window) below
        (omega (arith, m.base)) v.room in
    let first = advance-IsFirstUnacked acked s.send_base base f in
    let u : SenderOpt = record { window = record s { send_base = base }; acked = acked } in
    let (out, g) =
      on_timer_opt_total file w u sent (omega (arith, m.ahead, v.room))
        (omega (arith, first.inside)) in
    (out, rw (e, receive_turn_opt, f) g)
