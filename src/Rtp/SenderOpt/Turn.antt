-- ===== src/Rtp/SenderOpt/Turn.antt =====
-- Lab2/My Codes/sender_def.c: a turn of `sendMessageOpt`.
use computer_network_labs.Prelude.{
  ℕ, zero, suc, ◌+◌, ◌-◌, ◌%◌, ◌^◌, ◌≤◌, ◌<◌, ◌≡◌, refl, sym, ap, ◌∙◌, inl, inr, List, ◌∷◌, Option,
  none, some, ltb, length, ◌==◌, ==_iff, All, arith, Bool-cases, Option-cases,
}
use computer_network_labs.Rtp.Packet.{data_datagram}
use computer_network_labs.Rtp.Sender.{Sender, Poll, recv_buffer}
use computer_network_labs.Rtp.Sender.Window.{headers, Any, IsInWindow}
use computer_network_labs.Rtp.SenderOpt.{
  SenderOpt, acked_size, mark_acks, advance, send_again_from, send_again, on_timer_opt,
  receive_turn_opt, catch_up, send_next_opt, send_turn_opt,
}
use computer_network_labs.Rtp.SenderOpt.Acked.{
  IsFirstUnacked, advance-IsFirstUnacked, AckedBy, mark_acks-AckedBy, mark_acks-marks,
}

-- The packet of a number from `lo` on and before `hi`.
abbrev pub IsPacketOf : List ℕ → ℕ → ℕ → List ℕ → Type 0
IsPacketOf file lo hi d = (k : ℕ) × (d ≡ data_datagram file k) × (lo ≤ k) × (k < hi)

-- `out` are the datagrams `sent` and the packets of the numbers from `lo` on, before `hi`, that are
-- not acknowledged.
pub record SendsAgain (file : List ℕ) (acked : ℕ → ℕ) (lo hi : ℕ) (sent out : List (List ℕ))
    : Type 1 where
  pub only :
      (P : List ℕ → Type 0)
      → All P sent
      → ((k : ℕ) → lo ≤ k → k < hi → acked k ≡ 0 → P (data_datagram file k))
      → All P out
  pub every : (k : ℕ) → lo ≤ k → k < hi → acked k ≡ 0 → Any (λ d. d ≡ data_datagram file k) out
  pub old : (P : List ℕ → Type 0) → Any P sent → Any P out

send_again_from-SendsAgain :
    (n : ℕ) (file : List ℕ) (acked : ℕ → ℕ) (p : ℕ) (sent out : List (List ℕ))
    → send_again_from n file acked p sent ≡ some out
    → SendsAgain file acked p (p + n) sent out
unfolding send_again_from
send_again_from-SendsAgain zero file acked p sent out e =
    let same : sent ≡ out = ground arith in
    record {
      only = λ P h all. rw (sym same) h;
      every = λ k lo hi z. absurd (omega arith);
      old = λ P h. rw (sym same) h;
    }
send_again_from-SendsAgain (suc n) file acked p sent out e = elim (Bool-cases (ltb p acked_size)) [
  | inr outside ↦ let no : none ≡ some out = rw outside at e in cc
  | inl inside ↦ elim (Bool-cases (acked p == 0)) [
    | inl unacked ↦
        let f =
          send_again_from-SendsAgain n file acked (p + 1) (data_datagram file p ∷ sent) out
            (rw (inside, unacked) at e) in
        record {
          only = λ P h all.
              f.only P (all p (omega arith) (omega arith) (ground arith), h)
                (λ k lo hi z. all k (omega arith) (omega arith) z);
          every = λ k lo hi z. elim (Bool-cases (p == k)) [
            | inl same ↦
                f.old (λ d. d ≡ data_datagram file k)
                  (inl (ap (data_datagram file) (ground (arith, ==_iff p k))))
            | inr other ↦ f.every k (ground arith) (omega arith) z
          ];
          old = λ P h. f.old P (inr h);
        }
    | inr acknowledged ↦
        let f =
          send_again_from-SendsAgain n file acked (p + 1) sent out
            (rw (inside, acknowledged) at e) in
        record {
          only = λ P h all. f.only P h (λ k lo hi z. all k (omega arith) (omega arith) z);
          every = λ k lo hi z. elim (Bool-cases (p == k)) [
            | inl same ↦ absurd (ground (arith, ==_iff p k))
            | inr other ↦ f.every k (ground arith) (omega arith) z
          ];
          old = f.old;
        }
  ]
]

-- When the timer has run out, `send_again`, if it stays inside `acked`, sends the packets of the
-- numbers from `send_base` on and before `next_seq_num` that are not acknowledged: each of them,
-- and no other, behind what was sent before.
pub send_again-SendsAgain :
    (file : List ℕ) (s : Sender) (acked : ℕ → ℕ) (sent out : List (List ℕ))
    → send_again file s acked sent ≡ some out
    → SendsAgain file acked s.send_base s.next_seq_num sent out
unfolding send_again
send_again-SendsAgain file s acked sent out e =
    let f =
      send_again_from-SendsAgain (s.next_seq_num - s.send_base) file acked s.send_base sent out e in
    record {
      only = λ P h all. f.only P h (λ k lo hi z. all k lo (omega arith) z);
      every = λ k lo hi z. f.every k lo (omega arith) z;
      old = f.old;
    }

-- What a turn from `t` to `t'` does. The new `send_base` is the first number, from the old one on,
-- that is not acknowledged; what is acknowledged was so before, or is by the datagram of this turn,
-- and nothing else; and only packets of the window are sent.
pub record TurnsTo (file : List ℕ) (t : SenderOpt) (w : Poll) (t' : SenderOpt)
    (sent : List (List ℕ)) : Type 0 where
  pub first : IsFirstUnacked t'.acked t.window.send_base t'.window.send_base
  pub acks :
      (k : ℕ)
      → t'.acked k ≡ 1
      → AckedBy t.acked (headers (length (recv_buffer w.received)) (recv_buffer w.received)) k
  pub marks :
      (k : ℕ)
      → AckedBy t.acked (headers (length (recv_buffer w.received)) (recv_buffer w.received)) k
      → t'.acked k ≡ 1
  pub window : t'.window.window ≡ t.window.window
  pub ahead : t'.window.next_seq_num ≤ t.window.send_base + t.window.window
  pub packets : All (IsPacketOf file t.window.send_base (t.window.send_base + t.window.window)) sent

-- The state between the two parts of a turn.
pub record IsMiddle (file : List ℕ) (t : SenderOpt) (s : Sender) (sent : List (List ℕ))
    : Type 0 where
  pub base : s.send_base ≡ t.window.send_base
  pub window : s.window ≡ t.window.window
  pub ahead : s.next_seq_num ≤ t.window.send_base + t.window.window
  pub packets : All (IsPacketOf file t.window.send_base (t.window.send_base + t.window.window)) sent

catch_up-facts :
    (s : Sender)
    → ((catch_up s).send_base ≡ s.send_base)
      × ((catch_up s).window ≡ s.window)
      × (s.send_base ≤ (catch_up s).next_seq_num)
      × (s.next_seq_num ≤ s.send_base + s.window
          → (catch_up s).next_seq_num ≤ s.send_base + s.window)
unfolding catch_up
catch_up-facts s = ground arith

send_next_opt-packets :
    (file : List ℕ) (s : Sender) (lo hi : ℕ)
    → lo ≤ s.next_seq_num
    → s.send_base + s.window ≤ hi
    → hi < 2 ^ 32
    → s.next_seq_num ≤ hi
    → ((send_next_opt file s).0.send_base ≡ s.send_base)
      × ((send_next_opt file s).0.window ≡ s.window)
      × ((send_next_opt file s).0.next_seq_num ≤ hi)
      × All (IsPacketOf file lo hi) (send_next_opt file s).1
unfolding send_next_opt
send_next_opt-packets file s lo hi le ge fits ahead =
    elim (Bool-cases (ltb s.next_seq_num ((s.send_base + s.window) % 2 ^ 32))) [
      | inl room ↦
          rw room (refl, refl, ground arith, ((s.next_seq_num, refl, le, ground arith), tt))
      | inr full ↦ rw full (refl, refl, ahead, tt)
    ]

pub send_next_opt-IsMiddle :
    (file : List ℕ) (t : SenderOpt)
    → IsInWindow t.window
    → IsMiddle file t
        (send_next_opt file (catch_up t.window)).0
        (send_next_opt file (catch_up t.window)).1
send_next_opt-IsMiddle file t v =
    let (base, window, above, below) = catch_up-facts t.window in
    let (b, w, n, packets) =
      send_next_opt-packets file (catch_up t.window) t.window.send_base
        (t.window.send_base + t.window.window) above (omega arith) v.fits (below v.ahead) in
    record { base = b ∙ base; window = w ∙ window; ahead = n; packets = packets }

some_pair :
    {A B : Type 0} (a c : A) (b d : B)
    → ◌≡◌ {A = Option (A × B)} (some (a, b)) (some (c, d))
    → (a ≡ c) × (b ≡ d)
some_pair a c b d e = ground arith

on_timer_opt-packets :
    (file : List ℕ) (w : Poll) (t t' : SenderOpt) (sent out : List (List ℕ)) (lo hi : ℕ)
    → on_timer_opt file w t sent ≡ some (t', out)
    → lo ≤ t.window.send_base
    → t.window.next_seq_num ≤ hi
    → All (IsPacketOf file lo hi) sent
    → (t ≡ t') × All (IsPacketOf file lo hi) out
unfolding on_timer_opt
on_timer_opt-packets file w t t' sent out lo hi e le ge h = elim (Bool-cases w.expired) [
  | inr idle ↦
      let (same, equal) = some_pair t t' sent out (rw (idle, on_timer_opt) at e) in
      (same, rw (sym equal) h)
  | inl timeout ↦ elim (Option-cases (send_again file t.window t.acked sent)) [
    | inl fails ↦
        let no : ◌≡◌ {A = Option (SenderOpt × List (List ℕ))} none (some (t', out)) =
          rw (timeout, on_timer_opt, fails) at e in
        cc
    | inr (again, f) ↦
        let (same, equal) = some_pair t t' again out (rw (timeout, on_timer_opt, f) at e) in
        let g = send_again-SendsAgain file t.window t.acked sent again f in
        (
          same,
          rw (sym equal) (
              g.only (IsPacketOf file lo hi) h
                (λ k above below z. (k, refl, omega arith, omega arith))),
        )
  ]
]

receive_turn_opt-TurnsTo :
    (file : List ℕ) (w : Poll) (t t' : SenderOpt) (s : Sender) (sent out : List (List ℕ))
    → IsMiddle file t s sent
    → receive_turn_opt file w (record t { window = s }) sent ≡ some (t', out)
    → TurnsTo file t w t' out
unfolding receive_turn_opt
receive_turn_opt-TurnsTo file w t t' s sent out m e =
    let d = recv_buffer w.received in
    elim (Option-cases (mark_acks (length d) d t.acked)) [
      | inl fails ↦
          let no : ◌≡◌ {A = Option (SenderOpt × List (List ℕ))} none (some (t', out)) =
            rw (fails, receive_turn_opt) at e in
          cc
      | inr (acked, f) ↦ elim (Option-cases (advance acked s.send_base)) [
        | inl fails ↦
            let no : ◌≡◌ {A = Option (SenderOpt × List (List ℕ))} none (some (t', out)) =
              rw (f, receive_turn_opt, fails) at e in
            cc
        | inr (base, g) ↦
            let first = advance-IsFirstUnacked acked s.send_base base g in
            let u : SenderOpt = record { window = record s { send_base = base }; acked = acked } in
            let (same, packets) =
              on_timer_opt-packets file w u t' sent out t.window.send_base
                (t.window.send_base + t.window.window) (rw (f, receive_turn_opt, g) at e)
                (omega (arith, first.forward, m.base)) m.ahead m.packets in
            rw (sym same) (record {
              first = rw m.base at first;
              acks = λ k h. mark_acks-AckedBy (length d) d t.acked acked k f h;
              marks = λ k h. mark_acks-marks (length d) d t.acked acked k f h;
              window = m.window;
              ahead = m.ahead;
              packets = packets;
            })
      ]
    ]

-- Where `send_base` and the window stay below 2 ^ 32 and no packet behind the window counts as
-- sent, a turn of `sendMessageOpt` that does not fault takes `send_base` to the first number, from
-- the old one on, that is not acknowledged; acknowledged then is what was so before and what an
-- acknowledgement with the right checksum in the datagram of the turn names, and nothing else; and
-- the packets that it sends, the repeated ones too, are of numbers in the window that it started
-- with, which `next_seq_num` does not leave.
pub send_turn_opt-TurnsTo :
    (file : List ℕ) (t t' : SenderOpt) (w : Poll) (sent : List (List ℕ))
    → IsInWindow t.window
    → send_turn_opt file t w ≡ some (t', sent)
    → TurnsTo file t w t' sent
unfolding send_turn_opt
send_turn_opt-TurnsTo file t t' w sent v e =
    receive_turn_opt-TurnsTo file w t t' (send_next_opt file (catch_up t.window)).0
      (send_next_opt file (catch_up t.window)).1 sent (send_next_opt-IsMiddle file t v) e
