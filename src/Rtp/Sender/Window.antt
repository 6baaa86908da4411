-- ===== src/Rtp/Sender/Window.antt =====
-- Lab2/My Codes/sender_def.c: the window of `sendMessage` and its acknowledgements.
use computer_network_labs.Prelude.{
  ℕ, zero, suc, ◌+◌, ◌%◌, ◌^◌, ◌≤◌, ◌<◌, ◌≡◌, refl, ◌⊎◌, ◌↔◌, ==_iff, inl, inr, true, false, List,
  [], ◌∷◌, Option, leb, if◌then◌else◌, drop, length, length-drop, All, arith, Bool-cases,
}
use computer_network_labs.Rtp.Crc.{checksum}
use computer_network_labs.Rtp.Header.{Header, encode, decode, checks}
use computer_network_labs.Rtp.Packet.{data_datagram}
use computer_network_labs.Rtp.Sender.{
  Sender, Poll, recv_buffer, is_ack, take_ack, take_acks, receive_acks, send_turn,
}

-- An acknowledgement that is not corrupted, by Lab2/Documents/Lab2.md: the type is 3, and the
-- checksum is the one of the header with 0 in its place.
abbrev pub IsAck : Header → Type 0
IsAck h = (h.type ≡ 3) × (h.checksum ≡ checksum (encode (record h { checksum = 0 })))

-- The test of the code accepts these headers and no others.
pub is_ack-IsAck : (h : Header) → (is_ack h ≡ true) ↔ IsAck h
unfolding checks
is_ack-IsAck h =
    ground
      (arith, ==_iff h.type 3, ==_iff h.checksum (checksum (encode (record h { checksum = 0 }))))

-- The headers that a datagram holds, 11 bytes each.
unfoldable pub headers : ℕ → List ℕ → List Header
headers zero d = []
headers (suc n) d = elim (leb 11 (length d)) [
  | true ↦ decode d ∷ headers n (drop 11 d)
  | false ↦ []
]

-- More rounds than the datagram has bytes change nothing.
pub headers_enough :
    (m n : ℕ) (d : List ℕ) → length d ≤ m → length d ≤ n → headers m d ≡ headers n d
unfolding headers
headers_enough zero zero d p q = refl
headers_enough zero (suc n) d p q = ground arith
headers_enough (suc m) zero d p q = ground arith
headers_enough (suc m) (suc n) d p q =
    ground (arith, length-drop 11 d, headers_enough m n (drop 11 d))

abbrev pub Any {ℓ} : {A : Type ℓ} → (A → Type 0) → List A → Type 0
Any P [] = ⊥
Any P (x ∷ xs) = P x ⊎ Any P xs

-- `top` is the greatest of `base` and the numbers of the acknowledgements among `hs`.
pub record IsGreatest (base : ℕ) (hs : List Header) (top : ℕ) : Type 0 where
  pub above : base ≤ top
  pub bound : All (λ h. IsAck h → h.seq_num ≤ top) hs
  pub reached : (top ≡ base) ⊎ Any (λ h. IsAck h × (h.seq_num ≡ top)) hs

take_ack-cases :
    (base : ℕ) (h : Header)
    → (base ≤ take_ack base h)
      × (IsAck h → h.seq_num ≤ take_ack base h)
      × ((take_ack base h ≡ base) ⊎ (IsAck h × (h.seq_num ≡ take_ack base h)))
unfolding take_ack
take_ack-cases base h = ground (arith, is_ack-IsAck h)

IsGreatest-cons :
    (base : ℕ) (h : Header) (hs : List Header) (top : ℕ)
    → IsGreatest (take_ack base h) hs top
    → IsGreatest base (h ∷ hs) top
IsGreatest-cons base h hs top g =
    let (grows, covers, source) = take_ack-cases base h in
    record {
      above = omega arith;
      bound = (λ e. omega (arith, covers e), g.bound);
      reached = ground arith;
    }

take_acks-IsGreatest :
    (n base : ℕ) (d : List ℕ) → IsGreatest base (headers n d) (take_acks n base d)
unfolding take_acks headers
take_acks-IsGreatest zero base d = record { above = omega arith; bound = tt; reached = inl refl }
take_acks-IsGreatest (suc n) base d = elim (Bool-cases (leb 11 (length d))) [
  | inl e ↦
      rw (e, take_acks, headers)
        (IsGreatest-cons base (decode d) (headers n (drop 11 d))
          (take_acks n (take_ack base (decode d)) (drop 11 d))
          (take_acks-IsGreatest n (take_ack base (decode d)) (drop 11 d)))
  | inr e ↦
      rw (e, take_acks, headers) (record { above = omega arith; bound = tt; reached = inl refl })
]

-- The loop over a datagram takes every header in it, and the new `send_base` is the greatest of the
-- old one and the numbers of those that are acknowledgements: of type 3, and with the checksum of
-- the header in which it is 0.
pub receive_acks-IsGreatest :
    (s : Sender) (reply : Option (List ℕ))
    → let d = recv_buffer reply in
      IsGreatest s.send_base (headers (length d) d) (receive_acks reply s).send_base
unfolding receive_acks
receive_acks-IsGreatest s reply =
    take_acks-IsGreatest (length (recv_buffer reply)) s.send_base (recv_buffer reply)

-- The window does not wrap around, and nothing behind it has been sent.
pub record IsInWindow (s : Sender) : Type 0 where
  pub fits : s.send_base + s.window < 2 ^ 32
  pub ahead : s.next_seq_num ≤ s.send_base + s.window

-- What a turn sends: nothing, or the packet of a number in the window.
abbrev pub SendsInWindow : List ℕ → Sender → List (List ℕ) → Type 0
SendsInWindow file s sent =
    (sent ≡ [])
    ⊎ ((sent ≡ data_datagram file s.next_seq_num ∷ [])
        × (s.send_base ≤ s.next_seq_num)
        × (s.next_seq_num < s.send_base + s.window))

receive_acks-le :
    (s : Sender) (reply : Option (List ℕ)) → s.send_base ≤ (receive_acks reply s).send_base
receive_acks-le s reply = (receive_acks-IsGreatest s reply).above

-- Where `send_base` and the window stay below 2 ^ 32, a turn of `sendMessage` sends at most one
-- packet, and that one in the window; `send_base` never falls, and no packet behind the window
-- counts as sent. The next packet is the one after what was sent, or, when the timer has run out,
-- the first that is not acknowledged.
pub send_turn-IsInWindow :
    (file : List ℕ) (s : Sender) (w : Poll)
    → IsInWindow s
    → let t = send_turn file s w in
      SendsInWindow file s t.1
      × (s.send_base ≤ t.0.send_base)
      × (t.0.next_seq_num ≤ t.0.send_base + t.0.window)
      × (t.0.next_seq_num ≡ (if w.expired then t.0.send_base else s.next_seq_num + length t.1))
unfolding send_turn
send_turn-IsInWindow file s w v = ground (
  arith,
  receive_acks-le s w.received,
  receive_acks-le (record s { next_seq_num = (s.next_seq_num + 1) % 2 ^ 32 }) w.received,
)

-- The parts of a turn that the acknowledgements decide alone.
pub send_turn-base :
    (file : List ℕ) (s : Sender) (w : Poll)
    → ((send_turn file s w).0.send_base ≡ (receive_acks w.received s).send_base)
      × ((send_turn file s w).0.window ≡ s.window)
unfolding send_turn
send_turn-base file s w = ground arith
