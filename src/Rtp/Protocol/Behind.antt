-- ===== src/Rtp/Protocol/Behind.antt =====
-- Lab2/My Codes: the acknowledgements of `recvMessage` that are on the network, as `sendMessage`
-- reads them.
use computer_network_labs.Prelude.{
  ℕ, ◌≤◌, ◌<◌, ◌^◌, ◌≡◌, sym, subst, ◌∙◌, ap, ◌⊎◌, inl, inr, true, List, [], ◌∷◌, Option, none,
  some, length, All, arith,
}
use computer_network_labs.Rtp.Header.{Header, encode, make_rtp_header, rtp_ack}
use computer_network_labs.Rtp.Receiver.{cache_size, ack_datagram}
use computer_network_labs.Rtp.Sender.{recv_buffer}
use computer_network_labs.Rtp.Sender.Session.{made_header_read, made-seq_num}
use computer_network_labs.Rtp.Sender.Window.{IsAck, headers, IsGreatest, Any}
use computer_network_labs.Rtp.Protocol.{System, Among, AckArrives}

-- An acknowledgement of nothing that is not cached.
abbrev pub IsSound : ℕ → List ℕ → Type 0
IsSound base d = (k : ℕ) × (d ≡ ack_datagram k) × (k ≤ base)

pub All-among {κ} :
    (P : List ℕ → Type κ) (d : List ℕ) (ds : List (List ℕ)) → All P ds → Among d ds → P d
All-among P d [] h a = elim a [ ]
All-among P d (x ∷ xs) h (inl e) = subst P e h.0
All-among P d (x ∷ xs) h (inr a) = All-among P d xs h.1 a

pub IsSound-mono : (m n : ℕ) (ds : List (List ℕ)) → m ≤ n → All (IsSound m) ds → All (IsSound n) ds
IsSound-mono m n [] le h = tt
IsSound-mono m n (d ∷ ds) le h =
    let (k, e, below) = h.0 in ((k, e, omega arith), IsSound-mono m n ds le h.1)

pub headers-ack :
    (k : ℕ)
    → k < 2 ^ 32
    → headers (length (ack_datagram k)) (ack_datagram k) ≡ make_rtp_header rtp_ack 0 k true ∷ []
unfolding headers encode
headers-ack k h = ap (λ t. t ∷ []) (made_header_read rtp_ack k h).0

abbrev pub Acks : ℕ → Header → Type 0
Acks top h = IsAck h × (h.seq_num ≡ top)

pub ack-top :
    (k top : ℕ) (d : List ℕ)
    → k < 2 ^ 32
    → d ≡ ack_datagram k
    → Any (Acks top) (headers (length d) d)
    → top ≡ k
ack-top k top d fits e a = only (rw (e, headers-ack k fits) at a)
  where
    only : Any (Acks top) (make_rtp_header rtp_ack 0 k true ∷ []) → top ≡ k
    only (inl (x, y)) = sym y ∙ made-seq_num rtp_ack k
    only (inr a) = elim a [ ]

pub noise-none : (top : ℕ) (hs : List Header) → All (λ h. ¬ IsAck h) hs → Any (Acks top) hs → ⊥
noise-none top [] no_ack a = elim a [ ]
noise-none top (h ∷ hs) no_ack (inl (x, y)) = absurd (no_ack.0 x)
noise-none top (h ∷ hs) no_ack (inr a) = noise-none top hs no_ack.1 a

-- Whatever arrives, the sender does not get ahead of the receiver.
pub acks_behind :
    (t : System) (reply : Option (List ℕ)) (base top : ℕ)
    → All (IsSound t.receiver.recv_base) t.ack_net
    → t.receiver.recv_base < cache_size
    → AckArrives t.ack_net reply
    → base ≤ t.receiver.recv_base
    → IsGreatest base (headers (length (recv_buffer reply)) (recv_buffer reply)) top
    → top ≤ t.receiver.recv_base
unfolding headers
acks_behind t reply base top sound inside arrives le g = go reply arrives g.reached
  where
    bounded :
        (d : List ℕ)
        → IsSound t.receiver.recv_base d
        → Any (Acks top) (headers (length d) d)
        → top ≤ t.receiver.recv_base
    bounded d (k, e, below) a = omega (arith, ack-top k top d (omega arith) e a)

    go :
        (r : Option (List ℕ))
        → AckArrives t.ack_net r
        → (top ≡ base) ⊎ Any (Acks top) (headers (length (recv_buffer r)) (recv_buffer r))
        → top ≤ t.receiver.recv_base
    go r arr (inl e) = omega arith
    go none arr (inr a) = elim a [ ]
    go (some d) (inl among) (inr a) =
        bounded d (All-among (IsSound t.receiver.recv_base) d t.ack_net sound among) a
    go (some d) (inr noise) (inr a) = absurd (noise-none top (headers (length d) d) noise a)
