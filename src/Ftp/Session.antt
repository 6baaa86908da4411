-- ===== src/Ftp/Session.antt =====
-- Lab1/My Codes: when the client has a session, and that the server's answer gives it one.
use computer_network_labs.Prelude.{
  ℕ, ◌≡◌, refl, ◌↔◌, ◌⊎◌, true, false, List, [], ◌∷◌, Option, none, some, pos, arith,
}
use computer_network_labs.Ftp.Pack.{pack, byte_at, is_my_ftp}
use computer_network_labs.Ftp.Client.{Client, Calls, open_request, open_result, eval_open}
use computer_network_labs.Ftp.Server.{Server, continues, serve}

-- The calls succeed, and an answer arrives that has the protocol's name and the status 1.
abbrev pub IsOpened : ℕ → Calls → Type 0
IsOpened argc calls =
    (argc ≡ 3)
    × (calls.made ≡ true)
    × (calls.connected ≡ true)
    × (calls.sent ≡ true)
    × ((d : List ℕ) × (calls.reply ≡ some d) × (is_my_ftp d ≡ true) × (byte_at d 7 ≡ 1))

open_result_iff :
    (reply : Option (List ℕ))
    → (open_result reply ≡ pos 0)
      ↔ ((d : List ℕ) × (reply ≡ some d) × (is_my_ftp d ≡ true) × (byte_at d 7 ≡ 1))
unfolding open_result
open_result_iff none = (λ e. cc, λ h. cc)
open_result_iff (some d) =
    (λ e. (d, refl, ground arith, ground arith), λ (x, e, m, k). ground arith)

-- The command open leaves the client with a socket exactly if it had one or the exchange succeeds,
-- and never changes whether the client counts as authenticated.
pub eval_open_iff :
    (argc : ℕ) (calls : Calls) (c : Client)
    → (((eval_open argc calls c).0.is_socket ≡ true) ↔ ((c.is_socket ≡ true) ⊎ IsOpened argc calls))
      × ((eval_open argc calls c).0.is_auth ≡ c.is_auth)
unfolding eval_open
eval_open_iff argc calls c = ground (arith, open_result_iff calls.reply)

-- Whatever it has done before, the server answers the packet that a client without a socket sends,
-- and with this answer the client has a session.
pub open-answer_open :
    (c : Client) (s : Server) (output : List ℕ)
    → c.is_socket ≡ false
    → (reply : List ℕ) × (serve output
          (record { header = open_request; payload = []; chunks = [] })
          s
        ≡ continues (reply ∷ []) s)
      × (eval_open 3 (record { made = true; connected = true; sent = true; reply = some reply }) c
          ≡ (record c { is_socket = true }, open_request ∷ []))
unfolding serve eval_open pack
open-answer_open c s output h = (_, refl, ground arith)
