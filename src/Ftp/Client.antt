-- ===== src/Ftp/Client.antt =====
-- Lab1/My Codes/ftp_client.cpp: `open` and `closefd`, and the part of `eval` that calls them. The
-- socket is an input: whether its calls succeed, and what `recv` reads. What is printed is left
-- out.
use computer_network_labs.Prelude.{
  ℕ, Bool, true, false, not, List, [], ◌∷◌, Option, none, some, ℤ, pos, negsuc, minus_one, int_eq,
  ◌==◌, if◌then◌else◌,
}
use computer_network_labs.Ftp.Pack.{pack, byte_at, is_my_ftp}

-- `isSocket` and `isAuth`.
pub record Client : Type 0 where
  pub is_socket : Bool
  pub is_auth : Bool

-- What the calls in `open` return: whether `socket`, `connect` and `send` succeed, and what `recv`
-- reads, if it does.
pub record Calls : Type 0 where
  pub made : Bool
  pub connected : Bool
  pub sent : Bool
  pub reply : Option (List ℕ)

-- The packet that asks for a session.
abbrev pub open_request : List ℕ
open_request = pack 0xA1 0 12

-- The tests of the answer.
unfoldable pub open_result : Option (List ℕ) → ℤ
unfolding is_my_ftp
open_result none = minus_one
open_result (some buf_read) =
    if not (is_my_ftp buf_read)
    then minus_one
    else if not (byte_at buf_read 7 == 1)
    then minus_one
    else pos 0

-- `open` of the code: the result, the state, and the packets sent.
unfoldable pub open_session : ℕ → Calls → Client → ℤ × Client × List (List ℕ)
unfolding open_result
open_session argc calls c =
    if c.is_socket
    then (negsuc 1, c, [])
    else if not (argc == 3)
    then (negsuc 1, c, [])
    else if not calls.made
    then (minus_one, c, [])
    else if not calls.connected
    then (minus_one, c, [])
    else if not calls.sent
    then (minus_one, record c { is_socket = true }, [])
    else (open_result calls.reply, record c { is_socket = true }, open_request ∷ [])

-- `closefd`: its test is an assignment, so it closes in every state.
unfoldable pub closefd : Client → Client
closefd c = record c { is_socket = false }

-- The branch of `eval` for `BUILTIN_OPEN`.
unfoldable pub eval_open : ℕ → Calls → Client → Client × List (List ℕ)
unfolding open_session closefd
eval_open argc calls c =
    let (result, c', sent) = open_session argc calls c in
    if c.is_socket
    then (c, [])
    else if int_eq result minus_one
    then (closefd c', sent)
    else (c', sent)
