-- ===== src/Ftp/Guards.antt =====
-- Lab1/My Codes/ftp_client.cpp: what each command does in each state of the session.
use computer_network_labs.Prelude.{
  ℕ, ◌≡◌, ◌≢◌, ◌⊎◌, inl, inr, true, false, ◌&&◌, List, Option, some, length, Option-cases, arith,
}
use computer_network_labs.Ftp.Pack.{byte_at}
use computer_network_labs.Ftp.CommandLine.{
  Builtin, builtin_open, builtin_auth, builtin_ls, builtin_get, builtin_put, builtin_quit,
  builtin_none,
}
use computer_network_labs.Ftp.File.{Disk}
use computer_network_labs.Ftp.Client.{Client, Calls}
use computer_network_labs.Ftp.Session.{IsOpened, eval_open_iff}
use computer_network_labs.Ftp.Commands.{
  nothing, answered, run_command, eval_auth, eval_ls, eval_put, eval_get, quit,
}

-- An answer to the request to log in, with a status that is not 0.
abbrev pub LogsIn : List (List ℕ) → Calls → Client → Type 0
LogsIn argv calls c =
    (c.is_socket ≡ true)
    × (length argv ≡ 3)
    × ((d : List ℕ) × (answered 0xA4 calls ≡ some d) × (byte_at d 7 ≢ 0))

-- Where the flags of the client come from.
pub record FlagsFrom (command : Builtin) (argv : List (List ℕ)) (calls : Calls) (c c' : Client)
    : Type 0 where
  pub socket :
      c'.is_socket ≡ true
      → (c.is_socket ≡ true) ⊎ ((command ≡ builtin_open) × IsOpened (length argv) calls)
  pub auth :
      c'.is_auth ≡ true → (c.is_auth ≡ true) ⊎ ((command ≡ builtin_auth) × LogsIn argv calls c)
  pub keeps_auth : c.is_auth ≡ true → c'.is_auth ≡ true

eval_auth-FlagsFrom :
    (argv : List (List ℕ)) (calls : Calls) (c : Client)
    → FlagsFrom builtin_auth argv calls c (eval_auth argv calls c).0
unfolding eval_auth
eval_auth-FlagsFrom argv calls c = elim (Option-cases (answered 0xA4 calls)) [
  | inl e ↦ ground arith
  | inr (d, e) ↦ ground arith
]

same-FlagsFrom :
    (b : Builtin) (argv : List (List ℕ)) (calls : Calls) (c : Client) → FlagsFrom b argv calls c c
same-FlagsFrom b argv calls c = record {
  socket = λ h. inl h;
  auth = λ h. inl h;
  keeps_auth = λ h. h;
}

-- A command that may close the connection, and does nothing else to the flags.
abbrev MayClose : Client → Client → Type 0
MayClose c c' = (c' ≡ c) ⊎ (c' ≡ record c { is_socket = false })

MayClose-FlagsFrom :
    (b : Builtin) (argv : List (List ℕ)) (calls : Calls) (c c' : Client)
    → MayClose c c'
    → FlagsFrom b argv calls c c'
MayClose-FlagsFrom b argv calls c c' (inl e) = rw e (same-FlagsFrom b argv calls c)
MayClose-FlagsFrom b argv calls c c' (inr e) =
    rw e (record { socket = λ h. cc; auth = λ h. inl h; keeps_auth = λ h. h })

eval_open-FlagsFrom :
    (argv : List (List ℕ)) (calls : Calls) (disk : Disk) (chunks : List (Option (List ℕ)))
    (c : Client)
    → FlagsFrom builtin_open argv calls c (run_command builtin_open argv calls disk chunks c).0
eval_open-FlagsFrom argv calls disk chunks c =
    let (socket, auth) = eval_open_iff (length argv) calls c in
    unfold run_command in
    record { socket = λ h. ground arith; auth = λ h. ground arith; keeps_auth = λ h. ground arith }

eval_ls-MayClose :
    (argv : List (List ℕ)) (calls : Calls) (c : Client) → MayClose c (eval_ls argv calls c).0
unfolding eval_ls
eval_ls-MayClose argv calls c = ground arith

eval_put-MayClose :
    (argv : List (List ℕ)) (calls : Calls) (disk : Disk) (c : Client)
    → MayClose c (eval_put argv calls disk c).0
unfolding eval_put
eval_put-MayClose argv calls disk c = ground arith

eval_get-MayClose :
    (argv : List (List ℕ)) (calls : Calls) (disk : Disk) (chunks : List (Option (List ℕ)))
    (c : Client)
    → MayClose c (eval_get argv calls disk chunks c).0
unfolding eval_get
eval_get-MayClose argv calls disk chunks c = ground arith

quit-MayClose : (calls : Calls) (c : Client) → MayClose c (quit calls c)
unfolding quit
quit-MayClose calls c = ground arith

-- In every state and whatever the server answers: the client has a connection only if it had one or
-- the command was open and its exchange succeeded; it counts as logged in only if it did or the
-- command was auth, with a connection, two words and an answer of the right kind whose status is
-- not 0; and once it counts as logged in, no command changes that, even one that closes the
-- connection.
pub run_command-FlagsFrom :
    (b : Builtin) (argv : List (List ℕ)) (calls : Calls) (disk : Disk)
    (chunks : List (Option (List ℕ))) (c : Client)
    → FlagsFrom b argv calls c (run_command b argv calls disk chunks c).0
unfolding run_command
run_command-FlagsFrom builtin_open argv calls disk chunks c =
    eval_open-FlagsFrom argv calls disk chunks c
run_command-FlagsFrom builtin_auth argv calls disk chunks c = eval_auth-FlagsFrom argv calls c
run_command-FlagsFrom builtin_ls argv calls disk chunks c =
    MayClose-FlagsFrom builtin_ls argv calls c (eval_ls argv calls c).0
      (eval_ls-MayClose argv calls c)
run_command-FlagsFrom builtin_get argv calls disk chunks c =
    MayClose-FlagsFrom builtin_get argv calls c (eval_get argv calls disk chunks c).0
      (eval_get-MayClose argv calls disk chunks c)
run_command-FlagsFrom builtin_put argv calls disk chunks c =
    MayClose-FlagsFrom builtin_put argv calls c (eval_put argv calls disk c).0
      (eval_put-MayClose argv calls disk c)
run_command-FlagsFrom builtin_quit argv calls disk chunks c =
    MayClose-FlagsFrom builtin_quit argv calls c (quit calls c) (quit-MayClose calls c)
run_command-FlagsFrom builtin_none argv calls disk chunks c =
    same-FlagsFrom builtin_none argv calls c

-- The commands that need a log-in.
abbrev pub NeedsLogin : Builtin → Type 0
NeedsLogin b = (b ≡ builtin_ls) ⊎ ((b ≡ builtin_get) ⊎ (b ≡ builtin_put))

-- Without a connection or without a log-in the commands ls, get and put do nothing: no packet is
-- sent, nothing is printed as a list, no file is written, and the flags stay.
pub run_command-nothing :
    (b : Builtin) (argv : List (List ℕ)) (calls : Calls) (disk : Disk)
    (chunks : List (Option (List ℕ))) (c : Client)
    → NeedsLogin b
    → c.is_socket && c.is_auth ≡ false
    → run_command b argv calls disk chunks c ≡ (c, nothing)
unfolding run_command
run_command-nothing b argv calls disk chunks c (inl e) h = rw e (ground arith)
run_command-nothing b argv calls disk chunks c (inr (inl e)) h = rw e (ground arith)
run_command-nothing b argv calls disk chunks c (inr (inr e)) h = rw e (ground arith)
