-- ===== src/Ftp/Main/LoggedOut.antt =====
-- Lab1/My Codes/ftp_client.cpp: sessions in which no log-in succeeds.
use computer_network_labs.Prelude.{
  ℕ, ◌≡◌, ◌⊎◌, refl, inl, inr, true, false, List, [], ◌∷◌, Option, none, some, All, length, Bool,
  if◌then◌else◌, Bool-cases, arith,
}
use computer_network_labs.Ftp.Pack.{pack, byte_at}
use computer_network_labs.Ftp.CommandLine.{
  Builtin, builtin_open, builtin_auth, builtin_ls, builtin_get, builtin_put, builtin_quit,
  builtin_none, CmdlineTokens, parse_line,
}
use computer_network_labs.Ftp.File.{Disk}
use computer_network_labs.Ftp.Client.{Client, Calls, eval_open, open_session}
use computer_network_labs.Ftp.Commands.{
  Outcome, finished, blocked, faulted, exited, nothing, answered, run_command, eval, eval_auth,
  authen, quit_packets,
}
use computer_network_labs.Ftp.Guards.{run_command-FlagsFrom, run_command-nothing}
use computer_network_labs.Ftp.Main.{Round, cut_last, client_main}

-- No answer to a request to log in, or one with the status 0.
abbrev pub Refuses : Calls → Type 0
Refuses calls = (d : List ℕ) → answered 0xA4 calls ≡ some d → byte_at d 7 ≡ 0

-- A packet that opens or ends a session, or asks for a log-in.
abbrev pub OpensOrEnds : List ℕ → Type 0
OpensOrEnds packet =
    (byte_at packet 6 ≡ 0xA1) ⊎ ((byte_at packet 6 ≡ 0xA3) ⊎ (byte_at packet 6 ≡ 0xAB))

-- Such packets only, no list printed, no file written, and no loop or fault.
abbrev pub IsHarmless : Outcome → Type 0
IsHarmless (finished sent list file) = All OpensOrEnds sent × (list ≡ []) × (file ≡ none)
IsHarmless blocked = ⊥
IsHarmless faulted = ⊥
IsHarmless (exited sent) = All OpensOrEnds sent

open-IsHarmless :
    (argv : List (List ℕ)) (calls : Calls) (c : Client)
    → IsHarmless (finished (eval_open (length argv) calls c).1 [] none)
unfolding eval_open open_session pack
open-IsHarmless argv calls c = ground arith

auth-IsHarmless :
    (argv : List (List ℕ)) (calls : Calls) (c : Client) → IsHarmless (eval_auth argv calls c).1
unfolding eval_auth authen pack
auth-IsHarmless argv calls c = ground arith

quit-IsHarmless : (calls : Calls) (c : Client) → IsHarmless (exited (quit_packets calls c))
unfolding quit_packets pack
quit-IsHarmless calls c = ground arith

nothing-IsHarmless :
    (b : Builtin) (argv : List (List ℕ)) (calls : Calls) (disk : Disk)
    (chunks : List (Option (List ℕ))) (c : Client)
    → run_command b argv calls disk chunks c ≡ (c, nothing)
    → IsHarmless (run_command b argv calls disk chunks c).1
nothing-IsHarmless b argv calls disk chunks c e = rw e (tt, refl, refl)

run_command-IsHarmless :
    (b : Builtin) (argv : List (List ℕ)) (calls : Calls) (disk : Disk)
    (chunks : List (Option (List ℕ))) (c : Client)
    → c.is_auth ≡ false
    → IsHarmless (run_command b argv calls disk chunks c).1
unfolding run_command
run_command-IsHarmless builtin_open argv calls disk chunks c h = open-IsHarmless argv calls c
run_command-IsHarmless builtin_auth argv calls disk chunks c h = auth-IsHarmless argv calls c
run_command-IsHarmless builtin_ls argv calls disk chunks c h =
    nothing-IsHarmless builtin_ls argv calls disk chunks c
      (run_command-nothing builtin_ls argv calls disk chunks c (inl refl) (ground arith))
run_command-IsHarmless builtin_get argv calls disk chunks c h =
    nothing-IsHarmless builtin_get argv calls disk chunks c
      (run_command-nothing builtin_get argv calls disk chunks c (inr (inl refl)) (ground arith))
run_command-IsHarmless builtin_put argv calls disk chunks c h =
    nothing-IsHarmless builtin_put argv calls disk chunks c
      (run_command-nothing builtin_put argv calls disk chunks c (inr (inr refl)) (ground arith))
run_command-IsHarmless builtin_quit argv calls disk chunks c h = quit-IsHarmless calls c
run_command-IsHarmless builtin_none argv calls disk chunks c h = (tt, refl, refl)

run_command-logged_out :
    (b : Builtin) (argv : List (List ℕ)) (calls : Calls) (disk : Disk)
    (chunks : List (Option (List ℕ))) (c : Client)
    → c.is_auth ≡ false
    → Refuses calls
    → (run_command b argv calls disk chunks c).0.is_auth ≡ false
run_command-logged_out b argv calls disk chunks c h refuses =
    let flags = run_command-FlagsFrom b argv calls disk chunks c in
    elim (Bool-cases (run_command b argv calls disk chunks c).0.is_auth) [
      | inl in_now ↦ elim (flags.auth in_now) [
        | inl old ↦ cc
        | inr (name, (socket, words, (d, answer, status))) ↦ absurd (status (refuses d answer))
      ]
      | inr out ↦ out
    ]

-- The state and the outcome behind a line.
abbrev StaysOut : CmdlineTokens × Client × Outcome → Type 0
StaysOut (tok, c, outcome) = (c.is_auth ≡ false) × IsHarmless outcome

eval-StaysOut :
    (cmdline : List ℕ) (tok : CmdlineTokens) (calls : Calls) (disk : Disk)
    (chunks : List (Option (List ℕ))) (c : Client)
    → c.is_auth ≡ false
    → Refuses calls
    → StaysOut (eval cmdline tok calls disk chunks c)
unfolding eval
eval-StaysOut cmdline tok calls disk chunks c h refuses =
    let parsed = (parse_line cmdline tok).1 in by_words parsed.argv refl
  where
    by_words :
        (words : List (List ℕ))
        → (parse_line cmdline tok).1.argv ≡ words
        → StaysOut (eval cmdline tok calls disk chunks c)
    by_words [] e = rw (eval, e) (h, (tt, refl, refl))
    by_words (name ∷ args) e =
        let parsed = (parse_line cmdline tok).1 in
        rw (eval, e)
          (
            run_command-logged_out parsed.builtins parsed.argv calls disk chunks c h refuses,
            run_command-IsHarmless parsed.builtins parsed.argv calls disk chunks c h,
          )

All-if :
    (b : Bool) (outcomes : List Outcome)
    → All IsHarmless outcomes
    → All IsHarmless (if b then outcomes else [])
All-if true outcomes h = h
All-if false outcomes h = tt

-- Take a session, from a client that is not logged in, in which no line gets an answer to a request
-- to log in, or only ones with the status 0. Whatever the lines, the other answers and the files
-- are: the client sends no packets but those that open or end a session or ask for a log-in, it
-- prints no list, writes no file, and neither faults nor waits in a loop.
pub client_main-IsHarmless :
    (ws : List Round) (tok : CmdlineTokens) (c : Client)
    → c.is_auth ≡ false
    → All (λ w. Refuses w.calls) ws
    → All IsHarmless (client_main ws tok c)
unfolding client_main
client_main-IsHarmless [] tok c h refuses = tt
client_main-IsHarmless (w ∷ ws) tok c h refuses =
    let (out, harmless) =
      eval-StaysOut (cut_last w.line) tok w.calls w.disk w.chunks c h (refuses.0) in
    (harmless, All-if _ _ (client_main-IsHarmless ws _ _ out (refuses.1)))
