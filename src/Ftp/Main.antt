-- ===== src/Ftp/Main.antt =====
-- Lab1/My Codes/ftp_client.cpp: `main`, the loop over the lines.
pub mod LoggedOut
use computer_network_labs.Prelude.{
  ℕ, ◌-◌, Bool, true, false, List, [], ◌∷◌, Option, if◌then◌else◌, take, length,
}
use computer_network_labs.Ftp.CommandLine.{CmdlineTokens}
use computer_network_labs.Ftp.File.{Disk}
use computer_network_labs.Ftp.Client.{Client, Calls}
use computer_network_labs.Ftp.Commands.{Outcome, finished, blocked, faulted, exited, eval}

-- A round of the loop: what `fgets` reads, and what the calls of `eval` return.
pub record Round : Type 0 where
  pub line : List ℕ
  pub calls : Calls
  pub disk : Disk
  pub chunks : List (Option (List ℕ))

-- `cmdline[strlen(cmdline) - 1] = '\0'`; `fgets` reads at least one character.
abbrev pub cut_last : List ℕ → List ℕ
cut_last line = take (length line - 1) line

-- Whether the loop comes to its next round.
abbrev pub goes_on : Outcome → Bool
goes_on (finished sent list file) = true
goes_on blocked = false
goes_on faulted = false
goes_on (exited sent) = false

-- The outcomes of the rounds. Behind the last one the input ends, or `fgets` fails, and the program
-- exits.
unfoldable pub client_main : List Round → CmdlineTokens → Client → List Outcome
client_main [] tok c = []
client_main (w ∷ ws) tok c =
    let (tok', c', outcome) = eval (cut_last w.line) tok w.calls w.disk w.chunks c in
    let rest = client_main ws tok' c' in outcome ∷ (if goes_on outcome then rest else [])
