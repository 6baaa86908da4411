-- ===== src/Ftp/CommandLine/Names.antt =====
-- Lab1/My Codes/ftp_client.cpp: the commands.
use computer_network_labs.Prelude.{ℕ, ◌≡◌, refl, ◌≢◌, List, [], ◌∷◌, arith, same_bytes_iff}
use computer_network_labs.Ftp.CommandLine.{
  Builtin, builtin_open, builtin_auth, builtin_ls, builtin_get, builtin_put, builtin_quit,
  builtin_none, CmdlineTokens, tokens, builtin_of, parse_line,
}

-- The names of the commands as they are typed.
abbrev pub quit_name : List ℕ
quit_name = 113 ∷ 117 ∷ 105 ∷ 116 ∷ []

abbrev pub open_name : List ℕ
open_name = 111 ∷ 112 ∷ 101 ∷ 110 ∷ []

abbrev pub put_name : List ℕ
put_name = 112 ∷ 117 ∷ 116 ∷ []

abbrev pub get_name : List ℕ
get_name = 103 ∷ 101 ∷ 116 ∷ []

abbrev pub auth_name : List ℕ
auth_name = 97 ∷ 117 ∷ 116 ∷ 104 ∷ []

abbrev pub ls_name : List ℕ
ls_name = 108 ∷ 115 ∷ []

-- `builtin_none` is for the words that are no command.
abbrev pub Names : Builtin → List ℕ → Type 0
Names builtin_quit name = name ≡ quit_name
Names builtin_open name = name ≡ open_name
Names builtin_put name = name ≡ put_name
Names builtin_get name = name ≡ get_name
Names builtin_auth name = name ≡ auth_name
Names builtin_ls name = name ≡ ls_name
Names builtin_none name =
    (name ≢ quit_name)
    × (name ≢ open_name)
    × (name ≢ put_name)
    × (name ≢ get_name)
    × (name ≢ auth_name)
    × (name ≢ ls_name)

pub builtin_of-Names : (name : List ℕ) → Names (builtin_of name) name
unfolding builtin_of
builtin_of-Names name = ground (
  arith,
  same_bytes_iff name quit_name,
  same_bytes_iff name open_name,
  same_bytes_iff name put_name,
  same_bytes_iff name get_name,
  same_bytes_iff name auth_name,
  same_bytes_iff name ls_name,
)

-- What `parseLine` leaves in `tok`: no word and the command as it was, or the command that the
-- first word names.
abbrev IsNamed : CmdlineTokens → CmdlineTokens → Type 0
IsNamed old tok = elim tok.argv [
  | [] ↦ tok.builtins ≡ old.builtins
  | name ∷ args ↦ Names tok.builtins name
]

-- On every line the command that `parseLine` stores is the one whose name the first word is, and
-- `builtin_none` for a word that is none of the six names; a line without a word keeps the command.
parse_line-IsNamed :
    (cmdline : List ℕ) (tok : CmdlineTokens) → IsNamed tok (parse_line cmdline tok).1
unfolding parse_line
parse_line-IsNamed cmdline tok = go (tokens 127 cmdline) refl
  where
    go : (ts : List (List ℕ)) → tokens 127 cmdline ≡ ts → IsNamed tok (parse_line cmdline tok).1
    go [] e = rw (e, parse_line) refl
    go (x ∷ xs) e = rw (e, parse_line) (builtin_of-Names x)
