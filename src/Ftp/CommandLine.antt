-- ===== src/Ftp/CommandLine.antt =====
-- Lab1/My Codes/ftp_client.cpp: `parseLine`. A line is a string of fewer than 1024 characters, as
-- `fgets` reads it, without the 0 at its end.
pub mod Words
pub mod Names
mod Examples
use computer_network_labs.Prelude.{
  ℕ, zero, suc, Bool, true, false, ◌||◌, List, [], ◌∷◌, ℤ, pos, ◌==◌, if◌then◌else◌, drop,
  same_bytes,
}

-- `delimiters`: a blank, a tabulator, a carriage return and a line feed.
abbrev pub is_delimiter : ℕ → Bool
is_delimiter c = c == 32 || (c == 9 || (c == 13 || c == 10))

-- `buf += strspn(buf, delimiters)`
unfoldable pub skip_delimiters : List ℕ → List ℕ
skip_delimiters [] = []
skip_delimiters (c ∷ cs) = if is_delimiter c then skip_delimiters cs else c ∷ cs

-- The characters from `buf` up to `buf + strcspn(buf, delimiters)`.
unfoldable pub token : List ℕ → List ℕ
token [] = []
token (c ∷ cs) = if is_delimiter c then [] else c ∷ token cs

-- The characters from `buf + strcspn(buf, delimiters)` on.
unfoldable pub after_token : List ℕ → List ℕ
after_token [] = []
after_token (c ∷ cs) = if is_delimiter c then c ∷ cs else after_token cs

-- `while(buf < endbuf)`, with room for so many more tokens: 127 at first, since the code
-- leaves the loop at `argc >= MAXARGS - 1`.
unfoldable pub tokens : ℕ → List ℕ → List (List ℕ)
unfolding skip_delimiters token after_token
tokens zero buf = []
tokens (suc room) buf = elim (skip_delimiters buf) [
  | [] ↦ []
  | c ∷ cs ↦ token (c ∷ cs) ∷ tokens room (drop 1 (after_token (c ∷ cs)))
]

pub data Builtin : Type 0 where
  builtin_open : Builtin
  builtin_auth : Builtin
  builtin_ls : Builtin
  builtin_get : Builtin
  builtin_put : Builtin
  builtin_quit : Builtin
  builtin_none : Builtin

-- `cmdline_tokens`, without the two fields that are always NULL; `argc` is the length of `argv`.
pub record CmdlineTokens : Type 0 where
  pub argv : List (List ℕ)
  pub builtins : Builtin

-- The `strcmp` chain over the names quit, open, put, get, auth and ls.
unfoldable pub builtin_of : List ℕ → Builtin
unfolding same_bytes
builtin_of name =
    if same_bytes name (113 ∷ 117 ∷ 105 ∷ 116 ∷ [])
    then builtin_quit
    else if same_bytes name (111 ∷ 112 ∷ 101 ∷ 110 ∷ [])
    then builtin_open
    else if same_bytes name (112 ∷ 117 ∷ 116 ∷ [])
    then builtin_put
    else if same_bytes name (103 ∷ 101 ∷ 116 ∷ [])
    then builtin_get
    else if same_bytes name (97 ∷ 117 ∷ 116 ∷ 104 ∷ [])
    then builtin_auth
    else if same_bytes name (108 ∷ 115 ∷ [])
    then builtin_ls
    else builtin_none

-- `parseLine` on a line that is not NULL: the result and the new `tok`. An empty line leaves
-- `builtins` as it was.
unfoldable pub parse_line : List ℕ → CmdlineTokens → ℤ × CmdlineTokens
unfolding tokens builtin_of
parse_line cmdline tok = elim (tokens 127 cmdline) [
  | [] ↦ (pos 1, record tok { argv = [] })
  | name ∷ args ↦ (pos 0, record { argv = name ∷ args; builtins = builtin_of name })
]
