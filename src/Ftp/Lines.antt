-- ===== src/Ftp/Lines.antt =====
-- Lab1/My Codes/ftp_client.cpp: a whole line through `eval`.
use computer_network_labs.Prelude.{
  ℕ, ◌≡◌, refl, List, [], ◌∷◌, ◌++◌, Option, map, take, All, pos, false, get_or,
}
use computer_network_labs.Ftp.CommandLine.{
  Builtin, CmdlineTokens, is_delimiter, tokens, builtin_of, parse_line,
}
use computer_network_labs.Ftp.CommandLine.Words.{
  IsGap, IsPlain, Item, IsItem, word, layout, tokens_gap, tokens-layout,
}
use computer_network_labs.Ftp.CommandLine.Names.{Names, builtin_of-Names}
use computer_network_labs.Ftp.File.{Disk}
use computer_network_labs.Ftp.Client.{Client, Calls}
use computer_network_labs.Ftp.Commands.{Outcome, nothing, run_command, eval}

-- The words of a line that are kept: the first 127.
abbrev pub kept_words : List Item → ℕ → List ℕ → List (List ℕ)
kept_words is first rest = take 127 (map word is ++ ((first ∷ rest) ∷ []))

-- `tok` and the state behind a line, and what the line does, if it runs this command with these
-- words.
abbrev pub run_words :
    Builtin
    → List (List ℕ)
    → Calls
    → Disk
    → List (Option (List ℕ))
    → Client
    → CmdlineTokens × Client × Outcome
run_words b words calls disk chunks c =
    let (c', outcome) = run_command b words calls disk chunks c in
    (record { argv = words; builtins = b }, c', outcome)

-- There is a command that the first of the words names, and the line runs it with these words.
abbrev pub Runs :
    List (List ℕ)
    → Calls
    → Disk
    → List (Option (List ℕ))
    → Client
    → CmdlineTokens × Client × Outcome
    → Type 0
Runs words calls disk chunks c result =
    (b : Builtin) × Names b (get_or words 0 []) × (result ≡ run_words b words calls disk chunks c)

parse_line-tokens :
    (cmdline name : List ℕ) (args : List (List ℕ)) (tok : CmdlineTokens)
    → tokens 127 cmdline ≡ name ∷ args
    → parse_line cmdline tok ≡ (pos 0, record { argv = name ∷ args; builtins = builtin_of name })
unfolding parse_line
parse_line-tokens cmdline name args tok e = rw (e, parse_line) refl

eval-tokens :
    (cmdline name : List ℕ) (args : List (List ℕ)) (tok : CmdlineTokens) (calls : Calls)
    (disk : Disk) (chunks : List (Option (List ℕ))) (c : Client)
    → tokens 127 cmdline ≡ name ∷ args
    → Runs (name ∷ args) calls disk chunks c (eval cmdline tok calls disk chunks c)
unfolding eval
eval-tokens cmdline name args tok calls disk chunks c e =
    (builtin_of name, builtin_of-Names name, simp (eval, parse_line-tokens cmdline name args tok e))

parse_line-gap :
    (gap : List ℕ) (tok : CmdlineTokens)
    → IsGap gap
    → parse_line gap tok ≡ (pos 1, record tok { argv = [] })
unfolding parse_line
parse_line-gap gap tok g = rw (tokens_gap 127 gap g, parse_line) refl

eval-gap :
    (gap : List ℕ) (tok : CmdlineTokens) (calls : Calls) (disk : Disk)
    (chunks : List (Option (List ℕ))) (c : Client)
    → IsGap gap
    → eval gap tok calls disk chunks c ≡ (record tok { argv = [] }, c, nothing)
unfolding eval
eval-gap gap tok calls disk chunks c g = simp (eval, parse_line-gap gap tok g)

-- A line of words with one or more delimiters between them, and any number of delimiters before the
-- first and behind the last, does what the command does that its first word names, with the first
-- 127 of the words as `argv`; for a word that is none of the six names this is the command
-- `builtin_none`. A line of delimiters only changes no more than `argv`, and does nothing.
pub eval-words :
    (gap : List ℕ) (is : List Item) (first : ℕ) (rest tail : List ℕ) (tok : CmdlineTokens)
    (calls : Calls) (disk : Disk) (chunks : List (Option (List ℕ))) (c : Client)
    → IsGap gap
    → All IsItem is
    → is_delimiter first ≡ false
    → IsPlain rest
    → IsGap tail
    → Runs
        (kept_words is first rest)
        calls
        disk
        chunks
        c
        (eval (gap ++ layout is (first ∷ (rest ++ tail))) tok calls disk chunks c)
      × (eval gap tok calls disk chunks c ≡ (record tok { argv = [] }, c, nothing))
eval-words gap [] first rest tail tok calls disk chunks c g h plain r t = (
  eval-tokens (gap ++ (first ∷ (rest ++ tail))) (first ∷ rest) [] tok calls disk chunks c
      (tokens-layout 127 gap [] first rest tail g h plain r t),
  eval-gap gap tok calls disk chunks c g,
)
eval-words gap (i ∷ is) first rest tail tok calls disk chunks c g h plain r t = (
  eval-tokens (gap ++ layout (i ∷ is) (first ∷ (rest ++ tail))) (word i)
      (take 126 (map word is ++ ((first ∷ rest) ∷ []))) tok calls disk chunks c
      (tokens-layout 127 gap (i ∷ is) first rest tail g h plain r t),
  eval-gap gap tok calls disk chunks c g,
)
