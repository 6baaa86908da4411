-- ===== src/Ftp/CommandLine/Examples.antt =====
-- Lab1/My Codes/ftp_client.cpp: a concrete line.
use computer_network_labs.Prelude.{◌≡◌, refl, [], ◌∷◌}
use computer_network_labs.Ftp.CommandLine.{CmdlineTokens, builtin_get, builtin_none, parse_line}
use computer_network_labs.Ftp.CommandLine.Words.{Item, layout}
use computer_network_labs.Ftp.CommandLine.Names.{get_name}

abbrev fresh : CmdlineTokens
fresh = record { argv = []; builtins = builtin_none }

-- "get" with two blanks behind it.
abbrev get_item : Item
get_item = record { first = 103; rest = 101 ∷ 116 ∷ []; delimiter = 32; gap = 32 ∷ [] }

get_is_read :
    (parse_line (layout (get_item ∷ []) (97 ∷ [])) fresh).1
    ≡ record { argv = get_name ∷ (97 ∷ []) ∷ []; builtins = builtin_get }
unfolding parse_line
get_is_read = refl
