-- ===== src/Ftp/Examples.antt =====
-- Lab1/My Codes: the theorems on client and server at concrete sessions.
use computer_network_labs.Prelude.{
  ℕ, ◌≡◌, refl, true, false, List, [], ◌∷◌, ◌++◌, some, none, map, if◌then◌else◌, arith, All,
}
use computer_network_labs.Ftp.Pack.{pack, is_my_ftp}
use computer_network_labs.Ftp.CommandLine.{
  builtin_auth, builtin_get, builtin_put, builtin_ls, builtin_none, CmdlineTokens,
}
use computer_network_labs.Ftp.File.{
  Disk, file_blocks, count_bytes, get_turn, broken, start_receiving,
}
use computer_network_labs.Ftp.File.Blocks.{stream}
use computer_network_labs.Ftp.Client.{Client, Calls}
use computer_network_labs.Ftp.Commands.{
  finished, answered, nothing, request, auth_text, file_packets, run_command, eval,
}
use computer_network_labs.Ftp.Server.{
  Server, Request, continues, accepts, store_file, serve, serve_clients,
}
use computer_network_labs.Ftp.Guards.{FlagsFrom, run_command-FlagsFrom}
use computer_network_labs.Ftp.Login.{
  request_of, replied, right_words, user_name, after_auth, auth-serve,
}
use computer_network_labs.Ftp.CommandLine.Words.{Item, layout}
use computer_network_labs.Ftp.Lines.{kept_words, Runs, eval-words}
use computer_network_labs.Ftp.Main.{Round, client_main}
use computer_network_labs.Ftp.Main.LoggedOut.{Refuses, IsHarmless, client_main-IsHarmless}
use computer_network_labs.Ftp.Listing.{list_reply, arrived, list-serve}
use computer_network_labs.Ftp.Serving.{serve_clients-IsClosed}
use computer_network_labs.Ftp.Transfer.{ArrivesIn, get-serve, put-serve}

abbrev idle : Client
idle = record { is_socket = false; is_auth = false }

abbrev connected : Client
connected = record { is_socket = true; is_auth = false }

abbrev logged_in : Client
logged_in = record { is_socket = true; is_auth = true }

-- The calls succeed, and the server refuses.
abbrev refused : Calls
refused = record { made = true; connected = true; sent = true; reply = some (pack 0xA2 0 12) }

abbrev hello : List ℕ
hello = 104 ∷ 101 ∷ 108 ∷ 108 ∷ 111 ∷ []

-- A file that is called "a".
abbrev name : List ℕ
name = 97 ∷ []

abbrev disk : Disk
disk = record { content = λ n. some hello; writable = λ n. true }

abbrev server : Server
server = record { disk = disk; total = 0 }

abbrev no_words : CmdlineTokens
no_words = record { argv = []; builtins = builtin_none }

abbrev auth_argv : List (List ℕ)
auth_argv = (97 ∷ 117 ∷ 116 ∷ 104 ∷ []) ∷ user_name ∷ (49 ∷ []) ∷ []

run_command-FlagsFrom_example :
    FlagsFrom builtin_auth auth_argv
      (replied (pack 0xA4 0 12))
      connected
      (run_command builtin_auth auth_argv (replied (pack 0xA4 0 12)) disk [] connected).0
run_command-FlagsFrom_example =
    run_command-FlagsFrom builtin_auth auth_argv (replied (pack 0xA4 0 12)) disk [] connected

-- The right name with a wrong password.
auth-serve_example :
    let right = right_words user_name (49 ∷ []) in
    let reply = pack 0xA4 (if right then 1 else 0) 12 in
    (serve [] (request_of (request 0xA3 (auth_text user_name (49 ∷ []))) []) server
      ≡ (if right then continues (reply ∷ []) server else accepts (reply ∷ []) server))
    × (run_command builtin_auth auth_argv (replied reply) disk [] connected
        ≡ after_auth right user_name (49 ∷ []))
auth-serve_example =
    auth-serve user_name (49 ∷ []) [] server disk [] connected (omega arith) (omega arith)
      (omega arith) refl refl

-- A list of one name, whose end does not arrive in time.
list-serve_example :
    (serve (97 ∷ 10 ∷ []) (request_of (pack 0xA5 0 12) []) server
      ≡ continues (list_reply (97 ∷ 10 ∷ []) ∷ []) server)
    × (run_command builtin_ls
          ((108 ∷ 115 ∷ []) ∷ [])
          (replied (arrived 1 (97 ∷ 10 ∷ [])))
          disk
          []
          logged_in
        ≡ (logged_in, finished (pack 0xA5 0 12 ∷ []) (97 ∷ 0 ∷ []) none))
list-serve_example =
    list-serve (97 ∷ 10 ∷ []) 1 server disk [] logged_in (omega arith) (omega arith) refl refl

-- The packets of the file arrive in two chunks, the first with two bytes of the file.
abbrev first_part : List ℕ
first_part = pack 0xFF 0 17 ++ (104 ∷ 101 ∷ [])

abbrev second_part : List ℕ
second_part = 108 ∷ 108 ∷ 111 ∷ []

hello-ArrivesIn : ArrivesIn hello first_part (second_part ∷ [])
unfolding pack stream file_blocks count_bytes
hello-ArrivesIn = record {
  fits = omega arith;
  header = omega arith;
  full = (omega arith, tt);
  whole = refl;
}

get-serve_example :
    (serve [] (request_of (request 0xA7 name) []) server
      ≡ continues (pack 0xA8 1 12 ∷ file_packets hello) server)
    × (run_command builtin_get
          ((103 ∷ 101 ∷ 116 ∷ []) ∷ name ∷ [])
          (replied (pack 0xA8 1 12))
          disk
          (map some (first_part ∷ second_part ∷ []))
          logged_in
        ≡ (logged_in, finished (request 0xA7 name ∷ []) [] (some hello)))
get-serve_example =
    get-serve name [] hello first_part (second_part ∷ []) server disk logged_in (omega arith)
      (omega arith) refl refl refl refl hello-ArrivesIn

put-serve_example :
    (run_command builtin_put
        ((112 ∷ 117 ∷ 116 ∷ []) ∷ name ∷ [])
        (replied (pack 0xAA 0 12))
        disk
        []
        logged_in
      ≡ (logged_in, finished (request 0xA9 name ∷ file_packets hello) [] none))
    × ((s' : Server) × (serve []
            (request_of (request 0xA9 name) (map some (first_part ∷ second_part ∷ [])))
            server
          ≡ continues (pack 0xAA 0 12 ∷ []) s')
        × (s'.disk ≡ store_file name hello server.disk))
put-serve_example =
    put-serve name [] hello first_part (second_part ∷ []) server disk [] logged_in (omega arith)
      (omega arith) refl refl refl refl hello-ArrivesIn

-- A first chunk without a whole header makes the client write a negative number of bytes.
short_chunk_faults : get_turn (start_receiving 12) (some (0xE3 ∷ [])) ≡ broken
unfolding get_turn
short_chunk_faults = refl

-- The line "get a" before a log-in.
line_ignored :
    (eval (103 ∷ 101 ∷ 116 ∷ 32 ∷ 97 ∷ []) no_words refused disk [] connected).2 ≡ nothing
unfolding eval
line_ignored = refl

abbrev closed : Request
closed = record { header = []; payload = []; chunks = [] }

serve_clients-IsClosed_example :
    serve_clients [] (closed ∷ closed ∷ closed ∷ []) server 1 ≡ some (server, 1)
serve_clients-IsClosed_example =
    serve_clients-IsClosed [] (closed ∷ closed ∷ closed ∷ []) server 1 (refl, (refl, (refl, tt)))

-- "get" with two blanks behind it.
abbrev get_item : Item
get_item = record { first = 103; rest = 101 ∷ 116 ∷ []; delimiter = 32; gap = 32 ∷ [] }

-- The line of a tabulator, "get  ab" and a blank, and the line of the tabulator.
eval-words_example :
    Runs (kept_words (get_item ∷ []) 97 (98 ∷ [])) refused disk [] logged_in (
      eval
        ((9 ∷ []) ++ layout (get_item ∷ []) (97 ∷ ((98 ∷ []) ++ (32 ∷ []))))
        no_words
        refused
        disk
        []
        logged_in)
    × (eval (9 ∷ []) no_words refused disk [] logged_in
        ≡ (record no_words { argv = [] }, logged_in, nothing))
eval-words_example =
    eval-words (9 ∷ []) (get_item ∷ []) 97 (98 ∷ []) (32 ∷ []) no_words refused disk [] logged_in
      (refl, tt)
      (record { first = refl; rest = (refl, (refl, tt)); delimiter = refl; gap = (refl, tt) }, tt)
      refl (refl, tt) (refl, tt)

-- "get a", as `fgets` reads it.
abbrev get_round : Round
get_round = record {
  line = 103 ∷ 101 ∷ 116 ∷ 32 ∷ 97 ∷ 10 ∷ [];
  calls = refused;
  disk = disk;
  chunks = [];
}

refused-Refuses : Refuses refused
unfolding answered pack is_my_ftp
refused-Refuses d e = cc

client_main-IsHarmless_example :
    All IsHarmless (client_main (get_round ∷ get_round ∷ []) no_words connected)
client_main-IsHarmless_example =
    client_main-IsHarmless (get_round ∷ get_round ∷ []) no_words connected refl
      (refused-Refuses, (refused-Refuses, tt))
