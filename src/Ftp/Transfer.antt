-- ===== src/Ftp/Transfer.antt =====
-- Lab1/My Codes: client and server together, from the commands get and put to the file that
-- arrives.
use computer_network_labs.Prelude.{
  ℕ, ◌+◌, ◌≤◌, ◌<◌, ◌^◌, ◌≡◌, refl, ◌∙◌, true, false, List, [], ◌∷◌, ◌++◌, Option, none, some, map,
  length, length-append, arith,
}
use computer_network_labs.Ftp.Pack.{pack, byte_at, c_string}
use computer_network_labs.Ftp.CommandLine.{builtin_get, builtin_put}
use computer_network_labs.Ftp.File.{
  Disk, Receiving, Progress, again, complete, broken, get_turn, store_turn, receive_loop,
  start_receiving,
}
use computer_network_labs.Ftp.File.Blocks.{stream, file_blocks-stream}
use computer_network_labs.Ftp.File.Chunks.{
  Receives, IsFull, receive_loop-Receives, get_turn-WritesChunks, store_turn-WritesChunks,
}
use computer_network_labs.Ftp.Client.{Client}
use computer_network_labs.Ftp.Commands.{
  finished, request, answered, file_packets, eval_get, eval_put, run_command,
}
use computer_network_labs.Ftp.Server.{
  Server, continues, serve_get, serve_put, bad_name, store_file, serve,
}
use computer_network_labs.Ftp.Login.{
  request_of, replied, IsText, c_string-text, answered-pack, pack-append, status-pack,
}

-- The packets of a file are its header and the file.
stream-file_packets :
    (file : List ℕ) → stream (file_packets file) ≡ pack 0xFF 0 (12 + length file) ++ file
unfolding stream
stream-file_packets file =
    let (whole, small, count) = file_blocks-stream file in rw (whole, count) refl

-- Chunks in which the packets of a file arrive: the first is `d`, which has the whole header, and
-- none is empty. The file has less than 2 GB.
pub record ArrivesIn (file d : List ℕ) (ds : List (List ℕ)) : Type 0 where
  pub fits : 12 + length file < 2 ^ 31
  pub header : 12 ≤ length d
  pub full : IsFull ds
  pub whole : d ++ stream ds ≡ stream (file_packets file)

received :
    (file : List ℕ) (p : Progress)
    → Receives file p
    → (r : Receiving) × (p ≡ complete r) × (r.written ≡ file)
received file (again r) h = elim h [ ]
received file (complete r) h = (r, refl, h)
received file broken h = elim h [ ]

name_fits :
    (name : List ℕ)
    → IsText name
    → length name < 4068
    → (c_string (name ++ (0 ∷ [])) ≡ name) × (bad_name (name ++ (0 ∷ [])) ≡ false)
name_fits name text short =
    let same = c_string-text name text in
    (same, rw same (ground (arith, length-append name (0 ∷ []))))

-- The server's answer to get, for a file that is there and for one that is not.
serve-get :
    (name output file : List ℕ) (s : Server)
    → IsText name
    → length name < 4068
    → s.disk.content name ≡ some file
    → serve output (request_of (request 0xA7 name) []) s
      ≡ continues (pack 0xA8 1 12 ∷ file_packets file) s
unfolding serve pack
serve-get name output file s text short there =
    let (same, good) = name_fits name text short in rw (good, same, there, serve_get) refl

eval_get-file :
    (name file d : List ℕ) (ds : List (List ℕ)) (disk : Disk) (c : Client)
    → c.is_socket ≡ true
    → c.is_auth ≡ true
    → disk.writable name ≡ true
    → ArrivesIn file d ds
    → eval_get
        ((103 ∷ 101 ∷ 116 ∷ []) ∷ name ∷ [])
        (replied (pack 0xA8 1 12))
        disk
        (map some (d ∷ ds))
        c
      ≡ (c, finished (request 0xA7 name ∷ []) [] (some file))
unfolding eval_get
eval_get-file name file d ds disk c h k writable v =
    let loop =
      receive_loop-Receives get_turn get_turn-WritesChunks file d ds 12 v.fits v.header v.full
        (v.whole ∙ stream-file_packets file) in
    let (r, e, w) =
      received file (receive_loop get_turn (start_receiving 12) (map some (d ∷ ds))) loop in
    let answer : answered 0xA8 (replied (pack 0xA8 1 12)) ≡ some (pack 0xA8 1 12) =
      rw (pack-append 0xA8 1 12) at (answered-pack 0xA8 1 12 []) in
    let b : byte_at (pack 0xA8 1 12) 7 ≡ 1 =
      rw (pack-append 0xA8 1 12) at (status-pack 0xA8 1 12 []) in
    ground (arith, answer, b, writable, e, w)

serve-put :
    (name output file d : List ℕ) (ds : List (List ℕ)) (s : Server)
    → IsText name
    → length name < 4068
    → s.disk.writable name ≡ true
    → ArrivesIn file d ds
    → (s' : Server) × (serve output (request_of (request 0xA9 name) (map some (d ∷ ds))) s
        ≡ continues (pack 0xAA 0 12 ∷ []) s')
      × (s'.disk ≡ store_file name file s.disk)
unfolding serve pack
serve-put name output file d ds s text short writable v =
    let (same, good) = name_fits name text short in
    let loop =
      receive_loop-Receives store_turn store_turn-WritesChunks file d ds s.total v.fits v.header
        v.full (v.whole ∙ stream-file_packets file) in
    let (r, e, w) =
      received file (receive_loop store_turn (start_receiving s.total) (map some (d ∷ ds))) loop in
    (
      record { disk = store_file name r.written s.disk; total = r.total },
      rw (good, same, writable, e, serve_put) refl,
      rw w refl,
    )

eval_put-file :
    (name file : List ℕ) (disk : Disk) (c : Client)
    → c.is_socket ≡ true
    → c.is_auth ≡ true
    → disk.content name ≡ some file
    → eval_put ((112 ∷ 117 ∷ 116 ∷ []) ∷ name ∷ []) (replied (pack 0xAA 0 12)) disk c
      ≡ (c, finished (request 0xA9 name ∷ file_packets file) [] none)
unfolding eval_put
eval_put-file name file disk c h k there =
    let answer : answered 0xAA (replied (pack 0xAA 0 12)) ≡ some (pack 0xAA 0 12) =
      rw (pack-append 0xAA 0 12) at (answered-pack 0xAA 0 12 []) in
    ground (arith, answer)

-- A client that counts as logged in gets a file of the server's disk, of less than 2 GB and under a
-- name of fewer than 4068 characters, which the client can open for writing; the request and the 12
-- bytes of the answer arrive in one piece each. The server, in any state and without a log-in of
-- its own, answers and sends the packets of the file; and in whatever chunks these arrive, of which
-- none is empty and the first has the 12 bytes of the header, the client leaves its loop and has
-- written the file as the server has it.
pub get-serve :
    (name output file d : List ℕ) (ds : List (List ℕ)) (s : Server) (disk : Disk) (c : Client)
    → IsText name
    → length name < 4068
    → s.disk.content name ≡ some file
    → c.is_socket ≡ true
    → c.is_auth ≡ true
    → disk.writable name ≡ true
    → ArrivesIn file d ds
    → (serve output (request_of (request 0xA7 name) []) s
        ≡ continues (pack 0xA8 1 12 ∷ file_packets file) s)
      × (run_command builtin_get
            ((103 ∷ 101 ∷ 116 ∷ []) ∷ name ∷ [])
            (replied (pack 0xA8 1 12))
            disk
            (map some (d ∷ ds))
            c
          ≡ (c, finished (request 0xA7 name ∷ []) [] (some file)))
get-serve name output file d ds s disk c text short there h k writable v = (
  serve-get name output file s text short there,
  unfold run_command in eval_get-file name file d ds disk c h k writable v,
)

-- If the server does not have the file, it says so, and the client writes none and stays connected.
pub get-serve_missing :
    (name output : List ℕ) (chunks : List (Option (List ℕ))) (s : Server) (disk : Disk) (c : Client)
    → IsText name
    → length name < 4068
    → s.disk.content name ≡ none
    → c.is_socket ≡ true
    → c.is_auth ≡ true
    → (serve output (request_of (request 0xA7 name) []) s ≡ continues (pack 0xA8 0 12 ∷ []) s)
      × (run_command builtin_get
            ((103 ∷ 101 ∷ 116 ∷ []) ∷ name ∷ [])
            (replied (pack 0xA8 0 12))
            disk
            chunks
            c
          ≡ (c, finished (request 0xA7 name ∷ []) [] none))
get-serve_missing name output chunks s disk c text short missing h k =
    let (same, good) = name_fits name text short in
    let answer : answered 0xA8 (replied (pack 0xA8 0 12)) ≡ some (pack 0xA8 0 12) =
      rw (pack-append 0xA8 0 12) at (answered-pack 0xA8 0 12 []) in
    let b : byte_at (pack 0xA8 0 12) 7 ≡ 0 =
      rw (pack-append 0xA8 0 12) at (status-pack 0xA8 0 12 []) in
    (
      unfold serve pack in rw (good, same, missing, serve_get) refl,
      unfold run_command in ground (arith, answer, b),
    )

-- A client that counts as logged in puts a file of its disk, of less than 2 GB and under a name of
-- fewer than 4068 characters, which the server can open for writing; the request and the 12 bytes
-- of the answer arrive in one piece each. The client sends the request and the packets of the file;
-- and in whatever chunks these arrive, of which none is empty and the first has the 12 bytes of the
-- header, the server leaves its loop, has the file under its name, and all its other files as they
-- were.
pub put-serve :
    (name output file d : List ℕ) (ds : List (List ℕ)) (s : Server) (disk : Disk)
    (chunks : List (Option (List ℕ))) (c : Client)
    → IsText name
    → length name < 4068
    → disk.content name ≡ some file
    → c.is_socket ≡ true
    → c.is_auth ≡ true
    → s.disk.writable name ≡ true
    → ArrivesIn file d ds
    → (run_command builtin_put
          ((112 ∷ 117 ∷ 116 ∷ []) ∷ name ∷ [])
          (replied (pack 0xAA 0 12))
          disk
          chunks
          c
        ≡ (c, finished (request 0xA9 name ∷ file_packets file) [] none))
      × ((s' : Server) × (serve output (request_of (request 0xA9 name) (map some (d ∷ ds))) s
            ≡ continues (pack 0xAA 0 12 ∷ []) s')
          × (s'.disk ≡ store_file name file s.disk))
put-serve name output file d ds s disk chunks c text short there h k writable v = (
  unfold run_command in eval_put-file name file disk c h k there,
  serve-put name output file d ds s text short writable v,
)
