-- ===== src/Ftp/Server.antt =====
-- Lab1/My Codes/ftp_server.cpp: the body of the loop in `main`. The sockets are inputs: a request
-- has what the first `recv` reads, what the second reads, and what those in the loop for a file
-- read. The output of the program `ls` is an input too; the calls of `send` succeed.
use computer_network_labs.Prelude.{
  ℕ, zero, suc, ◌+◌, Bool, true, false, not, List, [], ◌∷◌, ◌++◌, Option, none, some, ltb, ◌==◌,
  same_bytes, if◌then◌else◌, length, drop,
}
use computer_network_labs.Ftp.Pack.{
  pack, byte_at, is_my_ftp, packet_at, with_type, with_status, with_length, c_string,
}
use computer_network_labs.Ftp.File.{
  Disk, file_blocks, count_bytes, Progress, again, complete, broken, store_turn, receive_loop,
  start_receiving,
}

-- The files, and the global `fileLen` with the size of the header added.
pub record Server : Type 0 where
  pub disk : Disk
  pub total : ℕ

pub record Request : Type 0 where
  pub header : List ℕ
  pub payload : List ℕ
  pub chunks : List (Option (List ℕ))

-- A turn of the loop sends packets and goes on with the client or accepts the next one; it waits
-- for more of a file; or it is a fault: a write outside a buffer, or into a file that is not open.
pub data Served : Type 0 where
  continues : List (List ℕ) → Server → Served
  accepts : List (List ℕ) → Server → Served
  waits : Served
  crashes : Served

-- "user 123123"
abbrev pub credentials : List ℕ
credentials = 117 ∷ 115 ∷ 101 ∷ 114 ∷ 32 ∷ 49 ∷ 50 ∷ 51 ∷ 49 ∷ 50 ∷ 51 ∷ []

-- More than the rest of `buffer_recv` behind the packet.
abbrev pub overflows : List ℕ → Bool
overflows payload = ltb 4068 (length payload)

-- The type 0xA1.
unfoldable pub serve_open : List ℕ → Server → Served
serve_open p s = continues (with_status 1 (with_type 0xA2 p) ∷ []) s

-- The type 0xA3.
unfoldable pub serve_auth : List ℕ → List ℕ → Server → Served
unfolding same_bytes c_string
serve_auth p payload s =
    let reply = with_length 12 (with_type 0xA4 p) in
    if overflows payload
    then crashes
    else if same_bytes (c_string payload) credentials
    then continues (with_status 1 reply ∷ []) s
    else accepts (with_status 0 reply ∷ []) s

-- The type 0xAB.
unfoldable pub serve_quit : List ℕ → Server → Served
serve_quit p s = accepts (with_type 0xAC p ∷ []) s

-- What `fgets` with room for `n` characters and the 0 reads from the output of `ls`.
unfoldable pub fgets_line : ℕ → List ℕ → List ℕ
fgets_line zero output = []
fgets_line (suc n) [] = []
fgets_line (suc n) (c ∷ cs) = if c == 10 then c ∷ [] else c ∷ fgets_line n cs

-- `while(fgets(temp, sizeof(temp), fp))`, where `temp` is a pointer of 8 bytes, with `num` bytes in
-- `payload` so far; `none` if the 2080 bytes of `payload` do not hold them and a 0. Each of the
-- `rounds` takes at least one character.
unfoldable pub read_list : ℕ → ℕ → List ℕ → Option (List ℕ)
unfolding fgets_line
read_list zero num output = some []
read_list (suc rounds) num [] = some []
read_list (suc rounds) num (c ∷ cs) =
    let line = fgets_line 7 (c ∷ cs) in
    let rest = read_list rounds (num + length line) (drop (length line) (c ∷ cs)) in
    if ltb 2080 (num + length line + 1)
    then none
    else elim rest [ none ↦ none | some lines ↦ some (line ++ lines) ]

-- The type 0xA5.
unfoldable pub serve_list : List ℕ → List ℕ → Server → Served
unfolding read_list
serve_list output p s = elim (read_list (length output) 0 output) [
  | none ↦ crashes
  | some list ↦
      continues ((with_length (12 + length list + 1) (with_type 0xA6 p) ++ (list ++ (0 ∷ []))) ∷ [])
        s
]

-- A file name that the 0 behind it leaves inside the buffer.
abbrev pub bad_name : List ℕ → Bool
bad_name payload = if overflows payload then true else length (c_string payload) == 4068

abbrev pub store_file : List ℕ → List ℕ → Disk → Disk
store_file name file disk = record disk {
  content = λ n. if same_bytes name n then some file else disk.content n;
}

-- The end of the loop that receives a file. Without a file to write into, `fwrite` gets a null
-- pointer.
unfoldable pub put_outcome : Bool → List ℕ → List (List ℕ) → Server → Progress → Served
unfolding same_bytes
put_outcome false name sent s (again r) = if r.first then waits else crashes
put_outcome false name sent s (complete r) = crashes
put_outcome false name sent s broken = crashes
put_outcome true name sent s (again r) = waits
put_outcome true name sent s (complete r) =
    continues sent (record { disk = store_file name r.written s.disk; total = r.total })
put_outcome true name sent s broken = crashes

-- The type 0xA9.
unfoldable pub serve_put : List ℕ → List ℕ → List (Option (List ℕ)) → Server → Served
unfolding put_outcome c_string
serve_put p payload chunks s =
    let reply = with_length 12 (with_type 0xAA p) in
    let name = c_string payload in
    if bad_name payload
    then crashes
    else put_outcome (s.disk.writable name) name (reply ∷ []) s
        (receive_loop store_turn (start_receiving s.total) chunks)

-- The type 0xA7.
unfoldable pub serve_get : List ℕ → List ℕ → Server → Served
unfolding c_string
serve_get p payload s =
    let reply = with_length 12 (with_type 0xA8 p) in
    if bad_name payload then crashes else elim (s.disk.content (c_string payload)) [
      | none ↦ continues (with_status 0 reply ∷ []) s
      | some file ↦
          continues
            (with_status 1 reply
              ∷ pack 0xFF 0 (12 + count_bytes (file_blocks file))
              ∷ file_blocks file)
            s
    ]

-- The body of the loop, where `output` is what `ls` prints.
unfoldable pub serve : List ℕ → Request → Server → Served
unfolding is_my_ftp serve_open serve_auth serve_quit serve_list serve_put serve_get
serve output q s =
    let p = packet_at q.header in
    let t = byte_at p 6 in
    if not (is_my_ftp p)
    then continues [] s
    else if t == 0xA1
    then serve_open p s
    else if t == 0xA3
    then serve_auth p q.payload s
    else if t == 0xAB
    then serve_quit p s
    else if t == 0xA5
    then serve_list output p s
    else if t == 0xA9
    then serve_put p q.payload q.chunks s
    else if t == 0xA7
    then serve_get p q.payload s
    else continues [] s

-- The loops of `main` over the requests that come, with the number of clients accepted so far;
-- `none` when a turn waits or faults.
unfoldable pub serve_clients : List ℕ → List Request → Server → ℕ → Option (Server × ℕ)
unfolding serve
serve_clients output [] s clients = some (s, clients)
serve_clients output (q ∷ qs) s clients = elim (serve output q s) [
  | continues sent s' ↦ serve_clients output qs s' clients
  | accepts sent s' ↦ serve_clients output qs s' (clients + 1)
  | waits ↦ none
  | crashes ↦ none
]
