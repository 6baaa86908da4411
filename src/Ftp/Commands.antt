-- ===== src/Ftp/Commands.antt =====
-- Lab1/My Codes/ftp_client.cpp: `authen`, `ls`, `myPut`, `myGet`, `quit` and `eval`. The socket is
-- an input, as in Ftp.Client: `Calls` has the first answer, and a list what the calls of `recv` in
-- the loop of `myGet` return. Of what is printed only the list of files is kept.
use computer_network_labs.Prelude.{
  ℕ, ◌+◌, ◌-◌, ◌^◌, Bool, true, false, not, ◌||◌, List, [], ◌∷◌, ◌++◌, Option, none, some, ℤ, pos,
  negsuc, minus_one, int_eq, ltb, leb, ◌==◌, if◌then◌else◌, length, get_or, take, drop, replicate,
}
use computer_network_labs.Ftp.CommandLine.{
  Builtin, builtin_open, builtin_auth, builtin_ls, builtin_get, builtin_put, builtin_quit,
  builtin_none, CmdlineTokens, parse_line,
}
use computer_network_labs.Ftp.Pack.{pack, byte_at, is_my_ftp, length_field}
use computer_network_labs.Ftp.File.{
  Disk, file_blocks, count_bytes, Progress, again, complete, broken, get_turn, receive_loop,
  start_receiving,
}
use computer_network_labs.Ftp.Client.{Client, Calls, closefd, eval_open}

-- What a command does: it ends, with the packets sent, the list printed and the file written; it
-- waits in a loop for more; it faults; or the program exits.
pub data Outcome : Type 0 where
  finished : List (List ℕ) → List ℕ → Option (List ℕ) → Outcome
  blocked : Outcome
  faulted : Outcome
  exited : List (List ℕ) → Outcome

-- Nothing sent, printed or written.
abbrev pub nothing : Outcome
nothing = finished [] [] none

-- `tok->argv[i]`
abbrev pub arg : List (List ℕ) → ℕ → List ℕ
arg argv i = get_or argv i []

-- A request packet with a string behind it.
abbrev pub request : ℕ → List ℕ → List ℕ
request m_type text = pack m_type 0 (12 + length text + 1) ++ (text ++ (0 ∷ []))

abbrev pub auth_text : List ℕ → List ℕ → List ℕ
auth_text user pass = user ++ (32 ∷ pass)

-- The packet, if `send` succeeds.
abbrev pub sent_if : Calls → List ℕ → List (List ℕ)
sent_if calls packet = if calls.sent then packet ∷ [] else []

-- The tests after a request: `send`, `recv`, the protocol and the type of the answer. `none` is
-- where the code returns -1; otherwise the bytes of the answer.
unfoldable pub answered : ℕ → Calls → Option (List ℕ)
unfolding is_my_ftp
answered m_type calls = elim calls.reply [
  | none ↦ none
  | some buf_read ↦
      if not calls.sent || (not (is_my_ftp buf_read) || not (byte_at buf_read 6 == m_type))
      then none
      else some buf_read
]

-- `authen`: the result and the packets sent.
unfoldable pub authen : List (List ℕ) → Calls → Client → ℤ × List (List ℕ)
unfolding answered
authen argv calls c =
    let packet = request 0xA3 (auth_text (arg argv 1) (arg argv 2)) in
    if not c.is_socket || (c.is_auth || not (length argv == 3)) then (negsuc 1, []) else (
      elim (answered 0xA4 calls) [
        | none ↦ minus_one
        | some buf_read ↦ if byte_at buf_read 7 == 0 then minus_one else pos 0
      ],
      sent_if calls packet,
    )

-- After a command: `closefd` if its result is -1.
abbrev pub settle : ℤ → Client → Client
settle result c = if int_eq result minus_one then closefd c else c

-- The branch of `eval` for `BUILTIN_AUTH`.
unfoldable pub eval_auth : List (List ℕ) → Calls → Client → Client × Outcome
unfolding authen closefd
eval_auth argv calls c =
    let (a, sent) = authen argv calls c in
    if c.is_auth then (c, nothing) else (
      if int_eq a (pos 0) then record c { is_auth = true } else settle a c,
      finished sent [] none,
    )

-- `isSocket == 0`, then `isAuth == 0`, then the number of parameters.
abbrev pub refused : List (List ℕ) → ℕ → Client → Bool
refused argv argc c = not c.is_socket || (not c.is_auth || not (length argv == argc))

-- The list that `ls` prints from its buffer of 4080 bytes. `listLen` is an `int`, and the list is
-- empty if it is negative; `none` if it is longer than the buffer.
unfoldable pub printed_list : List ℕ → Option (List ℕ)
unfolding length_field
printed_list buf_read =
    let n = length_field buf_read in
    if ltb n 13 || leb (2 ^ 31 + 13) n
    then some []
    else if ltb 4068 (n - 13)
    then none
    else some (take (n - 13) (drop 12 (buf_read ++ replicate 4080 0)))

-- `ls`, whose test on the parameters is `argc > 1`; its `recv` reads 2060 bytes at most.
unfoldable pub eval_ls : List (List ℕ) → Calls → Client → Client × Outcome
unfolding answered closefd
eval_ls argv calls c =
    let packet = pack 0xA5 0 12 in
    if not c.is_socket || (not c.is_auth || ltb 1 (length argv))
    then (c, nothing)
    else elim (answered 0xA6 calls) [
      | none ↦ (closefd c, finished (sent_if calls packet) [] none)
      | some reply ↦ elim (printed_list (take 2060 reply)) [
        | none ↦ (c, faulted)
        | some list ↦ (c, finished (packet ∷ []) list none)
      ]
    ]

-- What `myPut` sends after the answer: the header and the blocks of the file.
abbrev pub file_packets : List ℕ → List (List ℕ)
file_packets file = pack 0xFF 0 (12 + count_bytes (file_blocks file)) ∷ file_blocks file

unfoldable pub eval_put : List (List ℕ) → Calls → Disk → Client → Client × Outcome
unfolding answered closefd
eval_put argv calls disk c =
    let packet = request 0xA9 (arg argv 1) in
    if refused argv 2 c then (c, nothing) else elim (disk.content (arg argv 1)) [
      | none ↦ (c, nothing)
      | some file ↦ elim (answered 0xAA calls) [
        | none ↦ (closefd c, finished (sent_if calls packet) [] none)
        | some reply ↦ (c, finished (packet ∷ file_packets file) [] none)
      ]
    ]

-- The end of `myGet`, from the loop. Without a file to write into, `fwrite` gets a null pointer.
unfoldable pub get_outcome : Bool → List (List ℕ) → Progress → Outcome
get_outcome false sent (again r) = if r.first then blocked else faulted
get_outcome false sent (complete r) = faulted
get_outcome false sent broken = faulted
get_outcome true sent (again r) = blocked
get_outcome true sent (complete r) = finished sent [] (some r.written)
get_outcome true sent broken = faulted

unfoldable pub eval_get :
    List (List ℕ) → Calls → Disk → List (Option (List ℕ)) → Client → Client × Outcome
unfolding answered closefd get_outcome
eval_get argv calls disk chunks c =
    let packet = request 0xA7 (arg argv 1) in
    if refused argv 2 c then (c, nothing) else elim (answered 0xA8 calls) [
      | none ↦ (closefd c, finished (sent_if calls packet) [] none)
      | some reply ↦ if byte_at reply 7 == 0 then (c, finished (packet ∷ []) [] none) else (
        c,
        get_outcome (disk.writable (arg argv 1)) (packet ∷ [])
            (receive_loop get_turn (start_receiving 12) chunks),
      )
    ]

-- `quit`: the results of its calls are not tested, and a failed `recv` leaves a buffer of zeros.
unfoldable pub quit_packets : Calls → Client → List (List ℕ)
quit_packets calls c = if c.is_socket then sent_if calls (pack 0xAB 0 12) else []

unfoldable pub quit : Calls → Client → Client
unfolding closefd is_my_ftp
quit calls c = if not c.is_socket then c else elim calls.reply [
  | none ↦ c
  | some buf_read ↦
      if is_my_ftp buf_read then (if byte_at buf_read 6 == 0xAC then closefd c else c) else c
]

-- The branches of `eval`.
unfoldable pub run_command :
    Builtin → List (List ℕ) → Calls → Disk → List (Option (List ℕ)) → Client → Client × Outcome
unfolding eval_open eval_auth eval_ls eval_put eval_get quit quit_packets
run_command builtin_quit argv calls disk chunks c = (quit calls c, exited (quit_packets calls c))
run_command builtin_open argv calls disk chunks c =
    let (c', sent) = eval_open (length argv) calls c in (c', finished sent [] none)
run_command builtin_auth argv calls disk chunks c = eval_auth argv calls c
run_command builtin_get argv calls disk chunks c = eval_get argv calls disk chunks c
run_command builtin_put argv calls disk chunks c = eval_put argv calls disk c
run_command builtin_ls argv calls disk chunks c = eval_ls argv calls c
run_command builtin_none argv calls disk chunks c = (c, nothing)

-- `eval`: the new `tok`, the state, and what the command does. An empty line is ignored.
unfoldable pub eval :
    List ℕ
    → CmdlineTokens
    → Calls
    → Disk
    → List (Option (List ℕ))
    → Client
    → CmdlineTokens × Client × Outcome
unfolding parse_line run_command
eval cmdline tok calls disk chunks c =
    let parsed = (parse_line cmdline tok).1 in
    elim parsed.argv [
      | [] ↦ (parsed, c, nothing)
      | name ∷ args ↦
          let (c', outcome) = run_command parsed.builtins parsed.argv calls disk chunks c in
          (parsed, c', outcome)
    ]
