-- ===== src/Ftp/Listing.antt =====
-- Lab1/My Codes: client and server together, from the command ls to the list that is printed.
use computer_network_labs.Prelude.{
  ℕ, zero, suc, ◌+◌, ◌-◌, ◌≤◌, ◌<◌, ◌^◌, ◌≡◌, refl, ap, ◌∙◌, true, false, List, [], ◌∷◌, ◌++◌,
  Option, none, some, length, length-append, length-drop, ltb, leb, take, drop, replicate, take_all,
  take-append_add, length-take, arith,
}
use computer_network_labs.Ftp.Pack.{pack, length_field}
use computer_network_labs.Ftp.CommandLine.{builtin_ls}
use computer_network_labs.Ftp.File.{Disk}
use computer_network_labs.Ftp.File.Chunks.{length_field-pack}
use computer_network_labs.Ftp.Client.{Client}
use computer_network_labs.Ftp.Commands.{finished, printed_list, answered, run_command}
use computer_network_labs.Ftp.Server.{Server, continues, fgets_line, read_list, serve_list, serve}
use computer_network_labs.Ftp.Login.{request_of, replied, answered-pack}

-- A line and what is behind it are the output.
fgets_line-append :
    (n : ℕ) (cs : List ℕ)
    → (fgets_line n cs ++ drop (length (fgets_line n cs)) cs ≡ cs)
      × (length (fgets_line n cs) ≤ length cs)
unfolding fgets_line
fgets_line-append zero cs = (refl, omega arith)
fgets_line-append (suc n) [] = (refl, omega arith)
fgets_line-append (suc n) (c ∷ cs) =
    let (whole, le) = fgets_line-append n cs in ground (arith, whole, le)

fgets_line_pos : (n c : ℕ) (cs : List ℕ) → 0 < length (fgets_line (suc n) (c ∷ cs))
unfolding fgets_line
fgets_line_pos n c cs = ground arith

read_list_total :
    (rounds num : ℕ) (output : List ℕ)
    → length output ≤ rounds
    → num + length output ≤ 2079
    → read_list rounds num output ≡ some output
unfolding read_list
read_list_total zero num [] h le = refl
read_list_total zero num (c ∷ cs) h le = absurd (omega arith)
read_list_total (suc rounds) num [] h le = refl
read_list_total (suc rounds) num (c ∷ cs) h le =
    let (whole, short) = fgets_line-append 7 (c ∷ cs) in
    let some_read = fgets_line_pos 6 c cs in
    let left = length-drop (length (fgets_line 7 (c ∷ cs))) (c ∷ cs) in
    let n : ℕ = length (fgets_line 7 (c ∷ cs)) in
    let fits : ltb 2080 (num + length (fgets_line 7 (c ∷ cs)) + 1) ≡ false =
      ground (arith, short) in
    let rest =
      read_list_total rounds (num + length (fgets_line 7 (c ∷ cs)))
        (drop (length (fgets_line 7 (c ∷ cs))) (c ∷ cs)) (omega (arith, left, some_read))
        (omega (arith, left, short)) in
    rw (fits, rest) (ap (λ (t : List ℕ). some t) whole)

-- The packet with a list behind it.
abbrev pub list_reply : List ℕ → List ℕ
list_reply output = pack 0xA6 0 (12 + length output + 1) ++ (output ++ (0 ∷ []))

length-list_reply : (output : List ℕ) → length (list_reply output) ≡ length output + 13
unfolding pack
length-list_reply output = omega (arith, length-append output (0 ∷ []))

-- The first `k` characters of a text, and zeros for the others.
abbrev pub padded : ℕ → List ℕ → List ℕ
padded k [] = []
padded zero (x ∷ xs) = 0 ∷ padded zero xs
padded (suc k) (x ∷ xs) = x ∷ padded k xs

padded-zero :
    (text : List ℕ) (room : ℕ)
    → length text ≤ room
    → take (length text) (replicate room 0) ≡ padded zero text
padded-zero [] room h = refl
padded-zero (x ∷ xs) zero h = absurd (omega arith)
padded-zero (x ∷ xs) (suc room) h = ap (λ (t : List ℕ). 0 ∷ t) (padded-zero xs room (omega arith))

-- A buffer of zeros into which `k` bytes of the text and the 0 behind it are copied.
take-padded :
    (text : List ℕ) (k room : ℕ)
    → length text ≤ room
    → take (length text) (take k (text ++ (0 ∷ [])) ++ replicate room 0) ≡ padded k text
take-padded [] k room h = refl
take-padded (x ∷ xs) zero room h = padded-zero (x ∷ xs) room h
take-padded (x ∷ xs) (suc k) room h =
    ap (λ (t : List ℕ). x ∷ t) (take-padded xs k room (omega arith))

-- The first bytes of the answer: the packet, and `k` bytes behind it.
abbrev pub arrived : ℕ → List ℕ → List ℕ
arrived k output = take (12 + k) (list_reply output)

arrived-eq :
    (k : ℕ) (output : List ℕ)
    → arrived k output ≡ pack 0xA6 0 (12 + length output + 1) ++ take k (output ++ (0 ∷ []))
unfolding pack
arrived-eq k output = take-append_add (pack 0xA6 0 (12 + length output + 1)) (output ++ (0 ∷ [])) k

list_bytes :
    (n : ℕ) (text : List ℕ)
    → drop 12 ((pack 0xA6 0 n ++ text) ++ replicate 4080 0) ≡ text ++ replicate 4080 0
unfolding pack
list_bytes n text = refl

printed_list-arrived :
    (k : ℕ) (output : List ℕ)
    → length output ≤ 4067
    → printed_list (pack 0xA6 0 (12 + length output + 1) ++ take k (output ++ (0 ∷ [])))
      ≡ some (padded k output)
unfolding printed_list
printed_list-arrived k output h =
    let text : List ℕ = take k (output ++ (0 ∷ [])) in
    let n : length_field (pack 0xA6 0 (12 + length output + 1) ++ text) ≡ 12 + length output + 1 =
      length_field-pack 0xA6 0 (12 + length output + 1) text (omega arith) in
    let size : 12 + length output + 1 - 13 ≡ length output = omega arith in
    let low : ltb (12 + length output + 1) 13 ≡ false = ground arith in
    let high : leb (2 ^ 31 + 13) (12 + length output + 1) ≡ false = ground arith in
    let inside : ltb 4068 (length output) ≡ false = ground arith in
    rw (n, low, high, size, inside)
      (ap (λ (t : List ℕ). some t)
        (ap (λ (t : List ℕ). take (length output) t) (list_bytes (12 + length output + 1) text)
          ∙ take-padded output k 4080 (omega arith)))

serve-list :
    (output : List ℕ) (s : Server)
    → length output ≤ 2079
    → serve output (request_of (pack 0xA5 0 12) []) s ≡ continues (list_reply output ∷ []) s
unfolding serve pack
serve-list output s short =
    rw (read_list_total (length output) 0 output (omega arith) (omega arith), serve_list) refl

-- A client with a connection that counts as logged in asks for the list of files without more
-- words, and the server answers in whatever state it is and whether or not the client has logged in
-- there; the request arrives in one piece. The output of `ls` has at most 2079 characters. The
-- client calls `recv` once; say that it gets the packet of the answer and `k` bytes behind it,
-- which fit the 2060 bytes that it asks for. Then it prints the first `k` characters of the output,
-- and a zero for each other: the whole output if `k` is at least its length, and less if the stream
-- brings the answer in parts or the output is longer than 2048 characters.
pub list-serve :
    (output : List ℕ) (k : ℕ) (s : Server) (disk : Disk) (chunks : List (Option (List ℕ)))
    (c : Client)
    → length output ≤ 2079
    → k ≤ 2048
    → c.is_socket ≡ true
    → c.is_auth ≡ true
    → (serve output (request_of (pack 0xA5 0 12) []) s ≡ continues (list_reply output ∷ []) s)
      × (run_command builtin_ls ((108 ∷ 115 ∷ []) ∷ []) (replied (arrived k output)) disk chunks c
          ≡ (c, finished (pack 0xA5 0 12 ∷ []) (padded k output) none))
list-serve output k s disk chunks c short fits h i =
    let text : List ℕ = take k (output ++ (0 ∷ [])) in
    let whole : take 2060 (arrived k output) ≡ arrived k output =
      take_all 2060 (arrived k output) (omega (arith, length-take (12 + k) (list_reply output))) in
    let same = arrived-eq k output in
    let answer : answered 0xA6 (replied (arrived k output)) ≡ some (arrived k output) =
      rw same (answered-pack 0xA6 0 (12 + length output + 1) text) in
    let list : printed_list (arrived k output) ≡ some (padded k output) =
      rw same (printed_list-arrived k output (omega arith)) in
    (serve-list output s short, unfold run_command in ground (arith, answer, whole, list))

-- When all the characters come, all are printed.
padded_all : (k : ℕ) (output : List ℕ) → length output ≤ k → padded k output ≡ output
padded_all k [] h = refl
padded_all zero (x ∷ xs) h = absurd (omega arith)
padded_all (suc k) (x ∷ xs) h = ap (λ (t : List ℕ). x ∷ t) (padded_all k xs (omega arith))
