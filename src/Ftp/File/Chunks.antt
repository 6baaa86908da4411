-- ===== src/Ftp/File/Chunks.antt =====
-- Lab1/My Codes: a file arrives whole, in whatever chunks `recv` delivers it.
use mathlib.Core.List.{append_assoc, append-nil}
use computer_network_labs.Prelude.{
  ℕ, zero, suc, ◌+◌, ◌≤◌, ◌<◌, ◌^◌, ◌≡◌, ◌≢◌, ◌⊎◌, refl, sym, ap, ◌∙◌, inl, inr, false, List, [],
  ◌∷◌, ◌++◌, Option, some, map, length, length-append, get_or, drop, All, ltb, arith,
}
use computer_network_labs.Ftp.Pack.{pack, byte_at, length_field}
use computer_network_labs.Ftp.File.{
  Receiving, Progress, again, complete, broken, close_turn, write_chunk, get_turn, store_turn,
  receive_loop, file_total, start_receiving,
}
use computer_network_labs.Ftp.File.Blocks.{stream}

-- The loop is over, and the file has these bytes.
abbrev pub Receives : List ℕ → Progress → Type 0
Receives file (again r) = ⊥
Receives file (complete r) = r.written ≡ file
Receives file broken = ⊥

-- Chunks of which none is empty.
abbrev pub IsFull : List (List ℕ) → Type 0
IsFull = All (λ d. 0 < length d)

-- On a chunk that is not empty both loops do the same.
abbrev WritesChunks : (Receiving → Option (List ℕ) → Progress) → Type 0
WritesChunks turn = (r : Receiving) (d : List ℕ) → 0 < length d → turn r (some d) ≡ write_chunk r d

get_or-append : (xs ys : List ℕ) (i : ℕ) → i < length xs → get_or (xs ++ ys) i 0 ≡ get_or xs i 0
get_or-append [] ys i h = absurd (omega arith)
get_or-append (x ∷ xs) ys zero h = refl
get_or-append (x ∷ xs) ys (suc i) h = get_or-append xs ys i (omega arith)

drop-append_le : (n : ℕ) (xs ys : List ℕ) → n ≤ length xs → drop n (xs ++ ys) ≡ drop n xs ++ ys
drop-append_le zero xs ys h = refl
drop-append_le (suc n) [] ys h = absurd (omega arith)
drop-append_le (suc n) (x ∷ xs) ys h = drop-append_le n xs ys (omega arith)

-- The length that is written into a packet is read from it.
pub length_field-pack :
    (t s n : ℕ) (rest : List ℕ) → n < 2 ^ 32 → length_field (pack t s n ++ rest) ≡ n
unfolding length_field pack
length_field-pack t s n rest h = omega arith

length_zero : (xs : List ℕ) → length xs ≡ 0 → xs ≡ []
length_zero [] h = refl
length_zero (x ∷ xs) h = absurd (omega arith)

-- The state after a chunk that is not the first.
abbrev add_chunk : Receiving → List ℕ → Receiving
add_chunk r d = record r { cnt = r.cnt + length d; written = r.written ++ d }

write_chunk-rest :
    (r : Receiving) (d : List ℕ) → r.first ≡ false → write_chunk r d ≡ close_turn (add_chunk r d)
unfolding write_chunk
write_chunk-rest r d f = ground arith

-- The state after the first chunk, which brings the whole header of a file of `n` bytes.
abbrev first_chunk : ℕ → List ℕ → Receiving
first_chunk n d = record { first = false; cnt = length d; total = 12 + n; written = drop 12 d }

chunk_lengths :
    (file d rest : List ℕ)
    → d ++ rest ≡ pack 0xFF 0 (12 + length file) ++ file
    → length d + length rest ≡ 12 + length file
unfolding pack
chunk_lengths file d rest e = omega (arith, length-append d rest, ap (λ (t : List ℕ). length t) e)

header_byte :
    (file d rest : List ℕ) (i : ℕ)
    → 12 ≤ length d
    → d ++ rest ≡ pack 0xFF 0 (12 + length file) ++ file
    → i < 12
    → byte_at d i ≡ byte_at (pack 0xFF 0 (12 + length file) ++ file) i
header_byte file d rest i long e h =
    sym (get_or-append d rest i (omega arith)) ∙ ap (λ (t : List ℕ). get_or t i 0) e

first_length :
    (file d rest : List ℕ)
    → 12 + length file < 2 ^ 31
    → 12 ≤ length d
    → d ++ rest ≡ pack 0xFF 0 (12 + length file) ++ file
    → (byte_at d 6 ≡ 0xFF) × (file_total (length_field d) ≡ 12 + length file)
unfolding file_total
first_length file d rest fits long e =
    let b = λ (i : ℕ). header_byte file d rest i long e in
    let n : length_field d ≡ 12 + length file =
      unfold length_field in
      rw (b 8 (omega arith), b 9 (omega arith), b 10 (omega arith), b 11 (omega arith))
        (length_field-pack 0xFF 0 (12 + length file) file (omega arith)) in
    (b 6 (omega arith) ∙ (unfold pack in refl), rw n (ground arith))

write_chunk-first :
    (file d rest : List ℕ) (total : ℕ)
    → 12 + length file < 2 ^ 31
    → 12 ≤ length d
    → d ++ rest ≡ pack 0xFF 0 (12 + length file) ++ file
    → (write_chunk (start_receiving total) d ≡ close_turn (first_chunk (length file) d))
      × (drop 12 d ++ rest ≡ file)
unfolding write_chunk
write_chunk-first file d rest total fits long e =
    let (kind, size) = first_length file d rest fits long e in
    let enough : ltb (length d) 12 ≡ false = ground arith in
    let none_before : 0 + length d ≡ length d = omega arith in
    (
      rw (enough, kind, size, none_before) refl,
      sym (drop-append_le 12 d rest long)
          ∙ ap (λ (t : List ℕ). drop 12 t) e
          ∙ (unfold pack in refl),
    )

close_turn-cases :
    (r : Receiving)
    → ((r.cnt ≡ r.total) × (close_turn r ≡ complete r))
      ⊎ ((r.cnt ≢ r.total) × (close_turn r ≡ again r))
unfolding close_turn
close_turn-cases r = ground arith

module _ (turn : Receiving → Option (List ℕ) → Progress) (writes : WritesChunks turn) where
  -- A turn that closes in `q`: the loop is over, or goes on from there.
  receive_loop-close :
      (ds : List (List ℕ)) (w : Option (List ℕ)) (r q : Receiving) (file : List ℕ)
      → turn r w ≡ close_turn q
      → q.cnt + length (stream ds) ≡ q.total
      → q.written ++ stream ds ≡ file
      → (q.cnt ≢ q.total → Receives file (receive_loop turn q (map some ds)))
      → Receives file (receive_loop turn r (w ∷ map some ds))
  unfolding receive_loop
  receive_loop-close ds w r q file e count whole on = elim (close_turn-cases q) [
    | inl (last, c) ↦
        let empty : stream ds ≡ [] = length_zero (stream ds) (omega arith) in
        rw (e, receive_loop, c)
          (sym (append-nil q.written) ∙ ap (λ t. q.written ++ t) (sym empty) ∙ whole)
    | inr (more, c) ↦ rw (e, receive_loop, c) (on more)
  ]

  receive_loop-rest :
      (ds : List (List ℕ)) (r : Receiving) (file : List ℕ)
      → r.first ≡ false
      → IsFull ds
      → r.cnt + length (stream ds) ≡ r.total
      → r.written ++ stream ds ≡ file
      → r.cnt ≢ r.total
      → Receives file (receive_loop turn r (map some ds))
  unfolding stream
  receive_loop-rest [] r file f h count whole more = absurd (more (omega arith))
  receive_loop-rest (d ∷ ds) r file f h count whole more =
      let count' : r.cnt + length d + length (stream ds) ≡ r.total =
        omega (arith, length-append d (stream ds)) in
      let whole' : (r.written ++ d) ++ stream ds ≡ file =
        append_assoc r.written d (stream ds) ∙ whole in
      receive_loop-close ds (some d) r (add_chunk r d) file
        (writes r d h.0 ∙ write_chunk-rest r d f) count' whole'
        (receive_loop-rest ds (add_chunk r d) file f h.1 count' whole')

  -- A file of less than 2 GB that arrives behind its header, in chunks of which none is empty and
  -- the first has the whole header, is received whole.
  pub receive_loop-Receives :
      (file d : List ℕ) (ds : List (List ℕ)) (total : ℕ)
      → 12 + length file < 2 ^ 31
      → 12 ≤ length d
      → IsFull ds
      → d ++ stream ds ≡ pack 0xFF 0 (12 + length file) ++ file
      → Receives file (receive_loop turn (start_receiving total) (map some (d ∷ ds)))
  receive_loop-Receives file d ds total fits long h e =
      let (first, whole) = write_chunk-first file d (stream ds) total fits long e in
      let count : length d + length (stream ds) ≡ 12 + length file =
        chunk_lengths file d (stream ds) e in
      receive_loop-close ds (some d) (start_receiving total) (first_chunk (length file) d) file
        (writes (start_receiving total) d (omega arith) ∙ first) count whole
        (receive_loop-rest ds (first_chunk (length file) d) file refl h count whole)

pub get_turn-WritesChunks : WritesChunks get_turn
unfolding get_turn
get_turn-WritesChunks r d h = ground arith

pub store_turn-WritesChunks : WritesChunks store_turn
unfolding store_turn
store_turn-WritesChunks r d h = refl
