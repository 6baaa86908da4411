-- ===== src/Ftp/File.antt =====
-- Lab1/My Codes: how both programs send and receive a file. `fread` gives at most 4080 bytes of
-- what is left; `recv` gives the bytes of one chunk, none when the peer has closed, or fails.
pub mod Blocks
pub mod Chunks
use computer_network_labs.Prelude.{
  ℕ, zero, suc, ◌+◌, ◌-◌, ◌^◌, Bool, true, false, List, [], ◌∷◌, ◌++◌, Option, none, some, ltb,
  ◌==◌, if◌then◌else◌, length, take, drop,
}
use computer_network_labs.Ftp.Pack.{byte_at, length_field}

-- The files as the calls of `fopen` find them: the bytes of a file that can be read, and whether a
-- file can be written. The files do not change between two calls of one command.
pub record Disk : Type 0 where
  pub content : List ℕ → Option (List ℕ)
  pub writable : List ℕ → Bool

-- The blocks of the loop over `fread`, with `n` rounds at most.
unfoldable pub blocks : ℕ → List ℕ → List (List ℕ)
blocks zero file = []
blocks (suc n) [] = []
blocks (suc n) (x ∷ xs) = take 4080 (x ∷ xs) ∷ blocks n (drop 4080 (x ∷ xs))

-- The whole loop: each round takes at least one byte.
unfoldable pub file_blocks : List ℕ → List (List ℕ)
unfolding blocks
file_blocks file = blocks (length file) file

-- `fCount` after the loop that only counts.
unfoldable pub count_bytes : List (List ℕ) → ℕ
count_bytes [] = 0
count_bytes (b ∷ bs) = length b + count_bytes bs

-- `fileLen + sizeof(FTPpack)` for the length `n` of the header: `fileLen` is an `int`, and the sum
-- is unsigned, with 64 bits.
unfoldable pub file_total : ℕ → ℕ
file_total n = if ltb n (2 ^ 31 + 12) then n else n + (2 ^ 64 - 2 ^ 32)

-- The variables of the loop that receives: whether `first` is still 0, `cnt`, `fileLen +
-- sizeof(FTPpack)`, and what is in the file.
pub record Receiving : Type 0 where
  pub first : Bool
  pub cnt : ℕ
  pub total : ℕ
  pub written : List ℕ

-- A turn of the loop goes on, or leaves it with the whole file, or is a fault: `fwrite` with a
-- negative count.
pub data Progress : Type 0 where
  again : Receiving → Progress
  complete : Receiving → Progress
  broken : Progress

-- The last test of the loop.
unfoldable pub close_turn : Receiving → Progress
close_turn r = if r.cnt == r.total then complete r else again r

-- The body of the loop for the bytes of a chunk, behind the addition to `cnt`.
unfoldable pub write_chunk : Receiving → List ℕ → Progress
unfolding close_turn length_field file_total
write_chunk r d =
    if r.first
    then if ltb (length d) 12
      then broken
      else close_turn (record {
        first = false;
        cnt = r.cnt + length d;
        total = if byte_at d 6 == 0xFF then file_total (length_field d) else r.total;
        written = r.written ++ drop 12 d;
      })
    else close_turn (record r { cnt = r.cnt + length d; written = r.written ++ d })

-- The body of the client's loop. After a failed `recv` it goes on only if `cnt` falls to 0.
unfoldable pub get_turn : Receiving → Option (List ℕ) → Progress
unfolding write_chunk
get_turn r none = if r.cnt == 1 then again (record r { cnt = 0 }) else broken
get_turn r (some d) = if r.cnt + length d == 0 then again r else write_chunk r d

-- The body of the server's loop, which has no such test.
unfoldable pub store_turn : Receiving → Option (List ℕ) → Progress
unfolding write_chunk
store_turn r none = broken
store_turn r (some d) = write_chunk r d

-- Either loop over the results of `recv`.
unfoldable pub receive_loop :
    (Receiving → Option (List ℕ) → Progress) → Receiving → List (Option (List ℕ)) → Progress
receive_loop turn r [] = again r
receive_loop turn r (w ∷ ws) = elim (turn r w) [
  | again r' ↦ receive_loop turn r' ws
  | complete r' ↦ complete r'
  | broken ↦ broken
]

-- The state in which a loop starts, with `total` for the length that is known so far.
abbrev pub start_receiving : ℕ → Receiving
start_receiving total = record { first = true; cnt = 0; total = total; written = [] }
