-- ===== src/Ftp/File/Blocks.antt =====
-- Lab1/My Codes: the blocks in which a file is sent.
use computer_network_labs.Prelude.{
  ℕ, zero, suc, ◌≤◌, ◌<◌, ◌≡◌, refl, ap, ◌∙◌, List, [], ◌∷◌, ◌++◌, length, length-drop,
  length-append, length-take, take, drop, take-append-drop, All, arith,
}
use computer_network_labs.Ftp.File.{blocks, file_blocks, count_bytes}

-- The bytes that are sent by several calls of `send`, in order.
unfoldable pub stream : List (List ℕ) → List ℕ
stream [] = []
stream (b ∷ bs) = b ++ stream bs

-- What one call of `send` may be given: some bytes that fit into the buffer.
abbrev pub IsBlock : List ℕ → Type 0
IsBlock b = (0 < length b) × (length b ≤ 4080)

blocks-stream : (n : ℕ) (file : List ℕ) → length file ≤ n → stream (blocks n file) ≡ file
unfolding blocks stream
blocks-stream zero [] h = refl
blocks-stream zero (x ∷ xs) h = absurd (omega arith)
blocks-stream (suc n) [] h = refl
blocks-stream (suc n) (x ∷ xs) h =
    ap (λ t. take 4080 (x ∷ xs) ++ t)
      (blocks-stream n (drop 4080 (x ∷ xs)) (omega (arith, length-drop 4080 (x ∷ xs))))
    ∙ take-append-drop 4080 (x ∷ xs)

blocks-IsBlock : (n : ℕ) (file : List ℕ) → All IsBlock (blocks n file)
unfolding blocks
blocks-IsBlock zero file = tt
blocks-IsBlock (suc n) [] = tt
blocks-IsBlock (suc n) (x ∷ xs) = (
  (omega (arith, length-take 4080 (x ∷ xs)), omega (arith, length-take 4080 (x ∷ xs))),
  blocks-IsBlock n (drop 4080 (x ∷ xs)),
)

count_bytes-stream : (bs : List (List ℕ)) → count_bytes bs ≡ length (stream bs)
unfolding count_bytes stream
count_bytes-stream [] = refl
count_bytes-stream (b ∷ bs) = omega (arith, length-append b (stream bs), count_bytes-stream bs)

-- The blocks of a file are the file, none is empty or longer than the buffer, and the bytes that
-- are counted are its length.
pub file_blocks-stream :
    (file : List ℕ)
    → (stream (file_blocks file) ≡ file)
      × All IsBlock (file_blocks file)
      × (count_bytes (file_blocks file) ≡ length file)
unfolding file_blocks
file_blocks-stream file =
    let whole = blocks-stream (length file) file (omega arith) in
    (
      whole,
      blocks-IsBlock (length file) file,
      count_bytes-stream (blocks (length file) file) ∙ ap length whole,
    )
