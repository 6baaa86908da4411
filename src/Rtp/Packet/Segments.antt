-- ===== src/Rtp/Packet/Segments.antt =====
-- Lab2/My Codes/sender_def.c: the segments of a file.
use computer_network_labs.Prelude.{
  ℕ, zero, suc, ◌+◌, ◌*◌, ◌^◌, ◌≤◌, ◌<◌, ◌≡◌, refl, sym, ◌∙◌, List, [], ◌++◌, take, length,
  take_add, take_all, arith,
}
use computer_network_labs.Rtp.Packet.{file_statics, fread, offset}

-- The payloads of the packets 0 to n - 1, one after the other.
unfoldable pub segments : List ℕ → ℕ → List ℕ
segments file zero = []
segments file (suc n) = segments file n ++ fread file (offset n)

offset-eq : (n : ℕ) → n * 1461 < 2 ^ 32 → offset n ≡ n * 1461
unfolding offset
offset-eq n h = omega arith

-- As long as the positions fit 32 bits, the payloads of the first `n` packets are the first bytes
-- of the file, without a gap or an overlap.
pub segments-take :
    (file : List ℕ) (n : ℕ) → n * 1461 < 2 ^ 32 → segments file n ≡ take (n * 1461) file
unfolding segments fread
segments-take file zero h = refl
segments-take file (suc n) h =
    let e : suc n * 1461 ≡ n * 1461 + 1461 = omega arith in
    rw (e, segments-take file n (omega arith), offset-eq n (omega arith))
      (sym (take_add (n * 1461) 1461 file))

-- The packets 0 to `file_statics` - 1 carry the whole file, and so do any more.
pub segments-file_statics :
    (file : List ℕ) (n : ℕ)
    → n * 1461 < 2 ^ 32
    → file_statics (length file) ≤ n
    → segments file n ≡ file
unfolding file_statics
segments-file_statics file n h le = segments-take file n h ∙ take_all (n * 1461) file (omega arith)
