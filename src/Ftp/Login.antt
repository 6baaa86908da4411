-- ===== src/Ftp/Login.antt =====
-- Lab1/My Codes: client and server together, from the command auth to its answer.
use computer_network_labs.Prelude.{
  ℕ, ◌+◌, ◌<◌, ◌≡◌, refl, ◌≢◌, inl, inr, Bool, true, false, not, ◌&&◌, List, [], ◌∷◌, ◌++◌, Option,
  none, some, length, length-append, ◌==◌, ==_iff, same_bytes, same_bytes_iff, if◌then◌else◌, take,
  drop, All, Bool-cases, arith,
}
use computer_network_labs.Ftp.Pack.{pack, byte_at, c_string}
use computer_network_labs.Ftp.CommandLine.{builtin_auth}
use computer_network_labs.Ftp.File.{Disk}
use computer_network_labs.Ftp.Client.{Client, Calls}
use computer_network_labs.Ftp.Commands.{
  Outcome, finished, request, auth_text, answered, run_command, eval_auth,
}
use computer_network_labs.Ftp.Server.{Server, Request, continues, accepts, credentials, serve}

-- A request as the server reads it when the bytes of one packet arrive whole: 12 of them first.
abbrev pub request_of : List ℕ → List (Option (List ℕ)) → Request
request_of packet chunks = record {
  header = take 12 packet;
  payload = drop 12 packet;
  chunks = chunks;
}

-- The answer to a request arrives.
abbrev pub replied : List ℕ → Calls
replied reply = record { made = true; connected = true; sent = true; reply = some reply }

-- A string as it is in a C array: no 0 in it.
abbrev pub IsText : List ℕ → Type 0
IsText = All (λ c. c ≢ 0)

abbrev NoBlank : List ℕ → Type 0
NoBlank = All (λ c. c ≢ 32)

pub c_string-text : (text : List ℕ) → IsText text → c_string (text ++ (0 ∷ [])) ≡ text
unfolding c_string
c_string-text [] h = refl
c_string-text (c ∷ cs) h =
    let rest = c_string-text cs h.1 in let c_not_zero = h.0 in ground (arith, ==_iff c 0)

-- The first blank separates the two words.
words_unique :
    (u u' p p' : List ℕ)
    → NoBlank u
    → NoBlank u'
    → u ++ (32 ∷ p) ≡ u' ++ (32 ∷ p')
    → (u ≡ u') × (p ≡ p')
words_unique [] [] p p' h h' e = (refl, ground arith)
words_unique [] (c ∷ u') p p' h h' e = absurd (h'.0 (ground arith))
words_unique (c ∷ u) [] p p' h h' e = absurd (h.0 (ground arith))
words_unique (c ∷ u) (c' ∷ u') p p' h h' e =
    let (x, y) = words_unique u u' p p' h.1 h'.1 (ground arith) in (ground arith, y)

-- "user" and "123123"
abbrev pub user_name : List ℕ
user_name = 117 ∷ 115 ∷ 101 ∷ 114 ∷ []

abbrev pub password : List ℕ
password = 49 ∷ 50 ∷ 51 ∷ 49 ∷ 50 ∷ 51 ∷ []

abbrev pub right_words : List ℕ → List ℕ → Bool
right_words user pass = same_bytes user user_name && same_bytes pass password

same_bytes-credentials :
    (user pass : List ℕ)
    → NoBlank user
    → same_bytes (auth_text user pass) credentials ≡ right_words user pass
same_bytes-credentials user pass h = ground (
  arith,
  same_bytes_iff (auth_text user pass) credentials,
  same_bytes_iff user user_name,
  same_bytes_iff pass password,
  words_unique user user_name pass password h (omega arith),
)

-- The server's side: it compares the two words, and stays with the client or takes the next one.
serve-auth :
    (user pass output : List ℕ) (s : Server)
    → NoBlank user
    → IsText (auth_text user pass)
    → length (auth_text user pass) < 4068
    → serve output (request_of (request 0xA3 (auth_text user pass)) []) s ≡ (
        if right_words user pass
        then continues (pack 0xA4 1 12 ∷ []) s
        else accepts (pack 0xA4 0 12 ∷ []) s)
unfolding serve pack
serve-auth user pass output s blank text short =
    let same = c_string-text (auth_text user pass) text in
    let right = same_bytes-credentials user pass blank in
    let long : length (auth_text user pass ++ (0 ∷ [])) ≡ length (auth_text user pass) + 1 =
      length-append (auth_text user pass) (0 ∷ []) in
    rw (same, right) (ground (arith, long))

-- An answer of the right kind passes the tests.
pub answered-pack :
    (t s n : ℕ) (rest : List ℕ)
    → answered t (replied (pack t s n ++ rest)) ≡ some (pack t s n ++ rest)
unfolding answered pack
answered-pack t s n rest = ground (arith, ==_iff t t)

pub status-pack : (t s n : ℕ) (rest : List ℕ) → byte_at (pack t s n ++ rest) 7 ≡ s
unfolding pack
status-pack t s n rest = refl

pub pack-append : (t s n : ℕ) → pack t s n ++ [] ≡ pack t s n
unfolding pack
pack-append t s n = refl

-- The client's side, on either answer.
eval_auth-reply :
    (user pass : List ℕ) (status : ℕ) (c : Client)
    → c.is_socket ≡ true
    → c.is_auth ≡ false
    → let argv = (97 ∷ 117 ∷ 116 ∷ 104 ∷ []) ∷ user ∷ pass ∷ [] in
      let welcome = not (status == 0) in
      eval_auth argv (replied (pack 0xA4 status 12)) c ≡ (
        record { is_socket = welcome; is_auth = welcome },
        finished (request 0xA3 (auth_text user pass) ∷ []) [] none,
      )
unfolding eval_auth
eval_auth-reply user pass status c h k =
    let e : answered 0xA4 (replied (pack 0xA4 status 12)) ≡ some (pack 0xA4 status 12) =
      rw (pack-append 0xA4 status 12) at (answered-pack 0xA4 status 12 []) in
    let b : byte_at (pack 0xA4 status 12) 7 ≡ status =
      rw (pack-append 0xA4 status 12) at (status-pack 0xA4 status 12 []) in
    ground (arith, e, b)

-- The flags, and what was sent, after the command auth.
abbrev pub after_auth : Bool → List ℕ → List ℕ → Client × Outcome
after_auth welcome user pass = (
  record { is_socket = welcome; is_auth = welcome },
  finished (request 0xA3 (auth_text user pass) ∷ []) [] none,
)

-- The packet that `authen` sends reaches the server and the answer comes back, each in one piece.
-- If the two words are user and 123123, the server goes on with the client, which then counts as
-- logged in; on any other two words the server leaves the client, which closes its connection.
pub auth-serve :
    (user pass output : List ℕ) (s : Server) (disk : Disk) (chunks : List (Option (List ℕ)))
    (c : Client)
    → NoBlank user
    → IsText (auth_text user pass)
    → length (auth_text user pass) < 4068
    → c.is_socket ≡ true
    → c.is_auth ≡ false
    → let right = right_words user pass in
      let reply = pack 0xA4 (if right then 1 else 0) 12 in
      (serve output (request_of (request 0xA3 (auth_text user pass)) []) s
        ≡ (if right then continues (reply ∷ []) s else accepts (reply ∷ []) s))
      × (run_command builtin_auth
            ((97 ∷ 117 ∷ 116 ∷ 104 ∷ []) ∷ user ∷ pass ∷ [])
            (replied reply)
            disk
            chunks
            c
          ≡ after_auth right user pass)
auth-serve user pass output s disk chunks c blank text short h k =
    let served = serve-auth user pass output s blank text short in
    elim (Bool-cases (right_words user pass)) [
      | inl e ↦
          (rw e (rw e at served), rw e (unfold run_command in eval_auth-reply user pass 1 c h k))
      | inr e ↦
          (rw e (rw e at served), rw e (unfold run_command in eval_auth-reply user pass 0 c h k))
    ]
