-- ===== src/Ftp/Serving.antt =====
-- Lab1/My Codes/ftp_server.cpp: the server when a client goes away.
use computer_network_labs.Prelude.{ℕ, ◌≡◌, refl, List, [], ◌∷◌, some, All}
use computer_network_labs.Ftp.Server.{Server, Request, serve_clients}

-- The first `recv` reads nothing, since the client has closed the connection.
abbrev pub IsClosed : Request → Type 0
IsClosed q = q.header ≡ []

-- When a client has closed its connection without the command quit, the server goes round its loop
-- for ever: however many turns it makes, it accepts no other client, and its files stay as they
-- are.
pub serve_clients-IsClosed :
    (output : List ℕ) (qs : List Request) (s : Server) (clients : ℕ)
    → All IsClosed qs
    → serve_clients output qs s clients ≡ some (s, clients)
unfolding serve_clients
serve_clients-IsClosed output [] s clients h = refl
serve_clients-IsClosed output (q ∷ qs) s clients h =
    rw (h.0) (serve_clients-IsClosed output qs s clients h.1)
