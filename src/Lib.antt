-- ===== src/Lib.antt =====
-- Computer network labs: a verification library beside the programs of the repository.
--
-- Lab2/My Codes (util.c, rtp.h, sender_def.c, receiver_def.c): a reliable transport over UDP.
--   Rtp.Crc has the checksum of util.c, Rtp.Header and Rtp.Packet the packed structs of rtp.h,
--   their images in memory, `make_rtp_header`, `make_rtp_packet` and the segments of a file.
--   Rtp.Receiver has `initReceiver`, `recvMessage` and `recvMessageOpt`, Rtp.Sender `initSender`,
--   `sendMessage` and `terminateSender`, Rtp.SenderOpt `sendMessageOpt` and `send_again`. A loop is
--   a function of one turn, of the state and of what the socket and the timer return in that turn,
--   and a run over a list of such inputs. Rtp.Protocol and Rtp.ProtocolOpt put a sender and a
--   receiver on a network, which is a step relation. Machine integers are natural numbers with the
--   wrap-around written out. The loop that writes cached packets has one round for each index up to
--   the end of its array of 80000 elements, the one that moves `send_base` over acknowledged
--   numbers one for each up to the end of `acked`, of 100000; there the code would read behind the
--   array. This and each other access out of bounds is an outcome of its own. The loop over
--   acknowledgements has as many rounds as the datagram has bytes, more than it can take. Calls
--   that only start or stop a timer, close a file or print are left out. The assignments of the
--   windows in `initSender` and `initReceiver` are parameters of the states in which the loops
--   start. Rtp.Receiver.Caching describes what a receiver does with a packet without the tests of
--   the code, which Rtp.Receiver.Sort sorts; Rtp.Sender.Window does the same for acknowledgements.
--
-- Lab4/My Codes (switch.cc, switch.h): a learning switch. Switch.Table has the entries and the
--   loops over `switchTable`, Switch the class with `InitSwitch` and `ProcessFrame`. The children
--   have the invariant of the table, its view as a partial function from addresses to routes, the
--   specification of a frame, histories of frames, and the ports that a history leads to. The
--   constants of `types.h`, which is only in the archive Lab4/Initial Codes/lab4-switch.zip, are
--   parameters.
--
-- Lab1/My Codes (ftp_client.cpp, ftp_server.cpp): an FTP client and server. Ftp.CommandLine has
--   `parseLine`, Ftp.Client `open`, under the name `open_session`, and `closefd`, Ftp.Commands the
--   other commands and `eval`, Ftp.Main the client's `main`, Ftp.Server the loops of the server's
--   `main`, Ftp.File the loops over `fread` and `recv` for a file, and Ftp.Pack the bytes of
--   `FTPpack`. The other modules put client and server together. What the calls on sockets and
--   files return is an input. A request, and an answer of 12 bytes, is read by one `recv` as a
--   whole; the list of files, and the packets of a file, may come in parts. The loop of `parseLine`
--   has one round for each place in `argv`, a loop over `fread` or `fgets` one for each byte of its
--   input, of which each round takes one at least, a loop over `recv` one for each result of `recv`
--   that is given, and the client's `main` one for each line.
--
-- Lab2/My Codes/test.cpp, a test driver, is not modelled.
pub mod Ftp
pub mod Prelude
pub mod Rtp
pub mod Switch
