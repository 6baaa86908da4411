-- ===== src/Rtp.antt =====
-- Lab2/My Codes: the reliable transport protocol over UDP, with cumulative acknowledgements
-- (`sendMessage`, `recvMessage`) and with selective ones (`sendMessageOpt`, `recvMessageOpt`).
pub mod Crc
pub mod Header
pub mod Packet
pub mod Receiver
pub mod Sender
pub mod SenderOpt
pub mod Protocol
pub mod ProtocolOpt
