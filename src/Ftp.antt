-- ===== src/Ftp.antt =====
-- Lab1/My Codes: the FTP client and the FTP server.
pub mod CommandLine
pub mod Pack
pub mod File
pub mod Client
pub mod Commands
pub mod Server
pub mod Session
pub mod Guards
pub mod Login
pub mod Listing
pub mod Transfer
pub mod Serving
pub mod Lines
pub mod Main
mod Examples
