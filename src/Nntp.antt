-- ===== src/Nntp.antt =====
-- lib/nntp: the words of the protocol, below the connections that speak it.
pub mod Codes
pub mod Ident
pub mod Mode
pub mod Stream
pub mod Policy
