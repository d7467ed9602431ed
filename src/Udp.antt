-- ===== src/Udp.antt =====
-- src/udp.c: the UDP stack.
pub mod Receive
pub mod Transmit
pub mod Stack
pub mod Sockets
pub mod Examples
