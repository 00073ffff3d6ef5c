-- ===== src/Socket.antt =====
-- socket.c and socket.h.
pub mod Transfer
pub mod Send
pub mod Recv
pub mod Connect
pub mod Sendfile
pub mod Portable
