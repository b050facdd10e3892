-- ===== src/Protocol.antt =====
-- src/protocol_login.c, src/protocol_echo.c and src/protocol_game.c: what the server answers to its
-- clients.
pub mod Login
pub mod Echo
pub mod Game
