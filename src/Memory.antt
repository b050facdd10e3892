-- ===== src/Memory.antt =====
-- src/mem_arena.c and src/outbuf.c: memory for the game, and the buffers of outgoing messages.
pub mod Arena
pub mod Outbuf
