-- ===== src/Server/Connection.antt =====
-- src/server/iocp_connmgr.c: the connection slots and the state machine of a connection.
pub mod State
pub mod Slots
pub mod Operations
pub mod Handlers
mod Tests
