-- ===== src/Server.antt =====
-- src/server: the connections and the services of the network server.
pub mod Connection
pub mod Services
