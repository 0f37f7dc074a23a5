-- ===== src/Hooks.antt =====
-- lwip_output_hooks/tcp_client/main: a client in front of a stack whose outgoing packets pass a
-- filter.
pub mod Output
pub mod Calls
pub mod Interfaces
pub mod Client
pub mod Sockets
mod Tests
