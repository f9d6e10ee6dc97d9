-- ===== src/Wire.antt =====
-- The IPC client of client.go.
pub mod Entries
pub mod Payload
pub mod Client
pub mod Requests
pub mod Pipe
mod Tests
