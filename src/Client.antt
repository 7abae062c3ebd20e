-- ===== src/Client.antt =====
-- internal/client: the storage of persistent clients.
pub mod Persistent
pub mod Index
pub mod Runtime
pub mod Upstreams
pub mod Storage
