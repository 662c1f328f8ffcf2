-- ===== src/Tests.antt =====
-- Concrete runs of the models and instances of their theorems.
pub mod Sample
mod Manager
mod Files
mod Confinement
mod Forward
mod Access
mod Bot
mod Connecting
mod Restoring
mod Sockets
mod Lifecycle
mod Server
