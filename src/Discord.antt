-- ===== src/Discord.antt =====
-- internal/discord: the bots, the slash commands and the forwarding of container logs.
pub mod Bots
pub mod Commands
pub mod Embeds
pub mod Forwarders
pub mod Manager
pub mod Placeholders
pub mod Rules
pub mod Tail
