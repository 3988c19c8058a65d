-- ===== src/Terminal.antt =====
-- The terminal connection of frontend/src/hooks/useTerminal.ts, in parts.
pub mod Backoff
pub mod Line
pub mod Input
pub mod Renderer
pub mod Resize
pub mod Message
pub mod Mount
pub mod Themed
pub mod Ticket
pub mod Upload
pub mod Connect
