-- ===== src/Theme.antt =====
-- The theme of the page.
pub mod Colors
pub mod Mode
pub mod System
pub mod Cycle
