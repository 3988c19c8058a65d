-- ===== src/View.antt =====
-- What the page draws, and what its controls do.
pub mod Controls
pub mod Html
pub mod InputBar
pub mod Keys
pub mod Login
pub mod Media
pub mod Page
pub mod Screen
pub mod Served
pub mod Sidebar
pub mod TabBar
pub mod Toasts
pub mod Trim
