-- ===== src/Store.antt =====
-- The application store of frontend/src/stores/appStore.ts, in parts.
pub mod State
pub mod Activity
pub mod Api
pub mod Sessions
pub mod Workspaces
pub mod Tracking
pub mod Steps
pub mod Frame
pub mod Toasts
pub mod Unread
pub mod Races
pub mod Mirror
pub mod Polling
pub mod Remembering
pub mod Startup
pub mod Sweeping
pub mod Deletions
pub mod Landing
pub mod Views
pub mod Bursts
pub mod Edits
pub mod Spec
pub mod Drain
pub mod Clicks
