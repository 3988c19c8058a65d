-- ===== src/Tests.antt =====
-- The properties at concrete runs of the frontend.
mod Data
mod Activity
mod Server
mod Memory
mod Worked
mod Late
mod Whole
mod Display
mod Line
mod Pages
mod Views
