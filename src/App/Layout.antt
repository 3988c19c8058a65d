-- ===== src/App/Layout.antt =====
-- What the sidebar's width and the return to the page guarantee, in frontend/src/App.tsx.
use loci_terminal.Common.{Bool-cases, ◌&&◌, not, inl, inr}
use loci_terminal.Store.State.{AppState, on_store}
use loci_terminal.Store.Api.{Api}
use loci_terminal.Store.Workspaces.{init}
use loci_terminal.App.{AuthState, Permissions, is_authenticated, start_session}
use loci_terminal.Common.{ℕ, ◌≤◌, ◌≡◌, refl, String, true, some, arith, truthy}
use loci_terminal.Store.State.{World, visible}
use loci_terminal.Store.Activity.{clear_session_unread}
use loci_terminal.Store.Views.{IsViewed, clear_session_unread-IsViewed}
use loci_terminal.App.{
  Sidebar, initial_sidebar, on_mouse_down, handle_mouse_move, on_frame, on_mouse_up, on_visibility,
  clear_active,
}

pub data SidebarStep (s : Sidebar) : Sidebar → Type 0 where
  presses : SidebarStep s (on_mouse_down s)
  moves : (x : ℕ) → SidebarStep s (handle_mouse_move x s)
  frames : s.frame ≡ true → SidebarStep s (on_frame s)
  releases : SidebarStep s (on_mouse_up s)

pub data SidebarReach : Sidebar → Type 0 where
  start : SidebarReach initial_sidebar
  next : {s s' : Sidebar} → SidebarReach s → SidebarStep s s' → SidebarReach s'

-- After any sequence of drags the sidebar is between 140 and 400 wide, and an animation frame is pending
-- only while the button is down, so that no frame changes the width after its release.
pub sidebar_bounds :
    {s : Sidebar}
    → SidebarReach s
    → (140 ≤ s.width) × (s.width ≤ 400) × (s.frame ≡ true → s.dragging ≡ true)
unfolding initial_sidebar on_mouse_down handle_mouse_move on_frame on_mouse_up
sidebar_bounds start = (omega arith, omega arith, (λ e. absurd (cc)))
sidebar_bounds (next {s} r presses) = let (a, b, c) = sidebar_bounds r in (a, b, (λ e. refl))
sidebar_bounds (next {s} r (moves x)) =
    let (a, b, c) = sidebar_bounds r in (ground arith, ground arith, (λ e. ground arith))
sidebar_bounds (next {s} r (frames p)) = (omega arith, omega arith, (λ e. absurd (cc)))
sidebar_bounds (next {s} r releases) =
    let (a, b, c) = sidebar_bounds r in (a, b, (λ e. absurd (cc)))

-- When the page becomes visible, the active session is read, without toast, burst or timeout, and it
-- remains the active one.
pub on_visibility-IsViewed :
    (id : String) (w : World)
    → truthy w.store.active_session_id ≡ some id
    → on_visibility visible w ≡ clear_session_unread id w × IsViewed id (on_visibility visible w)
unfolding on_visibility clear_active
on_visibility-IsViewed id w e = rw e (refl, clear_session_unread-IsViewed id w)

-- When no request of `init` fails and the state that it makes is initialized, a second run of the effect
-- changes nothing.
start_session_once :
    (api : Api) (auth : AuthState) (w : World) (p : Permissions) {s : AppState}
    → init api w.store ≡ some s
    → s.initialized ≡ true
    → let q = start_session api auth (w, p) in start_session api auth q ≡ q
unfolding start_session on_store
start_session_once api auth w p e i =
    elim (Bool-cases (is_authenticated auth && not w.store.initialized)) [
      | inl k ↦ ground arith
      | inr k ↦ ground arith
    ]
