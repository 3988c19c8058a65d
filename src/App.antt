-- ===== src/App.antt =====
-- The page around the terminals: frontend/src/App.tsx, without what it draws. The answers of the server
-- and `document.visibilityState` are arguments.
pub mod Layout
pub mod Banner
pub mod Login
use loci_terminal.Common.{
  ℕ, ◌-◌, min, max, String, Bool, true, false, ◌&&◌, not, Option, none, some, ite, if◌then◌else◌,
  is, eqb, truthy, get_or, or_else,
}
use loci_terminal.Store.State.{AppState, World, Document, is_visible, on_store}
use loci_terminal.Store.Workspaces.{init}
use loci_terminal.Store.Activity.{clear_session_unread}
use loci_terminal.Store.Api.{Api}
use loci_terminal.Store.Sessions.{poll_active}

pub data AuthState : Type 0 where
  loading needs_setup needs_login authenticated : AuthState

-- `checkAuth`: the flag that the first answer holds and the status of the second.
unfoldable pub check_auth : Bool → ℕ → AuthState
check_auth setup status =
    if setup then needs_setup else if eqb status 401 then needs_login else authenticated

-- What the permission banner depends on, with the flag kept in `localStorage`: nothing stands for a
-- storage that throws.
pub record Permissions : Type 0 where
  pub warning : Option String
  pub dismissed : Bool
  pub checking : Bool
  pub stored : Option Bool

-- The state of a page that opens.
unfoldable pub open_permissions : Option Bool → Permissions
open_permissions stored = record {
  warning = none;
  dismissed = get_or stored false;
  checking = false;
  stored = stored;
}

abbrev pub write_flag : Bool → Option Bool → Option Bool
write_flag b none = none
write_flag b (some a) = some b

-- The answer of the server to a health check: `permissions === false`, and the message.
pub record Health : Type 0 where
  pub denied : Bool
  pub message : Option String

-- `checkPermissions` up to its request.
unfoldable pub start_check : Permissions → Permissions
start_check p = record p { checking = true }

-- `checkPermissions` once the server has answered; nothing stands for a request that fails.
unfoldable pub check_permissions : Option Health → Permissions → Permissions
check_permissions none p = record p { checking = false }
check_permissions (some h) p = elim (if h.denied then truthy h.message else none) [
  | some m ↦ record p { warning = some m; checking = false }
  | none ↦ record p {
    warning = none;
    dismissed = false;
    checking = false;
    stored = write_flag false p.stored;
  }
]

-- `dismissPermBanner`
unfoldable pub dismiss_perm_banner : Permissions → Permissions
dismiss_perm_banner p = record p { dismissed = true; stored = write_flag true p.stored }

-- `showPermBanner`
unfoldable pub show_perm_banner : Permissions → Bool
show_perm_banner p = elim (truthy p.warning) [ none ↦ false | some m ↦ not p.dismissed ]

-- The width of the sidebar and the drag that changes it. `frame` says that an animation frame is
-- requested; the drawer that replaces the sidebar on a small screen is left out. A pointer left of the window counts as being at its edge.
pub record Sidebar : Type 0 where
  pub width : ℕ
  pub dragging : Bool
  pub latest_x : ℕ
  pub frame : Bool

unfoldable pub initial_sidebar : Sidebar
initial_sidebar = record { width = 220; dragging = false; latest_x = 0; frame = false }

unfoldable pub on_mouse_down : Sidebar → Sidebar
on_mouse_down s = record s { dragging = true }

-- `handleMouseMove`
unfoldable pub handle_mouse_move : ℕ → Sidebar → Sidebar
handle_mouse_move x s = if not s.dragging then s else record s { latest_x = x; frame = true }

-- The animation frame that it requests.
unfoldable pub on_frame : Sidebar → Sidebar
on_frame s = record s { width = max 140 (min 400 s.latest_x); frame = false }

unfoldable pub on_mouse_up : Sidebar → Sidebar
on_mouse_up s = record s { dragging = false; frame = false }

-- `sidebarPanelWidth`, on a window that is at least 56 pixels wide.
unfoldable pub sidebar_panel_width : Bool → ℕ → Sidebar → ℕ
sidebar_panel_width is_mobile inner s = if is_mobile then min 280 (inner - 56) else s.width

-- `tick` of the poll's interval: whether the page asks for the sessions.
unfoldable pub tick : Api → Document → AppState → AppState → Option AppState
tick api doc before s = if is_visible doc then poll_active api before s else some s

unfoldable pub clear_active : Option String → World → World
clear_active none w = w
clear_active (some id) w = clear_session_unread id w

-- `onVisibility`
unfoldable pub on_visibility : Document → World → World
unfolding clear_active
on_visibility doc w =
    if is_visible doc then clear_active (truthy w.store.active_session_id) w else w

abbrev pub is_authenticated : AuthState → Bool
is_authenticated authenticated = true
is_authenticated _ = false

-- The effect of `App` that begins once the user is signed in: it calls `init`, which is taken to end at
-- once here, and `checkPermissions`, whose answer comes later.
unfoldable pub start_session : Api → AuthState → World × Permissions → World × Permissions
start_session api auth (w, p) =
    if is_authenticated auth && not w.store.initialized
    then (get_or (on_store (init api) w) w, start_check p)
    else (w, p)
