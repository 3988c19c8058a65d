-- ===== src/Store/State.antt =====
-- The data of frontend/src/types/index.ts and the state of frontend/src/stores/appStore.ts: the
-- zustand store, the two module-level maps beside it, and the browser's pending timeouts.
use loci_terminal.Common.{
  ℕ, String, Bool, true, false, not, List, [], ◌∷◌, Option, none, some, filter, find, is, eqb,
}
use loci_terminal.Dict.{Dict, get}

pub record Workspace : Type 0 where
  pub id : String
  pub name : String
  pub sort_order : ℕ
  pub created_at : String
  pub updated_at : String

pub record Session : Type 0 where
  pub id : String
  pub workspace_id : String
  pub title : String
  pub shell : Option String
  pub cwd : Option String
  pub sort_order : ℕ
  pub created_at : String
  pub updated_at : String

pub record SessionActivity : Type 0 where
  pub unread : Bool
  pub last_output_at : ℕ
  pub notified_at : ℕ

pub record Toast : Type 0 where
  pub id : String
  pub session_id : String
  pub workspace_id : String
  pub session_title : String
  pub created_at : ℕ

abbrev pub max_toasts : ℕ
max_toasts = 5

abbrev pub idle_ms : ℕ
idle_ms = 1500

abbrev pub min_busy_ms : ℕ
min_busy_ms = 500

pub record BusyTrack : Type 0 where
  pub started_at : ℕ
  pub last_byte_at : ℕ

-- The data fields of the store; its methods are functions on `World`.
pub record AppState : Type 0 where
  pub workspaces : List Workspace
  pub sessions : Dict (List Session)
  pub active_workspace_id : Option String
  pub active_session_id : Option String
  pub active_session_by_workspace : Dict String
  pub session_activity : Dict SessionActivity
  pub toasts : List Toast
  pub initialized : Bool

-- A timeout that the browser has still to fire; its callback is the idle callback of a session.
pub record Timer : Type 0 where
  pub handle : ℕ
  pub due : ℕ
  pub session_id : String

-- The store, `busyTrack`, `idleTimers`, and the browser's side of `setTimeout`.
pub record World : Type 0 where
  pub store : AppState
  pub busy_track : Dict BusyTrack
  pub idle_timers : Dict ℕ
  pub timers : List Timer
  pub next_timer : ℕ

-- An operation that writes the store alone, in the world.
unfoldable pub on_store : (AppState → Option AppState) → World → Option World
on_store op w = elim (op w.store) [ none ↦ none | some s ↦ some (record w { store = s }) ]

-- What `typeof document` and `document.visibilityState` say.
pub data Document : Type 0 where
  missing hidden visible : Document

abbrev pub is_visible : Document → Bool
is_visible missing = false
is_visible hidden = false
is_visible visible = true

abbrev pub is_hidden : Document → Bool
is_hidden missing = false
is_hidden hidden = true
is_hidden visible = false

unfoldable pub initial_state : AppState
initial_state = record {
  workspaces = [];
  sessions = [];
  active_workspace_id = none;
  active_session_id = none;
  active_session_by_workspace = [];
  session_activity = [];
  toasts = [];
  initialized = false;
}

unfoldable pub initial_world : World
unfolding initial_state
initial_world = record {
  store = initial_state;
  busy_track = [];
  idle_timers = [];
  timers = [];
  next_timer = 0;
}

-- `clearTimeout`, on the browser's pending timeouts.
abbrev pub clear_timeout : ℕ → List Timer → List Timer
clear_timeout handle = filter λ x. not (eqb x.handle handle)

abbrev pub find_timer : ℕ → List Timer → Option Timer
find_timer handle = find λ x. eqb x.handle handle

-- `id === a`, where `a` may be null or undefined.
abbrev pub is_option : Option String → String → Bool
is_option none id = false
is_option (some a) id = is a id

-- `prev?.unread`, as a condition.
abbrev pub is_unread : Option SessionActivity → Bool
is_unread none = false
is_unread (some a) = a.unread

unfoldable pub session_unread : AppState → String → Bool
session_unread s session_id = is_unread (get session_id s.session_activity)

unfoldable pub any_unread : AppState → List Session → Bool
unfolding session_unread
any_unread s [] = false
any_unread s (x ∷ xs) = elim (session_unread s x.id) [ true ↦ true | false ↦ any_unread s xs ]

unfoldable pub workspace_unread : AppState → String → Bool
unfolding any_unread
workspace_unread s workspace_id = elim (get workspace_id s.sessions) [
  | none ↦ false
  | some list ↦ any_unread s list
]
