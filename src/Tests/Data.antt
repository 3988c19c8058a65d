-- ===== src/Tests/Data.antt =====
-- Concrete workspaces, sessions and answers of the server.
use loci_terminal.Common.{
  true, false, ◌≡◌, ◌≢◌, arith, String, [], ◌∷◌, none, some, if◌then◌else◌, is,
}
use loci_terminal.Store.State.{Workspace, Session, AppState, World}
use loci_terminal.Store.Api.{Api}

abbrev pub a_session : String → String → Session
a_session id wid = record {
  id = id;
  workspace_id = wid;
  title = "Terminal";
  shell = none;
  cwd = some "/home";
  sort_order = 0;
  created_at = "2026-01-01";
  updated_at = "2026-01-01";
}

abbrev pub a_workspace : String → Workspace
a_workspace id = record {
  id = id;
  name = "Work";
  sort_order = 0;
  created_at = "2026-01-01";
  updated_at = "2026-01-01";
}

-- A server with the workspaces v, of two sessions, and w, of one.
abbrev pub server : Api
server = record {
  list_workspaces = some (a_workspace "v" ∷ a_workspace "w" ∷ []);
  create_workspace = λ name. some (a_workspace name);
  update_workspace = λ id name. some (a_workspace id);
  delete_workspace = λ id. some tt;
  list_sessions = λ id.
      if is id "v"
      then some (a_session "a" "v" ∷ a_session "b" "v" ∷ [])
      else some (a_session "c" "w" ∷ []);
  create_session = λ id title. some (a_session "new" id);
  update_session = λ id title. some (a_session id "v");
  delete_session = λ id. some tt;
}

-- The page shows a of v, and b is unread.
abbrev pub opened : AppState
opened = record {
  workspaces = a_workspace "v" ∷ a_workspace "w" ∷ [];
  sessions = ("v", a_session "a" "v" ∷ a_session "b" "v" ∷ []) ∷ ("w", a_session "c" "w" ∷ []) ∷ [];
  active_workspace_id = some "v";
  active_session_id = some "a";
  active_session_by_workspace = ("v", "a") ∷ ("w", "c") ∷ [];
  session_activity = ("b", record { unread = true; last_output_at = 900; notified_at = 900 }) ∷ [];
  toasts =
      record {
        id = "b-900";
        session_id = "b";
        workspace_id = "v";
        session_title = "Terminal";
        created_at = 900;
      }
      ∷ [];
  initialized = true;
}

abbrev pub page : World
page = record { store = opened; busy_track = []; idle_timers = []; timers = []; next_timer = 0 }

pub differ : (a b : String) → is a b ≡ false → a ≢ b
differ a b e = ground arith
