-- ===== src/Store/Steps.antt =====
-- Everything that can happen to the store of frontend/src/stores/appStore.ts, one atomic step at a
-- time: JavaScript runs each handler, and each part of an `async` function after its last `await`,
-- without interruption.
pub mod Books
use loci_terminal.Common.{ℕ, ◌≤◌, ◌≡◌, String, Option, some}
use loci_terminal.Store.State.{
  AppState, Timer, World, Document, initial_world, find_timer, on_store,
}
use loci_terminal.Store.Api.{Api}
use loci_terminal.Store.Activity.{
  mark_session_output, fire_timer, set_active_session, clear_session_unread, dismiss_toast,
}
use loci_terminal.Store.Sessions.{
  fetch_sessions, poll_active, create_session, delete_session, rename_session,
}
use loci_terminal.Store.Workspaces.{
  init, fetch_workspaces, create_workspace, rename_workspace, delete_workspace,
  set_active_workspace,
}

-- The store's asynchronous methods, with their arguments.
pub data Call : Type 0 where
  inits fetches_workspaces polls : Call
  creates_workspace deletes_workspace shows_workspace fetches_sessions deletes_session :
      String → Call
  renames_workspace renames_session : String → String → Call
  creates_session : String → Option String → Call

-- The part of a call after its last `await`, in the world `w` in which it resumes; `before` is the
-- state in which it began.
unfoldable pub resume : Api → Call → AppState → World → Option World
resume api inits before w = on_store (init api) w
resume api fetches_workspaces before w = on_store (fetch_workspaces api) w
resume api polls before w = on_store (poll_active api before) w
resume api (creates_workspace name) before w = on_store (create_workspace api name) w
resume api (deletes_workspace id) before w = delete_workspace api id w
resume api (shows_workspace id) before w = set_active_workspace api id before w
resume api (fetches_sessions id) before w = on_store (fetch_sessions api id) w
resume api (deletes_session id) before w = delete_session api id w
resume api (renames_workspace id name) before w = on_store (rename_workspace api id name) w
resume api (renames_session id title) before w = on_store (rename_session api id title) w
resume api (creates_session id title) before w = on_store (create_session api id title) w

-- One step at the time `now`. The server may answer anything, and a call may have begun in any state.
pub data Step (now : ℕ) (w : World) : World → Type 0 where
  output : (id : String) (doc : Document) → Step now w (mark_session_output id doc now w)
  fires :
      (h : ℕ) (doc : Document) (x : Timer)
      → find_timer h w.timers ≡ some x
      → x.due ≤ now
      → Step now w (fire_timer h doc w)
  selects : (id : String) → Step now w (set_active_session id w)
  looks : (id : String) → Step now w (clear_session_unread id w)
  dismisses : (id : String) → Step now w (record w { store = dismiss_toast id w.store })
  answers :
      (api : Api) (call : Call) (before : AppState) {w' : World}
      → resume api call before w ≡ some w'
      → Step now w w'

-- The worlds that the page can reach, and the time of the last step.
pub data Reach : ℕ → World → Type 0 where
  start : Reach 0 initial_world
  next :
      {now later : ℕ} {w w' : World} → Reach now w → now ≤ later → Step later w w' → Reach later w'
