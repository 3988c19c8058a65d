-- ===== src/Store/Sessions.antt =====
-- The session operations of frontend/src/stores/appStore.ts. An operation that awaits the server
-- takes the world in which it resumes; what it read before that is an argument of its own.
use loci_terminal.Common.{
  String, Bool, true, false, ◌&&◌, not, List, [], ◌∷◌, ◌++◌, map, Option, none, some, get_or,
  filter, length, is, eqb, if◌then◌else◌, truthy,
}
use loci_terminal.Dict.{Dict, get, put, delete}
use loci_terminal.Store.State.{Session, AppState, World, is_option}
use loci_terminal.Store.Api.{Api, ◌>>=◌, ◌>>◌}
use loci_terminal.Store.Activity.{cancel_idle_tracking, drop_toasts}

-- `a === b` on optional texts.
unfoldable pub same_option : Option String → Option String → Bool
same_option none none = true
same_option (some a) (some b) = is a b
same_option _ _ = false

-- The loop of `sessionsEqual`; the lists have one length.
unfoldable pub same_rows : List Session → List Session → Bool
unfolding same_option
same_rows (x ∷ a) (y ∷ b) =
    is x.id y.id
    && is x.title y.title
    && same_option x.cwd y.cwd
    && is x.updated_at y.updated_at
    && same_rows a b
same_rows _ _ = true

-- `sessionsEqual`. Its first test is on references, and only saves the loop: equal lists pass that.
unfoldable pub sessions_equal : List Session → List Session → Bool
unfolding same_rows
sessions_equal a b = if eqb (length a) (length b) then same_rows a b else false

-- `s.sessions[id] ?? []`
abbrev pub sessions_of : AppState → String → List Session
sessions_of s id = get_or (get id s.sessions) []

-- `{ ...s, sessions: { ...s.sessions, [id]: list } }`
abbrev pub with_sessions : String → List Session → AppState → AppState
with_sessions id list s = record s { sessions = put id list s.sessions }

-- `sessions[0]?.id ?? null`
abbrev pub first_id : List Session → Option String
first_id [] = none
first_id (x ∷ xs) = some x.id

-- The state that the callback of `set` in `createSession` returns.
unfoldable pub add_session : String → Session → AppState → AppState
add_session workspace_id sess s = record s {
  sessions = put workspace_id (sessions_of s workspace_id ++ sess ∷ []) s.sessions;
  active_session_id = some sess.id;
  active_session_by_workspace = put workspace_id sess.id s.active_session_by_workspace;
}

module _ (api : Api) where
  unfoldable pub fetch_sessions : String → AppState → Option AppState
  fetch_sessions workspace_id s = do
    sessions ← api.list_sessions workspace_id
    some (with_sessions workspace_id sessions s)

  -- The answer to a poll of the workspace `wid`.
  unfoldable pub poll_in : String → AppState → Option AppState
  poll_in wid s = do
    sessions ← api.list_sessions wid
    some (if sessions_equal (sessions_of s wid) sessions then s else with_sessions wid sessions s)

  -- `before` is the state when the poll began, `s` the state when the answer came.
  unfoldable pub poll_active : AppState → AppState → Option AppState
  unfolding poll_in
  poll_active before s = elim (truthy before.active_workspace_id) [
    | none ↦ some s
    | some wid ↦ poll_in wid s
  ]

  unfoldable pub create_session : String → Option String → AppState → Option AppState
  unfolding add_session
  create_session workspace_id title s = do
    sess ← api.create_session workspace_id title
    some (add_session workspace_id sess s)

-- `activeSessionByWorkspace` after the session `id` is gone and `next` took its place.
unfoldable pub reassign : String → String → Option String → Dict String → Dict String
reassign wid id next remembered =
    if is_option (get wid remembered) id
    then elim (truthy next) [ none ↦ delete wid remembered | some n ↦ put wid n remembered ]
    else remembered

-- The callback of `set` in `deleteSession`, in the workspace `wid`.
unfoldable pub remove_session : String → String → AppState → AppState
unfolding reassign
remove_session id wid s =
    let list = filter (λ (x : Session). not (is x.id id)) (sessions_of s wid) in
    let next : Option String =
      if is_option s.active_session_id id then first_id list else s.active_session_id in
    record s {
      sessions = put wid list s.sessions;
      active_session_id = next;
      active_session_by_workspace = reassign wid id next s.active_session_by_workspace;
      session_activity = delete id s.session_activity;
      toasts = drop_toasts id s.toasts;
    }

-- Runs a callback of `set` that returns `s` unless a workspace is active.
unfoldable pub in_active : (String → AppState → AppState) → AppState → AppState
in_active f s = elim (truthy s.active_workspace_id) [ none ↦ s | some wid ↦ f wid s ]

-- The callback of `set` in `renameSession`, in the workspace `wid`.
unfoldable pub replace_session : String → Session → String → AppState → AppState
replace_session id updated wid s =
    with_sessions wid (map (λ (x : Session). if is x.id id then updated else x) (sessions_of s wid))
      s

module _ (api : Api) where
  unfoldable pub delete_session : String → World → Option World
  delete_session id w = do
    api.delete_session id
    some (record (cancel_idle_tracking id w) { store = in_active (remove_session id) w.store })

  unfoldable pub rename_session : String → String → AppState → Option AppState
  rename_session id title s = do
    updated ← api.update_session id title
    some (in_active (replace_session id updated) s)
