-- ===== src/Store/Workspaces.antt =====
-- The workspace operations of frontend/src/stores/appStore.ts, `init` among them.
use loci_terminal.Common.{
  String, Bool, true, ◌&&◌, not, List, [], ◌∷◌, ◌++◌, map, Option, none, some, or_else, any, filter,
  is, if◌then◌else◌, truthy,
}
use loci_terminal.Dict.{Dict, get, put, delete}
use loci_terminal.Store.State.{Workspace, Session, SessionActivity, Toast, AppState, World}
use loci_terminal.Store.Api.{Api, ◌>>=◌, ◌>>◌}
use loci_terminal.Store.Activity.{cancel_idle_tracking, mark_read, drop_toasts}
use loci_terminal.Store.Sessions.{sessions_of, first_id}

-- `await Promise.all(...)` in `init`: it rejects if one of the calls does.
unfoldable pub list_all : Api → List Workspace → Option (List (Workspace × List Session))
list_all api [] = some []
list_all api (w ∷ ws) = do
  list ← api.list_sessions w.id
  rest ← list_all api ws
  some ((w, list) ∷ rest)

-- The loop of `init` over the workspaces and their lists.
unfoldable pub fill :
    List (Workspace × List Session)
    → Dict (List Session) × Dict String
    → Dict (List Session) × Dict String
fill [] maps = maps
fill ((w, list) ∷ rest) (sessions, active) =
    fill rest (put w.id list sessions, elim list [ [] ↦ active | x ∷ xs ↦ put w.id x.id active ])

-- The workspaces of `init`: a first one is created where there is none.
unfoldable pub first_workspaces : Api → List Workspace → Option (Workspace × List Workspace)
first_workspaces api (w ∷ ws) = some (w, ws)
first_workspaces api [] = do w ← api.create_workspace "Default"; some (w, [])

-- A first session in the first workspace, where it has none.
unfoldable pub first_session :
    Api → String → Dict (List Session) × Dict String → Option (Dict (List Session) × Dict String)
first_session api wid (sessions, active) = elim (get wid sessions) [
  | some (x ∷ xs) ↦ some (sessions, active)
  | _ ↦ do
    sess ← api.create_session wid none
    some (put wid (sess ∷ []) sessions, put wid sess.id active)
]

-- The state that the callback of `set` in `createWorkspace` returns.
unfoldable pub add_workspace : Workspace → Session → AppState → AppState
add_workspace ws sess s = record s {
  workspaces = s.workspaces ++ ws ∷ [];
  sessions = put ws.id (sess ∷ []) s.sessions;
  active_workspace_id = some ws.id;
  active_session_id = some sess.id;
  active_session_by_workspace = put ws.id sess.id s.active_session_by_workspace;
}

module _ (api : Api) where
  unfoldable pub init : AppState → Option AppState
  init s = do
    listed ← api.list_workspaces
    (first, others) ← first_workspaces api listed
    lists ← list_all api (first ∷ others)
    (sessions, active) ← first_session api first.id (fill lists ([], []))
    some (record s {
      workspaces = first ∷ others;
      sessions = sessions;
      active_workspace_id = some first.id;
      active_session_id = get first.id active;
      active_session_by_workspace = active;
      initialized = true;
    })

  unfoldable pub fetch_workspaces : AppState → Option AppState
  fetch_workspaces s = do
    workspaces ← api.list_workspaces
    some (record s { workspaces = workspaces })

  -- It rejects where a promise of its two calls does; an answer that is a refusal with a JSON body resolves, and is
  -- written like any other.
  unfoldable pub create_workspace : String → AppState → Option AppState
  unfolding add_workspace
  create_workspace name s = do
    ws ← api.create_workspace name
    sess ← api.create_session ws.id none
    some (add_workspace ws sess s)

  unfoldable pub rename_workspace : String → String → AppState → Option AppState
  rename_workspace id name s = do
    updated ← api.update_workspace id name
    some (record s {
      workspaces = map (λ (x : Workspace). if is x.id id then updated else x) s.workspaces;
    })

-- The loop of `deleteWorkspace` over the removed sessions cancels their tracking and deletes their
-- activity.
unfoldable pub cancel_all : List Session → World → World
cancel_all [] w = w
cancel_all (x ∷ xs) w = cancel_all xs (cancel_idle_tracking x.id w)

unfoldable pub delete_all : List Session → Dict SessionActivity → Dict SessionActivity
delete_all [] activity = activity
delete_all (x ∷ xs) activity = delete_all xs (delete x.id activity)

abbrev pub is_removed : List Session → Toast → Bool
is_removed removed t = any (λ (x : Session). is x.id t.session_id) removed

-- The toasts of sessions that were not removed.
unfoldable pub drop_removed : List Session → List Toast → List Toast
drop_removed removed toasts =
    if any (is_removed removed) toasts
    then filter (λ t. not (is_removed removed t)) toasts
    else toasts

abbrev pub first_workspace_id : List Workspace → Option String
first_workspace_id [] = none
first_workspace_id (w ∷ ws) = some w.id

-- The session shown in the workspace that comes next.
unfoldable pub landing : Option String → Dict (List Session) → Dict String → Option String
landing none sessions remembered = none
landing (some wid) sessions remembered =
    or_else (get wid remembered)
      (elim (get wid sessions) [ none ↦ none | some list ↦ first_id list ])

-- The state that the callback of `set` in `deleteWorkspace` returns.
unfoldable pub remove_workspace : String → AppState → AppState
remove_workspace id s =
    let workspaces = filter (λ (x : Workspace). not (is x.id id)) s.workspaces in
    let removed = sessions_of s id in
    let sessions = delete id s.sessions in
    let remembered = delete id s.active_session_by_workspace in
    let next_wid = first_workspace_id workspaces in
    record s {
      workspaces = workspaces;
      sessions = sessions;
      active_workspace_id = next_wid;
      active_session_id = landing (truthy next_wid) sessions remembered;
      active_session_by_workspace = remembered;
      session_activity = delete_all removed s.session_activity;
      toasts = drop_removed removed s.toasts;
    }

unfoldable pub delete_workspace : Api → String → World → Option World
delete_workspace api id w = do
  api.delete_workspace id
  some (record (cancel_all (sessions_of w.store id) w) { store = remove_workspace id w.store })

-- The remembered session if it is still in the list, else the first.
unfoldable pub next_active : Option String → List Session → Option String
next_active none sessions = first_id sessions
next_active (some remembered) sessions =
    if not (is remembered "") && any (λ (x : Session). is x.id remembered) sessions
    then some remembered
    else first_id sessions

-- What `setActiveWorkspace` does under `if (nextActive)`.
unfoldable pub cancel_viewed : Option String → World → World
cancel_viewed none w = w
cancel_viewed (some id) w = cancel_idle_tracking id w

unfoldable pub remember_viewed : String → Option String → Dict String → Dict String
remember_viewed wid none remembered = remembered
remember_viewed wid (some id) remembered = put wid id remembered

unfoldable pub read_viewed : Option String → Dict SessionActivity → Dict SessionActivity
read_viewed none activity = activity
read_viewed (some id) activity = mark_read id activity

unfoldable pub drop_viewed : Option String → List Toast → List Toast
drop_viewed none toasts = toasts
drop_viewed (some id) toasts = drop_toasts id toasts

-- The state that the callback of `set` in `setActiveWorkspace` returns, with the sessions to show.
unfoldable pub show_workspace : String → List Session → AppState → AppState
unfolding remember_viewed read_viewed drop_viewed
show_workspace id sessions s =
    let next = next_active (get id s.active_session_by_workspace) sessions in
    record s {
      sessions = put id sessions s.sessions;
      active_workspace_id = some id;
      active_session_id = next;
      active_session_by_workspace = remember_viewed id (truthy next) s.active_session_by_workspace;
      session_activity = read_viewed (truthy next) s.session_activity;
      toasts = drop_viewed (truthy next) s.toasts;
    }

-- The list that `setActiveWorkspace` holds at the start, or is sent.
unfoldable pub listed_sessions : Api → String → AppState → Option (List Session)
listed_sessions api id before = elim (get id before.sessions) [
  | none ↦ api.list_sessions id
  | some list ↦ some list
]

-- `before` is the state when the call began: only a workspace whose sessions it does not hold is
-- asked for.
unfoldable pub set_active_workspace : Api → String → AppState → World → Option World
set_active_workspace api id before w = do
  sessions ← listed_sessions api id before
  let next = next_active (get id w.store.active_session_by_workspace) sessions
  some (record (cancel_viewed (truthy next) w) { store = show_workspace id sessions w.store })
