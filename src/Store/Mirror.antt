-- ===== src/Store/Mirror.antt =====
-- What the store of frontend/src/stores/appStore.ts shows of the server's data: the interface of a server with
-- the behaviour that the store relies on, and what it is for the store to mirror it. The server is a parameter.
pub mod Ids
pub mod Serve
pub mod Late
pub mod Local
pub mod Answered
pub mod Run
pub mod Init
pub mod Startup
pub mod Deletions
pub mod Calls
pub mod Places
pub mod Tidy
use loci_terminal.Common.{
  ◌≡◌, ◌≢◌, String, Bool, true, false, not, List, [], ◌∷◌, ◌++◌, map, Option, none, some, filter,
  any, is, truthy,
}
use loci_terminal.Dict.{get}
use loci_terminal.Store.State.{Workspace, Session, AppState}
use loci_terminal.Store.Sessions.{sessions_of}
use loci_terminal.Store.Mirror.Ids.{has, workspace_ids, session_ids}

-- The requests of frontend/src/api/client.ts, as functions of the server's state `S`.
pub record Server (S : Type 0) : Type 0 where
  pub workspaces : S → List Workspace
  pub sessions : String → S → List Session
  pub create_workspace : String → S → Workspace × S
  pub create_session : String → Option String → S → Session × S
  pub update_workspace : String → String → S → Workspace × S
  pub update_session : String → String → S → Session × S
  pub delete_workspace : String → S → S
  pub delete_session : String → S → S

-- One of the sessions is shown; none, if there is none.
abbrev pub Shows : List String → Option String → Type 0
Shows xs none = xs ≡ []
Shows xs (some x) = has x xs ≡ true

module _ {S : Type 0} (v : Server S) where
  -- The ids that the server lists, in its order.
  abbrev pub listed : S → List String
  listed z = workspace_ids (v.workspaces z)

  abbrev pub held : String → S → List String
  held wid z = session_ids (v.sessions wid z)

  -- The lists of `z'` are those of `z`, but for the workspace `wid`.
  abbrev pub Elsewhere : String → S → S → Type 0
  Elsewhere wid z z' = (j : String) → j ≢ wid → held j z' ≡ held j z

  abbrev pub Untouched : S → S → Type 0
  Untouched z z' = (listed z' ≡ listed z) × ((j : String) → held j z' ≡ held j z)

  -- What the requests do to the ids: a new row is the last of its list, an update keeps them, and a
  -- deletion takes just one away, with the sessions of a workspace.
  pub record IsServer : Type 0 where
    pub workspace_made :
        (name : String) (z : S)
        → let (w, z') = v.create_workspace name z in
          (w.id ≢ "")
          × (listed z' ≡ listed z ++ w.id ∷ [])
          × (held w.id z' ≡ [])
          × Elsewhere w.id z z'
    pub session_made :
        (wid : String) (title : Option String) (z : S)
        → has wid (listed z) ≡ true
        → let (x, z') = v.create_session wid title z in
          (listed z' ≡ listed z) × (held wid z' ≡ held wid z ++ x.id ∷ []) × Elsewhere wid z z'
    pub workspace_updated :
        (id name : String) (z : S)
        → has id (listed z) ≡ true
        → let (w, z') = v.update_workspace id name z in (w.id ≡ id) × Untouched z z'
    pub session_updated :
        (wid id title : String) (z : S)
        → has id (held wid z) ≡ true
        → let (x, z') = v.update_session id title z in (x.id ≡ id) × Untouched z z'
    pub workspace_deleted :
        (id : String) (z : S)
        → let z' = v.delete_workspace id z in
          (listed z' ≡ filter (λ i. not (is i id)) (listed z))
          × (held id z' ≡ [])
          × Elsewhere id z z'
    pub session_deleted :
        (id : String) (z : S)
        → let z' = v.delete_session id z in
          (listed z' ≡ listed z)
          × ((j : String) → held j z' ≡ filter (λ i. not (is i id)) (held j z))

  -- No id is empty, and only a workspace of the list has sessions.
  pub record IsTidy (z : S) : Type 0 where
    pub named : (w : String) → has w (listed z) ≡ true → w ≢ ""
    pub orphans : (j : String) → has j (listed z) ≡ false → held j z ≡ []

  -- A workspace of the list is active, and one of its sessions shown; nothing, if there is no workspace.
  abbrev pub Stands : S → Option String → Option String → Type 0
  Stands z none session = (listed z ≡ []) × (session ≡ none)
  Stands z (some w) session = (has w (listed z) ≡ true) × Shows (held w z) session

  -- The store lists what the server lists, stands in it, and remembers sessions of their workspaces.
  pub record IsMirror (z : S) (s : AppState) : Type 0 where
    pub workspaces : workspace_ids s.workspaces ≡ listed z
    pub sessions : (j : String) → session_ids (sessions_of s j) ≡ held j z
    pub stands : Stands z (truthy s.active_workspace_id) s.active_session_id
    pub remembers :
        (j x : String) → get j s.active_session_by_workspace ≡ some x → has x (held j z) ≡ true
