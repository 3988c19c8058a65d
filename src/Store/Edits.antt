-- ===== src/Store/Edits.antt =====
-- New and renamed workspaces and sessions, in frontend/src/stores/appStore.ts.
use loci_terminal.Common.{
  ◌≡◌, refl, ◌≢◌, ap, ◌∙◌, String, List, [], ◌∷◌, ◌++◌, map, some, none, is, arith, truthy,
  if◌then◌else◌, get_or,
}
use loci_terminal.Dict.{get}
use loci_terminal.Dict.Laws.{get-put, get-put_self}
use loci_terminal.Store.State.{AppState, Workspace, Session}
use loci_terminal.Store.Api.{Api}
use loci_terminal.Store.Sessions.{sessions_of, replace_session, rename_session, in_active}
use loci_terminal.Store.Workspaces.{add_workspace, create_workspace}

-- When the server has created a workspace and a session in it, the workspace is the last of the list
-- and the active one, with just that session, which is active and remembered; every other workspace
-- keeps its sessions and the session remembered for it.
pub create_workspace-shows :
    (api : Api) (name : String) (ws : Workspace) (sess : Session) (s : AppState)
    → api.create_workspace name ≡ some ws
    → api.create_session ws.id none ≡ some sess
    → (s' : AppState) × (create_workspace api name s ≡ some s')
      × (s'.workspaces ≡ s.workspaces ++ ws ∷ [])
      × (s'.active_workspace_id ≡ some ws.id)
      × (s'.active_session_id ≡ some sess.id)
      × (sessions_of s' ws.id ≡ sess ∷ [])
      × (get ws.id s'.active_session_by_workspace ≡ some sess.id)
      × ((wid : String)
          → ws.id ≢ wid
          → (sessions_of s' wid ≡ sessions_of s wid)
            × (get wid s'.active_session_by_workspace ≡ get wid s.active_session_by_workspace))
unfolding create_workspace add_workspace
create_workspace-shows api name ws sess s a b = (
  add_workspace ws sess s,
  rw (a, b) refl,
  refl,
  refl,
  refl,
  ap (λ o. get_or o []) (get-put_self ws.id (sess ∷ []) s.sessions),
  get-put_self ws.id sess.id s.active_session_by_workspace,
  (λ wid ne. (
    ground (arith, get-put ws.id wid (sess ∷ []) s.sessions),
    ground (arith, get-put ws.id wid sess.id s.active_session_by_workspace),
  )),
)

-- Replacing a session by one of the same id keeps the ids, in their order.
map-replace :
    (id : String) (updated : Session) (xs : List Session)
    → updated.id ≡ id
    → map (λ (x : Session). x.id) (map (λ (x : Session). if is x.id id then updated else x) xs)
      ≡ map (λ (x : Session). x.id) xs
map-replace id updated [] e = refl
map-replace id updated (x ∷ xs) e = ground (arith, map-replace id updated xs e)

-- When the server has renamed a session of the active workspace, that workspace lists the same ids in
-- the same order, and every other workspace the same sessions.
pub rename_session-ids :
    (api : Api) (wid id title : String) (updated : Session) (s : AppState)
    → truthy s.active_workspace_id ≡ some wid
    → api.update_session id title ≡ some updated
    → updated.id ≡ id
    → (s' : AppState) × (rename_session api id title s ≡ some s')
      × (map (λ (x : Session). x.id) (sessions_of s' wid)
          ≡ map (λ (x : Session). x.id) (sessions_of s wid))
      × ((v : String) → wid ≢ v → sessions_of s' v ≡ sessions_of s v)
unfolding rename_session in_active replace_session
rename_session-ids api wid id title updated s active answer same = (
  replace_session id updated wid s,
  rw answer (rw (active, in_active) refl),
  ap (λ o. map (λ (x : Session). x.id) (get_or o [])) (get-put_self wid _ s.sessions)
      ∙ map-replace id updated (sessions_of s wid) same,
  (λ v ne. ground (
    arith,
    get-put wid v (map (λ (x : Session). if is x.id id then updated else x) (sessions_of s wid))
        s.sessions,
  )),
)
