-- ===== src/Store/Races.antt =====
-- What the asynchronous methods of frontend/src/stores/appStore.ts do when the user has moved on, or
-- was elsewhere.
use loci_terminal.Common.{
  ◌≡◌, refl, ◌≢◌, inl, inr, String, not, List, [], ◌∷◌, ◌++◌, ap, ◌∙◌, Option, some, is, filter,
  arith, truthy, Option-cases,
}
use loci_terminal.Dict.{Dict, get}
use loci_terminal.Dict.Laws.{get-put, get-put_self, get-delete}
use loci_terminal.Store.State.{AppState, Session, World, session_unread}
use loci_terminal.Store.Api.{Api}
use loci_terminal.Store.Sessions.{
  sessions_of, add_session, reassign, create_session, delete_session, remove_session, in_active,
}

-- A session is created for `wid`, and by the time of the answer another workspace `v` is active: the
-- new session becomes the active one, is listed in `wid`, and the active workspace's list is as it was.
create_session_elsewhere :
    (api : Api) (wid v : String) (title : Option String) (s : AppState) (sess : Session)
    → s.active_workspace_id ≡ some v
    → wid ≢ v
    → api.create_session wid title ≡ some sess
    → (s' : AppState) × (create_session api wid title s ≡ some s')
      × (s'.active_workspace_id ≡ some v)
      × (s'.active_session_id ≡ some sess.id)
      × (sessions_of s' v ≡ sessions_of s v)
      × (get wid s'.active_session_by_workspace ≡ some sess.id)
unfolding create_session
create_session_elsewhere api wid v title s sess active ne answer = (
  add_session wid sess s,
  rw answer,
  active,
  refl,
  ground (arith, get-put wid v (sessions_of s wid ++ sess ∷ []) s.sessions),
  get-put_self wid sess.id s.active_session_by_workspace,
)

reassign_other :
    (wid v id : String) (next : Option String) (remembered : Dict String)
    → wid ≢ v
    → get wid (reassign v id next remembered) ≡ get wid remembered
unfolding reassign
reassign_other wid v id next remembered ne = elim (Option-cases (truthy next)) [
  | inl e ↦ ground (arith, get-delete v wid remembered)
  | inr (n, e) ↦ ground (arith, get-put v wid n remembered)
]

remove_session_other :
    (wid v id : String) (s : AppState)
    → wid ≢ v
    → (sessions_of (remove_session id v s) wid ≡ sessions_of s wid)
      × (get wid (remove_session id v s).active_session_by_workspace
          ≡ get wid s.active_session_by_workspace)
unfolding remove_session
remove_session_other wid v id s ne = (
  ground (
    arith,
    get-put v wid (filter (λ (x : Session). not (is x.id id)) (sessions_of s v)) s.sessions,
  ),
  reassign_other wid v id _ s.active_session_by_workspace ne,
)

-- A session of `wid` is deleted, and by the time of the answer another workspace `v` is active: the
-- lists of `wid` and the session remembered for it are as they were, the deleted session included.
pub delete_session_elsewhere :
    (api : Api) (wid v id : String) (w : World) {w' : World}
    → truthy w.store.active_workspace_id ≡ some v
    → wid ≢ v
    → delete_session api id w ≡ some w'
    → (sessions_of w'.store wid ≡ sessions_of w.store wid)
      × (get wid w'.store.active_session_by_workspace ≡ get wid w.store.active_session_by_workspace)
unfolding delete_session in_active
delete_session_elsewhere api wid v id w {w'} active ne e =
    elim (Option-cases (api.delete_session id)) [
      | inl q ↦ absurd (ground arith)
      | inr (u, q) ↦
          let same : w'.store ≡ remove_session id v w.store = ground arith in
          let (list, remembered) = remove_session_other wid v id w.store ne in
          (
            ap (λ s. sessions_of s wid) same ∙ list,
            ap (λ s. get wid s.active_session_by_workspace) same ∙ remembered,
          )
    ]

-- Deleting the active session makes the first of the others active, and leaves that one's unread mark
-- as it was.
pub delete_session_keeps_mark :
    (wid id : String) (s : AppState) (x : Session) (xs : List Session)
    → s.active_session_id ≡ some id
    → filter (λ (y : Session). not (is y.id id)) (sessions_of s wid) ≡ x ∷ xs
    → id ≢ x.id
    → let s' = remove_session id wid s in
      (s'.active_session_id ≡ some x.id) × (session_unread s' x.id ≡ session_unread s x.id)
unfolding remove_session session_unread
delete_session_keeps_mark wid id s x xs active rest ne =
    (ground arith, ground (arith, get-delete id x.id s.session_activity))
