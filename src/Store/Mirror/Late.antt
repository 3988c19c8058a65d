-- ===== src/Store/Mirror/Late.antt =====
-- Answers that come after the user has gone to another workspace, in frontend/src/stores/appStore.ts: the
-- store then mirrors the server no more.
use loci_terminal.Common.{◌≡◌, ◌≢◌, refl, sym, ap, ◌∙◌, String, true, false, Option, some, truthy}
use loci_terminal.Store.State.{AppState, World}
use loci_terminal.Store.Sessions.{
  sessions_of, create_session, delete_session, add_session, in_active, remove_session,
}
use loci_terminal.Store.Activity.{cancel_idle_tracking}
use loci_terminal.Store.Races.{delete_session_elsewhere}
use loci_terminal.Store.Mirror.Ids.{has, session_ids, has_filtered}
use loci_terminal.Store.Mirror.{Server, IsServer, listed, held, IsMirror}
use loci_terminal.Store.Mirror.Serve.{at}

module _ {S : Type 0} (v : Server S) (laws : IsServer v) (z : S) (wid active : String)
    (ne : wid ≢ active) where
  -- The server keeps its laws, the store mirrors it, and a workspace `active` is shown, when the server
  -- creates a session in another workspace of its list, with an id that `active` does not have: the call
  -- ends, the new session is the active one beside the same active workspace, and the store mirrors the
  -- server no more.
  pub created_late :
      (title : Option String) (s : AppState)
      → IsMirror v z s
      → truthy s.active_workspace_id ≡ some active
      → has wid (listed v z) ≡ true
      → let (x, z') = v.create_session wid title z in
        has x.id (held v active z) ≡ false
        → (s' : AppState) × (create_session (at v z) wid title s ≡ some s')
          × (s'.active_session_id ≡ some x.id)
          × (s'.active_workspace_id ≡ s.active_workspace_id)
          × ¬ IsMirror v z' s'
  unfolding create_session add_session
  created_late title s m shown known new =
      let (x, z') = v.create_session wid title z in
      let (same, mine, kept) = laws.session_made wid title z known in
      (
        add_session wid x s,
        refl,
        refl,
        refl,
        λ n. let (l, h) = rw shown at n.stands in cc (h, kept active (λ p. ne (sym p)), new),
      )

  -- The server keeps its laws, the store mirrors it, and a workspace `active` is shown, when the server
  -- has deleted a session of another workspace: the call ends, the store goes on listing the session
  -- there, and it mirrors the server no more.
  pub deleted_late :
      (id : String) (w : World)
      → IsMirror v z w.store
      → truthy w.store.active_workspace_id ≡ some active
      → has id (held v wid z) ≡ true
      → (w' : World) × (delete_session (at v z) id w ≡ some w')
        × (has id (session_ids (sessions_of w'.store wid)) ≡ true)
        × ¬ IsMirror v (v.delete_session id z) w'.store
  unfolding delete_session
  deleted_late id w m shown known =
      let w' : World = record (cancel_idle_tracking id w) {
        store = in_active (remove_session id) w.store;
      } in
      let (list, remembered) =
        delete_session_elsewhere (at v z) wid active id w {w' = w'} shown ne refl in
      let (same, less) = laws.session_deleted id z in
      let still : has id (session_ids (sessions_of w'.store wid)) ≡ true =
        ap (λ xs. has id (session_ids xs)) list ∙ ap (has id) (m.sessions wid) ∙ known in
      (
        w',
        refl,
        still,
        λ n. cc (still, ap (has id) (n.sessions wid ∙ less wid), has_filtered id (held v wid z)),
      )
