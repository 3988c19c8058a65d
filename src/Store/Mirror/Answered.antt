-- ===== src/Store/Mirror/Answered.antt =====
-- The calls of the store of frontend/src/stores/appStore.ts, with the answers of the server.
use loci_terminal.Common.{
  ◌≡◌, refl, sym, ap, subst, ◌∙◌, inl, inr, String, true, [], map, is, if◌then◌else◌, some, get_or,
  truthy, Option-cases,
}
use loci_terminal.Dict.{get}
use loci_terminal.Store.State.{Workspace, Session, AppState, World}
use loci_terminal.Store.Api.{Ends, Ends-bind, Ends-on_store}
use loci_terminal.Store.Sessions.{
  fetch_sessions, poll_in, poll_active, create_session, delete_session, rename_session, in_active,
  remove_session, replace_session, sessions_of,
}
use loci_terminal.Store.Workspaces.{
  fetch_workspaces, create_workspace, rename_workspace, delete_workspace, set_active_workspace,
  listed_sessions,
}
use loci_terminal.Store.Steps.{
  Call, inits, fetches_workspaces, polls, creates_workspace, deletes_workspace, shows_workspace,
  fetches_sessions, deletes_session, renames_workspace, renames_session, creates_session, resume,
}
use loci_terminal.Store.Mirror.Ids.{has, session_ids, map-replaced}
use loci_terminal.Store.Mirror.{Server, IsServer, listed, held, IsTidy, IsMirror}
use loci_terminal.Store.Mirror.Serve.{answer, at, Sensible}
use loci_terminal.Store.Mirror.Calls.{
  fetched_workspaces-IsMirror, fetched_sessions-IsMirror, polled-IsMirror,
  created_workspace-IsMirror, created_session-IsMirror, renamed-IsMirror, shown-IsMirror,
}
use loci_terminal.Store.Mirror.Places.{put-Rows}
use loci_terminal.Store.Mirror.Deletions.{deleted_session-IsMirror, deleted_workspace-IsMirror}
use loci_terminal.Store.Mirror.Init.{init-IsMirror}

in_active_lem :
    (f : String → AppState → AppState) (wid : String) (s : AppState)
    → truthy s.active_workspace_id ≡ some wid
    → in_active f s ≡ f wid s
unfolding in_active
in_active_lem f wid s e = rw (e, in_active) refl

module _ {S : Type 0} (v : Server S) (laws : IsServer v) (z : S) (w : World) (t : IsTidy v z)
    (m : IsMirror v z w.store) where
  abbrev pub After : S → World → Type 0
  After z' w' = IsMirror v z' w'.store

  renamed_workspace-IsMirror :
      (id name : String)
      → has id (listed v z) ≡ true
      → let (x, z') = v.update_workspace id name z in
        IsMirror v z' (record w.store {
          workspaces = map (λ (y : Workspace). if is y.id id then x else y) w.store.workspaces;
        })
  renamed_workspace-IsMirror id name known =
      let (x, z') = v.update_workspace id name z in
      let (same, untouched) = laws.workspace_updated id name z known in
      let n = renamed-IsMirror v laws z t m z' untouched in
      record {
        workspaces =
            map-replaced (λ (y : Workspace). y.id) id x w.store.workspaces same ∙ n.workspaces;
        sessions = n.sessions;
        stands = n.stands;
        remembers = n.remembers;
      }

  replaced_session-IsMirror :
      (wid id title : String)
      → has id (held v wid z) ≡ true
      → let (x, z') = v.update_session id title z in
        IsMirror v z' (replace_session id x wid w.store)
  unfolding replace_session
  replaced_session-IsMirror wid id title known =
      let (x, z') = v.update_session id title z in
      let (same, untouched) = laws.session_updated wid id title z known in
      let n = renamed-IsMirror v laws z t m z' untouched in
      record {
        workspaces = n.workspaces;
        sessions =
            put-Rows (λ j. held v j z') (λ j. held v j z') wid (λ j p. refl)
              (map (λ (y : Session). if is y.id id then x else y) (sessions_of w.store wid))
              w.store.sessions
              (map-replaced (λ (y : Session). y.id) id x (sessions_of w.store wid) same
                ∙ n.sessions wid)
              n.sessions;
        stands = n.stands;
        remembers = n.remembers;
      }

  listed_sessions-Ends :
      (id : String)
      → Ends (λ list. session_ids list ≡ held v id z) (listed_sessions (at v z) id w.store)
  unfolding listed_sessions
  listed_sessions-Ends id = elim (Option-cases (get id w.store.sessions)) [
    | inl e ↦ rw (e, listed_sessions) refl
    | inr (list, e) ↦
        rw (e, listed_sessions) (ap (λ o. session_ids (get_or o [])) (sym e) ∙ m.sessions id)
  ]

  polled-Ends : Ends (IsMirror v z) (poll_active (at v z) w.store w.store)
  unfolding poll_active poll_in
  polled-Ends = elim (Option-cases (truthy w.store.active_workspace_id)) [
    | inl e ↦ rw (e, poll_active) m
    | inr (wid, e) ↦ rw (e, poll_active) (polled-IsMirror v z m wid)
  ]

  -- A sensible call ends, and the store then mirrors the server that it leaves behind.
  pub resume-Ends :
      (call : Call)
      → Sensible v z w.store call
      → Ends (After (answer v call z).1) (resume (answer v call z).0 call w.store w)
  unfolding resume fetch_workspaces fetch_sessions create_workspace create_session delete_session
      rename_session rename_workspace delete_workspace set_active_workspace
  resume-Ends inits ok = Ends-on_store (After _) _ w (init-IsMirror v laws z w.store t)
  resume-Ends fetches_workspaces ok =
      Ends-on_store (After _) _ w (fetched_workspaces-IsMirror v z m)
  resume-Ends polls ok = Ends-on_store (After _) _ w polled-Ends
  resume-Ends (creates_workspace name) ok =
      Ends-on_store (After _) _ w (created_workspace-IsMirror v laws z t m name)
  resume-Ends (deletes_workspace id) ok = deleted_workspace-IsMirror v laws z t m id
  resume-Ends (shows_workspace id) ok =
      Ends-bind (λ list. session_ids list ≡ held v id z) (After z)
        (listed_sessions (at v z) id w.store) _ (listed_sessions-Ends id)
        λ list e. shown-IsMirror v laws z t m id list ok e
  resume-Ends (fetches_sessions id) ok =
      Ends-on_store (After _) _ w (fetched_sessions-IsMirror v z m id)
  resume-Ends (deletes_session id) ((wid, active, known), nowhere) =
      subst (IsMirror v (v.delete_session id z))
        (sym (in_active_lem (remove_session id) wid w.store active))
        (deleted_session-IsMirror v laws z t m wid id active nowhere)
  resume-Ends (renames_workspace id name) ok =
      Ends-on_store (After _) _ w (renamed_workspace-IsMirror id name ok)
  resume-Ends (renames_session id title) (wid, active, known) =
      let (x, z') = v.update_session id title z in
      Ends-on_store (After _) _ w (
        subst (IsMirror v z') (sym (in_active_lem (replace_session id x) wid w.store active))
          (replaced_session-IsMirror wid id title known))
  resume-Ends (creates_session wid title) ok =
      Ends-on_store (After _) _ w (created_session-IsMirror v laws z t m wid title ok)
