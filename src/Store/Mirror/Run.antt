-- ===== src/Store/Mirror/Run.antt =====
-- A page and its server, from the start of the page: the store of frontend/src/stores/appStore.ts
-- goes on mirroring the server.
use loci_terminal.Common.{ℕ, ◌≡◌, refl, String, true, List, [], ◌∷◌, none, some, arith}
use loci_terminal.Store.State.{Workspace, Session, World, initial_world}
use loci_terminal.Store.Api.{Ends-some, Ends-result, Ends-on_store}
use loci_terminal.Store.Workspaces.{init}
use loci_terminal.Store.Steps.{
  Call, inits, fetches_workspaces, polls, creates_workspace, deletes_workspace, shows_workspace,
  fetches_sessions, deletes_session, renames_workspace, renames_session, creates_session, resume,
}
use loci_terminal.Store.Mirror.Ids.{has, has-last, workspace_ids}
use loci_terminal.Store.Mirror.{Server, IsServer, listed, IsTidy, IsMirror}
use loci_terminal.Store.Mirror.Serve.{
  answer, opened, Sensible, Serve, acts, asks, Run, begins, goes, furnished,
}
use loci_terminal.Store.Mirror.Tidy.{
  Untouched-IsTidy, workspace_made-IsTidy, session_made-IsTidy, workspace_deleted-IsTidy,
  session_deleted-IsTidy,
}
use loci_terminal.Store.Mirror.Local.{Local-IsMirror}
use loci_terminal.Store.Mirror.Answered.{After, resume-Ends}
use loci_terminal.Store.Mirror.Init.{init-IsMirror}

module _ {S : Type 0} (v : Server S) (laws : IsServer v) where
  furnished-IsTidy :
      (wid : String) (z : S) (xs : List Session)
      → has wid (listed v z) ≡ true
      → IsTidy v z
      → IsTidy v (furnished v wid z xs)
  furnished-IsTidy wid z [] known t = session_made-IsTidy v laws wid none z known t
  furnished-IsTidy wid z (x ∷ xs) known t = t

  opened-IsTidy :
      (z : S) (ws : List Workspace)
      → workspace_ids ws ≡ listed v z
      → IsTidy v z
      → let (w, z1) = opened v z ws in IsTidy v (furnished v w.id z1 (v.sessions w.id z1))
  opened-IsTidy z (w ∷ ws) e t =
      furnished-IsTidy w.id z (v.sessions w.id z) (rw (← e) (ground arith)) t
  opened-IsTidy z [] e t =
      let (w, z1) = v.create_workspace "Default" z in
      let (ne, more, new, rest) = laws.workspace_made "Default" z in
      furnished-IsTidy w.id z1 (v.sessions w.id z1) (rw more (has-last w.id (listed v z)))
        (workspace_made-IsTidy v laws "Default" z t)

  started-IsTidy : (z : S) → IsTidy v z → IsTidy v (answer v inits z).1
  started-IsTidy z t = opened-IsTidy z (v.workspaces z) refl t

  answer-IsTidy :
      (call : Call) (z : S) (w : World)
      → Sensible v z w.store call
      → IsMirror v z w.store
      → IsTidy v z
      → IsTidy v (answer v call z).1
  answer-IsTidy inits z w ok m t = started-IsTidy z t
  answer-IsTidy fetches_workspaces z w ok m t = t
  answer-IsTidy polls z w ok m t = t
  answer-IsTidy (creates_workspace name) z w ok m t =
      let (x, z') = v.create_workspace name z in
      let (ne, more, new, rest) = laws.workspace_made name z in
      session_made-IsTidy v laws x.id none z' (rw more (has-last x.id (listed v z)))
        (workspace_made-IsTidy v laws name z t)
  answer-IsTidy (deletes_workspace id) z w ok m t = workspace_deleted-IsTidy v laws id z t
  answer-IsTidy (shows_workspace id) z w ok m t = t
  answer-IsTidy (fetches_sessions id) z w ok m t = t
  answer-IsTidy (deletes_session id) z w ok m t = session_deleted-IsTidy v laws id z t
  answer-IsTidy (renames_workspace id name) z w ok m t =
      Untouched-IsTidy v laws (laws.workspace_updated id name z ok).1 t
  answer-IsTidy (renames_session id title) z w (wid, active, known) m t =
      Untouched-IsTidy v laws (laws.session_updated wid id title z known).1 t
  answer-IsTidy (creates_session wid title) z w ok m t =
      session_made-IsTidy v laws wid title z (rw ok at m.stands).0 t

  Serve-kept :
      {now : ℕ} {z z' : S} {w w' : World}
      → Serve v now z w z' w'
      → IsTidy v z × IsMirror v z w.store
      → IsTidy v z' × IsMirror v z' w'.store
  Serve-kept {z} (acts st l) (t, m) = (t, Local-IsMirror v z st l m)
  Serve-kept {z} {w} (asks call ok e) (t, m) = (
    answer-IsTidy call z w ok m t,
    Ends-result (After v laws z w t m (answer v call z).1)
        (resume (answer v call z).0 call w.store w) e (resume-Ends v laws z w t m call ok),
  )

  Run-kept : {now : ℕ} {z : S} {w : World} → Run v now z w → IsTidy v z × IsMirror v z w.store
  unfolding resume
  Run-kept (begins now z t e) = (
    started-IsTidy z t,
    Ends-result (λ (w : World). IsMirror v (answer v inits z).1 w.store) _ e
        (Ends-on_store (λ (w : World). IsMirror v (answer v inits z).1 w.store)
          (init (answer v inits z).0) initial_world (init-IsMirror v laws z initial_world.store t)),
  )
  Run-kept (goes r le st) = Serve-kept st (Run-kept r)

  -- Where the server keeps its laws, nothing but the page changes its lists, calls are answered one at a
  -- time, none fails, and each asks for what the store lists: after any run of page and server the
  -- server is tidy and the store mirrors it, and each further such call ends.
  pub Run-IsMirror :
      {now : ℕ} {z : S} {w : World}
      → Run v now z w
      → IsTidy v z
        × IsMirror v z w.store
        × ((call : Call)
            → Sensible v z w.store call
            → (w' : World) × (resume (answer v call z).0 call w.store w ≡ some w'))
  Run-IsMirror {z} {w} r =
      let (t, m) = Run-kept r in
      (
        t,
        m,
        λ call ok.
            let (w', e, n) =
              Ends-some (After v laws z w t m (answer v call z).1)
                (resume (answer v call z).0 call w.store w) (resume-Ends v laws z w t m call ok) in
            (w', e),
      )
