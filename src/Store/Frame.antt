-- ===== src/Store/Frame.antt =====
-- The operations of frontend/src/stores/appStore.ts that touch neither the unread marks nor the
-- toasts.
use loci_terminal.Common.{
  ℕ, ◌≡◌, refl, inl, inr, String, [], ◌∷◌, Option, none, Bool, true, false, Bool-cases,
  Option-cases, truthy, arith,
}
use loci_terminal.Store.State.{AppState, Session, World, Document}
use loci_terminal.Store.Api.{Api, Ensures, Ensures->>=, Ensures-on_store}
use loci_terminal.Store.Activity.{cancel_idle_tracking, mark_session_output}
use loci_terminal.Store.Sessions.{
  fetch_sessions, poll_in, poll_active, create_session, rename_session, in_active, replace_session,
  sessions_equal, sessions_of,
}
use loci_terminal.Store.Workspaces.{
  init, fetch_workspaces, create_workspace, rename_workspace, list_all, first_workspaces,
  first_session, fill,
}
use loci_terminal.Store.Steps.{
  Call, inits, fetches_workspaces, polls, creates_workspace, deletes_workspace, shows_workspace,
  fetches_sessions, deletes_session, renames_workspace, renames_session, creates_session, resume,
}

abbrev pub Keeps : AppState → AppState → Type 0
Keeps s s' = (s'.session_activity ≡ s.session_activity) × (s'.toasts ≡ s.toasts)

replace_session-Keeps :
    (id : String) (updated : Session) (s : AppState)
    → Keeps s (in_active (replace_session id updated) s)
unfolding in_active replace_session
replace_session-Keeps id updated s = ground arith

module _ (api : Api) (s : AppState) where
  init-Keeps : Ensures (Keeps s) (init api s)
  unfolding init
  init-Keeps = Ensures->>= (Keeps s) api.list_workspaces _ λ listed.
      Ensures->>= (Keeps s) (first_workspaces api listed) _ λ a.
        Ensures->>= (Keeps s) (list_all api (a.0 ∷ a.1)) _ λ lists.
          Ensures->>= (Keeps s) (first_session api a.0.id (fill lists ([], []))) _ λ _. (refl, refl)

  fetch_workspaces-Keeps : Ensures (Keeps s) (fetch_workspaces api s)
  unfolding fetch_workspaces
  fetch_workspaces-Keeps = Ensures->>= (Keeps s) api.list_workspaces _ λ _. (refl, refl)

  create_workspace-Keeps : (name : String) → Ensures (Keeps s) (create_workspace api name s)
  unfolding create_workspace
  create_workspace-Keeps name =
      Ensures->>= (Keeps s) (api.create_workspace name) _
        λ ws. Ensures->>= (Keeps s) (api.create_session ws.id none) _ λ _. (refl, refl)

  rename_workspace-Keeps : (id name : String) → Ensures (Keeps s) (rename_workspace api id name s)
  unfolding rename_workspace
  rename_workspace-Keeps id name =
      Ensures->>= (Keeps s) (api.update_workspace id name) _ λ _. (refl, refl)

  fetch_sessions-Keeps : (id : String) → Ensures (Keeps s) (fetch_sessions api id s)
  unfolding fetch_sessions
  fetch_sessions-Keeps id = Ensures->>= (Keeps s) (api.list_sessions id) _ λ _. (refl, refl)

  create_session-Keeps :
      (id : String) (title : Option String) → Ensures (Keeps s) (create_session api id title s)
  unfolding create_session
  create_session-Keeps id title =
      Ensures->>= (Keeps s) (api.create_session id title) _ λ _. (refl, refl)

  rename_session-Keeps : (id title : String) → Ensures (Keeps s) (rename_session api id title s)
  unfolding rename_session
  rename_session-Keeps id title =
      Ensures->>= (Keeps s) (api.update_session id title) _
        λ updated. replace_session-Keeps id updated s

  poll_in-Keeps : (wid : String) → Ensures (Keeps s) (poll_in api wid s)
  unfolding poll_in
  poll_in-Keeps wid = Ensures->>= (Keeps s) (api.list_sessions wid) _ λ sessions.
      (elim (Bool-cases (sessions_equal (sessions_of s wid) sessions)) [
        | inl e ↦ rw e (refl, refl)
        | inr e ↦ rw e ((refl, refl))
      ])

  poll_active-Keeps : (before : AppState) → Ensures (Keeps s) (poll_active api before s)
  unfolding poll_active
  poll_active-Keeps before = elim (Option-cases (truthy before.active_workspace_id)) [
    | inl e ↦ rw (e, poll_active) (refl, refl)
    | inr (wid, e) ↦ rw (e, poll_active) (poll_in-Keeps wid)
  ]

-- The calls whose last part leaves the marks and the toasts alone.
abbrev pub is_quiet : Call → Bool
is_quiet (deletes_workspace id) = false
is_quiet (deletes_session id) = false
is_quiet (shows_workspace id) = false
is_quiet _ = true

pub resume-Keeps :
    (api : Api) (call : Call) (before : AppState) (w : World)
    → is_quiet call ≡ true
    → Ensures (λ (w' : World). Keeps w.store w'.store) (resume api call before w)
unfolding resume
resume-Keeps api (deletes_workspace id) before w q = absurd (cc)
resume-Keeps api (shows_workspace id) before w q = absurd (cc)
resume-Keeps api (deletes_session id) before w q = absurd (cc)
resume-Keeps api inits before w q = Ensures-on_store _ (init api) w (init-Keeps api w.store)
resume-Keeps api fetches_workspaces before w q =
    Ensures-on_store _ (fetch_workspaces api) w (fetch_workspaces-Keeps api w.store)
resume-Keeps api polls before w q =
    Ensures-on_store _ (poll_active api before) w (poll_active-Keeps api w.store before)
resume-Keeps api (creates_workspace name) before w q =
    Ensures-on_store _ (create_workspace api name) w (create_workspace-Keeps api w.store name)
resume-Keeps api (fetches_sessions id) before w q =
    Ensures-on_store _ (fetch_sessions api id) w (fetch_sessions-Keeps api w.store id)
resume-Keeps api (renames_workspace id name) before w q =
    Ensures-on_store _ (rename_workspace api id name) w (rename_workspace-Keeps api w.store id name)
resume-Keeps api (renames_session id title) before w q =
    Ensures-on_store _ (rename_session api id title) w (rename_session-Keeps api w.store id title)
resume-Keeps api (creates_session id title) before w q =
    Ensures-on_store _ (create_session api id title) w (create_session-Keeps api w.store id title)

pub cancel_idle_tracking-store :
    (id : String) (w : World) → (cancel_idle_tracking id w).store ≡ w.store
unfolding cancel_idle_tracking
cancel_idle_tracking-store id w = ground arith

pub mark_session_output-store :
    (id : String) (doc : Document) (now : ℕ) (w : World)
    → (mark_session_output id doc now w).store ≡ w.store
unfolding mark_session_output
mark_session_output-store id doc now w = ground (arith, cancel_idle_tracking-store id w)
