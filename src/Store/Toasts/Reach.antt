-- ===== src/Store/Toasts/Reach.antt =====
-- The toasts of frontend/src/stores/appStore.ts after any history of steps.
use loci_terminal.Common.{ℕ, refl, subst, sym, inl, inr, String, Option-cases, truthy, arith}
use loci_terminal.Store.State.{AppState, World, Document, initial_world, find_timer}
use loci_terminal.Store.Api.{Api, Ensures, Ensures->>=, Ensures-map, Ensures-some}
use loci_terminal.Store.Frame.{resume-Keeps, mark_session_output-store}
use loci_terminal.Store.Activity.{fire_timer, idle_fired, set_active_session, clear_session_unread}
use loci_terminal.Store.Sessions.{delete_session, in_active, remove_session}
use loci_terminal.Store.Workspaces.{delete_workspace, set_active_workspace, listed_sessions}
use loci_terminal.Store.Steps.{
  Call, deletes_workspace, shows_workspace, deletes_session, resume, Step, output, fires, selects,
  looks, dismisses, answers, Reach, start, next,
}
use loci_terminal.Store.Toasts.{IsNotified}
use loci_terminal.Store.Toasts.Steps.{
  carry-IsNotified, select_session-IsNotified, clear_unread-IsNotified, dismiss_toast-IsNotified,
  settle-IsNotified, remove_session-IsNotified, remove_workspace-IsNotified,
  show_workspace-IsNotified,
}

in_active-IsNotified :
    (f : String → AppState → AppState) (s : AppState)
    → ((wid : String) → IsNotified (f wid s))
    → IsNotified s
    → IsNotified (in_active f s)
unfolding in_active
in_active-IsNotified f s h n = elim (Option-cases (truthy s.active_workspace_id)) [
  | inl e ↦ rw (e, in_active) n
  | inr (wid, e) ↦ rw (e, in_active) (h wid)
]

-- The store's view of a world.
abbrev pub IsCalm : World → Type 0
IsCalm w = IsNotified w.store

resume-IsCalm :
    (api : Api) (call : Call) (before : AppState) (w : World)
    → IsCalm w
    → Ensures IsCalm (resume api call before w)
unfolding resume delete_session delete_workspace set_active_workspace
resume-IsCalm api (deletes_workspace id) before w n =
    Ensures->>= IsCalm (api.delete_workspace id) _ (λ _. remove_workspace-IsNotified id w.store n)
resume-IsCalm api (shows_workspace id) before w n =
    Ensures->>= IsCalm (listed_sessions api id before) _
      (λ list. show_workspace-IsNotified id list w.store n)
resume-IsCalm api (deletes_session id) before w n =
    Ensures->>= IsCalm (api.delete_session id) _ (λ _.
      in_active-IsNotified (remove_session id) w.store
        (λ wid. remove_session-IsNotified id wid w.store n) n)
resume-IsCalm api call before w n =
    Ensures-map _ IsCalm (resume api call before w)
      (λ w' k. carry-IsNotified w.store w'.store k.0 k.1 n) (resume-Keeps api call before w refl)

fire_timer-IsCalm : (h : ℕ) (doc : Document) (w : World) → IsCalm w → IsCalm (fire_timer h doc w)
unfolding fire_timer idle_fired
fire_timer-IsCalm h doc w n = elim (Option-cases (find_timer h w.timers)) [
  | inl e ↦ rw (e, fire_timer) n
  | inr (x, e) ↦ rw (e, fire_timer) (settle-IsNotified x.session_id doc _ w.store n)
]

-- Every step keeps the toasts few, one to a session, and each session that has one unread.
pub Step-IsCalm : {now : ℕ} {w w' : World} → Step now w w' → IsCalm w → IsCalm w'
unfolding set_active_session clear_session_unread
Step-IsCalm {now} {w} (output id doc) n =
    subst IsNotified (sym (mark_session_output-store id doc now w)) n
Step-IsCalm {now} {w} (fires h doc x e le) n = fire_timer-IsCalm h doc w n
Step-IsCalm {w} (selects id) n = select_session-IsNotified id w.store n
Step-IsCalm {w} (looks id) n = clear_unread-IsNotified id w.store n
Step-IsCalm {w} (dismisses id) n = dismiss_toast-IsNotified id w.store n
Step-IsCalm {w} (answers api call before e) n =
    Ensures-some IsCalm (resume api call before w) e (resume-IsCalm api call before w n)

-- After any history.
pub Reach-IsCalm : {now : ℕ} {w : World} → Reach now w → IsCalm w
unfolding initial_world
Reach-IsCalm start = record { announced = tt; capped = omega arith; distinct = tt }
Reach-IsCalm (next r le st) = Step-IsCalm st (Reach-IsCalm r)
