-- ===== src/Store/Spec/Refines.antt =====
-- The store of frontend/src/stores/appStore.ts refines the machine of `Spec`, session by session.
use loci_terminal.Common.{
  ℕ, ◌+◌, ◌≤◌, ◌≡◌, refl, ap, ◌∙◌, subst, inl, inr, String, Bool, true, false, [], some, is,
  if◌then◌else◌, truthy, arith, Option-cases, All-find, eqb,
}
use loci_terminal.Dict.{get}
use loci_terminal.Store.State.{
  AppState, World, BusyTrack, initial_world, initial_state, idle_ms, session_unread,
}
use loci_terminal.Store.Api.{Api, Ensures-some}
use loci_terminal.Store.Workspaces.{listed_sessions}
use loci_terminal.Store.Tracking.{IsTracked, IsOwned, due_of, later-IsTracked}
use loci_terminal.Store.Spec
use loci_terminal.Store.Steps.{
  Call, deletes_workspace, shows_workspace, deletes_session, resume, Step, output, fires, selects,
  looks, dismisses, answers, Reach, start, next,
}
use loci_terminal.Store.Steps.Books.{Reach-IsTracked}
use loci_terminal.Store.Spec.{
  Attention, Event, nothing, chunk, hushed, window_ends, seen, respond, follow, IsDue, IsTimely,
  attention, answer_event, event, events, prolonged, is_long,
}
use loci_terminal.Store.Spec.Moves.{
  selects-refines, looks-refines, dismisses-refines, output-refines, fires-refines, resume-refines,
}

-- One step of the store is one event of the machine, for every session.
Step-refines :
    (j : String) {now : ℕ} {w w' : World} (st : Step now w w')
    → attention j w' ≡ respond (event j st) (attention j w)
unfolding event respond
Step-refines j {now} {w} (output id doc) = output-refines j now id doc w
Step-refines j {now} {w} (fires h doc x e le) = fires-refines j now h doc x w e
Step-refines j {now} {w} (selects id) = selects-refines j id w
Step-refines j {now} {w} (looks id) = looks-refines j id w
Step-refines j {now} {w} (dismisses id) = dismisses-refines j id w
Step-refines j {now} {w} (answers api call before e) =
    Ensures-some _ (resume api call before w) e (resume-refines j api call before w)

initial-refines : (j : String) → attention j initial_world ≡ follow []
unfolding attention session_unread initial_world initial_state follow get
initial-refines j = refl

met-IsDue :
    (b away : Bool) (now : ℕ) (a : Attention)
    → (b ≡ true → (t : BusyTrack) → a.burst ≡ some t → t.last_byte_at + idle_ms ≤ now)
    → IsDue (Spec.met b (window_ends now away)) a
met-IsDue true away now a f = f refl
met-IsDue false away now a f = tt

early-IsDue :
    (b c : Bool) (now : ℕ) (a : Attention) → IsDue (Spec.met b (if c then hushed else chunk now)) a
early-IsDue true true now a = tt
early-IsDue true false now a = tt
early-IsDue false c now a = tt

seen-IsDue : (b : Bool) (a : Attention) → IsDue (Spec.met b seen) a
seen-IsDue true a = tt
seen-IsDue false a = tt

answer_event-IsDue :
    (j : String) (api : Api) (call : Call) (before : AppState) (w : World) (a : Attention)
    → IsDue (answer_event j api call before w) a
unfolding answer_event
answer_event-IsDue j api (deletes_workspace id) before w a = seen-IsDue _ a
answer_event-IsDue j api (shows_workspace id) before w a =
    elim (Option-cases (listed_sessions api id before)) [
      | inl e ↦ rw (e, answer_event) tt
      | inr (list, e) ↦ rw (e, answer_event) (seen-IsDue _ a)
    ]
answer_event-IsDue j api (deletes_session id) before w a =
    elim (Option-cases (truthy w.store.active_workspace_id)) [
      | inl e ↦ rw (e, answer_event) (early-IsDue (is id j) true 0 a)
      | inr (wid, e) ↦ rw (e, answer_event) (seen-IsDue _ a)
    ]
answer_event-IsDue j api _ before w a = tt

Step-IsDue :
    (j : String) {now : ℕ} {w w' : World} (st : Step now w w')
    → IsTracked now w
    → IsDue (event j st) (attention j w)
unfolding event attention
Step-IsDue j {now} {w} (output id doc) v = early-IsDue (is id j) _ now _
Step-IsDue j {now} {w} (fires h doc x e le) v =
    let (o, hit) = All-find (IsOwned w) (λ y. eqb y.handle h) w.timers e v.owned in
    let due : due_of x.session_id w ≡ some x.due = o.debounced in
    met-IsDue (is x.session_id j) _ now (attention j w) (λ b t q. ground arith)
Step-IsDue j (selects id) v = seen-IsDue (is id j) _
Step-IsDue j (looks id) v = seen-IsDue (is id j) _
Step-IsDue j (dismisses id) v = tt
Step-IsDue j {now} {w} (answers api call before e) v = answer_event-IsDue j api call before w _

-- After any history, with any interleaving of output, timeouts, looks and answers of the server, the
-- burst on record for a session and its mark are those of the machine that follows its events; and a
-- window ended only when its burst had been silent for `IDLE_MS`.
pub Reach-refines :
    (j : String) {now : ℕ} {w : World} (r : Reach now w)
    → (attention j w ≡ follow (events j r)) × IsTimely (events j r)
unfolding events follow
Reach-refines j start = (initial-refines j, tt)
Reach-refines j (next {w} r le st) =
    let (same, timely) = Reach-refines j r in
    (
      Step-refines j st ∙ ap (respond (event j st)) same,
      (
        subst (IsDue (event j st)) same (Step-IsDue j st (later-IsTracked le (Reach-IsTracked r))),
        timely,
      ),
    )
