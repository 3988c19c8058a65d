-- ===== src/Store/Steps/Books.antt =====
-- Every step of the store keeps the books of bursts and timeouts.
use loci_terminal.Common.{ℕ, refl, String, List, [], ◌∷◌, Option, none, some}
use loci_terminal.Dict.{get}
use loci_terminal.Store.State.{AppState, Session, World, initial_world, on_store}
use loci_terminal.Store.Api.{Api, Ensures, Ensures->>=, Ensures-some, Ensures-on_store}
use loci_terminal.Store.Activity.{set_active_session, clear_session_unread}
use loci_terminal.Store.Sessions.{delete_session}
use loci_terminal.Store.Workspaces.{
  delete_workspace, set_active_workspace, cancel_all, cancel_viewed, listed_sessions,
}
use loci_terminal.Store.Tracking.{IsTracked, cancel_idle_tracking-IsTracked, later-IsTracked}
use loci_terminal.Store.Tracking.Output.{mark_session_output-IsTracked}
use loci_terminal.Store.Tracking.Fire.{store-IsTracked, fire_timer-IsTracked}
use loci_terminal.Store.Steps.{
  Call, deletes_workspace, shows_workspace, deletes_session, resume, Step, output, fires, selects,
  looks, dismisses, answers, Reach, start, next,
}

pub initial-IsTracked : IsTracked 0 initial_world
unfolding initial_world get
initial-IsTracked = record {
  owned = tt;
  pending = λ id h e. absurd (cc);
  paired = λ id. refl;
  spans = λ id t e. absurd (cc);
}

pub cancel_all-IsTracked :
    (now : ℕ) (xs : List Session) (w : World) → IsTracked now w → IsTracked now (cancel_all xs w)
unfolding cancel_all
cancel_all-IsTracked now [] w v = v
cancel_all-IsTracked now (x ∷ xs) w v =
    cancel_all-IsTracked now xs _ (cancel_idle_tracking-IsTracked now x.id w v)

cancel_viewed-IsTracked :
    (now : ℕ) (o : Option String) (w : World) → IsTracked now w → IsTracked now (cancel_viewed o w)
unfolding cancel_viewed
cancel_viewed-IsTracked now none w v = v
cancel_viewed-IsTracked now (some id) w v = cancel_idle_tracking-IsTracked now id w v

-- An operation on the store alone.
pure-IsTracked :
    {now : ℕ} (op : AppState → Option AppState) (w : World)
    → IsTracked now w
    → Ensures (IsTracked now) (on_store op w)
pure-IsTracked {now} op w v = Ensures-on_store (IsTracked now) op w (go (op w.store))
  where
    go : (o : Option AppState) → Ensures (λ s. IsTracked now (record w { store = s })) o
    go none = tt
    go (some s) = store-IsTracked w s v

resume-IsTracked :
    (now : ℕ) (api : Api) (call : Call) (before : AppState) (w : World)
    → IsTracked now w
    → Ensures (IsTracked now) (resume api call before w)
unfolding resume delete_session delete_workspace set_active_workspace
resume-IsTracked now api (deletes_workspace id) before w v =
    Ensures->>= _ (api.delete_workspace id) _
      (λ _. store-IsTracked _ _ (cancel_all-IsTracked now _ w v))
resume-IsTracked now api (shows_workspace id) before w v =
    Ensures->>= _ (listed_sessions api id before) _
      (λ _. store-IsTracked _ _ (cancel_viewed-IsTracked now _ w v))
resume-IsTracked now api (deletes_session id) before w v =
    Ensures->>= _ (api.delete_session id) _
      (λ _. store-IsTracked _ _ (cancel_idle_tracking-IsTracked now id w v))
resume-IsTracked now api _ before w v = pure-IsTracked _ w v

-- Every step keeps the books.
pub Step-IsTracked : {now : ℕ} {w w' : World} → Step now w w' → IsTracked now w → IsTracked now w'
unfolding set_active_session clear_session_unread
Step-IsTracked {now} {w} (output id doc) v = mark_session_output-IsTracked now id doc w v
Step-IsTracked {now} {w} (fires h doc x e le) v = fire_timer-IsTracked now h doc w v
Step-IsTracked {now} {w} (selects id) v =
    store-IsTracked _ _ (cancel_idle_tracking-IsTracked now id w v)
Step-IsTracked {now} {w} (looks id) v =
    store-IsTracked _ _ (cancel_idle_tracking-IsTracked now id w v)
Step-IsTracked (dismisses id) v = store-IsTracked _ _ v
Step-IsTracked {now} {w} (answers api call before e) v =
    Ensures-some _ (resume api call before w) e (resume-IsTracked now api call before w v)

-- After any history: each pending timeout is the one on record for its session and waits for the
-- end of that session's idle window, each one on record is pending, and a session has a timeout
-- exactly while a burst of it is on record.
pub Reach-IsTracked : {now : ℕ} {w : World} → Reach now w → IsTracked now w
Reach-IsTracked start = initial-IsTracked
Reach-IsTracked (next r le st) = Step-IsTracked st (later-IsTracked le (Reach-IsTracked r))
