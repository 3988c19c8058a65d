-- ===== src/Store/Sweeping.antt =====
-- What the loops over removed sessions in `deleteWorkspace` of frontend/src/stores/appStore.ts do.
use loci_terminal.Common.{
  ℕ, ap, ◌≡◌, ◌≢◌, String, false, not, List, [], ◌∷◌, none, All, All-map, All-test, filter, arith,
}
use loci_terminal.Dict.{Dict, get, delete}
use loci_terminal.Dict.Laws.{get-delete, get-delete_self}
use loci_terminal.Store.State.{Session, SessionActivity, World, Timer, Toast}
use loci_terminal.Store.Activity.{cancel_idle_tracking}
use loci_terminal.Store.Workspaces.{cancel_all, delete_all, is_removed, drop_removed}
use loci_terminal.Store.Tracking.{IsTracked}
use loci_terminal.Store.Toasts.Steps.{drop_removed-filter}
use loci_terminal.Store.Views.{cancel_idle_tracking-gone}

-- Where the books agree, no timeout is pending for a session without one on record.
pub unscheduled-silent :
    (now : ℕ) (id : String) (w : World)
    → IsTracked now w
    → get id w.idle_timers ≡ none
    → All (λ (t : Timer). t.session_id ≢ id) w.timers
unscheduled-silent now id w v e =
    All-map w.timers (λ t o same. let c = o.current in cc (ap (λ i. get i w.idle_timers) same))
      v.owned

delete_all-none :
    (j : String) (xs : List Session) (a : Dict SessionActivity)
    → get j a ≡ none
    → get j (delete_all xs a) ≡ none
unfolding delete_all
delete_all-none j [] a e = e
delete_all-none j (x ∷ xs) a e =
    delete_all-none j xs (delete x.id a) (ground (arith, get-delete x.id j a))

pub delete_all-All :
    (xs : List Session) (a : Dict SessionActivity)
    → All (λ (x : Session). get x.id (delete_all xs a) ≡ none) xs
unfolding delete_all
delete_all-All [] a = tt
delete_all-All (x ∷ xs) a = (
  delete_all-none x.id xs (delete x.id a) (get-delete_self x.id a),
  delete_all-All xs (delete x.id a),
)

cancel_none :
    (j id : String) (w : World)
    → (get j w.busy_track ≡ none → get j (cancel_idle_tracking id w).busy_track ≡ none)
      × (get j w.idle_timers ≡ none → get j (cancel_idle_tracking id w).idle_timers ≡ none)
unfolding cancel_idle_tracking
cancel_none j id w = (
  (λ e. ground (arith, get-delete id j w.busy_track)),
  (λ e. ground (arith, get-delete id j w.idle_timers)),
)

cancel_all-none :
    (j : String) (xs : List Session) (w : World)
    → (get j w.busy_track ≡ none → get j (cancel_all xs w).busy_track ≡ none)
      × (get j w.idle_timers ≡ none → get j (cancel_all xs w).idle_timers ≡ none)
unfolding cancel_all
cancel_all-none j [] w = ((λ e. e), (λ e. e))
cancel_all-none j (x ∷ xs) w =
    let w' = cancel_idle_tracking x.id w in
    (
      (λ e. (cancel_all-none j xs w').0 ((cancel_none j x.id w).0 e)),
      (λ e. (cancel_all-none j xs w').1 ((cancel_none j x.id w).1 e)),
    )

pub cancel_all-All :
    (xs : List Session) (w : World)
    → All (λ (x : Session). get x.id (cancel_all xs w).busy_track ≡ none) xs
      × All (λ (x : Session). get x.id (cancel_all xs w).idle_timers ≡ none) xs
unfolding cancel_all
cancel_all-All [] w = (tt, tt)
cancel_all-All (x ∷ xs) w =
    let w' = cancel_idle_tracking x.id w in
    let gone = cancel_idle_tracking-gone x.id w in
    let rest = cancel_all-All xs w' in
    (
      ((cancel_all-none x.id xs w').0 gone.0, rest.0),
      ((cancel_all-none x.id xs w').1 gone.1, rest.1),
    )

pub drop_removed-All :
    (xs : List Session) (ts : List Toast) → All (λ t. is_removed xs t ≡ false) (drop_removed xs ts)
drop_removed-All xs ts = rw (drop_removed-filter xs ts) (
    All-map (filter (λ t. not (is_removed xs t)) ts) (λ t k. ground arith)
      (All-test (λ t. not (is_removed xs t)) ts))
