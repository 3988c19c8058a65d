-- ===== src/Store/Tracking/Fire.antt =====
-- The timeout of `markSessionOutput` in frontend/src/stores/appStore.ts keeps the books of bursts
-- and timeouts.
use loci_terminal.Common.{ℕ, ◌≡◌, All-find, All-map, eqb, arith, Option-cases, inl, inr, some}
use loci_terminal.Dict.{get}
use loci_terminal.Store.State.{AppState, World, Document, find_timer}
use loci_terminal.Store.Activity.{idle_fired, fire_timer}
use loci_terminal.Store.Tracking.{IsTracked, IsOwned, cancel_some-IsTracked}

-- The books say nothing of the store.
pub store-IsTracked :
    {now : ℕ} (w : World) (s : AppState) → IsTracked now w → IsTracked now (record w { store = s })
store-IsTracked w s v = record {
  owned =
      All-map w.timers
        (λ x o. record { current = o.current; fresh = o.fresh; debounced = o.debounced }) v.owned;
  pending = v.pending;
  paired = v.paired;
  spans = v.spans;
}

-- A timeout fires only as the one on record; after it neither a burst nor a timeout of its session
-- is left, and the other sessions' books are as they were.
pub fire_timer-IsTracked :
    (now h : ℕ) (doc : Document) (w : World) → IsTracked now w → IsTracked now (fire_timer h doc w)
unfolding fire_timer idle_fired
fire_timer-IsTracked now h doc w v = elim (Option-cases (find_timer h w.timers)) [
  | inl e ↦ rw (e, fire_timer) v
  | inr (x, e) ↦
      let (o, hit) = All-find (IsOwned w) (λ y. eqb y.handle h) w.timers e v.owned in
      let at : get x.session_id w.idle_timers ≡ some h = ground (arith, o.current) in
      rw (e, fire_timer) (store-IsTracked _ _ (cancel_some-IsTracked now x.session_id w v h at))
]
