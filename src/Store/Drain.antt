-- ===== src/Store/Drain.antt =====
-- The page after the last output: the timeouts of frontend/src/stores/appStore.ts that are pending fire,
-- and leave nothing behind.
use loci_terminal.Common.{
  ℕ, zero, suc, ◌≤◌, ◌<◌, ◌≡◌, refl, String, Bool, not, List, [], ◌∷◌, none, some, max, length,
  length-filter-le, filter, eqb, arith, Bool-cases, Option-cases, inl, inr,
}
use loci_terminal.Dict.{get}
use loci_terminal.Store.State.{World, Timer, Document, find_timer, clear_timeout}
use loci_terminal.Store.Activity.{fire_timer, idle_fired}
use loci_terminal.Store.Tracking.{IsTracked}
use loci_terminal.Store.Steps.{Reach, next, fires}
use loci_terminal.Store.Steps.Books.{Reach-IsTracked}

-- The time by which each of the timeouts is due.
abbrev pub latest : ℕ → List Timer → ℕ
latest now [] = now
latest now (x ∷ xs) = max x.due (latest now xs)

latest-le : (now : ℕ) (xs : List Timer) → now ≤ latest now xs
latest-le now [] = omega arith
latest-le now (x ∷ xs) = omega (arith, latest-le now xs)

latest-filter :
    (p : Timer → Bool) (now : ℕ) (xs : List Timer) → latest now (filter p xs) ≤ latest now xs
latest-filter p now [] = omega arith
latest-filter p now (x ∷ xs) = ground (arith, latest-filter p now xs)

-- A fire takes its timeout, and no other new one is set.
fire_timer-timers :
    (x : Timer) (xs : List Timer) (doc : Document) (w : World)
    → w.timers ≡ x ∷ xs
    → (fire_timer x.handle doc w).timers ≡ filter (λ y. not (eqb y.handle x.handle)) xs
unfolding fire_timer idle_fired
fire_timer-timers x xs doc w e = ground arith

-- Nothing is pending: there is no burst either.
idle_if_no_timer :
    (now : ℕ) (w : World) (j : String)
    → IsTracked now w
    → w.timers ≡ []
    → (get j w.busy_track ≡ none) × (get j w.idle_timers ≡ none)
idle_if_no_timer now w j v e = elim (Option-cases (get j w.idle_timers)) [
  | inl q ↦ let p = v.paired j in (ground arith, q)
  | inr (h, q) ↦ let (x, found, at) = v.pending j h q in absurd (ground arith)
]

-- So many timeouts fire, one after the other and each when it is due, and nothing else happens.
pub data Fires (now : ℕ) : ℕ → World → World → Type 0 where
  done : {w : World} → Fires now 0 w w
  fired :
      {n : ℕ} {w w' : World} (h : ℕ) (doc : Document) (x : Timer)
      → find_timer h w.timers ≡ some x
      → x.due ≤ now
      → Fires now n (fire_timer h doc w) w'
      → Fires now (suc n) w w'

length-clear_timeout :
    (h : ℕ) (xs : List Timer) {x : Timer}
    → find_timer h xs ≡ some x
    → length (clear_timeout h xs) < length xs
length-clear_timeout h [] e = absurd (cc)
length-clear_timeout h (y ∷ ys) {x} e = elim (Bool-cases (eqb y.handle h)) [
  | inl q ↦ ground (arith, length-filter-le (λ x. not (eqb x.handle h)) ys)
  | inr q ↦
      let found : find_timer h ys ≡ some x = ground arith in
      let shorter = length-clear_timeout h ys found in ground arith
]

length-fire_timer :
    (h : ℕ) (doc : Document) (w : World) {x : Timer}
    → find_timer h w.timers ≡ some x
    → length (fire_timer h doc w).timers < length w.timers
unfolding fire_timer idle_fired
length-fire_timer h doc w e = rw (e, fire_timer) (length-clear_timeout h w.timers e)

Fires-le : {now n : ℕ} {w w' : World} → Fires now n w w' → n ≤ length w.timers
Fires-le done = omega arith
Fires-le {w} (fired h doc x e le rest) = omega (arith, Fires-le rest, length-fire_timer h doc w e)

find_first : (x : Timer) (xs : List Timer) → find_timer x.handle (x ∷ xs) ≡ some x
find_first x xs = ground arith

-- Firing the first of the pending timeouts, as often as there are some; `fuel` is how many there are.
drain :
    (later : ℕ) (doc : Document) (fuel : ℕ) (w : World) (xs : List Timer)
    → w.timers ≡ xs
    → length xs ≤ fuel
    → latest later xs ≤ later
    → (n : ℕ) × (w' : World) × Fires later n w w' × (w'.timers ≡ [])
drain later doc fuel w [] e short le = (0, w, done, e)
drain later doc zero w (x ∷ xs) e short le = absurd (omega arith)
drain later doc (suc fuel) w (x ∷ xs) e short le =
    let rest = filter (λ y. not (eqb y.handle x.handle)) xs in
    let (n, w', run, empty) =
      drain later doc fuel (fire_timer x.handle doc w) rest (fire_timer-timers x xs doc w e)
        (omega (arith, length-filter-le (λ y. not (eqb y.handle x.handle)) xs))
        (omega (arith, latest-filter (λ y. not (eqb y.handle x.handle)) later xs)) in
    (
      suc n,
      w',
      fired x.handle doc x (rw e (find_first x xs)) (omega (arith, latest-le later xs)) run,
      empty,
    )

Fires-Reach :
    {later now n : ℕ} {w w' : World}
    → Reach now w
    → now ≤ later
    → Fires later n w w'
    → (t : ℕ) × Reach t w'
Fires-Reach {now} r le done = (now, r)
Fires-Reach {later = later} {now = now} r le (fired h doc x e due rest) =
    Fires-Reach {now = later} (next r le (fires h doc x e due)) (omega arith) rest

-- After any history, once every pending timeout is due: however they fire, no more of them fire than are
-- pending; and they can fire until none is left, and then no session has a burst or a timeout on record.
pub timeouts_run_out :
    {now : ℕ} {w : World} (later : ℕ) (doc : Document)
    → Reach now w
    → now ≤ later
    → latest later w.timers ≤ later
    → ((n : ℕ) (w' : World) → Fires later n w w' → n ≤ length w.timers)
      × ((n : ℕ) × (w' : World) × Fires later n w w'
          × (w'.timers ≡ [])
          × ((j : String) → (get j w'.busy_track ≡ none) × (get j w'.idle_timers ≡ none)))
timeouts_run_out {w = w} later doc r le due =
    let (n, w', run, empty) = drain later doc (length w.timers) w w.timers refl (omega arith) due in
    let (t, r') = Fires-Reach r le run in
    (
      (λ m v f. Fires-le f),
      (n, w', run, empty, (λ j. idle_if_no_timer t w' j (Reach-IsTracked r') empty)),
    )
