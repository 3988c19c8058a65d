-- ===== src/View/Toasts/Timeouts.antt =====
-- The timeouts by which toasts go away of themselves, in frontend/src/components/Toast/ToastContainer.tsx. The
-- effect of a `ToastItem` depends on a function that each rendering of the container makes anew, so that a
-- rendering clears the timeouts of all toasts and starts them again.
use loci_terminal.Common.{
  All, All-find, ℕ, zero, suc, ◌+◌, ◌*◌, ◌≤◌, ◌<◌, ◌≡◌, refl, ap, ◌∙◌, sym, subst, String, Bool,
  not, List, [], ◌∷◌, map, some, find, any, true, filter, is, length, arith,
}
use loci_terminal.Store.State.{AppState, Toast}
use loci_terminal.Store.Activity.{dismiss_toast}

-- `TOAST_DURATION_MS`
abbrev pub toast_duration : ℕ
toast_duration = 6000

-- A timeout that the browser has still to fire, for a toast.
pub record Alarm : Type 0 where
  pub toast_id : String
  pub due : ℕ

-- The store and the timeouts of the toasts that are drawn.
pub record Board : Type 0 where
  pub store : AppState
  pub alarms : List Alarm

abbrev pub alarms_of : ℕ → List Toast → List Alarm
alarms_of now = map λ (t : Toast). record { toast_id = t.id; due = now + toast_duration }

-- The container is drawn at the time `now`, and the effects of its items run.
unfoldable pub render : ℕ → AppState → Board
render now s = record { store = s; alarms = alarms_of now s.toasts }

-- The timeout of a toast fires: `onDismiss`, after which the container is drawn with what is left.
unfoldable pub alarm_fired : ℕ → String → Board → Board
alarm_fired now id b = render now (dismiss_toast id b.store)

-- Timeouts fire one after the other, none before it is due nor after `later`, and nothing else happens.
pub data Waits (later : ℕ) : ℕ → Board → Board → Type 0 where
  done : {b : Board} → Waits later 0 b b
  fires :
      {n : ℕ} {b b' : Board} (now : ℕ) (a : Alarm)
      → find (λ (x : Alarm). is x.toast_id a.toast_id) b.alarms ≡ some a
      → a.due ≤ now
      → now ≤ later
      → Waits later n (alarm_fired now a.toast_id b) b'
      → Waits later (suc n) b b'

length-filter : (p : Toast → Bool) (ts : List Toast) → length (filter p ts) ≤ length ts
length-filter p [] = omega arith
length-filter p (t ∷ ts) = ground (arith, length-filter p ts)

dismiss_first :
    (s : AppState) (t : Toast) (ts : List Toast) (k : ℕ)
    → s.toasts ≡ t ∷ ts
    → length s.toasts ≤ suc k
    → length (dismiss_toast t.id s).toasts ≤ k
unfolding dismiss_toast
dismiss_first s t ts k e le =
    let few = length-filter (λ (y : Toast). not (is y.id t.id)) ts in ground arith

find_first :
    (now : ℕ) (s : AppState) (t : Toast) (ts : List Toast)
    → s.toasts ≡ t ∷ ts
    → find (λ (x : Alarm). is x.toast_id t.id) (render now s).alarms
      ≡ some (record { toast_id = t.id; due = now + toast_duration })
unfolding render
find_first now s t ts e = rw e (ground arith)

run_out :
    (k now later : ℕ) (s : AppState) (ts : List Toast)
    → s.toasts ≡ ts
    → length ts ≤ k
    → now + toast_duration * k ≤ later
    → (n : ℕ) × (b : Board) × Waits later n (render now s) b
      × (b.store.toasts ≡ [])
      × (b.alarms ≡ [])
      × (n ≤ k)
unfolding render alarm_fired
run_out k now later s [] e le t = (0, render now s, done, e, ap (alarms_of now) e, omega arith)
run_out zero now later s (x ∷ xs) e le t = absurd (omega arith)
run_out (suc k) now later s (x ∷ xs) e le t =
    let at = now + toast_duration in
    let s' = dismiss_toast x.id s in
    let (n, b, run, empty, quiet, few) =
      run_out k at later s' s'.toasts refl
        (dismiss_first s x xs k e (subst (λ l. length l ≤ suc k) (sym e) le)) (omega arith) in
    (
      suc n,
      b,
      fires at (record { toast_id = x.id; due = at }) (find_first now s x xs e) (omega arith)
          (omega arith) run,
      empty,
      quiet,
      omega arith,
    )

-- A toast for which a timeout is pending is on the board, so that the timeout takes it away.
dismiss_found :
    (now : ℕ) (id : String) (ts : List Toast) {a : Alarm}
    → find (λ (x : Alarm). is x.toast_id id) (alarms_of now ts) ≡ some a
    → length (filter (λ (t : Toast). not (is t.id id)) ts) < length ts
dismiss_found now id [] e = absurd (cc)
dismiss_found now id (t ∷ ts) {a} e =
    let few = length-filter (λ (y : Toast). not (is y.id id)) ts in
    ground (arith, dismiss_found now id ts {a = a})

alarm_of_some :
    (now : ℕ) (id : String) (ts : List Toast) {a : Alarm}
    → find (λ (x : Alarm). is x.toast_id id) (alarms_of now ts) ≡ some a
    → any (λ (t : Toast). is t.id id) ts ≡ true
alarm_of_some now id [] e = absurd (cc)
alarm_of_some now id (t ∷ ts) {a} e = ground (arith, alarm_of_some now id ts {a = a})

dismiss_less :
    (now : ℕ) (id : String) (s : AppState) {a : Alarm}
    → find (λ (x : Alarm). is x.toast_id id) (alarms_of now s.toasts) ≡ some a
    → length (dismiss_toast id s).toasts < length s.toasts
unfolding dismiss_toast
dismiss_less now id s e = rw (alarm_of_some now id s.toasts e) (dismiss_found now id s.toasts e)

-- What is pending once n timeouts have fired since the time `now`, the last of them no later than `later`: n
-- toasts at least are gone, each toast that is left has its timeout, due within the duration, and so long have the
-- others taken.
pub record IsWaiting (now later n : ℕ) (s : AppState) (b : Board) : Type 0 where
  pub gone : length b.store.toasts + n ≤ length s.toasts
  pub armed : map (λ (a : Alarm). a.toast_id) b.alarms ≡ map (λ (t : Toast). t.id) b.store.toasts
  pub soon : All (λ (a : Alarm). a.due ≤ later + toast_duration) b.alarms
  pub long : now + toast_duration * n ≤ later

alarms-armed :
    (now : ℕ) (ts : List Toast)
    → map (λ (a : Alarm). a.toast_id) (alarms_of now ts) ≡ map (λ (t : Toast). t.id) ts
alarms-armed now [] = refl
alarms-armed now (t ∷ ts) = ap (λ ids. t.id ∷ ids) (alarms-armed now ts)

alarms-soon :
    (now later : ℕ) (ts : List Toast)
    → now ≤ later
    → All (λ (a : Alarm). a.due ≤ later + toast_duration) (alarms_of now ts)
alarms-soon now later [] le = tt
alarms-soon now later (t ∷ ts) le = (omega arith, alarms-soon now later ts le)

alarms-All :
    (now : ℕ) (ts : List Toast)
    → All (λ (a : Alarm). a.due ≡ now + toast_duration) (alarms_of now ts)
alarms-All now [] = tt
alarms-All now (t ∷ ts) = (refl, alarms-All now ts)

Waits-IsWaiting :
    {later n : ℕ} {b b' : Board} (now : ℕ) (s : AppState)
    → render now s ≡ b
    → now ≤ later
    → Waits later n b b'
    → IsWaiting now later n s b'
unfolding alarm_fired render
Waits-IsWaiting {later} now s e le done = subst (IsWaiting now later 0 s) e (record {
  gone = omega arith;
  armed = alarms-armed now s.toasts;
  soon = alarms-soon now later s.toasts le;
  long = omega arith;
})
Waits-IsWaiting {later} {n} now s e le (fires {b} at a found due late run) =
    let found' : find (λ (x : Alarm). is x.toast_id a.toast_id) (alarms_of now s.toasts) ≡ some a =
      ap (λ (b : Board). find (λ (x : Alarm). is x.toast_id a.toast_id) b.alarms) e ∙ found in
    let (armed, q) =
      All-find (λ (x : Alarm). x.due ≡ now + toast_duration)
        (λ (x : Alarm). is x.toast_id a.toast_id) (alarms_of now s.toasts) found'
        (alarms-All now s.toasts) in
    let less = dismiss_less now a.toast_id s found' in
    let rest =
      Waits-IsWaiting at (dismiss_toast a.toast_id s)
        (ap (λ (b : Board). alarm_fired at a.toast_id b) e) late run in
    record {
      gone = let g = rest.gone in omega arith;
      armed = rest.armed;
      soon = rest.soon;
      long = let l = rest.long in omega arith;
    }

-- Where nothing but their timeouts happens to the toasts, they can go away within `TOAST_DURATION_MS` for each,
-- after at most as many timeouts as there are toasts, until none is left and no timeout is pending. And whichever
-- timeouts fire, in whatever order: each takes a toast away, each toast that is left has a timeout pending,
-- due within `TOAST_DURATION_MS` of the latest, and any n timeouts take n times `TOAST_DURATION_MS`, since they go
-- one by one.
pub toasts_run_out :
    (now : ℕ) (s : AppState)
    → ((n : ℕ) × (b : Board) × Waits (now + toast_duration * length s.toasts) n (render now s) b
        × (b.store.toasts ≡ [])
        × (b.alarms ≡ [])
        × (n ≤ length s.toasts))
      × ((later n : ℕ) (b : Board)
          → now ≤ later
          → Waits later n (render now s) b
          → IsWaiting now later n s b)
unfolding render
toasts_run_out now s = (
  run_out (length s.toasts) now (now + toast_duration * length s.toasts) s s.toasts refl
      (omega arith) (omega arith),
  (λ later n b le run. Waits-IsWaiting now s refl le run),
)
