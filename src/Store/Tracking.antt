-- ===== src/Store/Tracking.antt =====
-- The bookkeeping of output bursts in frontend/src/stores/appStore.ts: how `busyTrack`,
-- `idleTimers` and the browser's timeouts agree.
use loci_terminal.Common.{
  ℕ, ◌+◌, ◌≤◌, ◌<◌, ◌≡◌, refl, sym, ◌≢◌, str_dec, String, Bool, true, false, not, inl, inr, List,
  [], ◌∷◌, Option, none, some, All, All-filter, All-map, eqb, arith, Option-cases,
}
use loci_terminal.Dict.{get, delete}
use loci_terminal.Dict.Laws.{get-delete}
use loci_terminal.Store.State.{Timer, World, BusyTrack, idle_ms, clear_timeout, find_timer}
use loci_terminal.Store.Activity.{cancel_idle_tracking}
pub mod Output
pub mod Fire

-- When the idle window of a session's burst ends.
abbrev pub due_of : String → World → Option ℕ
due_of id w = elim (get id w.busy_track) [ none ↦ none | some t ↦ some (t.last_byte_at + idle_ms) ]

-- A pending timeout is the one on record for its session, and waits for the end of its idle window.
pub record IsOwned (w : World) (x : Timer) : Type 0 where
  pub current : get x.session_id w.idle_timers ≡ some x.handle
  pub fresh : x.handle < w.next_timer
  pub debounced : due_of x.session_id w ≡ some x.due

abbrev pub is_some {ℓ} : {A : Type ℓ} → Option A → Bool
is_some none = false
is_some (some a) = true

-- The timeout on record is pending, for its session.
abbrev pub IsPending : World → String → ℕ → Type 0
IsPending w id h = (x : Timer) × (find_timer h w.timers ≡ some x) × (x.session_id ≡ id)

pub record IsTracked (now : ℕ) (w : World) : Type 0 where
  pub owned : All (IsOwned w) w.timers
  pub pending : (id : String) (h : ℕ) → get id w.idle_timers ≡ some h → IsPending w id h
  pub paired : (id : String) → is_some (get id w.busy_track) ≡ is_some (get id w.idle_timers)
  pub spans :
      (id : String) (t : BusyTrack)
      → get id w.busy_track ≡ some t
      → (t.started_at ≤ t.last_byte_at) × (t.last_byte_at ≤ now)

pub find-clear_timeout :
    (h t : ℕ) (xs : List Timer) → h ≢ t → find_timer h (clear_timeout t xs) ≡ find_timer h xs
find-clear_timeout h t [] ne = refl
find-clear_timeout h t (x ∷ xs) ne = ground (arith, find-clear_timeout h t xs ne)

pub later-IsTracked :
    {now later : ℕ} {w : World} → now ≤ later → IsTracked now w → IsTracked later w
later-IsTracked {now} {later} {w} le v = record {
  owned = v.owned;
  pending = v.pending;
  paired = v.paired;
  spans = λ id t e. let s = v.spans id t e in omega arith;
}

module _ (now : ℕ) (id : String) (w : World) (v : IsTracked now w) where
  -- Two sessions never share a handle.
  pub distinct_handles :
      (j : String) (h t : ℕ)
      → get j w.idle_timers ≡ some h
      → get id w.idle_timers ≡ some t
      → j ≢ id
      → h ≢ t
  distinct_handles j h t p q ne = λ e.
      let (x, found, at) = v.pending j h p in
      let (y, found', at') = v.pending id t q in ne (ground arith)

  pub cancel_none-IsTracked :
      get id w.idle_timers ≡ none → IsTracked now (record w { busy_track = delete id w.busy_track })
  cancel_none-IsTracked e = record {
    owned =
        All-map w.timers (λ x o. ground (arith, get-delete id x.session_id w.busy_track)) v.owned;
    pending = v.pending;
    paired = λ j. ground (arith, get-delete id j w.busy_track, v.paired j);
    spans = λ j t f. v.spans j t (ground (arith, get-delete id j w.busy_track));
  }

  pub cancel_pending :
      (j : String) (h t : ℕ)
      → get id w.idle_timers ≡ some t
      → get j (delete id w.idle_timers) ≡ some h
      → (x : Timer) × (find_timer h (clear_timeout t w.timers) ≡ some x) × (x.session_id ≡ j)
  cancel_pending j h t e f = elim (str_dec id j) [
    | yes p ↦ absurd (ground (arith, get-delete id j w.idle_timers))
    | no p ↦
        let g : get j w.idle_timers ≡ some h = ground (arith, get-delete id j w.idle_timers) in
        let ne : h ≢ t = distinct_handles j h t g e (λ q. p (sym q)) in
        rw (find-clear_timeout h t w.timers ne) (v.pending j h g)
  ]

  pub cancel_some-IsTracked :
      (t : ℕ)
      → get id w.idle_timers ≡ some t
      → IsTracked now (record w {
        timers = clear_timeout t w.timers;
        idle_timers = delete id w.idle_timers;
        busy_track = delete id w.busy_track;
      })
  cancel_some-IsTracked t e = record {
    owned =
        All-filter (λ x. not (eqb x.handle t)) w.timers
          (λ x o k. ground (
            arith,
            get-delete id x.session_id w.busy_track,
            get-delete id x.session_id w.idle_timers,
          ))
          v.owned;
    pending = λ j h f. cancel_pending j h t e f;
    paired = λ j.
        ground (arith, get-delete id j w.busy_track, get-delete id j w.idle_timers, v.paired j);
    spans = λ j u f. v.spans j u (ground (arith, get-delete id j w.busy_track));
  }

-- Cancelling keeps the books.
pub cancel_idle_tracking-IsTracked :
    (now : ℕ) (id : String) (w : World)
    → IsTracked now w
    → IsTracked now (cancel_idle_tracking id w)
unfolding cancel_idle_tracking
cancel_idle_tracking-IsTracked now id w v = elim (Option-cases (get id w.idle_timers)) [
  | inl e ↦ rw (e, cancel_idle_tracking) (cancel_none-IsTracked now id w v e)
  | inr (t, e) ↦ rw (e, cancel_idle_tracking) (cancel_some-IsTracked now id w v t e)
]
