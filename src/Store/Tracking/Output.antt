-- ===== src/Store/Tracking/Output.antt =====
-- `markSessionOutput` of frontend/src/stores/appStore.ts keeps the books of bursts and timeouts.
use loci_terminal.Common.{
  ℕ, ◌+◌, ◌≤◌, ◌<◌, ◌≡◌, refl, sym, ◌≢◌, str_dec, String, not, inl, inr, none, some, ite, All,
  All-filter, All-map, All-find, ◌∙◌, eqb, arith, Option-cases, Bool-cases, true, ◌&&◌, Option, ◌∷◌,
}
use loci_terminal.Dict.{Dict, get}
use loci_terminal.Dict.Laws.{get-put}
use loci_terminal.Store.State.{
  Timer, World, BusyTrack, Document, idle_ms, find_timer, is_option, is_visible,
}
use loci_terminal.Store.Activity.{mark_session_output, note_output, restart_timer, clear_existing}
use loci_terminal.Store.Tracking.{
  IsTracked, IsOwned, IsPending, find-clear_timeout, distinct_handles,
  cancel_idle_tracking-IsTracked,
}

-- When the current burst of a session began.
abbrev pub burst_start : String → ℕ → Dict BusyTrack → ℕ
burst_start id now busy = elim (get id busy) [ none ↦ now | some t ↦ t.started_at ]

pub get-note_output :
    (id j : String) (now : ℕ) (busy : Dict BusyTrack)
    → get j (note_output id now busy)
      ≡ ite
          (str_dec id j)
          (some (record { started_at = burst_start id now busy; last_byte_at = now }))
          (get j busy)
unfolding note_output
get-note_output id j now busy = ground (
  arith,
  get-put id j (record { started_at = now; last_byte_at = now }) busy,
  get-put id j (record { started_at = burst_start id now busy; last_byte_at = now }) busy,
)

module _ (now : ℕ) (id : String) (w : World) (v : IsTracked now w) where
  abbrev after : World
  after = restart_timer id now (record w { busy_track = note_output id now w.busy_track })

  abbrev newest : Timer
  newest = record { handle = w.next_timer; due = now + idle_ms; session_id = id }

  newest-IsOwned : IsOwned after newest
  unfolding restart_timer
  newest-IsOwned = record {
    current = ground (arith, get-put id id w.next_timer w.idle_timers);
    fresh = omega arith;
    debounced = ground (arith, get-note_output id id now w.busy_track);
  }

  -- A timeout of another session is not touched.
  older-IsOwned : (x : Timer) → IsOwned w x → x.session_id ≢ id → IsOwned after x
  unfolding restart_timer
  older-IsOwned x o ne = record {
    current = ground (arith, get-put id x.session_id w.next_timer w.idle_timers, o.current);
    fresh = let f = o.fresh in omega arith;
    debounced = ground (arith, get-note_output id x.session_id now w.busy_track, o.debounced);
  }

  cleared-IsOwned :
      (o : Option ℕ) → get id w.idle_timers ≡ o → All (IsOwned after) (clear_existing o w.timers)
  cleared-IsOwned none e =
      All-map w.timers (λ x o. older-IsOwned x o (ground (arith, o.current))) v.owned
  cleared-IsOwned (some t) e =
      All-filter (λ x. not (eqb x.handle t)) w.timers
        (λ x o k. older-IsOwned x o (ground (arith, o.current))) v.owned

  find-newest :
      (h : ℕ)
      → h ≢ w.next_timer
      → (o : Option ℕ) → ((t : ℕ) → o ≡ some t → h ≢ t)
      → find_timer h (newest ∷ clear_existing o w.timers) ≡ find_timer h w.timers
  find-newest h ne none f = ground arith
  find-newest h ne (some t) f = ground (arith, find-clear_timeout h t w.timers (f t refl))

  restart_timer-IsPending :
      (j : String) (h : ℕ) → get j after.idle_timers ≡ some h → IsPending after j h
  unfolding restart_timer
  restart_timer-IsPending j h e = elim (str_dec id j) [
    | yes p ↦ (newest, ground (arith, get-put id j w.next_timer w.idle_timers), p)
    | no p ↦
        let g : get j w.idle_timers ≡ some h =
          ground (arith, get-put id j w.next_timer w.idle_timers) in
        let (x, found, at) = v.pending j h g in
        let old : x.handle < w.next_timer =
          (All-find (IsOwned w) (λ y. eqb y.handle h) w.timers found v.owned).0.fresh in
        let hit : eqb x.handle h ≡ true =
          (All-find (IsOwned w) (λ y. eqb y.handle h) w.timers found v.owned).1 in
        let ne : h ≢ w.next_timer = ground arith in
        (
          x,
          find-newest h ne (get id w.idle_timers)
                (λ t q. distinct_handles now id w v j h t g q (λ r. p (sym r)))
              ∙ found,
          at,
        )
  ]

  burst_start-le : burst_start id now w.busy_track ≤ now
  burst_start-le = elim (Option-cases (get id w.busy_track)) [
    | inl e ↦ ground arith
    | inr (t, e) ↦ let (s, l) = v.spans id t e in ground arith
  ]

  pub restart_timer-IsTracked : IsTracked now after
  unfolding restart_timer
  restart_timer-IsTracked = record {
    owned = (newest-IsOwned, cleared-IsOwned (get id w.idle_timers) refl);
    pending = restart_timer-IsPending;
    paired = λ j. ground (
      arith,
      get-note_output id j now w.busy_track,
      get-put id j w.next_timer w.idle_timers,
      v.paired j,
    );
    spans =
        λ j t e. ground (arith, get-note_output id j now w.busy_track, v.spans j t, burst_start-le);
  }

-- A chunk of output, whether it is seen or not, keeps the books.
pub mark_session_output-IsTracked :
    (now : ℕ) (id : String) (doc : Document) (w : World)
    → IsTracked now w
    → IsTracked now (mark_session_output id doc now w)
unfolding mark_session_output
mark_session_output-IsTracked now id doc w v =
    elim (Bool-cases (is_option w.store.active_session_id id && is_visible doc)) [
      | inl e ↦ rw e (cancel_idle_tracking-IsTracked now id w v)
      | inr e ↦ rw e (restart_timer-IsTracked now id w v)
    ]
