-- ===== src/Store/Bursts.antt =====
-- Whole output bursts through `markSessionOutput` of frontend/src/stores/appStore.ts.
use loci_terminal.Common.{
  ℕ, ◌+◌, ◌-◌, ◌≡◌, ◌∙◌, subst, refl, sym, String, Bool, true, false, not, ◌&&◌, ◌||◌, List, [],
  ◌∷◌, none, some, leb, arith,
}
use loci_terminal.Dict.{get}
use loci_terminal.Dict.Laws.{get-put}
use loci_terminal.Store.State.{
  AppState, World, BusyTrack, Document, idle_ms, min_busy_ms, session_unread, is_option, is_visible,
  is_hidden, find_timer,
}
use loci_terminal.Store.Activity.{
  mark_session_output, note_output, restart_timer, settle, notify, fire_timer, idle_fired,
}
use loci_terminal.Store.Frame.{mark_session_output-store}
use loci_terminal.Store.Tracking.Output.{get-note_output, burst_start}

-- Chunks of output at the given times.
pub outputs : String → Document → List ℕ → World → World
outputs id doc [] w = w
outputs id doc (t ∷ ts) w = outputs id doc ts (mark_session_output id doc t w)

abbrev pub last : ℕ → List ℕ → ℕ
last t [] = t
last t (u ∷ us) = last u us

abbrev pub track_of : ℕ → ℕ → BusyTrack
track_of start end = record { started_at = start; last_byte_at = end }

abbrev pub is_watched : String → Document → AppState → Bool
is_watched id doc s = is_option s.active_session_id id && is_visible doc

-- A burst from `start` to `end` is on record, and the timeout `h` waits for the end of its window.
pub record IsBursting (id : String) (start end h : ℕ) (w : World) : Type 0 where
  pub burst : get id w.busy_track ≡ some (track_of start end)
  pub pending :
      find_timer h w.timers ≡ some (record { handle = h; due = end + idle_ms; session_id = id })

first_output :
    (id : String) (now : ℕ) (w : World)
    → IsBursting id
        (burst_start id now w.busy_track)
        now
        w.next_timer
        (restart_timer id now (record w { busy_track = note_output id now w.busy_track }))
unfolding restart_timer
first_output id now w = record {
  burst = ground (arith, get-note_output id id now w.busy_track);
  pending = ground arith;
}

-- What a fire makes of the session's mark.
pub settle_unread :
    (id : String) (doc : Document) (t : BusyTrack) (s : AppState)
    → session_unread (settle id doc (some t) s) id ≡ (
        session_unread s id
        || (leb min_busy_ms (t.last_byte_at - t.started_at)
            && (not (is_option s.active_session_id id) || is_hidden doc)))
unfolding settle notify session_unread
settle_unread id doc t s = ground (
  arith,
  get-put id id
      (record { unread = true; last_output_at = t.last_byte_at; notified_at = t.last_byte_at })
      s.session_activity,
)

module _ (id : String) (doc : Document) (s : AppState) (away : is_watched id doc s ≡ false) where
  background_output :
      (start now : ℕ) (w : World)
      → w.store ≡ s
      → burst_start id now w.busy_track ≡ start
      → IsBursting id start now w.next_timer (mark_session_output id doc now w)
  unfolding mark_session_output
  background_output start now w e b = rw (subst (λ x. is_watched id doc x ≡ false) (sym e) away) (
      subst
        (λ k.
          IsBursting id k now w.next_timer
            (restart_timer id now (record w { busy_track = note_output id now w.busy_track })))
        b (first_output id now w))

  outputs-IsBursting :
      (start end h : ℕ) (ts : List ℕ) (w : World)
      → w.store ≡ s
      → IsBursting id start end h w
      → (h' : ℕ) × IsBursting id start (last end ts) h' (outputs id doc ts w)
        × ((outputs id doc ts w).store ≡ s)
  unfolding outputs
  outputs-IsBursting start end h [] w e b = (h, b, e)
  outputs-IsBursting start end h (t ∷ ts) w e b =
      outputs-IsBursting start t w.next_timer ts (mark_session_output id doc t w)
        (mark_session_output-store id doc t w ∙ e)
        (background_output start t w e (let q = b.burst in ground arith))

-- The fire of the timeout that waits for the end of a burst.
fire-IsBursting :
    (id : String) (doc : Document) (start end h : ℕ) (w : World)
    → IsBursting id start end h w
    → session_unread (fire_timer h doc w).store id
      ≡ session_unread (settle id doc (some (track_of start end)) w.store) id
unfolding fire_timer idle_fired
fire-IsBursting id doc start end h w b = rw (b.pending, fire_timer) (rw (b.burst) refl)

-- From silence, a burst of output to a session in the background, at the times `t ∷ ts`, leaves one
-- timeout pending, due `IDLE_MS` after the last chunk. When that fires, the session is unread if it was
-- before, or if the burst lasted at least `MIN_BUSY_MS` and then another session is active or the page
-- is hidden.
pub burst_decides_unread :
    (id : String) (doc doc' : Document) (t : ℕ) (ts : List ℕ) (w : World)
    → get id w.busy_track ≡ none
    → is_watched id doc w.store ≡ false
    → let w' = outputs id doc (t ∷ ts) w in
      (h : ℕ) × (find_timer h w'.timers
        ≡ some (record { handle = h; due = last t ts + idle_ms; session_id = id }))
      × (session_unread (fire_timer h doc' w').store id ≡ (
          session_unread w.store id
          || (leb min_busy_ms (last t ts - t)
              && (not (is_option w.store.active_session_id id) || is_hidden doc'))))
unfolding outputs
burst_decides_unread id doc doc' t ts w quiet away =
    let (h, b, e) =
      outputs-IsBursting id doc w.store away t t w.next_timer ts (mark_session_output id doc t w)
        (mark_session_output-store id doc t w)
        (background_output id doc w.store away t t w refl (ground arith)) in
    (
      h,
      b.pending,
      fire-IsBursting id doc' t (last t ts) h _ b
          ∙ rw e (settle_unread id doc' (track_of t (last t ts)) w.store),
    )
