-- ===== src/Tests/Activity.antt =====
-- Output bursts of frontend/src/stores/appStore.ts at concrete times.
use loci_terminal.Common.{
  String, none, length, ◌≤◌, ℕ, ◌+◌, ◌-◌, ◌≡◌, refl, arith, ◌||◌, ◌&&◌, not, [], ◌∷◌, some, leb,
  Bool-cases, str_dec,
}
use loci_terminal.Dict.{get, put, delete}
use loci_terminal.Store.State.{
  World, hidden, initial_state, initial_world, is_option, is_hidden, find_timer, session_unread,
  min_busy_ms, idle_ms,
}
use loci_terminal.Store.Activity.{
  mark_session_output, note_output, restart_timer, fire_timer, idle_fired, settle, notify,
  toasts_after,
}
use loci_terminal.Store.Steps.{output, fires, Reach, start, next}
use loci_terminal.Store.Toasts.Reach.{IsCalm}
use loci_terminal.Store.Toasts.Reach.{Reach-IsCalm}
use loci_terminal.Store.Unread.{IsFinished, unread-IsFinished}
use loci_terminal.Store.Drain.{Fires, timeouts_run_out}
use loci_terminal.Store.Spec.{attention, follow, events, IsTimely}
use loci_terminal.Store.Spec.Refines.{Reach-refines}
use loci_terminal.Store.Bursts.{outputs, last, burst_decides_unread}

-- The session writes at 0 and at 1000, unseen.
abbrev heard : World
heard = mark_session_output "a" hidden 1000 (mark_session_output "a" hidden 0 initial_world)

heard-Reach : Reach 1000 heard
heard-Reach = next (next start (omega arith) (output "a" hidden)) (omega arith) (output "a" hidden)

Reach-IsCalm_example : IsCalm heard
Reach-IsCalm_example = Reach-IsCalm heard-Reach

heard_timer : find_timer 1 heard.timers ≡ some (record { handle = 1; due = 2500; session_id = "a" })
unfolding initial_world initial_state mark_session_output note_output restart_timer get put str_dec
    Bool-cases
heard_timer = refl

unread-IsFinished_example : IsFinished 2500 hidden heard "a"
unfolding initial_world initial_state mark_session_output note_output restart_timer get put delete
    str_dec Bool-cases fire_timer idle_fired settle notify toasts_after session_unread
unread-IsFinished_example =
    unread-IsFinished "a" heard-Reach (omega arith)
      (fires 1 hidden (record { handle = 1; due = 2500; session_id = "a" }) heard_timer
        (omega arith))
      refl refl

burst_decides_unread_example :
    let w' = outputs "a" hidden (0 ∷ 1000 ∷ []) initial_world in
    (h : ℕ) × (find_timer h w'.timers
      ≡ some (record { handle = h; due = last 0 (1000 ∷ []) + idle_ms; session_id = "a" }))
    × (session_unread (fire_timer h hidden w').store "a" ≡ (
        session_unread initial_world.store "a"
        || (leb min_busy_ms (last 0 (1000 ∷ []) - 0)
            && (not (is_option initial_world.store.active_session_id "a") || is_hidden hidden))))
unfolding initial_world initial_state get
burst_decides_unread_example =
    burst_decides_unread "a" hidden hidden 0 (1000 ∷ []) initial_world refl refl

-- Both chunks of a are heard, and then its timeout has run.
timeouts_run_out_example :
    ((n : ℕ) (w' : World) → Fires 5000 n heard w' → n ≤ length heard.timers)
    × ((n : ℕ) × (w' : World) × Fires 5000 n heard w'
        × (w'.timers ≡ [])
        × ((j : String) → (get j w'.busy_track ≡ none) × (get j w'.idle_timers ≡ none)))
unfolding initial_world initial_state mark_session_output note_output restart_timer get put str_dec
    Bool-cases
timeouts_run_out_example = timeouts_run_out 5000 hidden heard-Reach (omega arith) (omega arith)

Reach-refines_example :
    (attention "a" heard ≡ follow (events "a" heard-Reach)) × IsTimely (events "a" heard-Reach)
Reach-refines_example = Reach-refines "a" heard-Reach
