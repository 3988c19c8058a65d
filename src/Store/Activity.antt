-- ===== src/Store/Activity.antt =====
-- Unread marks and toasts of frontend/src/stores/appStore.ts: `cancelIdleTracking`,
-- `markSessionOutput` with the callback of its timeout, `setActiveSession`, `clearSessionUnread`
-- and `dismissToast`. Times are milliseconds, passed in where the source calls `Date.now()`.
use Prim.Native.String.{◌++◌ as ◌<>◌}
use loci_terminal.Common.{
  ℕ, zero, suc, ◌+◌, ◌-◌, ◌/◌, ◌%◌, String, Bool, true, false, ◌&&◌, ◌||◌, not, List, [], ◌∷◌, ◌++◌,
  Option, none, some, any, filter, find, slice_last, is, eqb, ltb, if◌then◌else◌, truthy,
}
use loci_terminal.Dict.{Dict, get, put, delete}
use loci_terminal.Store.State.{
  Session, SessionActivity, Toast, BusyTrack, AppState, World, Timer, Document, max_toasts, idle_ms,
  min_busy_ms, is_visible, is_hidden, clear_timeout, find_timer, is_option, is_unread,
}

unfoldable pub cancel_idle_tracking : String → World → World
cancel_idle_tracking session_id w = elim (get session_id w.idle_timers) [
  | none ↦ record w { busy_track = delete session_id w.busy_track }
  | some t ↦ record w {
    timers = clear_timeout t w.timers;
    idle_timers = delete session_id w.idle_timers;
    busy_track = delete session_id w.busy_track;
  }
]

-- The activity map after the session was looked at: `unread` falls if it was set.
unfoldable pub mark_read : String → Dict SessionActivity → Dict SessionActivity
mark_read id activity = elim (get id activity) [
  | none ↦ activity
  | some prev ↦ if prev.unread then put id (record prev { unread = false }) activity else activity
]

unfoldable pub drop_toasts : String → List Toast → List Toast
drop_toasts id toasts =
    if any (λ t. is t.session_id id) toasts
    then filter (λ t. not (is t.session_id id)) toasts
    else toasts

-- The callback of `set` in `setActiveSession`.
unfoldable pub select_session : String → AppState → AppState
unfolding mark_read drop_toasts
select_session id s = record s {
  active_session_id = some id;
  active_session_by_workspace = elim (truthy s.active_workspace_id) [
    | none ↦ s.active_session_by_workspace
    | some wid ↦ put wid id s.active_session_by_workspace
  ];
  session_activity = mark_read id s.session_activity;
  toasts = drop_toasts id s.toasts;
}

unfoldable pub set_active_session : String → World → World
unfolding select_session
set_active_session id w = record (cancel_idle_tracking id w) { store = select_session id w.store }

-- The callback of `set` in `clearSessionUnread`.
unfoldable pub clear_unread : String → AppState → AppState
clear_unread id s =
    let seen = not (is_unread (get id s.session_activity)) in
    let has_toast = any (λ t. is t.session_id id) s.toasts in
    if seen && not has_toast then s else record s {
      session_activity = mark_read id s.session_activity;
      toasts = drop_toasts id s.toasts;
    }

unfoldable pub clear_session_unread : String → World → World
unfolding clear_unread
clear_session_unread id w = record (cancel_idle_tracking id w) { store = clear_unread id w.store }

unfoldable pub dismiss_toast : String → AppState → AppState
dismiss_toast id s =
    if not (any (λ t. is t.id id) s.toasts)
    then s
    else record s { toasts = filter (λ t. not (is t.id id)) s.toasts }

-- `busyTrack` after a chunk of output.
unfoldable pub note_output : String → ℕ → Dict BusyTrack → Dict BusyTrack
note_output id now busy = elim (get id busy) [
  | none ↦ put id (record { started_at = now; last_byte_at = now }) busy
  | some track ↦ put id (record track { last_byte_at = now }) busy
]

-- `if (existing !== undefined) clearTimeout(existing)`
abbrev pub clear_existing : Option ℕ → List Timer → List Timer
clear_existing none timers = timers
clear_existing (some t) timers = clear_timeout t timers

-- The browser's timeouts after `clearTimeout(existing)` and the new `setTimeout`.
unfoldable pub restart_timer : String → ℕ → World → World
restart_timer id now w = record w {
  timers =
      record { handle = w.next_timer; due = now + idle_ms; session_id = id }
      ∷ clear_existing (get id w.idle_timers) w.timers;
  idle_timers = put id w.next_timer w.idle_timers;
  next_timer = suc w.next_timer;
}

unfoldable pub mark_session_output : String → Document → ℕ → World → World
unfolding note_output restart_timer
mark_session_output id doc now w =
    if is_option w.store.active_session_id id && is_visible doc
    then cancel_idle_tracking id w
    else restart_timer id now (record w { busy_track = note_output id now w.busy_track })

-- The last digit of a number, and a number, in decimal.
digit : ℕ → String
digit n =
    if eqb n 0
    then "0"
    else if eqb n 1
    then "1"
    else if eqb n 2
    then "2"
    else if eqb n 3
    then "3"
    else if eqb n 4
    then "4"
    else if eqb n 5
    then "5"
    else if eqb n 6
    then "6"
    else if eqb n 7
    then "7"
    else if eqb n 8
    then "8"
    else "9"

decimal_from : ℕ → ℕ → String
decimal_from zero n = ""
decimal_from (suc fuel) n = elim (ltb n 10) [
  | true ↦ digit n
  | false ↦ decimal_from fuel (n / 10) <> digit (n % 10)
]

-- A number in a template literal; a number has no more than n + 1 digits.
unfoldable pub decimal : ℕ → String
unfolding decimal_from digit
decimal n = decimal_from (suc n) n

-- The loop over `Object.entries(s.sessions)`: the session's title and its workspace.
unfoldable pub locate : String → Dict (List Session) → Option (String × Session)
locate id [] = none
locate id ((wid, list) ∷ rest) = elim (find (λ (x : Session). is x.id id) list) [
  | some found ↦ some (wid, found)
  | none ↦ locate id rest
]

unfoldable pub make_toast : String → BusyTrack → String → Session → Toast
make_toast id t wid found = record {
  id = id <> "-" <> decimal t.last_byte_at;
  session_id = id;
  workspace_id = wid;
  session_title = found.title;
  created_at = t.last_byte_at;
}

-- Replace the session's toast, and keep the last `MAX_TOASTS`.
unfoldable pub push_toast : Toast → List Toast → List Toast
push_toast toast toasts =
    slice_last max_toasts
      (filter (λ x. not (is x.session_id toast.session_id)) toasts ++ toast ∷ [])

-- The toasts after a fire; a session that is in no list, or in a workspace with an empty id, gets none.
unfoldable pub toasts_after :
    String → BusyTrack → Option (String × Session) → List Toast → List Toast
unfolding push_toast
toasts_after id t none toasts = toasts
toasts_after id t (some (wid, found)) toasts =
    if is wid "" then toasts else push_toast (make_toast id t wid found) toasts

-- The callback of `set` in the timeout of `markSessionOutput`.
unfoldable pub notify : String → BusyTrack → AppState → AppState
unfolding toasts_after
notify id t s = if is_unread (get id s.session_activity) then s else record s {
  session_activity =
      put id
        (record { unread = true; last_output_at = t.last_byte_at; notified_at = t.last_byte_at })
        s.session_activity;
  toasts = toasts_after id t (locate id s.sessions) s.toasts;
}

-- The burst was long enough, and the session is still in the background.
abbrev pub is_due : String → Document → AppState → BusyTrack → Bool
is_due id doc s t =
    not (ltb (t.last_byte_at - t.started_at) min_busy_ms)
    && (not (is_option s.active_session_id id) || is_hidden doc)

-- What the callback of the timeout makes of the store, with the burst on record.
unfoldable pub settle : String → Document → Option BusyTrack → AppState → AppState
settle id doc none s = s
settle id doc (some t) s = if is_due id doc s t then notify id t s else s

-- The callback of the timeout: each early return leaves the store alone, and the maps are cleared
-- before the first of them.
unfoldable pub idle_fired : String → Document → World → World
idle_fired id doc w = record w {
  store = settle id doc (get id w.busy_track) w.store;
  idle_timers = delete id w.idle_timers;
  busy_track = delete id w.busy_track;
}

-- The browser fires a pending timeout, which is then no longer pending.
unfoldable pub fire_timer : ℕ → Document → World → World
fire_timer handle doc w = elim (find_timer handle w.timers) [
  | none ↦ w
  | some x ↦ idle_fired x.session_id doc (record w { timers = clear_timeout handle w.timers })
]
