-- ===== src/Store/Spec.antt =====
-- What frontend/src/stores/appStore.ts promises of one session's attention mark, without its Maps,
-- timeouts and toasts: a machine that hears chunks of output and the user's looks.
use loci_terminal.Common.{
  ℕ, ◌-◌, ◌+◌, ◌≤◌, ◌≡◌, ◌&&◌, ◌||◌, String, Bool, true, false, not, List, [], ◌∷◌, Option, none,
  some, any, is, leb, if◌then◌else◌, truthy,
}
use loci_terminal.Dict.{get}
use loci_terminal.Store.State.{
  AppState, Session, World, BusyTrack, Document, min_busy_ms, idle_ms, is_option, is_visible,
  is_hidden, session_unread,
}
use loci_terminal.Store.Api.{Api}
use loci_terminal.Store.Sessions.{sessions_of}
use loci_terminal.Store.Workspaces.{next_active, listed_sessions}
use loci_terminal.Store.Steps.{
  Call, deletes_workspace, shows_workspace, deletes_session, Step, output, fires, selects, looks,
  dismisses, answers, Reach, start, next,
}
pub mod Lookups
pub mod Moves
pub mod Refines

-- The burst of output that goes on, and the mark.
pub record Attention : Type 0 where
  pub burst : Option BusyTrack
  pub unread : Bool

pub data Event : Type 0 where
  nothing : Event
  -- output that the user does not see, at a time
  chunk : ℕ → Event
  -- the burst stops to count: its output is seen, or the session is gone
  hushed : Event
  -- the silence after a burst is over, at a time; the flag says that the user is away
  window_ends : ℕ → Bool → Event
  -- the user looks at the session, or deletes it
  seen : Event

abbrev pub prolonged : ℕ → Option BusyTrack → BusyTrack
prolonged now none = record { started_at = now; last_byte_at = now }
prolonged now (some t) = record { started_at = t.started_at; last_byte_at = now }

abbrev pub is_long : Option BusyTrack → Bool
is_long none = false
is_long (some t) = leb min_busy_ms (t.last_byte_at - t.started_at)

unfoldable pub respond : Event → Attention → Attention
respond nothing a = a
respond (chunk now) a = record a { burst = some (prolonged now a.burst) }
respond hushed a = record a { burst = none }
respond (window_ends now away) a = record {
  burst = none;
  unread = a.unread || (is_long a.burst && away);
}
respond seen a = record { burst = none; unread = false }

-- The latest event comes first.
unfoldable pub follow : List Event → Attention
follow [] = record { burst = none; unread = false }
follow (e ∷ es) = respond e (follow es)

-- A window ends only when its burst has been silent for `IDLE_MS`.
abbrev pub IsDue : Event → Attention → Type 0
IsDue (window_ends now away) a = (t : BusyTrack) → a.burst ≡ some t → t.last_byte_at + idle_ms ≤ now
IsDue _ a = Unit

abbrev pub IsTimely : List Event → Type 0
IsTimely [] = Unit
IsTimely (e ∷ es) = IsDue e (follow es) × IsTimely es

-- What the detailed store says of a session.
unfoldable pub attention : String → World → Attention
attention j w = record { burst = get j w.busy_track; unread = session_unread w.store j }

-- The detailed steps, as the session `j` meets them.
abbrev pub met : Bool → Event → Event
met true e = e
met false e = nothing

unfoldable pub answer_event : String → Api → Call → AppState → World → Event
answer_event j api (deletes_workspace id) before w =
    met (any (λ (x : Session). is x.id j) (sessions_of w.store id)) seen
answer_event j api (shows_workspace id) before w = elim (listed_sessions api id before) [
  | none ↦ nothing
  | some list ↦
      met (is_option (truthy (next_active (get id w.store.active_session_by_workspace) list)) j)
        seen
]
answer_event j api (deletes_session id) before w =
    met (is id j) (elim (truthy w.store.active_workspace_id) [ none ↦ hushed | some wid ↦ seen ])
answer_event j api _ before w = nothing

unfoldable pub event : (j : String) {now : ℕ} {w w' : World} → Step now w w' → Event
unfolding answer_event
event j {now} {w} (output id doc) =
    met (is id j)
      (if is_option w.store.active_session_id id && is_visible doc then hushed else chunk now)
event j {now} {w} (fires h doc x e le) =
    met (is x.session_id j)
      (window_ends now (not (is_option w.store.active_session_id x.session_id) || is_hidden doc))
event j (selects id) = met (is id j) seen
event j (looks id) = met (is id j) seen
event j (dismisses id) = nothing
event j {w} (answers api call before e) = answer_event j api call before w

unfoldable pub events : (j : String) {now : ℕ} {w : World} → Reach now w → List Event
unfolding event
events j start = []
events j (next r le st) = event j st ∷ events j r
