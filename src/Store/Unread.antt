-- ===== src/Store/Unread.antt =====
-- When a session of frontend/src/stores/appStore.ts becomes unread.
use loci_terminal.Common.{
  ℕ, ◌+◌, ◌≤◌, ◌≡◌, refl, subst, ◌≢◌, inl, inr, String, true, false, ◌&&◌, List, [], ◌∷◌, Option,
  none, some, Bool-cases, All-find, str_dec, eqb, arith,
}
use loci_terminal.Dict.{Dict, get, delete}
use loci_terminal.Dict.Laws.{get-put, get-delete}
use loci_terminal.Store.State.{
  AppState, Session, SessionActivity, World, Timer, BusyTrack, Document, idle_ms, min_busy_ms,
  is_unread, session_unread, is_option, is_visible, hidden, find_timer,
}
use loci_terminal.Store.Api.{Api, Ensures, Ensures->>=, Ensures-map, Ensures-some}
use loci_terminal.Store.Activity.{
  mark_read, notify, settle, is_due, select_session, clear_unread, dismiss_toast, fire_timer,
  idle_fired, set_active_session, clear_session_unread,
}
use loci_terminal.Store.Sessions.{delete_session, remove_session, in_active}
use loci_terminal.Store.Workspaces.{
  delete_workspace, set_active_workspace, delete_all, read_viewed, remove_workspace, show_workspace,
  listed_sessions,
}
use loci_terminal.Store.Frame.{resume-Keeps, mark_session_output-store}
use loci_terminal.Store.Toasts.{get-mark_read, mark_read-is_unread}
use loci_terminal.Store.Tracking.{IsTracked, IsOwned, due_of, later-IsTracked}
use loci_terminal.Store.Steps.{
  Call, deletes_workspace, shows_workspace, deletes_session, resume, Step, output, fires, selects,
  looks, dismisses, answers, Reach,
}
use loci_terminal.Store.Steps.Books.{Reach-IsTracked}

-- No session is newly unread.
abbrev pub Dims : Dict SessionActivity → Dict SessionActivity → Type 0
Dims a b = (j : String) → is_unread (get j b) ≡ true → is_unread (get j a) ≡ true

mark_read-Dims : (id : String) (a : Dict SessionActivity) → Dims a (mark_read id a)
mark_read-Dims id a j u = elim (str_dec id j) [
  | yes e ↦ absurd (ground (arith, mark_read-is_unread id a))
  | no ne ↦ ground (arith, get-mark_read id j a ne)
]

delete-Dims : (id : String) (a : Dict SessionActivity) → Dims a (delete id a)
delete-Dims id a j u = ground (arith, get-delete id j a)

delete_all-Dims : (xs : List Session) (a : Dict SessionActivity) → Dims a (delete_all xs a)
unfolding delete_all
delete_all-Dims [] a j u = u
delete_all-Dims (x ∷ xs) a j u = delete-Dims x.id a j (delete_all-Dims xs (delete x.id a) j u)

read_viewed-Dims : (o : Option String) (a : Dict SessionActivity) → Dims a (read_viewed o a)
unfolding read_viewed
read_viewed-Dims none a j u = u
read_viewed-Dims (some id) a j u = mark_read-Dims id a j u

clear_unread-Dims :
    (id : String) (s : AppState) → Dims s.session_activity (clear_unread id s).session_activity
unfolding clear_unread
clear_unread-Dims id s j u = ground (arith, mark_read-Dims id s.session_activity j)

dismiss_toast-Dims :
    (id : String) (s : AppState) → Dims s.session_activity (dismiss_toast id s).session_activity
unfolding dismiss_toast
dismiss_toast-Dims id s j u = ground arith

in_active-Dims :
    (id : String) (s : AppState)
    → Dims s.session_activity (in_active (remove_session id) s).session_activity
unfolding in_active remove_session
in_active-Dims id s j u = ground (arith, delete-Dims id s.session_activity j)

resume-Dims :
    (api : Api) (call : Call) (before : AppState) (w : World)
    → Ensures
        (λ (w' : World). Dims w.store.session_activity w'.store.session_activity)
        (resume api call before w)
unfolding resume delete_session delete_workspace set_active_workspace remove_workspace
    show_workspace
resume-Dims api (deletes_workspace id) before w =
    Ensures->>= _ (api.delete_workspace id) _ (λ _. delete_all-Dims _ _)
resume-Dims api (shows_workspace id) before w =
    Ensures->>= _ (listed_sessions api id before) _ (λ _. read_viewed-Dims _ _)
resume-Dims api (deletes_session id) before w =
    Ensures->>= _ (api.delete_session id) _ (λ _. in_active-Dims id w.store)
resume-Dims api call before w =
    Ensures-map _ _ (resume api call before w)
      (λ w' k j u. subst (λ a. is_unread (get j a) ≡ true) k.0 u)
      (resume-Keeps api call before w refl)

-- The page's visibility that a step reads.
abbrev pub seen_in : {now : ℕ} {w w' : World} → Step now w w' → Document
seen_in (output j doc) = doc
seen_in (fires h doc x e le) = doc
seen_in _ = hidden

-- The session's burst was at least `MIN_BUSY_MS` long and is over for `IDLE_MS`, and the user is not
-- looking at the session.
pub record IsFinished (now : ℕ) (document : Document) (w : World) (id : String) : Type 0 where
  pub track : BusyTrack
  pub recorded : get id w.busy_track ≡ some track
  pub silent : track.last_byte_at + idle_ms ≤ now
  pub long : track.started_at + min_busy_ms ≤ track.last_byte_at
  pub background : (is_option w.store.active_session_id id && is_visible document) ≡ false

-- Of other sessions a fire changes nothing; its own turns unread if the fire was due.
pub settle_other :
    (id j : String) (doc : Document) (o : Option BusyTrack) (s : AppState)
    → id ≢ j
    → is_unread (get j (settle id doc o s).session_activity) ≡ is_unread (get j s.session_activity)
unfolding settle notify
settle_other id j doc none s ne = refl
settle_other id j doc (some t) s ne = ground (
  arith,
  get-put id j
      (record { unread = true; last_output_at = t.last_byte_at; notified_at = t.last_byte_at })
      s.session_activity,
)

settle_idle :
    (id : String) (doc : Document) (t : BusyTrack) (s : AppState)
    → is_due id doc s t ≡ false
    → settle id doc (some t) s ≡ s
unfolding settle
settle_idle id doc t s e = rw e

module _ {now : ℕ} {w : World} (v : IsTracked now w) (id : String) where
  -- The timeout `x` fires, with what is on record for its session.
  fire_unread :
      (x : Timer) (doc : Document) (o : Option BusyTrack)
      → get x.session_id w.busy_track ≡ o
      → due_of x.session_id w ≡ some x.due
      → x.due ≤ now
      → is_unread (get id w.store.session_activity) ≡ false
      → is_unread (get id (settle x.session_id doc o w.store).session_activity) ≡ true
      → IsFinished now doc w id
  fire_unread x doc none b d le u u' = absurd (ground arith)
  fire_unread x doc (some t) b d le u u' = elim (str_dec x.session_id id) [
    | no ne ↦ absurd (ground (arith, settle_other x.session_id id doc (some t) w.store ne))
    | yes e ↦ elim (Bool-cases (is_due x.session_id doc w.store t)) [
      | inr q ↦ absurd (ground (arith, settle_idle x.session_id doc t w.store q))
      | inl q ↦ record {
        track = t;
        recorded = ground arith;
        silent = ground arith;
        long = let s = v.spans x.session_id t b in ground arith;
        background = ground arith;
      }
    ]
  ]

  fire_timer_unread :
      (h : ℕ) (doc : Document) (x : Timer)
      → find_timer h w.timers ≡ some x
      → x.due ≤ now
      → is_unread (get id w.store.session_activity) ≡ false
      → is_unread (get id (fire_timer h doc w).store.session_activity) ≡ true
      → IsFinished now doc w id
  unfolding fire_timer idle_fired
  fire_timer_unread h doc x e le u u' =
      let (o, hit) = All-find (IsOwned w) (λ y. eqb y.handle h) w.timers e v.owned in
      fire_unread x doc (get x.session_id w.busy_track) refl o.debounced le u
        (rw (e, fire_timer) at u')

  -- In the books' order, a session turns unread only when its burst is finished.
  Step-unread :
      {w' : World} (st : Step now w w')
      → session_unread w.store id ≡ false
      → session_unread w'.store id ≡ true
      → IsFinished now (seen_in st) w id
  unfolding session_unread set_active_session clear_session_unread select_session
  Step-unread (output j doc) u u' = absurd (ground (arith, mark_session_output-store j doc now w))
  Step-unread (fires h doc x e le) u u' = fire_timer_unread h doc x e le u u'
  Step-unread (selects j) u u' =
      absurd (ground (arith, mark_read-Dims j w.store.session_activity id))
  Step-unread (looks j) u u' = absurd (ground (arith, clear_unread-Dims j w.store id))
  Step-unread (dismisses j) u u' = absurd (ground (arith, dismiss_toast-Dims j w.store id))
  Step-unread (answers api call before e) u u' = absurd (
      ground
        (arith, Ensures-some _ (resume api call before w) e (resume-Dims api call before w) id))

-- After any history, whatever step the page takes next: a session that was read is unread after it
-- only if an output burst of it is on record that lasted at least `MIN_BUSY_MS`, that has been silent
-- for at least `IDLE_MS`, and the step does not find the session
-- active on a visible page.
pub unread-IsFinished :
    {now later : ℕ} {w w' : World} (id : String)
    → Reach now w
    → now ≤ later
    → (st : Step later w w') → session_unread w.store id ≡ false
    → session_unread w'.store id ≡ true
    → IsFinished later (seen_in st) w id
unread-IsFinished id r le st = Step-unread (later-IsTracked le (Reach-IsTracked r)) id st
