-- ===== src/Store/Spec/Moves.antt =====
-- Each write of the store of frontend/src/stores/appStore.ts, as moves of the machine of `Spec`.
use loci_terminal.Common.{
  ℕ, ◌≡◌, refl, ap, inl, inr, String, true, false, not, ◌&&◌, ◌||◌, List, Option, none, some, any,
  is, if◌then◌else◌, truthy, arith, str_dec, Option-cases,
}
use loci_terminal.Dict.{Dict, get}
use loci_terminal.Dict.Laws.{get-delete}
use loci_terminal.Store.State.{
  AppState, Session, SessionActivity, World, Timer, BusyTrack, Document, is_unread, session_unread,
  find_timer, is_option, is_hidden, is_visible, on_store,
}
use loci_terminal.Store.Api.{Api, Ensures, Ensures->>=}
use loci_terminal.Store.Activity.{
  cancel_idle_tracking, set_active_session, select_session, clear_session_unread, clear_unread,
  dismiss_toast, mark_session_output, restart_timer, settle, idle_fired, fire_timer,
}
use loci_terminal.Store.Sessions.{delete_session, remove_session, in_active, sessions_of}
use loci_terminal.Store.Workspaces.{
  delete_workspace, remove_workspace, cancel_all, set_active_workspace, show_workspace,
  cancel_viewed, read_viewed, next_active, listed_sessions,
}
use loci_terminal.Store.Frame.{Keeps, resume-Keeps, mark_session_output-store}
use loci_terminal.Store.Tracking.Output.{get-note_output}
use loci_terminal.Store.Bursts.{settle_unread}
use loci_terminal.Store.Unread.{settle_other}
use loci_terminal.Store.Spec
use loci_terminal.Store.Steps.{Call, deletes_workspace, shows_workspace, deletes_session, resume}
use loci_terminal.Store.Spec.{
  Attention, Event, nothing, chunk, hushed, window_ends, seen, respond, follow, IsDue, IsTimely,
  attention, answer_event, event, events, prolonged, is_long,
}
use loci_terminal.Store.Spec.Lookups.{
  Attention-ext, busy-cancel, unread-mark_read, busy-cancel_all, unread-delete_all, cleared, heard,
  ended,
}

module _ (j : String) where
  clear_unread-unread :
      (id : String) (s : AppState)
      → is_unread (get j (clear_unread id s).session_activity)
        ≡ (if is id j then false else is_unread (get j s.session_activity))
  unfolding clear_unread
  clear_unread-unread id s = ground (arith, unread-mark_read j id s.session_activity)

  pub selects-refines :
      (id : String) (w : World)
      → attention j (set_active_session id w) ≡ respond (Spec.met (is id j) seen) (attention j w)
  unfolding attention session_unread set_active_session select_session
  selects-refines id w =
      cleared (is id j) _ _ (busy-cancel j id w) (unread-mark_read j id w.store.session_activity)

  pub looks-refines :
      (id : String) (w : World)
      → attention j (clear_session_unread id w) ≡ respond (Spec.met (is id j) seen) (attention j w)
  unfolding attention session_unread clear_session_unread
  looks-refines id w = cleared (is id j) _ _ (busy-cancel j id w) (clear_unread-unread id w.store)

  pub dismisses-refines :
      (id : String) (w : World)
      → attention j (record w { store = dismiss_toast id w.store }) ≡ attention j w
  unfolding attention session_unread dismiss_toast
  dismisses-refines id w = Attention-ext refl (ground arith)

  busy-output :
      (now : ℕ) (id : String) (doc : Document) (w : World)
      → get j (mark_session_output id doc now w).busy_track ≡ (
          if is id j
          then (if is_option w.store.active_session_id id && is_visible doc
              then none
              else some (prolonged now (get j w.busy_track)))
          else get j w.busy_track)
  unfolding mark_session_output restart_timer
  busy-output now id doc w =
      ground (arith, busy-cancel j id w, get-note_output id j now w.busy_track)

  pub output-refines :
      (now : ℕ) (id : String) (doc : Document) (w : World)
      → attention j (mark_session_output id doc now w)
        ≡ respond
            (Spec.met (is id j) (
              if is_option w.store.active_session_id id && is_visible doc
              then hushed
              else chunk now))
            (attention j w)
  unfolding attention
  output-refines now id doc w =
      heard (is id j) (is_option w.store.active_session_id id && is_visible doc) now _ _
        (busy-output now id doc w)
        (ap (λ (s : AppState). session_unread s j) (mark_session_output-store id doc now w))

  settle-unread :
      (id : String) (doc : Document) (o : Option BusyTrack) (s : AppState)
      → session_unread (settle id doc o s) j ≡ (
          if is id j
          then session_unread s j
            || (is_long o && (not (is_option s.active_session_id id) || is_hidden doc))
          else session_unread s j)
  unfolding settle session_unread
  settle-unread id doc none s = ground arith
  settle-unread id doc (some t) s = elim (str_dec id j) [
    | yes e ↦ ground (arith, settle_unread id doc t s)
    | no ne ↦ ground (arith, settle_other id j doc (some t) s)
  ]

  pub fires-refines :
      (now h : ℕ) (doc : Document) (x : Timer) (w : World)
      → find_timer h w.timers ≡ some x
      → attention j (fire_timer h doc w)
        ≡ respond
            (Spec.met (is x.session_id j) (
              window_ends now
                (not (is_option w.store.active_session_id x.session_id) || is_hidden doc)))
            (attention j w)
  unfolding attention fire_timer idle_fired
  fires-refines now h doc x w e =
      rw (e, fire_timer)
        (ended (is x.session_id j) _ now _ _
          (ground (arith, get-delete x.session_id j w.busy_track))
          (ground (arith, settle-unread x.session_id doc (get x.session_id w.busy_track) w.store)))

  -- Calls that write the store alone, and leave the marks as they are.
  quiet-refines :
      (op : AppState → Option AppState) (w : World)
      → Ensures (λ (w' : World). Keeps w.store w'.store) (on_store op w)
      → Ensures (λ (w' : World). attention j w' ≡ attention j w) (on_store op w)
  unfolding attention session_unread on_store
  quiet-refines op w h = kept (op w.store) h
    where
      kept :
          (o : Option AppState)
          → Ensures
              (λ (w' : World). Keeps w.store w'.store)
              (elim o [ none ↦ none | some s ↦ some (record w { store = s }) ])
          → Ensures
              (λ (w' : World). attention j w' ≡ attention j w)
              (elim o [ none ↦ none | some s ↦ some (record w { store = s }) ])
      kept none h = tt
      kept (some s) h = Attention-ext refl (ap (λ a. is_unread (get j a)) h.0)

  deletes_workspace-refines :
      (id : String) (w : World)
      → attention j
          (record (cancel_all (sessions_of w.store id) w) { store = remove_workspace id w.store })
        ≡ respond
            (Spec.met (any (λ (x : Session). is x.id j) (sessions_of w.store id)) seen)
            (attention j w)
  unfolding attention session_unread remove_workspace
  deletes_workspace-refines id w =
      cleared (any (λ (x : Session). is x.id j) (sessions_of w.store id)) _ _
        (busy-cancel_all j (sessions_of w.store id) w)
        (unread-delete_all j (sessions_of w.store id) w.store.session_activity)

  busy-cancel_viewed :
      (o : Option String) (w : World)
      → get j (cancel_viewed o w).busy_track ≡ (if is_option o j then none else get j w.busy_track)
  unfolding cancel_viewed
  busy-cancel_viewed none w = refl
  busy-cancel_viewed (some id) w = busy-cancel j id w

  unread-read_viewed :
      (o : Option String) (a : Dict SessionActivity)
      → is_unread (get j (read_viewed o a)) ≡ (if is_option o j then false else is_unread (get j a))
  unfolding read_viewed
  unread-read_viewed none a = refl
  unread-read_viewed (some id) a = unread-mark_read j id a

  shows_workspace-refines :
      (id : String) (list : List Session) (w : World)
      → let o = truthy (next_active (get id w.store.active_session_by_workspace) list) in
        attention j (record (cancel_viewed o w) { store = show_workspace id list w.store })
        ≡ respond (Spec.met (is_option o j) seen) (attention j w)
  unfolding attention session_unread show_workspace
  shows_workspace-refines id list w =
      let o = truthy (next_active (get id w.store.active_session_by_workspace) list) in
      cleared (is_option o j) _ _ (busy-cancel_viewed o w)
        (unread-read_viewed o w.store.session_activity)

  deletes_session-refines :
      (id : String) (o : Option String) (w : World)
      → truthy w.store.active_workspace_id ≡ o
      → attention j
          (record (cancel_idle_tracking id w) { store = in_active (remove_session id) w.store })
        ≡ respond (Spec.met (is id j) (elim o [ none ↦ hushed | some wid ↦ seen ])) (attention j w)
  unfolding attention session_unread in_active remove_session
  deletes_session-refines id none w e =
      heard (is id j) true 0 _ _ (busy-cancel j id w) (ground arith)
  deletes_session-refines id (some wid) w e =
      cleared (is id j) _ _ (busy-cancel j id w)
        (ground (arith, get-delete id j w.store.session_activity))

  pub resume-refines :
      (api : Api) (call : Call) (before : AppState) (w : World)
      → Ensures
          (λ w'. attention j w' ≡ respond (answer_event j api call before w) (attention j w))
          (resume api call before w)
  unfolding resume answer_event delete_workspace set_active_workspace delete_session respond
  resume-refines api (deletes_workspace id) before w =
      Ensures->>= _ (api.delete_workspace id) _ (λ _. deletes_workspace-refines id w)
  resume-refines api (shows_workspace id) before w =
      elim (Option-cases (listed_sessions api id before)) [
        | inl e ↦ rw (e, answer_event) tt
        | inr (list, e) ↦ rw (e, answer_event) (shows_workspace-refines id list w)
      ]
  resume-refines api (deletes_session id) before w =
      Ensures->>= _ (api.delete_session id) _ (λ _. deletes_session-refines id _ w refl)
  resume-refines api call before w = quiet-refines _ w (resume-Keeps api call before w refl)
