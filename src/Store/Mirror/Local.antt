-- ===== src/Store/Mirror/Local.antt =====
-- The steps of the store of frontend/src/stores/appStore.ts in which the server has no part.
use loci_terminal.Common.{
  ℕ, ◌≡◌, refl, inl, inr, String, true, Option, none, some, arith, truthy, Option-cases,
}
use loci_terminal.Dict.{get}
use loci_terminal.Store.State.{AppState, World, Document, BusyTrack, find_timer}
use loci_terminal.Store.Activity.{
  fire_timer, set_active_session, clear_session_unread, dismiss_toast, select_session, clear_unread,
  settle, notify, idle_fired,
}
use loci_terminal.Store.Frame.{mark_session_output-store}
use loci_terminal.Store.Steps.{Step, output, fires, selects, looks, dismisses, answers}
use loci_terminal.Store.Mirror.Ids.{has}
use loci_terminal.Store.Mirror.{Server, held, IsMirror}
use loci_terminal.Store.Mirror.Serve.{Local}
use loci_terminal.Store.Mirror.Places.{put-Remembered}

-- The places that the store stands in, and what it lists.
abbrev Still : AppState → AppState → Type 0
Still s s' =
    (s'.workspaces ≡ s.workspaces)
    × (s'.sessions ≡ s.sessions)
    × (s'.active_workspace_id ≡ s.active_workspace_id)
    × (s'.active_session_id ≡ s.active_session_id)
    × (s'.active_session_by_workspace ≡ s.active_session_by_workspace)

clear_unread-Still : (id : String) (s : AppState) → Still s (clear_unread id s)
unfolding clear_unread
clear_unread-Still id s = ground arith

dismiss_toast-Still : (id : String) (s : AppState) → Still s (dismiss_toast id s)
unfolding dismiss_toast
dismiss_toast-Still id s = ground arith

settle-Still :
    (id : String) (doc : Document) (o : Option BusyTrack) (s : AppState)
    → Still s (settle id doc o s)
unfolding settle notify
settle-Still id doc none s = (refl, refl, refl, refl, refl)
settle-Still id doc (some t) s = ground arith

fire_timer-Still : (h : ℕ) (doc : Document) (w : World) → Still w.store (fire_timer h doc w).store
unfolding fire_timer idle_fired
fire_timer-Still h doc w = elim (Option-cases (find_timer h w.timers)) [
  | inl e ↦ rw (e, fire_timer) (refl, refl, refl, refl, refl)
  | inr (x, e) ↦
      rw (e, fire_timer) (settle-Still x.session_id doc (get x.session_id w.busy_track) w.store)
]

module _ {S : Type 0} (v : Server S) where
  Still-IsMirror : (z : S) (s s' : AppState) → Still s s' → IsMirror v z s → IsMirror v z s'
  Still-IsMirror z s s' (a, b, c, d, e) m = record {
    workspaces = rw a m.workspaces;
    sessions = rw b m.sessions;
    stands = rw (c, d) m.stands;
    remembers = rw e m.remembers;
  }

  selected-IsMirror :
      (z : S) (wid id : String) (s : AppState)
      → truthy s.active_workspace_id ≡ some wid
      → has id (held v wid z) ≡ true
      → IsMirror v z s
      → IsMirror v z (select_session id s)
  unfolding select_session
  selected-IsMirror z wid id s active known m =
      let (listed_wid, shown) = rw active at m.stands in
      record {
        workspaces = m.workspaces;
        sessions = m.sessions;
        stands = rw active (listed_wid, known);
        remembers =
            rw (active, select_session)
              (put-Remembered (λ j. held v j z) (λ j. held v j z) wid (λ j p. refl) id
                s.active_session_by_workspace known m.remembers);
      }

  -- A step that asks nothing of the server leaves the store its mirror.
  pub Local-IsMirror :
      {now : ℕ} (z : S) {w w' : World} (st : Step now w w')
      → Local v z st
      → IsMirror v z w.store
      → IsMirror v z w'.store
  unfolding set_active_session clear_session_unread
  Local-IsMirror {now} z {w} (output id doc) l m = rw (mark_session_output-store id doc now w) m
  Local-IsMirror z {w} (fires h doc x e le) l m =
      Still-IsMirror z w.store _ (fire_timer-Still h doc w) m
  Local-IsMirror z {w} (selects id) (wid, active, known) m =
      selected-IsMirror z wid id w.store active known m
  Local-IsMirror z {w} (looks id) l m = Still-IsMirror z w.store _ (clear_unread-Still id w.store) m
  Local-IsMirror z {w} (dismisses id) l m =
      Still-IsMirror z w.store _ (dismiss_toast-Still id w.store) m
  Local-IsMirror z (answers api call before e) l m = absurd l
