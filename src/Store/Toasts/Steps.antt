-- ===== src/Store/Toasts/Steps.antt =====
-- Every step of the store of frontend/src/stores/appStore.ts keeps its toasts in order.
use loci_terminal.Common.{
  ◌≡◌, refl, sym, inl, inr, String, true, false, not, List, [], ◌∷◌, Option, none, some, filter,
  any, is, arith, Bool-cases, filter_of_none, ◌&&◌, All-map,
}
use loci_terminal.Dict.{Dict, get, put, delete}
use loci_terminal.Dict.Laws.{get-put, get-delete}
use loci_terminal.Store.State.{
  AppState, Session, SessionActivity, Toast, BusyTrack, Document, is_unread,
}
use loci_terminal.Store.Activity.{
  mark_read, drop_toasts, make_toast, toasts_after, notify, settle, is_due, locate, select_session,
  clear_unread, dismiss_toast,
}
use loci_terminal.Store.Sessions.{remove_session, sessions_of}
use loci_terminal.Store.Workspaces.{
  remove_workspace, show_workspace, delete_all, drop_removed, is_removed, read_viewed, drop_viewed,
}
use loci_terminal.Store.Toasts.{
  IsNotified, drop_toasts-filter, get-mark_read, filter-IsNotified, push_toast-IsNotified,
}

-- A session is viewed: it is marked read, and loses its toast.
view-IsNotified :
    (id : String) (s : AppState)
    → IsNotified s
    → IsNotified (record s {
      session_activity = mark_read id s.session_activity;
      toasts = drop_toasts id s.toasts;
    })
view-IsNotified id s n = rw (drop_toasts-filter id s.toasts) (
    filter-IsNotified (λ t. not (is t.session_id id)) _ s
      (λ t k. get-mark_read id t.session_id s.session_activity (ground arith)) n)

-- A session is gone: its activity and its toast go too.
forget-IsNotified :
    (id : String) (s : AppState)
    → IsNotified s
    → IsNotified (record s {
      session_activity = delete id s.session_activity;
      toasts = drop_toasts id s.toasts;
    })
forget-IsNotified id s n = rw (drop_toasts-filter id s.toasts) (
    filter-IsNotified (λ t. not (is t.session_id id)) _ s
      (λ t k. ground (arith, get-delete id t.session_id s.session_activity)) n)

-- The fields that a view of the toasts reads.
pub carry-IsNotified :
    (s s' : AppState)
    → s'.session_activity ≡ s.session_activity
    → s'.toasts ≡ s.toasts
    → IsNotified s
    → IsNotified s'
carry-IsNotified s s' a t n = record {
  announced = rw (a, t) n.announced;
  capped = rw t n.capped;
  distinct = rw t n.distinct;
}

pub select_session-IsNotified :
    (id : String) (s : AppState) → IsNotified s → IsNotified (select_session id s)
unfolding select_session
select_session-IsNotified id s n = carry-IsNotified _ _ refl refl (view-IsNotified id s n)

pub clear_unread-IsNotified :
    (id : String) (s : AppState) → IsNotified s → IsNotified (clear_unread id s)
unfolding clear_unread
clear_unread-IsNotified id s n =
    elim (Bool-cases (
      not (is_unread (get id s.session_activity))
      && not (any (λ t. is t.session_id id) s.toasts))) [
        | inl e ↦ rw e n
        | inr e ↦ rw e (view-IsNotified id s n)
      ]

pub dismiss_toast-IsNotified :
    (id : String) (s : AppState) → IsNotified s → IsNotified (dismiss_toast id s)
unfolding dismiss_toast
dismiss_toast-IsNotified id s n = elim (Bool-cases (not (any (λ t. is t.id id) s.toasts))) [
  | inl e ↦ rw e n
  | inr e ↦ rw e (filter-IsNotified (λ t. not (is t.id id)) s.session_activity s (λ t k. refl) n)
]

-- The activity after a fire.
abbrev lit : String → BusyTrack → Dict SessionActivity → Dict SessionActivity
lit id t =
    put id (record { unread = true; last_output_at = t.last_byte_at; notified_at = t.last_byte_at })

lit_keeps :
    (id : String) (t : BusyTrack) (activity : Dict SessionActivity) (j : String)
    → is_unread (get j activity) ≡ true
    → is_unread (get j (lit id t activity)) ≡ true
lit_keeps id t activity j e = ground (
  arith,
  get-put id j
      (record { unread = true; last_output_at = t.last_byte_at; notified_at = t.last_byte_at })
      activity,
)

lit_self :
    (id : String) (t : BusyTrack) (activity : Dict SessionActivity)
    → is_unread (get id (lit id t activity)) ≡ true
lit_self id t activity = ground (
  arith,
  get-put id id
      (record { unread = true; last_output_at = t.last_byte_at; notified_at = t.last_byte_at })
      activity,
)

lit-IsNotified :
    (id : String) (t : BusyTrack) (s : AppState)
    → IsNotified s
    → IsNotified (record s { session_activity = lit id t s.session_activity })
lit-IsNotified id t s n = record {
  announced =
      All-map s.toasts (λ x u. lit_keeps id t s.session_activity x.session_id u) n.announced;
  capped = n.capped;
  distinct = n.distinct;
}

toasts_after-IsNotified :
    (id : String) (t : BusyTrack) (s : AppState) (o : Option (String × Session))
    → IsNotified s
    → IsNotified (record s {
      session_activity = lit id t s.session_activity;
      toasts = toasts_after id t o s.toasts;
    })
unfolding toasts_after make_toast
toasts_after-IsNotified id t s none n = lit-IsNotified id t s n
toasts_after-IsNotified id t s (some (wid, found)) n = elim (Bool-cases (is wid "")) [
  | inl e ↦ rw e (lit-IsNotified id t s n)
  | inr e ↦ rw e (
      push_toast-IsNotified (make_toast id t wid found) _ s (lit_keeps id t s.session_activity)
        (lit_self id t s.session_activity) n)
]

pub notify-IsNotified :
    (id : String) (t : BusyTrack) (s : AppState) → IsNotified s → IsNotified (notify id t s)
unfolding notify
notify-IsNotified id t s n = elim (Bool-cases (is_unread (get id s.session_activity))) [
  | inl e ↦ rw e n
  | inr e ↦ rw e (toasts_after-IsNotified id t s (locate id s.sessions) n)
]

pub settle-IsNotified :
    (id : String) (doc : Document) (o : Option BusyTrack) (s : AppState)
    → IsNotified s
    → IsNotified (settle id doc o s)
unfolding settle
settle-IsNotified id doc none s n = n
settle-IsNotified id doc (some t) s n = elim (Bool-cases (is_due id doc s t)) [
  | inl e ↦ rw e (notify-IsNotified id t s n)
  | inr e ↦ rw e n
]

pub remove_session-IsNotified :
    (id wid : String) (s : AppState) → IsNotified s → IsNotified (remove_session id wid s)
unfolding remove_session
remove_session-IsNotified id wid s n = carry-IsNotified _ _ refl refl (forget-IsNotified id s n)

get-delete_all :
    (xs : List Session) (j : String) (activity : Dict SessionActivity)
    → any (λ (x : Session). is x.id j) xs ≡ false
    → get j (delete_all xs activity) ≡ get j activity
unfolding delete_all
get-delete_all [] j activity e = refl
get-delete_all (x ∷ xs) j activity e =
    ground (arith, get-delete_all xs j (delete x.id activity), get-delete x.id j activity)

pub drop_removed-filter :
    (xs : List Session) (ts : List Toast)
    → drop_removed xs ts ≡ filter (λ t. not (is_removed xs t)) ts
unfolding drop_removed
drop_removed-filter xs ts = elim (Bool-cases (any (is_removed xs) ts)) [
  | inl e ↦ rw e
  | inr e ↦ rw e (sym (filter_of_none (is_removed xs) ts e))
]

pub remove_workspace-IsNotified :
    (id : String) (s : AppState) → IsNotified s → IsNotified (remove_workspace id s)
unfolding remove_workspace
remove_workspace-IsNotified id s n =
    carry-IsNotified
      (record s {
        session_activity = delete_all (sessions_of s id) s.session_activity;
        toasts = filter (λ t. not (is_removed (sessions_of s id) t)) s.toasts;
      })
      _ refl (drop_removed-filter (sessions_of s id) s.toasts)
      (filter-IsNotified (λ t. not (is_removed (sessions_of s id) t)) _ s
        (λ t k. get-delete_all (sessions_of s id) t.session_id s.session_activity (ground arith)) n)

viewed-IsNotified :
    (o : Option String) (s : AppState)
    → IsNotified s
    → IsNotified (record s {
      session_activity = read_viewed o s.session_activity;
      toasts = drop_viewed o s.toasts;
    })
unfolding read_viewed drop_viewed
viewed-IsNotified none s n = n
viewed-IsNotified (some id) s n = view-IsNotified id s n

pub show_workspace-IsNotified :
    (id : String) (xs : List Session) (s : AppState)
    → IsNotified s
    → IsNotified (show_workspace id xs s)
unfolding show_workspace
show_workspace-IsNotified id xs s n = carry-IsNotified _ _ refl refl (viewed-IsNotified _ s n)
