-- ===== src/Store/Views.antt =====
-- What it means to look at a session, in frontend/src/stores/appStore.ts: `setActiveSession`,
-- `clearSessionUnread` and the landing of `setActiveWorkspace`.
use loci_terminal.Common.{
  ◌≡◌, refl, subst, ◌≢◌, inl, inr, String, false, not, ◌&&◌, List, [], ◌∷◌, Option, none, some, All,
  All-map, All-test, Bool-cases, Option-cases, is, any, filter, arith, truthy,
}
use loci_terminal.Dict.{get}
use loci_terminal.Dict.Laws.{get-put_self, get-delete, get-delete_self}
use loci_terminal.Store.State.{AppState, Session, World, Toast, is_unread, session_unread}
use loci_terminal.Store.Api.{Api}
use loci_terminal.Store.Activity.{
  cancel_idle_tracking, drop_toasts, select_session, clear_unread, set_active_session,
  clear_session_unread,
}
use loci_terminal.Store.Workspaces.{
  set_active_workspace, show_workspace, listed_sessions, cancel_viewed, next_active,
}
use loci_terminal.Store.Landing.{IsLanding, next_active-IsLanding}
use loci_terminal.Store.Toasts.{get-mark_read, mark_read-is_unread, drop_toasts-filter}

-- Nothing of the session asks for attention, and nothing pending will.
pub record IsViewed (id : String) (w : World) : Type 0 where
  pub seen : session_unread w.store id ≡ false
  pub untoasted : All (λ t. t.session_id ≢ id) w.store.toasts
  pub idle : get id w.busy_track ≡ none
  pub unscheduled : get id w.idle_timers ≡ none

pub cancel_idle_tracking-gone :
    (id : String) (w : World)
    → (get id (cancel_idle_tracking id w).busy_track ≡ none)
      × (get id (cancel_idle_tracking id w).idle_timers ≡ none)
unfolding cancel_idle_tracking
cancel_idle_tracking-gone id w = elim (Option-cases (get id w.idle_timers)) [
  | inl e ↦ rw (e, cancel_idle_tracking) (get-delete_self id w.busy_track, e)
  | inr (t, e) ↦
      rw (e, cancel_idle_tracking)
        (get-delete_self id w.busy_track, get-delete_self id w.idle_timers)
]

pub drop_toasts-All :
    (id : String) (ts : List Toast) → All (λ t. t.session_id ≢ id) (drop_toasts id ts)
drop_toasts-All id ts = rw (drop_toasts-filter id ts) (
    All-map (filter (λ t. not (is t.session_id id)) ts) (λ t k. ground arith)
      (All-test (λ t. not (is t.session_id id)) ts))

-- A store in which the session is read, beside cancelled bookkeeping.
view-IsViewed :
    (id : String) (w : World) (s : AppState)
    → is_unread (get id s.session_activity) ≡ false
    → All (λ t. t.session_id ≢ id) s.toasts
    → IsViewed id (record (cancel_idle_tracking id w) { store = s })
unfolding session_unread
view-IsViewed id w s seen gone = record {
  seen = seen;
  untoasted = gone;
  idle = (cancel_idle_tracking-gone id w).0;
  unscheduled = (cancel_idle_tracking-gone id w).1;
}

-- No toast has the property that `any` looks for.
All_of_none :
    (id : String) (ts : List Toast)
    → any (λ t. is t.session_id id) ts ≡ false
    → All (λ t. t.session_id ≢ id) ts
All_of_none id [] e = tt
All_of_none id (t ∷ ts) e = (ground arith, All_of_none id ts (ground arith))

clear_unread-viewed :
    (id : String) (s : AppState)
    → (is_unread (get id (clear_unread id s).session_activity) ≡ false)
      × All (λ t. t.session_id ≢ id) (clear_unread id s).toasts
unfolding clear_unread
clear_unread-viewed id s =
    elim (Bool-cases (
      not (is_unread (get id s.session_activity))
      && not (any (λ t. is t.session_id id) s.toasts))) [
        | inl e ↦ rw e (ground arith, All_of_none id s.toasts (ground arith))
        | inr e ↦ rw e (mark_read-is_unread id s.session_activity, drop_toasts-All id s.toasts)
      ]

-- `setActiveSession` makes the session the active one and, where a workspace is active, the one to
-- return to; the session is then read, without toast, burst or timeout.
pub set_active_session-IsViewed :
    (id : String) (w : World)
    → let w' = set_active_session id w in
      (w'.store.active_session_id ≡ some id)
      × ((wid : String)
          → truthy w.store.active_workspace_id ≡ some wid
          → get wid w'.store.active_session_by_workspace ≡ some id)
      × IsViewed id w'
unfolding set_active_session select_session
set_active_session-IsViewed id w = (
  refl,
  (λ wid e. ground (arith, get-put_self wid id w.store.active_session_by_workspace)),
  view-IsViewed id w _ (mark_read-is_unread id w.store.session_activity)
      (drop_toasts-All id w.store.toasts),
)

-- So does `clearSessionUnread`, on each of its branches, and it changes nothing else of the store
-- than marks and toasts.
pub clear_session_unread-IsViewed :
    (id : String) (w : World) → IsViewed id (clear_session_unread id w)
unfolding clear_session_unread
clear_session_unread-IsViewed id w =
    view-IsViewed id w _ (clear_unread-viewed id w.store).0 (clear_unread-viewed id w.store).1

-- A session other than the one looked at keeps its mark, its burst and its timeout.
pub set_active_session_other :
    (id j : String) (w : World)
    → id ≢ j
    → let w' = set_active_session id w in
      (session_unread w'.store j ≡ session_unread w.store j)
      × (get j w'.busy_track ≡ get j w.busy_track)
      × (get j w'.idle_timers ≡ get j w.idle_timers)
unfolding set_active_session select_session session_unread cancel_idle_tracking
set_active_session_other id j w ne = (
  ground (arith, get-mark_read id j w.store.session_activity),
  ground (arith, get-delete id j w.busy_track),
  ground (arith, get-delete id j w.idle_timers),
)

-- What `setActiveWorkspace` leaves: the workspace is active with the list it showed, its active
-- session is the remembered one if that is still listed and else the first, and a session that it
-- lands on is viewed and remembered.
pub record IsShown (id : String) (list : List Session) (w w' : World) : Type 0 where
  pub active : w'.store.active_workspace_id ≡ some id
  pub listed : get id w'.store.sessions ≡ some list
  pub landed :
      IsLanding (get id w.store.active_session_by_workspace) list w'.store.active_session_id
  pub viewed :
      (n : String)
      → truthy w'.store.active_session_id ≡ some n
      → IsViewed n w' × (get id w'.store.active_session_by_workspace ≡ some n)

show_workspace-IsViewed :
    (id : String) (list : List Session) (w : World) (o : Option String)
    → truthy (next_active (get id w.store.active_session_by_workspace) list) ≡ o
    → (n : String) → o ≡ some n
    → let w' = record (cancel_viewed o w) { store = show_workspace id list w.store } in
      IsViewed n w' × (get id w'.store.active_session_by_workspace ≡ some n)
unfolding cancel_viewed show_workspace
show_workspace-IsViewed id list w none e n q = absurd (cc)
show_workspace-IsViewed id list w (some m) e n q =
    let p : m ≡ n = cc in
    (
      subst
          (λ k.
            IsViewed k
              (record (cancel_idle_tracking m w) { store = show_workspace id list w.store }))
          p
          (view-IsViewed m w (show_workspace id list w.store)
            (rw e (mark_read-is_unread m w.store.session_activity))
            (rw e (drop_toasts-All m w.store.toasts))),
      rw e (ground (arith, get-put_self id m w.store.active_session_by_workspace)),
    )

show_workspace-IsShown :
    (id : String) (list : List Session) (w : World)
    → let o = truthy (next_active (get id w.store.active_session_by_workspace) list) in
      IsShown id list w (record (cancel_viewed o w) { store = show_workspace id list w.store })
show_workspace-IsShown id list w = record {
  active = unfold show_workspace in refl;
  listed = unfold show_workspace in get-put_self id list w.store.sessions;
  landed = unfold show_workspace in next_active-IsLanding _ list;
  viewed = λ n e. show_workspace-IsViewed id list w _ refl n (unfold show_workspace in e);
}

pub set_active_workspace-IsShown :
    (api : Api) (id : String) (before : AppState) (w : World) {w' : World}
    → set_active_workspace api id before w ≡ some w'
    → (list : List Session) × (listed_sessions api id before ≡ some list) × IsShown id list w w'
unfolding set_active_workspace
set_active_workspace-IsShown api id before w {w'} e =
    elim (Option-cases (listed_sessions api id before)) [
      | inl q ↦ absurd (ground arith)
      | inr (list, q) ↦
          (list, q, subst (IsShown id list w) (ground arith) (show_workspace-IsShown id list w))
    ]
