-- ===== src/Store/Deletions.antt =====
-- What `deleteSession` and `deleteWorkspace` of frontend/src/stores/appStore.ts leave behind.
use loci_terminal.Common.{
  ℕ, ◌≡◌, subst, ◌≢◌, inl, inr, String, false, not, List, [], ◌∷◌, Option, none, some, All, All-map,
  All-test, Option-cases, is, filter, if◌then◌else◌, arith, truthy,
}
use loci_terminal.Dict.{Dict, get}
use loci_terminal.Dict.Laws.{get-put_self, get-delete_self}
use loci_terminal.Store.State.{Workspace, Session, World, Timer, is_option}
use loci_terminal.Store.Tracking.{IsTracked, cancel_idle_tracking-IsTracked}
use loci_terminal.Store.Steps.Books.{cancel_all-IsTracked}
use loci_terminal.Store.Api.{Api}
use loci_terminal.Store.Activity.{cancel_idle_tracking}
use loci_terminal.Store.Sessions.{
  sessions_of, first_id, reassign, remove_session, in_active, delete_session,
}
use loci_terminal.Store.Workspaces.{cancel_all, is_removed, remove_workspace, delete_workspace}
use loci_terminal.Store.Sweeping.{
  unscheduled-silent, delete_all-All, cancel_all-All, drop_removed-All,
}
use loci_terminal.Store.Views.{cancel_idle_tracking-gone, drop_toasts-All}

-- The session is in no place where the page of the workspace `wid` would find it.
pub record IsForgotten (wid id : String) (w : World) : Type 0 where
  pub unlisted : All (λ (x : Session). x.id ≢ id) (sessions_of w.store wid)
  pub inactive : w.store.active_session_id ≢ some id
  pub unremembered : get wid w.store.active_session_by_workspace ≢ some id
  pub unmarked : get id w.store.session_activity ≡ none
  pub untoasted : All (λ t. t.session_id ≢ id) w.store.toasts
  pub idle : get id w.busy_track ≡ none
  pub unscheduled : get id w.idle_timers ≡ none
  pub silent : All (λ (t : Timer). t.session_id ≢ id) w.timers

others :
    (id : String) (xs : List Session)
    → All (λ (x : Session). x.id ≢ id) (filter (λ (x : Session). not (is x.id id)) xs)
others id xs =
    All-map (filter (λ (x : Session). not (is x.id id)) xs) (λ x k. ground arith)
      (All-test (λ (x : Session). not (is x.id id)) xs)

first_id_others :
    (id : String) (xs : List Session) → All (λ (x : Session). x.id ≢ id) xs → first_id xs ≢ some id
first_id_others id [] h = λ e. cc
first_id_others id (x ∷ xs) h = λ e. h.0 (cc)

next_others :
    (id : String) (active : Option String) (xs : List Session)
    → All (λ (x : Session). x.id ≢ id) xs
    → (if is_option active id then first_id xs else active) ≢ some id
next_others id none xs h = λ e. cc
next_others id (some a) xs h = ground (arith, first_id_others id xs h)

truthy-ne : (o : Option String) (id : String) → o ≢ some id → truthy o ≢ some id
unfolding truthy
truthy-ne none id h = h
truthy-ne (some a) id h = ground arith

reassign_others :
    (wid id : String) (next : Option String) (remembered : Dict String)
    → next ≢ some id
    → get wid (reassign wid id next remembered) ≢ some id
unfolding reassign
reassign_others wid id next remembered h = elim (Option-cases (truthy next)) [
  | inl e ↦ ground (arith, get-delete_self wid remembered)
  | inr (n, e) ↦ ground (arith, get-put_self wid n remembered, truthy-ne next id h)
]

remove_session-IsForgotten :
    (now : ℕ) (wid id : String) (w : World)
    → IsTracked now w
    → IsForgotten wid id
        (record (cancel_idle_tracking id w) { store = remove_session id wid w.store })
unfolding remove_session
remove_session-IsForgotten now wid id w v =
    let kept = filter (λ (x : Session). not (is x.id id)) (sessions_of w.store wid) in
    let rest : All (λ (x : Session). x.id ≢ id) kept = others id (sessions_of w.store wid) in
    record {
      unlisted = rw (get-put_self wid kept w.store.sessions) rest;
      inactive = next_others id w.store.active_session_id kept rest;
      unremembered =
          reassign_others wid id _ w.store.active_session_by_workspace
            (next_others id w.store.active_session_id kept rest);
      unmarked = get-delete_self id w.store.session_activity;
      untoasted = drop_toasts-All id w.store.toasts;
      idle = (cancel_idle_tracking-gone id w).0;
      unscheduled = (cancel_idle_tracking-gone id w).1;
      silent =
          unscheduled-silent now id (cancel_idle_tracking id w)
            (cancel_idle_tracking-IsTracked now id w v) (cancel_idle_tracking-gone id w).1;
    }

-- Where the books of the bursts agree, as they do after any steps of the page, and a workspace is active
-- when the server has deleted the session: nothing of the session is left in that workspace, nor among the
-- marks, the toasts, the bursts and timeouts on record and the timeouts that the browser has pending.
pub delete_session-IsForgotten :
    (api : Api) (now : ℕ) (wid id : String) (w : World) {w' : World}
    → IsTracked now w
    → truthy w.store.active_workspace_id ≡ some wid
    → delete_session api id w ≡ some w'
    → IsForgotten wid id w'
unfolding delete_session in_active
delete_session-IsForgotten api now wid id w {w'} v active e =
    elim (Option-cases (api.delete_session id)) [
      | inl q ↦ absurd (ground arith)
      | inr (u, q) ↦
          subst (IsForgotten wid id) (ground arith) (remove_session-IsForgotten now wid id w v)
    ]

-- No session of the list is marked, toasted, in a burst or waiting, and no timeout is pending for one.
pub record IsSwept (xs : List Session) (w : World) : Type 0 where
  pub unmarked : All (λ (x : Session). get x.id w.store.session_activity ≡ none) xs
  pub untoasted : All (λ t. is_removed xs t ≡ false) w.store.toasts
  pub idle : All (λ (x : Session). get x.id w.busy_track ≡ none) xs
  pub unscheduled : All (λ (x : Session). get x.id w.idle_timers ≡ none) xs
  pub silent : All (λ (x : Session). All (λ (t : Timer). t.session_id ≢ x.id) w.timers) xs

-- The store of `w'` lists neither the workspace nor its sessions, and remembers no session for it.
pub record IsWithdrawn (id : String) (w w' : World) : Type 0 where
  pub workspaces : All (λ (x : Workspace). x.id ≢ id) w'.store.workspaces
  pub sessions : get id w'.store.sessions ≡ none
  pub remembered : get id w'.store.active_session_by_workspace ≡ none
  pub swept : IsSwept (sessions_of w.store id) w'

remove_workspace-IsWithdrawn :
    (now : ℕ) (id : String) (w : World)
    → IsTracked now w
    → IsWithdrawn id w
        (record (cancel_all (sessions_of w.store id) w) { store = remove_workspace id w.store })
unfolding remove_workspace
remove_workspace-IsWithdrawn now id w v = record {
  workspaces =
      All-map (filter (λ (x : Workspace). not (is x.id id)) w.store.workspaces)
        (λ x k. ground arith) (All-test (λ (x : Workspace). not (is x.id id)) w.store.workspaces);
  sessions = get-delete_self id w.store.sessions;
  remembered = get-delete_self id w.store.active_session_by_workspace;
  swept = record {
    unmarked = delete_all-All (sessions_of w.store id) w.store.session_activity;
    untoasted = drop_removed-All (sessions_of w.store id) w.store.toasts;
    idle = (cancel_all-All (sessions_of w.store id) w).0;
    unscheduled = (cancel_all-All (sessions_of w.store id) w).1;
    silent =
        All-map (sessions_of w.store id)
          (λ (x : Session) e.
            unscheduled-silent now x.id (cancel_all (sessions_of w.store id) w)
              (cancel_all-IsTracked now (sessions_of w.store id) w v) e)
          (cancel_all-All (sessions_of w.store id) w).1;
  };
}

-- Where the books of the bursts agree, as they do after any steps of the page: when the server has deleted a
-- workspace, the store lists neither it nor its sessions, remembers no session for it, and has swept the
-- marks, toasts, bursts and timeouts on record of all its sessions; nor has the browser a timeout pending for
-- any of them.
pub delete_workspace-IsWithdrawn :
    (api : Api) (now : ℕ) (id : String) (w : World) {w' : World}
    → IsTracked now w
    → delete_workspace api id w ≡ some w'
    → IsWithdrawn id w w'
unfolding delete_workspace
delete_workspace-IsWithdrawn api now id w {w'} v e = elim (Option-cases (api.delete_workspace id)) [
  | inl q ↦ absurd (ground arith)
  | inr (u, q) ↦ subst (IsWithdrawn id w) (ground arith) (remove_workspace-IsWithdrawn now id w v)
]
