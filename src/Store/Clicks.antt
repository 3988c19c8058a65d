-- ===== src/Store/Clicks.antt =====
-- A click on a toast, in frontend/src/components/Toast/ToastContainer.tsx.
use loci_terminal.Common.{
  ◌∙◌, ◌≡◌, inl, inr, String, false, not, Option, some, is, arith, if◌then◌else◌, All-filter,
  Bool-cases, Option-cases, any, subst,
}
use loci_terminal.Store.State.{AppState, World, Toast, is_option, session_unread}
use loci_terminal.Store.Api.{Api, ◌>>=◌}
use loci_terminal.Store.Activity.{set_active_session, dismiss_toast, select_session}
use loci_terminal.Store.Workspaces.{set_active_workspace}
use loci_terminal.Store.Views.{IsViewed, set_active_session-IsViewed, set_active_workspace-IsShown}

-- The end of `onClick`, after the workspace of the toast is shown.
unfoldable pub open_toast : Toast → World → World
open_toast t w =
    let w' = set_active_session t.session_id w in record w' { store = dismiss_toast t.id w'.store }

-- `onClick` on a toast that was drawn while `drawn` was the active workspace; `before` is the state at
-- the click. No other continuation is taken to run between the two awaited parts.
unfoldable pub click_toast : Api → Toast → Option String → AppState → World → Option World
click_toast api t drawn before w =
    if is_option drawn t.workspace_id
    then some (open_toast t w)
    else set_active_workspace api t.workspace_id before w >>= λ w'. some (open_toast t w')

dismiss_toast-IsViewed :
    (id tid : String) (w : World)
    → IsViewed id w
    → IsViewed id (record w { store = dismiss_toast tid w.store })
unfolding dismiss_toast session_unread
dismiss_toast-IsViewed id tid w v = elim (Bool-cases (any (λ t. is t.id tid) w.store.toasts)) [
  | inl e ↦ rw e (record {
    seen = v.seen;
    untoasted = All-filter (λ t. not (is t.id tid)) w.store.toasts (λ t h k. h) v.untoasted;
    idle = v.idle;
    unscheduled = v.unscheduled;
  })
  | inr e ↦ rw e (record {
    seen = v.seen;
    untoasted = v.untoasted;
    idle = v.idle;
    unscheduled = v.unscheduled;
  })
]

dismiss_toast-active :
    (tid : String) (s : AppState) → (dismiss_toast tid s).active_session_id ≡ s.active_session_id
unfolding dismiss_toast
dismiss_toast-active tid s = ground arith

-- What a click leaves: the session of the toast is the active one, and viewed.
pub record IsOpened (t : Toast) (w : World) : Type 0 where
  pub active : w.store.active_session_id ≡ some t.session_id
  pub viewed : IsViewed t.session_id w

open_toast-IsOpened : (t : Toast) (w : World) → IsOpened t (open_toast t w)
unfolding open_toast
open_toast-IsOpened t w =
    let w' = set_active_session t.session_id w in
    let (active, remembered, viewed) = set_active_session-IsViewed t.session_id w in
    record {
      active = dismiss_toast-active t.id w'.store ∙ active;
      viewed = dismiss_toast-IsViewed t.session_id t.id w' viewed;
    }

open_toast-workspace :
    (t : Toast) (w : World)
    → (open_toast t w).store.active_workspace_id ≡ w.store.active_workspace_id
unfolding open_toast set_active_session select_session dismiss_toast
open_toast-workspace t w = ground arith

-- A click on a toast that completes leaves its session active and viewed, so that no toast of it is
-- left; and where the workspace of the toast was not the one drawn as active, it is the active one then.
pub click_toast-IsOpened :
    (api : Api) (t : Toast) (drawn : Option String) (before : AppState) (w : World) {w' : World}
    → click_toast api t drawn before w ≡ some w'
    → IsOpened t w'
      × (is_option drawn t.workspace_id ≡ false
          → w'.store.active_workspace_id ≡ some t.workspace_id)
unfolding click_toast
click_toast-IsOpened api t drawn before w {w'} e =
    elim (Bool-cases (is_option drawn t.workspace_id)) [
      | inl q ↦ (
        subst (IsOpened t) (ground arith) (open_toast-IsOpened t w),
        (λ f. absurd (ground arith)),
      )
      | inr q ↦ elim (Option-cases (set_active_workspace api t.workspace_id before w)) [
        | inl r ↦ absurd (ground arith)
        | inr (m, r) ↦
            let (list, listed, shown) =
              set_active_workspace-IsShown api t.workspace_id before w r in
            let same : open_toast t m ≡ w' = ground arith in
            (
              subst (IsOpened t) same (open_toast-IsOpened t m),
              (λ f.
                  subst (λ x. x.store.active_workspace_id ≡ some t.workspace_id) same
                    (open_toast-workspace t m ∙ shown.active)),
            )
      ]
    ]
