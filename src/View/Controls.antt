-- ===== src/View/Controls.antt =====
-- The controls of frontend/src/components/Terminal/TabBar.tsx, frontend/src/components/Sidebar/Sidebar.tsx and
-- frontend/src/components/Toast/ToastContainer.tsx together, on one desk, and what they can make of the store.
use loci_terminal.Common.{
  ℕ, ◌≤◌, ◌≡◌, refl, inl, inr, String, Option, none, some, get_or, is, Bool-cases, Option-cases,
  arith,
}
use loci_terminal.Store.State.{World, Toast, initial_world, is_option, on_store}
use loci_terminal.Store.Api.{Api}
use loci_terminal.Store.Clicks.{click_toast, open_toast}
use loci_terminal.Store.Steps.{
  Call, resume, Step, selects, dismisses, answers, Reach, start, next, creates_session,
  deletes_session, creates_workspace, renames_workspace, deletes_workspace, shows_workspace,
}
use loci_terminal.Store.Workspaces.{create_workspace, rename_workspace, set_active_workspace}
use loci_terminal.Store.Steps.Books.{Reach-IsTracked}
use loci_terminal.Store.Tracking.{IsTracked}
use loci_terminal.Store.Toasts.Reach.{IsCalm, Reach-IsCalm}
use loci_terminal.Theme.Mode.{Page}
use loci_terminal.View.TabBar.{TabAction, run_tab}
use loci_terminal.View.TabBar as Tab
use loci_terminal.View.Toasts.{ToastAction, run_toast}
use loci_terminal.View.Toasts as Toasts
use loci_terminal.View.Trim.{trim}
use loci_terminal.View.Sidebar as Side
use loci_terminal.View.Sidebar.{
  Panel, Desk, Input, SideAction, run_side, handle_create, handle_rename, after, form_done,
  on_panel, stop_editing, initial_panel,
}

-- A control that the user works: of the bar, of the sidebar with its event, or of a toast, with the active
-- workspace at the time that it was drawn.
pub data Control : Type 0 where
  on_bar : TabAction → Control
  on_sidebar : Input → SideAction → Control
  on_toast : Option String → ToastAction → Control

abbrev pub with_world : World → Desk → Desk
with_world w d = record d { world = w }

unfoldable pub run_control : Api → Control → Desk → Desk
run_control api (on_bar a) d = with_world (get_or (run_tab api a d.world) d.world) d
run_control api (on_sidebar e a) d = run_side api e a d
run_control api (on_toast drawn a) d = with_world (run_toast api drawn a d.world) d

step-Reach : {now : ℕ} {w w' : World} → Reach now w → Step now w w' → Reach now w'
step-Reach {now} r st = next {now = now} r (omega arith) st

-- A call of the store that ends at once, or rejects.
call-Reach :
    {now : ℕ} {w : World} (api : Api) (call : Call)
    → Reach now w
    → Reach now (get_or (resume api call w.store w) w)
call-Reach {now} {w} api call r = elim (Option-cases (resume api call w.store w)) [
  | inl e ↦ rw e r
  | inr (w', e) ↦ rw e (step-Reach r (answers api call w.store e))
]

pub after-world :
    (f : Panel → Panel) (o : Option World) (d : Desk) → (after f o d).world ≡ get_or o d.world
after-world f none d = refl
after-world f (some w) d = refl

tab-Reach :
    {now : ℕ} {w : World} (api : Api) (a : TabAction)
    → Reach now w
    → Reach now (get_or (run_tab api a w) w)
unfolding run_tab resume
tab-Reach api Tab.opens_menu r = r
tab-Reach api (Tab.selects_tab id) r = step-Reach r (selects id)
tab-Reach api (Tab.closes_tab id) r = call-Reach api (deletes_session id) r
tab-Reach api (Tab.adds_tab wid) r = call-Reach api (creates_session wid none) r

open_toast-Reach : {now : ℕ} {w : World} (t : Toast) → Reach now w → Reach now (open_toast t w)
unfolding open_toast
open_toast-Reach t r = step-Reach (step-Reach r (selects t.session_id)) (dismisses t.id)

toast-Reach :
    {now : ℕ} {w : World} (api : Api) (drawn : Option String) (a : ToastAction)
    → Reach now w
    → Reach now (run_toast api drawn a w)
unfolding run_toast click_toast resume
toast-Reach {w} api drawn (Toasts.opens t) r = elim (Bool-cases (is_option drawn t.workspace_id)) [
  | inl e ↦ rw e (open_toast-Reach t r)
  | inr e ↦ elim (Option-cases (set_active_workspace api t.workspace_id w.store w)) [
    | inl q ↦ rw (e, q) r
    | inr (w', q) ↦
        rw (e, q)
          (open_toast-Reach t
            (step-Reach r (answers api (shows_workspace t.workspace_id) w.store q)))
  ]
]
toast-Reach api drawn (Toasts.dismisses t) r = step-Reach r (dismisses t.id)
toast-Reach api drawn (Toasts.hovers id b) r = r

module _ {now : ℕ} (api : Api) (d : Desk) (r : Reach now d.world) where
  create-Reach : Reach now (handle_create api d).world
  unfolding handle_create resume
  create-Reach = elim (Bool-cases (is (trim d.panel.new_name) "")) [
    | inl e ↦ rw e r
    | inr e ↦
        rw
          (
            handle_create,
            e,
            after-world form_done (on_store (create_workspace api (trim d.panel.new_name)) d.world)
                d,
          )
          (call-Reach api (creates_workspace (trim d.panel.new_name)) r)
  ]

  rename-Reach : (id : String) → Reach now (handle_rename api id d).world
  unfolding handle_rename resume
  rename-Reach id = elim (Bool-cases (is (trim d.panel.edit_name) "")) [
    | inl e ↦ rw e r
    | inr e ↦
        rw
          (
            handle_rename,
            e,
            after-world stop_editing
                (on_store (rename_workspace api id (trim d.panel.edit_name)) d.world) d,
          )
          (call-Reach api (renames_workspace id (trim d.panel.edit_name)) r)
  ]

  side-Reach : (e : Input) (a : SideAction) → Reach now (run_side api e a d).world
  unfolding run_side resume
  side-Reach e Side.opens_form = r
  side-Reach e Side.closes_drawer = r
  side-Reach e Side.stops = r
  side-Reach e (Side.shows id) = call-Reach api (shows_workspace id) r
  side-Reach e (Side.opens_context id) = r
  side-Reach e Side.types_edit = r
  side-Reach e (Side.leaves_edit id) = rename-Reach id
  side-Reach e (Side.presses_edit id) = elim (Bool-cases (is e.key "Enter")) [
    | inl k ↦ elim (Bool-cases (is e.key "Escape")) [
      | inl q ↦ rw (k, q) (rename-Reach id)
      | inr q ↦ rw (k, q) (rename-Reach id)
    ]
    | inr k ↦ elim (Bool-cases (is e.key "Escape")) [ inl q ↦ rw (k, q) r | inr q ↦ rw (k, q) r ]
  ]
  side-Reach e (Side.starts_rename id name) = r
  side-Reach e Side.types_new = r
  side-Reach e Side.presses_new = elim (Bool-cases (is e.key "Enter")) [
    | inl k ↦ elim (Bool-cases (is e.key "Escape")) [
      | inl q ↦ rw (k, q) create-Reach
      | inr q ↦ rw (k, q) create-Reach
    ]
    | inr k ↦ elim (Bool-cases (is e.key "Escape")) [ inl q ↦ rw (k, q) r | inr q ↦ rw (k, q) r ]
  ]
  side-Reach e Side.leaves_new = elim (Bool-cases (is (trim d.panel.new_name) "")) [
    | inl k ↦ rw k r
    | inr k ↦ rw k r
  ]
  side-Reach e Side.cycles = r
  side-Reach e (Side.renames id) = r
  side-Reach e (Side.deletes id) = call-Reach api (deletes_workspace id) r
  side-Reach e (Side.tints colour) = r

control-Reach :
    {now : ℕ} (api : Api) (c : Control) (d : Desk)
    → Reach now d.world
    → Reach now (run_control api c d).world
unfolding run_control
control-Reach api (on_bar a) d r = tab-Reach api a r
control-Reach api (on_sidebar e a) d r = side-Reach api d r e a
control-Reach api (on_toast drawn a) d r = toast-Reach api drawn a r

-- The desk through a use of the page: it opens, the user works a control whose calls end at once, or
-- anything else happens to the store, late answers to earlier calls among it; and the sidebar may write its own
-- state, as it does after such an answer.
pub data Uses : ℕ → Desk → Type 0 where
  opened : (p : Page) → Uses 0 (record { panel = initial_panel; world = initial_world; theme = p })
  works :
      {now : ℕ} {d : Desk} → Uses now d → (api : Api) (c : Control) → Uses now (run_control api c d)
  happens :
      {now later : ℕ} {d : Desk} {w : World}
      → Uses now d
      → now ≤ later
      → Step later d.world w
      → Uses later (with_world w d)
  writes : {now : ℕ} {d : Desk} → Uses now d → (f : Panel → Panel) → Uses now (on_panel f d)

Uses-Reach : {now : ℕ} {d : Desk} → Uses now d → Reach now d.world
Uses-Reach (opened p) = start
Uses-Reach (works {d} u api c) = control-Reach api c d (Uses-Reach u)
Uses-Reach (writes u f) = Uses-Reach u
Uses-Reach (happens u le st) = next (Uses-Reach u) le st

-- However the user works the tab bar, the sidebar and the toasts, whatever the server answers, and whatever
-- else happens to the store between: every toast belongs to an unread session, none has two, there are at most
-- `MAX_TOASTS`, and the pending timeouts are those of the bursts on record.
uses-IsCalm : {now : ℕ} {d : Desk} → Uses now d → IsCalm d.world × IsTracked now d.world
uses-IsCalm u = (Reach-IsCalm (Uses-Reach u), Reach-IsTracked (Uses-Reach u))
