-- ===== src/View/Served/Panel.antt =====
-- What the sidebar of frontend/src/components/Sidebar/Sidebar.tsx offers, at a store that mirrors the server.
use loci_terminal.Common.{
  ℕ, ◌≡◌, refl, sym, ap, ◌∙◌, inl, inr, String, Bool, true, false, Option, none, some, get_or, ltb,
  length, is, Bool-cases, if◌then◌else◌,
}
use loci_terminal.Store.State.{World, on_store}
use loci_terminal.Store.Api.{Api}
use loci_terminal.Store.Workspaces.{create_workspace, rename_workspace}
use loci_terminal.Store.Steps.{Call, resume}
use loci_terminal.Store.Mirror.Ids.{has, workspace_ids}
use loci_terminal.Store.Mirror.{Server, IsServer, IsMirror}
use loci_terminal.Store.Mirror.Serve.{Run}
use loci_terminal.Store.Mirror.Run.{Run-IsMirror}
use loci_terminal.Theme.Colors.{ThemeMode, UiColors}
use loci_terminal.View.Html.{Offers, All-Offers, actions}
use loci_terminal.View.Trim.{trim}
use loci_terminal.View.Sidebar as Side
use loci_terminal.View.Sidebar.{
  Desk, Input, SideAction, run_side, handle_create, handle_rename, form_done, stop_editing,
}
use loci_terminal.View.Sidebar.Draw.{sidebar}
use loci_terminal.View.Sidebar.Menu.{Needs, sidebar-All-Needs}
use loci_terminal.View.Controls.{after-world}
use loci_terminal.View.Served.{
  rename_call, create_call, side_call, served, resumed, Sane, served-Run,
}

-- A world after a call that ends at once, if there is one.
abbrev called : Api → Option Call → World → World
called api none w = w
called api (some c) w = get_or (resume api c w.store w) w

module _ (api : Api) (d : Desk) where
  create-called : (handle_create api d).world ≡ called api (create_call d) d.world
  unfolding handle_create resume
  create-called = elim (Bool-cases (is (trim d.panel.new_name) "")) [
    | inl e ↦ rw e refl
    | inr e ↦
        rw e (
          after-world form_done (on_store (create_workspace api (trim d.panel.new_name)) d.world) d)
  ]

  rename-called :
      (id : String) → (handle_rename api id d).world ≡ called api (rename_call id d) d.world
  unfolding handle_rename resume
  rename-called id = elim (Bool-cases (is (trim d.panel.edit_name) "")) [
    | inl e ↦ rw e refl
    | inr e ↦ rw e (
        after-world stop_editing
          (on_store (rename_workspace api id (trim d.panel.edit_name)) d.world) d)
  ]

  -- A handler makes its call, and no other, of the store.
  run_side-called :
      (e : Input) (a : SideAction)
      → (run_side api e a d).world ≡ called api (side_call e a d) d.world
  unfolding run_side resume
  run_side-called e Side.opens_form = refl
  run_side-called e Side.closes_drawer = refl
  run_side-called e Side.stops = refl
  run_side-called e (Side.shows id) = refl
  run_side-called e (Side.opens_context id) = refl
  run_side-called e Side.types_edit = refl
  run_side-called e (Side.leaves_edit id) = rename-called id
  run_side-called e (Side.presses_edit id) = elim (Bool-cases (is e.key "Enter")) [
    | inl k ↦ elim (Bool-cases (is e.key "Escape")) [
      | inl q ↦ rw (k, q) (rename-called id)
      | inr q ↦ rw (k, q) (rename-called id)
    ]
    | inr k ↦ elim (Bool-cases (is e.key "Escape")) [
      | inl q ↦ rw (k, q) refl
      | inr q ↦ rw (k, q) refl
    ]
  ]
  run_side-called e (Side.starts_rename id name) = refl
  run_side-called e Side.types_new = refl
  run_side-called e Side.presses_new = elim (Bool-cases (is e.key "Enter")) [
    | inl k ↦ elim (Bool-cases (is e.key "Escape")) [
      | inl q ↦ rw (k, q) create-called
      | inr q ↦ rw (k, q) create-called
    ]
    | inr k ↦ elim (Bool-cases (is e.key "Escape")) [
      | inl q ↦ rw (k, q) refl
      | inr q ↦ rw (k, q) refl
    ]
  ]
  run_side-called e Side.leaves_new = elim (Bool-cases (is (trim d.panel.new_name) "")) [
    | inl k ↦ rw k refl
    | inr k ↦ rw k refl
  ]
  run_side-called e Side.cycles = refl
  run_side-called e (Side.renames id) = refl
  run_side-called e (Side.deletes id) = refl
  run_side-called e (Side.tints colour) = refl

module _ {S : Type 0} (v : Server S) (laws : IsServer v) where
  called-resumed :
      (o : Option Call) (z : S) (w : World) → called (served v o z).0 o w ≡ resumed v o z w
  called-resumed none z w = refl
  called-resumed (some c) z w = refl

  module _ (z : S) (d : Desk) (m : IsMirror v z d.world.store) where
    abbrev Fine : Option Call → Type 0
    Fine = Sane v z d.world.store

    rename-Sane :
        (id : String)
        → has id (workspace_ids d.world.store.workspaces) ≡ true
        → Fine (rename_call id d)
    rename-Sane id h = elim (Bool-cases (is (trim d.panel.edit_name) "")) [
      | inl e ↦ rw e tt
      | inr e ↦ rw e (ap (has id) (sym m.workspaces) ∙ h)
    ]

    create-Sane : Fine (create_call d)
    create-Sane = elim (Bool-cases (is (trim d.panel.new_name) "")) [
      | inl e ↦ rw e tt
      | inr e ↦ rw e tt
    ]

    if-Fine : (b : Bool) (o : Option Call) → Fine o → Fine (if b then o else none)
    if-Fine true o h = h
    if-Fine false o h = tt

    Needs-Sane :
        (several : Bool) (e : Input) (a : SideAction)
        → Needs (workspace_ids d.world.store.workspaces) several a
        → Fine (side_call e a d)
    Needs-Sane several e (Side.shows id) n = ap (has id) (sym m.workspaces) ∙ n
    Needs-Sane several e (Side.deletes id) n = tt
    Needs-Sane several e (Side.leaves_edit id) n = rename-Sane id n
    Needs-Sane several e (Side.presses_edit id) n =
        if-Fine (is e.key "Enter") (rename_call id d) (rename-Sane id n)
    Needs-Sane several e Side.presses_new n = if-Fine (is e.key "Enter") (create_call d) create-Sane
    Needs-Sane several e _ n = tt

  -- A control that the sidebar offers, worked with the server behind it.
  pub side-Run :
      (now : ℕ) (z : S) (d : Desk) (ui : UiColors) (mode : ThemeMode) (drawer : Bool) (e : Input)
      (a : SideAction)
      → Run v now z d.world
      → Offers a (actions (sidebar ui mode drawer d))
      → let (api, z') = served v (side_call e a d) z in Run v now z' (run_side api e a d).world
  side-Run now z d ui mode drawer e a r offered =
      let (t, m, ends) = Run-IsMirror v laws r in
      let ws = d.world.store.workspaces in
      let several = ltb 1 (length ws) in
      let n =
        All-Offers (Needs (workspace_ids ws) several) (actions (sidebar ui mode drawer d))
          (sidebar-All-Needs ui mode drawer d) offered in
      let o = side_call e a d in
      rw (run_side-called (served v o z).0 d e a ∙ called-resumed o z d.world)
        (served-Run v laws now o z d.world r (Needs-Sane z d m several e a n))
