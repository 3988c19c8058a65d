-- ===== src/View/Sidebar.antt =====
-- The sidebar, frontend/src/components/Sidebar/Sidebar.tsx: its own state and what its handlers do. What it
-- draws is in the child modules Draw, Frame and Rows.
pub mod Draw
pub mod Frame
pub mod Rows
pub mod Menu
pub mod Dots
pub mod Names
use loci_terminal.Common.{
  String, Bool, true, false, Option, none, some, find, get_or, is, if◌then◌else◌, ℕ,
}
use loci_terminal.Store.State.{Workspace, World, on_store}
use loci_terminal.Store.Api.{Api}
use loci_terminal.Store.Workspaces.{
  create_workspace, rename_workspace, delete_workspace, set_active_workspace,
}
use loci_terminal.Theme.Mode.{Page, cycle_mode}
use loci_terminal.View.Trim.{trim}

pub record ContextMenu : Type 0 where
  pub workspace_id : String
  pub x : ℕ
  pub y : ℕ

-- What the component holds with `useState`.
pub record Panel : Type 0 where
  pub creating : Bool
  pub new_name : String
  pub editing_id : Option String
  pub edit_name : String
  pub context_menu : Option ContextMenu

abbrev pub initial_panel : Panel
initial_panel = record {
  creating = false;
  new_name = "";
  editing_id = none;
  edit_name = "";
  context_menu = none;
}

-- The component with the two stores that its handlers write.
pub record Desk : Type 0 where
  pub panel : Panel
  pub world : World
  pub theme : Page

-- What a handler reads of its event: the value of the field, the key, or the place of the pointer.
pub record Input : Type 0 where
  pub value : String
  pub key : String
  pub client_x : ℕ
  pub client_y : ℕ

abbrev pub on_panel : (Panel → Panel) → Desk → Desk
on_panel f d = record d { panel = f d.panel }

-- What the component writes after `createWorkspace` and after `renameWorkspace` have ended.
abbrev pub form_done : Panel → Panel
form_done p = record p { new_name = ""; creating = false }

abbrev pub stop_editing : Panel → Panel
stop_editing p = record p { editing_id = none }

-- A call of the store whose promise rejects leaves the world as it is; one that is awaited ends its
-- handler there.
abbrev pub after : (Panel → Panel) → Option World → Desk → Desk
after f none d = d
after f (some w) d = record d { panel = f d.panel; world = w }

module _ (api : Api) where
  -- `handleCreate`
  unfoldable pub handle_create : Desk → Desk
  handle_create d =
      let name = trim d.panel.new_name in
      if is name "" then d else after form_done (on_store (create_workspace api name) d.world) d

  -- `handleRename`
  unfoldable pub handle_rename : String → Desk → Desk
  handle_rename id d =
      let name = trim d.panel.edit_name in
      if is name ""
      then on_panel stop_editing d
      else after stop_editing (on_store (rename_workspace api id name) d.world) d

-- `startRename`
unfoldable pub start_rename : String → String → Panel → Panel
start_rename id name p = record p { context_menu = none; editing_id = some id; edit_name = name }

-- `handleContextMenu`
unfoldable pub handle_context_menu : Input → String → Panel → Panel
handle_context_menu e id p = record p {
  context_menu = some (record { workspace_id = id; x = e.client_x; y = e.client_y });
}

-- `handleClick` on the document: the menu is mounted while there is one; `inside` says that it contains
-- the target.
unfoldable pub handle_click : Bool → Panel → Panel
handle_click inside p = elim p.context_menu [
  | none ↦ p
  | some menu ↦ if inside then p else record p { context_menu = none }
]

-- The handlers by the controls that carry them.
pub data SideAction : Type 0 where
  opens_form closes_drawer stops types_edit types_new presses_new leaves_new cycles : SideAction
  shows opens_context leaves_edit presses_edit renames deletes tints : String → SideAction
  starts_rename : String → String → SideAction

-- Escape in the form for a new workspace.
abbrev pub close_form : Panel → Panel
close_form p = record p { creating = false; new_name = "" }

-- The workspace that the menu names, if it is still there, is renamed.
abbrev pub rename_found : Option Workspace → Panel → Panel
rename_found none p = p
rename_found (some ws) p = start_rename ws.id ws.name p

-- A call of the store is answered in the world of the desk, which may have gone on since the sidebar was drawn: of
-- each `async` method this is the part after its `await`, and `shows` looks for the list in that world too. The
-- panel is the one of the event, and what is typed while a call is waited for is left out. Deleting closes the menu at
-- once, and nothing of the panel depends on its answer. `closes_drawer` calls the page, `stops` only keeps the event from the row, and `tints` writes the
-- colour of the button itself.
unfoldable pub run_side : Api → Input → SideAction → Desk → Desk
run_side api e opens_form d = on_panel (λ p. record p { creating = true }) d
run_side api e closes_drawer d = d
run_side api e stops d = d
run_side api e (shows id) d = record d {
  world = get_or (set_active_workspace api id d.world.store d.world) d.world;
}
run_side api e (opens_context id) d = on_panel (handle_context_menu e id) d
run_side api e types_edit d = on_panel (λ p. record p { edit_name = e.value }) d
run_side api e (leaves_edit id) d = handle_rename api id d
run_side api e (presses_edit id) d =
    let renamed = if is e.key "Enter" then handle_rename api id d else d in
    if is e.key "Escape" then on_panel stop_editing renamed else renamed
run_side api e (starts_rename id name) d = on_panel (start_rename id name) d
run_side api e types_new d = on_panel (λ p. record p { new_name = e.value }) d
run_side api e presses_new d =
    let made = if is e.key "Enter" then handle_create api d else d in
    if is e.key "Escape" then on_panel close_form made else made
run_side api e leaves_new d =
    if is (trim d.panel.new_name) "" then on_panel (λ p. record p { creating = false }) d else d
run_side api e cycles d = record d { theme = cycle_mode d.theme }
run_side api e (renames id) d =
    on_panel (rename_found (find (λ (w : Workspace). is w.id id) d.world.store.workspaces)) d
run_side api e (deletes id) d = record d {
  panel = record d.panel { context_menu = none };
  world = get_or (delete_workspace api id d.world) d.world;
}
run_side api e (tints colour) d = d
