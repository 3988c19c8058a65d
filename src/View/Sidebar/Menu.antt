-- ===== src/View/Sidebar/Menu.antt =====
-- What the menu of the sidebar in frontend/src/components/Sidebar/Sidebar.tsx can do to the workspaces.
use loci_terminal.Common.{
  ◌<◌, ◌≤◌, ◌≡◌, refl, ◌⊎◌, inl, inr, String, Bool, true, false, not, List, [], ◌∷◌, map, Option,
  none, some, length, filter, ltb, is, All, All-++, arith, Bool-cases, Option-cases, get_or,
}
use loci_terminal.Store.State.{Workspace, AppState, World, is_option}
use loci_terminal.Store.Api.{Api}
use loci_terminal.Store.Workspaces.{delete_workspace, remove_workspace}
use loci_terminal.Store.Mirror.Ids.{has, workspace_ids, All-has}
use loci_terminal.Theme.Colors.{ThemeMode, UiColors}
use loci_terminal.View.Html.{Offers, All-Offers, actions, actions_all, nodes, when, actions-nodes}
use loci_terminal.View.Keys.{IsDistinct, length-without}
use loci_terminal.View.Sidebar.{
  ContextMenu, Panel, Desk, Input, SideAction, deletes, shows, leaves_edit, presses_edit, run_side,
}
use loci_terminal.View.Sidebar.Draw.{sidebar}
use loci_terminal.View.Sidebar.Frame.{header, open_menu}
use loci_terminal.View.Sidebar.Rows.{
  workspace_rows, workspace_row, cwd_line, shown_cwd, has_unread, new_form, workspace_dot,
}

-- Deleting is offered only where there are several workspaces; the rows are of the workspaces `ids`.
abbrev pub Needs : List String → Bool → SideAction → Type 0
Needs ids several (deletes id) = several ≡ true
Needs ids several (shows id) = has id ids ≡ true
Needs ids several (leaves_edit id) = has id ids ≡ true
Needs ids several (presses_edit id) = has id ids ≡ true
Needs ids several _ = Unit

module _ (ui : UiColors) (ids : List String) (several : Bool) where
  abbrev pub All-Needs : List (String × SideAction) → Type 0
  All-Needs = All (λ e. Needs ids several e.1)

  cwd_line-All-Needs : (o : Option String) → All-Needs (actions_all (nodes (cwd_line ui o)))
  unfolding actions
  cwd_line-All-Needs none = tt
  cwd_line-All-Needs (some cwd) = tt

  dot-All-Needs : (b : Bool) → All-Needs (actions_all (nodes (when b (workspace_dot ui))))
  unfolding actions
  dot-All-Needs true = tt
  dot-All-Needs false = tt

  row-All-Needs :
      (p : Panel) (s : AppState) (ws : Workspace)
      → has ws.id ids ≡ true
      → All-Needs (actions (workspace_row ui p s ws))
  unfolding actions
  row-All-Needs p s ws h =
      let dot = dot-All-Needs (has_unread s ws.id) in
      elim (Bool-cases (is_option p.editing_id ws.id)) [
        | inl e ↦ rw e (h, (tt, (tt, (h, (h, (tt, dot))))))
        | inr e ↦ rw e (
          h,
          (
            tt,
            (
              tt,
              All-++ (λ e. Needs ids several e.1)
                  (actions_all (nodes (cwd_line ui (shown_cwd s ws.id)))) _
                  (cwd_line-All-Needs (shown_cwd s ws.id)) dot,
            ),
          ),
        )
      ]

  rows-All-Needs :
      (p : Panel) (s : AppState) (xs : List Workspace)
      → All (λ (x : Workspace). has x.id ids ≡ true) xs
      → All-Needs (actions_all (nodes (map (workspace_row ui p s) xs)))
  unfolding actions
  rows-All-Needs p s [] h = tt
  rows-All-Needs p s (x ∷ xs) h =
      All-++ (λ e. Needs ids several e.1) (actions (workspace_row ui p s x)) _
        (row-All-Needs p s x h.0) (rows-All-Needs p s xs h.1)

  header-All-Needs : (drawer : Bool) → All-Needs (actions (header ui drawer))
  unfolding actions
  header-All-Needs true = (tt, (tt, tt))
  header-All-Needs false = (tt, tt)

  form-All-Needs :
      (b : Bool) (name : String) → All-Needs (actions_all (nodes (when b (new_form ui name))))
  unfolding actions
  form-All-Needs true name = (tt, (tt, (tt, tt)))
  form-All-Needs false name = tt

menu-All-Needs :
    (ui : UiColors) (ids : List String) (s : AppState) (o : Option ContextMenu)
    → All-Needs ui ids (ltb 1 (length s.workspaces)) (actions_all (nodes (open_menu ui s o)))
unfolding actions
menu-All-Needs ui ids s none = tt
menu-All-Needs ui ids s (some menu) = elim (Bool-cases (ltb 1 (length s.workspaces))) [
  | inl e ↦ rw (e) (tt, (tt, (tt, (e, (tt, (tt, tt))))))
  | inr e ↦ rw (e) (tt, (tt, (tt, tt)))
]

pub sidebar-All-Needs :
    (ui : UiColors) (mode : ThemeMode) (drawer : Bool) (d : Desk)
    → let ws = d.world.store.workspaces in
      All-Needs ui (workspace_ids ws) (ltb 1 (length ws)) (actions (sidebar ui mode drawer d))
unfolding actions sidebar
sidebar-All-Needs ui mode drawer d =
    let s = d.world.store in
    let several = ltb 1 (length s.workspaces) in
    let ids = workspace_ids s.workspaces in
    let P = λ (e : String × SideAction). Needs ids several e.1 in
    let form = when d.panel.creating (new_form ui d.panel.new_name) in
    All-++ P (actions (header ui drawer)) _ (header-All-Needs ui ids several drawer) (
      All-++ P (actions (workspace_rows ui d.panel s)) _
        (actions-nodes P (map (workspace_row ui d.panel s) s.workspaces) form
          (rows-All-Needs ui ids several d.panel s s.workspaces
            (All-has (λ (x : Workspace). x.id) s.workspaces))
          (form-All-Needs ui ids several d.panel.creating d.panel.new_name))
        (tt, menu-All-Needs ui ids s d.panel.context_menu))

workspaces-remove :
    (api : Api) (id : String) (w : World)
    → ((get_or (delete_workspace api id w) w).store.workspaces ≡ w.store.workspaces)
      ⊎ ((get_or (delete_workspace api id w) w).store.workspaces
          ≡ filter (λ (x : Workspace). not (is x.id id)) w.store.workspaces)
unfolding delete_workspace remove_workspace
workspaces-remove api id w = elim (Option-cases (api.delete_workspace id)) [
  | inl e ↦ inl (rw e refl)
  | inr (u, e) ↦ inr (rw e refl)
]

-- The sidebar is drawn, and offers to delete a workspace; the server answers the call in any later world in which
-- no two workspaces have one id, and which has at least as many of them as the sidebar has shown: then, whether the
-- server accepts the deletion or not, a workspace is left, and the menu is closed.
pub deletion_leaves_workspace :
    (api : Api) (ui : UiColors) (mode : ThemeMode) (drawer : Bool) (e : Input) (id : String)
    (d : Desk) (w : World)
    → Offers (deletes id) (actions (sidebar ui mode drawer d))
    → IsDistinct (λ (x : Workspace). x.id) w.store.workspaces
    → length d.world.store.workspaces ≤ length w.store.workspaces
    → let d' = run_side api e (deletes id) (record d { world = w }) in
      (0 < length d'.world.store.workspaces) × (d'.panel.context_menu ≡ none)
unfolding run_side
deletion_leaves_workspace api ui mode drawer e id d w offered distinct le =
    let several = ltb 1 (length d.world.store.workspaces) in
    let many : several ≡ true =
      All-Offers (Needs (workspace_ids d.world.store.workspaces) several)
        (actions (sidebar ui mode drawer d)) (sidebar-All-Needs ui mode drawer d) offered in
    let few = length-without (λ (x : Workspace). x.id) id w.store.workspaces distinct in
    (
      elim (workspaces-remove api id w) [
        | inl q ↦ rw q (ground arith)
        | inr q ↦ rw q (ground arith)
      ],
      refl,
    )
