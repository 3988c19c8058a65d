-- ===== src/View/Sidebar/Dots.antt =====
-- Which workspaces the sidebar of frontend/src/components/Sidebar/Sidebar.tsx marks as unread, against the
-- store's `workspaceUnread`.
use loci_terminal.Common.{
  ◌≡◌, refl, inl, inr, String, Bool, true, false, ◌&&◌, not, List, [], ◌∷◌, map, Option, none, some,
  length, filter, ltb, if◌then◌else◌, any, arith, str_dec, Bool-cases, Option-cases,
}
use loci_terminal.Dict.{get}
use loci_terminal.Store.State.{
  Workspace, Session, AppState, is_option, session_unread, workspace_unread, any_unread,
}
use loci_terminal.Store.Sessions.{sessions_of}
use loci_terminal.Theme.Colors.{ThemeMode, system, light, dark, UiColors}
use loci_terminal.View.Html.{labelled, labelled_all, labelled-nodes, nodes, when}
use loci_terminal.View.Sidebar.{ContextMenu, Panel, Desk}
use loci_terminal.View.Sidebar.Draw.{sidebar}
use loci_terminal.View.Sidebar.Frame.{header, footer, open_menu}
use loci_terminal.View.Sidebar.Rows.{
  workspace_row, cwd_line, shown_cwd, has_unread, new_form, workspace_dot,
}

any-session_unread :
    (s : AppState) (xs : List Session)
    → any (λ (x : Session). session_unread s x.id) xs ≡ any_unread s xs
unfolding any_unread
any-session_unread s [] = refl
any-session_unread s (x ∷ xs) = elim (Bool-cases (session_unread s x.id)) [
  | inl e ↦ rw (e, any_unread) refl
  | inr e ↦ rw (e, any_unread) (any-session_unread s xs)
]

any-workspace_unread :
    (s : AppState) (wid : String)
    → any (λ (x : Session). session_unread s x.id) (sessions_of s wid) ≡ workspace_unread s wid
unfolding workspace_unread
any-workspace_unread s wid = elim (Option-cases (get wid s.sessions)) [
  | inl e ↦ rw (e, workspace_unread) refl
  | inr (xs, e) ↦ rw (e, workspace_unread) (any-session_unread s xs)
]

-- Another workspace than the active one, with unread output.
abbrev pub asks : AppState → Workspace → Bool
asks s ws = not (is_option s.active_workspace_id ws.id) && workspace_unread s ws.id

cwd_line-labelled :
    (ui : UiColors) (o : Option String) → labelled_all "unread output" (nodes (cwd_line ui o)) ≡ 0
unfolding labelled str_dec Bool-cases
cwd_line-labelled ui none = refl
cwd_line-labelled ui (some cwd) = refl

dot-labelled :
    (ui : UiColors) (b : Bool)
    → labelled_all "unread output" (nodes (when b (workspace_dot ui))) ≡ (if b then 1 else 0)
unfolding labelled str_dec Bool-cases
dot-labelled ui true = refl
dot-labelled ui false = refl

row-labelled :
    (ui : UiColors) (p : Panel) (s : AppState) (ws : Workspace)
    → labelled "unread output" (workspace_row ui p s ws) ≡ (if asks s ws then 1 else 0)
unfolding labelled str_dec Bool-cases
row-labelled ui p s ws = elim (Bool-cases (is_option p.editing_id ws.id)) [
  | inl e ↦ rw (e, dot-labelled ui (has_unread s ws.id), any-workspace_unread s ws.id) (omega arith)
  | inr e ↦
      rw
        (
          e,
          cwd_line-labelled ui (shown_cwd s ws.id),
          dot-labelled ui (has_unread s ws.id),
          any-workspace_unread s ws.id,
        )
        (omega arith)
]

rows-labelled :
    (ui : UiColors) (p : Panel) (s : AppState) (xs : List Workspace)
    → labelled_all "unread output" (nodes (map (workspace_row ui p s) xs))
      ≡ length (filter (asks s) xs)
unfolding labelled
rows-labelled ui p s [] = refl
rows-labelled ui p s (x ∷ xs) = elim (Bool-cases (asks s x)) [
  | inl e ↦ ground (arith, row-labelled ui p s x, rows-labelled ui p s xs)
  | inr e ↦ ground (arith, row-labelled ui p s x, rows-labelled ui p s xs)
]

header-labelled : (ui : UiColors) (drawer : Bool) → labelled "unread output" (header ui drawer) ≡ 0
unfolding labelled str_dec Bool-cases
header-labelled ui true = refl
header-labelled ui false = refl

form-labelled :
    (ui : UiColors) (b : Bool) (name : String)
    → labelled_all "unread output" (nodes (when b (new_form ui name))) ≡ 0
unfolding labelled str_dec Bool-cases
form-labelled ui true name = refl
form-labelled ui false name = refl

footer-labelled : (ui : UiColors) (mode : ThemeMode) → labelled "unread output" (footer ui mode) ≡ 0
unfolding labelled str_dec Bool-cases
footer-labelled ui system = refl
footer-labelled ui light = refl
footer-labelled ui dark = refl

menu-labelled :
    (ui : UiColors) (s : AppState) (o : Option ContextMenu)
    → labelled_all "unread output" (nodes (open_menu ui s o)) ≡ 0
unfolding labelled str_dec Bool-cases
menu-labelled ui s none = refl
menu-labelled ui s (some menu) = elim (Bool-cases (ltb 1 (length s.workspaces))) [
  | inl e ↦ rw e refl
  | inr e ↦ rw e refl
]

-- The sidebar draws as many dots as there are workspaces, beside the active one, in which the store's
-- `workspaceUnread` finds unread output, whatever form, field or menu is open.
pub sidebar-labelled :
    (ui : UiColors) (mode : ThemeMode) (drawer : Bool) (d : Desk)
    → labelled "unread output" (sidebar ui mode drawer d)
      ≡ length (filter (asks d.world.store) d.world.store.workspaces)
unfolding labelled sidebar str_dec Bool-cases
sidebar-labelled ui mode drawer d =
    let s = d.world.store in
    let form = when d.panel.creating (new_form ui d.panel.new_name) in
    let together =
      labelled-nodes "unread output" (map (workspace_row ui d.panel s) s.workspaces) form in
    let drawn = rows-labelled ui d.panel s s.workspaces in
    let top = header-labelled ui drawer in
    let new = form-labelled ui d.panel.creating d.panel.new_name in
    let bottom = footer-labelled ui mode in
    let menu = menu-labelled ui s d.panel.context_menu in omega arith
