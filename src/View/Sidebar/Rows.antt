-- ===== src/View/Sidebar/Rows.antt =====
-- The rows of the sidebar, and its form for a new workspace: frontend/src/components/Sidebar/Sidebar.tsx.
use Prim.Native.String.{◌++◌ as ◌<>◌}
use loci_terminal.Common.{
  String, Bool, ◌&&◌, not, List, [], ◌∷◌, ◌++◌, map, Option, none, some, if◌then◌else◌, truthy, any,
  find, or_else, head?,
}
use loci_terminal.Dict.{get}
use loci_terminal.Store.State.{Workspace, Session, AppState, is_option, session_unread}
use loci_terminal.Store.Sessions.{sessions_of}
use loci_terminal.Theme.Colors.{UiColors}
use loci_terminal.View.Html.{Html, element, text, attr, style, on, nodes, when}
use loci_terminal.View.Sidebar.{
  Panel, SideAction, stops, types_edit, types_new, presses_new, leaves_new, shows, opens_context,
  leaves_edit, presses_edit, starts_rename,
}

-- The directory shown for a workspace: that of its last active session, else of its first.
unfoldable pub shown_cwd : AppState → String → Option String
shown_cwd s wid =
    let sessions = sessions_of s wid in
    elim (or_else
      (find (λ (x : Session). is_option (get wid s.active_session_by_workspace) x.id) sessions)
      (head? sessions)) [ none ↦ none | some x ↦ truthy x.cwd ]

-- `hasUnread`
abbrev pub has_unread : AppState → String → Bool
has_unread s wid =
    not (is_option s.active_workspace_id wid)
    && any (λ (x : Session). session_unread s x.id) (sessions_of s wid)

abbrev pub name_input : UiColors → String → String → Html SideAction
name_input ui wid edit_name =
    element "input"
      (attr "value" edit_name
        ∷ on "onChange" types_edit
        ∷ on "onBlur" (leaves_edit wid)
        ∷ on "onKeyDown" (presses_edit wid)
        ∷ attr "autoFocus" "true"
        ∷ on "onClick" stops
        ∷ style (
            ("background", "transparent")
            ∷ ("border", ("1px solid " <> ui.accent))
            ∷ ("color", ui.text_primary)
            ∷ ("fontSize", "13px")
            ∷ ("fontFamily", "inherit")
            ∷ ("padding", "4px 6px")
            ∷ ("width", "100%")
            ∷ ("outline", "none")
            ∷ [])
        ∷ [])
      (nodes [])

abbrev pub cwd_line : UiColors → Option String → List (Html SideAction)
cwd_line ui none = []
cwd_line ui (some cwd) =
    element "span"
      (style (
          ("fontSize", "11px")
          ∷ ("color", ui.text_muted)
          ∷ ("overflow", "hidden")
          ∷ ("textOverflow", "ellipsis")
          ∷ ("whiteSpace", "nowrap")
          ∷ ("direction", "rtl")
          ∷ ("textAlign", "left")
          ∷ [])
        ∷ attr "title" cwd
        ∷ [])
      (nodes (text cwd ∷ []))
    ∷ []

abbrev pub name_lines : UiColors → AppState → Workspace → Html SideAction
name_lines ui s ws =
    element "div"
      (on "onDoubleClick" (starts_rename ws.id ws.name)
        ∷ style (
            ("flex", "1")
            ∷ ("minWidth", "0")
            ∷ ("display", "flex")
            ∷ ("flexDirection", "column")
            ∷ ("gap", "2")
            ∷ [])
        ∷ attr "title" "Double-click or right-click to rename"
        ∷ [])
      (nodes (
        element "span"
          (style (
              ("overflow", "hidden") ∷ ("textOverflow", "ellipsis") ∷ ("whiteSpace", "nowrap") ∷ [])
            ∷ [])
          (nodes (text ws.name ∷ []))
        ∷ cwd_line ui (shown_cwd s ws.id)))

abbrev pub workspace_dot : UiColors → Html SideAction
workspace_dot ui =
    element "span"
      (attr "aria-label" "unread output"
        ∷ attr "title" "New output in this workspace"
        ∷ style (
            ("width", "6")
            ∷ ("height", "6")
            ∷ ("borderRadius", "50%")
            ∷ ("backgroundColor", ui.accent)
            ∷ ("flexShrink", "0")
            ∷ ("marginLeft", "8")
            ∷ [])
        ∷ [])
      (nodes [])

abbrev pub workspace_row : UiColors → Panel → AppState → Workspace → Html SideAction
workspace_row ui p s ws =
    let shown = is_option s.active_workspace_id ws.id in
    element "div"
      (on "onClick" (shows ws.id)
        ∷ on "onContextMenu" (opens_context ws.id)
        ∷ style (
            ("padding", "10px 16px")
            ∷ ("cursor", "pointer")
            ∷ ("backgroundColor", (if shown then ui.tab_active_bg else "transparent"))
            ∷ ("color", (if shown then ui.text_primary else ui.text_secondary))
            ∷ ("fontSize", "13px")
            ∷ ("display", "flex")
            ∷ ("justifyContent", "space-between")
            ∷ ("alignItems", "center")
            ∷ ("minHeight", "40")
            ∷ [])
        ∷ [])
      (nodes (
        (if is_option p.editing_id ws.id
          then name_input ui ws.id p.edit_name
          else name_lines ui s ws)
        ∷ when (has_unread s ws.id) (workspace_dot ui)))

abbrev pub new_form : UiColors → String → Html SideAction
new_form ui new_name = element "div" (style (("padding", "4px 16px") ∷ []) ∷ []) (
    nodes (
      element "input"
        (attr "value" new_name
          ∷ on "onChange" types_new
          ∷ on "onKeyDown" presses_new
          ∷ on "onBlur" leaves_new
          ∷ attr "autoFocus" "true"
          ∷ attr "placeholder" "Workspace name..."
          ∷ style (
              ("width", "100%")
              ∷ ("background", "transparent")
              ∷ ("border", ("1px solid " <> ui.accent))
              ∷ ("color", ui.text_primary)
              ∷ ("fontSize", "13px")
              ∷ ("fontFamily", "inherit")
              ∷ ("padding", "8px 10px")
              ∷ ("outline", "none")
              ∷ ("boxSizing", "border-box")
              ∷ [])
          ∷ [])
        (nodes [])
      ∷ []))

abbrev pub workspace_rows : UiColors → Panel → AppState → Html SideAction
workspace_rows ui p s =
    element "div" (style (("flex", "1") ∷ ("overflow", "auto") ∷ ("padding", "4px 0") ∷ []) ∷ [])
      (nodes (map (workspace_row ui p s) s.workspaces ++ when p.creating (new_form ui p.new_name)))
