-- ===== src/View/Sidebar/Frame.antt =====
-- The head, the foot and the menu of the sidebar: frontend/src/components/Sidebar/Sidebar.tsx.
use Prim.Native.String.{◌++◌ as ◌<>◌}
use loci_terminal.Common.{String, Bool, List, [], ◌∷◌, Option, none, some, length, ltb}
use loci_terminal.Store.State.{AppState}
use loci_terminal.Store.Activity.{decimal}
use loci_terminal.Theme.Colors.{ThemeMode, system, light, dark, UiColors}
use loci_terminal.View.Html.{Html, element, text, attr, style, on, nodes, when}
use loci_terminal.View.Sidebar.{
  ContextMenu, SideAction, opens_form, closes_drawer, cycles, renames, deletes, tints,
}

-- `themeIcon` and `themeLabel`
abbrev pub theme_icon : ThemeMode → String
theme_icon system = "🖥"
theme_icon light = "☀"
theme_icon dark = "☾"

abbrev pub theme_label : ThemeMode → String
theme_label system = "System"
theme_label light = "Light"
theme_label dark = "Dark"

abbrev pub header_button :
    String → String → String → String → SideAction → UiColors → Html SideAction
header_button padding title label sign a ui =
    element "button"
      (on "onClick" a
        ∷ style (
            ("background", "none")
            ∷ ("border", "none")
            ∷ ("color", ui.text_secondary)
            ∷ ("cursor", "pointer")
            ∷ ("fontSize", "18px")
            ∷ ("padding", padding)
            ∷ ("lineHeight", "1")
            ∷ ("minHeight", "28")
            ∷ ("minWidth", "28")
            ∷ [])
        ∷ attr "title" title
        ∷ attr "aria-label" label
        ∷ [])
      (nodes (text sign ∷ []))

-- `drawer` says that there is an `onCloseMobile`.
abbrev pub header : UiColors → Bool → Html SideAction
header ui drawer =
    element "div"
      (style (
          ("padding", "12px 16px")
          ∷ ("fontSize", "11px")
          ∷ ("fontWeight", "600")
          ∷ ("letterSpacing", "0.5px")
          ∷ ("textTransform", "uppercase")
          ∷ ("color", ui.text_muted)
          ∷ ("borderBottom", ("1px solid " <> ui.sidebar_border))
          ∷ ("display", "flex")
          ∷ ("justifyContent", "space-between")
          ∷ ("alignItems", "center")
          ∷ ("gap", "8")
          ∷ [])
        ∷ [])
      (nodes (
        element "span" [] (nodes (text "Workspaces" ∷ []))
        ∷ element "div"
            (style (("display", "flex") ∷ ("alignItems", "center") ∷ ("gap", "4") ∷ []) ∷ [])
            (nodes (
              header_button "4px 6px" "New Workspace" "New Workspace" "+" opens_form ui
              ∷ when drawer (header_button "4px 8px" "Close" "Close sidebar" "×" closes_drawer ui)))
        ∷ []))

abbrev pub footer : UiColors → ThemeMode → Html SideAction
footer ui mode =
    element "div"
      (style (
          ("padding", "10px 12px")
          ∷ ("borderTop", ("1px solid " <> ui.sidebar_border))
          ∷ ("fontSize", "11px")
          ∷ ("color", ui.text_muted)
          ∷ ("display", "flex")
          ∷ ("alignItems", "center")
          ∷ ("justifyContent", "space-between")
          ∷ ("gap", "8")
          ∷ [])
        ∷ [])
      (nodes (
        element "span"
          (style (
              ("overflow", "hidden") ∷ ("textOverflow", "ellipsis") ∷ ("whiteSpace", "nowrap") ∷ [])
            ∷ [])
          (nodes (text "LociTerm" ∷ []))
        ∷ element "button"
            (on "onClick" cycles
              ∷ style (
                  ("background", "transparent")
                  ∷ ("border", ("1px solid " <> ui.sidebar_border))
                  ∷ ("borderRadius", "4")
                  ∷ ("color", ui.text_secondary)
                  ∷ ("cursor", "pointer")
                  ∷ ("fontFamily", "inherit")
                  ∷ ("fontSize", "11")
                  ∷ ("padding", "4px 8px")
                  ∷ ("display", "flex")
                  ∷ ("alignItems", "center")
                  ∷ ("gap", "6")
                  ∷ ("minHeight", "28")
                  ∷ [])
              ∷ attr "title" ("Theme: " <> theme_label mode <> " (click to change)")
              ∷ attr "aria-label" ("Theme: " <> theme_label mode <> ", click to change")
              ∷ [])
            (nodes (
              element "span" (attr "aria-hidden" "true" ∷ []) (nodes (text (theme_icon mode) ∷ []))
              ∷ element "span" [] (nodes (text (theme_label mode) ∷ []))
              ∷ []))
        ∷ []))

abbrev pub menu_item : UiColors → String → SideAction → String → Html SideAction
menu_item ui colour a label =
    element "button"
      (on "onClick" a
        ∷ style (
            ("display", "block")
            ∷ ("width", "100%")
            ∷ ("padding", "8px 12px")
            ∷ ("background", "none")
            ∷ ("border", "none")
            ∷ ("color", colour)
            ∷ ("cursor", "pointer")
            ∷ ("textAlign", "left")
            ∷ ("fontFamily", "inherit")
            ∷ ("fontSize", "inherit")
            ∷ [])
        ∷ on "onMouseEnter" (tints ui.hover_bg)
        ∷ on "onMouseLeave" (tints "transparent")
        ∷ [])
      (nodes (text label ∷ []))

-- `several` says that there is more than one workspace.
abbrev pub menu_box : UiColors → Bool → ContextMenu → Html SideAction
menu_box ui several menu =
    element "div"
      (style (
          ("position", "fixed")
          ∷ ("left", decimal menu.x)
          ∷ ("top", decimal menu.y)
          ∷ ("backgroundColor", ui.tab_active_bg)
          ∷ ("border", ("1px solid " <> ui.sidebar_border))
          ∷ ("zIndex", "1000")
          ∷ ("minWidth", "140px")
          ∷ ("fontFamily", "'JetBrains Mono', monospace")
          ∷ ("fontSize", "12px")
          ∷ [])
        ∷ [])
      (nodes (
        menu_item ui ui.text_primary (renames menu.workspace_id) "Rename"
        ∷ when several (menu_item ui ui.danger (deletes menu.workspace_id) "Delete")))

abbrev pub open_menu : UiColors → AppState → Option ContextMenu → List (Html SideAction)
open_menu ui s none = []
open_menu ui s (some menu) = menu_box ui (ltb 1 (length s.workspaces)) menu ∷ []
