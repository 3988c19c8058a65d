-- ===== src/View/Sidebar/Draw.antt =====
-- What the sidebar draws: the tree that frontend/src/components/Sidebar/Sidebar.tsx returns.
use Prim.Native.String.{◌++◌ as ◌<>◌}
use loci_terminal.Common.{Bool, [], ◌∷◌}
use loci_terminal.Theme.Colors.{ThemeMode, UiColors}
use loci_terminal.View.Html.{Html, element, style, nodes}
use loci_terminal.View.Sidebar.{Desk, SideAction}
use loci_terminal.View.Sidebar.Rows.{workspace_rows}
use loci_terminal.View.Sidebar.Frame.{header, footer, open_menu}

-- `Sidebar`
unfoldable pub sidebar : UiColors → ThemeMode → Bool → Desk → Html SideAction
sidebar ui mode drawer d =
    let s = d.world.store in
    element "div"
      (style (
          ("width", "100%")
          ∷ ("height", "100%")
          ∷ ("backgroundColor", ui.sidebar_bg)
          ∷ ("borderRight", ("1px solid " <> ui.sidebar_border))
          ∷ ("display", "flex")
          ∷ ("flexDirection", "column")
          ∷ ("fontFamily", "'JetBrains Mono', monospace")
          ∷ [])
        ∷ [])
      (nodes (
        header ui drawer
        ∷ workspace_rows ui d.panel s
        ∷ footer ui mode
        ∷ open_menu ui s d.panel.context_menu))
