-- ===== src/View/Page.antt =====
-- What frontend/src/App.tsx draws around the views, with frontend/src/components/Terminal/TerminalPanel.tsx. The
-- trees of the views themselves are children here by their names.
pub mod Pieces
pub mod Places
use Prim.Native.String.{◌++◌ as ◌<>◌}
use loci_terminal.Common.{
  ℕ, String, Bool, true, false, ◌&&◌, not, List, [], ◌∷◌, ◌++◌, Option, none, some, if◌then◌else◌,
}
use loci_terminal.Store.Activity.{decimal}
use loci_terminal.App.{
  AuthState, loading, needs_setup, needs_login, authenticated, Permissions, Sidebar,
  show_perm_banner, start_check, dismiss_perm_banner, on_mouse_down, sidebar_panel_width,
}
use loci_terminal.Theme.Colors.{UiColors}
use loci_terminal.View.Html.{Html, Prop, element, text, attr, style, on, nodes, when, flag}
use loci_terminal.View.Page.Pieces.{
  PageAction, view, menu_props, session_props, notice, banner, wide_sidebar, drawer, rechecks,
  dismisses_banner, grabs, tints_handle, clears_handle, opens_drawer, closes_drawer, signs_in,
}

-- What the page depends on, beside the stores: `useMediaQuery`, `window.innerWidth` and its own state.
pub record Shell : Type 0 where
  pub auth : AuthState
  pub initialized : Bool
  pub permissions : Permissions
  pub sidebar : Sidebar
  pub is_mobile : Bool
  pub drawer_open : Bool
  pub inner_width : ℕ

abbrev pub sidebars : UiColors → Shell → List (Html PageAction)
sidebars ui p =
    let width = sidebar_panel_width p.is_mobile p.inner_width p.sidebar in
    (if not p.is_mobile then wide_sidebar width else [])
    ++ (if p.is_mobile && p.drawer_open then drawer ui width else [])

abbrev pub workspace_page : UiColors → Shell → Html PageAction
workspace_page ui p =
    element "div"
      (style (
          ("display", "flex")
          ∷ ("flexDirection", "column")
          ∷ ("width", "100vw")
          ∷ ("height", "100dvh")
          ∷ ("backgroundColor", ui.app_bg)
          ∷ ("overflow", "hidden")
          ∷ ("position", "relative")
          ∷ [])
        ∷ [])
      (nodes (
        when (show_perm_banner p.permissions) (banner ui p.permissions.checking)
        ++ (element "div"
              (style (
                  ("display", "flex")
                  ∷ ("flex", "1")
                  ∷ ("minHeight", "0")
                  ∷ ("position", "relative")
                  ∷ [])
                ∷ [])
              (nodes (
                sidebars ui p
                ++ element "div"
                    (style (
                        ("flex", "1")
                        ∷ ("height", "100%")
                        ∷ ("overflow", "hidden")
                        ∷ ("minWidth", "0")
                        ∷ [])
                      ∷ [])
                    (nodes (view "TerminalPanel" (menu_props p.is_mobile)))
                  ∷ []))
            ∷ view "ToastContainer" [])))

-- `App`
unfoldable pub app : UiColors → Shell → Html PageAction
app ui p = elim p.auth [
  | loading ↦ notice ui "Starting LociTerm..."
  | needs_setup ↦
      element "LoginForm" (flag "needsSetup" true ++ on "onSuccess" signs_in ∷ []) (nodes [])
  | needs_login ↦ element "LoginForm" (on "onSuccess" signs_in ∷ []) (nodes [])
  | authenticated ↦ if not p.initialized then notice ui "Loading..." else workspace_page ui p
]

-- What a control of the page does at once; the colour of the handle is the element's own.
unfoldable pub run_page : PageAction → Shell → Shell
run_page rechecks p = record p { permissions = start_check p.permissions }
run_page dismisses_banner p = record p { permissions = dismiss_perm_banner p.permissions }
run_page grabs p = record p { sidebar = on_mouse_down p.sidebar }
run_page opens_drawer p = record p { drawer_open = true }
run_page closes_drawer p = record p { drawer_open = false }
run_page signs_in p = record p { auth = authenticated }
run_page tints_handle p = p
run_page clears_handle p = p

-- The effect of `App` that closes the drawer when the screen is no longer small.
unfoldable pub close_if_wide : Shell → Shell
close_if_wide p = if not p.is_mobile then record p { drawer_open = false } else p

-- `TerminalPanel`
unfoldable pub terminal_panel : Bool → Bool → Option String → Html PageAction
terminal_panel show_menu is_mobile session =
    element "div"
      (style (
          ("display", "flex")
          ∷ ("flexDirection", "column")
          ∷ ("height", "100%")
          ∷ ("width", "100%")
          ∷ ("overflow", "hidden")
          ∷ [])
        ∷ [])
      (nodes (
        view "TabBar" (menu_props show_menu)
        ++ (element "div"
              (style (
                  ("flex", "1")
                  ∷ ("position", "relative")
                  ∷ ("overflow", "hidden")
                  ∷ ("minHeight", "0")
                  ∷ [])
                ∷ [])
              (nodes (view "TerminalView" (session_props session)))
            ∷ (if is_mobile then view "MobileInputBar" (session_props session) else []))))
