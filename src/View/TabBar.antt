-- ===== src/View/TabBar.antt =====
-- The tab bar: frontend/src/components/Terminal/TabBar.tsx.
pub mod Dots
pub mod Safe
pub mod Flight
use Prim.Native.String.{◌++◌ as ◌<>◌}
use loci_terminal.Common.{
  ℕ, String, Bool, true, false, ◌&&◌, not, List, [], ◌∷◌, ◌++◌, map, Option, none, some, length,
  ltb, is, if◌then◌else◌, truthy,
}
use loci_terminal.Dict.{Dict, get}
use loci_terminal.Store.State.{
  Session, SessionActivity, AppState, World, is_option, is_unread, session_unread, on_store,
}
use loci_terminal.Store.Api.{Api}
use loci_terminal.Store.Activity.{set_active_session}
use loci_terminal.Store.Sessions.{sessions_of, create_session, delete_session}
use loci_terminal.Theme.Colors.{UiColors}
use loci_terminal.View.Html.{Html, Prop, element, text, attr, style, on, nodes, when}

-- What the controls of the bar do.
pub data TabAction : Type 0 where
  opens_menu : TabAction
  selects_tab closes_tab adds_tab : String → TabAction

-- The dot of a session that asks for attention.
abbrev pub unread_dot : UiColors → Html TabAction
unread_dot ui =
    element "span"
      (attr "aria-label" "unread output"
        ∷ attr "title" "New output"
        ∷ style (
            ("width", "6")
            ∷ ("height", "6")
            ∷ ("borderRadius", "50%")
            ∷ ("backgroundColor", ui.accent)
            ∷ ("flexShrink", "0")
            ∷ [])
        ∷ [])
      (nodes [])

abbrev pub close_button : UiColors → Option String → Session → Html TabAction
close_button ui active sess =
    element "button"
      (on "onClick" (closes_tab sess.id)
        ∷ style (
            ("background", "none")
            ∷ ("border", "none")
            ∷ ("color", ui.text_muted)
            ∷ ("cursor", "pointer")
            ∷ ("fontSize", "16px")
            ∷ ("padding", "4px 6px")
            ∷ ("lineHeight", "1")
            ∷ ("opacity", (if is_option active sess.id then "0.7" else "0.3"))
            ∷ [])
        ∷ attr "aria-label" ("Close " <> sess.title)
        ∷ [])
      (nodes (text "×" ∷ []))

-- One tab; `several` says that the workspace has more than one session.
abbrev pub tab : UiColors → AppState → Bool → Session → Html TabAction
tab ui s several sess =
    let active = is_option s.active_session_id sess.id in
    element "div"
      (on "onClick" (selects_tab sess.id)
        ∷ style (
            ("display", "flex")
            ∷ ("alignItems", "center")
            ∷ ("gap", "6px")
            ∷ ("padding", "0 12px")
            ∷ ("cursor", "pointer")
            ∷ ("backgroundColor", (if active then ui.tab_active_bg else "transparent"))
            ∷ ("color", (if active then ui.text_primary else ui.text_secondary))
            ∷ ("borderRight", ("1px solid " <> ui.tab_border))
            ∷ ("whiteSpace", "nowrap")
            ∷ ("minWidth", "0")
            ∷ ("maxWidth", "200")
            ∷ ("flexShrink", "0")
            ∷ [])
        ∷ [])
      (nodes (
        when (not active && session_unread s sess.id) (unread_dot ui)
        ++ (element "span" (style (("overflow", "hidden") ∷ ("textOverflow", "ellipsis") ∷ []) ∷ [])
              (nodes (text sess.title ∷ []))
            ∷ when several (close_button ui s.active_session_id sess))))

abbrev pub menu_button : UiColors → Html TabAction
menu_button ui =
    element "button"
      (on "onClick" opens_menu
        ∷ style (
            ("background", "none")
            ∷ ("border", "none")
            ∷ ("borderRight", ("1px solid " <> ui.tab_border))
            ∷ ("color", ui.text_secondary)
            ∷ ("cursor", "pointer")
            ∷ ("fontSize", "18px")
            ∷ ("padding", "0 14px")
            ∷ ("display", "flex")
            ∷ ("alignItems", "center")
            ∷ ("minWidth", "44")
            ∷ [])
        ∷ attr "aria-label" "Open sidebar"
        ∷ attr "title" "Workspaces"
        ∷ [])
      (nodes (text "☰" ∷ []))

abbrev pub new_tab_button : UiColors → String → Html TabAction
new_tab_button ui wid =
    element "button"
      (on "onClick" (adds_tab wid)
        ∷ style (
            ("background", "none")
            ∷ ("border", "none")
            ∷ ("borderLeft", ("1px solid " <> ui.tab_border))
            ∷ ("color", ui.text_secondary)
            ∷ ("cursor", "pointer")
            ∷ ("fontSize", "18px")
            ∷ ("padding", "0 14px")
            ∷ ("display", "flex")
            ∷ ("alignItems", "center")
            ∷ ("minWidth", "44")
            ∷ [])
        ∷ attr "title" "New Tab"
        ∷ attr "aria-label" "New tab"
        ∷ [])
      (nodes (text "+" ∷ []))

-- The bar of the workspace `wid`.
abbrev pub tab_bar_of : UiColors → Bool → String → AppState → Html TabAction
tab_bar_of ui show_menu wid s =
    let current = sessions_of s wid in
    element "div"
      (style (
          ("display", "flex")
          ∷ ("alignItems", "stretch")
          ∷ ("backgroundColor", ui.tab_bar_bg)
          ∷ ("borderBottom", ("1px solid " <> ui.tab_border))
          ∷ ("height", "40px")
          ∷ ("fontFamily", "'JetBrains Mono', monospace")
          ∷ ("fontSize", "12px")
          ∷ ("overflow", "hidden")
          ∷ [])
        ∷ [])
      (nodes (
        when show_menu (menu_button ui)
        ++ (element "div"
              (style (
                  ("display", "flex")
                  ∷ ("flex", "1")
                  ∷ ("overflowX", "auto")
                  ∷ ("overflowY", "hidden")
                  ∷ [])
                ∷ [])
              (nodes (map (tab ui s (ltb 1 (length current))) current))
            ∷ new_tab_button ui wid
            ∷ [])))

-- `TabBar`
unfoldable pub tab_bar : UiColors → Bool → AppState → Option (Html TabAction)
tab_bar ui show_menu s = elim (truthy s.active_workspace_id) [
  | none ↦ none
  | some wid ↦ some (tab_bar_of ui show_menu wid s)
]

-- The store's side of a control; the sidebar's drawer is the page's. The world is the one in which the server
-- answers: `deleteSession` and `createSession` read and write the store only after their `await`, and the page may
-- have gone on since the bar was drawn.
unfoldable pub run_tab : Api → TabAction → World → Option World
run_tab api opens_menu w = some w
run_tab api (selects_tab id) w = some (set_active_session id w)
run_tab api (closes_tab id) w = delete_session api id w
run_tab api (adds_tab wid) w = on_store (create_session api wid none) w
