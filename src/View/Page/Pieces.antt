-- ===== src/View/Page/Pieces.antt =====
-- The parts of what frontend/src/App.tsx draws: the notices, the banner, the sidebar's place and the drawer.
use Prim.Native.String.{◌++◌ as ◌<>◌}
use loci_terminal.Common.{ℕ, String, Bool, List, [], ◌∷◌, ◌++◌, Option, none, some, if◌then◌else◌}
use loci_terminal.Store.Activity.{decimal}
use loci_terminal.Theme.Colors.{UiColors}
use loci_terminal.View.Html.{Html, Prop, element, text, attr, style, on, nodes, flag}

pub data PageAction : Type 0 where
  rechecks dismisses_banner grabs tints_handle clears_handle opens_drawer closes_drawer signs_in :
      PageAction

-- A view that stands at a place, with what is passed to it.
abbrev pub view : String → List (Prop PageAction) → List (Html PageAction)
view name ps = element name ps (nodes []) ∷ []

abbrev pub menu_props : Bool → List (Prop PageAction)
menu_props show = flag "showMenuButton" show ++ on "onMenuClick" opens_drawer ∷ []

abbrev pub session_props : Option String → List (Prop PageAction)
session_props none = []
session_props (some id) = attr "sessionId" id ∷ []

abbrev pub notice : UiColors → String → Html PageAction
notice ui words =
    element "div"
      (style (
          ("display", "flex")
          ∷ ("alignItems", "center")
          ∷ ("justifyContent", "center")
          ∷ ("minHeight", "100vh")
          ∷ ("backgroundColor", ui.app_bg)
          ∷ ("color", ui.text_primary)
          ∷ ("fontFamily", "'JetBrains Mono', monospace")
          ∷ ("padding", "24px")
          ∷ [])
        ∷ [])
      (nodes (text words ∷ []))

abbrev pub banner_words : Html PageAction
banner_words =
    element "span"
      (style (
          ("flex", "1")
          ∷ ("minWidth", "0")
          ∷ ("overflow", "hidden")
          ∷ ("textOverflow", "ellipsis")
          ∷ ("whiteSpace", "nowrap")
          ∷ [])
        ∷ [])
      (nodes (
        text
          "Full Disk Access required — System Settings ▸ Privacy & Security ▸ Full Disk Access ▸ add "
        ∷ element "code"
            (style (
                ("background", "rgba(0,0,0,0.12)")
                ∷ ("padding", "0 4px")
                ∷ ("borderRadius", "2")
                ∷ [])
              ∷ [])
            (nodes (text "/usr/local/bin/lociterm" ∷ []))
        ∷ []))

abbrev pub recheck_button : Bool → Html PageAction
recheck_button checking =
    element "button"
      (on "onClick" rechecks
        ∷ (flag "disabled" checking
            ++ style (
                ("flexShrink", "0")
                ∷ ("padding", "4px 10px")
                ∷ ("backgroundColor", "rgba(0,0,0,0.15)")
                ∷ ("border", "1px solid rgba(0,0,0,0.25)")
                ∷ ("color", "#000")
                ∷ ("fontSize", "12")
                ∷ ("fontFamily", "inherit")
                ∷ ("fontWeight", "600")
                ∷ ("cursor", (if checking then "wait" else "pointer"))
                ∷ ("opacity", (if checking then "0.6" else "1"))
                ∷ ("borderRadius", "3")
                ∷ [])
              ∷ []))
      (nodes (text (if checking then "Checking…" else "Recheck") ∷ []))

abbrev pub banner : UiColors → Bool → Html PageAction
banner ui checking =
    element "div"
      (style (
          ("flexShrink", "0")
          ∷ ("display", "flex")
          ∷ ("alignItems", "center")
          ∷ ("gap", "12")
          ∷ ("padding", "8px 12px")
          ∷ ("backgroundColor", ui.warning)
          ∷ ("color", "#000")
          ∷ ("fontFamily", "'JetBrains Mono', monospace")
          ∷ ("fontSize", "12")
          ∷ ("lineHeight", "1.4")
          ∷ ("borderBottom", ("1px solid " <> ui.sidebar_border))
          ∷ [])
        ∷ [])
      (nodes (
        element "span" (style (("fontWeight", "600") ∷ ("flexShrink", "0") ∷ []) ∷ [])
          (nodes (text "Permission" ∷ []))
        ∷ banner_words
        ∷ recheck_button checking
        ∷ element "button"
            (on "onClick" dismisses_banner
              ∷ attr "aria-label" "Dismiss"
              ∷ attr "title" "Dismiss"
              ∷ style (
                  ("flexShrink", "0")
                  ∷ ("width", "22")
                  ∷ ("height", "22")
                  ∷ ("padding", "0")
                  ∷ ("backgroundColor", "transparent")
                  ∷ ("border", "none")
                  ∷ ("color", "#000")
                  ∷ ("fontSize", "16")
                  ∷ ("lineHeight", "1")
                  ∷ ("fontFamily", "inherit")
                  ∷ ("cursor", "pointer")
                  ∷ ("borderRadius", "3")
                  ∷ [])
              ∷ [])
            (nodes (text "×" ∷ []))
        ∷ []))

-- The sidebar beside the terminals and the handle that changes its width.
abbrev pub wide_sidebar : ℕ → List (Html PageAction)
wide_sidebar width =
    element "div"
      (style (("width", decimal width) ∷ ("flexShrink", "0") ∷ ("height", "100%") ∷ []) ∷ [])
      (nodes (view "Sidebar" []))
    ∷ element "div"
        (on "onMouseDown" grabs
          ∷ style (
              ("width", "4px")
              ∷ ("cursor", "col-resize")
              ∷ ("backgroundColor", "transparent")
              ∷ ("flexShrink", "0")
              ∷ [])
          ∷ on "onMouseEnter" tints_handle
          ∷ on "onMouseLeave" clears_handle
          ∷ [])
        (nodes [])
    ∷ []

-- The drawer over the terminals on a small screen.
abbrev pub drawer : UiColors → ℕ → List (Html PageAction)
drawer ui width =
    element "div"
      (on "onClick" closes_drawer
        ∷ style (
            ("position", "absolute")
            ∷ ("inset", "0")
            ∷ ("backgroundColor", ui.overlay_bg)
            ∷ ("zIndex", "999")
            ∷ [])
        ∷ attr "aria-hidden" "true"
        ∷ [])
      (nodes [])
    ∷ element "div"
        (style (
            ("position", "absolute")
            ∷ ("top", "0")
            ∷ ("left", "0")
            ∷ ("bottom", "0")
            ∷ ("width", decimal width)
            ∷ ("zIndex", "1000")
            ∷ ("boxShadow", "2px 0 8px rgba(0,0,0,0.35)")
            ∷ [])
          ∷ [])
        (nodes (view "Sidebar" (on "onCloseMobile" closes_drawer ∷ [])))
    ∷ []
