-- ===== src/View/Toasts.antt =====
-- The stack of toasts, frontend/src/components/Toast/ToastContainer.tsx: what it draws, and what its
-- controls do to the store. The click that opens a session is in `Store/Clicks`.
pub mod Timeouts
use Prim.Native.String.{◌++◌ as ◌<>◌}
use loci_terminal.Common.{
  ◌≡◌, refl, String, Bool, true, false, List, [], ◌∷◌, map, Option, none, some, if◌then◌else◌,
  truthy, get_or, length, str_dec, Bool-cases, arith,
}
use loci_terminal.Store.State.{Toast, World}
use loci_terminal.Store.Api.{Api}
use loci_terminal.Store.Activity.{dismiss_toast}
use loci_terminal.Store.Clicks.{click_toast}
use loci_terminal.Theme.Colors.{UiColors}
use loci_terminal.View.Html.{Html, element, text, attr, style, on, nodes, labelled, labelled_all}

-- `hovers` sets the state of the item itself.
pub data ToastAction : Type 0 where
  opens dismisses : Toast → ToastAction
  hovers : String → Bool → ToastAction

-- `toast.sessionTitle || 'Terminal'`
abbrev pub shown_title : Toast → String
shown_title t = get_or (truthy (some t.session_title)) "Terminal"

abbrev pub dismiss_button : UiColors → Toast → Html ToastAction
dismiss_button ui t =
    element "button"
      (on "onClick" (dismisses t)
        ∷ attr "aria-label" "Dismiss"
        ∷ attr "title" "Dismiss"
        ∷ style (
            ("flexShrink", "0")
            ∷ ("width", "20")
            ∷ ("height", "20")
            ∷ ("padding", "0")
            ∷ ("background", "transparent")
            ∷ ("border", "none")
            ∷ ("color", ui.text_muted)
            ∷ ("fontSize", "16")
            ∷ ("lineHeight", "1")
            ∷ ("fontFamily", "inherit")
            ∷ ("cursor", "pointer")
            ∷ ("borderRadius", "3")
            ∷ [])
        ∷ [])
      (nodes (text "×" ∷ []))

-- `ToastItem`; `hovered` says that the pointer is on it.
abbrev pub toast_item : UiColors → (String → Bool) → Toast → Html ToastAction
toast_item ui hovered t =
    element "div"
      (attr "role" "alert"
        ∷ style (
            ("pointerEvents", "auto")
            ∷ ("backgroundColor", ui.tab_active_bg)
            ∷ ("border", ("1px solid " <> ui.sidebar_border))
            ∷ ("borderLeft", ("3px solid " <> ui.accent))
            ∷ ("borderRadius", "6")
            ∷ ("boxShadow", "0 6px 20px rgba(0, 0, 0, 0.28)")
            ∷ ("color", ui.text_primary)
            ∷ ("fontFamily", "'JetBrains Mono', monospace")
            ∷ ("fontSize", "12")
            ∷ ("lineHeight", "1.4")
            ∷ ("padding", "10px 12px")
            ∷ ("display", "flex")
            ∷ ("alignItems", "flex-start")
            ∷ ("gap", "10")
            ∷ ("cursor", "pointer")
            ∷ ("opacity", (if hovered t.id then "1" else "0.96"))
            ∷ ("transition", "opacity 120ms ease")
            ∷ [])
        ∷ on "onClick" (opens t)
        ∷ on "onMouseEnter" (hovers t.id true)
        ∷ on "onMouseLeave" (hovers t.id false)
        ∷ [])
      (nodes (
        element "div" (style (("flex", "1") ∷ ("minWidth", "0") ∷ []) ∷ []) (
          nodes (
            element "div"
              (style (
                  ("fontWeight", "600")
                  ∷ ("color", ui.text_primary)
                  ∷ ("overflow", "hidden")
                  ∷ ("textOverflow", "ellipsis")
                  ∷ ("whiteSpace", "nowrap")
                  ∷ [])
                ∷ attr "title" t.session_title
                ∷ [])
              (nodes (text (shown_title t) ∷ []))
            ∷ element "div" (style (("color", ui.text_secondary) ∷ ("marginTop", "2") ∷ []) ∷ [])
                (nodes (text "Output finished" ∷ []))
            ∷ []))
        ∷ dismiss_button ui t
        ∷ []))

abbrev pub toast_box : UiColors → (String → Bool) → List Toast → Html ToastAction
toast_box ui hovered ts =
    element "div"
      (style (
          ("position", "fixed")
          ∷ ("top", "16")
          ∷ ("right", "16")
          ∷ ("display", "flex")
          ∷ ("flexDirection", "column")
          ∷ ("gap", "8")
          ∷ ("zIndex", "1100")
          ∷ ("pointerEvents", "none")
          ∷ ("maxWidth", "320")
          ∷ [])
        ∷ [])
      (nodes (map (toast_item ui hovered) ts))

-- `ToastContainer`: nothing is drawn where there is no toast.
unfoldable pub toast_container : UiColors → (String → Bool) → List Toast → Option (Html ToastAction)
toast_container ui hovered [] = none
toast_container ui hovered (t ∷ ts) = some (toast_box ui hovered (t ∷ ts))

-- The store's side of a control; `drawn` is the active workspace at the time of the drawing. A promise
-- that rejects leaves the world as it is.
unfoldable pub run_toast : Api → Option String → ToastAction → World → World
run_toast api drawn (opens t) w = get_or (click_toast api t drawn w.store w) w
run_toast api drawn (dismisses t) w = record w { store = dismiss_toast t.id w.store }
run_toast api drawn (hovers id b) w = w

items-labelled :
    (ui : UiColors) (hovered : String → Bool) (ts : List Toast)
    → labelled_all "Dismiss" (nodes (map (toast_item ui hovered) ts)) ≡ length ts
unfolding labelled str_dec Bool-cases
items-labelled ui hovered [] = refl
items-labelled ui hovered (t ∷ ts) = let rest = items-labelled ui hovered ts in omega arith

-- Every toast of the store is drawn, each with one button to dismiss it.
toast_container-labelled :
    (ui : UiColors) (hovered : String → Bool) (ts : List Toast) {h : Html ToastAction}
    → toast_container ui hovered ts ≡ some h
    → labelled "Dismiss" h ≡ length ts
unfolding toast_container labelled str_dec Bool-cases
toast_container-labelled ui hovered [] e = absurd (cc)
toast_container-labelled ui hovered (t ∷ ts) {h} e =
    let drawn : toast_box ui hovered (t ∷ ts) ≡ h = cc in
    let items = items-labelled ui hovered (t ∷ ts) in rw (← drawn) (omega arith)
