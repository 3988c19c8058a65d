-- ===== src/View/InputBar.antt =====
-- The bar that replaces the keyboard on a small screen, frontend/src/components/Terminal/MobileInputBar.tsx:
-- what it draws and what its controls send. The line is that of the session of the bar, if it has one.
pub mod Enabled
use Prim.Native.String.{◌++◌ as ◌<>◌}
use loci_terminal.Common.{
  ℕ, ◌≡◌, refl, ◌↔◌, inl, inr, String, Bool, true, false, List, [], ◌∷◌, ◌++◌, map, Option, none,
  some, is, if◌then◌else◌, truthy, get_or, not, ◌&&◌, ◌≢◌, Bool-cases, Option-cases, str_dec, arith,
}
use loci_terminal.Terminal.Line.{Line}
use loci_terminal.Terminal.Input.{KeyEvent, send_to_terminal, handle_send, on_key_down}
use loci_terminal.Theme.Colors.{UiColors}
use loci_terminal.View.Html.{Html, element, text, attr, style, on, nodes, flag, marked}

pub record ToolKey : Type 0 where
  pub label : String
  pub bytes : String
  pub title : Option String

-- `TOOL_KEYS`
abbrev pub tool_keys : List ToolKey
tool_keys =
    record { label = "Esc"; bytes = "\u{1b}"; title = none }
    ∷ record { label = "Tab"; bytes = "\t"; title = none }
    ∷ record { label = "^C"; bytes = "\u{3}"; title = some "Ctrl+C (interrupt)" }
    ∷ record { label = "^D"; bytes = "\u{4}"; title = some "Ctrl+D (EOF)" }
    ∷ record { label = "^Z"; bytes = "\u{1a}"; title = some "Ctrl+Z (suspend)" }
    ∷ record { label = "↑"; bytes = "\u{1b}[A"; title = none }
    ∷ record { label = "↓"; bytes = "\u{1b}[B"; title = none }
    ∷ record { label = "←"; bytes = "\u{1b}[D"; title = none }
    ∷ record { label = "→"; bytes = "\u{1b}[C"; title = none }
    ∷ []

pub data BarAction : Type 0 where
  types_text presses_text sends : BarAction
  taps : String → BarAction

abbrev pub tool_button : UiColors → ToolKey → Html BarAction
tool_button ui k =
    element "button"
      (attr "type" "button"
        ∷ attr "title" (get_or k.title k.label)
        ∷ on "onClick" (taps k.bytes)
        ∷ style (
            ("flex", "0 0 auto")
            ∷ ("minWidth", "44")
            ∷ ("height", "36")
            ∷ ("padding", "0 10px")
            ∷ ("backgroundColor", ui.hover_bg)
            ∷ ("border", ("1px solid " <> ui.sidebar_border))
            ∷ ("borderRadius", "6")
            ∷ ("color", ui.text_primary)
            ∷ ("fontFamily", "'JetBrains Mono', monospace")
            ∷ ("fontSize", "13")
            ∷ ("cursor", "pointer")
            ∷ ("whiteSpace", "nowrap")
            ∷ [])
        ∷ [])
      (nodes (text k.label ∷ []))

abbrev pub toolbar : UiColors → Html BarAction
toolbar ui =
    element "div"
      (style (
          ("display", "flex")
          ∷ ("gap", "6")
          ∷ ("padding", "6px 8px")
          ∷ ("overflowX", "auto")
          ∷ ("WebkitOverflowScrolling", "touch")
          ∷ [])
        ∷ [])
      (nodes (map (tool_button ui) tool_keys))

abbrev pub text_area : UiColors → String → Html BarAction
text_area ui value =
    element "textarea"
      (attr "value" value
        ∷ on "onChange" types_text
        ∷ on "onKeyDown" presses_text
        ∷ attr "rows" "1"
        ∷ attr "placeholder" "Type and press Send (Shift+Enter for newline)"
        ∷ attr "autoCapitalize" "off"
        ∷ attr "autoCorrect" "off"
        ∷ attr "autoComplete" "off"
        ∷ attr "spellCheck" "false"
        ∷ attr "enterKeyHint" "send"
        ∷ style (
            ("position", "absolute")
            ∷ ("top", "0")
            ∷ ("left", "0")
            ∷ ("width", "142.857%")
            ∷ ("height", "142.857%")
            ∷ ("transform", "scale(0.7)")
            ∷ ("transformOrigin", "top left")
            ∷ ("padding", "11px 14px")
            ∷ ("backgroundColor", "transparent")
            ∷ ("border", "none")
            ∷ ("color", ui.text_primary)
            ∷ ("fontFamily", "'JetBrains Mono', monospace")
            ∷ ("fontSize", "20")
            ∷ ("lineHeight", "1.4")
            ∷ ("outline", "none")
            ∷ ("resize", "none")
            ∷ [])
        ∷ [])
      (nodes [])

-- `known` says that there is a session.
abbrev pub send_button : UiColors → Bool → Html BarAction
send_button ui known =
    element "button"
      (attr "type" "button"
        ∷ on "onClick" sends
        ∷ (flag "disabled" (not known)
            ++ style (
                ("flex", "0 0 auto")
                ∷ ("minWidth", "56")
                ∷ ("height", "40")
                ∷ ("padding", "0 14px")
                ∷ ("backgroundColor", ui.accent)
                ∷ ("border", "none")
                ∷ ("borderRadius", "6")
                ∷ ("color", "#fff")
                ∷ ("fontFamily", "inherit")
                ∷ ("fontSize", "14")
                ∷ ("fontWeight", "600")
                ∷ ("cursor", (if known then "pointer" else "not-allowed"))
                ∷ ("opacity", (if known then "1" else "0.5"))
                ∷ [])
              ∷ []))
      (nodes (text "Send" ∷ []))

abbrev pub is_known : Option String → Bool
is_known none = false
is_known (some id) = true

-- `MobileInputBar`
unfoldable pub input_bar : UiColors → Option String → String → Html BarAction
input_bar ui session value =
    element "div"
      (style (
          ("flexShrink", "0")
          ∷ ("borderTop", ("1px solid " <> ui.sidebar_border))
          ∷ ("backgroundColor", ui.tab_active_bg)
          ∷ ("paddingBottom", "env(safe-area-inset-bottom)")
          ∷ [])
        ∷ [])
      (nodes (
        toolbar ui
        ∷ element "div"
            (style (
                ("display", "flex")
                ∷ ("alignItems", "flex-end")
                ∷ ("gap", "8")
                ∷ ("padding", "0 8px 8px")
                ∷ [])
              ∷ [])
            (nodes (
              element "div"
                (style (
                    ("flex", "1")
                    ∷ ("minWidth", "0")
                    ∷ ("height", "40")
                    ∷ ("position", "relative")
                    ∷ ("overflow", "hidden")
                    ∷ ("backgroundColor", ui.app_bg)
                    ∷ ("border", ("1px solid " <> ui.sidebar_border))
                    ∷ ("borderRadius", "6")
                    ∷ [])
                  ∷ [])
                (nodes (text_area ui value ∷ []))
              ∷ send_button ui (is_known (truthy session))
              ∷ []))
        ∷ []))

module _ (encode : String → List ℕ) where
  -- `sendKey`
  unfoldable pub send_key : Option String → String → Line → Line
  send_key session bytes l = elim (truthy session) [
    | none ↦ l
    | some id ↦ (send_to_terminal encode bytes l).0
  ]

  -- What a control does to the line and to the text in the bar, with the value of the field and the key.
  unfoldable pub run_bar :
      Option String → String → KeyEvent → BarAction → Line × String → Line × String
  run_bar session value e types_text (l, t) = (l, value)
  run_bar session value e presses_text (l, t) = on_key_down encode e session t l
  run_bar session value e sends (l, t) = handle_send encode session t l
  run_bar session value e (taps bytes) (l, t) = (send_key session bytes l, t)
