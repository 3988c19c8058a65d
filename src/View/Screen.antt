-- ===== src/View/Screen.antt =====
-- The view of a terminal, frontend/src/components/Terminal/TerminalView.tsx: what it draws, the drags over it,
-- and the text area of xterm on a small screen. The drop of files is in `Terminal/Upload`.
pub mod Drags
use Prim.Native.String.{◌++◌ as ◌<>◌}
use loci_terminal.Common.{
  ◌≡◌, refl, inl, inr, Bool-cases, All, String, Bool, true, false, not, List, [], ◌∷◌, ◌++◌, Option,
  none, some, any, is, if◌then◌else◌, truthy,
}
use loci_terminal.Terminal.Upload.{View}
use loci_terminal.Theme.Colors.{UiColors}
use loci_terminal.View.Html.{Html, element, text, attr, style, on, nodes, when}

-- A `DragEvent`: the types of what is dragged, and for a leave whether `relatedTarget` is in the wrapper.
pub record Drag : Type 0 where
  pub types : List String
  pub stays_inside : Bool

-- `isFileDrag`
abbrev pub is_file_drag : Drag → Bool
is_file_drag e = any (λ t. is t "Files") e.types

-- A handler of a drag leaves the view in a state, and says whether it prevented the default.
-- `onDragOver`
unfoldable pub on_drag_over : Drag → View → View × Bool
on_drag_over e v =
    if not (is_file_drag e) then (v, false) else (record v { is_dragging = true }, true)

-- `onDragEnter`
unfoldable pub on_drag_enter : Drag → View → View × Bool
on_drag_enter e v =
    if not (is_file_drag e) then (v, false) else (record v { is_dragging = true }, false)

-- `onDragLeave`
unfoldable pub on_drag_leave : Drag → View → View × Bool
on_drag_leave e v = if e.stays_inside then (v, false) else (record v { is_dragging = false }, false)

-- `onDragStart`
unfoldable pub on_drag_start : Drag → View → View × Bool
on_drag_start e v = if is_file_drag e then (v, false) else (v, true)

-- The attributes of the text area that the effect writes; nothing stands for one that is absent.
pub record TextArea : Type 0 where
  pub readonly : Option String
  pub tabindex : Option String
  pub inputmode : Option String

-- The effect of `TerminalView`, on the text area if there is one.
unfoldable pub lock_text_area : Bool → Option TextArea → Option TextArea
lock_text_area mobile none = none
lock_text_area mobile (some ta) =
    if mobile
    then some (record { readonly = some "true"; tabindex = some "-1"; inputmode = some "none" })
    else some (record { readonly = none; tabindex = some "0"; inputmode = none })

pub data ViewAction : Type 0 where
  drags_over drags_enter drags_leave drags_start drops dismisses_error : ViewAction

abbrev pub drop_overlay : UiColors → Html ViewAction
drop_overlay ui =
    element "div"
      (style (
          ("position", "absolute")
          ∷ ("inset", "0")
          ∷ ("display", "flex")
          ∷ ("alignItems", "center")
          ∷ ("justifyContent", "center")
          ∷ ("backgroundColor", ui.drop_overlay_bg)
          ∷ ("border", ("2px dashed " <> ui.drop_overlay_border))
          ∷ ("color", ui.drop_overlay_text)
          ∷ ("fontFamily", "'JetBrains Mono', monospace")
          ∷ ("fontSize", "16")
          ∷ ("fontWeight", "600")
          ∷ ("pointerEvents", "none")
          ∷ ("zIndex", "10")
          ∷ [])
        ∷ [])
      (nodes (text "Drop to upload" ∷ []))

abbrev pub upload_note : UiColors → Option String → List (Html ViewAction)
upload_note ui none = []
upload_note ui (some name) =
    element "div"
      (style (
          ("position", "absolute")
          ∷ ("bottom", "12")
          ∷ ("right", "12")
          ∷ ("padding", "6px 12px")
          ∷ ("backgroundColor", ui.tab_active_bg)
          ∷ ("border", ("1px solid " <> ui.accent))
          ∷ ("borderRadius", "4")
          ∷ ("color", ui.text_primary)
          ∷ ("fontFamily", "'JetBrains Mono', monospace")
          ∷ ("fontSize", "12")
          ∷ ("zIndex", "11")
          ∷ ("maxWidth", "70%")
          ∷ ("overflow", "hidden")
          ∷ ("textOverflow", "ellipsis")
          ∷ ("whiteSpace", "nowrap")
          ∷ [])
        ∷ [])
      (nodes (text "Uploading " ∷ text name ∷ text "..." ∷ []))
    ∷ []

abbrev pub error_note : UiColors → Option String → List (Html ViewAction)
error_note ui none = []
error_note ui (some message) =
    element "div"
      (style (
          ("position", "absolute")
          ∷ ("bottom", "12")
          ∷ ("left", "12")
          ∷ ("padding", "6px 12px")
          ∷ ("backgroundColor", ui.tab_active_bg)
          ∷ ("border", ("1px solid " <> ui.danger))
          ∷ ("borderRadius", "4")
          ∷ ("color", ui.danger)
          ∷ ("fontFamily", "'JetBrains Mono', monospace")
          ∷ ("fontSize", "12")
          ∷ ("zIndex", "11")
          ∷ ("cursor", "pointer")
          ∷ ("maxWidth", "70%")
          ∷ ("overflow", "hidden")
          ∷ ("textOverflow", "ellipsis")
          ∷ ("whiteSpace", "nowrap")
          ∷ [])
        ∷ on "onClick" dismisses_error
        ∷ attr "title" "Click to dismiss"
        ∷ [])
      (nodes (text "Upload failed: " ∷ text message ∷ []))
    ∷ []

-- `TerminalView`
unfoldable pub terminal_view : UiColors → Bool → View → Html ViewAction
terminal_view ui mobile v =
    element "div"
      (on "onDragOver" drags_over
        ∷ on "onDragEnter" drags_enter
        ∷ on "onDragLeave" drags_leave
        ∷ on "onDragStart" drags_start
        ∷ on "onDrop" drops
        ∷ style (
            ("position", "relative")
            ∷ ("width", "100%")
            ∷ ("height", "100%")
            ∷ ("backgroundColor", ui.terminal_bg)
            ∷ ("paddingLeft", (if mobile then "6" else "0"))
            ∷ ("boxSizing", "border-box")
            ∷ ("userSelect", "text")
            ∷ [])
        ∷ [])
      (nodes (
        element "div" (style (("width", "100%") ∷ ("height", "100%") ∷ []) ∷ []) (nodes [])
        ∷ (when v.is_dragging (drop_overlay ui)
            ++ (upload_note ui (truthy v.uploading_name) ++ error_note ui (truthy v.error_msg)))))

-- The click on the error.
unfoldable pub dismiss_error : View → View
dismiss_error v = record v { error_msg = none }
