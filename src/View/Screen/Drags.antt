-- ===== src/View/Screen/Drags.antt =====
-- Sequences of drags over the view of frontend/src/components/Terminal/TerminalView.tsx.
use loci_terminal.Common.{◌≡◌, refl, inl, inr, Bool-cases, All, Bool, false, not, List, [], ◌∷◌}
use loci_terminal.Terminal.Upload.{View}
use loci_terminal.View.Screen.{
  Drag, is_file_drag, on_drag_over, on_drag_enter, on_drag_leave, on_drag_start,
}

-- The drags over the view, in their order.
pub data DragEvent : Type 0 where
  overs enters leaves starts : Drag → DragEvent

abbrev pub drag_of : DragEvent → Drag
drag_of (overs e) = e
drag_of (enters e) = e
drag_of (leaves e) = e
drag_of (starts e) = e

unfoldable pub run_drag : DragEvent → View → View × Bool
run_drag (overs e) v = on_drag_over e v
run_drag (enters e) v = on_drag_enter e v
run_drag (leaves e) v = on_drag_leave e v
run_drag (starts e) v = on_drag_start e v

unfoldable pub run_drags : List DragEvent → View → View
unfolding run_drag
run_drags [] v = v
run_drags (x ∷ xs) v = run_drags xs (run_drag x v).0

selection-run_drag :
    (x : DragEvent) (v : View)
    → is_file_drag (drag_of x) ≡ false
    → v.is_dragging ≡ false
    → (run_drag x v).0.is_dragging ≡ false
unfolding run_drag on_drag_over on_drag_enter on_drag_leave on_drag_start
selection-run_drag (overs e) v f d = rw f d
selection-run_drag (enters e) v f d = rw f d
selection-run_drag (leaves e) v f d = elim (Bool-cases e.stays_inside) [
  | inl i ↦ rw i d
  | inr i ↦ rw i refl
]
selection-run_drag (starts e) v f d = rw f d

drags_stay :
    (xs : List DragEvent) (v : View)
    → All (λ x. is_file_drag (drag_of x) ≡ false) xs
    → v.is_dragging ≡ false
    → (run_drags xs v).is_dragging ≡ false
unfolding run_drags
drags_stay [] v h d = d
drags_stay (x ∷ xs) v h d = drags_stay xs (run_drag x v).0 h.1 (selection-run_drag x v h.0 d)

-- Drags of what is not a file, such as a selected text, never raise the overlay, in any order; and a drag
-- that starts on the view is prevented exactly if it is of no file.
selection_drags :
    (xs : List DragEvent) (v : View) (e : Drag)
    → All (λ x. is_file_drag (drag_of x) ≡ false) xs
    → v.is_dragging ≡ false
    → ((run_drags xs v).is_dragging ≡ false) × ((on_drag_start e v).1 ≡ not (is_file_drag e))
unfolding on_drag_start
selection_drags xs v e h d = elim (Bool-cases (is_file_drag e)) [
  | inl f ↦ rw f (drags_stay xs v h d, refl)
  | inr f ↦ rw f (drags_stay xs v h d, refl)
]
