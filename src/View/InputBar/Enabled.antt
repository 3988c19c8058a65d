-- ===== src/View/InputBar/Enabled.antt =====
-- What the bar of frontend/src/components/Terminal/MobileInputBar.tsx can do without a session.
use loci_terminal.Common.{
  ℕ, ◌≡◌, refl, ◌↔◌, inl, inr, String, List, Option, none, is, if◌then◌else◌, truthy, not, ◌&&◌,
  ◌≢◌, Bool-cases, Option-cases, str_dec, arith,
}
use loci_terminal.Terminal.Line.{Line}
use loci_terminal.Terminal.Input.{KeyEvent, handle_send, on_key_down}
use loci_terminal.Theme.Colors.{UiColors}
use loci_terminal.View.Html.{marked}
use loci_terminal.View.InputBar.{
  BarAction, types_text, presses_text, sends, taps, input_bar, is_known, send_key, run_bar,
}

bar-marked :
    (ui : UiColors) (session : Option String) (value : String)
    → marked "disabled" (input_bar ui session value) ≡ (if is_known (truthy session) then 0 else 1)
unfolding input_bar marked str_dec Bool-cases
bar-marked ui session value = elim (Option-cases (truthy session)) [
  | inl e ↦ rw e refl
  | inr (id, e) ↦ rw e refl
]

-- Nothing in the bar is disabled exactly where there is a session; and where there is none, no control of
-- the bar changes the line, whatever the text, the key and the value of the field.
bar_needs_session :
    (encode : String → List ℕ) (ui : UiColors) (session : Option String) (value t : String)
    (e : KeyEvent) (a : BarAction) (l : Line)
    → ((marked "disabled" (input_bar ui session t) ≡ 0) ↔ (truthy session ≢ none))
      × (truthy session ≡ none → (run_bar encode session value e a (l, t)).0 ≡ l)
unfolding run_bar send_key handle_send on_key_down
bar_needs_session encode ui session value t e a l = (enabled, idle a)
  where
    enabled : (marked "disabled" (input_bar ui session t) ≡ 0) ↔ (truthy session ≢ none)
    enabled = elim (Option-cases (truthy session)) [
      | inl q ↦
          let m = bar-marked ui session t in ((λ x. absurd (ground arith)), (λ x. absurd (x q)))
      | inr (id, q) ↦
          let m = bar-marked ui session t in ((λ x y. absurd (ground arith)), (λ x. ground arith))
    ]

    idle : (a : BarAction) → truthy session ≡ none → (run_bar encode session value e a (l, t)).0 ≡ l
    idle types_text q = refl
    idle presses_text q = elim (Bool-cases (is e.key "Enter" && not e.shift_key)) [
      | inl k ↦ rw (k, handle_send, q) refl
      | inr k ↦ rw k refl
    ]
    idle sends q = rw (run_bar, handle_send, q) refl
    idle (taps bytes) q = rw (run_bar, send_key, q) refl
