-- ===== src/Terminal/Input/Keys.antt =====
-- Keys and sending in frontend/src/hooks/shiftEnter.ts, frontend/src/hooks/useTerminal.ts and
-- frontend/src/components/Terminal/MobileInputBar.tsx.
use Prim.Native.String.{◌++◌ as ◌<>◌}
use loci_terminal.Common.{ℕ, ◌≡◌, ◌↔◌, ◌≢◌, String, true, false, List, ◌∷◌, some, truthy, arith}
use loci_terminal.Terminal.Line.{Line, open_, bytes, ready_state}
use loci_terminal.Terminal.Input.{
  KeyEvent, shift_enter_text, shift_enter_handler, on_key, send, send_some, send_string, send_bytes,
  send_to_terminal, handle_send,
}

-- The press of Enter with Shift and no other modifier.
pub record IsShiftEnter (e : KeyEvent) : Type 0 where
  pub down : e.type ≡ "keydown"
  pub enter : e.key ≡ "Enter"
  pub shift : e.shift_key ≡ true
  pub no_ctrl : e.ctrl_key ≡ false
  pub no_alt : e.alt_key ≡ false
  pub no_meta : e.meta_key ≡ false

handled_iff : (e : KeyEvent) → ((shift_enter_handler e).1 ≡ false) ↔ IsShiftEnter e
unfolding shift_enter_handler
handled_iff e = (
  (λ h. record {
    down = ground arith;
    enter = ground arith;
    shift = ground arith;
    no_ctrl = ground arith;
    no_alt = ground arith;
    no_meta = ground arith;
  }),
  (λ v.
      let a = v.down in
      let b = v.enter in
      let c = v.shift in
      let d = v.no_ctrl in let f = v.no_alt in let g = v.no_meta in ground arith),
)

module _ (encode : String → List ℕ) where
  -- Over an open socket the key handler keeps a key from xterm exactly when it is Enter with Shift
  -- alone; then ESC and CR go out, and for any other key nothing does.
  on_key-IsShiftEnter :
      (e : KeyEvent) (i : ℕ) (l : Line)
      → l.inst.ws ≡ some i
      → l.sockets i ≡ open_
      → (((on_key encode e l).1 ≡ false) ↔ IsShiftEnter e)
        × (IsShiftEnter e
            → (on_key encode e l).0.sent ≡ (i, bytes (encode shift_enter_text)) ∷ l.sent)
        × ((on_key encode e l).1 ≡ true → (on_key encode e l).0 ≡ l)
  unfolding on_key send_some send_string send_bytes send ready_state shift_enter_handler
  on_key-IsShiftEnter e i l w o =
      (handled_iff e, (λ v. let h = (handled_iff e).1 v in ground arith), (λ h. ground arith))

  -- `sendToTerminal` answers true exactly when the session is known and its socket is open; then the
  -- encoded text is the newest frame, and else nothing changes.
  send_to_terminal_answer :
      (text : String) (i : ℕ) (l : Line)
      → l.inst.ws ≡ some i
      → (((send_to_terminal encode text l).1 ≡ true)
          ↔ ((l.registered ≡ true) × (l.sockets i ≡ open_)))
        × ((send_to_terminal encode text l).1 ≡ true
            → (send_to_terminal encode text l).0.sent ≡ (i, bytes (encode text)) ∷ l.sent)
        × ((send_to_terminal encode text l).1 ≡ false → (send_to_terminal encode text l).0 ≡ l)
  unfolding send_to_terminal send ready_state
  send_to_terminal_answer text i l w = (
    ((λ h. (ground arith, ground arith)), (λ h. ground arith)),
    (λ h. ground arith),
    (λ h. ground arith),
  )

  -- Where `sendToTerminal` would refuse the text, the mobile input bar empties itself all the same, and
  -- nothing has gone out.
  pub handle_send_unsent :
      (id text : String) (l : Line)
      → id ≢ ""
      → (send_to_terminal encode (text <> "\r") l).1 ≡ false
      → handle_send encode (some id) text l ≡ (l, "")
  unfolding handle_send send_to_terminal truthy
  handle_send_unsent id text l ne h = ground arith
