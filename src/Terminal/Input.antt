-- ===== src/Terminal/Input.antt =====
-- What the user types: `bindInputListeners` and `sendToTerminal` of frontend/src/hooks/useTerminal.ts,
-- frontend/src/hooks/shiftEnter.ts, and the sending of
-- frontend/src/components/Terminal/MobileInputBar.tsx. `TextEncoder.encode` is a parameter;
-- `performance.now()` is the argument `now`.
pub mod Composition
pub mod Keys
use Prim.Native.String.{◌++◌ as ◌<>◌}
use loci_terminal.Common.{
  ℕ, ◌+◌, ◌%◌, String, Bool, true, false, ◌||◌, ◌&&◌, not, List, [], ◌∷◌, map, Option, none, some,
  if◌then◌else◌, is, ltb, truthy,
}
use loci_terminal.Terminal.Line.{Line, Instance, Frame, bytes, ready_state, satisfies, is_open}

-- `ws.send(frame)` on the current socket.
unfoldable pub send : Frame → Line → Line
send f l = elim l.inst.ws [ none ↦ l | some i ↦ record l { sent = (i, f) ∷ l.sent } ]

-- `sendBytes`
unfoldable pub send_bytes : List ℕ → Line → Line
send_bytes b l = if satisfies is_open (ready_state l) then send (bytes b) l else l

-- `compositionstart`
unfoldable pub on_composition_start : Line → Line
on_composition_start l = record l { inst = record l.inst { composing = true } }

-- `onBinary`: a byte array keeps the low byte of each code unit.
unfoldable pub on_binary : List ℕ → Line → Line
on_binary units l = send_bytes (map (λ c. c % 256) units) l

-- A `KeyboardEvent`
pub record KeyEvent : Type 0 where
  pub type : String
  pub key : String
  pub shift_key : Bool
  pub ctrl_key : Bool
  pub alt_key : Bool
  pub meta_key : Bool

-- ESC and CR
abbrev pub shift_enter_text : String
shift_enter_text = "\u{1b}\r"

-- The handler of `createShiftEnterHandler`: what it passes to `send`, and what it returns.
unfoldable pub shift_enter_handler : KeyEvent → Option String × Bool
shift_enter_handler e =
    if not (is e.type "keydown")
    then (none, true)
    else if not (is e.key "Enter")
    then (none, true)
    else if not e.shift_key
    then (none, true)
    else if e.ctrl_key || e.alt_key || e.meta_key
    then (none, true)
    else (some shift_enter_text, false)

module _ (encode : String → List ℕ) where
  -- `sendString`
  unfoldable pub send_string : String → Line → Line
  send_string text l = send_bytes (encode text) l

  unfoldable pub send_some : Option String → Line → Line
  send_some none l = l
  send_some (some text) l = send_string text l

  -- `compositionend`
  unfoldable pub on_composition_end : String → ℕ → Line → Line
  on_composition_end text now l =
      let sent =
        send_some (truthy (some text)) (record l { inst = record l.inst { composing = false } }) in
      record sent { inst = record sent.inst { composition_suppress_until = now + 50 } }

  -- `onData`
  unfoldable pub on_data : String → ℕ → Line → Line
  on_data text now l =
      if l.inst.composing
      then l
      else if ltb now l.inst.composition_suppress_until
      then l
      else send_string text l

  -- The custom key handler; what it returns is whether xterm handles the key as well.
  unfoldable pub on_key : KeyEvent → Line → Line × Bool
  on_key e l = let (text, handled) = shift_enter_handler e in (send_some text l, handled)

  -- `sendToTerminal`, with its answer.
  unfoldable pub send_to_terminal : String → Line → Line × Bool
  send_to_terminal text l =
      if not l.registered || not (satisfies is_open (ready_state l))
      then (l, false)
      else (send (bytes (encode text)) l, true)

  -- `handleSend` of the mobile input bar: the line afterwards and the text left in the bar.
  unfoldable pub handle_send : Option String → String → Line → Line × String
  handle_send session_id text l = elim (truthy session_id) [
    | none ↦ (l, text)
    | some id ↦ ((send_to_terminal (text <> "\r") l).0, "")
  ]

  -- `onKeyDown` of the mobile input bar.
  unfoldable pub on_key_down : KeyEvent → Option String → String → Line → Line × String
  on_key_down e session_id text l =
      if is e.key "Enter" && not e.shift_key then handle_send session_id text l else (l, text)
