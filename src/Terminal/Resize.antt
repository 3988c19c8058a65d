-- ===== src/Terminal/Resize.antt =====
-- The size that the server is told: the 'attached' message, the `ResizeObserver` and its debounced
-- report in frontend/src/hooks/useTerminal.ts. `FitAddon.proposeDimensions()` is an argument.
pub mod Sync
use loci_terminal.Common.{
  ℕ, zero, Bool, true, false, ◌||◌, ◌&&◌, not, Option, none, some, if◌then◌else◌, eqb, ltb, ite,
  ℕ_discrete, List, [], ◌∷◌,
}
use loci_terminal.Terminal.Line.{
  Line, Instance, Frame, resize, bytes, ready_state, satisfies, is_open,
}
use loci_terminal.Terminal.Input.{send}

pub record Dims : Type 0 where
  pub cols : ℕ
  pub rows : ℕ

abbrev pub is_some_of : Option ℕ → ℕ → Bool
is_some_of none n = false
is_some_of (some m) n = eqb m n

-- `dims.cols === inst.lastSentCols && dims.rows === inst.lastSentRows`
abbrev pub is_last_sent : Dims → Line → Bool
is_last_sent d l =
    is_some_of l.inst.last_sent_cols d.cols && is_some_of l.inst.last_sent_rows d.rows

abbrev pub is_empty : Dims → Bool
is_empty d = eqb d.cols 0 || eqb d.rows 0

-- The size goes out over the current socket and is noted.
unfoldable pub send_dims : Dims → Line → Line
unfolding send
send_dims d l = send (resize d.cols d.rows) (record l {
  inst = record l.inst { last_sent_cols = some d.cols; last_sent_rows = some d.rows };
})

-- The 'attached' message, where `inst.attached` is set already.
unfoldable pub report_attached : Option Dims → Line → Line
unfolding send_dims
report_attached none l = l
report_attached (some d) l =
    if ltb 0 d.cols && ltb 0 d.rows && satisfies is_open (ready_state l) then send_dims d l else l

-- `ws.onmessage` for an 'attached' message.
unfoldable pub on_attached : Option Dims → Line → Line
on_attached dims l = report_attached dims (record l { inst = record l.inst { attached = true } })

-- The callback of the `ResizeObserver`: the debounce starts again.
unfoldable pub on_resized : Option Dims → Line → Line
on_resized none l = l
on_resized (some d) l =
    if not l.registered || is_empty d || is_last_sent d l
    then l
    else record l { inst = record l.inst { resize_debounce_timer = some 80 } }

-- The callback of the debounce, once its timeout is no longer pending.
unfoldable pub report_settled : Option Dims → Line → Line
unfolding send_dims
report_settled none l = l
report_settled (some d) l =
    if not l.registered || is_empty d || is_last_sent d l || not l.inst.attached
    then l
    else if satisfies is_open (ready_state l)
    then send_dims d l
    else l

unfoldable pub debounce_fired : Option Dims → Line → Line
debounce_fired dims l =
    report_settled dims (record l { inst = record l.inst { resize_debounce_timer = none } })

-- The clean-up of the effect: no observer calls back from then on, and the debounce is dropped.
unfoldable pub leave : Line → Line
leave l = record l { inst = record l.inst { resize_debounce_timer = none } }
