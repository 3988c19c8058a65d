-- ===== src/Whole/Sizes.antt =====
-- What the page does with the size of a terminal leaves its connection in frontend/src/hooks/useTerminal.ts as it is.
use loci_terminal.Common.{
  ℕ, refl, Bool, true, false, not, ◌||◌, ◌&&◌, Option, none, some, ltb, if◌then◌else◌,
}
use loci_terminal.Terminal.Line.{Line, resize, ready_state, satisfies, is_open}
use loci_terminal.Terminal.Connect.{Inv}
use loci_terminal.Terminal.Connect.Invariant.{Step-Inv}
use loci_terminal.Terminal.Resize.{
  Dims, is_last_sent, is_empty, send_dims, report_attached, on_attached, on_resized, report_settled,
  debounce_fired, leave,
}
use loci_terminal.Terminal.Resize.Sync.{
  SizeStep, attaches, resizes, settles, types, leaves, connects,
}
use loci_terminal.Whole.Typing.{
  SameLine, SameLine-Inv, same_line, then_line, send-SameLine, send_bytes-Quiet,
}

if-SameLine :
    (b : Bool) (l x y : Line) → SameLine l x → SameLine l y → SameLine l (if b then x else y)
if-SameLine true l x y p q = p
if-SameLine false l x y p q = q

-- A field that is no part of the connection changes.
attached-SameLine : (l : Line) → SameLine l (record l { inst = record l.inst { attached = true } })
attached-SameLine l = record {
  ws = refl;
  is_connecting = refl;
  reconnect_timer = refl;
  registered = refl;
  sockets = refl;
  tickets = refl;
}

debounce-SameLine :
    (o : Option ℕ) (l : Line)
    → SameLine l (record l { inst = record l.inst { resize_debounce_timer = o } })
debounce-SameLine o l = record {
  ws = refl;
  is_connecting = refl;
  reconnect_timer = refl;
  registered = refl;
  sockets = refl;
  tickets = refl;
}

send_dims-SameLine : (d : Dims) (l : Line) → SameLine l (send_dims d l)
unfolding send_dims
send_dims-SameLine d l =
    let noted = record l {
      inst = record l.inst { last_sent_cols = some d.cols; last_sent_rows = some d.rows };
    } in
    then_line
      (record {
        ws = refl;
        is_connecting = refl;
        reconnect_timer = refl;
        registered = refl;
        sockets = refl;
        tickets = refl;
      })
      (send-SameLine (resize d.cols d.rows) noted)

report_attached-SameLine : (dims : Option Dims) (l : Line) → SameLine l (report_attached dims l)
unfolding report_attached
report_attached-SameLine none l = same_line l
report_attached-SameLine (some d) l =
    if-SameLine (ltb 0 d.cols && ltb 0 d.rows && satisfies is_open (ready_state l)) l _ l
      (send_dims-SameLine d l) (same_line l)

on_resized-SameLine : (dims : Option Dims) (l : Line) → SameLine l (on_resized dims l)
unfolding on_resized
on_resized-SameLine none l = same_line l
on_resized-SameLine (some d) l =
    if-SameLine (not l.registered || is_empty d || is_last_sent d l) l l _ (same_line l)
      (debounce-SameLine (some 80) l)

report_settled-SameLine : (dims : Option Dims) (l : Line) → SameLine l (report_settled dims l)
unfolding report_settled
report_settled-SameLine none l = same_line l
report_settled-SameLine (some d) l =
    if-SameLine (not l.registered || is_empty d || is_last_sent d l || not l.inst.attached) l l _
      (same_line l)
      (if-SameLine (satisfies is_open (ready_state l)) l _ l (send_dims-SameLine d l) (same_line l))

pub on_attached-Inv : (dims : Option Dims) (l : Line) → Inv l → Inv (on_attached dims l)
unfolding on_attached
on_attached-Inv dims l v =
    SameLine-Inv
      (then_line (attached-SameLine l)
        (report_attached-SameLine dims (record l { inst = record l.inst { attached = true } })))
      v

-- The connection keeps its invariant also while sizes are reported and bytes sent.
pub SizeStep-Inv : {l l' : Line} → SizeStep l l' → Inv l → Inv l'
unfolding debounce_fired leave
SizeStep-Inv {l} (attaches dims) v = on_attached-Inv dims l v
SizeStep-Inv {l} (resizes dims) v = SameLine-Inv (on_resized-SameLine dims l) v
SizeStep-Inv {l} (settles dims) v =
    SameLine-Inv
      (then_line (debounce-SameLine none l) (
        report_settled-SameLine dims
          (record l { inst = record l.inst { resize_debounce_timer = none } })))
      v
SizeStep-Inv {l} (types b) v = SameLine-Inv (send_bytes-Quiet b l).0 v
SizeStep-Inv {l} leaves v = SameLine-Inv (debounce-SameLine none l) v
SizeStep-Inv (connects st) v = Step-Inv st v
