-- ===== src/Terminal/Resize/Sync.antt =====
-- What the server knows of the terminal's size, in frontend/src/hooks/useTerminal.ts.
use loci_terminal.Common.{
  ℕ, ◌<◌, ◌≡◌, refl, sym, ap, ◌∙◌, ltb, ◌||◌, ◌&&◌, not, ◌≢◌, ◌↔◌, inl, inr, true, false,
  Bool-cases, Option-cases, Option, none, some, List, [], ◌∷◌, arith,
}
use loci_terminal.Terminal.Line.{
  Line, Frame, bytes, resize, ready_state, satisfies, is_open, created, connect_web_socket,
  request_ticket, ticket_failed, ticket_received, on_open, on_close, on_error, reconnect_fired,
  connect_mounted, schedule_reconnect, dispose_terminal,
}
use loci_terminal.Terminal.Connect.{
  Step, mounts, fires, receives, refuses, opens, closes, fails, ends, disposes,
}
use loci_terminal.Terminal.Input.{send, send_bytes}
use loci_terminal.Terminal.Resize.{
  Dims, is_last_sent, is_empty, send_dims, report_attached, on_attached, on_resized, report_settled,
  debounce_fired, leave,
}

-- The size in the newest resize frame.
unfoldable pub told : List (ℕ × Frame) → Option Dims
told [] = none
told ((i, resize c r) ∷ fs) = some (record { cols = c; rows = r })
told ((i, bytes b) ∷ fs) = told fs

abbrev cols_of : Option Dims → Option ℕ
cols_of none = none
cols_of (some d) = some d.cols

abbrev rows_of : Option Dims → Option ℕ
rows_of none = none
rows_of (some d) = some d.rows

-- The instance notes just the size in the newest resize frame.
pub record IsSynced (l : Line) : Type 0 where
  pub cols : l.inst.last_sent_cols ≡ cols_of (told l.sent)
  pub rows : l.inst.last_sent_rows ≡ rows_of (told l.sent)

-- What the page does with the size, bytes sent in between, and the life of the connection.
pub data SizeStep (l : Line) : Line → Type 0 where
  attaches : (dims : Option Dims) → SizeStep l (on_attached dims l)
  resizes : (dims : Option Dims) → SizeStep l (on_resized dims l)
  settles : (dims : Option Dims) → SizeStep l (debounce_fired dims l)
  types : (b : List ℕ) → SizeStep l (send_bytes b l)
  leaves : SizeStep l (leave l)
  connects : {l' : Line} → Step l l' → SizeStep l l'

pub data SizeReach : Line → Type 0 where
  begin : SizeReach (connect_web_socket created)
  later : {l l' : Line} → SizeReach l → SizeStep l l' → SizeReach l'

send_dims-told :
    (d : Dims) (l : Line) (i : ℕ) → l.inst.ws ≡ some i → told (send_dims d l).sent ≡ some d
unfolding send_dims send told
send_dims-told d l i e = rw e refl

send_dims-IsSynced :
    (d : Dims) (l : Line) → satisfies is_open (ready_state l) ≡ true → IsSynced (send_dims d l)
unfolding send_dims send told ready_state
send_dims-IsSynced d l o = elim (Option-cases l.inst.ws) [
  | inl e ↦ absurd (ground arith)
  | inr (i, e) ↦ record { cols = ground arith; rows = ground arith }
]

-- The connection's events touch neither what is sent nor what is noted of it.
kept-IsSynced :
    (l l' : Line)
    → l'.sent ≡ l.sent
    → l'.inst.last_sent_cols ≡ l.inst.last_sent_cols
    → l'.inst.last_sent_rows ≡ l.inst.last_sent_rows
    → IsSynced l
    → IsSynced l'
kept-IsSynced l l' s c r v =
    let p = v.cols in
    let q = v.rows in
    record {
      cols = c ∙ p ∙ ap (λ fs. cols_of (told fs)) (sym s);
      rows = r ∙ q ∙ ap (λ fs. rows_of (told fs)) (sym s);
    }

report_attached-IsSynced :
    (dims : Option Dims) (l : Line) → IsSynced l → IsSynced (report_attached dims l)
unfolding report_attached
report_attached-IsSynced none l v = v
report_attached-IsSynced (some d) l v =
    elim (Bool-cases (ltb 0 d.cols && ltb 0 d.rows && satisfies is_open (ready_state l))) [
      | inl e ↦ rw e (send_dims-IsSynced d l (ground arith))
      | inr e ↦ rw e v
    ]

on_resized-IsSynced : (dims : Option Dims) (l : Line) → IsSynced l → IsSynced (on_resized dims l)
unfolding on_resized
on_resized-IsSynced none l v = v
on_resized-IsSynced (some d) l v =
    kept-IsSynced l (on_resized (some d) l) (ground arith) (ground arith) (ground arith) v

report_settled-IsSynced :
    (dims : Option Dims) (l : Line) → IsSynced l → IsSynced (report_settled dims l)
unfolding report_settled
report_settled-IsSynced none l v = v
report_settled-IsSynced (some d) l v =
    elim (Bool-cases (not l.registered || is_empty d || is_last_sent d l || not l.inst.attached)) [
      | inl e ↦ rw e v
      | inr e ↦ elim (Bool-cases (satisfies is_open (ready_state l))) [
        | inl o ↦ rw (e, o) (send_dims-IsSynced d l o)
        | inr o ↦ rw (e, o) v
      ]
    ]

send_bytes-IsSynced : (b : List ℕ) (l : Line) → IsSynced l → IsSynced (send_bytes b l)
unfolding send_bytes send told
send_bytes-IsSynced b l v =
    let p = v.cols in
    let q = v.rows in
    elim (Option-cases l.inst.ws) [
      | inl e ↦ record { cols = ground arith; rows = ground arith }
      | inr (i, e) ↦ record { cols = ground arith; rows = ground arith }
    ]

Step-IsSynced : {l l' : Line} → Step l l' → IsSynced l → IsSynced l'
unfolding connect_mounted reconnect_fired connect_web_socket request_ticket ticket_received
    ticket_failed on_open on_close on_error schedule_reconnect dispose_terminal
Step-IsSynced {l} (mounts r) v = kept-IsSynced l _ (ground arith) (ground arith) (ground arith) v
Step-IsSynced {l} (fires d e) v = kept-IsSynced l _ (ground arith) (ground arith) (ground arith) v
Step-IsSynced {l} (receives m t) v =
    kept-IsSynced l _ (ground arith) (ground arith) (ground arith) v
Step-IsSynced {l} (refuses m k n t) v = kept-IsSynced l _ refl refl refl v
Step-IsSynced {l} (opens i e) v = kept-IsSynced l _ refl refl refl v
Step-IsSynced {l} (closes i k n h) v = kept-IsSynced l _ refl refl refl v
Step-IsSynced {l} (fails i k n h) v = kept-IsSynced l _ refl refl refl v
Step-IsSynced {l} (ends i k n e) v = kept-IsSynced l _ refl refl refl v
Step-IsSynced {l} disposes v = kept-IsSynced l _ (ground arith) (ground arith) (ground arith) v

pub SizeStep-IsSynced : {l l' : Line} → SizeStep l l' → IsSynced l → IsSynced l'
unfolding on_attached debounce_fired leave
SizeStep-IsSynced {l} (attaches dims) v =
    report_attached-IsSynced dims (record l { inst = record l.inst { attached = true } })
      (record { cols = v.cols; rows = v.rows })
SizeStep-IsSynced {l} (resizes dims) v = on_resized-IsSynced dims l v
SizeStep-IsSynced {l} (settles dims) v =
    report_settled-IsSynced dims
      (record l { inst = record l.inst { resize_debounce_timer = none } })
      (record { cols = v.cols; rows = v.rows })
SizeStep-IsSynced {l} (types b) v = send_bytes-IsSynced b l v
SizeStep-IsSynced leaves v = record { cols = v.cols; rows = v.rows }
SizeStep-IsSynced (connects st) v = Step-IsSynced st v

pub SizeReach-IsSynced : {l : Line} → SizeReach l → IsSynced l
unfolding connect_web_socket created told request_ticket ready_state
SizeReach-IsSynced begin = record { cols = refl; rows = refl }
SizeReach-IsSynced (later r st) = SizeStep-IsSynced st (SizeReach-IsSynced r)

dims_ext : {x y : Dims} → x.cols ≡ y.cols → x.rows ≡ y.rows → x ≡ y
dims_ext {x} {y} p q = cc (p, q)

is_last_sent-told :
    (d : Dims) (l : Line) → IsSynced l → (is_last_sent d l ≡ true) ↔ (told l.sent ≡ some d)
is_last_sent-told d l v =
    let p = v.cols in
    let q = v.rows in
    elim (Option-cases (told l.sent)) [
      | inl e ↦ ((λ t. absurd (ground arith)), (λ t. absurd (cc)))
      | inr (x, e) ↦ (
        (λ t.
            let a : x.cols ≡ d.cols = ground arith in
            let b : x.rows ≡ d.rows = ground arith in e ∙ ap some (dims_ext a b)),
        (λ t. ground arith),
      )
    ]

no_socket : (l : Line) → l.inst.ws ≡ none → satisfies is_open (ready_state l) ≢ true
unfolding ready_state
no_socket l q o = ground arith

fired_news :
    (d : Dims) (l : Line)
    → l.registered ≡ true
    → l.inst.attached ≡ true
    → satisfies is_open (ready_state l) ≡ true
    → 0 < d.cols
    → 0 < d.rows
    → is_last_sent d l ≡ false
    → debounce_fired (some d) l
      ≡ send_dims d (record l { inst = record l.inst { resize_debounce_timer = none } })
unfolding debounce_fired report_settled ready_state
fired_news d l r a o c w e = ground arith

-- After any history of the instance: when the debounce ends with a terminal of a size that is not empty,
-- over an attached and open connection, the newest size that went out is the terminal's size; and where
-- it was so already, nothing more goes out.
pub settled_size_is_told :
    (d : Dims) {l : Line}
    → SizeReach l
    → l.registered ≡ true
    → l.inst.attached ≡ true
    → satisfies is_open (ready_state l) ≡ true
    → 0 < d.cols
    → 0 < d.rows
    → let l' = debounce_fired (some d) l in
      (told l'.sent ≡ some d) × (told l.sent ≡ some d → l'.sent ≡ l.sent)
unfolding debounce_fired report_settled
settled_size_is_told d {l} reach r a o c w =
    let (known, noted) = is_last_sent-told d l (SizeReach-IsSynced reach) in
    elim (Bool-cases (is_last_sent d l)) [
      | inl e ↦
          let same : (debounce_fired (some d) l).sent ≡ l.sent = ground arith in
          (ap told same ∙ known e, (λ t. same))
      | inr e ↦ elim (Option-cases l.inst.ws) [
        | inl q ↦ absurd (no_socket l q o)
        | inr (i, q) ↦
            let kept = record l { inst = record l.inst { resize_debounce_timer = none } } in
            let news : debounce_fired (some d) l ≡ send_dims d kept = fired_news d l r a o c w e in
            (
              ap (λ (k : Line). told k.sent) news ∙ send_dims-told d kept i q,
              (λ t. absurd (ground arith)),
            )
      ]
    ]
