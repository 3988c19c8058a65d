-- ===== src/Whole/Typing.antt =====
-- What is typed, and what is sent for it, leaves a connection of frontend/src/hooks/useTerminal.ts as it is.
use loci_terminal.Common.{
  ℕ, ◌+◌, ◌≡◌, refl, sym, ap, ◌∙◌, inl, inr, String, Bool, true, false, not, ◌||◌, List, Option,
  none, some, arith, Bool-cases, Option-cases, if◌then◌else◌, truthy, ltb,
}
use loci_terminal.Terminal.Line.{Line, Frame, bytes, ready_state, satisfies, is_open, is_live}
use loci_terminal.Terminal.Connect.{Inv, has_live}
use loci_terminal.Terminal.Input.{
  send, send_bytes, send_string, send_some, on_composition_start, on_composition_end, on_data,
  on_key, send_to_terminal, shift_enter_handler,
}
use loci_terminal.Terminal.Resize.Sync.{told, IsSynced}
use loci_terminal.Whole.{Types, reports, presses, composes, composed, sends}

-- The connection and the size it was told are the same.
pub record SameLine (l l' : Line) : Type 0 where
  pub ws : l'.inst.ws ≡ l.inst.ws
  pub is_connecting : l'.inst.is_connecting ≡ l.inst.is_connecting
  pub reconnect_timer : l'.inst.reconnect_timer ≡ l.inst.reconnect_timer
  pub registered : l'.registered ≡ l.registered
  pub sockets : l'.sockets ≡ l.sockets
  pub tickets : l'.tickets ≡ l.tickets

SameLine-has_live : {l l' : Line} → SameLine l l' → has_live l' ≡ has_live l
unfolding ready_state
SameLine-has_live {l} {l'} s =
    let ws = s.ws in
    let so : (i : ℕ) → l'.sockets i ≡ l.sockets i = λ i. ap (λ f. f i) s.sockets in
    elim (Option-cases l.inst.ws) [ inl e ↦ ground arith | inr (i, e) ↦ ground (arith, so i) ]

pub SameLine-Inv : {l l' : Line} → SameLine l l' → Inv l → Inv l'
SameLine-Inv {l} {l'} s v =
    let so : (i : ℕ) → l'.sockets i ≡ l.sockets i = λ i. ap (λ f. f i) s.sockets in
    let live = SameLine-has_live s in
    let r = s.registered in
    let c = s.is_connecting in
    let t = s.tickets in
    let d = s.reconnect_timer in
    record {
      single = λ i h. s.ws ∙ v.single i (ap is_live (sym (so i)) ∙ h);
      one_ticket = rw t v.one_ticket;
      waiting = λ h. let w = v.waiting (omega arith) in (c ∙ w.0, λ i. so i ∙ w.1 i);
      unclosing = λ h i. rw (so i) (v.unclosing (sym r ∙ h) i);
      busy = λ h k. elim (v.busy (sym r ∙ h) (sym c ∙ k)) [
        | inl a ↦ inl (omega arith)
        | inr b ↦ inr (live ∙ b)
      ];
      trying = λ h. elim (v.trying (sym r ∙ h)) [
        | inl a ↦ inl (omega arith)
        | inr (inl b) ↦ inr (inl (live ∙ b))
        | inr (inr n) ↦ inr (inr (rw d n))
      ];
    }

pub same_line : (l : Line) → SameLine l l
same_line l = record {
  ws = refl;
  is_connecting = refl;
  reconnect_timer = refl;
  registered = refl;
  sockets = refl;
  tickets = refl;
}

pub then_line : {a b c : Line} → SameLine a b → SameLine b c → SameLine a c
then_line p q = record {
  ws = q.ws ∙ p.ws;
  is_connecting = q.is_connecting ∙ p.is_connecting;
  reconnect_timer = q.reconnect_timer ∙ p.reconnect_timer;
  registered = q.registered ∙ p.registered;
  sockets = q.sockets ∙ p.sockets;
  tickets = q.tickets ∙ p.tickets;
}

-- Both what the connection is and what the server was told of the size.
abbrev pub Quiet : Line → Line → Type 0
Quiet l l' = SameLine l l' × (IsSynced l → IsSynced l')

abbrev quiet : (l : Line) → Quiet l l
quiet l = (same_line l, λ v. v)

then_quiet : {a b c : Line} → Quiet a b → Quiet b c → Quiet a c
then_quiet (p, f) (q, g) = (then_line p q, λ v. g (f v))

pub send-SameLine : (f : Frame) (l : Line) → SameLine l (send f l)
unfolding send
send-SameLine f l = record {
  ws = ground arith;
  is_connecting = ground arith;
  reconnect_timer = ground arith;
  registered = ground arith;
  sockets = ground arith;
  tickets = ground arith;
}

send-IsSynced : (b : List ℕ) (l : Line) → IsSynced l → IsSynced (send (bytes b) l)
unfolding send told
send-IsSynced b l v =
    let p = v.cols in
    let q = v.rows in
    elim (Option-cases l.inst.ws) [
      | inl e ↦ record { cols = ground arith; rows = ground arith }
      | inr (i, e) ↦ record { cols = ground arith; rows = ground arith }
    ]

send-Quiet : (b : List ℕ) (l : Line) → Quiet l (send (bytes b) l)
send-Quiet b l = (send-SameLine (bytes b) l, send-IsSynced b l)

if-Quiet : (b : Bool) (l x y : Line) → Quiet l x → Quiet l y → Quiet l (if b then x else y)
if-Quiet true l x y p q = p
if-Quiet false l x y p q = q

pub send_bytes-Quiet : (b : List ℕ) (l : Line) → Quiet l (send_bytes b l)
unfolding send_bytes
send_bytes-Quiet b l = if-Quiet (satisfies is_open (ready_state l)) l _ l (send-Quiet b l) (quiet l)

-- A flag of the composition changes.
composing-Quiet :
    (b : Bool) (l : Line) → Quiet l (record l { inst = record l.inst { composing = b } })
composing-Quiet b l = (
  record {
    ws = refl;
    is_connecting = refl;
    reconnect_timer = refl;
    registered = refl;
    sockets = refl;
    tickets = refl;
  },
  λ v. record { cols = v.cols; rows = v.rows },
)

suppress-Quiet :
    (n : ℕ) (l : Line)
    → Quiet l (record l { inst = record l.inst { composition_suppress_until = n } })
suppress-Quiet n l = (
  record {
    ws = refl;
    is_connecting = refl;
    reconnect_timer = refl;
    registered = refl;
    sockets = refl;
    tickets = refl;
  },
  λ v. record { cols = v.cols; rows = v.rows },
)

module _ (encode : String → List ℕ) where
  send_some-Quiet : (o : Option String) (l : Line) → Quiet l (send_some encode o l)
  unfolding send_some send_string
  send_some-Quiet none l = quiet l
  send_some-Quiet (some text) l = send_bytes-Quiet (encode text) l

  on_data-Quiet : (text : String) (now : ℕ) (l : Line) → Quiet l (on_data encode text now l)
  unfolding on_data send_string
  on_data-Quiet text now l = if-Quiet l.inst.composing l l _ (quiet l) (
      if-Quiet (ltb now l.inst.composition_suppress_until) l l _ (quiet l)
        (send_bytes-Quiet (encode text) l))

  on_composition_end-Quiet :
      (text : String) (now : ℕ) (l : Line) → Quiet l (on_composition_end encode text now l)
  unfolding on_composition_end
  on_composition_end-Quiet text now l =
      let ended = record l { inst = record l.inst { composing = false } } in
      let sent = send_some encode (truthy (some text)) ended in
      then_quiet (composing-Quiet false l)
        (then_quiet (send_some-Quiet (truthy (some text)) ended) (suppress-Quiet (now + 50) sent))

  send_to_terminal-Quiet : (text : String) (l : Line) → Quiet l (send_to_terminal encode text l).0
  unfolding send_to_terminal
  send_to_terminal-Quiet text l =
      elim (Bool-cases (not l.registered || not (satisfies is_open (ready_state l)))) [
        | inl e ↦ simp e (quiet l)
        | inr e ↦ simp e (send-Quiet (encode text) l)
      ]

  -- Nothing that is typed changes the connection, or what the server was told of the size.
  pub Types-Quiet : {now : ℕ} {l l' : Line} → Types encode now l l' → Quiet l l'
  unfolding on_composition_start on_key
  Types-Quiet {now} {l} (reports text) = on_data-Quiet text now l
  Types-Quiet {now} {l} (presses e) = send_some-Quiet (shift_enter_handler e).0 l
  Types-Quiet {now} {l} composes = composing-Quiet true l
  Types-Quiet {now} {l} (composed text) = on_composition_end-Quiet text now l
  Types-Quiet {now} {l} (sends text) = send_to_terminal-Quiet text l
