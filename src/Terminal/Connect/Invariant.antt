-- ===== src/Terminal/Connect/Invariant.antt =====
-- The invariant of a terminal connection of frontend/src/hooks/useTerminal.ts, kept by every step.
use loci_terminal.Common.{
  subst, ℕ, ◌≤◌, ◌<◌, ◌≡◌, refl, ◌≢◌, ◌⊎◌, inl, inr, true, not, ◌||◌, Option, none, some, arith,
  Bool-cases,
}
use loci_terminal.Terminal.Line.{
  ReadyState, closed, is_live, is_closed, satisfies, Line, created, ready_state, connect_web_socket,
  on_close, on_error, reconnect_fired, connect_mounted, close_socket, dispose_terminal,
}
use loci_terminal.Terminal.Connect.{
  Step, mounts, fires, receives, refuses, opens, closes, fails, ends, disposes, Reach, start, next,
  Inv, has_live,
}
use loci_terminal.Terminal.Connect.Sockets.{
  with_timer, request_ticket-Inv, connect_web_socket-Inv, ticket_received-Inv, ticket_failed-Inv,
  on_open-Inv, no_ticket, on_close-Inv,
}

close_socket_live :
    (o : Option ℕ) (sockets : ℕ → ReadyState) (i : ℕ)
    → is_live (close_socket o sockets i) ≡ true
    → is_live (sockets i) ≡ true
unfolding close_socket
close_socket_live none sockets i h = h
close_socket_live (some j) sockets i h = ground arith

close_socket_closed :
    (o : Option ℕ) (sockets : ℕ → ReadyState) (i : ℕ)
    → sockets i ≡ closed
    → close_socket o sockets i ≡ closed
unfolding close_socket
close_socket_closed none sockets i h = h
close_socket_closed (some j) sockets i h = ground arith

dispose_terminal-Inv : (l : Line) → Inv l → Inv (dispose_terminal l)
unfolding dispose_terminal
dispose_terminal-Inv l v = elim (Bool-cases l.registered) [
  | inr e ↦ simp e v
  | inl e ↦ simp e (record {
    single = λ i h. v.single i (close_socket_live l.inst.ws l.sockets i h);
    one_ticket = v.one_ticket;
    waiting = λ h.
        ((v.waiting h).0, (λ i. close_socket_closed l.inst.ws l.sockets i ((v.waiting h).1 i)));
    unclosing = λ h. absurd (cc);
    busy = λ h. absurd (cc);
    trying = λ h. absurd (cc);
  })
]

connect_mounted-Inv : (l : Line) → l.registered ≡ true → Inv l → Inv (connect_mounted l)
unfolding connect_mounted
connect_mounted-Inv l r v = elim (Bool-cases (satisfies (λ s. not (is_closed s)) (ready_state l))) [
  | inl e ↦ simp e v
  | inr e ↦ simp e (connect_web_socket-Inv l r v)
]

-- The timeout is used up, and no attempt begins: one is under way, or the line is up.
spent-Inv :
    (l : Line)
    → (l.registered ≡ true → (l.inst.is_connecting || has_live l) ≡ true)
    → Inv l
    → Inv (with_timer none l)
unfolding ready_state
spent-Inv l up v = record {
  single = v.single;
  one_ticket = v.one_ticket;
  waiting = v.waiting;
  unclosing = v.unclosing;
  busy = v.busy;
  trying = λ r. elim (Bool-cases (has_live l)) [
    | inl e ↦ inr (inl e)
    | inr e ↦ let b = v.busy r in let u = up r in ground arith
  ];
}

connect_fired-Inv :
    (l : Line) → l.registered ≡ true → Inv l → Inv (connect_web_socket (with_timer none l))
unfolding connect_web_socket ready_state
connect_fired-Inv l e v = elim (Bool-cases (l.inst.is_connecting || has_live l)) [
  | inl f ↦ simp f (spent-Inv l (λ _. f) v)
  | inr f ↦ simp f (request_ticket-Inv none l e (ground arith) (ground arith) v)
]

reconnect_fired-Inv : (l : Line) → Inv l → Inv (reconnect_fired l)
unfolding reconnect_fired
reconnect_fired-Inv l v = elim (Bool-cases l.registered) [
  | inl e ↦
      let same : connect_web_socket (with_timer none l) ≡ reconnect_fired l = ground arith in
      subst Inv same (connect_fired-Inv l e v)
  | inr e ↦
      let same : with_timer none l ≡ reconnect_fired l = ground arith in
      subst Inv same (spent-Inv l (λ r. absurd (cc)) v)
]

pub started-Inv : Inv (connect_web_socket created)
unfolding connect_web_socket created ready_state
started-Inv = record {
  single = λ i h. absurd (cc);
  one_ticket = omega arith;
  waiting = λ h. (refl, (λ i. refl));
  unclosing = λ r i h. cc;
  busy = λ r h. inl (omega arith);
  trying = λ r. inl (omega arith);
}

pub Step-Inv : {l l' : Line} → Step l l' → Inv l → Inv l'
unfolding on_error on_close
Step-Inv {l} (mounts r) v = connect_mounted-Inv l r v
Step-Inv {l} (fires d e) v = reconnect_fired-Inv l v
Step-Inv {l} (receives m t) v = ticket_received-Inv l m t v
Step-Inv {l} (refuses m k n t) v = ticket_failed-Inv k n l m t v
Step-Inv {l} (opens i e) v = on_open-Inv l i e v
Step-Inv {l} (closes i k n h) v = on_close-Inv l i k n (λ e. ground arith) v
Step-Inv {l} (fails i k n h) v = on_close-Inv l i k n (λ e. ground arith) v
Step-Inv {l} (ends i k n e) v = on_close-Inv l i k n (λ f. cc) v
Step-Inv {l} disposes v = dispose_terminal-Inv l v

pub Reach-Inv : {l : Line} → Reach l → Inv l
Reach-Inv start = started-Inv
Reach-Inv (next r st) = Step-Inv st (Reach-Inv r)

-- Through every history of mounts, timeouts, tickets, openings, failures and closes, in which a socket is
-- closed by its peer in one event, an instance has at most one socket that is connecting or open, that
-- one is in `inst.ws` with no ticket in flight, and no two tickets are in flight.
pub one_live_socket :
    {l : Line}
    → Reach l
    → ((i j : ℕ) → is_live (l.sockets i) ≡ true → is_live (l.sockets j) ≡ true → i ≡ j)
      × ((i : ℕ) → is_live (l.sockets i) ≡ true → (l.inst.ws ≡ some i) × (l.tickets ≡ 0))
      × (l.tickets ≤ 1)
one_live_socket {l} r =
    let v = Reach-Inv r in
    (
      (λ i j p q. let a = v.single i p in let b = v.single j q in cc),
      (λ i p. (v.single i p, no_ticket l i (λ e. ground arith) v)),
      v.one_ticket,
    )

-- After every such history the line of a session in `instances` has not given up: a ticket is in flight,
-- or the current socket is connecting or open, or a reconnection is on record.
pub never_gives_up :
    {l : Line}
    → Reach l
    → l.registered ≡ true
    → (0 < l.tickets) ⊎ (has_live l ≡ true) ⊎ (l.inst.reconnect_timer ≢ none)
never_gives_up r = (Reach-Inv r).trying
