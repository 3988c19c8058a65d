-- ===== src/Terminal/Connect/Sockets.antt =====
-- Tickets, openings and ends of sockets in frontend/src/hooks/useTerminal.ts keep the invariant of a
-- connection.
use loci_terminal.Common.{
  ltb, ℕ, suc, ◌≡◌, refl, ◌≢◌, inl, inr, true, false, ◌||◌, Option, some, arith, Bool-cases,
}
use loci_terminal.Terminal.Line.{
  connecting, open_, closing, closed, request_ticket, is_live, Line, ready_state,
  schedule_reconnect, connect_web_socket, ticket_failed, ticket_received, on_open, on_close,
}
use loci_terminal.Terminal.Connect.{Inv, has_live, set_socket}

-- Without a current live socket there is no live one.
all_dead : (l : Line) → Inv l → has_live l ≡ false → (i : ℕ) → is_live (l.sockets i) ≡ false
unfolding ready_state
all_dead l v e i = elim (Bool-cases (is_live (l.sockets i))) [
  | inr f ↦ f
  | inl t ↦ absurd (let w = v.single i t in ground arith)
]

all_closed :
    (l : Line) → Inv l → l.registered ≡ true → has_live l ≡ false → (i : ℕ) → l.sockets i ≡ closed
all_closed l v r e i = let d = all_dead l v e i in let c = v.unclosing r i in ground arith

abbrev pub with_timer : Option ℕ → Line → Line
with_timer o l = record l { inst = record l.inst { reconnect_timer = o } }

pub request_ticket-Inv :
    (o : Option ℕ) (l : Line)
    → l.registered ≡ true
    → l.inst.is_connecting ≡ false
    → has_live l ≡ false
    → Inv l
    → Inv (request_ticket (with_timer o l))
unfolding request_ticket ready_state
request_ticket-Inv o l r c e v =
    let shut = all_closed l v r e in
    record {
      single = v.single;
      one_ticket = let w = v.waiting in ground arith;
      waiting = λ _. (refl, shut);
      unclosing = v.unclosing;
      busy = λ _ _. inl (omega arith);
      trying = λ _. inl (omega arith);
    }

pub connect_web_socket-Inv : (l : Line) → l.registered ≡ true → Inv l → Inv (connect_web_socket l)
unfolding connect_web_socket
connect_web_socket-Inv l r v = elim (Bool-cases (l.inst.is_connecting || has_live l)) [
  | inl e ↦ simp e v
  | inr e ↦ simp e (request_ticket-Inv l.inst.reconnect_timer l r (ground arith) (ground arith) v)
]

pub ticket_received-Inv :
    (l : Line) (m : ℕ)
    → l.tickets ≡ suc m
    → Inv l
    → Inv (ticket_received (record l { tickets = m }))
unfolding ticket_received
ticket_received-Inv l m t v =
    let (c, shut) = v.waiting (omega arith) in
    elim (Bool-cases l.registered) [
      | inl e ↦ simp e (record {
        single = λ i h. let q = shut i in ground arith;
        one_ticket = let o = v.one_ticket in omega arith;
        waiting = λ h. absurd (let o = v.one_ticket in omega arith);
        unclosing = λ _ i h. let q = shut i in ground arith;
        busy = λ _ _. inr (unfold ready_state in ground arith);
        trying = λ _. inr (inl (unfold ready_state in ground arith));
      })
      | inr e ↦ simp e (record {
        single = v.single;
        one_ticket = let o = v.one_ticket in omega arith;
        waiting = λ h. absurd (let o = v.one_ticket in omega arith);
        unclosing = λ h. absurd (ground arith);
        busy = λ h. absurd (ground arith);
        trying = λ h. absurd (ground arith);
      })
    ]

-- A failed attempt, or the end of a socket: no attempt is left, and a new one is scheduled.
settled-Inv :
    (k n : ℕ) (l : Line)
    → l.tickets ≡ 0
    → ((i : ℕ) → is_live (l.sockets i) ≡ true → l.inst.ws ≡ some i)
    → (l.registered ≡ true → (i : ℕ) → l.sockets i ≢ closing)
    → Inv (on_close k n l)
unfolding on_close schedule_reconnect
settled-Inv k n l none_left single unclosing = record {
  single = single;
  one_ticket = omega arith;
  waiting = λ h. absurd (omega arith);
  unclosing = unclosing;
  busy = λ _ h. absurd (cc);
  trying = λ _. inr (inr (λ e. cc));
}

pub ticket_failed-Inv :
    (k n : ℕ) (l : Line) (m : ℕ)
    → l.tickets ≡ suc m
    → Inv l
    → Inv (ticket_failed k n (record l { tickets = m }))
unfolding ticket_failed on_close
ticket_failed-Inv k n l m t v =
    settled-Inv k n (record l { tickets = m }) (let o = v.one_ticket in omega arith) v.single
      v.unclosing

pub on_open-Inv :
    (l : Line) (i : ℕ) → l.sockets i ≡ connecting → Inv l → Inv (on_open (set_socket i open_ l))
unfolding on_open
on_open-Inv l i e v =
    let current = v.single i (ground arith) in
    record {
      single = λ j h. let s = v.single j in ground arith;
      one_ticket = v.one_ticket;
      waiting = λ h. absurd (let s = (v.waiting h).1 i in ground arith);
      unclosing = λ r j h. let u = v.unclosing r j in ground arith;
      busy = λ r h. absurd (cc);
      trying = λ r. inr (inl (unfold ready_state in ground arith));
    }

pub no_ticket : (l : Line) (i : ℕ) → l.sockets i ≢ closed → Inv l → l.tickets ≡ 0
no_ticket l i ne v = elim (Bool-cases (ltb 0 l.tickets)) [
  | inl e ↦ absurd (ne ((v.waiting (ground arith)).1 i))
  | inr e ↦ ground arith
]

-- A socket that is not closed ends.
pub on_close-Inv :
    (l : Line) (i k n : ℕ)
    → l.sockets i ≢ closed
    → Inv l
    → Inv (on_close k n (set_socket i closed l))
on_close-Inv l i k n ne v =
    settled-Inv k n (set_socket i closed l) (no_ticket l i ne v)
      (λ j h. let s = v.single j in ground arith) (λ r j h. let u = v.unclosing r j in ground arith)
