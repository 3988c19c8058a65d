-- ===== src/Terminal/Connect.antt =====
-- The life of a terminal connection of frontend/src/hooks/useTerminal.ts as a step relation, and what
-- holds all along it.
pub mod Sockets
pub mod Invariant
pub mod Doubles
use loci_terminal.Common.{
  ltb, subst, ℕ, zero, suc, ◌+◌, ◌≤◌, ◌<◌, ◌≡◌, refl, sym, ◌∙◌, ◌≢◌, ◌⊎◌, inl, inr, Bool, true,
  false, not, ◌||◌, Option, none, some, ℕ_discrete, arith, Bool-cases, Option-cases,
}
use loci_terminal.Terminal.Line.{
  ReadyState, connecting, open_, closing, closed, request_ticket, is_live, is_closed, satisfies,
  with_state, Line, created, ready_state, schedule_reconnect, connect_web_socket, ticket_failed,
  ticket_received, on_open, on_close, on_error, reconnect_fired, connect_mounted, close_socket,
  dispose_terminal,
}

abbrev pub set_socket : ℕ → ReadyState → Line → Line
set_socket i r l = record l { sockets = with_state i r l.sockets }

-- One event of the page or the browser. A peer's close is seen as one event, from a live socket to a
-- closed one; `disposeTerminal` alone leaves a socket closing, and its session is not opened again.
pub data Step (l : Line) : Line → Type 0 where
  mounts : l.registered ≡ true → Step l (connect_mounted l)
  fires : (d : ℕ) → l.inst.reconnect_timer ≡ some d → Step l (reconnect_fired l)
  receives : (m : ℕ) → l.tickets ≡ suc m → Step l (ticket_received (record l { tickets = m }))
  refuses : (m k n : ℕ) → l.tickets ≡ suc m → Step l (ticket_failed k n (record l { tickets = m }))
  opens : (i : ℕ) → l.sockets i ≡ connecting → Step l (on_open (set_socket i open_ l))
  closes :
      (i k n : ℕ) → is_live (l.sockets i) ≡ true → Step l (on_close k n (set_socket i closed l))
  fails :
      (i k n : ℕ)
      → is_live (l.sockets i) ≡ true
      → Step l (on_close k n (on_error (set_socket i closed l)))
  ends : (i k n : ℕ) → l.sockets i ≡ closing → Step l (on_close k n (set_socket i closed l))
  disposes : Step l (dispose_terminal l)

pub data Reach : Line → Type 0 where
  start : Reach (connect_web_socket created)
  next : {l l' : Line} → Reach l → Step l l' → Reach l'

abbrev pub has_live : Line → Bool
has_live l = satisfies is_live (ready_state l)

pub record Inv (l : Line) : Type 0 where
  pub single : (i : ℕ) → is_live (l.sockets i) ≡ true → l.inst.ws ≡ some i
  pub one_ticket : l.tickets ≤ 1
  pub waiting : 0 < l.tickets → (l.inst.is_connecting ≡ true) × ((i : ℕ) → l.sockets i ≡ closed)
  pub unclosing : l.registered ≡ true → (i : ℕ) → l.sockets i ≢ closing
  pub busy :
      l.registered ≡ true → l.inst.is_connecting ≡ true → (0 < l.tickets) ⊎ (has_live l ≡ true)
  pub trying :
      l.registered ≡ true → (0 < l.tickets) ⊎ (has_live l ≡ true) ⊎ (l.inst.reconnect_timer ≢ none)
