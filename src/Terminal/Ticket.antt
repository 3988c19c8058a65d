-- ===== src/Terminal/Ticket.antt =====
-- The ticket for a socket and the socket's address: `requestWebSocketTicket` and the URL of `connectWebSocket` in
-- frontend/src/hooks/useTerminal.ts. `encodeURIComponent` is a parameter.
use Prim.Native.String.{◌++◌ as ◌<>◌}
use loci_terminal.Common.{
  ℕ, suc, ◌≡◌, ◌↔◌, refl, arith, inl, inr, Bool-cases, true, String, Bool, Option, none, some,
  if◌then◌else◌,
}
use loci_terminal.Store.Activity.{decimal}
use loci_terminal.Terminal.Line.{Line, ticket_failed, ticket_received, schedule_reconnect}
use loci_terminal.Terminal.Connect.{Step, receives, refuses}

-- What matters of a JSON value: the field `ticket` of an object, if it has one, and whether it is a text.
pub data Field : Type 0 where
  missing other : Field
  written : String → Field

pub data Json : Type 0 where
  no_object : Json
  object : Field → Json

-- The answer to the request, with its body where that is JSON.
pub record Reply : Type 0 where
  pub ok : Bool
  pub status : ℕ
  pub body : Option Json

-- What the promise comes to: a ticket, an error with its message, or the rejection of `fetch` or `json`.
pub data TicketOutcome : Type 0 where
  granted failed : String → TicketOutcome
  rejected : TicketOutcome

-- `isWebSocketTicketResponse`, with the ticket.
unfoldable pub ticket_response : Json → Option String
ticket_response no_object = none
ticket_response (object missing) = none
ticket_response (object other) = none
ticket_response (object (written ticket)) = some ticket

abbrev pub read_body : Option Json → TicketOutcome
read_body none = rejected
read_body (some j) = elim (ticket_response j) [
  | none ↦ failed "invalid WebSocket ticket response"
  | some ticket ↦ granted ticket
]

-- `requestWebSocketTicket`; nothing stands for a `fetch` that rejects.
unfoldable pub request_web_socket_ticket : Option Reply → TicketOutcome
unfolding ticket_response
request_web_socket_ticket none = rejected
request_web_socket_ticket (some r) =
    if r.ok
    then read_body r.body
    else failed ("failed to request WebSocket ticket: " <> decimal r.status)

-- What `requestWebSocketTicket` takes for a ticket: the text in the field of an object, in an answer that
-- is a success and JSON.
abbrev pub Grants : Option Reply → String → Type 0
Grants none ticket = ⊥
Grants (some r) ticket = (r.ok ≡ true) × (r.body ≡ some (object (written ticket)))

read_body_iff :
    (b : Option Json) (ticket : String)
    → (read_body b ≡ granted ticket) ↔ (b ≡ some (object (written ticket)))
unfolding ticket_response
read_body_iff none ticket = ((λ e. absurd (cc)), (λ e. absurd (cc)))
read_body_iff (some no_object) ticket = ((λ e. absurd (cc)), (λ e. absurd (cc)))
read_body_iff (some (object missing)) ticket = ((λ e. absurd (cc)), (λ e. absurd (cc)))
read_body_iff (some (object other)) ticket = ((λ e. absurd (cc)), (λ e. absurd (cc)))
read_body_iff (some (object (written t))) ticket = ((λ e. cc), (λ e. cc))

-- What `connectWebSocket` does with it, where the delay of a reconnection has the random numbers k and n.
unfoldable pub settle_ticket : ℕ → ℕ → TicketOutcome → Line → Line
settle_ticket k n (granted ticket) l = ticket_received l
settle_ticket k n (failed message) l = ticket_failed k n l
settle_ticket k n rejected l = ticket_failed k n l

granted_iff :
    (reply : Option Reply) (ticket : String)
    → (request_web_socket_ticket reply ≡ granted ticket) ↔ Grants reply ticket
unfolding request_web_socket_ticket
granted_iff none ticket = ((λ e. absurd (cc)), (λ h. absurd h))
granted_iff (some r) ticket = elim (Bool-cases r.ok) [
  | inl q ↦
      rw q
        ((λ e. (refl, (read_body_iff r.body ticket).0 e)), λ h. (read_body_iff r.body ticket).1 h.1)
  | inr q ↦ rw q ((λ e. absurd (cc)), λ h. absurd (cc (h.0)))
]

opened_iff :
    (k n : ℕ) (o : TicketOutcome) (l : Line)
    → ((settle_ticket k n o l).opened ≡ suc l.opened)
      ↔ ((l.registered ≡ true) × ((ticket : String) × (o ≡ granted ticket)))
unfolding settle_ticket ticket_received ticket_failed schedule_reconnect
opened_iff k n (granted ticket) l = elim (Bool-cases l.registered) [
  | inl q ↦ rw q ((λ e. (refl, (ticket, refl))), λ h. refl)
  | inr q ↦ rw q ((λ e. absurd (omega arith)), λ h. absurd (cc (h.0)))
]
opened_iff k n (failed message) l = ((λ e. absurd (omega arith)), λ h. absurd (cc (h.1.1)))
opened_iff k n rejected l = ((λ e. absurd (omega arith)), λ h. absurd (cc (h.1.1)))

-- `requestWebSocketTicket` resolves with a ticket exactly when the answer is a success whose body is JSON and
-- passes the type guard with just that text; and `connectWebSocket` then constructs a socket exactly when there
-- is such a ticket and the session is still in `instances`.
pub ticket_guards_socket :
    (k n : ℕ) (reply : Option Reply) (l : Line)
    → let o = request_web_socket_ticket reply in
      ((ticket : String) → (o ≡ granted ticket) ↔ Grants reply ticket)
      × (((settle_ticket k n o l).opened ≡ suc l.opened)
          ↔ ((l.registered ≡ true) × ((ticket : String) × Grants reply ticket)))
ticket_guards_socket k n reply l =
    let (there, back) = opened_iff k n (request_web_socket_ticket reply) l in
    (
      granted_iff reply,
      (
        (λ e. let (r, (t, q)) = there e in (r, (t, (granted_iff reply t).0 q))),
        (λ h. back (h.0, (h.1.0, (granted_iff reply h.1.0).1 h.1.1))),
      ),
    )

-- Whatever the server answers to the request for a ticket, the connection goes on by a step of its life.
settle_ticket-Step :
    (k n m : ℕ) (reply : Option Reply) (l : Line)
    → l.tickets ≡ suc m
    → Step l (settle_ticket k n (request_web_socket_ticket reply) (record l { tickets = m }))
unfolding settle_ticket
settle_ticket-Step k n m reply l e = go (request_web_socket_ticket reply)
  where
    go : (o : TicketOutcome) → Step l (settle_ticket k n o (record l { tickets = m }))
    go (granted ticket) = receives m e
    go (failed message) = refuses m k n e
    go rejected = refuses m k n e

-- The address of the socket of the session `sid`.
unfoldable pub socket_url : (String → String) → Bool → String → String → String → String
socket_url encode secure host sid ticket =
    (if secure then "wss:" else "ws:")
    <> ("//" <> (host <> ("/api/v1/ws/terminal/" <> (sid <> ("?ticket=" <> encode ticket)))))
