-- ===== src/Terminal/Line.antt =====
-- One terminal instance of frontend/src/hooks/useTerminal.ts and its WebSockets: `TerminalInstance`,
-- `scheduleReconnect`, `connectWebSocket` with its socket handlers, and `disposeTerminal`.
--
-- A socket is a number, given out in the order of construction. The browser's side is modelled by the
-- state of each socket, the ticket requests in flight and the pending timeouts. xterm itself, the
-- rendering and the texts on the screen are left out.
use loci_terminal.Common.{
  ℕ, suc, ◌+◌, Bool, true, false, ◌||◌, not, List, [], Option, none, some, ite, ℕ_discrete,
  if◌then◌else◌,
}
use loci_terminal.Terminal.Backoff.{next_reconnect_delay}

-- `WebSocket.readyState`
pub data ReadyState : Type 0 where
  connecting open_ closing closed : ReadyState

abbrev pub is_open : ReadyState → Bool
is_open open_ = true
is_open _ = false

-- The states that keep `connectWebSocket` from starting.
abbrev pub is_live : ReadyState → Bool
is_live connecting = true
is_live open_ = true
is_live _ = false

abbrev pub is_closed : ReadyState → Bool
is_closed closed = true
is_closed _ = false

-- What goes out over a socket.
pub data Frame : Type 0 where
  bytes : List ℕ → Frame
  resize : ℕ → ℕ → Frame

-- The fields of `TerminalInstance` that are not objects of xterm. A pending timeout is its delay, and
-- nothing once it has fired: only its owner sets or clears it, so a stale handle names no other timeout.
pub record Instance : Type 0 where
  pub ws : Option ℕ
  pub is_connecting : Bool
  pub reconnect_timer : Option ℕ
  pub last_sent_cols : Option ℕ
  pub last_sent_rows : Option ℕ
  pub resize_debounce_timer : Option ℕ
  pub attached : Bool
  pub listeners_bound : Bool
  pub composing : Bool
  pub composition_suppress_until : ℕ
  pub reconnect_attempts : ℕ

-- The instance, whether `instances` has its session, and the browser's side; `sent` is newest first.
pub record Line : Type 0 where
  pub inst : Instance
  pub registered : Bool
  pub sockets : ℕ → ReadyState
  pub opened : ℕ
  pub tickets : ℕ
  pub sent : List (ℕ × Frame)

-- `createInstance`, once it is in `instances`.
unfoldable pub created : Line
created = record {
  inst = record {
    ws = none;
    is_connecting = false;
    reconnect_timer = none;
    last_sent_cols = none;
    last_sent_rows = none;
    resize_debounce_timer = none;
    attached = false;
    listeners_bound = false;
    composing = false;
    composition_suppress_until = 0;
    reconnect_attempts = 0;
  };
  registered = true;
  sockets = λ i. closed;
  opened = 0;
  tickets = 0;
  sent = [];
}

-- `inst.ws?.readyState`
unfoldable pub ready_state : Line → Option ReadyState
ready_state l = elim l.inst.ws [ none ↦ none | some i ↦ some (l.sockets i) ]

abbrev pub satisfies : (ReadyState → Bool) → Option ReadyState → Bool
satisfies p none = false
satisfies p (some r) = p r

abbrev pub with_state : ℕ → ReadyState → (ℕ → ReadyState) → ℕ → ReadyState
with_state i r sockets j = ite (ℕ_discrete i j) r (sockets j)

-- `scheduleReconnect`, with the random fraction k / n.
unfoldable pub schedule_reconnect : ℕ → ℕ → Line → Line
schedule_reconnect k n l = record l {
  inst = record l.inst {
    reconnect_timer = some (next_reconnect_delay k n l.inst.reconnect_attempts);
    reconnect_attempts = l.inst.reconnect_attempts + 1;
  };
}

-- A connection attempt begins: a ticket is requested.
unfoldable pub request_ticket : Line → Line
request_ticket l = record l {
  inst = record l.inst { is_connecting = true };
  tickets = suc l.tickets;
}

-- `connectWebSocket` up to its `await`: a ticket is requested, unless a connection is there or on its way.
unfoldable pub connect_web_socket : Line → Line
unfolding ready_state request_ticket
connect_web_socket l =
    if l.inst.is_connecting || satisfies is_live (ready_state l) then l else request_ticket l

-- The `catch` of the ticket request.
unfoldable pub ticket_failed : ℕ → ℕ → Line → Line
unfolding schedule_reconnect
ticket_failed k n l =
    schedule_reconnect k n (record l { inst = record l.inst { is_connecting = false } })

-- The rest of `connectWebSocket`, with a ticket in hand.
unfoldable pub ticket_received : Line → Line
ticket_received l =
    if not l.registered
    then record l { inst = record l.inst { is_connecting = false } }
    else record l {
      inst = record l.inst { ws = some l.opened };
      sockets = with_state l.opened connecting l.sockets;
      opened = suc l.opened;
    }

-- `ws.onopen`
unfoldable pub on_open : Line → Line
on_open l = record l {
  inst = record l.inst { is_connecting = false; reconnect_attempts = 0; attached = false };
}

-- `ws.onclose`
unfoldable pub on_close : ℕ → ℕ → Line → Line
unfolding schedule_reconnect
on_close k n l =
    schedule_reconnect k n (record l { inst = record l.inst { is_connecting = false } })

-- `ws.onerror`
unfoldable pub on_error : Line → Line
on_error l = record l { inst = record l.inst { is_connecting = false } }

-- The callback of the timeout that `scheduleReconnect` sets.
unfoldable pub reconnect_fired : Line → Line
reconnect_fired l =
    let l' = record l { inst = record l.inst { reconnect_timer = none } } in
    if l.registered then connect_web_socket l' else l'

-- The end of the first effect of `useTerminal`: connect if there is no socket or a closed one.
unfoldable pub connect_mounted : Line → Line
unfolding ready_state
connect_mounted l =
    if satisfies (λ r. not (is_closed r)) (ready_state l) then l else connect_web_socket l

-- `ws.close()`: a socket that is not closed begins to close.
unfoldable pub close_socket : Option ℕ → (ℕ → ReadyState) → ℕ → ReadyState
close_socket none sockets = sockets
close_socket (some i) sockets =
    if is_closed (sockets i) then sockets else with_state i closing sockets

-- `disposeTerminal`, for a session that is in `instances`; the caller has no other effect.
unfoldable pub dispose_terminal : Line → Line
unfolding close_socket
dispose_terminal l = if not l.registered then l else record l {
  inst = record l.inst { reconnect_timer = none; resize_debounce_timer = none };
  registered = false;
  sockets = close_socket l.inst.ws l.sockets;
}
