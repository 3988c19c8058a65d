-- ===== src/Tests/Line.antt =====
-- The connection, the typing and the resizing of a terminal of frontend/src/hooks/useTerminal.ts at
-- concrete events.
use loci_terminal.Terminal.Ticket.{
  Reply, granted, object, written, Grants, request_web_socket_ticket, settle_ticket,
  ticket_guards_socket,
}
use loci_terminal.Terminal.Renderer.{
  Renderer, RendererReach, no_renderer, load_webgl, context_lost, listed, opens, loses,
  one_renderer,
}
use loci_terminal.Common.{
  ◌↔◌, false, ℕ, suc, ◌+◌, ◌*◌, ◌≤◌, ◌<◌, ◌≡◌, refl, ◌≢◌, ◌⊎◌, arith, String, true, List, [], ◌∷◌,
  Option, some, none, ℕ_discrete, str_dec, Bool-cases,
}
use loci_terminal.Terminal.Backoff.{backoff_base, next_reconnect_delay, next_reconnect_delay_bounds}
use loci_terminal.Terminal.Line.{
  Line, bytes, connecting, open_, closing, is_live, ready_state, created, connect_web_socket,
  request_ticket, ticket_received, on_open,
}
use loci_terminal.Terminal.Connect.{Reach, start, next, receives, opens, set_socket, has_live}
use loci_terminal.Terminal.Connect.Invariant.{one_live_socket, never_gives_up}
use loci_terminal.Terminal.Connect.Doubles.{doubled, received_both, two_sockets_after_closing}
use loci_terminal.Terminal.Input.{KeyEvent, on_composition_start, on_composition_end}
use loci_terminal.Terminal.Input.Composition.{reports, composed_once}
use loci_terminal.Terminal.Resize.{Dims, debounce_fired, on_attached, report_attached}
use loci_terminal.Terminal.Resize.Sync.{
  told, SizeReach, begin, later, connects, attaches, settled_size_is_told,
}
use loci_terminal.Tests.Data.{differ}

-- A first connection, from the request of the ticket to the open socket.
abbrev asked : Line
asked = connect_web_socket created

abbrev dialled : Line
dialled = ticket_received (record asked { tickets = 0 })

abbrev up : Line
up = on_open (set_socket 0 open_ dialled)

up-Reach : Reach up
unfolding ℕ_discrete connect_web_socket request_ticket ready_state created ticket_received
up-Reach = next (next start (receives 0 refl)) (opens 0 refl)

one_live_socket_example :
    ((i j : ℕ) → is_live (up.sockets i) ≡ true → is_live (up.sockets j) ≡ true → i ≡ j)
    × ((i : ℕ) → is_live (up.sockets i) ≡ true → (up.inst.ws ≡ some i) × (up.tickets ≡ 0))
    × (up.tickets ≤ 1)
one_live_socket_example = one_live_socket up-Reach

never_gives_up_example : (0 < up.tickets) ⊎ (has_live up ≡ true) ⊎ (up.inst.reconnect_timer ≢ none)
unfolding ℕ_discrete connect_web_socket request_ticket ready_state created ticket_received on_open
never_gives_up_example = never_gives_up up-Reach refl

-- The browser has begun to close the open socket.
abbrev falling : Line
falling = set_socket 0 closing up

two_sockets_after_closing_example :
    ((doubled 0 1 2 falling).tickets ≡ 2)
    × ((received_both (doubled 0 1 2 falling)).sockets falling.opened ≡ connecting)
    × ((received_both (doubled 0 1 2 falling)).sockets (suc falling.opened) ≡ connecting)
unfolding ℕ_discrete connect_web_socket request_ticket ready_state created ticket_received on_open
two_sockets_after_closing_example = two_sockets_after_closing 0 1 2 falling refl refl refl refl refl

next_reconnect_delay_bounds_example :
    (4 * backoff_base 3 ≤ 5 * next_reconnect_delay 1 2 3 + 4)
    × (5 * next_reconnect_delay 1 2 3 ≤ 6 * backoff_base 3)
    × (400 ≤ next_reconnect_delay 1 2 3)
    × (next_reconnect_delay 1 2 3 ≤ 12_000)
next_reconnect_delay_bounds_example = next_reconnect_delay_bounds 1 2 3 (omega arith) (omega arith)

abbrev bytes_of : String → List ℕ
bytes_of s = 65 ∷ []

composed_once_example :
    let started = reports bytes_of (("h", 5) ∷ []) (on_composition_start up) in
    (reports bytes_of (("han", 30) ∷ []) (on_composition_end bytes_of "han" 10 started)).sent
    ≡ (0, bytes (65 ∷ [])) ∷ up.sent
unfolding ℕ_discrete connect_web_socket request_ticket ready_state created ticket_received on_open
    str_dec Bool-cases
composed_once_example =
    composed_once bytes_of (("h", 5) ∷ []) (("han", 30) ∷ []) "han" 10 0 up refl refl
      (differ "han" "" refl) (omega arith, tt)

-- The terminal is attached at 80 by 24, and then resized.
abbrev small : Dims
small = record { cols = 80; rows = 24 }

abbrev large : Dims
large = record { cols = 120; rows = 40 }

abbrev attached_line : Line
attached_line = on_attached (some small) up

attached_line-SizeReach : SizeReach attached_line
unfolding ℕ_discrete connect_web_socket request_ticket ready_state created ticket_received
attached_line-SizeReach =
    later (later (later begin (connects (receives 0 refl))) (connects (opens 0 refl)))
      (attaches (some small))

settled_size_is_told_example :
    let l' = debounce_fired (some large) attached_line in
    (told l'.sent ≡ some large)
    × (told attached_line.sent ≡ some large → l'.sent ≡ attached_line.sent)
unfolding on_attached report_attached ℕ_discrete connect_web_socket request_ticket ready_state
    created ticket_received on_open
settled_size_is_told_example =
    settled_size_is_told large attached_line-SizeReach refl refl refl (omega arith) (omega arith)

abbrev a_key : KeyEvent
a_key = record {
  type = "keydown";
  key = "Enter";
  shift_key = true;
  ctrl_key = false;
  alt_key = false;
  meta_key = false;
}

-- The terminal is opened with an addon, whose context is evicted, and the next one does not load.
abbrev evicted : Renderer
evicted = context_lost 0 false (load_webgl true no_renderer)

one_renderer_example : evicted.loaded ≡ listed evicted.webgl
unfolding load_webgl context_lost
one_renderer_example = one_renderer (
    RendererReach.then_ (RendererReach.then_ RendererReach.fresh (opens true)) (loses 0 false refl))

abbrev a_reply : Option Reply
a_reply = some (record { ok = true; status = 200; body = some (object (written "t1")) })

ticket_guards_socket_example :
    let o = request_web_socket_ticket a_reply in
    ((ticket : String) → (o ≡ granted ticket) ↔ Grants a_reply ticket)
    × (((settle_ticket 0 1 o created).opened ≡ suc created.opened)
        ↔ ((created.registered ≡ true) × ((ticket : String) × Grants a_reply ticket)))
ticket_guards_socket_example = ticket_guards_socket 0 1 a_reply created
