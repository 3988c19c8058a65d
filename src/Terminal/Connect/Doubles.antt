-- ===== src/Terminal/Connect/Doubles.antt =====
-- How an instance of frontend/src/hooks/useTerminal.ts comes to two connections, outside the steps of
-- `Connect`: a reconnection timeout fires while the peer's close of the socket is under way.
use loci_terminal.Common.{ℕ, suc, ◌≡◌, subst, true, false, some, arith}
use loci_terminal.Terminal.Line.{
  connecting, closing, closed, Line, connect_web_socket, ticket_received, on_close, reconnect_fired,
}
use loci_terminal.Terminal.Connect.{set_socket}

-- The timeout fires during the closing handshake, and another one after it.
pub doubled : ℕ → ℕ → ℕ → Line → Line
doubled i k n l = reconnect_fired (on_close k n (set_socket i closed (reconnect_fired l)))

-- Both tickets arrive, the second one in the first one's place.
pub received_both : Line → Line
received_both l =
    ticket_received (record (ticket_received (record l { tickets = 1 })) { tickets = 0 })

received_twice :
    (m : Line)
    → m.registered ≡ true
    → ((received_both m).sockets m.opened ≡ connecting)
      × ((received_both m).sockets (suc m.opened) ≡ connecting)
unfolding received_both ticket_received
received_twice m r = (ground arith, ground arith)

doubled_tickets :
    (i k n : ℕ) (l : Line)
    → l.registered ≡ true
    → l.inst.is_connecting ≡ false
    → l.tickets ≡ 0
    → l.inst.ws ≡ some i
    → l.sockets i ≡ closing
    → ((doubled i k n l).tickets ≡ 2)
      × ((doubled i k n l).registered ≡ true)
      × ((doubled i k n l).opened ≡ l.opened)
unfolding doubled reconnect_fired connect_web_socket on_close
doubled_tickets i k n l r c t w s = (ground arith, ground arith, ground arith)

-- While the current socket is closing `connectWebSocket` asks for a ticket; the end of the socket then
-- resets `connecting`, and the next timeout asks for another. When both are there, two sockets of the
-- one instance are connecting.
pub two_sockets_after_closing :
    (i k n : ℕ) (l : Line)
    → l.registered ≡ true
    → l.inst.is_connecting ≡ false
    → l.tickets ≡ 0
    → l.inst.ws ≡ some i
    → l.sockets i ≡ closing
    → let l' = doubled i k n l in
      (l'.tickets ≡ 2)
      × ((received_both l').sockets l.opened ≡ connecting)
      × ((received_both l').sockets (suc l.opened) ≡ connecting)
two_sockets_after_closing i k n l r c t w s =
    let (two, reg, same) = doubled_tickets i k n l r c t w s in
    let (a, b) = received_twice (doubled i k n l) reg in
    let at = λ (o : ℕ). (received_both (doubled i k n l)).sockets o ≡ connecting in
    (two, subst at same a, subst (λ (o : ℕ). at (suc o)) same b)
