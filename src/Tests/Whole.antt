-- ===== src/Tests/Whole.antt =====
-- A run of the whole page, with one terminal.
use loci_terminal.Common.{
  ℕ, ◌≤◌, ◌<◌, ◌≡◌, ◌≢◌, ◌⊎◌, refl, String, true, List, [], ◌∷◌, some, none, arith, str_dec,
  Bool-cases,
}
use loci_terminal.Dict.{get, put}
use loci_terminal.Store.State.{visible, initial_world}
use loci_terminal.Store.Tracking.{IsTracked}
use loci_terminal.Store.Toasts.Reach.{IsCalm}
use loci_terminal.Terminal.Line.{
  Line, is_live, created, connect_web_socket, request_ticket, ready_state, ticket_received,
}
use loci_terminal.Terminal.Connect.{receives, has_live}
use loci_terminal.Terminal.Resize.Sync.{IsSynced, connects}
use loci_terminal.Terminal.Message.{chunk, on_message}
use loci_terminal.Whole.{Whole, with_line, receive, WholeReach, opens, happens, shows, lives, hears}
use loci_terminal.Whole.Sound.{WholeReach-holds}

abbrev encoder : String → List ℕ
encoder text = 1 ∷ []

abbrev asked : Line
asked = connect_web_socket created

abbrev dialled : Line
dialled = ticket_received (record asked { tickets = 0 })

abbrev shown : Whole
shown = with_line "a" asked (record { world = initial_world; lines = [] })

abbrev dialling : Whole
dialling = with_line "a" dialled shown

-- The server sends a chunk of output at the time 700.
abbrev told : Whole
told = receive "a" (on_message "a" visible 700 chunk (dialling.world, dialled)) dialling

told-WholeReach : WholeReach encoder 700 told
unfolding get put str_dec Bool-cases connect_web_socket request_ticket ready_state created
told-WholeReach =
    happens {now = 0}
      (happens {now = 0} (happens {now = 0} {later = 0} opens (omega arith) (shows "a" refl))
        (omega arith) (lives "a" asked refl (connects (receives 0 refl))))
      (omega arith) (hears "a" visible chunk dialled refl)

WholeReach-holds_example :
    IsTracked 700 told.world
    × IsCalm told.world
    × ((sid : String) (l : Line)
        → get sid told.lines ≡ some l
        → ((i j : ℕ) → is_live (l.sockets i) ≡ true → is_live (l.sockets j) ≡ true → i ≡ j)
          × (l.tickets ≤ 1)
          × (l.registered ≡ true
              → (0 < l.tickets) ⊎ (has_live l ≡ true) ⊎ (l.inst.reconnect_timer ≢ none))
          × IsSynced l)
WholeReach-holds_example = WholeReach-holds encoder told-WholeReach
