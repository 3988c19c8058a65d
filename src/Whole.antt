-- ===== src/Whole.antt =====
-- The page as a whole: the store of frontend/src/stores/appStore.ts, the listener of frontend/src/App.tsx,
-- and the terminals of frontend/src/hooks/useTerminal.ts, one connection for each session that was shown.
pub mod Typing
pub mod Sizes
pub mod Sound
use loci_terminal.Common.{ℕ, ◌≤◌, ◌≡◌, String, List, [], Option, none, some}
use loci_terminal.Dict.{Dict, get, put}
use loci_terminal.Store.State.{World, Document, initial_world}
use loci_terminal.Store.Steps.{Step}
use loci_terminal.App.{on_visibility}
use loci_terminal.Terminal.Line.{Line, created, connect_web_socket}
use loci_terminal.Terminal.Input.{
  KeyEvent, on_composition_start, on_composition_end, on_data, on_key, send_to_terminal,
}
use loci_terminal.Terminal.Resize.Sync.{SizeStep}
use loci_terminal.Terminal.Message.{Message, on_message}

-- The store with its bookkeeping, and `instances`.
pub record Whole : Type 0 where
  pub world : World
  pub lines : Dict Line

abbrev pub with_line : String → Line → Whole → Whole
with_line sid l p = record p { lines = put sid l p.lines }

-- After a message for the session.
abbrev pub receive : String → World × Line → Whole → Whole
receive sid (w, l) p = record { world = w; lines = put sid l p.lines }

-- What a user does at a terminal; `encode` is the browser's encoder of texts.
module _ (encode : String → List ℕ) where
  pub data Types (now : ℕ) (l : Line) : Line → Type 0 where
    reports : (text : String) → Types now l (on_data encode text now l)
    presses : (e : KeyEvent) → Types now l (on_key encode e l).0
    composes : Types now l (on_composition_start l)
    composed : (text : String) → Types now l (on_composition_end encode text now l)
    sends : (text : String) → Types now l (send_to_terminal encode text l).0

  -- One event of the page at the time `now`: of the store, of a connection, a message of the server over it,
  -- something typed, a session that is shown for the first time, or the page coming into view.
  pub data WholeStep (now : ℕ) (p : Whole) : Whole → Type 0 where
    stores : {w' : World} → Step now p.world w' → WholeStep now p (record p { world = w' })
    returns : (doc : Document) → WholeStep now p (record p { world = on_visibility doc p.world })
    shows :
        (sid : String)
        → get sid p.lines ≡ none
        → WholeStep now p (with_line sid (connect_web_socket created) p)
    lives :
        (sid : String) (l : Line) {l' : Line}
        → get sid p.lines ≡ some l
        → SizeStep l l'
        → WholeStep now p (with_line sid l' p)
    types :
        (sid : String) (l : Line) {l' : Line}
        → get sid p.lines ≡ some l
        → Types now l l'
        → WholeStep now p (with_line sid l' p)
    hears :
        (sid : String) (doc : Document) (msg : Message) (l : Line)
        → get sid p.lines ≡ some l
        → WholeStep now p (receive sid (on_message sid doc now msg (p.world, l)) p)

  pub data WholeReach : ℕ → Whole → Type 0 where
    opens : WholeReach 0 (record { world = initial_world; lines = [] })
    happens :
        {now later : ℕ} {p p' : Whole}
        → WholeReach now p
        → now ≤ later
        → WholeStep later p p'
        → WholeReach later p'
