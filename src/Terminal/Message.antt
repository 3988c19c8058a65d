-- ===== src/Terminal/Message.antt =====
-- `ws.onmessage` of frontend/src/hooks/useTerminal.ts: where a terminal and the store of
-- frontend/src/stores/appStore.ts meet. What is written to the screen is left out.
use loci_terminal.Common.{ℕ, String, List, [], ◌∷◌, Option, ◌≡◌, refl, ◌∙◌}
use loci_terminal.Store.State.{World, Document}
use loci_terminal.Store.Activity.{mark_session_output}
use loci_terminal.Store.Frame.{mark_session_output-store}
use loci_terminal.Terminal.Line.{Line}
use loci_terminal.Terminal.Resize.{Dims, on_attached}
use loci_terminal.Terminal.Resize.Sync.{IsSynced, SizeStep-IsSynced, attaches}

-- A chunk of output, the 'attached' message with the size that the terminal proposes on its arrival, or
-- any other text, JSON or not.
pub data Message : Type 0 where
  chunk : Message
  attached_text : Option Dims → Message
  other_text : Message

unfoldable pub on_message : String → Document → ℕ → Message → World × Line → World × Line
on_message sid doc now chunk (w, l) = (mark_session_output sid doc now w, l)
on_message sid doc now (attached_text dims) (w, l) = (w, on_attached dims l)
on_message sid doc now other_text (w, l) = (w, l)

-- Messages in their order, each at its time.
unfoldable pub on_messages : String → Document → List (ℕ × Message) → World × Line → World × Line
unfolding on_message
on_messages sid doc [] p = p
on_messages sid doc ((now, msg) ∷ ms) p = on_messages sid doc ms (on_message sid doc now msg p)

on_message-store :
    (sid : String) (doc : Document) (now : ℕ) (msg : Message) (p : World × Line)
    → (on_message sid doc now msg p).0.store ≡ p.0.store
unfolding on_message
on_message-store sid doc now chunk (w, l) = mark_session_output-store sid doc now w
on_message-store sid doc now (attached_text dims) (w, l) = refl
on_message-store sid doc now other_text (w, l) = refl

pub on_message-IsSynced :
    (sid : String) (doc : Document) (now : ℕ) (msg : Message) (p : World × Line)
    → IsSynced p.1
    → IsSynced (on_message sid doc now msg p).1
unfolding on_message
on_message-IsSynced sid doc now chunk (w, l) v = v
on_message-IsSynced sid doc now (attached_text dims) (w, l) v = SizeStep-IsSynced (attaches dims) v
on_message-IsSynced sid doc now other_text (w, l) v = v

-- Whatever the server sends, and however much of it, the state of the store stays the same, so that
-- nothing is drawn for it; and the instance goes on noting just the size that it sent last.
on_messages-store :
    (sid : String) (doc : Document) (ms : List (ℕ × Message)) (w : World) (l : Line)
    → IsSynced l
    → let p = on_messages sid doc ms (w, l) in (p.0.store ≡ w.store) × IsSynced p.1
unfolding on_messages
on_messages-store sid doc [] w l v = (refl, v)
on_messages-store sid doc ((now, msg) ∷ ms) w l v =
    let (w', l') = on_message sid doc now msg (w, l) in
    let (same, synced) =
      on_messages-store sid doc ms w' l' (on_message-IsSynced sid doc now msg (w, l) v) in
    (same ∙ on_message-store sid doc now msg (w, l), synced)
