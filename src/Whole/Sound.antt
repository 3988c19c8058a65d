-- ===== src/Whole/Sound.antt =====
-- What holds of the whole page after any history: of the store of frontend/src/stores/appStore.ts, and of
-- every connection of frontend/src/hooks/useTerminal.ts.
use loci_terminal.Common.{
  ℕ, ◌≤◌, ◌<◌, ◌≡◌, ◌≢◌, ◌⊎◌, subst, inl, inr, String, true, List, none, some, arith, str_dec,
  Bool-cases, Option-cases, truthy,
}
use loci_terminal.Dict.{Dict, get, put}
use loci_terminal.Dict.Laws.{get-put}
use loci_terminal.Store.State.{World, Document, is_visible}
use loci_terminal.Store.Steps.{Step, output, looks, start}
use loci_terminal.Store.Tracking.{IsTracked, later-IsTracked}
use loci_terminal.Store.Steps.Books.{Step-IsTracked, Reach-IsTracked}
use loci_terminal.Store.Toasts.Reach.{IsCalm, Step-IsCalm, Reach-IsCalm}
use loci_terminal.App.{on_visibility, clear_active}
use loci_terminal.Terminal.Line.{Line, is_live, created, connect_web_socket}
use loci_terminal.Terminal.Connect.{Inv, has_live}
use loci_terminal.Terminal.Connect.Invariant.{started-Inv}
use loci_terminal.Terminal.Resize.Sync.{IsSynced, SizeStep-IsSynced, SizeReach-IsSynced, begin}
use loci_terminal.Terminal.Message.{
  Message, chunk, attached_text, other_text, on_message, on_message-IsSynced,
}
use loci_terminal.Whole.{
  Whole, WholeStep, stores, returns, shows, lives, types, hears, WholeReach, opens, happens,
}
use loci_terminal.Whole.Typing.{SameLine-Inv, Types-Quiet}
use loci_terminal.Whole.Sizes.{SizeStep-Inv, on_attached-Inv}

abbrev IsKept : ℕ → World → Type 0
IsKept now w = IsTracked now w × IsCalm w

abbrev Healthy : Dict Line → Type 0
Healthy lines = (sid : String) (l : Line) → get sid lines ≡ some l → Inv l × IsSynced l

Step-IsKept : {now : ℕ} {w w' : World} → Step now w w' → IsKept now w → IsKept now w'
Step-IsKept st (t, c) = (Step-IsTracked st t, Step-IsCalm st c)

on_visibility-IsKept :
    {now : ℕ} (doc : Document) (w : World) → IsKept now w → IsKept now (on_visibility doc w)
unfolding on_visibility clear_active
on_visibility-IsKept doc w k = elim (Bool-cases (is_visible doc)) [
  | inl e ↦ elim (Option-cases (truthy w.store.active_session_id)) [
    | inl q ↦ rw (e, q) k
    | inr (id, q) ↦ rw (e, q) (Step-IsKept (looks id) k)
  ]
  | inr e ↦ rw e k
]

put-Healthy :
    (sid : String) (l : Line) (lines : Dict Line)
    → Inv l × IsSynced l
    → Healthy lines
    → Healthy (put sid l lines)
put-Healthy sid l lines h all j k e = elim (str_dec sid j) [
  | yes q ↦
      let r : l ≡ k = ground (arith, get-put sid j l lines) in subst (λ x. Inv x × IsSynced x) r h
  | no q ↦ all j k (ground (arith, get-put sid j l lines))
]

on_message-IsKept :
    {now : ℕ} (sid : String) (doc : Document) (msg : Message) (w : World) (l : Line)
    → IsKept now w
    → Inv l
    → let p = on_message sid doc now msg (w, l) in IsKept now p.0 × Inv p.1
unfolding on_message
on_message-IsKept sid doc chunk w l k v = (Step-IsKept (output sid doc) k, v)
on_message-IsKept sid doc (attached_text dims) w l k v = (k, on_attached-Inv dims l v)
on_message-IsKept sid doc other_text w l k v = (k, v)

module _ (encode : String → List ℕ) where
  WholeStep-IsKept :
      {now : ℕ} {p p' : Whole}
      → WholeStep encode now p p'
      → IsKept now p.world × Healthy p.lines
      → IsKept now p'.world × Healthy p'.lines
  WholeStep-IsKept (stores st) (k, h) = (Step-IsKept st k, h)
  WholeStep-IsKept {p = p} (returns doc) (k, h) = (on_visibility-IsKept doc p.world k, h)
  WholeStep-IsKept {p = p} (shows sid e) (k, h) = (
    k,
    put-Healthy sid (connect_web_socket created) p.lines (started-Inv, SizeReach-IsSynced begin) h,
  )
  WholeStep-IsKept {p = p} (lives sid l {l'} e st) (k, h) =
      let (v, s) = h sid l e in
      (k, put-Healthy sid l' p.lines (SizeStep-Inv st v, SizeStep-IsSynced st s) h)
  WholeStep-IsKept {p = p} (types sid l {l'} e st) (k, h) =
      let (v, s) = h sid l e in
      let (same, synced) = Types-Quiet encode st in
      (k, put-Healthy sid l' p.lines (SameLine-Inv same v, synced s) h)
  WholeStep-IsKept {now} {p} (hears sid doc msg l e) (k, h) =
      let (v, s) = h sid l e in
      let (w', l') = on_message sid doc now msg (p.world, l) in
      let (kept, inv) = on_message-IsKept sid doc msg p.world l k v in
      (kept, put-Healthy sid l' p.lines (inv, on_message-IsSynced sid doc now msg (p.world, l) s) h)

  WholeReach-IsKept :
      {now : ℕ} {p : Whole} → WholeReach encode now p → IsKept now p.world × Healthy p.lines
  unfolding get
  WholeReach-IsKept opens = ((Reach-IsTracked start, Reach-IsCalm start), λ sid l e. absurd (cc))
  WholeReach-IsKept (happens r le st) =
      let ((t, c), h) = WholeReach-IsKept r in WholeStep-IsKept st ((later-IsTracked le t, c), h)

  -- After any history of the whole page, in which a socket is closed by its peer in one event: the timeouts and
  -- bursts of the store are in order; each toast is of an unread session, no session has two, and there are
  -- at most five; and each terminal has at most one socket that is connecting or open and at most one
  -- ticket in flight, has a ticket, a live socket or a reconnection on record while it is in `instances`, and notes
  -- just the size that it sent last.
  pub WholeReach-holds :
      {now : ℕ} {p : Whole}
      → WholeReach encode now p
      → IsTracked now p.world
        × IsCalm p.world
        × ((sid : String) (l : Line)
            → get sid p.lines ≡ some l
            → ((i j : ℕ) → is_live (l.sockets i) ≡ true → is_live (l.sockets j) ≡ true → i ≡ j)
              × (l.tickets ≤ 1)
              × (l.registered ≡ true
                  → (0 < l.tickets) ⊎ (has_live l ≡ true) ⊎ (l.inst.reconnect_timer ≢ none))
              × IsSynced l)
  WholeReach-holds r =
      let ((t, c), h) = WholeReach-IsKept r in
      (
        t,
        c,
        λ sid l e.
            let (v, s) = h sid l e in
            (
              (λ i j p q. let a = v.single i p in let b = v.single j q in cc),
              v.one_ticket,
              v.trying,
              s,
            ),
      )
