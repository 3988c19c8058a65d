-- ===== src/View/Served.antt =====
-- The controls of frontend/src/components/Terminal/TabBar.tsx and frontend/src/components/Sidebar/Sidebar.tsx, with
-- the server of `Store/Mirror` behind the store: whatever they offer is something that the store may ask.
pub mod Bar
pub mod Panel
pub mod Worked
use loci_terminal.Common.{
  ℕ, ◌≡◌, ◌≢◌, refl, String, true, false, List, Option, none, some, get_or, is, if◌then◌else◌,
  arith,
}
use loci_terminal.Store.State.{AppState, World}
use loci_terminal.Store.Api.{Api}
use loci_terminal.Store.Steps.{
  Call, resume, deletes_session, creates_session, shows_workspace, deletes_workspace,
  renames_workspace, creates_workspace,
}
use loci_terminal.Store.Mirror.Ids.{has}
use loci_terminal.Store.Mirror.{Server, IsServer, held}
use loci_terminal.Store.Mirror.Serve.{answer, at, Sensible, Run, goes, asks}
use loci_terminal.Store.Mirror.Run.{Run-IsMirror}
use loci_terminal.View.Trim.{trim}
use loci_terminal.View.Sidebar as Side
use loci_terminal.View.Sidebar.{Desk, Input, SideAction}
use loci_terminal.View.TabBar as Tab
use loci_terminal.View.TabBar.{TabAction}

-- The call of the store that a control makes.
abbrev pub tab_call : TabAction → Option Call
tab_call Tab.opens_menu = none
tab_call (Tab.selects_tab id) = none
tab_call (Tab.closes_tab id) = some (deletes_session id)
tab_call (Tab.adds_tab wid) = some (creates_session wid none)

abbrev pub rename_call : String → Desk → Option Call
rename_call id d =
    let name = trim d.panel.edit_name in
    if is name "" then none else some (renames_workspace id name)

abbrev pub create_call : Desk → Option Call
create_call d =
    let name = trim d.panel.new_name in if is name "" then none else some (creates_workspace name)

abbrev pub side_call : Input → SideAction → Desk → Option Call
side_call e (Side.shows id) d = some (shows_workspace id)
side_call e (Side.deletes id) d = some (deletes_workspace id)
side_call e (Side.leaves_edit id) d = rename_call id d
side_call e (Side.presses_edit id) d = if is e.key "Enter" then rename_call id d else none
side_call e Side.presses_new d = if is e.key "Enter" then create_call d else none
side_call e _ d = none

-- No two workspaces of the server have a session of the same id.
abbrev pub Apart : {S : Type 0} → Server S → S → Type 0
Apart v z = (j k x : String) → has x (held v j z) ≡ true → j ≢ k → has x (held v k z) ≡ false

module _ {S : Type 0} (v : Server S) where
  -- What the server answers to a call, if there is one, and its state then.
  abbrev pub served : Option Call → S → Api × S
  served none z = (at v z, z)
  served (some c) z = answer v c z

  -- A world after a call, if there is one.
  abbrev pub resumed : Option Call → S → World → World
  resumed none z w = w
  resumed (some c) z w = get_or (resume (answer v c z).0 c w.store w) w

  abbrev pub Sane : S → AppState → Option Call → Type 0
  Sane z s none = Unit
  Sane z s (some c) = Sensible v z s c

  -- A sensible call, ended at once, goes on with the run.
  pub served-Run :
      IsServer v
      → (now : ℕ) (o : Option Call) (z : S) (w : World) → Run v now z w
      → Sane z w.store o
      → Run v now (served o z).1 (resumed o z w)
  served-Run laws now none z w r ok = r
  served-Run laws now (some c) z w r ok =
      let (t, m, ends) = Run-IsMirror v laws r in
      let (w', e) = ends c ok in rw e (goes {now = now} r (omega arith) (asks c ok e))
