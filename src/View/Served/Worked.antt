-- ===== src/View/Served/Worked.antt =====
-- A page that is worked through the tab bar of frontend/src/components/Terminal/TabBar.tsx and the sidebar of
-- frontend/src/components/Sidebar/Sidebar.tsx, with the server behind it.
use loci_terminal.Common.{ℕ, ◌≤◌, ◌≡◌, String, Bool, some, get_or, truthy}
use loci_terminal.Store.State.{World, initial_world}
use loci_terminal.Store.Steps.{Step, inits, polls, resume}
use loci_terminal.Store.Mirror.{Server, IsServer, IsTidy, IsMirror}
use loci_terminal.Store.Mirror.Serve.{answer, Local, Run, begins, goes, acts}
use loci_terminal.Store.Mirror.Run.{Run-IsMirror}
use loci_terminal.Theme.Colors.{ThemeMode, UiColors}
use loci_terminal.Theme.Mode.{Page}
use loci_terminal.View.Html.{Html, Offers, actions}
use loci_terminal.View.TabBar.{TabAction, tab_bar, run_tab}
use loci_terminal.View.Sidebar.{Panel, Desk, Input, SideAction, run_side, on_panel, initial_panel}
use loci_terminal.View.Sidebar.Draw.{sidebar}
use loci_terminal.View.Controls.{with_world}
use loci_terminal.View.Served.{tab_call, side_call, Apart, served, resumed, served-Run}
use loci_terminal.View.Served.Bar.{tab-Run}
use loci_terminal.View.Served.Panel.{side-Run}

-- The desk is opened by `init`; the user works a control that is drawn, and the server answers its call at once;
-- the poll is answered; the store does something without the server; or the sidebar writes its own state.
pub data Works {S : Type 0} (v : Server S) : ℕ → S → Desk → Type 0 where
  opens :
      (now : ℕ) (z : S) (p : Page) {w : World}
      → IsTidy v z
      → resume (answer v inits z).0 inits initial_world.store initial_world ≡ some w
      → Works v now (answer v inits z).1 (record { panel = initial_panel; world = w; theme = p })
  on_bar :
      {now : ℕ} {z : S} {d : Desk} (ui : UiColors) (menu : Bool) (wid : String) (a : TabAction)
      {h : Html TabAction}
      → Works v now z d
      → Apart v z
      → truthy d.world.store.active_workspace_id ≡ some wid
      → tab_bar ui menu d.world.store ≡ some h
      → Offers a (actions h)
      → Works v now
          (served v (tab_call a) z).1
          (with_world (get_or (run_tab (served v (tab_call a) z).0 a d.world) d.world) d)
  on_sidebar :
      {now : ℕ} {z : S} {d : Desk} (ui : UiColors) (mode : ThemeMode) (drawer : Bool) (e : Input)
      (a : SideAction)
      → Works v now z d
      → Offers a (actions (sidebar ui mode drawer d))
      → Works v now
          (served v (side_call e a d) z).1
          (run_side (served v (side_call e a d) z).0 e a d)
  ticks :
      {now : ℕ} {z : S} {d : Desk}
      → Works v now z d
      → Works v now z (with_world (resumed v (some polls) z d.world) d)
  waits :
      {now later : ℕ} {z : S} {d : Desk} {w : World}
      → Works v now z d
      → now ≤ later
      → (st : Step later d.world w) → Local v z st
      → Works v later z (with_world w d)
  writes :
      {now : ℕ} {z : S} {d : Desk}
      → Works v now z d
      → (f : Panel → Panel) → Works v now z (on_panel f d)

module _ {S : Type 0} (v : Server S) (laws : IsServer v) where
  Works-Run : {now : ℕ} {z : S} {d : Desk} → Works v now z d → Run v now z d.world
  Works-Run (opens now z p t e) = begins now z t e
  Works-Run {now} (on_bar {z = z} {d} ui menu wid a k apart active drawn offered) =
      tab-Run v laws now z d.world ui menu wid a (Works-Run k) apart active drawn offered
  Works-Run {now} (on_sidebar {z = z} {d} ui mode drawer e a k offered) =
      side-Run v laws now z d ui mode drawer e a (Works-Run k) offered
  Works-Run {now} (ticks {z = z} {d} k) =
      served-Run v laws now (some polls) z d.world (Works-Run k) tt
  Works-Run (waits k le st l) = goes (Works-Run k) le (acts st l)
  Works-Run (writes k f) = Works-Run k

  -- Where the server keeps its laws and answers each call at once, and nothing but the page changes its
  -- lists: however the user works the controls that the tab bar and the sidebar draw, closing a tab only
  -- while no two workspaces of the server share the id of a session, the server is tidy, and the store
  -- lists the workspaces and sessions of the server in their order, stands in a workspace of the list with
  -- one of its sessions shown where there is one, and remembers sessions of their workspaces.
  pub Works-IsMirror :
      {now : ℕ} {z : S} {d : Desk} → Works v now z d → IsTidy v z × IsMirror v z d.world.store
  Works-IsMirror k = let (t, m, ends) = Run-IsMirror v laws (Works-Run k) in (t, m)
