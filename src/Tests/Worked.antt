-- ===== src/Tests/Worked.antt =====
-- A page on which the user asks for a second tab.
use loci_terminal.Common.{
  ◌≡◌, ◌≢◌, refl, sym, ap, ◌∙◌, truthy, String, [], true, false, inl, inr, get_or, str_dec,
  Bool-cases, arith,
}
use loci_terminal.Dict.{get, put}
use loci_terminal.Store.State.{initial_state, initial_world, on_store}
use loci_terminal.Store.Steps.{resume}
use loci_terminal.Store.Workspaces.{init, first_workspaces, list_all, fill, first_session}
use loci_terminal.Store.Mirror.Ids.{has}
use loci_terminal.Store.Mirror.{held, IsTidy, IsMirror}
use loci_terminal.Theme.Colors.{dark_ui}
use loci_terminal.View.Html.{actions}
use loci_terminal.View.Sidebar.{Desk, initial_panel}
use loci_terminal.View.TabBar.{adds_tab, tab_bar, tab_bar_of, run_tab}
use loci_terminal.View.Controls.{with_world}
use loci_terminal.View.Served.{Apart, served, tab_call}
use loci_terminal.View.Served.Worked.{Works, opens, on_bar, Works-IsMirror}
use loci_terminal.Tests.Memory.{Memory, memory, memory-IsServer, empty, empty-IsTidy, begun}
use loci_terminal.Theme.Mode.{Page, open_page}

abbrev empty_page : Page
empty_page = open_page (record { present = true; readable = true; writable = true; items = [] })

abbrev first_desk : Desk
first_desk = record { panel = initial_panel; world = begun.1; theme = empty_page }

begun_elsewhere : (j : String) → j ≢ "Default" → held memory j begun.0 ≡ []
unfolding str_dec Bool-cases
begun_elsewhere j ne = elim (str_dec j "Default") [ yes p ↦ absurd (ne p) | no p ↦ ground arith ]

-- All sessions of the server are in the one workspace.
begun-Apart : Apart memory begun.0
begun-Apart j k x e ne = elim (str_dec k "Default") [
  | yes p ↦ elim (str_dec j "Default") [
    | yes q ↦ absurd (ne (q ∙ sym p))
    | no q ↦ absurd (cc (ap (has x) (begun_elsewhere j q)))
  ]
  | no p ↦ ap (has x) (begun_elsewhere k p)
]

abbrev after : Memory × Desk
after =
    let (api, z) = served memory (tab_call (adds_tab "Default")) begun.0 in
    (z, with_world (get_or (run_tab api (adds_tab "Default") begun.1) begun.1) first_desk)

after-Works : Works memory 0 after.0 after.1
unfolding resume init first_workspaces list_all fill first_session on_store initial_world
    initial_state get put truthy str_dec Bool-cases actions tab_bar
after-Works =
    on_bar dark_ui false "Default" (adds_tab "Default")
      {h = tab_bar_of dark_ui false "Default" begun.1.store}
      (opens 0 empty empty_page empty-IsTidy refl) begun-Apart refl refl (inr (inl refl))

Works-IsMirror_example : IsTidy memory after.0 × IsMirror memory after.0 after.1.world.store
Works-IsMirror_example = Works-IsMirror memory memory-IsServer after-Works
