-- ===== src/View/Served/Bar.antt =====
-- What the tab bar of frontend/src/components/Terminal/TabBar.tsx offers, at a store that mirrors the server.
use loci_terminal.Common.{
  ℕ, ◌≡◌, sym, ap, ◌∙◌, String, Bool, true, some, get_or, ltb, length, truthy, arith,
}
use loci_terminal.Store.State.{AppState, World}
use loci_terminal.Store.Steps.{selects, resume}
use loci_terminal.Store.Sessions.{sessions_of}
use loci_terminal.Store.Mirror.Ids.{has, session_ids}
use loci_terminal.Store.Mirror.{Server, IsServer, held, IsMirror}
use loci_terminal.Store.Mirror.Serve.{Nowhere, Run, goes, acts}
use loci_terminal.Store.Mirror.Run.{Run-IsMirror}
use loci_terminal.Theme.Colors.{UiColors}
use loci_terminal.View.Html.{Html, Offers, actions}
use loci_terminal.View.TabBar.{
  TabAction, opens_menu, selects_tab, closes_tab, adds_tab, tab_bar, run_tab,
}
use loci_terminal.View.TabBar.Safe.{Needs, drawn_bar}
use loci_terminal.View.Served.{tab_call, Apart, served, Sane, served-Run}

module _ {S : Type 0} (v : Server S) (laws : IsServer v) where
  Inside-Nowhere :
      (z : S) (s : AppState) (id wid : String)
      → truthy s.active_workspace_id ≡ some wid
      → has id (held v wid z) ≡ true
      → Apart v z
      → Nowhere v z s id
  Inside-Nowhere z s id wid active known apart j other = apart wid j id known (λ p. other (cc))

  Needs-Sane :
      (z : S) (s : AppState) (wid : String) (several : Bool) (a : TabAction)
      → IsMirror v z s
      → Apart v z
      → truthy s.active_workspace_id ≡ some wid
      → Needs wid (session_ids (sessions_of s wid)) several a
      → Sane v z s (tab_call a)
  Needs-Sane z s wid several opens_menu m apart active n = tt
  Needs-Sane z s wid several (selects_tab id) m apart active n = tt
  Needs-Sane z s wid several (closes_tab id) m apart active (many, n) =
      let known : has id (held v wid z) ≡ true = ap (has id) (sym (m.sessions wid)) ∙ n in
      ((wid, active, known), Inside-Nowhere z s id wid active known apart)
  Needs-Sane z s wid several (adds_tab to) m apart active n = active ∙ ap some (sym n)

  -- A control that the bar of the active workspace offers, worked with the server behind it.
  pub tab-Run :
      (now : ℕ) (z : S) (w : World) (ui : UiColors) (menu : Bool) (wid : String) (a : TabAction)
      {h : Html TabAction}
      → Run v now z w
      → Apart v z
      → truthy w.store.active_workspace_id ≡ some wid
      → tab_bar ui menu w.store ≡ some h
      → Offers a (actions h)
      → let (api, z') = served v (tab_call a) z in Run v now z' (get_or (run_tab api a w) w)
  unfolding run_tab resume
  tab-Run now z w ui menu wid a r apart active drawn offered =
      let (t, m, ends) = Run-IsMirror v laws r in
      let n = drawn_bar ui menu wid w.store a active drawn offered in
      let ok =
        Needs-Sane z w.store wid (ltb 1 (length (sessions_of w.store wid))) a m apart active n in
      go a m n ok
    where
      go :
          (b : TabAction)
          → IsMirror v z w.store
          → Needs wid
              (session_ids (sessions_of w.store wid))
              (ltb 1 (length (sessions_of w.store wid)))
              b
          → Sane v z w.store (tab_call b)
          → let (api, z') = served v (tab_call b) z in Run v now z' (get_or (run_tab api b w) w)
      go opens_menu m n ok = r
      go (selects_tab id) m n ok =
          goes {now = now} r (omega arith)
            (acts (selects id) (wid, active, ap (has id) (sym (m.sessions wid)) ∙ n))
      go (closes_tab id) m n ok = served-Run v laws now (tab_call (closes_tab id)) z w r ok
      go (adds_tab to) m n ok = served-Run v laws now (tab_call (adds_tab to)) z w r ok
