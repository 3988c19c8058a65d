-- ===== src/Tests/Views.antt =====
-- What the page draws and offers, at the sessions of `Data`.
use loci_terminal.Common.{ℕ, ◌*◌, ◌+◌, arith}
use loci_terminal.View.Toasts.Timeouts.{
  Board, Waits, IsWaiting, toast_duration, render, toasts_run_out,
}
use loci_terminal.Common.{
  ◌&&◌, ◌||◌, not, ◌≤◌, ◌<◌, ◌≡◌, refl, ◌⊎◌, inl, inr, true, false, [], none, some, length, filter,
  truthy, truthy_text, str_dec, Bool-cases,
}
use loci_terminal.Dict.{get}
use loci_terminal.Store.State.{World, is_option, session_unread}
use loci_terminal.Store.Activity.{cancel_idle_tracking}
use loci_terminal.Store.Sessions.{sessions_of, delete_session, remove_session, in_active}
use loci_terminal.Store.Workspaces.{create_workspace}
use loci_terminal.Theme.Colors.{dark_ui, dark}
use loci_terminal.View.Html.{Offers, labelled, tagged, actions}
use loci_terminal.View.TabBar.{closes_tab, tab_bar, tab_bar_of, run_tab}
use loci_terminal.View.TabBar.Safe.{closed_tab_leaves_one}
use loci_terminal.View.TabBar.Flight.{two_closings_leave_none}
use loci_terminal.View.Sidebar.{Desk, Input, initial_panel, run_side, deletes, handle_create}
use loci_terminal.View.Sidebar.Draw.{sidebar}
use loci_terminal.View.Sidebar.Rows.{shown_cwd}
use loci_terminal.View.Sidebar.Menu.{deletion_leaves_workspace}
use loci_terminal.View.Sidebar.Dots.{sidebar-labelled, asks}
use loci_terminal.View.Sidebar.Names.{IsMade, handle_create-IsMade}
use loci_terminal.View.Trim.{trim}
use loci_terminal.Terminal.Mount.{run_effect, remount, empty_shelf, instance_of, is_within}
use loci_terminal.Terminal.Mount.Shown.{fresh, then_, shows, remounts, one_terminal_shown}
use loci_terminal.App.{authenticated}
use loci_terminal.View.Page.{Shell, app}
use loci_terminal.View.Page.Places.{count, is_asking, is_open, app-tagged}
use loci_terminal.Tests.Data.{a_session, server, opened, page, differ}

-- Tab a of v is closed.
abbrev after_close : World
after_close = record (cancel_idle_tracking "a" page) { store = remove_session "a" "v" opened }

closed_tab_leaves_one_example : 0 < length (sessions_of after_close.store "v")
unfolding tab_bar run_tab delete_session in_active truthy str_dec Bool-cases actions get
closed_tab_leaves_one_example =
    closed_tab_leaves_one server dark_ui true "v" "a" opened page {w' = after_close}
      {h = tab_bar_of dark_ui true "v" opened} (truthy_text "v" (differ "v" "" refl)) refl
      (inr (inr (inl refl))) (truthy_text "v" (differ "v" "" refl))
      ((differ "b" "a" refl, tt), (tt, tt)) (omega arith) refl

-- Then tab b.
abbrev after_both : World
after_both = record (cancel_idle_tracking "b" after_close) {
  store = remove_session "b" "v" after_close.store;
}

two_closings_leave_none_example :
    Offers (closes_tab "a") (actions (tab_bar_of dark_ui true "v" opened))
    × Offers (closes_tab "b") (actions (tab_bar_of dark_ui true "v" opened))
    × (sessions_of after_both.store "v" ≡ [])
unfolding tab_bar run_tab delete_session in_active remove_session truthy str_dec Bool-cases get
two_closings_leave_none_example =
    two_closings_leave_none server dark_ui true "v" (a_session "a" "v") (a_session "b" "v") page
      {v = after_close} {u = after_both} {h = tab_bar_of dark_ui true "v" opened}
      (truthy_text "v" (differ "v" "" refl)) refl refl refl refl

-- The menu of w is open, and a name is typed.
abbrev desk : Desk
desk = record {
  panel = record initial_panel {
    creating = true;
    new_name = "  Two words ";
    context_menu = some (record { workspace_id = "w"; x = 10; y = 20 });
  };
  world = page;
  theme = record {
    mode = dark;
    storage = record { present = true; readable = true; writable = true; items = [] };
  };
}

abbrev input : Input
input = record { value = ""; key = "Enter"; client_x = 0; client_y = 0 }

deletion_leaves_workspace_example :
    let d' = run_side server input (deletes "w") (record desk { world = page }) in
    (0 < length d'.world.store.workspaces) × (d'.panel.context_menu ≡ none)
unfolding sidebar actions str_dec Bool-cases get session_unread shown_cwd truthy
deletion_leaves_workspace_example =
    deletion_leaves_workspace server dark_ui dark false input "w" desk page
      (inr (inr (inr (inr (inr (inr (inr (inr (inr (inr (inr (inr (inr (inr (inl refl)))))))))))))))
      ((differ "w" "v" refl, tt), (tt, tt)) (omega arith)

sidebar-labelled_example :
    labelled "unread output" (sidebar dark_ui dark false desk)
    ≡ length (filter (asks desk.world.store) desk.world.store.workspaces)
sidebar-labelled_example = sidebar-labelled dark_ui dark false desk

handle_create-IsMade_example :
    ((handle_create server desk ≡ desk)
      × ((trim desk.panel.new_name ≡ "")
          ⊎ (create_workspace server (trim desk.panel.new_name) desk.world.store ≡ none)))
    ⊎ IsMade server desk (handle_create server desk)
handle_create-IsMade_example = handle_create-IsMade server desk

-- The view is mounted and shows a.
one_terminal_shown_example :
    let s = run_effect (some "a") (remount empty_shelf) in
    let i = instance_of "a" (run_effect (some "b") s).instances in
    (is_within 0 i.place ≡ is_option (truthy (some "b")) "a") × (i.bindings ≤ 1)
unfolding run_effect remount str_dec Bool-cases truthy
one_terminal_shown_example =
    one_terminal_shown (some "b") 0 "a" (then_ (then_ fresh remounts) (shows (some "a"))) refl

-- Signed in on a small screen, with the drawer open and the banner shown.
abbrev shell : Shell
shell = record {
  auth = authenticated;
  initialized = true;
  permissions = record {
    warning = some "denied";
    dismissed = false;
    checking = false;
    stored = none;
  };
  sidebar = record { width = 220; dragging = false; latest_x = 0; frame = false };
  is_mobile = true;
  drawer_open = true;
  inner_width = 400;
}

app-tagged_example :
    (tagged "LoginForm" (app dark_ui shell) ≡ count (is_asking shell.auth))
    × (tagged "TerminalPanel" (app dark_ui shell) ≡ count (is_open shell))
    × (tagged "Sidebar" (app dark_ui shell)
        ≡ count (is_open shell && (not shell.is_mobile || shell.drawer_open)))
app-tagged_example = app-tagged dark_ui shell

toasts_run_out_example :
    ((n : ℕ) × (b : Board) × Waits (0 + toast_duration * length opened.toasts) n (render 0 opened) b
      × (b.store.toasts ≡ [])
      × (b.alarms ≡ [])
      × (n ≤ length opened.toasts))
    × ((later n : ℕ) (b : Board)
        → 0 ≤ later
        → Waits later n (render 0 opened) b
        → IsWaiting 0 later n opened b)
toasts_run_out_example = toasts_run_out 0 opened
