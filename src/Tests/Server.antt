-- ===== src/Tests/Server.antt =====
-- Calls of the store of frontend/src/stores/appStore.ts with the answers of a concrete server.
use loci_terminal.Common.{
  false, ◌≡◌, refl, ◌↔◌, true, [], ◌∷◌, map, some, get_or, Bool-cases, str_dec, truthy,
}
use loci_terminal.Dict.{get}
use loci_terminal.Store.State.{Toast, is_option, World, AppState, hidden, initial_state}
use loci_terminal.Store.Sessions.{sessions_equal, sessions_of, delete_session, poll_active}
use loci_terminal.Store.Workspaces.{init, set_active_workspace, delete_workspace, listed_sessions}
use loci_terminal.Store.Activity.{mark_session_output, note_output}
use loci_terminal.Store.Tracking.{IsTracked}
use loci_terminal.Store.Tracking.Output.{mark_session_output-IsTracked}
use loci_terminal.Store.Deletions.{
  IsForgotten, delete_session-IsForgotten, IsWithdrawn, delete_workspace-IsWithdrawn,
}
use loci_terminal.Store.Polling.{row, sessions_equal_iff, poll_active-rows}
use loci_terminal.Store.Clicks.{click_toast, IsOpened, click_toast-IsOpened}
use loci_terminal.Tests.Data.{a_session, server, opened, page}

-- What a call leaves, or the state in which it began where it rejects.
abbrev started : AppState
started = get_or (init server initial_state) initial_state

-- The session a has written at 1000, unseen, and its timeout is pending.
abbrev noisy : World
noisy = mark_session_output "a" hidden 1000 page

page-IsTracked : IsTracked 1000 page
unfolding get
page-IsTracked = record {
  owned = tt;
  pending = λ id h e. absurd (cc);
  paired = λ id. refl;
  spans = λ id t e. absurd (cc);
}

noisy-IsTracked : IsTracked 1000 noisy
noisy-IsTracked = mark_session_output-IsTracked 1000 "a" hidden page page-IsTracked

abbrev after_delete : World
after_delete = get_or (delete_session server "a" noisy) noisy

abbrev after_withdrawal : World
after_withdrawal = get_or (delete_workspace server "v" noisy) noisy

abbrev after_switch : World
after_switch = get_or (set_active_workspace server "w" opened page) page

delete_session-IsForgotten_example : IsForgotten "v" "a" after_delete
unfolding delete_session mark_session_output note_output truthy str_dec Bool-cases
delete_session-IsForgotten_example =
    delete_session-IsForgotten server 1000 "v" "a" noisy {w' = after_delete} noisy-IsTracked refl
      refl

delete_workspace-IsWithdrawn_example : IsWithdrawn "v" noisy after_withdrawal
unfolding delete_workspace
delete_workspace-IsWithdrawn_example =
    delete_workspace-IsWithdrawn server 1000 "v" noisy {w' = after_withdrawal} noisy-IsTracked refl

sessions_equal_iff_example :
    (sessions_equal (a_session "a" "v" ∷ []) (a_session "a" "w" ∷ []) ≡ true)
    ↔ (map row (a_session "a" "v" ∷ []) ≡ map row (a_session "a" "w" ∷ []))
sessions_equal_iff_example = sessions_equal_iff (a_session "a" "v" ∷ []) (a_session "a" "w" ∷ [])

poll_active-rows_example :
    (s' : AppState) × (poll_active server opened opened ≡ some s')
    × (map row (sessions_of s' "v") ≡ map row (a_session "a" "v" ∷ a_session "b" "v" ∷ []))
    × (map row (sessions_of opened "v") ≡ map row (a_session "a" "v" ∷ a_session "b" "v" ∷ [])
        → s' ≡ opened)
unfolding truthy str_dec Bool-cases
poll_active-rows_example =
    poll_active-rows server "v" (a_session "a" "v" ∷ a_session "b" "v" ∷ []) opened opened refl refl

abbrev a_toast : Toast
a_toast = record {
  id = "c-700";
  session_id = "c";
  workspace_id = "w";
  session_title = "Terminal";
  created_at = 700;
}

abbrev after_click : World
after_click = get_or (click_toast server a_toast (some "v") opened page) page

click_toast-IsOpened_example :
    IsOpened a_toast after_click
    × (is_option (some "v") "w" ≡ false → after_click.store.active_workspace_id ≡ some "w")
unfolding click_toast set_active_workspace listed_sessions get str_dec Bool-cases
click_toast-IsOpened_example =
    click_toast-IsOpened server a_toast (some "v") opened page {w' = after_click} refl
