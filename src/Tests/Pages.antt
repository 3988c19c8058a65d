-- ===== src/Tests/Pages.antt =====
-- The theme, the sidebar, the forms and the drop of files at concrete states.
use Prim.Native.String.{◌++◌ as ◌<>◌}
use loci_terminal.Common.{String, none, some, ◌≡◌, refl, truthy, str_dec, Bool-cases}
use loci_terminal.Client.{base}
use loci_terminal.Client.Sent.{is_plain}
use loci_terminal.Common.{
  if◌then◌else◌, ◌++◌, String, Option, ◌↔◌, ◌≢◌, ◌≤◌, ◌≡◌, refl, true, false, [], ◌∷◌, some, none,
  truthy, str_dec, Bool-cases,
}
use loci_terminal.Theme.Mode.{Storage, open_page}
use loci_terminal.Theme.Cycle.{presses, presses-open_page}
use loci_terminal.App.{
  authenticated, needs_login, Sidebar, Health, initial_sidebar, on_mouse_down, handle_mouse_move,
  on_frame, open_permissions, check_permissions, dismiss_perm_banner, show_perm_banner,
}
use loci_terminal.App.Layout.{SidebarReach, SidebarStep, start, next, moves, frames, sidebar_bounds}
use loci_terminal.App.Banner.{checks, dismissed_until_healthy}
use loci_terminal.App.Login.{Form, rejects, succeeds, refused, handle_submit, handle_submit_outcome}
use loci_terminal.Terminal.Upload.{View}
use loci_terminal.Tests.Data.{differ}

abbrev empty_storage : Storage
empty_storage = record { present = true; readable = true; writable = true; items = [] }

presses-open_page_example :
    let p = presses 2 (open_page empty_storage) in (open_page p.storage).mode ≡ p.mode
presses-open_page_example =
    presses-open_page 2 empty_storage (record { present = refl; readable = refl; writable = refl })

-- The pointer is dragged to 900.
abbrev dragged : Sidebar
dragged = on_frame (handle_mouse_move 900 (on_mouse_down initial_sidebar))

dragged-Reach : SidebarReach dragged
unfolding initial_sidebar on_mouse_down handle_mouse_move
dragged-Reach = next (next (next start SidebarStep.presses) (moves 900)) (frames refl)

sidebar_bounds_example :
    (140 ≤ dragged.width) × (dragged.width ≤ 400) × (dragged.frame ≡ true → dragged.dragging ≡ true)
sidebar_bounds_example = sidebar_bounds dragged-Reach

abbrev denied_health : Health
denied_health = record { denied = true; message = some "Full Disk Access required" }

abbrev fine_health : Health
fine_health = record { denied = false; message = none }

dismissed_until_healthy_example :
    let away =
      checks
        (some denied_health ∷ none ∷ [])
        (dismiss_perm_banner (open_permissions (some false))) in
    (show_perm_banner away ≡ false)
    × (show_perm_banner
          (check_permissions (some denied_health) (check_permissions (some fine_health) away))
        ≡ true)
unfolding truthy str_dec Bool-cases
dismissed_until_healthy_example =
    dismissed_until_healthy (some denied_health ∷ none ∷ []) fine_health denied_health
      (open_permissions (some false)) (refl, (refl, tt)) refl refl

abbrev filled : Form
filled = record { password = "secret"; error = ""; loading = false }

handle_submit_outcome_example :
    let p = handle_submit false (refused (some "invalid password")) (filled, needs_login) in
    ((p.1 ≡ authenticated) ↔ (refused (some "invalid password") ≡ succeeds))
    × ((p.0.error ≢ "") ↔ ((m : Option String) × (refused (some "invalid password") ≡ refused m)))
    × ((p.0.loading ≡ true) ↔ (refused (some "invalid password") ≡ rejects))
unfolding str_dec Bool-cases
handle_submit_outcome_example =
    handle_submit_outcome false (refused (some "invalid password")) filled needs_login
      (differ "secret" "" refl) (λ e. absurd (cc))

abbrev a_view : View
a_view = record { is_dragging = true; uploading_name = none; error_msg = some "old"; pasted = [] }

-- A text that stands for the body of a request.
abbrev as_body : String → String → String
as_body key value = key <> (":" <> value)

-- A browser that drops everything of a path that has a character that is not plain.
abbrev plain_or_root : String → String
plain_or_root x = if is_plain x then x else base
