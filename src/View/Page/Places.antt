-- ===== src/View/Page/Places.antt =====
-- Which views stand on the page of frontend/src/App.tsx.
use loci_terminal.Common.{
  ℕ, ◌≡◌, refl, inl, inr, Bool, true, false, ◌&&◌, ◌||◌, not, if◌then◌else◌, str_dec, Bool-cases,
}
use loci_terminal.App.{
  AuthState, loading, needs_setup, needs_login, authenticated, show_perm_banner,
}
use loci_terminal.Theme.Colors.{UiColors}
use loci_terminal.View.Html.{tagged}
use loci_terminal.View.Page.{Shell, app, workspace_page}

abbrev pub count : Bool → ℕ
count b = if b then 1 else 0

-- The page of the workspaces is drawn.
abbrev pub is_open : Shell → Bool
is_open p = elim p.auth [ authenticated ↦ p.initialized | _ ↦ false ]

-- The user has still to sign in.
abbrev pub is_asking : AuthState → Bool
is_asking needs_setup = true
is_asking needs_login = true
is_asking _ = false

workspace_page-tagged :
    (ui : UiColors) (p : Shell)
    → (tagged "LoginForm" (workspace_page ui p) ≡ 0)
      × (tagged "TerminalPanel" (workspace_page ui p) ≡ 1)
      × (tagged "Sidebar" (workspace_page ui p) ≡ count (not p.is_mobile || p.drawer_open))
unfolding tagged str_dec Bool-cases
workspace_page-tagged ui p = elim (Bool-cases (show_perm_banner p.permissions)) [
  | inl b ↦ elim (Bool-cases p.is_mobile) [
    | inl m ↦ elim (Bool-cases p.drawer_open) [
      | inl o ↦ rw (b, m, o) (refl, refl, refl)
      | inr o ↦ rw (b, m, o) (refl, refl, refl)
    ]
    | inr m ↦ rw (b, m) (refl, refl, refl)
  ]
  | inr b ↦ elim (Bool-cases p.is_mobile) [
    | inl m ↦ elim (Bool-cases p.drawer_open) [
      | inl o ↦ rw (b, m, o) (refl, refl, refl)
      | inr o ↦ rw (b, m, o) (refl, refl, refl)
    ]
    | inr m ↦ rw (b, m) (refl, refl, refl)
  ]
]

tagged_at :
    (ui : UiColors) (p : Shell) (a : AuthState)
    → p.auth ≡ a
    → (tagged "LoginForm" (app ui p) ≡ count (is_asking p.auth))
      × (tagged "TerminalPanel" (app ui p) ≡ count (is_open p))
      × (tagged "Sidebar" (app ui p) ≡ count (is_open p && (not p.is_mobile || p.drawer_open)))
unfolding app tagged str_dec Bool-cases
tagged_at ui p loading e = rw (e, app) (refl, refl, refl)
tagged_at ui p needs_setup e = rw (e, app) (refl, refl, refl)
tagged_at ui p needs_login e = rw (e, app) (refl, refl, refl)
tagged_at ui p authenticated e = elim (Bool-cases p.initialized) [
  | inl i ↦ rw (e, i, app) (workspace_page-tagged ui p)
  | inr i ↦ rw (e, i, app) (refl, refl, refl)
]

-- The page shows the form to sign in exactly while the user has to; the terminals exactly once the user
-- is signed in and the store is initialized; and then one sidebar exactly if the screen is wide or the
-- drawer is open, else none.
pub app-tagged :
    (ui : UiColors) (p : Shell)
    → (tagged "LoginForm" (app ui p) ≡ count (is_asking p.auth))
      × (tagged "TerminalPanel" (app ui p) ≡ count (is_open p))
      × (tagged "Sidebar" (app ui p) ≡ count (is_open p && (not p.is_mobile || p.drawer_open)))
app-tagged ui p = tagged_at ui p p.auth refl
