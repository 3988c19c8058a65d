-- ===== src/Theme/Mode.antt =====
-- The choice of a theme: frontend/src/stores/themeStore.ts and frontend/src/hooks/useEffectiveTheme.ts.
-- The listeners of React and the subscription to the media query are left out: the system's
-- preference is the argument that it last reported.
use loci_terminal.Common.{String, Bool, Option, some, none, if◌then◌else◌, is}
use loci_terminal.Dict.{Dict, get, put}
use loci_terminal.Theme.Colors.{
  ThemeMode, system, light, dark, EffectiveTheme, bright, dim, UiColors, TerminalTheme, ui_for,
  terminal_theme_for, next_theme_mode,
}

-- `localStorage`: it may be missing, reading or writing it may throw, and it holds texts by key.
pub record Storage : Type 0 where
  pub present : Bool
  pub readable : Bool
  pub writable : Bool
  pub items : Dict String

abbrev pub storage_key : String
storage_key = "lociterm-theme"

-- The text that stands for a mode.
abbrev pub mode_text : ThemeMode → String
mode_text system = "system"
mode_text light = "light"
mode_text dark = "dark"

-- `isMode`, with the mode that the text is.
unfoldable pub is_mode : String → Option ThemeMode
is_mode v =
    if is v "system"
    then some system
    else if is v "light"
    then some light
    else if is v "dark"
    then some dark
    else none

unfoldable pub read_mode : Option String → ThemeMode
unfolding is_mode
read_mode none = system
read_mode (some v) = elim (is_mode v) [ none ↦ system | some m ↦ m ]

-- `loadMode`
unfoldable pub load_mode : Storage → ThemeMode
load_mode s =
    if s.present then if s.readable then read_mode (get storage_key s.items) else system else system

-- `saveMode`
unfoldable pub save_mode : ThemeMode → Storage → Storage
save_mode m s =
    if s.present
    then if s.writable then record s { items = put storage_key (mode_text m) s.items } else s
    else s

-- The theme store of one page, and the storage behind it.
pub record Page : Type 0 where
  pub mode : ThemeMode
  pub storage : Storage

-- A page begins with the stored mode.
unfoldable pub open_page : Storage → Page
open_page s = record { mode = load_mode s; storage = s }

-- `setMode`
unfoldable pub set_mode : ThemeMode → Page → Page
set_mode m p = record { mode = m; storage = save_mode m p.storage }

-- `readSystemTheme`: nothing stands for a missing `matchMedia`.
abbrev pub read_system_theme : Option Bool → EffectiveTheme
read_system_theme none = dim
read_system_theme (some matches) = if matches then bright else dim

-- The result of `useEffectiveTheme`, without the functions `setMode` and `cycleMode`.
pub record EffectiveThemeResult : Type 0 where
  pub mode : ThemeMode
  pub effective : EffectiveTheme
  pub ui : UiColors
  pub terminal_theme : TerminalTheme

unfoldable pub effective_of : ThemeMode → EffectiveTheme → EffectiveTheme
effective_of system system_theme = system_theme
effective_of light system_theme = bright
effective_of dark system_theme = dim

unfoldable pub use_effective_theme : EffectiveTheme → Page → EffectiveThemeResult
unfolding effective_of
use_effective_theme system_theme p =
    let effective = effective_of p.mode system_theme in
    record {
      mode = p.mode;
      effective = effective;
      ui = ui_for effective;
      terminal_theme = terminal_theme_for effective;
    }

-- `cycleMode`
unfoldable pub cycle_mode : Page → Page
cycle_mode p = set_mode (next_theme_mode p.mode) p

-- The attributes of the document that the hook's effect writes.
pub record Root : Type 0 where
  pub color_scheme : EffectiveTheme
  pub data_theme : EffectiveTheme
  pub meta_theme_color : Option String

unfoldable pub write_root : EffectiveThemeResult → Root → Root
write_root r d = record {
  color_scheme = r.effective;
  data_theme = r.effective;
  meta_theme_color = some r.ui.meta_theme_color;
}
