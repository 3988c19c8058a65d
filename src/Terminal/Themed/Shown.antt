-- ===== src/Terminal/Themed/Shown.antt =====
-- The colours of the terminal on the screen, over a history of the page: the theme of
-- frontend/src/hooks/useEffectiveTheme.ts and the terminals of frontend/src/hooks/useTerminal.ts.
use loci_terminal.Common.{◌≡◌, String, Bool, true, Option, none}
use loci_terminal.Dict.{Dict}
use loci_terminal.Theme.Colors.{ThemeMode, EffectiveTheme}
use loci_terminal.Theme.Mode.{Storage, Page, open_page, set_mode, cycle_mode, effective_of}
use loci_terminal.Theme.System.{System, begin_system, watch_system, change_system}
use loci_terminal.Terminal.Themed.{Hook, no_terminals, use_terminal, paste_to_terminal}

-- The theme store, the preference of the system, and the terminals, as one page keeps them.
pub record Display : Type 0 where
  pub page : Page
  pub system : System
  pub hook : Hook

-- The theme that the hook of a rendering works with.
abbrev pub current_theme : Display → EffectiveTheme
current_theme d = effective_of d.page.mode d.system.system_theme

-- A rendering with the session, and its effects.
abbrev pub renders : Option (Dict String) → Option String → Display → Display
renders ta session d = record d { hook = use_terminal ta session (current_theme d) d.hook }

-- What happens to the page; the preference does not change between the first rendering of the hook and its effect.
pub data DisplayStep (d : Display) : Display → Type 0 where
  chooses : (m : ThemeMode) → DisplayStep d (record d { page = set_mode m d.page })
  cycles : DisplayStep d (record d { page = cycle_mode d.page })
  watches : DisplayStep d (record d { system = watch_system d.system })
  changes :
      (b : Bool)
      → d.system.listening ≡ true
      → DisplayStep d (record d { system = change_system b d.system })
  shows :
      (ta : Option (Dict String)) (session : Option String) → DisplayStep d (renders ta session d)
  pastes :
      (id text : String) → DisplayStep d (record d { hook = (paste_to_terminal id text d.hook).0 })
  remounts :
      (browser : Option Bool)
      → DisplayStep d
          (record d { system = begin_system browser; hook = record d.hook { deps = none } })

pub data DisplayReach : Display → Type 0 where
  loads :
      (s : Storage) (browser : Option Bool)
      → DisplayReach
          (record { page = open_page s; system = begin_system browser; hook = no_terminals })
  proceeds : {d d' : Display} → DisplayReach d → DisplayStep d d' → DisplayReach d'
