-- ===== src/Theme/System.antt =====
-- The system's preference, as the state and the first effect of frontend/src/hooks/useEffectiveTheme.ts keep it.
-- Nothing stands for a browser without `matchMedia`.
use loci_terminal.Common.{◌≡◌, ◌≢◌, Bool, true, false, Option, none, some, if◌then◌else◌, arith}
use loci_terminal.Theme.Colors.{EffectiveTheme, bright, dim}
use loci_terminal.Theme.Mode.{read_system_theme}

-- What the browser says of the query, the hook's state, and whether its listener is there.
pub record System : Type 0 where
  pub browser : Option Bool
  pub system_theme : EffectiveTheme
  pub listening : Bool

-- The first rendering.
unfoldable pub begin_system : Option Bool → System
begin_system browser = record {
  browser = browser;
  system_theme = read_system_theme browser;
  listening = false;
}

-- The effect adds the listener; it does not read again.
unfoldable pub watch_system : System → System
watch_system y = elim y.browser [ none ↦ y | some b ↦ record y { listening = true } ]

-- The browser's preference changes; a listener is told.
unfoldable pub change_system : Bool → System → System
change_system b y = elim y.browser [
  | none ↦ y
  | some a ↦
      if y.listening
      then record y { browser = some b; system_theme = if b then bright else dim }
      else record y { browser = some b }
]

abbrev pub IsCurrent : System → Type 0
IsCurrent y = y.system_theme ≡ read_system_theme y.browser

pub watch_system-IsCurrent : (y : System) → IsCurrent y → IsCurrent (watch_system y)
unfolding watch_system
watch_system-IsCurrent y e = ground arith

-- A change that the listener is told of keeps the state current.
pub change_system-IsCurrent :
    (b : Bool) (y : System) → y.listening ≡ true → IsCurrent y → IsCurrent (change_system b y)
unfolding change_system
change_system-IsCurrent b y l e = ground arith

-- A change between the first rendering and the effect is missed, and stays so once the effect has run.
change_missed :
    (a b : Bool)
    → read_system_theme (some a) ≢ read_system_theme (some b)
    → ¬ IsCurrent (watch_system (change_system b (begin_system (some a))))
unfolding watch_system change_system begin_system
change_missed a b ne e = ne e
