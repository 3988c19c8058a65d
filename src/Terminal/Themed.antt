-- ===== src/Terminal/Themed.antt =====
-- The terminals of xterm that frontend/src/hooks/useTerminal.ts keeps, with their options: `createInstance`,
-- `configureTextarea`, `pasteToTerminal`, and the two effects of the hook as far as they touch these. xterm
-- is the record of what it was given; whether it has a text area is a parameter.
pub mod Colored
pub mod Deps
pub mod Shown
use loci_terminal.Common.{
  ℕ, String, Bool, true, false, ◌&&◌, List, [], ◌∷◌, ◌++◌, Option, none, some, get_or,
  if◌then◌else◌, truthy,
}
use loci_terminal.Dict.{Dict, get, put}
use loci_terminal.Store.Sessions.{same_option}
use loci_terminal.Theme.Colors.{EffectiveTheme, bright, dim, TerminalTheme, terminal_theme_for}

-- The options of the `Terminal`; the height of a line is in tenths.
pub record Options : Type 0 where
  pub theme : TerminalTheme
  pub font_family : String
  pub font_size : ℕ
  pub line_height : ℕ
  pub cursor_blink : Bool
  pub cursor_style : String
  pub allow_proposed_api : Bool
  pub scrollback : ℕ
  pub smooth_scroll_duration : ℕ

pub data Addon : Type 0 where
  fit_addon web_links_addon : Addon

-- A `Terminal`: nothing stands for its text area before it is opened, or where it has none.
pub record Xterm : Type 0 where
  pub options : Options
  pub addons : List Addon
  pub opened : Bool
  pub textarea : Option (Dict String)
  pub pasted : List String

-- The terminal of `createInstance`.
unfoldable pub create_terminal : EffectiveTheme → Xterm
create_terminal theme = record {
  options = record {
    theme = terminal_theme_for theme;
    font_family =
        "'JetBrains Mono', 'SF Mono', 'Menlo', 'Noto Sans KR', 'Noto Sans CJK SC', monospace";
    font_size = 14;
    line_height = 12;
    cursor_blink = true;
    cursor_style = "block";
    allow_proposed_api = true;
    scrollback = 10000;
    smooth_scroll_duration = 0;
  };
  addons = fit_addon ∷ web_links_addon ∷ [];
  opened = false;
  textarea = none;
  pasted = [];
}

-- `configureTextarea`
unfoldable pub configure_textarea : Option (Dict String) → Option (Dict String)
configure_textarea none = none
configure_textarea (some ta) = some (
    put "spellcheck" "false"
      (put "autocomplete" "off" (put "autocorrect" "off" (put "autocapitalize" "off" ta))))

-- `terminal.open` and `configureTextarea`, for a terminal that has no element yet.
unfoldable pub open_terminal : Option (Dict String) → Xterm → Xterm
unfolding configure_textarea
open_terminal ta x =
    if x.opened then x else record x { opened = true; textarea = configure_textarea ta }

-- What the hook keeps from one rendering to the next: `instances`, and the dependencies with which its
-- effects ran last. The two tables of `terminalThemeFor` are told apart by their names.
pub record Hook : Type 0 where
  pub instances : Dict Xterm
  pub deps : Option (Option String × EffectiveTheme)

abbrev pub no_terminals : Hook
no_terminals = record { instances = []; deps = none }

abbrev pub same_theme : EffectiveTheme → EffectiveTheme → Bool
same_theme bright bright = true
same_theme dim dim = true
same_theme _ _ = false

abbrev pub same_deps :
    Option (Option String × EffectiveTheme) → Option String → EffectiveTheme → Bool
same_deps none session theme = false
same_deps (some (s, t)) session theme = same_option s session && same_theme t theme

abbrev pub terminal_of : String → EffectiveTheme → Dict Xterm → Xterm
terminal_of id theme instances = elim (get id instances) [
  | none ↦ create_terminal theme
  | some x ↦ x
]

-- The first effect.
unfoldable pub mount_effect :
    Option (Dict String) → Option String → EffectiveTheme → Dict Xterm → Dict Xterm
unfolding open_terminal create_terminal
mount_effect ta session theme instances = elim (truthy session) [
  | none ↦ instances
  | some id ↦ put id (open_terminal ta (terminal_of id theme instances)) instances
]

abbrev pub with_theme : EffectiveTheme → Xterm → Xterm
with_theme theme x = record x { options = record x.options { theme = terminal_theme_for theme } }

-- The second effect.
unfoldable pub theme_effect : Option String → EffectiveTheme → Dict Xterm → Dict Xterm
theme_effect session theme instances = elim (truthy session) [
  | none ↦ instances
  | some id ↦ elim (get id instances) [
    | none ↦ instances
    | some x ↦ put id (with_theme theme x) instances
  ]
]

-- A rendering of `useTerminal`, and the effects whose dependencies it changed.
unfoldable pub use_terminal : Option (Dict String) → Option String → EffectiveTheme → Hook → Hook
unfolding mount_effect theme_effect same_option
use_terminal ta session theme h = if same_deps h.deps session theme then h else record {
  instances = theme_effect session theme (mount_effect ta session theme h.instances);
  deps = some (session, theme);
}

-- `pasteToTerminal`
unfoldable pub paste_to_terminal : String → String → Hook → Hook × Bool
paste_to_terminal id text h = elim (get id h.instances) [
  | none ↦ (h, false)
  | some x ↦ (
    record h { instances = put id (record x { pasted = x.pasted ++ text ∷ [] }) h.instances },
    true,
  )
]
