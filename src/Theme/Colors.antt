-- ===== src/Theme/Colors.antt =====
-- The colour tables of frontend/src/lib/theme.ts and the functions that choose from them.
use loci_terminal.Common.{String}

-- `ThemeMode` and `EffectiveTheme`
pub data ThemeMode : Type 0 where
  system light dark : ThemeMode

-- Its 'light' is `bright` and its 'dark' is `dim`.
pub data EffectiveTheme : Type 0 where
  bright dim : EffectiveTheme

pub record UiColors : Type 0 where
  pub app_bg : String
  pub sidebar_bg : String
  pub sidebar_border : String
  pub tab_bar_bg : String
  pub tab_active_bg : String
  pub tab_inactive_bg : String
  pub tab_border : String
  pub text_primary : String
  pub text_secondary : String
  pub text_muted : String
  pub accent : String
  pub danger : String
  pub warning : String
  pub terminal_bg : String
  pub overlay_bg : String
  pub hover_bg : String
  pub drop_overlay_bg : String
  pub drop_overlay_border : String
  pub drop_overlay_text : String
  pub meta_theme_color : String

-- The part of xterm's `ITheme` that is filled in.
pub record TerminalTheme : Type 0 where
  pub background : String
  pub foreground : String
  pub cursor : String
  pub cursor_accent : String
  pub selection_background : String
  pub selection_foreground : String
  pub black : String
  pub red : String
  pub green : String
  pub yellow : String
  pub blue : String
  pub magenta : String
  pub cyan : String
  pub white : String
  pub bright_black : String
  pub bright_red : String
  pub bright_green : String
  pub bright_yellow : String
  pub bright_blue : String
  pub bright_magenta : String
  pub bright_cyan : String
  pub bright_white : String

abbrev pub dark_ui : UiColors
dark_ui = record {
  app_bg = "#0d1117";
  sidebar_bg = "#010409";
  sidebar_border = "#21262d";
  tab_bar_bg = "#0d1117";
  tab_active_bg = "#161b22";
  tab_inactive_bg = "#0d1117";
  tab_border = "#21262d";
  text_primary = "#c9d1d9";
  text_secondary = "#8b949e";
  text_muted = "#484f58";
  accent = "#58a6ff";
  danger = "#ff7b72";
  warning = "#e3b341";
  terminal_bg = "#0d1117";
  overlay_bg = "rgba(0, 0, 0, 0.65)";
  hover_bg = "rgba(255, 255, 255, 0.06)";
  drop_overlay_bg = "rgba(126, 20, 255, 0.22)";
  drop_overlay_border = "#a274ff";
  drop_overlay_text = "#f0e9ff";
  meta_theme_color = "#0d1117";
}

abbrev pub light_ui : UiColors
light_ui = record {
  app_bg = "#ffffff";
  sidebar_bg = "#f6f8fa";
  sidebar_border = "#d0d7de";
  tab_bar_bg = "#ffffff";
  tab_active_bg = "#ffffff";
  tab_inactive_bg = "#f6f8fa";
  tab_border = "#d0d7de";
  text_primary = "#1f2328";
  text_secondary = "#59636e";
  text_muted = "#818b98";
  accent = "#0969da";
  danger = "#cf222e";
  warning = "#7d4e00";
  terminal_bg = "#ffffff";
  overlay_bg = "rgba(0, 0, 0, 0.45)";
  hover_bg = "rgba(0, 0, 0, 0.06)";
  drop_overlay_bg = "rgba(105, 33, 255, 0.10)";
  drop_overlay_border = "#6639ba";
  drop_overlay_text = "#3a1a78";
  meta_theme_color = "#f6f8fa";
}

abbrev pub dark_terminal_theme : TerminalTheme
dark_terminal_theme = record {
  background = "#0d1117";
  foreground = "#c9d1d9";
  cursor = "#58a6ff";
  cursor_accent = "#0d1117";
  selection_background = "#264f78";
  selection_foreground = "#ffffff";
  black = "#7d8590";
  red = "#ff7b72";
  green = "#3fb950";
  yellow = "#d29922";
  blue = "#58a6ff";
  magenta = "#bc8cff";
  cyan = "#39d2c0";
  white = "#c9d1d9";
  bright_black = "#9da7b3";
  bright_red = "#ffa198";
  bright_green = "#56d364";
  bright_yellow = "#e3b341";
  bright_blue = "#79c0ff";
  bright_magenta = "#d2a8ff";
  bright_cyan = "#56d4dd";
  bright_white = "#f0f6fc";
}

abbrev pub light_terminal_theme : TerminalTheme
light_terminal_theme = record {
  background = "#ffffff";
  foreground = "#1f2328";
  cursor = "#0969da";
  cursor_accent = "#ffffff";
  selection_background = "#b6e3ff";
  selection_foreground = "#0a3069";
  black = "#24292f";
  red = "#cf222e";
  green = "#116329";
  yellow = "#7d4e00";
  blue = "#0550ae";
  magenta = "#6639ba";
  cyan = "#0e6772";
  white = "#57606a";
  bright_black = "#3d444d";
  bright_red = "#a40e26";
  bright_green = "#055d20";
  bright_yellow = "#633c01";
  bright_blue = "#0a3069";
  bright_magenta = "#512a91";
  bright_cyan = "#0a4f57";
  bright_white = "#1f2328";
}

-- `uiFor`
abbrev pub ui_for : EffectiveTheme → UiColors
ui_for bright = light_ui
ui_for dim = dark_ui

-- `terminalThemeFor`
abbrev pub terminal_theme_for : EffectiveTheme → TerminalTheme
terminal_theme_for bright = light_terminal_theme
terminal_theme_for dim = dark_terminal_theme

-- `nextThemeMode`
abbrev pub next_theme_mode : ThemeMode → ThemeMode
next_theme_mode system = light
next_theme_mode light = dark
next_theme_mode dark = system
