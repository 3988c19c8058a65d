-- ===== src/Theme/Cycle.antt =====
-- What the theme button does, across reloads of the page, in frontend/src/stores/themeStore.ts and
-- frontend/src/hooks/useEffectiveTheme.ts.
use loci_terminal.Common.{str_dec, Bool-cases, ℕ, zero, suc, ◌≡◌, ◌≤◌, refl, true, some, arith}
use loci_terminal.Dict.Laws.{get-put_self}
use loci_terminal.Theme.Colors.{
  ThemeMode, system, light, dark, EffectiveTheme, bright, dim, next_theme_mode,
}
use loci_terminal.Theme.Mode.{
  Storage, Page, mode_text, storage_key, is_mode, read_mode, load_mode, save_mode, open_page,
  set_mode, effective_of, use_effective_theme, cycle_mode,
}

-- The button pressed n times.
unfoldable pub presses : ℕ → Page → Page
presses zero p = p
presses (suc n) p = presses n (cycle_mode p)

-- The storage is there, and it can be read and written.
pub record IsWorking (s : Storage) : Type 0 where
  pub present : s.present ≡ true
  pub readable : s.readable ≡ true
  pub writable : s.writable ≡ true

read_mode-mode_text : (m : ThemeMode) → read_mode (some (mode_text m)) ≡ m
unfolding read_mode is_mode str_dec Bool-cases
read_mode-mode_text system = refl
read_mode-mode_text light = refl
read_mode-mode_text dark = refl

load_mode-save_mode : (m : ThemeMode) (s : Storage) → IsWorking s → load_mode (save_mode m s) ≡ m
unfolding load_mode save_mode
load_mode-save_mode m s h =
    let p = h.present in
    let r = h.readable in
    let w = h.writable in
    ground (arith, get-put_self storage_key (mode_text m) s.items, read_mode-mode_text m)

save_mode-IsWorking : (m : ThemeMode) (s : Storage) → IsWorking s → IsWorking (save_mode m s)
unfolding save_mode
save_mode-IsWorking m s h =
    let p = h.present in
    let r = h.readable in
    let w = h.writable in
    record { present = ground arith; readable = ground arith; writable = ground arith }

presses-saved :
    (n : ℕ) (p : Page)
    → IsWorking p.storage
    → load_mode p.storage ≡ p.mode
    → load_mode (presses n p).storage ≡ (presses n p).mode
unfolding presses cycle_mode set_mode
presses-saved zero p h e = e
presses-saved (suc n) p h e =
    let m = next_theme_mode p.mode in
    presses-saved n (cycle_mode p) (save_mode-IsWorking m p.storage h)
      (load_mode-save_mode m p.storage h)

-- However often the button was pressed since the page was opened, over a working storage, a page opened
-- next has the mode that this one shows.
pub presses-open_page :
    (n : ℕ) (s : Storage)
    → IsWorking s
    → let p = presses n (open_page s) in (open_page p.storage).mode ≡ p.mode
unfolding open_page
presses-open_page n s h = presses-saved n (open_page s) h refl

-- After how many presses a page with the mode shows the theme.
presses_to : ThemeMode → EffectiveTheme → EffectiveTheme → ℕ
presses_to light bright y = 0
presses_to light dim y = 1
presses_to dark dim y = 0
presses_to dark bright y = 2
presses_to system bright y = 1
presses_to system dim y = 2

presses_to-reach :
    (m : ThemeMode) (t y : EffectiveTheme) (s : Storage)
    → let n = presses_to m t y in
      ((use_effective_theme y (presses n (record { mode = m; storage = s }))).effective ≡ t)
      × (n ≤ 2)
unfolding presses_to presses cycle_mode set_mode use_effective_theme effective_of
presses_to-reach light bright y s = (refl, omega arith)
presses_to-reach light dim y s = (refl, omega arith)
presses_to-reach dark dim y s = (refl, omega arith)
presses_to-reach dark bright y s = (refl, omega arith)
presses_to-reach system bright y s = (refl, omega arith)
presses_to-reach system dim y s = (refl, omega arith)

-- Whatever the mode and the system's preference are, either theme is shown after at most two presses.
pub presses_reach :
    (t y : EffectiveTheme) (p : Page)
    → (n : ℕ) × ((use_effective_theme y (presses n p)).effective ≡ t) × (n ≤ 2)
presses_reach t y p =
    let (shown, few) = presses_to-reach p.mode t y p.storage in (presses_to p.mode t y, shown, few)
