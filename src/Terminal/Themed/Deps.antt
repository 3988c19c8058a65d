-- ===== src/Terminal/Themed/Deps.antt =====
-- The dependencies of the effects of frontend/src/hooks/useTerminal.ts.
use loci_terminal.Common.{◌≡◌, refl, String, true, Option, none, some, arith}
use loci_terminal.Store.Sessions.{same_option}
use loci_terminal.Theme.Colors.{EffectiveTheme, bright, dim}
use loci_terminal.Terminal.Themed.{same_theme, same_deps}

same_theme-eq : (a b : EffectiveTheme) → same_theme a b ≡ true → a ≡ b
same_theme-eq bright bright e = refl
same_theme-eq bright dim e = absurd (cc)
same_theme-eq dim bright e = absurd (cc)
same_theme-eq dim dim e = refl

same_option-eq : (a b : Option String) → same_option a b ≡ true → a ≡ b
unfolding same_option
same_option-eq none none e = refl
same_option-eq none (some b) e = absurd (cc)
same_option-eq (some a) none e = absurd (cc)
same_option-eq (some a) (some b) e = ground arith

-- The effects are left out only where nothing that they depend on has changed.
pub same_deps-eq :
    (d : Option (Option String × EffectiveTheme)) (session : Option String) (t : EffectiveTheme)
    → same_deps d session t ≡ true
    → d ≡ some (session, t)
same_deps-eq none session t e = absurd (cc)
same_deps-eq (some (s, u)) session t e =
    let p = same_option-eq s session (ground arith) in
    let q = same_theme-eq u t (ground arith) in cc
