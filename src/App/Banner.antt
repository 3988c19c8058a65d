-- ===== src/App/Banner.antt =====
-- When the permission banner of frontend/src/App.tsx is shown.
use loci_terminal.Common.{
  ◌≡◌, refl, Bool, true, false, not, Option, none, some, List, [], ◌∷◌, arith, truthy, All, ◌||◌,
  Option-cases, inl, inr, String,
}
use loci_terminal.App.{
  Permissions, Health, check_permissions, dismiss_perm_banner, show_perm_banner,
}

-- The server reports healthy permissions, or gives no reason.
abbrev pub is_healthy : Option Health → Bool
is_healthy none = false
is_healthy (some h) = not h.denied || (elim (truthy h.message) [ none ↦ true | some m ↦ false ])

unfoldable pub checks : List (Option Health) → Permissions → Permissions
checks [] p = p
checks (h ∷ hs) p = checks hs (check_permissions h p)

checks-dismissed :
    (hs : List (Option Health)) (p : Permissions)
    → p.dismissed ≡ true
    → All (λ h. is_healthy h ≡ false) hs
    → (checks hs p).dismissed ≡ true
unfolding checks check_permissions
checks-dismissed [] p d h = d
checks-dismissed (none ∷ hs) p d h = checks-dismissed hs _ d h.1
checks-dismissed (some x ∷ hs) p d h =
    checks-dismissed hs (check_permissions (some x) p) (ground arith) h.1

truthy_same : (o : Option String) (m : String) → truthy o ≡ some m → truthy (some m) ≡ some m
unfolding truthy
truthy_same none m e = absurd (cc)
truthy_same (some s) m e = ground arith

healthy_restores :
    (h : Health) (p : Permissions)
    → is_healthy (some h) ≡ true
    → (check_permissions (some h) p).dismissed ≡ false
unfolding check_permissions
healthy_restores h p g = ground arith

shown_again :
    (h : Health) (p : Permissions)
    → is_healthy (some h) ≡ false
    → p.dismissed ≡ false
    → show_perm_banner (check_permissions (some h) p) ≡ true
unfolding check_permissions show_perm_banner
shown_again h p b d = elim (Option-cases (truthy h.message)) [
  | inl e ↦ absurd (ground arith)
  | inr (m, e) ↦ ground (arith, truthy_same h.message m)
]

hidden_if_dismissed : (p : Permissions) → p.dismissed ≡ true → show_perm_banner p ≡ false
unfolding show_perm_banner
hidden_if_dismissed p d = ground arith

-- A dismissed banner stays away through checks of which none is healthy; after the first healthy one it
-- is shown again with the next report of missing permissions.
pub dismissed_until_healthy :
    (hs : List (Option Health)) (ok bad : Health) (p : Permissions)
    → All (λ h. is_healthy h ≡ false) hs
    → is_healthy (some ok) ≡ true
    → is_healthy (some bad) ≡ false
    → let away = checks hs (dismiss_perm_banner p) in
      (show_perm_banner away ≡ false)
      × (show_perm_banner (check_permissions (some bad) (check_permissions (some ok) away)) ≡ true)
dismissed_until_healthy hs ok bad p h g b =
    let away = checks hs (dismiss_perm_banner p) in
    (
      hidden_if_dismissed away
          (checks-dismissed hs (dismiss_perm_banner p) (unfold dismiss_perm_banner in refl) h),
      shown_again bad (check_permissions (some ok) away) b (healthy_restores ok away g),
    )
