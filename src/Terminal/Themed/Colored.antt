-- ===== src/Terminal/Themed/Colored.antt =====
-- What a rendering and a paste make of the terminals of frontend/src/hooks/useTerminal.ts.
use loci_terminal.Common.{
  ◌≡◌, refl, ap, ◌∙◌, subst, inl, inr, String, true, ◌∷◌, [], ◌++◌, Option, none, some, truthy,
  arith, str_dec, Bool-cases, Option-cases,
}
use loci_terminal.Dict.{Dict, get, put}
use loci_terminal.Dict.Laws.{get-put, get-put_self}
use loci_terminal.Theme.Colors.{EffectiveTheme, terminal_theme_for}
use loci_terminal.Terminal.Themed.{
  Xterm, create_terminal, configure_textarea, open_terminal, Hook, same_deps, terminal_of,
  with_theme, mount_effect, theme_effect, use_terminal, paste_to_terminal,
}
use loci_terminal.Terminal.Themed.Deps.{same_deps-eq}

-- The text area leaves what is typed alone.
abbrev pub IsPlain : Xterm → Type 0
IsPlain x =
    (ta : Dict String)
    → x.textarea ≡ some ta
    → (get "autocapitalize" ta ≡ some "off")
      × (get "autocorrect" ta ≡ some "off")
      × (get "autocomplete" ta ≡ some "off")
      × (get "spellcheck" ta ≡ some "false")

abbrev pub AllPlain : Dict Xterm → Type 0
AllPlain instances = (id : String) (x : Xterm) → get id instances ≡ some x → IsPlain x

put-AllPlain :
    (id : String) (x : Xterm) (instances : Dict Xterm)
    → IsPlain x
    → AllPlain instances
    → AllPlain (put id x instances)
put-AllPlain id x instances p all j y e = elim (str_dec id j) [
  | yes q ↦ let r : x ≡ y = ground (arith, get-put id j x instances) in subst IsPlain r p
  | no q ↦ all j y (ground (arith, get-put id j x instances))
]

configure_textarea-IsPlain :
    (o : Option (Dict String)) (x : Xterm) → IsPlain (record x { textarea = configure_textarea o })
unfolding configure_textarea str_dec Bool-cases
configure_textarea-IsPlain none x ta e = absurd (cc)
configure_textarea-IsPlain (some a) x ta e =
    let a1 = put "autocapitalize" "off" a in
    let a2 = put "autocorrect" "off" a1 in
    let a3 = put "autocomplete" "off" a2 in
    let a4 = put "spellcheck" "false" a3 in
    let q : a4 ≡ ta = cc in
    rw (← q) (
      get-put "spellcheck" "autocapitalize" "false" a3
          ∙ get-put "autocomplete" "autocapitalize" "off" a2
          ∙ get-put "autocorrect" "autocapitalize" "off" a1
          ∙ get-put_self "autocapitalize" "off" a,
      get-put "spellcheck" "autocorrect" "false" a3
          ∙ get-put "autocomplete" "autocorrect" "off" a2
          ∙ get-put_self "autocorrect" "off" a1,
      get-put "spellcheck" "autocomplete" "false" a3 ∙ get-put_self "autocomplete" "off" a2,
      get-put_self "spellcheck" "false" a3,
    )

open_terminal-IsPlain :
    (o : Option (Dict String)) (x : Xterm) → IsPlain x → IsPlain (open_terminal o x)
unfolding open_terminal
open_terminal-IsPlain o x p = elim (Bool-cases x.opened) [
  | inl e ↦ rw e p
  | inr e ↦ rw e (configure_textarea-IsPlain o (record x { opened = true }))
]

terminal_of-IsPlain :
    (id : String) (t : EffectiveTheme) (instances : Dict Xterm)
    → AllPlain instances
    → IsPlain (terminal_of id t instances)
unfolding create_terminal
terminal_of-IsPlain id t instances all = elim (Option-cases (get id instances)) [
  | inl e ↦ rw (e, terminal_of) (λ ta q. absurd (cc))
  | inr (x, e) ↦ rw (e, terminal_of) (all id x e)
]

-- The terminal of the session is open, and has the theme.
abbrev pub Coloured : String → EffectiveTheme → Dict Xterm → Type 0
Coloured id t instances =
    (x : Xterm) × (get id instances ≡ some x)
    × (x.opened ≡ true)
    × (x.options.theme ≡ terminal_theme_for t)

abbrev pub IsThemed : Hook → Type 0
IsThemed h =
    AllPlain h.instances
    × ((session : Option String) (t : EffectiveTheme) (id : String)
        → h.deps ≡ some (session, t)
        → truthy session ≡ some id
        → Coloured id t h.instances)

-- Without a session the effects do nothing.
no_effects :
    (ta : Option (Dict String)) (session : Option String) (t : EffectiveTheme)
    (instances : Dict Xterm)
    → truthy session ≡ none
    → (mount_effect ta session t instances ≡ instances)
      × (theme_effect session t instances ≡ instances)
unfolding theme_effect mount_effect
no_effects ta session t instances e = (rw (e, mount_effect) refl, rw (e, theme_effect) refl)

mount_effect_lem :
    (ta : Option (Dict String)) (session : Option String) (t : EffectiveTheme)
    (instances : Dict Xterm) (id : String)
    → truthy session ≡ some id
    → mount_effect ta session t instances
      ≡ put id (open_terminal ta (terminal_of id t instances)) instances
unfolding mount_effect
mount_effect_lem ta session t instances id e = rw (e, mount_effect) refl

theme_effect_lem :
    (session : Option String) (t : EffectiveTheme) (instances : Dict Xterm) (id : String)
    (x : Xterm)
    → truthy session ≡ some id
    → get id instances ≡ some x
    → theme_effect session t instances ≡ put id (with_theme t x) instances
unfolding theme_effect
theme_effect_lem session t instances id x e q = rw (e, theme_effect) (rw q refl)

open_terminal-opened : (ta : Option (Dict String)) (x : Xterm) → (open_terminal ta x).opened ≡ true
unfolding open_terminal
open_terminal-opened ta x = ground arith

effects_colour :
    (ta : Option (Dict String)) (session : Option String) (t : EffectiveTheme)
    (instances : Dict Xterm)
    → AllPlain instances
    → let after = theme_effect session t (mount_effect ta session t instances) in
      AllPlain after × ((id : String) → truthy session ≡ some id → Coloured id t after)
effects_colour ta session t instances all = elim (Option-cases (truthy session)) [
  | inl e ↦ (let (p, q) = no_effects ta session t instances e in rw (p, q) all, λ id q. absurd (cc))
  | inr (id, e) ↦
      let x = open_terminal ta (terminal_of id t instances) in
      let plain =
        open_terminal-IsPlain ta (terminal_of id t instances)
          (terminal_of-IsPlain id t instances all) in
      rw
        (
          mount_effect_lem ta session t instances id e,
          theme_effect_lem session t (put id x instances) id x e (get-put_self id x instances),
        )
        (
          put-AllPlain id (with_theme t x) (put id x instances) plain
              (put-AllPlain id x instances plain all),
          λ j q.
              let same : id ≡ j = cc in
              rw (← same) (
                with_theme t x,
                get-put_self id (with_theme t x) (put id x instances),
                open_terminal-opened ta (terminal_of id t instances),
                refl,
              ),
        )
]

-- After a rendering the terminal of its session has its theme.
pub use_terminal-IsThemed :
    (ta : Option (Dict String)) (session : Option String) (t : EffectiveTheme) (h : Hook)
    → IsThemed h
    → let h' = use_terminal ta session t h in IsThemed h' × (h'.deps ≡ some (session, t))
unfolding use_terminal
use_terminal-IsThemed ta session t h (all, colours) =
    elim (Bool-cases (same_deps h.deps session t)) [
      | inl e ↦ rw e ((all, colours), same_deps-eq h.deps session t e)
      | inr e ↦
          let (plain, coloured) = effects_colour ta session t h.instances all in
          rw e (
            (
              plain,
              λ s u id p q.
                  let same : session ≡ s = cc in
                  let theme : t ≡ u = cc in
                  subst
                    (λ r.
                      Coloured id r
                        (theme_effect session t (mount_effect ta session t h.instances)))
                    theme (coloured id (ap truthy same ∙ q)),
            ),
            refl,
          )
    ]

pub paste_to_terminal-IsThemed :
    (id text : String) (h : Hook) → IsThemed h → IsThemed (paste_to_terminal id text h).0
unfolding paste_to_terminal
paste_to_terminal-IsThemed id text h (all, colours) = elim (Option-cases (get id h.instances)) [
  | inl e ↦ rw (e, paste_to_terminal) (all, colours)
  | inr (x, e) ↦
      let x' = record x { pasted = x.pasted ++ text ∷ [] } in
      rw (e, paste_to_terminal)
        (
          put-AllPlain id x' h.instances (all id x e) all,
          λ s u j p q.
              let (y, found, opened, theme) = colours s u j p q in
              elim (str_dec id j) [
                | yes r ↦
                    let same : x ≡ y = ground arith in
                    (x', ground (arith, get-put id j x' h.instances), rw same opened, rw same theme)
                | no r ↦ (y, ground (arith, get-put id j x' h.instances), opened, theme)
              ],
        )
]
