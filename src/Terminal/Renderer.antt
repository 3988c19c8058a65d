-- ===== src/Terminal/Renderer.antt =====
-- The WebGL addon of a terminal: `loadWebgl` of frontend/src/hooks/useTerminal.ts, which the opening of the
-- terminal calls, and the addon's report that the browser evicted its context. Addons are numbers in order of
-- construction; `works` says that neither the constructor nor `loadAddon` throws.
use loci_terminal.Common.{
  ℕ, suc, ◌≡◌, refl, ap, ◌∙◌, subst, inl, inr, Bool, true, not, List, [], ◌∷◌, Option, none, some,
  filter, eqb, if◌then◌else◌, any, arith, Option-cases, Bool-cases,
}

-- `inst.webgl`, the addons that are loaded and not disposed of, and how many were loaded.
pub record Renderer : Type 0 where
  pub webgl : Option ℕ
  pub loaded : List ℕ
  pub made : ℕ

abbrev pub no_renderer : Renderer
no_renderer = record { webgl = none; loaded = []; made = 0 }

-- `loadWebgl`
unfoldable pub load_webgl : Bool → Renderer → Renderer
load_webgl works r = elim r.webgl [
  | some g ↦ r
  | none ↦
      if works
      then record { webgl = some r.made; loaded = r.made ∷ r.loaded; made = suc r.made }
      else r
]

-- What `onContextLoss` runs for the addon `g`: it is disposed of, and another is loaded.
unfoldable pub context_lost : ℕ → Bool → Renderer → Renderer
unfolding load_webgl
context_lost g works r =
    load_webgl works (record r { webgl = none; loaded = filter (λ x. not (eqb x g)) r.loaded })

-- The terminal is opened, or an addon that is not disposed of loses its context.
pub data RendererStep (r : Renderer) : Renderer → Type 0 where
  opens : (works : Bool) → RendererStep r (load_webgl works r)
  loses :
      (g : ℕ) (works : Bool) → any (eqb g) r.loaded ≡ true → RendererStep r (context_lost g works r)

pub data RendererReach : Renderer → Type 0 where
  fresh : RendererReach no_renderer
  then_ : {r r' : Renderer} → RendererReach r → RendererStep r r' → RendererReach r'

abbrev pub listed : Option ℕ → List ℕ
listed none = []
listed (some g) = g ∷ []

load_webgl-listed :
    (works : Bool) (r : Renderer)
    → r.loaded ≡ listed r.webgl
    → (load_webgl works r).loaded ≡ listed (load_webgl works r).webgl
unfolding load_webgl
load_webgl-listed works r e = elim (Option-cases r.webgl) [
  | inl q ↦
      let bare = ap listed q in
      elim (Bool-cases works) [
        | inl k ↦ rw (q, k) (ap (λ xs. r.made ∷ xs) (e ∙ bare))
        | inr k ↦ rw (q, k) (e ∙ bare)
      ]
  | inr (g, q) ↦ rw q (e ∙ ap listed q)
]

-- An addon that is alone goes away with its context.
filter-listed :
    (g : ℕ) (o : Option ℕ)
    → any (eqb g) (listed o) ≡ true
    → filter (λ x. not (eqb x g)) (listed o) ≡ []
filter-listed g none e = refl
filter-listed g (some x) e = ground arith

-- However often the terminal is opened and the browser evicts a context, the addon on record is the only one
-- that is loaded and not disposed of, and where none is on record there is none.
pub one_renderer : {r : Renderer} → RendererReach r → r.loaded ≡ listed r.webgl
unfolding context_lost
one_renderer fresh = refl
one_renderer (then_ {r} h (opens works)) = load_webgl-listed works r (one_renderer h)
one_renderer (then_ {r} h (loses g works l)) =
    let e = one_renderer h in
    let gone : filter (λ x. not (eqb x g)) r.loaded ≡ [] =
      ap (filter (λ x. not (eqb x g))) e
      ∙ filter-listed g r.webgl (subst (λ xs. any (eqb g) xs ≡ true) e l) in
    load_webgl-listed works
      (record r { webgl = none; loaded = filter (λ x. not (eqb x g)) r.loaded }) gone
