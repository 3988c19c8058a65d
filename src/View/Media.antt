-- ===== src/View/Media.antt =====
-- The hook frontend/src/hooks/useMediaQuery.ts, by which the page knows a small screen. Nothing stands for a
-- browser without `matchMedia`.
use loci_terminal.Common.{
  ◌≡◌, refl, inl, inr, ap, if◌then◌else◌, Bool, true, false, Option, none, some, Option-cases,
  arith,
}

-- What the browser says of the query, the hook's state, and whether its listener is there.
pub record Media : Type 0 where
  pub browser : Option Bool
  pub matches : Bool
  pub listening : Bool

-- `read`
abbrev pub read : Option Bool → Bool
read none = false
read (some b) = b

-- The first rendering.
unfoldable pub first_render : Option Bool → Media
first_render browser = record { browser = browser; matches = read browser; listening = false }

-- The effect subscribes, and reads again.
unfoldable pub subscribe : Media → Media
subscribe m = elim m.browser [ none ↦ m | some b ↦ record m { matches = b; listening = true } ]

-- The answer of the browser to the query changes; a listener is told.
unfoldable pub change : Bool → Media → Media
change b m = elim m.browser [
  | none ↦ m
  | some a ↦
      if m.listening
      then record m { browser = some b; matches = b }
      else record m { browser = some b }
]

-- The clean-up of the effect.
unfoldable pub unsubscribe : Media → Media
unsubscribe m = record m { listening = false }

pub data MediaStep (m : Media) : Media → Type 0 where
  subscribes : MediaStep m (subscribe m)
  changes : (b : Bool) → MediaStep m (change b m)
  unsubscribes : MediaStep m (unsubscribe m)

pub data MediaReach : Media → Type 0 where
  rendered : (browser : Option Bool) → MediaReach (first_render browser)
  goes_on : {m m' : Media} → MediaReach m → MediaStep m m' → MediaReach m'

-- While the listener is there, the hook says what the browser says.
listening-matches : {m : Media} → MediaReach m → m.listening ≡ true → m.matches ≡ read m.browser
unfolding first_render subscribe change unsubscribe
listening-matches (rendered b) e = refl
listening-matches (goes_on {m} r subscribes) e = elim (Option-cases m.browser) [
  | inl q ↦ let h = listening-matches r in ground arith
  | inr (b, q) ↦ ground arith
]
listening-matches (goes_on {m} r (changes b)) e = elim (Option-cases m.browser) [
  | inl q ↦ let h = listening-matches r in ground arith
  | inr (a, q) ↦ ground arith
]
listening-matches (goes_on {m} r unsubscribes) e = absurd (cc)

missing-matches : {m : Media} → MediaReach m → m.browser ≡ none → m.matches ≡ false
unfolding first_render subscribe change unsubscribe
missing-matches (rendered b) e = ap read e
missing-matches (goes_on {m} r subscribes) e = elim (Option-cases m.browser) [
  | inl q ↦ let h = missing-matches r q in ground arith
  | inr (b, q) ↦ absurd (ground arith)
]
missing-matches (goes_on {m} r (changes b)) e = elim (Option-cases m.browser) [
  | inl q ↦ let h = missing-matches r q in ground arith
  | inr (a, q) ↦ absurd (ground arith)
]
missing-matches (goes_on r unsubscribes) e = missing-matches r e

-- Through any changes: the hook says what the browser says while its listener is there, and as soon as the
-- effect has run, whatever changed between the first rendering and the effect.
hook_follows :
    {m : Media}
    → MediaReach m
    → (m.listening ≡ true → m.matches ≡ read m.browser)
      × ((subscribe m).matches ≡ read (subscribe m).browser)
unfolding subscribe
hook_follows {m} r = (
  listening-matches r,
  elim (Option-cases m.browser) [
    | inl q ↦ let h = missing-matches r q in ground arith
    | inr (b, q) ↦ ground arith
  ],
)
