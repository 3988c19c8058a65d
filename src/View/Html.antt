-- ===== src/View/Html.antt =====
-- The trees that the components of frontend/src/components return: elements with their attributes, inline
-- styles and handlers. A handler is named by an action `A`, which its component interprets; React's keys
-- and refs are left out. Numbers in styles are written out.
use loci_terminal.Common.{
  ◌⊎◌, inl, inr, subst, ℕ, ◌+◌, ◌≡◌, String, Bool, true, false, List, [], ◌∷◌, ◌++◌, is,
  if◌then◌else◌, All, All-++, All-split, arith,
}

pub data Prop (A : Type 0) : Type 0 where
  attr : String → String → Prop A
  style : List (String × String) → Prop A
  on : String → A → Prop A

mutual
  pub data Html (A : Type 0) : Type 0 where
    element : String → List (Prop A) → Nodes A → Html A
    text : String → Html A

  pub data Nodes (A : Type 0) : Type 0 where
    nothing : Nodes A
    node : Html A → Nodes A → Nodes A

module _ {A : Type 0} where
  -- The children of an element.
  abbrev pub nodes : List (Html A) → Nodes A
  nodes [] = nothing
  nodes (h ∷ hs) = node h (nodes hs)

  -- `b && <h />`
  abbrev pub when : Bool → Html A → List (Html A)
  when true h = h ∷ []
  when false h = []

  -- The handlers among the properties of an element, with their events.
  abbrev pub handlers : List (Prop A) → List (String × A)
  handlers [] = []
  handlers (on event a ∷ ps) = (event, a) ∷ handlers ps
  handlers (attr k v ∷ ps) = handlers ps
  handlers (style s ∷ ps) = handlers ps

  abbrev pub is_labelled : String → List (Prop A) → Bool
  is_labelled label [] = false
  is_labelled label (attr k v ∷ ps) =
      let rest = is_labelled label ps in if is k "aria-label" then is v label else rest
  is_labelled label (style s ∷ ps) = is_labelled label ps
  is_labelled label (on event a ∷ ps) = is_labelled label ps

  -- An attribute that is there or not.
  abbrev pub flag : String → Bool → List (Prop A)
  flag k true = attr k "" ∷ []
  flag k false = []

  abbrev pub is_marked : String → List (Prop A) → Bool
  is_marked key [] = false
  is_marked key (attr k v ∷ ps) = let rest = is_marked key ps in if is k key then true else rest
  is_marked key (style s ∷ ps) = is_marked key ps
  is_marked key (on event a ∷ ps) = is_marked key ps

  -- What the user can do, in the order of the page.
  unfoldable mutual
    pub actions : Html A → List (String × A)
    actions (element tag ps children) = handlers ps ++ actions_all children
    actions (text t) = []

    pub actions_all : Nodes A → List (String × A)
    actions_all nothing = []
    actions_all (node h hs) = actions h ++ actions_all hs

  -- How many elements have the label.
  unfoldable mutual
    pub labelled : String → Html A → ℕ
    labelled label (element tag ps children) =
        (if is_labelled label ps then 1 else 0) + labelled_all label children
    labelled label (text t) = 0

    pub labelled_all : String → Nodes A → ℕ
    labelled_all label nothing = 0
    labelled_all label (node h hs) = labelled label h + labelled_all label hs

  -- How many elements have the attribute.
  unfoldable mutual
    pub marked : String → Html A → ℕ
    marked key (element tag ps children) =
        (if is_marked key ps then 1 else 0) + marked_all key children
    marked key (text t) = 0

    pub marked_all : String → Nodes A → ℕ
    marked_all key nothing = 0
    marked_all key (node h hs) = marked key h + marked_all key hs

  -- How many elements, or views, have the name.
  unfoldable mutual
    pub tagged : String → Html A → ℕ
    tagged name (element tag ps children) =
        (if is tag name then 1 else 0) + tagged_all name children
    tagged name (text t) = 0

    pub tagged_all : String → Nodes A → ℕ
    tagged_all name nothing = 0
    tagged_all name (node h hs) = tagged name h + tagged_all name hs

  -- The children of two lists, one after the other.
  pub actions-nodes {κ} :
      (P : String × A → Type κ) (hs ks : List (Html A))
      → All P (actions_all (nodes hs))
      → All P (actions_all (nodes ks))
      → All P (actions_all (nodes (hs ++ ks)))
  unfolding actions
  actions-nodes P [] ks p q = q
  actions-nodes P (h ∷ hs) ks p q =
      let (first, rest) = All-split P (actions h) (actions_all (nodes hs)) p in
      All-++ P (actions h) (actions_all (nodes (hs ++ ks))) first (actions-nodes P hs ks rest q)

  pub labelled-nodes :
      (label : String) (hs ks : List (Html A))
      → labelled_all label (nodes (hs ++ ks))
        ≡ labelled_all label (nodes hs) + labelled_all label (nodes ks)
  unfolding labelled
  labelled-nodes label [] ks = omega arith
  labelled-nodes label (h ∷ hs) ks = let rest = labelled-nodes label hs ks in omega arith

  -- One of the handlers runs the action.
  abbrev pub Offers : A → List (String × A) → Type 0
  Offers a [] = ⊥
  Offers a (e ∷ es) = (e.1 ≡ a) ⊎ Offers a es

  pub All-Offers {κ} :
      (P : A → Type κ) (es : List (String × A)) {a : A} → All (λ e. P e.1) es → Offers a es → P a
  All-Offers P [] h o = absurd o
  All-Offers P (e ∷ es) h (inl q) = subst P q h.0
  All-Offers P (e ∷ es) h (inr o) = All-Offers P es h.1 o
