-- ===== src/Store/Mirror/Ids.antt =====
-- The ids of the rows that frontend/src/stores/appStore.ts keeps, and what its list operations do to them.
use loci_terminal.Common.{
  ◌≡◌, ◌≢◌, refl, String, Bool, true, false, not, All, All-map, List, [], ◌∷◌, ◌++◌, map, Option,
  none, some, filter, any, is, arith, if◌then◌else◌,
}
use loci_terminal.Store.State.{Workspace, Session}
use loci_terminal.Store.Sessions.{first_id}
use loci_terminal.Store.Workspaces.{first_workspace_id}

abbrev pub workspace_ids : List Workspace → List String
workspace_ids = map λ (w : Workspace). w.id

abbrev pub session_ids : List Session → List String
session_ids = map λ (x : Session). x.id

abbrev pub has : String → List String → Bool
has x = any λ y. is y x

abbrev pub first : List String → Option String
first [] = none
first (x ∷ xs) = some x

pub first_none : (xs : List String) → first xs ≡ none → xs ≡ []
first_none [] e = refl
first_none (x ∷ xs) e = absurd (cc)

pub has-last : (x : String) (xs : List String) → has x (xs ++ x ∷ []) ≡ true
has-last x [] = ground arith
has-last x (y ∷ xs) = ground (arith, has-last x xs)

pub has-append : (x y : String) (xs : List String) → has x xs ≡ true → has x (xs ++ y ∷ []) ≡ true
has-append x y [] e = ground arith
has-append x y (z ∷ xs) e = ground (arith, has-append x y xs)

pub has-append_true :
    (x y : String) (xs : List String) → y ≢ x → has x (xs ++ y ∷ []) ≡ true → has x xs ≡ true
has-append_true x y [] ne e = ground arith
has-append_true x y (z ∷ xs) ne e = ground (arith, has-append_true x y xs)

pub has-append_false :
    (x y : String) (xs : List String) → has x (xs ++ y ∷ []) ≡ false → has x xs ≡ false
has-append_false x y [] e = refl
has-append_false x y (z ∷ xs) e = ground (arith, has-append_false x y xs)

pub has_filtered :
    (id : String) (xs : List String) → has id (filter (λ i. not (is i id)) xs) ≡ false
has_filtered id [] = refl
has_filtered id (y ∷ xs) = ground (arith, has_filtered id xs)

pub has_of_filter :
    (x id : String) (xs : List String)
    → has x (filter (λ i. not (is i id)) xs) ≡ true
    → has x xs ≡ true
has_of_filter x id [] e = e
has_of_filter x id (y ∷ xs) e = ground (arith, has_of_filter x id xs)

pub has-first : (x : String) (xs : List String) → first xs ≡ some x → has x xs ≡ true
has-first x [] e = absurd (cc)
has-first x (y ∷ xs) e = ground arith

pub has-filter :
    (x id : String) (xs : List String)
    → is x id ≡ false
    → has x (filter (λ i. not (is i id)) xs) ≡ has x xs
has-filter x id [] e = refl
has-filter x id (y ∷ xs) e = ground (arith, has-filter x id xs e)

module _ {A : Type 0} (key : A → String) where
  pub map-last : (x : A) (xs : List A) → map key (xs ++ x ∷ []) ≡ map key xs ++ key x ∷ []
  map-last x [] = refl
  map-last x (y ∷ xs) = cc (map-last x xs)

  pub map-filter :
      (id : String) (xs : List A)
      → map key (filter (λ x. not (is (key x) id)) xs) ≡ filter (λ i. not (is i id)) (map key xs)
  map-filter id [] = refl
  map-filter id (x ∷ xs) = ground (arith, map-filter id xs)

  pub map-replaced :
      (id : String) (new : A) (xs : List A)
      → key new ≡ id
      → map key (map (λ x. if is (key x) id then new else x) xs) ≡ map key xs
  map-replaced id new [] e = refl
  map-replaced id new (x ∷ xs) e = ground (arith, map-replaced id new xs e)

  pub any-has : (id : String) (xs : List A) → any (λ x. is (key x) id) xs ≡ has id (map key xs)
  any-has id [] = refl
  any-has id (x ∷ xs) = ground (arith, any-has id xs)

has-more : (x y : String) (ys : List String) → has x ys ≡ true → has x (y ∷ ys) ≡ true
has-more x y ys e = ground arith

-- The ids of a list are all among them.
pub All-has :
    {A : Type 0} (key : A → String) (xs : List A) → All (λ x. has (key x) (map key xs) ≡ true) xs
All-has key [] = tt
All-has key (x ∷ xs) =
    (ground arith, All-map xs (λ y h. has-more (key y) (key x) (map key xs) h) (All-has key xs))

pub first_id-first : (xs : List Session) → first_id xs ≡ first (session_ids xs)
first_id-first [] = refl
first_id-first (x ∷ xs) = refl

pub first_workspace_id-first :
    (ws : List Workspace) → first_workspace_id ws ≡ first (workspace_ids ws)
first_workspace_id-first [] = refl
first_workspace_id-first (w ∷ ws) = refl
