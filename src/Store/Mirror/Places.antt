-- ===== src/Store/Mirror/Places.antt =====
-- Where the store of frontend/src/stores/appStore.ts stands, when the lists of the server change.
use loci_terminal.Common.{
  ◌≡◌, ◌≢◌, refl, sym, ◌∙◌, String, true, List, [], ◌∷◌, Option, none, some, get_or, is, inl, inr,
  not, truthy, ◌&&◌, any, Bool-cases, arith, str_dec,
}
use loci_terminal.Dict.{Dict, get, put, delete}
use loci_terminal.Dict.Laws.{get-put, get-delete}
use loci_terminal.Store.State.{Session}
use loci_terminal.Store.Sessions.{first_id}
use loci_terminal.Store.Workspaces.{next_active}
use loci_terminal.Store.Mirror.Ids.{has, session_ids, any-has}
use loci_terminal.Store.Mirror.{Server, listed, held, Shows, Stands}

-- What the store holds under each workspace are the ids `f`.
abbrev pub Rows : (String → List String) → Dict (List Session) → Type 0
Rows f d = (j : String) → session_ids (get_or (get j d) []) ≡ f j

-- What it remembers for each workspace is one of the ids `f`.
abbrev pub Remembered : (String → List String) → Dict String → Type 0
Remembered f d = (j x : String) → get j d ≡ some x → has x (f j) ≡ true

module _ (f g : String → List String) (k : String) (same : (j : String) → j ≢ k → g j ≡ f j) where
  pub put-Rows :
      (list : List Session) (d : Dict (List Session))
      → session_ids list ≡ g k
      → Rows f d
      → Rows g (put k list d)
  put-Rows list d e r j = elim (str_dec k j) [
    | yes p ↦ ground (arith, get-put k j list d)
    | no p ↦ rw (get-put k j list d) (ground (arith, r j, same j (λ q. p (sym q))))
  ]

  pub put-Remembered :
      (x : String) (d : Dict String)
      → has x (g k) ≡ true
      → Remembered f d
      → Remembered g (put k x d)
  put-Remembered x d e r j y h = elim (str_dec k j) [
    | yes p ↦ ground (arith, get-put k j x d)
    | no p ↦ ground (arith, get-put k j x d, r j y, same j (λ q. p (sym q)))
  ]

  pub delete-Rows : (d : Dict (List Session)) → g k ≡ [] → Rows f d → Rows g (delete k d)
  delete-Rows d e r j = elim (str_dec k j) [
    | yes p ↦ ground (arith, get-delete k j d)
    | no p ↦ rw (get-delete k j d) (ground (arith, r j, same j (λ q. p (sym q))))
  ]

  pub delete-Remembered : (d : Dict String) → Remembered f d → Remembered g (delete k d)
  delete-Remembered d r j y h = elim (str_dec k j) [
    | yes p ↦ absurd (ground (arith, get-delete k j d))
    | no p ↦ ground (arith, get-delete k j d, r j y, same j (λ q. p (sym q)))
  ]

pub first_id-Shows : (xs : List Session) → Shows (session_ids xs) (first_id xs)
first_id-Shows [] = refl
first_id-Shows (x ∷ xs) = ground arith

-- A session taken as a condition is still the one that is shown.
pub truthy-Shows :
    (xs : List String) (o : Option String) (n : String)
    → Shows xs o
    → truthy o ≡ some n
    → has n xs ≡ true
unfolding truthy
truthy-Shows xs none n h e = absurd (cc)
truthy-Shows xs (some x) n h e = ground arith

-- The session on which `setActiveWorkspace` lands is one of the list.
pub next_active-Shows :
    (o : Option String) (xs : List Session) → Shows (session_ids xs) (next_active o xs)
unfolding next_active
next_active-Shows none xs = first_id-Shows xs
next_active-Shows (some r) xs =
    elim (Bool-cases (not (is r "") && any (λ (x : Session). is x.id r) xs)) [
      | inl e ↦ rw e (sym (any-has (λ (x : Session). x.id) r xs) ∙ ground arith)
      | inr e ↦ rw e (first_id-Shows xs)
    ]

module _ {S : Type 0} (v : Server S) where
  pub Stands-kept :
      (z z' : S) (o session : Option String)
      → listed v z' ≡ listed v z
      → ((w : String) → o ≡ some w → held v w z' ≡ held v w z)
      → Stands v z o session
      → Stands v z' o session
  Stands-kept z z' none session e rows (h, k) = (e ∙ h, k)
  Stands-kept z z' (some w) none e rows (h, k) = (ground arith, rows w refl ∙ k)
  Stands-kept z z' (some w) (some x) e rows (h, k) = (ground arith, ground (arith, rows w refl))
