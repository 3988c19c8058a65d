-- ===== src/View/Keys.antt =====
-- Lists whose elements have different keys, as React's lists of elements should: the key is the id of a
-- session or of a workspace of frontend/src/types/index.ts.
use loci_terminal.Common.{
  suc, ◌≤◌, ◌≡◌, refl, ◌≢◌, subst, String, not, List, [], ◌∷◌, length, filter, is, All, arith,
  str_dec,
}

module _ {ℓ} {A : Type ℓ} (key : A → String) where
  -- No two elements of the list have one key.
  abbrev pub IsDistinct : List A → Type 0
  IsDistinct [] = Unit
  IsDistinct (x ∷ xs) = All (λ y. key y ≢ key x) xs × IsDistinct xs

  length-others :
      (id : String) (xs : List A)
      → All (λ y. key y ≢ id) xs
      → length (filter (λ x. not (is (key x) id)) xs) ≡ length xs
  length-others id [] h = refl
  length-others id (x ∷ xs) h = let ne = h.0 in ground (arith, length-others id xs h.1)

  -- Taking one key out takes one element out at most.
  pub length-without :
      (id : String) (xs : List A)
      → IsDistinct xs
      → length xs ≤ suc (length (filter (λ x. not (is (key x) id)) xs))
  length-without id [] d = omega arith
  length-without id (x ∷ xs) d = elim (str_dec (key x) id) [
    | yes e ↦
        let rest = length-others id xs (subst (λ i. All (λ y. key y ≢ i) xs) e d.0) in ground arith
    | no ne ↦ ground (arith, length-without id xs d.1)
  ]
