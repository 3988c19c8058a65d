-- ===== src/Dict/Laws.antt =====
-- What reading a key gives after a write or a deletion.
use loci_terminal.Common.{String, [], ◌∷◌, some, none, ite, str_dec, ◌≡◌, refl, arith}
use loci_terminal.Dict.{Dict, get, put, delete}

module _ {ℓ} {V : Type ℓ} where
  pub get-put :
      (k j : String) (v : V) (d : Dict V) → get j (put k v d) ≡ ite (str_dec k j) (some v) (get j d)
  unfolding get put
  get-put k j v [] = refl
  get-put k j v ((i, w) ∷ d) = ground (arith, get-put k j v d)

  pub get-delete :
      (k j : String) (d : Dict V) → get j (delete k d) ≡ ite (str_dec k j) none (get j d)
  unfolding get delete
  get-delete k j [] = ground arith
  get-delete k j ((i, w) ∷ d) = ground (arith, get-delete k j d)

  pub get-put_self : (k : String) (v : V) (d : Dict V) → get k (put k v d) ≡ some v
  get-put_self k v d = ground (arith, get-put k k v d)

  pub get-delete_self : (k : String) (d : Dict V) → get k (delete k d) ≡ none
  get-delete_self k d = ground (arith, get-delete k k d)
