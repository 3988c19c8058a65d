-- ===== src/Dict.antt =====
-- A JavaScript object or `Map` with text keys, as the list of its entries in insertion order.
-- Writing an existing key keeps its place; a new key goes to the end; `delete` drops the entry.
pub mod Laws
use loci_terminal.Common.{String, List, [], ◌∷◌, map, Option, some, none, ite, str_dec}

abbrev pub Dict {ℓ} : Type ℓ → Type ℓ
Dict V = List (String × V)

module _ {ℓ} {V : Type ℓ} where
  abbrev pub keys : Dict V → List String
  keys = map λ e. e.0

  -- `d[k]`, `m.get(k)`: nothing stands for `undefined`.
  unfoldable pub get : String → Dict V → Option V
  get k [] = none
  get k ((j, v) ∷ d) = ite (str_dec j k) (some v) (get k d)

  -- `{ ...d, [k]: v }`, `d[k] = v`, `m.set(k, v)`
  unfoldable pub put : String → V → Dict V → Dict V
  put k v [] = (k, v) ∷ []
  put k v ((j, w) ∷ d) = ite (str_dec j k) ((j, v) ∷ d) ((j, w) ∷ put k v d)

  -- `delete d[k]`, `m.delete(k)`
  unfoldable pub delete : String → Dict V → Dict V
  delete k [] = []
  delete k ((j, v) ∷ d) = ite (str_dec j k) (delete k d) ((j, v) ∷ delete k d)
