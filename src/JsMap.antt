-- ===== src/JsMap.antt =====
-- JavaScript's `Map` with string keys, in its order of insertion.
pub mod Laws
use crypt_keeper_extension.Prelude.{
  ℕ, String, Bool, Option, none, some, List, [], ◌∷◌, map, length, is_some, ◌==◌, if◌then◌else◌,
}

abbrev pub JsMap {ℓ} : Type ℓ → Type ℓ
JsMap V = List (String × V)

module _ {ℓ} {V : Type ℓ} where
  unfoldable pub get : String → JsMap V → Option V
  get k [] = none
  get k ((j, v) ∷ m) = if j == k then some v else get k m

  unfoldable pub has : String → JsMap V → Bool
  unfolding get
  has k m = is_some (get k m)

  -- A key that is there keeps its place.
  unfoldable pub set : String → V → JsMap V → JsMap V
  set k v [] = (k, v) ∷ []
  set k v ((j, w) ∷ m) = if j == k then (j, v) ∷ m else (j, w) ∷ set k v m

  unfoldable pub delete : String → JsMap V → JsMap V
  delete k [] = []
  delete k ((j, v) ∷ m) = if j == k then m else (j, v) ∷ delete k m

  abbrev pub keys : JsMap V → List String
  keys m = map (λ e. e.0) m

  abbrev pub values : JsMap V → List V
  values m = map (λ e. e.1) m

  abbrev pub size : JsMap V → ℕ
  size m = length m

  -- `new Map([...m, ...entries])`
  unfoldable pub set_all : JsMap V → List (String × V) → JsMap V
  set_all m [] = m
  set_all m ((k, v) ∷ entries) = set_all (set k v m) entries

  -- `new Map(entries)`
  unfoldable pub of_entries : List (String × V) → JsMap V
  unfolding set_all
  of_entries entries = set_all [] entries
