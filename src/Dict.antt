-- ===== src/Dict.antt =====
-- Python's `dict` with string keys, in insertion order. It is used by every component.
pub mod Items
use limit_halo.Prelude.{
  String, ◌≡◌, refl, Option, none, some, List, [], ◌∷◌, arith, str_eq, eq_iff, if◌then◌else◌,
}

abbrev pub Dict {ℓ} : Type ℓ → Type ℓ
Dict V = List (String × V)

module _ {ℓ} {V : Type ℓ} where
  unfoldable pub lookup : String → Dict V → Option V
  lookup k [] = none
  lookup k ((j, v) ∷ d) = if str_eq j k then some v else lookup k d

  -- `d[k] = v`: a key that is there keeps its place.
  unfoldable pub insert : String → V → Dict V → Dict V
  insert k v [] = (k, v) ∷ []
  insert k v ((j, w) ∷ d) = if str_eq j k then (j, v) ∷ d else (j, w) ∷ insert k v d

  -- `list(d)`
  unfoldable pub keys : Dict V → List String
  keys [] = []
  keys ((k, v) ∷ d) = k ∷ keys d

  -- `d.values()`
  unfoldable pub values : Dict V → List V
  values [] = []
  values ((k, v) ∷ d) = v ∷ values d

  -- `{k: f(k, v) for k, v in d.items()}`
  unfoldable pub map_items {κ} : {W : Type κ} → (String → V → W) → Dict V → Dict W
  map_items f [] = []
  map_items f ((k, v) ∷ d) = (k, f k v) ∷ map_items f d

  pub lookup-insert :
      (k j : String) (v : V) (d : Dict V)
      → lookup j (insert k v d) ≡ (if str_eq k j then some v else lookup j d)
  unfolding lookup insert
  lookup-insert k j v [] = refl
  lookup-insert k j v ((i, w) ∷ d) =
      ground (arith, eq_iff k j, eq_iff i k, eq_iff i j, lookup-insert k j v d)

module _ {ℓ κ} {V : Type ℓ} {W : Type κ} where
  abbrev pub map_found : (V → W) → Option V → Option W
  map_found f none = none
  map_found f (some v) = some (f v)

  pub keys-map_items : (f : String → V → W) (d : Dict V) → keys (map_items f d) ≡ keys d
  unfolding keys map_items
  keys-map_items f [] = refl
  keys-map_items f ((k, v) ∷ d) = rw (keys-map_items f d)

  pub lookup-map_items :
      (f : String → V → W) (k : String) (d : Dict V)
      → lookup k (map_items f d) ≡ map_found (f k) (lookup k d)
  unfolding lookup map_items
  lookup-map_items f k [] = refl
  lookup-map_items f k ((j, v) ∷ d) = ground (arith, eq_iff j k, lookup-map_items f k d)
