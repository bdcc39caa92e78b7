-- ===== src/Dict/Items.antt =====
-- Predicates on the items of a dictionary, and keys that are surely found.
use limit_halo.Prelude.{String, ◌≡◌, inl, inr, true, some, [], ◌∷◌, str_eq, eq_iff, mem, Bool-cases}
use limit_halo.Dict.{Dict, lookup, insert, keys, map_items}

module _ {ℓ κ} {V : Type ℓ} where
  -- Every item satisfies the predicate.
  abbrev pub AllItems : (String → V → Type κ) → Dict V → Type κ
  AllItems P [] = Unit
  AllItems P ((k, v) ∷ d) = P k v × AllItems P d

  pub AllItems-insert :
      (P : String → V → Type κ) (k : String) (v : V) (d : Dict V)
      → P k v
      → AllItems P d
      → AllItems P (insert k v d)
  unfolding insert
  AllItems-insert P k v [] p h = (p, tt)
  AllItems-insert P k v ((j, w) ∷ d) p h = elim (Bool-cases (str_eq j k)) [
    | inl same ↦ rw same (rw (← (eq_iff j k).0 same) at p, h.1)
    | inr other ↦ rw other (h.0, AllItems-insert P k v d p h.1)
  ]

  pub AllItems-lookup :
      (P : String → V → Type κ) (k : String) (d : Dict V) {v : V}
      → AllItems P d
      → lookup k d ≡ some v
      → P k v
  unfolding lookup
  AllItems-lookup P k [] h e = cc
  AllItems-lookup P k ((j, w) ∷ d) {v} h e = elim (Bool-cases (str_eq j k)) [
    | inl same ↦
        let found : some w ≡ some v = rw same at e in
        let hit : w ≡ v = cc in rw (← hit, ← (eq_iff j k).0 same) h.0
    | inr other ↦ AllItems-lookup P k d h.1 (rw other at e)
  ]

module _ {ℓ} {V : Type ℓ} where
  pub AllItems-map_items {κ μ ν} :
      {W : Type κ} (P : String → V → Type μ) (Q : String → W → Type ν) (f : String → V → W)
      → ((k : String) (v : V) → P k v → Q k (f k v))
      → (d : Dict V) → AllItems P d
      → AllItems Q (map_items f d)
  unfolding map_items
  AllItems-map_items P Q f step [] h = tt
  AllItems-map_items P Q f step ((k, v) ∷ d) h = (step k v h.0, AllItems-map_items P Q f step d h.1)

  -- A key that is there is found.
  pub lookup-mem :
      (k : String) (d : Dict V) → mem k (keys d) ≡ true → (v : V) × (lookup k d ≡ some v)
  unfolding lookup keys
  lookup-mem k [] h = cc
  lookup-mem k ((j, w) ∷ d) h = elim (Bool-cases (str_eq j k)) [
    | inl same ↦ (w, rw same)
    | inr other ↦ rw other (lookup-mem k d (rw other at h))
  ]
