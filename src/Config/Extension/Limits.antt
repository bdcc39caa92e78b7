-- ===== src/Config/Extension/Limits.antt =====
-- How large a kept extension of the settings can be.
use limit_halo.Prelude.{
  inr, inl, Option-cases, ℕ, suc, max, ◌+◌, ◌≤◌, Bool, true, none, some, ◌≡◌, leb, if◌then◌else◌,
  arith,
}
use limit_halo.Prelude.Maybe.{bind_some, require-some, ◌>>◌, require}
use limit_halo.Json.{
  Value, Fields, Items, null, bool, int, float, str, arr, item, no_items, obj, empty, entry,
}
use limit_halo.Config.Extension.{
  Unicode, safe_value, safe_items, safe_fields, safe_unknown_value, visit, fields_fit, count_items,
}

-- The values within a value, itself counted, and how deep they lie.
unfoldable mutual
  pub nodes : Value → ℕ
  nodes null = 1
  nodes (bool b) = 1
  nodes (int n) = 1
  nodes (float f) = 1
  nodes (str s) = 1
  nodes (arr vs) = suc (nodes_items vs)
  nodes (obj fs) = suc (nodes_fields fs)

  pub nodes_items : Items → ℕ
  nodes_items no_items = 0
  nodes_items (item v vs) = nodes v + nodes_items vs

  pub nodes_fields : Fields → ℕ
  nodes_fields empty = 0
  nodes_fields (entry k v fs) = nodes v + nodes_fields fs

unfoldable mutual
  pub nesting : Value → ℕ
  nesting null = 0
  nesting (bool b) = 0
  nesting (int n) = 0
  nesting (float f) = 0
  nesting (str s) = 0
  nesting (arr vs) = nesting_items vs
  nesting (obj fs) = nesting_fields fs

  pub nesting_items : Items → ℕ
  nesting_items no_items = 0
  nesting_items (item v vs) = max (suc (nesting v)) (nesting_items vs)

  pub nesting_fields : Fields → ℕ
  nesting_fields empty = 0
  nesting_fields (entry k v fs) = max (suc (nesting v)) (nesting_fields fs)

visited : (depth used n : ℕ) → visit depth used ≡ some n → (n ≡ suc used) × (n ≤ 256) × (depth ≤ 8)
visited depth used n h = ground arith

visited_if :
    (test : Bool) (depth used n : ℕ)
    → (if test then visit depth used else none) ≡ some n
    → (n ≡ suc used) × (n ≤ 256) × (depth ≤ 8)
visited_if test depth used n h = ground arith

module _ (u : Unicode) where
  mutual
    unfolding safe_value nodes nesting

    value_fits :
        (depth : ℕ) (v : Value) (used n : ℕ)
        → safe_value u depth v used ≡ some n
        → (n ≡ used + nodes v) × (n ≤ 256) × (depth + nesting v ≤ 8)
    value_fits depth null used n h = omega (arith, visited depth used n h)
    value_fits depth (bool b) used n h = omega (arith, visited depth used n h)
    value_fits depth (int z) used n h = omega (arith, visited_if _ depth used n h)
    value_fits depth (float f) used n h = omega (arith, visited_if _ depth used n h)
    value_fits depth (str s) used n h = omega (arith, visited_if _ depth used n h)
    value_fits depth (arr vs) used n h =
        let (seen, h1, e1) =
          bind_some (visit depth used)
            (λ (k : ℕ). require (leb (count_items vs) 64) >> safe_items u (suc depth) vs k) h in
        let (f, e2) =
          require-some (leb (count_items vs) 64) (safe_items u (suc depth) vs seen) e1 in
        let (a, b, c) = visited depth used seen h1 in
        let (i, j, k) = items_fit (suc depth) vs seen n b (omega (arith, c)) e2 in
        omega (arith, a, b, c, i, j, k)
    value_fits depth (obj fs) used n h =
        let (seen, h1, e1) =
          bind_some (visit depth used)
            (λ (k : ℕ). require (fields_fit u fs) >> safe_fields u (suc depth) fs k) h in
        let (f, e2) = require-some (fields_fit u fs) (safe_fields u (suc depth) fs seen) e1 in
        let (a, b, c) = visited depth used seen h1 in
        let (i, j, k) = fields_fits (suc depth) fs seen n b (omega (arith, c)) e2 in
        omega (arith, a, b, c, i, j, k)

    items_fit :
        (depth : ℕ) (vs : Items) (used n : ℕ)
        → used ≤ 256
        → depth ≤ 9
        → safe_items u depth vs used ≡ some n
        → (n ≡ used + nodes_items vs) × (n ≤ 256) × (depth + nesting_items vs ≤ 9)
    items_fit depth no_items used n b d h = grind arith
    items_fit depth (item v vs) used n b d h =
        let (seen, h1, e1) =
          bind_some (safe_value u depth v used) (λ (k : ℕ). safe_items u depth vs k) h in
        let (i, j, k) = value_fits depth v used seen h1 in
        let (x, y, z) = items_fit depth vs seen n j d e1 in omega (arith, i, j, k, x, y, z)

    fields_fits :
        (depth : ℕ) (fs : Fields) (used n : ℕ)
        → used ≤ 256
        → depth ≤ 9
        → safe_fields u depth fs used ≡ some n
        → (n ≡ used + nodes_fields fs) × (n ≤ 256) × (depth + nesting_fields fs ≤ 9)
    fields_fits depth empty used n b d h = grind arith
    fields_fits depth (entry name v fs) used n b d h =
        let (seen, h1, e1) =
          bind_some (safe_value u depth v used) (λ (k : ℕ). safe_fields u depth fs k) h in
        let (i, j, k) = value_fits depth v used seen h1 in
        let (x, y, z) = fields_fits depth fs seen n j d e1 in omega (arith, i, j, k, x, y, z)

-- An extension of the settings that is kept has at most 256 values, itself counted, and at most
-- eight levels below it.
pub safe_unknown_value-nodes :
    (u : Unicode) (v : Value) → safe_unknown_value u v ≡ true → (nodes v ≤ 256) × (nesting v ≤ 8)
safe_unknown_value-nodes u v h = elim (Option-cases (safe_value u 0 v 0)) [
  | inl e ↦ absurd (cc)
  | inr (n, e) ↦ let (a, b, c) = value_fits u 0 v 0 n e in omega (arith, a, b, c)
]
