-- ===== src/Config/Overlay/Known.antt =====
-- An extension of the settings leaves the known settings alone.
use limit_halo.Prelude.{
  inr, inl, ℕ, String, false, Option, none, some, List, map, [], ◌∷◌, ◌≡◌, refl, sym, ap, ◌∙◌,
  arith, if◌then◌else◌, str_eq, eq_iff, any, if_holds, Bool-cases,
}
use limit_halo.Prelude.Result.{Result, ok, err, value_error, bind_returned, ◌>>=◌}
use limit_halo.Json.{Value, Fields, obj, empty, entry, get?, null, bool, int, float, str, arr}
use limit_halo.Config.Extension.{Unicode, normalized_key, same_codes, append_field, replace_field}
use limit_halo.Config.Overlay.{merge_value, merge_fields, merge_unknown_overlay}
use limit_halo.Json.{keys}

-- A value that is no dictionary.
abbrev pub IsSetting : Value → Type 0
IsSetting (obj fs) = ⊥
IsSetting _ = Unit

get?-append_field :
    (k j : String) (v w : Value) (fs : Fields)
    → get? j fs ≡ none
    → get? k fs ≡ some w
    → get? k (append_field j v fs) ≡ some w
unfolding get? append_field
get?-append_field k j v w empty h e = cc
get?-append_field k j v w (entry i x fs) h e =
    ground (arith, eq_iff i k, eq_iff i j, get?-append_field k j v w fs)

get?-replace_field :
    (k j : String) (v : Value) (fs : Fields)
    → str_eq j k ≡ false
    → get? k (replace_field j v fs) ≡ get? k fs
unfolding get? replace_field
get?-replace_field k j v empty h = refl
get?-replace_field k j v (entry i x fs) h =
    ground (arith, eq_iff i k, eq_iff i j, eq_iff j k, get?-replace_field k j v fs h)

get?-replace_same :
    (j : String) (v x : Value) (fs : Fields)
    → get? j fs ≡ some x
    → get? j (replace_field j v fs) ≡ some v
unfolding get? replace_field
get?-replace_same j v x empty h = cc
get?-replace_same j v x (entry i y fs) h = ground (arith, eq_iff i j, get?-replace_same j v x fs)

-- The value at a path of keys, from dictionary to dictionary.
unfoldable pub get_at : List String → Value → Option Value
get_at [] v = some v
get_at (k ∷ ks) (obj fs) = elim (get? k fs) [ none ↦ none | some v ↦ get_at ks v ]
get_at (k ∷ ks) _ = none

abbrev at_option : List String → Option Value → Option Value
at_option ks o = elim o [ none ↦ none | some v ↦ get_at ks v ]

-- The first step of a path that leads somewhere.
first_step :
    (ks : List String) (o : Option Value) (w : Value)
    → at_option ks o ≡ some w
    → (v : Value) × (o ≡ some v) × (get_at ks v ≡ some w)
first_step ks none w h = cc
first_step ks (some v) w h = (v, refl, h)

path_found :
    (k : String) (ks : List String) (fs : Fields) (w v : Value)
    → get? k fs ≡ some v
    → get_at ks v ≡ some w
    → get_at (k ∷ ks) (obj fs) ≡ some w
unfolding get_at
path_found k ks fs w v e h = ap (at_option ks) e ∙ h

dictionary : (fs : Fields) (w : Value) → get_at [] (obj fs) ≡ some w → IsSetting w → ⊥
unfolding get_at
dictionary fs (obj gs) h s = s
dictionary fs null h s = cc
dictionary fs (bool b) h s = cc
dictionary fs (int n) h s = cc
dictionary fs (float f) h s = cc
dictionary fs (str t) h s = cc
dictionary fs (arr vs) h s = cc

module _ (u : Unicode) where
  -- The target after a key of the overlay, which the target has or has not.
  abbrev merged_key : List (List ℕ) → String → Value → Fields → Option Value → Result Fields
  merged_key known key v target o = elim o [
    | none ↦
        if any (same_codes (normalized_key u key)) known
        then err (value_error "preserved configuration field aliases current schema")
        else ok (append_field key v target)
    | some existing ↦ merge_value u v existing >>= λ merged. ok (replace_field key merged target)
  ]

  -- What a merge into a value leaves at a path.
  abbrev Preserves : Value → Type 0
  Preserves v =
      (x merged : Value) (path : List String) (w : Value)
      → merge_value u v x ≡ ok merged
      → get_at path x ≡ some w
      → IsSetting w
      → get_at path merged ≡ some w

  key_keeps :
      (known : List (List ℕ)) (key name : String) (ks : List String) (v w y : Value)
      (target next : Fields) (o : Option Value)
      → Preserves v
      → get? key target ≡ o
      → get? name target ≡ some y
      → get_at ks y ≡ some w
      → IsSetting w
      → merged_key known key v target o ≡ ok next
      → get_at (name ∷ ks) (obj next) ≡ some w
  key_keeps known key name ks v w y target next none keeps e g a s h =
      if_holds (λ (r : Result Fields). r ≡ ok next → get_at (name ∷ ks) (obj next) ≡ some w)
        (any (same_codes (normalized_key u key)) known) (err _) (ok (append_field key v target))
        (λ a b. cc)
        (λ _ b.
          let same : append_field key v target ≡ next = cc in
          path_found name ks next w y
            (ap (get? name) (sym same) ∙ get?-append_field name key v y target e g) a)
        h
  key_keeps known key name ks v w y target next (some existing) keeps e g a s h =
      let (merged, h1, e1) =
        bind_returned (merge_value u v existing) (λ (m : Value). ok (replace_field key m target))
          h in
      let same : replace_field key merged target ≡ next = cc in
      elim (Bool-cases (str_eq key name)) [
        | inl f ↦
            let at : key ≡ name = (eq_iff key name).0 f in
            let found : get? name target ≡ some existing = ap (λ k. get? k target) (sym at) ∙ e in
            let equal : y ≡ existing = cc in
            let kept = keeps existing merged ks w h1 (ap (get_at ks) (sym equal) ∙ a) s in
            let there : get? key next ≡ some merged =
              ap (get? key) (sym same) ∙ get?-replace_same key merged existing target e in
            path_found name ks next w merged (ap (λ k. get? k next) (sym at) ∙ there) kept
        | inr f ↦
            path_found name ks next w y
              (ap (get? name) (sym same) ∙ get?-replace_field name key merged target f ∙ g) a
      ]

  mutual
    unfolding merge_value merge_fields get_at

    value_keeps : (v : Value) → Preserves v
    value_keeps (obj overlay) (obj target) merged [] w h g s = absurd (dictionary target w g s)
    value_keeps (obj overlay) (obj target) merged (name ∷ ks) w h g s =
        let (fs, h1, e1) =
          bind_returned (merge_fields u (map (normalized_key u) (keys target)) target overlay)
            (λ (f : Fields). ok (obj f)) h in
        let same : obj fs ≡ merged = cc in
        ap (get_at (name ∷ ks)) (sym same)
        ∙ fields_keep (map (normalized_key u) (keys target)) target overlay fs name ks w h1 g s
    value_keeps null x merged path w h g s = cc
    value_keeps (bool b) x merged path w h g s = cc
    value_keeps (int n) x merged path w h g s = cc
    value_keeps (float f) x merged path w h g s = cc
    value_keeps (str t) x merged path w h g s = cc
    value_keeps (arr vs) x merged path w h g s = cc
    value_keeps (obj fs) null merged path w h g s = cc
    value_keeps (obj fs) (bool b) merged path w h g s = cc
    value_keeps (obj fs) (int n) merged path w h g s = cc
    value_keeps (obj fs) (float f) merged path w h g s = cc
    value_keeps (obj fs) (str t) merged path w h g s = cc
    value_keeps (obj fs) (arr vs) merged path w h g s = cc

    fields_keep :
        (known : List (List ℕ)) (target overlay result : Fields) (name : String) (ks : List String)
        (w : Value)
        → merge_fields u known target overlay ≡ ok result
        → get_at (name ∷ ks) (obj target) ≡ some w
        → IsSetting w
        → get_at (name ∷ ks) (obj result) ≡ some w
    fields_keep known target empty result name ks w h g s =
        let same : target ≡ result = cc in ap (λ f. get_at (name ∷ ks) (obj f)) (sym same) ∙ g
    fields_keep known target (entry key v rest) result name ks w h g s =
        let (next, h1, e1) =
          bind_returned (merged_key known key v target (get? key target))
            (λ (n : Fields). merge_fields u known n rest) h in
        let (y, found, a) = first_step ks (get? name target) w g in
        fields_keep known next rest result name ks w e1
          (key_keeps known key name ks v w y target next (get? key target) (value_keeps v) refl
            found a s h1)
          s

-- Where an extension is merged into settings, every setting that was there, at the top or within
-- dictionaries, and is no dictionary itself, keeps its value.
pub get_at-merge_unknown_overlay :
    (u : Unicode) (target overlay result : Fields) (name : String) (names : List String) (w : Value)
    → merge_unknown_overlay u target overlay ≡ ok result
    → get_at (name ∷ names) (obj target) ≡ some w
    → IsSetting w
    → get_at (name ∷ names) (obj result) ≡ some w
get_at-merge_unknown_overlay u target overlay result name names w h g s =
    fields_keep u _ target overlay result name names w h g s
