-- ===== src/Config/Extension.antt =====
-- src/limit_halo/config.py: the settings of a newer version, which this version keeps and writes
-- back but does not read. Python's Unicode tables are the parameter `Unicode`.
pub mod Limits
use limit_halo.Prelude.{
  str_eq, is_some, ℕ, suc, String, Bool, true, false, ◌&&◌, ◌||◌, not, Option, none, some, List, [],
  ◌∷◌, ◌==◌, leb, ltb, length, any, all, mem, if◌then◌else◌,
}
use limit_halo.Prelude.Int.{pos, negsuc, leb_ℤ}
use limit_halo.Json.{
  Value, Fields, Items, null, bool, int, float, str, arr, item, no_items, obj, empty, entry, Float,
  finite, keys,
}
use limit_halo.Prelude.Maybe.{◌>>=◌, ◌>>◌, require}
use limit_halo.Claude.Frame.{codes}

-- `unicodedata.normalize("NFKC", key).casefold()` as code points, and `str.isalnum` of one.
pub record Unicode : Type 0 where
  pub casefold : String → List ℕ
  pub is_alnum : ℕ → Bool

abbrev pub max_config_bytes : ℕ
max_config_bytes = 32_768

abbrev pub v3_keys : List String
v3_keys =
    "schemaVersion" ∷ "locale" ∷ "providers" ∷ "claudeConsent" ∷ "autostart" ∷ "colors" ∷ "alerts"
    ∷ "topmost" ∷ "view" ∷ "x" ∷ "y" ∷ []

abbrev pub provider_keys : List String
provider_keys = "claude" ∷ "codex" ∷ []

abbrev pub alert_keys : List String
alert_keys = "enabled" ∷ "thresholdPercent" ∷ "quietHours" ∷ []

abbrev pub quiet_hour_keys : List String
quiet_hour_keys = "enabled" ∷ "start" ∷ "end" ∷ []

abbrev pub forbidden_persisted_fragments : List String
forbidden_persisted_fragments =
    "token" ∷ "credential" ∷ "response" ∷ "request" ∷ "providerbody" ∷ "chat" ∷ "browser" ∷ "log"
    ∷ "metric" ∷ "quota" ∷ "history" ∷ "account" ∷ "resetat" ∷ "usedpercent" ∷ "remainingpercent"
    ∷ []

abbrev pub filter : (ℕ → Bool) → List ℕ → List ℕ
filter test [] = []
filter test (c ∷ cs) = let rest = filter test cs in if test c then c ∷ rest else rest

abbrev pub same_codes : List ℕ → List ℕ → Bool
same_codes [] [] = true
same_codes (a ∷ xs) (b ∷ ys) = a == b && same_codes xs ys
same_codes _ _ = false

abbrev starts_with : List ℕ → List ℕ → Bool
starts_with [] text = true
starts_with (a ∷ xs) [] = false
starts_with (a ∷ xs) (b ∷ ys) = a == b && starts_with xs ys

-- `fragment in text`
abbrev pub contains_fragment : List ℕ → List ℕ → Bool
contains_fragment fragment [] = starts_with fragment []
contains_fragment fragment (c ∷ cs) = starts_with fragment (c ∷ cs) || contains_fragment fragment cs

-- `dict.__len__`, `list.__len__`
unfoldable pub count_items : Items → ℕ
count_items no_items = 0
count_items (item v vs) = suc (count_items vs)

-- `d[key] = value` of a key that is there, and of one that is not.
unfoldable pub replace_field : String → Value → Fields → Fields
replace_field key v empty = empty
replace_field key v (entry k w fs) =
    let rest = replace_field key v fs in if str_eq k key then entry k v fs else entry k w rest

unfoldable pub append_field : String → Value → Fields → Fields
append_field key v empty = entry key v empty
append_field key v (entry k w fs) = entry k w (append_field key v fs)

-- `{key: item for key, item in value.items() if key not in names}`
unfoldable pub without : List String → Fields → Fields
without names empty = empty
without names (entry k v fs) =
    let rest = without names fs in if mem k names then rest else entry k v rest

abbrev is_finite : Float → Bool
is_finite (finite sign mantissa scale) = true
is_finite _ = false

-- The value that is visited, counted; `none` past the depth or the budget.
abbrev pub visit : ℕ → ℕ → Option ℕ
visit depth used = if ltb 8 depth || ltb 256 (suc used) then none else some (suc used)

module _ (u : Unicode) where
  unfoldable pub normalized_key : String → List ℕ
  normalized_key key = filter u.is_alnum (u.casefold key)

  unfoldable pub has_forbidden_key : List String → Bool
  has_forbidden_key ks =
      any
        (λ key.
          any
            (λ fragment.
              contains_fragment (filter u.is_alnum (codes fragment)) (normalized_key key))
            forbidden_persisted_fragments)
        ks

  abbrev key_fits : String → Bool
  key_fits key = leb 1 (length (codes key)) && leb (length (codes key)) 128

  abbrev pub fields_fit : Fields → Bool
  fields_fit fs =
      leb (length (keys fs)) 64 && all key_fits (keys fs) && not (has_forbidden_key (keys fs))

  unfoldable mutual
    -- `_safe_unknown_value`: the values visited so far, or `none` where the value is refused.
    pub safe_value : ℕ → Value → ℕ → Option ℕ
    safe_value depth null used = visit depth used
    safe_value depth (bool b) used = visit depth used
    safe_value depth (str s) used = if leb (length (codes s)) 4096 then visit depth used else none
    safe_value depth (int n) used =
        if leb_ℤ (negsuc 9_007_199_254_740_991) n && leb_ℤ n (pos 9_007_199_254_740_992)
        then visit depth used
        else none
    safe_value depth (float f) used = if is_finite f then visit depth used else none
    safe_value depth (arr vs) used = do
      seen ← visit depth used
      require (leb (count_items vs) 64)
      safe_items (suc depth) vs seen
    safe_value depth (obj fs) used = do
      seen ← visit depth used
      require (fields_fit fs)
      safe_fields (suc depth) fs seen

    pub safe_items : ℕ → Items → ℕ → Option ℕ
    safe_items depth no_items used = some used
    safe_items depth (item v vs) used = do seen ← safe_value depth v used; safe_items depth vs seen

    pub safe_fields : ℕ → Fields → ℕ → Option ℕ
    safe_fields depth empty used = some used
    safe_fields depth (entry k v fs) used = do
      seen ← safe_value depth v used
      safe_fields depth fs seen

  abbrev pub safe_unknown_value : Value → Bool
  safe_unknown_value v = is_some (safe_value 0 v 0)
