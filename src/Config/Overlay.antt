-- ===== src/Config/Overlay.antt =====
-- src/limit_halo/config.py, `_merge_unknown_overlay`: the settings of a newer version are put back
-- beside the known ones.
pub mod Known
use limit_halo.Prelude.{ℕ, none, some, List, map, any, if◌then◌else◌}
use limit_halo.Prelude.Result.{Result, ok, err, value_error, ◌>>=◌}
use limit_halo.Json.{Value, Fields, obj, empty, entry, get?, keys}
use limit_halo.Config.Extension.{Unicode, normalized_key, same_codes, append_field, replace_field}

module _ (u : Unicode) where
  unfoldable mutual
    -- The value of the overlay, then the one that is there.
    pub merge_value : Value → Value → Result Value
    merge_value (obj overlay) (obj target) =
        merge_fields (map (normalized_key u) (keys target)) target overlay >>= λ merged.
        ok (obj merged)
    merge_value _ _ = err (value_error "preserved configuration field collides with current schema")

    -- The keys of the target at the start, normalized; the target; the overlay.
    pub merge_fields : List (List ℕ) → Fields → Fields → Result Fields
    merge_fields known target empty = ok target
    merge_fields known target (entry key v rest) = do
      next ← elim (get? key target) [
        | none ↦
            if any (same_codes (normalized_key u key)) known
            then err (value_error "preserved configuration field aliases current schema")
            else ok (append_field key v target)
        | some existing ↦ merge_value v existing >>= λ merged. ok (replace_field key merged target)
      ]
      merge_fields known next rest

  abbrev pub merge_unknown_overlay : Fields → Fields → Result Fields
  merge_unknown_overlay target overlay =
      merge_fields (map (normalized_key u) (keys target)) target overlay
