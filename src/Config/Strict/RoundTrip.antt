-- ===== src/Config/Strict/RoundTrip.antt =====
-- The settings that are written are read back.
use limit_halo.Prelude.Decimal.{digit}
use limit_halo.Config.Overlay.{merge_fields, merge_fields}
use limit_halo.Prelude.{
  sym, arith, inr, inl, ◌≢◌, Option-cases, ℕ, String, true, [], ◌∷◌, Option, none, some, leb, ◌≡◌,
  refl, ap, ◌∙◌,
}
use limit_halo.Prelude.Int.{ℤ}
use limit_halo.Prelude.Result.{ok}
use limit_halo.Json.{keys, Fields, obj, empty, str, int, keys, get?}
use limit_halo.Config.{AppConfig, safe_defaults}
use limit_halo.Config.Decode.{
  format_minutes, known, valid_coordinate, parse_minutes, format_minutes, coordinate_of,
}
use limit_halo.Config.Schema.{
  quiet_fields, alert_fields, provider_fields, time_or_raise, Codec, Platform, to_json_object,
  known_fields, coordinate_value, format_or_raise, checked_overlay,
}
use limit_halo.Config.Strict.{
  has_forbidden_key, pos, strict_decode, accepted_overlay, accepts_v3, unknown_fields, threshold_of,
  decode_v3,
}
use limit_halo.Config.Strict.Ascii.{IsUnicode, v3_keys_allowed}
use limit_halo.Config.Extension.{without, safe_value, has_forbidden_key}
use limit_halo.Config.Clock.{parse_minutes-format_minutes}

-- What `json` does with an empty object.
pub record IsCodec (c : Codec) : Type 0 where
  pub dumps_empty : c.dumps empty ≡ "{}"
  pub loads_empty : c.loads "{}" ≡ some (obj empty)

-- Settings that the schema allows, with no field of a newer version.
pub record IsValid (c : AppConfig) : Type 0 where
  pub version : c.schema_version ≡ 3
  pub locale : known (str c.locale) ("uk-UA" ∷ "en-US" ∷ []) ≡ true
  pub claude : known (str c.claude_mode) ("auto" ∷ "enabled" ∷ "disabled" ∷ []) ≡ true
  pub codex : known (str c.codex_mode) ("auto" ∷ "enabled" ∷ "disabled" ∷ []) ≡ true
  pub consent : known (str c.claude_consent) ("not-asked" ∷ "granted" ∷ "denied" ∷ []) ≡ true
  pub view : known (str c.display_preset) ("compact" ∷ "wide" ∷ []) ≡ true
  pub colors : known (str c.color_mode) ("monochrome" ∷ "status" ∷ []) ≡ true
  pub threshold :
      threshold_of (int (pos c.alert_threshold_percent)) ≡ some c.alert_threshold_percent
  pub quiet_start : leb c.quiet_start_minutes 1439 ≡ true
  pub quiet_end : leb c.quiet_end_minutes 1439 ≡ true
  pub x : valid_coordinate (coordinate_value c.x) ≡ true
  pub y : valid_coordinate (coordinate_value c.y) ≡ true
  pub no_extension : c.preserved_unknown_json ≡ "{}"

formatted : (m : ℕ) → leb m 1439 ≡ true → format_minutes m ≢ none
unfolding format_minutes
formatted m h = ground arith

format_returned :
    (m : ℕ)
    → leb m 1439 ≡ true
    → (t : String) × (format_or_raise m ≡ ok t) × (parse_minutes (str t) ≡ some m)
format_returned m h = elim (Option-cases (format_minutes m)) [
  | inl e ↦ absurd (formatted m h e)
  | inr (t, e) ↦ (t, ap time_or_raise e, parse_minutes-format_minutes m t e)
]

module _ (p : Platform) (hu : IsUnicode p.unicode) (hc : IsCodec p.codec) where
  overlay_empty : checked_overlay p "{}" ≡ ok empty
  unfolding checked_overlay has_forbidden_key safe_value keys
  overlay_empty = rw (hc.loads_empty)

  to_json_known :
      (c : AppConfig) (start stop : String)
      → format_or_raise c.quiet_start_minutes ≡ ok start
      → format_or_raise c.quiet_end_minutes ≡ ok stop
      → c.preserved_unknown_json ≡ "{}"
      → to_json_object p c ≡ ok (known_fields c start stop)
  unfolding to_json_object merge_fields known_fields
  to_json_known c start stop hs he h = simp (hs, he, h, overlay_empty)

  accepted_empty : accepted_overlay p empty ≡ some empty
  unfolding accepted_overlay format_minutes digit safe_value keys has_forbidden_key merge_fields
  accepted_empty = simp (to_json_known safe_defaults "22:00" "08:00" refl refl refl, hc.dumps_empty)

  accepts_known :
      (c : AppConfig) (start stop : String)
      → IsValid c
      → accepts_v3
          (known_fields c start stop)
          (provider_fields c)
          (alert_fields c start stop)
          (quiet_fields c start stop)
        ≡ true
  unfolding accepts_v3 known_fields keys get?
  accepts_known c start stop v =
      simp (v.locale, v.claude, v.codex, v.consent, v.view, v.colors, v.x, v.y)

  unknown_known :
      (c : AppConfig) (start stop : String)
      → unknown_fields
          (known_fields c start stop)
          (provider_fields c)
          (alert_fields c start stop)
          (quiet_fields c start stop)
        ≡ empty
  unfolding unknown_fields known_fields without
  unknown_known c start stop = refl

  coordinate_of_value : (o : Option ℤ) → coordinate_of (coordinate_value o) ≡ o
  coordinate_of_value none = refl
  coordinate_of_value (some n) = refl

  decode_known :
      (c : AppConfig) (start stop : String)
      → IsValid c
      → parse_minutes (str start) ≡ some c.quiet_start_minutes
      → parse_minutes (str stop) ≡ some c.quiet_end_minutes
      → decode_v3 p (known_fields c start stop) ≡ some c
  unfolding decode_v3 known_fields get?
  decode_known c start stop v hs he =
      simp
        (
          accepts_known c start stop v,
          unknown_known c start stop,
          v.threshold,
          hs,
          he,
          accepted_empty,
          hc.dumps_empty,
          coordinate_of_value c.x,
          coordinate_of_value c.y,
        )
        (ap (λ n. some (record c { schema_version = n; preserved_unknown_json = "{}" }))
            (sym v.version)
          ∙ ap (λ t. some (record c { preserved_unknown_json = t })) (sym v.no_extension))

  strict_known :
      (c : AppConfig) (start stop : String)
      → decode_v3 p (known_fields c start stop) ≡ some c
      → strict_decode p (obj (known_fields c start stop)) ≡ some c
  unfolding strict_decode known_fields keys get?
  strict_known c start stop h = rw (v3_keys_allowed p.unicode hu) h

-- With tables and a JSON library that behave as documented on ASCII keys and on the empty object,
-- settings that the schema allows, with no field of a newer version, are written without an
-- exception, and the object that is written is decoded to the same settings.
pub strict_decode-to_json_object :
    (p : Platform)
    → IsUnicode p.unicode
    → IsCodec p.codec
    → (c : AppConfig) → IsValid c
    → (fs : Fields) × (to_json_object p c ≡ ok fs) × (strict_decode p (obj fs) ≡ some c)
strict_decode-to_json_object p hu hc c v =
    let (start, f1, p1) = format_returned c.quiet_start_minutes v.quiet_start in
    let (stop, f2, p2) = format_returned c.quiet_end_minutes v.quiet_end in
    (
      known_fields c start stop,
      to_json_known p hu hc c start stop f1 f2 v.no_extension,
      strict_known p hu hc c start stop (decode_known p hu hc c start stop v p1 p2),
    )
