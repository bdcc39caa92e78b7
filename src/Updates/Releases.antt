-- ===== src/Updates/Releases.antt =====
-- src/limit_halo/updates.py: the check of a release, and the newest release of a page. The splitting
-- and the quoting of addresses are the standard library's and are parameters.
pub mod Bounds
use limit_halo.Prelude.{
  ℕ, String, Bool, ◌&&◌, ◌||◌, not, Option, none, some, List, [], ◌∷◌, ◌==◌, leb, ltb, length, any,
  mem, str_eq, if◌then◌else◌,
}
use Prim.Native.String.{◌++◌ as str_append}
use limit_halo.Prelude.Int.{pos}
use limit_halo.Prelude.Result.{Result, ok, err, update_error, ◌>>=◌, ◌>>◌, raise_if}
use limit_halo.Dict.{Dict, lookup}
use limit_halo.Json.{Value, int, str}
use limit_halo.Claude.Frame.{codes}
use limit_halo.Discovery.Sources.{is_hex_text}
use limit_halo.Updates.{Asset}

-- `urlsplit` of an address.
pub record Url : Type 0 where
  pub scheme : String
  pub has_user : Bool
  pub has_port : Bool
  pub has_fragment : Bool
  pub netloc : String
  pub path : String
  pub lower_path : String

-- `urlsplit`, `none` for a `ValueError`; `quote` without safe characters; and `part in text`.
pub record Urls : Type 0 where
  pub urlsplit : String → Option Url
  pub quote : String → String
  pub contains : String → String → Bool
  pub starts_with : String → String → Bool

abbrev pub repository_url : String
repository_url = "https://github.com/DenisShumilov/LimitHalo"

abbrev pub api_releases : String
api_releases = "https://api.github.com/repos/DenisShumilov/LimitHalo/releases/"

abbrev allowed_hosts : List String
allowed_hosts =
    "api.github.com" ∷ "github.com" ∷ "release-assets.githubusercontent.com"
    ∷ "objects.githubusercontent.com" ∷ []

abbrev forbidden_parts : List String
forbidden_parts = "%2e" ∷ "%2f" ∷ "%5c" ∷ "/../" ∷ "/./" ∷ []

-- `_asset_limits`
unfoldable pub asset_limits : String → Dict ℕ
asset_limits version =
    (str_append "LimitHalo-" (str_append version "-Setup.exe"), 67_108_864)
    ∷ (str_append "LimitHalo-" (str_append version "-Windows-x64.zip"), 100_663_296)
    ∷ ("LimitHalo-Agent.ps1", 1_048_576)
    ∷ ("release-manifest.json", 131_072)
    ∷ ("SHA256SUMS.txt", 4_096)
    ∷ []

abbrev pub fail {ℓ} : {A : Type ℓ} → String → Result A
fail message = err (update_error message)

-- An asset of a page, before it is checked.
pub record RawAsset : Type 0 where
  pub name : Value
  pub size : Value
  pub sha256 : String
  pub url : Value

abbrev pub text_or_fail : String → Value → Result String
text_or_fail message (str s) = ok s
text_or_fail message _ = fail message

abbrev pub limit_or_fail : Option ℕ → Result ℕ
limit_or_fail none = fail "Unknown, missing, or duplicate release asset"
limit_or_fail (some n) = ok n

-- `type(size) is int and 1 <= size <= limit`
abbrev pub size_within : ℕ → Value → Result ℕ
size_within limit (int (pos n)) =
    if leb 1 n && leb n limit then ok n else fail "Invalid release asset size"
size_within limit _ = fail "Invalid release asset size"

abbrev pub asset_with : RawAsset → String × ℕ → String → Asset
asset_with a found url = record { name = found.0; size = found.1; sha256 = a.sha256; url = url }

module _ (u : Urls) where
  abbrev check_place : Url → Result (Unit {0})
  check_place url =
      if str_eq url.netloc "api.github.com"
      then raise_if
          (not (
            str_eq url.path "/repos/DenisShumilov/LimitHalo/releases"
            || u.starts_with url.path "/repos/DenisShumilov/LimitHalo/releases/"))
          (update_error "Update API is outside the pinned repository")
      else if str_eq url.netloc "github.com"
      then raise_if (not (u.starts_with url.path "/DenisShumilov/LimitHalo/releases/download/"))
          (update_error "Update asset is outside the pinned repository")
      else ok tt

  abbrev split_or_fail : Option Url → Result Url
  split_or_fail none = fail "Unsafe update URL"
  split_or_fail (some url) = ok url

  -- `_safe_url`
  unfoldable pub safe_url : String → Result (Unit {0})
  safe_url text = do
    raise_if (ltb 8192 (length (codes text)) || any (λ c. ltb c 33) (codes text))
        (update_error "Unsafe update URL")
    url ← split_or_fail (u.urlsplit text)
    raise_if
        (not (str_eq url.scheme "https")
          || url.has_user
          || url.has_port
          || url.has_fragment
          || any (λ c. c == b'\\') (codes text))
        (update_error "Unsafe update URL")
    raise_if (not (mem url.netloc allowed_hosts)) (update_error "Update host is not allowed")
    raise_if (any (λ part. u.contains part url.lower_path) forbidden_parts)
        (update_error "Unsafe update URL path")
    check_place url

  abbrev pub asset_url : String → String → String
  asset_url tag name =
      str_append repository_url (
        str_append "/releases/download/" (str_append (u.quote tag) (str_append "/" (u.quote name))))

  -- The name and the size of an asset, with the names that were seen before it.
  unfoldable pub named_asset : Dict ℕ → List String → RawAsset → Result (String × ℕ)
  named_asset limits seen a = do
    name ← text_or_fail "Unknown, missing, or duplicate release asset" a.name
    limit ← limit_or_fail (lookup name limits)
    raise_if (mem name seen) (update_error "Unknown, missing, or duplicate release asset")
    size ← size_within limit a.size
    ok (name, size)

  -- The digest and the address of an asset.
  unfoldable pub located_asset : String → RawAsset → String × ℕ → Result Asset
  unfolding safe_url
  located_asset tag a found = do
    raise_if (not (is_hex_text 64 a.sha256))
        (update_error "GitHub SHA-256 asset digest is required")
    url ← text_or_fail "Mismatched release asset URL" a.url
    raise_if (not (str_eq url (asset_url tag found.0)))
        (update_error "Mismatched release asset URL")
    safe_url url
    ok (asset_with a found url)

  -- One asset of a release.
  unfoldable pub validate_asset : Dict ℕ → String → List String → RawAsset → Result Asset
  unfolding named_asset located_asset
  validate_asset limits tag seen a = named_asset limits seen a >>= located_asset tag a

  unfoldable pub validate_assets :
      Dict ℕ → String → List String → List RawAsset → Result (List Asset)
  unfolding validate_asset
  validate_assets limits tag seen [] = ok []
  validate_assets limits tag seen (a ∷ rest) = do
    asset ← validate_asset limits tag seen a
    assets ← validate_assets limits tag (asset.name ∷ seen) rest
    ok (asset ∷ assets)
