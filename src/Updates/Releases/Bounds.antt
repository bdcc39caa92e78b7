-- ===== src/Updates/Releases/Bounds.antt =====
-- The assets of a release that is accepted.
use limit_halo.Updates.Tags.{parse_tag}
use limit_halo.Prelude.{eq_iff, sym}
use mathlib.Core.Path.{subst}
use limit_halo.Prelude.{
  ℕ, suc, ◌≤◌, String, Bool, true, false, not, Option, none, some, List, [], ◌∷◌, All, ◌==◌, ==_iff,
  ◌≡◌, refl, ap, ◌∙◌, arith, length, mem, all, str_eq,
}
use limit_halo.Prelude.Result.{
  Result, ok, raise_if, ◌>>=◌, ◌>>◌, bind_returned, then_returned, update_error,
}
use limit_halo.Prelude.Int.{pos, negsuc}
use limit_halo.Dict.{Dict, lookup}
use limit_halo.Json.{Value, null, bool, int, float, str, arr, obj}
use limit_halo.Discovery.Sources.{is_hex_text}
use limit_halo.Updates.{Asset}
use limit_halo.Updates.Tags.{Tag}
use limit_halo.Updates.Releases.{
  Urls, RawAsset, asset_limits, asset_with, asset_url, named_asset, located_asset, validate_asset,
  validate_assets, safe_url, text_or_fail, limit_or_fail, size_within,
}
use limit_halo.Updates.Discover.{validate_release, validate_place, names, limit_names}

-- An asset that the program knows, not empty and within the limit for its name, with a digest.
abbrev pub IsBounded : Dict ℕ → Asset → Type 0
IsBounded limits a =
    ((limit : ℕ) × (lookup a.name limits ≡ some limit) × (1 ≤ a.size) × (a.size ≤ limit))
    × (is_hex_text 64 a.sha256 ≡ true)

size_bounds : (limit : ℕ) (v : Value) (n : ℕ) → size_within limit v ≡ ok n → (1 ≤ n) × (n ≤ limit)
size_bounds limit null n h = cc
size_bounds limit (bool b) n h = cc
size_bounds limit (float f) n h = cc
size_bounds limit (str s) n h = cc
size_bounds limit (arr vs) n h = cc
size_bounds limit (obj fs) n h = cc
size_bounds limit (int (negsuc m)) n h = cc
size_bounds limit (int (pos m)) n h = grind arith

limit_found : (o : Option ℕ) (n : ℕ) → limit_or_fail o ≡ ok n → o ≡ some n
limit_found none n h = cc
limit_found (some m) n h = cc

passed :
    (test : Bool) (message : String)
    → raise_if (not test) (update_error message) ≡ ok tt
    → test ≡ true
passed true message h = refl
passed false message h = cc

module _ (u : Urls) (limits : Dict ℕ) (tag : String) where
  abbrev after_limit : List String → RawAsset → String → ℕ → Result (String × ℕ)
  after_limit seen a name limit =
      raise_if (mem name seen) (update_error "Unknown, missing, or duplicate release asset")
      >> (size_within limit a.size >>= λ size. ok (name, size))

  named_bounded :
      (seen : List String) (a : RawAsset) (found : String × ℕ)
      → named_asset u limits seen a ≡ ok found
      → (limit : ℕ) × (lookup found.0 limits ≡ some limit) × (1 ≤ found.1) × (found.1 ≤ limit)
  unfolding named_asset
  named_bounded seen a found h =
      let (name, h1, e1) =
        bind_returned (text_or_fail "Unknown, missing, or duplicate release asset" a.name)
          (λ (n : String). limit_or_fail (lookup n limits) >>= after_limit seen a n) h in
      let (limit, h2, e2) =
        bind_returned (limit_or_fail (lookup name limits)) (after_limit seen a name) e1 in
      let (h3, e3) = then_returned (raise_if (mem name seen) _) _ e2 in
      let (size, h4, e4) = bind_returned (size_within limit a.size) (λ (s : ℕ). ok (name, s)) e3 in
      let same : (name, size) ≡ found = cc in
      let (low, high) = size_bounds limit a.size size h4 in
      subst (λ (f : String × ℕ). (l : ℕ) × (lookup f.0 limits ≡ some l) × (1 ≤ f.1) × (f.1 ≤ l))
        same (limit, limit_found (lookup name limits) limit h2, low, high)

  located :
      (a : RawAsset) (found : String × ℕ) (asset : Asset)
      → located_asset u tag a found ≡ ok asset
      → (is_hex_text 64 a.sha256 ≡ true) × ((url : String) × (asset_with a found url ≡ asset))
  unfolding located_asset
  located a found asset h =
      let (h1, e1) = then_returned (raise_if (not (is_hex_text 64 a.sha256)) _) _ h in
      let (url, h2, e2) =
        bind_returned (text_or_fail "Mismatched release asset URL" a.url)
          (λ (t : String).
            raise_if (not (str_eq t (asset_url u tag found.0)))
              (update_error "Mismatched release asset URL")
            >> (safe_url u t >> ok (asset_with a found t)))
          e1 in
      let (h3, e3) = then_returned (raise_if (not (str_eq url (asset_url u tag found.0))) _) _ e2 in
      let (h4, e4) = then_returned (safe_url u url) _ e3 in
      let same : asset_with a found url ≡ asset = cc in
      (passed (is_hex_text 64 a.sha256) _ h1, (url, same))

  asset-IsBounded :
      (seen : List String) (a : RawAsset) (asset : Asset)
      → validate_asset u limits tag seen a ≡ ok asset
      → IsBounded limits asset
  unfolding validate_asset
  asset-IsBounded seen a asset h =
      let (found, h1, e1) = bind_returned (named_asset u limits seen a) (located_asset u tag a) h in
      let (digest, more) = located a found asset e1 in
      let (url, same) = more in
      subst (IsBounded limits) same (named_bounded seen a found h1, digest)

  assets-IsBounded :
      (seen : List String) (raw : List RawAsset) (assets : List Asset)
      → validate_assets u limits tag seen raw ≡ ok assets
      → All (IsBounded limits) assets × (length assets ≡ length raw)
  unfolding validate_assets
  assets-IsBounded seen [] assets h =
      let same : [] ≡ assets = cc in
      subst (λ (x : List Asset). All (IsBounded limits) x × (length x ≡ 0)) same (tt, refl)
  assets-IsBounded seen (a ∷ raw) assets h =
      let (asset, h1, e1) =
        bind_returned (validate_asset u limits tag seen a)
          (λ (x : Asset).
            validate_assets u limits tag (x.name ∷ seen) raw >>= λ rest. ok (x ∷ rest))
          h in
      let (rest, h2, e2) =
        bind_returned (validate_assets u limits tag (asset.name ∷ seen) raw)
          (λ (r : List Asset). ok (asset ∷ r)) e1 in
      let same : asset ∷ rest ≡ assets = cc in
      let (bounded, count) = assets-IsBounded (asset.name ∷ seen) raw rest h2 in
      subst (λ (x : List Asset). All (IsBounded limits) x × (length x ≡ suc (length raw))) same
        ((asset-IsBounded seen a asset h1, bounded), ap suc count)

-- What follows the checks of the assets.
abbrev complete_check : Dict ℕ → List Asset → Result (List Asset)
complete_check limits assets =
    raise_if (not (all (λ name. mem name (names assets)) (limit_names limits)))
      (update_error "Release assets are incomplete")
    >> ok assets

-- What follows the parse of the tag.
abbrev after_tag : Urls → String → String → Value → List RawAsset → Tag → Result (List Asset)
after_tag u version tag page raw t = do
  raise_if (not (str_eq version t.numeric)) (update_error "Mismatched release version")
  validate_place u tag page
  raise_if (not (length raw == 5)) (update_error "Release must contain exactly five assets")
  assets ← validate_assets u (asset_limits t.numeric) tag [] raw
  complete_check (asset_limits t.numeric) assets

-- Five assets within the limits of a version, one of each name.
abbrev HasAll : List Asset → String → Type 0
HasAll assets version =
    (length assets ≡ 5)
    × All (IsBounded (asset_limits version)) assets
    × (all (λ name. mem name (names assets)) (limit_names (asset_limits version)) ≡ true)

-- A release that is accepted has a tag that is parsed to its version, and five assets, among them one
-- of each of the five names of the version; each is known, has at least one byte and at most the limit
-- for its name, and carries a SHA-256 digest.
pub validate_release-IsBounded :
    (u : Urls) (version tag : String) (page : Value) (raw : List RawAsset) (assets : List Asset)
    → validate_release u version tag page raw ≡ ok assets
    → ((t : Tag) × (parse_tag tag ≡ ok t) × (version ≡ t.numeric))
      × (length assets ≡ 5)
      × All (IsBounded (asset_limits version)) assets
      × (all (λ name. mem name (names assets)) (limit_names (asset_limits version)) ≡ true)
unfolding validate_release
validate_release-IsBounded u version tag page raw assets h =
    let (t, parsed, e) = bind_returned (parse_tag tag) (after_tag u version tag page raw) h in
    let (h0, e0) = then_returned (raise_if (not (str_eq version t.numeric)) _) _ e in
    let numeric : version ≡ t.numeric =
      (eq_iff version t.numeric).0 (passed (str_eq version t.numeric) _ h0) in
    let limits : Dict ℕ = asset_limits t.numeric in
    let (h1, e1) = then_returned (validate_place u tag page) _ e0 in
    let (h2, e2) = then_returned (raise_if (not (length raw == 5)) _) _ e1 in
    let (checked, h3, e3) =
      bind_returned (validate_assets u limits tag [] raw) (complete_check limits) e2 in
    let (h4, e4) =
      then_returned (raise_if (not (all (λ name. mem name (names checked)) (limit_names limits))) _)
        _ e3 in
    let same : checked ≡ assets = cc in
    let (bounded, count) = assets-IsBounded u limits tag [] raw checked h3 in
    let (five, all_bounded, complete) = subst (HasAll assets) (sym numeric) (
      subst (λ (x : List Asset). HasAll x t.numeric) same
        (
          count ∙ (==_iff (length raw) 5).0 (passed (length raw == 5) _ h2),
          bounded,
          passed _ _ h4,
        )) in
    ((t, parsed, numeric), five, all_bounded, complete)
