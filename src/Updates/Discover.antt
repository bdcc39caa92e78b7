-- ===== src/Updates/Discover.antt =====
-- src/limit_halo/updates.py, `discover`: the newest release of a page that is newer than the program.
pub mod Newest
pub mod Entries
use limit_halo.Prelude.{
  suc, ℕ, zero, String, Bool, true, false, ◌&&◌, ◌||◌, not, Option, none, some, List, [], ◌∷◌, ◌==◌,
  leb, ltb, length, all, any, mem, map, str_eq, if◌then◌else◌,
}
use Prim.Native.String.{◌++◌ as str_append}
use limit_halo.Prelude.Int.{ℤ, pos, negsuc}
use limit_halo.Prelude.Decimal.{decimal}
use limit_halo.Prelude.Result.{Result, ok, err, update_error, ◌>>=◌, ◌>>◌, raise_if}
use limit_halo.Dict.{Dict, lookup}
use limit_halo.Json.{
  Value, Fields, Items, null, bool, int, str, arr, obj, item, no_items, get, is_str,
}
use limit_halo.Claude.Frame.{codes}
use limit_halo.Config.Merge.{same_bool}
use limit_halo.Updates.{Asset, Release}
use limit_halo.Updates.Tags.{Tag, TagOrder, order_lt, parse_tag, without_v}
use limit_halo.Updates.Releases.{
  Urls, RawAsset, asset_limits, validate_assets, repository_url, api_releases, fail,
}

abbrev pub names : List Asset → List String
names [] = []
names (a ∷ rest) = a.name ∷ names rest

abbrev pub limit_names : Dict ℕ → List String
limit_names [] = []
limit_names ((name, limit) ∷ rest) = name ∷ limit_names rest

abbrev pub listed : Items → List Value
listed no_items = []
listed (item v vs) = v ∷ listed vs

abbrev pub object_or_fail : String → Value → Result Fields
object_or_fail message (obj fs) = ok fs
object_or_fail message _ = fail message

abbrev pub bool_or_fail : String → Value → Result Bool
bool_or_fail message (bool b) = ok b
bool_or_fail message _ = fail message

-- A number of GitHub: `type(value) is int and value > 0`.
abbrev id_or_fail : String → Value → Result ℕ
id_or_fail message (int (pos n)) = if leb 1 n then ok n else fail message
id_or_fail message _ = fail message

abbrev pub list_or_fail : String → Value → Result (List Value)
list_or_fail message (arr vs) = ok (listed vs)
list_or_fail message _ = fail message

unfoldable pub text_drop : ℕ → String → String
text_drop zero s = s
text_drop (suc n) String.[] = String.[]
text_drop (suc n) (String.◌∷◌ c s) = text_drop n s

unfoldable pub text_take : ℕ → String → String
text_take zero s = String.[]
text_take (suc n) String.[] = String.[]
text_take (suc n) (String.◌∷◌ c s) = String.◌∷◌ c (text_take n s)

-- The digest behind `sha256:`.
abbrev digest_or_fail : Value → Result String
digest_or_fail (str s) =
    if str_eq (text_take 7 s) "sha256:"
    then ok (text_drop 7 s)
    else fail "Invalid GitHub asset identity or digest"
digest_or_fail _ = fail "Invalid GitHub asset identity or digest"

abbrev asset_error : String
asset_error = "Invalid GitHub asset identity or digest"

-- One entry of the assets, with the ids that were seen before it.
unfoldable pub read_asset : List ℕ → Value → Result (ℕ × RawAsset)
unfolding text_take text_drop
read_asset seen v = do
  entry ← object_or_fail "Invalid GitHub asset entry" v
  digest ← digest_or_fail (get "digest" entry)
  id ← id_or_fail asset_error (get "id" entry)
  raise_if (any (λ n. n == id) seen) (update_error asset_error)
  raise_if (not (is_str "uploaded" (get "state" entry))) (update_error asset_error)
  raise_if
      (not (is_str (str_append api_releases (str_append "assets/" (decimal id))) (get "url" entry)))
      (update_error asset_error)
  ok (
    id,
    record {
      name = get "name" entry;
      size = get "size" entry;
      sha256 = digest;
      url = get "browser_download_url" entry;
    },
  )

unfoldable pub read_assets : List ℕ → List Value → Result (List RawAsset)
unfolding read_asset
read_assets seen [] = ok []
read_assets seen (v ∷ vs) = do
  found ← read_asset seen v
  rest ← read_assets (found.0 ∷ seen) vs
  ok (found.1 ∷ rest)

abbrev pub text_of : Value → String
text_of (str s) = s
text_of _ = ""

-- `_version(item.get("tag_name"))`
abbrev pub tag_of_value : Value → Result Tag
tag_of_value (str s) = parse_tag s
tag_of_value _ = fail "Unsupported release version"

abbrev starts_with_v : String → Bool
starts_with_v s = not (str_eq (without_v s) s)

-- The release of an entry whose assets are right.
abbrev pub release_with : Tag → Fields → List Asset → Release
release_with t fs assets = record {
  version = t.numeric;
  tag = text_of (get "tag_name" fs);
  assets = assets;
  page_url = text_of (get "html_url" fs);
}

abbrev pub seen_after : List String → Option (TagOrder × Release) → List String
seen_after seen none = seen
seen_after seen (some (o, r)) = r.tag ∷ seen

abbrev pub with_found :
    Option (TagOrder × Release) → List (TagOrder × Release) → List (TagOrder × Release)
with_found none rest = rest
with_found (some c) rest = c ∷ rest

-- `max`: the first of the greatest.
unfoldable pub newest : TagOrder × Release → List (TagOrder × Release) → TagOrder × Release
newest best [] = best
newest best (c ∷ cs) = newest (if order_lt best.0 c.0 then c else best) cs

abbrev pub newest_of : List (TagOrder × Release) → Option (TagOrder × Release)
newest_of [] = none
newest_of (c ∷ cs) = some (newest c cs)

abbrev pub release_of : Option (TagOrder × Release) → Option Release
release_of none = none
release_of (some c) = some c.1

module _ (u : Urls) where
  -- The tag and the page of `_validate_release`.
  unfoldable pub validate_place : String → Value → Result (Unit {0})
  validate_place tag page = do
    raise_if (not (starts_with_v tag)) (update_error "Mismatched release version")
    raise_if
        (not (is_str (str_append repository_url (str_append "/releases/tag/" (u.quote tag))) page))
        (update_error "Release is outside the pinned repository")

  -- `_validate_release` of a release's version, tag, page and assets: the assets, with the limits of
  -- the version of the tag.
  unfoldable pub validate_release : String → String → Value → List RawAsset → Result (List Asset)
  unfolding validate_place
  validate_release version tag page raw = do
    t ← parse_tag tag
    raise_if (not (str_eq version t.numeric)) (update_error "Mismatched release version")
    validate_place tag page
    raise_if (not (length raw == 5)) (update_error "Release must contain exactly five assets")
    assets ← validate_assets u (asset_limits t.numeric) tag [] raw
    raise_if (not (all (λ name. mem name (names assets)) (limit_names (asset_limits t.numeric))))
        (update_error "Release assets are incomplete")
    ok assets

  -- The assets of an entry, before they are checked.
  unfoldable pub newer_assets : List String → Fields → Tag → Result (List RawAsset)
  unfolding read_assets
  newer_assets seen fs t = do
    raise_if (mem (text_of (get "tag_name" fs)) seen) (update_error "Duplicate release tag")
    prerelease ← bool_or_fail "Release channel does not match its tag" (get "prerelease" fs)
    raise_if (not (same_bool prerelease t.is_beta))
        (update_error "Release channel does not match its tag")
    entries ← list_or_fail "Release must contain exactly five assets" (get "assets" fs)
    raise_if (not (length entries == 5)) (update_error "Release must contain exactly five assets")
    id ← id_or_fail "Release is outside the pinned repository" (get "id" fs)
    raise_if (not (is_str (str_append api_releases (decimal id)) (get "url" fs)))
        (update_error "Release is outside the pinned repository")
    read_assets [] entries

  -- A release that is newer than the program: the rest of its entry must be right.
  unfoldable pub read_newer : List String → Fields → Tag → Result (Option (TagOrder × Release))
  read_newer seen fs t = do
    raw ← newer_assets seen fs t
    assets ← validate_release t.numeric (text_of (get "tag_name" fs)) (get "html_url" fs) raw
    ok (some (t.order, release_with t fs assets))

  abbrev pub read_tagged :
      TagOrder → List String → Fields → Result Tag → Result (Option (TagOrder × Release))
  read_tagged current seen fs (err e) = ok none
  read_tagged current seen fs (ok t) =
      if order_lt current t.order then read_newer seen fs t else ok none

  -- One entry of the page: `none` for a draft, an unsupported tag or one that is not newer.
  unfoldable pub read_item : TagOrder → List String → Value → Result (Option (TagOrder × Release))
  read_item current seen v = do
    fs ← object_or_fail "Invalid GitHub release entry" v
    draft ← bool_or_fail "Invalid GitHub release entry" (get "draft" fs)
    if draft then ok none else read_tagged current seen fs (tag_of_value (get "tag_name" fs))

  unfoldable pub read_items :
      TagOrder → List String → List Value → Result (List (TagOrder × Release))
  read_items current seen [] = ok []
  read_items current seen (v ∷ vs) = do
    found ← read_item current seen v
    rest ← read_items current (seen_after seen found) vs
    ok (with_found found rest)

  -- `discover`, of the page that was received; its decoding is the JSON library's.
  unfoldable pub discover : String → Value → Result (Option Release)
  discover current_tag page = do
    current ← parse_tag current_tag
    items ← list_or_fail "Invalid GitHub release list" page
    raise_if (ltb 100 (length items)) (update_error "Invalid GitHub release list")
    candidates ← read_items current.order [] items
    ok (release_of (newest_of candidates))
