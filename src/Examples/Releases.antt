-- ===== src/Examples/Releases.antt =====
-- A page of releases: instances of the theorems.
use limit_halo.Discovery.Version.{split, number_from, cut, split, number_from, cut}
use limit_halo.Dict.{lookup, lookup}
use Prim.Native.String.{◌++◌ as str_append}
use limit_halo.Prelude.{
  ℕ, String, true, false, some, List, [], ◌∷◌, ◌≡◌, refl, length, mem, all, All,
}
use limit_halo.Prelude.Int.{pos}
use limit_halo.Prelude.Decimal.{decimal}
use limit_halo.Prelude.Result.{ok}
use limit_halo.Json.{Value, Items, bool, int, str, arr, obj, item, no_items, empty, entry, get?}
use limit_halo.Updates.{Asset, Release}
use limit_halo.Updates.Tags.{Tag, TagOrder, parse_tag}
use limit_halo.Updates.Releases.{validate_assets, validate_assets, Urls, RawAsset, asset_limits}
use limit_halo.Updates.Releases.Bounds.{IsBounded, validate_release-IsBounded}
use limit_halo.Updates.Discover.{
  newest, newer_assets, read_newer, read_item, read_items, discover, validate_release, listed,
  names, limit_names,
}
use limit_halo.Updates.Discover.Entries.{IsNewest}
use limit_halo.Updates.Discover.Newest.{discover-IsNewest}

-- An address of the download host; no quoting is needed.
abbrev urls : Urls
urls = record {
  urlsplit = λ text. some (record {
    scheme = "https";
    has_user = false;
    has_port = false;
    has_fragment = false;
    netloc = "objects.githubusercontent.com";
    path = "/";
    lower_path = "/";
  });
  quote = λ text. text;
  contains = λ part text. false;
  starts_with = λ text part. true;
}

abbrev digest : String
digest = "aaaaaaaaaaaaaaaaaaaaaaaaaaaaaaaaaaaaaaaaaaaaaaaaaaaaaaaaaaaaaaaa"

abbrev address : String → String
address name =
    str_append "https://github.com/DenisShumilov/LimitHalo/releases/download/v1.0.0/" name

abbrev raw : String → RawAsset
raw name = record {
  name = str name;
  size = int (pos 4096);
  sha256 = digest;
  url = str (address name);
}

abbrev raw_assets : List RawAsset
raw_assets =
    raw "LimitHalo-1.0.0-Setup.exe"
    ∷ raw "LimitHalo-1.0.0-Windows-x64.zip"
    ∷ raw "LimitHalo-Agent.ps1"
    ∷ raw "release-manifest.json"
    ∷ raw "SHA256SUMS.txt"
    ∷ []

abbrev asset : String → Asset
asset name = record { name = name; size = 4096; sha256 = digest; url = address name }

abbrev assets : List Asset
assets =
    asset "LimitHalo-1.0.0-Setup.exe"
    ∷ asset "LimitHalo-1.0.0-Windows-x64.zip"
    ∷ asset "LimitHalo-Agent.ps1"
    ∷ asset "release-manifest.json"
    ∷ asset "SHA256SUMS.txt"
    ∷ []

accepted_release :
    validate_release urls "1.0.0" "v1.0.0"
      (str "https://github.com/DenisShumilov/LimitHalo/releases/tag/v1.0.0")
      raw_assets
    ≡ ok assets
unfolding validate_release validate_assets lookup asset_limits parse_tag cut split
accepted_release = refl

validate_release-IsBounded_example :
    ((t : Tag) × (parse_tag "v1.0.0" ≡ ok t) × ("1.0.0" ≡ t.numeric))
    × (length assets ≡ 5)
    × All (IsBounded (asset_limits "1.0.0")) assets
    × (all (λ name. mem name (names assets)) (limit_names (asset_limits "1.0.0")) ≡ true)
validate_release-IsBounded_example =
    validate_release-IsBounded urls "1.0.0" "v1.0.0"
      (str "https://github.com/DenisShumilov/LimitHalo/releases/tag/v1.0.0") raw_assets assets
      accepted_release

abbrev api : String
api = "https://api.github.com/repos/DenisShumilov/LimitHalo/releases/"

abbrev entry_of : ℕ → String → Value
entry_of id name = obj (
    entry "digest" (str (str_append "sha256:" digest)) (
      entry "id" (int (pos id)) (
        entry "state" (str "uploaded") (
          entry "url" (str (str_append api (str_append "assets/" (decimal id)))) (
            entry "name" (str name) (
              entry "size" (int (pos 4096))
                (entry "browser_download_url" (str (address name)) empty)))))))

abbrev newer_release : Value
newer_release = obj (
    entry "draft" (bool false) (
      entry "tag_name" (str "v1.0.0") (
        entry "prerelease" (bool false) (
          entry "assets"
            (arr (
              item (entry_of 1 "LimitHalo-1.0.0-Setup.exe") (
                item (entry_of 2 "LimitHalo-1.0.0-Windows-x64.zip") (
                  item (entry_of 3 "LimitHalo-Agent.ps1") (
                    item (entry_of 4 "release-manifest.json")
                      (item (entry_of 5 "SHA256SUMS.txt") no_items))))))
            (entry "id" (int (pos 7)) (
              entry "url" (str (str_append api "7")) (
                entry "html_url"
                  (str "https://github.com/DenisShumilov/LimitHalo/releases/tag/v1.0.0")
                  empty)))))))

-- An older release, and a draft.
abbrev older_release : Value
older_release = obj (entry "draft" (bool false) (entry "tag_name" (str "v0.9.0") empty))

abbrev draft_release : Value
draft_release = obj (entry "draft" (bool true) empty)

abbrev page : Items
page = item older_release (item newer_release (item draft_release no_items))

abbrev beta_order : TagOrder
beta_order = record { major = 1; minor = 0; patch = 0; stable = 0; beta = 2 }

abbrev beta_tag : Tag
beta_tag = record { numeric = "1.0.0"; order = beta_order; is_beta = true }

current_tag : parse_tag "v1.0.0-beta.2" ≡ ok beta_tag
unfolding parse_tag cut number_from split
current_tag = refl

abbrev found : Release
found = record {
  version = "1.0.0";
  tag = "v1.0.0";
  assets = assets;
  page_url = "https://github.com/DenisShumilov/LimitHalo/releases/tag/v1.0.0";
}

discovered : discover urls "v1.0.0-beta.2" (arr page) ≡ ok (some found)
unfolding discover parse_tag cut number_from split read_items read_item get? read_newer newer_assets
    decimal validate_release validate_assets lookup asset_limits newest
discovered = refl

discover-IsNewest_example : IsNewest beta_order (listed page) (some found)
discover-IsNewest_example =
    discover-IsNewest urls "v1.0.0-beta.2" beta_tag page (some found) current_tag discovered
