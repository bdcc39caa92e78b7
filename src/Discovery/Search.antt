-- ===== src/Discovery/Search.antt =====
-- src/limit_halo/codex_discovery.py: the runnable mirror of the Store package, the search over all
-- sources, and the check before a candidate is started.
pub mod Trusted
pub mod Unchanged
use limit_halo.Prelude.{
  ℕ, String, Bool, false, ◌||◌, not, Option, none, some, List, [], ◌∷◌, ◌==◌, map, if◌then◌else◌,
  str_eq,
}
use limit_halo.Prelude.Result.{Result, ok, err, discovery_failure, ◌>>=◌, ◌>>◌, raise_if}
use limit_halo.Claude.Frame.{codes}
use limit_halo.Discovery.Version.{text_lt}
use limit_halo.Discovery.Windows.{
  Windows, satisfies_policy, reject_reparse_chain, canonical_regular_beneath, require_pe_version,
  executable_sha256, or_failure,
}
use limit_halo.Discovery.Select.{CodexCandidate, select_candidate}
use limit_halo.Discovery.Sources.{AppxRecord, is_hex_text, npm_candidate, appx_candidate}

-- The folders with a name of sixteen hexadecimal digits.
unfoldable pub hex_names : List String → List String
hex_names [] = []
hex_names (n ∷ ns) = let rest = hex_names ns in if is_hex_text 16 n then n ∷ rest else rest

unfoldable insert_name : String → List String → List String
insert_name n [] = n ∷ []
insert_name n (m ∷ ms) =
    let rest = insert_name n ms in if text_lt (codes m) (codes n) then m ∷ rest else n ∷ m ∷ ms

-- `sorted(names)`
unfoldable pub sort_names : List String → List String
unfolding insert_name
sort_names [] = []
sort_names (n ∷ ns) = insert_name n (sort_names ns)

-- `select_candidate` of what is found, and the candidates that were found so far.
abbrev pub add_found : Result CodexCandidate → List CodexCandidate → List CodexCandidate
add_found (ok c) cs = c ∷ cs
add_found (err e) cs = cs

abbrev pub same_size : Option ℕ → Option ℕ → Bool
same_size (some a) (some b) = a == b
same_size _ _ = false

abbrev pub mirror_of : CodexCandidate → String × String → CodexCandidate
mirror_of c paths = record c {
  source = "appx-mirror";
  executable = paths.1;
  package_root = paths.0;
}

-- The places of a mirror: its root, and its folders in the order of their names.
abbrev pub mirror_places : List String → List (List String)
mirror_places children =
    ("codex.exe" ∷ []) ∷ map (λ n. n ∷ "codex.exe" ∷ []) (sort_names (hex_names children))

abbrev pub non_empty : List CodexCandidate → Result (List CodexCandidate)
non_empty [] = err (discovery_failure "no byte-identical runnable AppX mirror")
non_empty (c ∷ cs) = ok (c ∷ cs)

module _ (w : Windows) where
  -- An executable of the mirror with the size of the package's.
  unfoldable pub mirror_paths :
      Option String → String → CodexCandidate → List String → Result (String × String)
  mirror_paths anchor root c relative = do
    paths ← canonical_regular_beneath w anchor root relative
    raise_if (not (same_size (w.file_size paths.1) (w.file_size c.executable)))
        (discovery_failure "size")
    ok paths

  -- The same bytes and version, signed.
  unfoldable pub matching_mirror : CodexCandidate → String × String → Result CodexCandidate
  matching_mirror c paths = do
    digest ← executable_sha256 w paths.1
    raise_if (not (str_eq digest c.executable_sha256)) (discovery_failure "bytes")
    require_pe_version w paths.1 c.version
    raise_if (not (satisfies_policy (w.trust paths.1))) (discovery_failure "signer")
    ok (mirror_of c paths)

  -- One place of the mirror: a failure or a difference passes it over.
  unfoldable pub mirror_at :
      Option String → String → CodexCandidate → List String → Result CodexCandidate
  mirror_at anchor root c relative = mirror_paths anchor root c relative >>= matching_mirror c

  unfoldable pub mirrors_at :
      Option String → String → CodexCandidate → List (List String) → List CodexCandidate
  unfolding mirror_at
  mirrors_at anchor root c [] = []
  mirrors_at anchor root c (relative ∷ rest) =
      add_found (mirror_at anchor root c relative) (mirrors_at anchor root c rest)

  -- The mirrors of a Store package.
  unfoldable pub mirror_list :
      CodexCandidate → Option String → String → Result (List CodexCandidate)
  unfolding mirrors_at hex_names sort_names
  mirror_list c anchor root = do
    raise_if (not (str_eq c.source "appx") || not (is_hex_text 64 c.executable_sha256))
        (discovery_failure "AppX reference identity unavailable")
    reject_reparse_chain w anchor root
    children ← or_failure "Codex mirror root unavailable" (w.children root)
    ok (mirrors_at anchor root c (mirror_places children))

  -- `appx_runnable_mirror`
  unfoldable pub appx_runnable_mirror :
      CodexCandidate → Option String → String → Result CodexCandidate
  appx_runnable_mirror c anchor root = do
    mirrors ← mirror_list c anchor root
    some_mirrors ← non_empty mirrors
    select_candidate w.ordinal_lt some_mirrors

  -- A source that fails adds nothing.
  unfoldable pub npm_found :
      Option String → Option String → List CodexCandidate → List CodexCandidate
  npm_found anchor none cs = cs
  npm_found anchor (some root) cs = add_found (npm_candidate w anchor root) cs

  -- A Store package adds its mirror, never itself.
  unfoldable pub appx_found :
      Option String → Option String → Option String → List AppxRecord → List CodexCandidate
  appx_found appx_anchor mirror_anchor mirror_root [] = []
  appx_found appx_anchor mirror_anchor none (r ∷ rs) = appx_found appx_anchor mirror_anchor none rs
  appx_found appx_anchor mirror_anchor (some root) (r ∷ rs) =
      add_found (appx_candidate w appx_anchor r >>= λ c. appx_runnable_mirror c mirror_anchor root)
        (appx_found appx_anchor mirror_anchor (some root) rs)

  -- `discover_from_sources`
  unfoldable pub discover_from_sources :
      Option String
      → Option String
      → Option String
      → Option String
      → Option String
      → List AppxRecord
      → Result CodexCandidate
  discover_from_sources npm_root npm_anchor appx_anchor mirror_root mirror_anchor records =
      select_candidate w.ordinal_lt
        (npm_found npm_anchor npm_root (appx_found appx_anchor mirror_anchor mirror_root records))

  -- The executable of a candidate, still at its place.
  unfoldable pub unchanged_path : CodexCandidate → Result String
  unchanged_path c = do
    raise_if (not (is_hex_text 64 c.executable_sha256))
        (discovery_failure "selected Codex hash unavailable")
    reject_reparse_chain w (some c.package_root) c.executable
    package_root ← or_failure "selected Codex path changed" (w.resolve c.package_root)
    executable ← or_failure "selected Codex path changed" (w.resolve c.executable)
    shared ← or_failure "selected Codex path changed" (w.common_path package_root executable)
    raise_if
        (not (str_eq (w.normcase shared) (w.normcase package_root))
          || not (str_eq (w.normcase executable) (w.normcase c.executable))
          || not (str_eq (w.folded_name executable) "codex.exe"))
        (discovery_failure "selected Codex path changed")
    ok executable

  -- Its version, its bytes and its signature, again.
  unfoldable pub unchanged_bytes : CodexCandidate → String → Result String
  unchanged_bytes c executable = do
    require_pe_version w executable c.version
    digest ← executable_sha256 w executable
    raise_if (not (str_eq digest c.executable_sha256))
        (discovery_failure "selected Codex bytes changed")
    raise_if (not (satisfies_policy (w.trust executable)))
        (discovery_failure "selected Codex trust changed")
    ok executable

  -- `verify_candidate_unchanged`
  unfoldable pub verify_candidate_unchanged : CodexCandidate → Result String
  verify_candidate_unchanged c = do
    raise_if (not (str_eq c.source "appx-mirror" || str_eq c.source "npm"))
        (discovery_failure "selected Codex source is not runnable")
    executable ← unchanged_path c
    unchanged_bytes c executable
