-- ===== src/Discovery/Sources.antt =====
-- src/limit_halo/codex_discovery.py: the candidates of npm, of the Store package and of its runnable
-- mirror.
use limit_halo.Prelude.{
  ℕ, String, Bool, true, false, ◌&&◌, ◌||◌, not, Option, none, some, List, [], ◌∷◌, ◌++◌, ◌==◌, leb,
  length, all, if◌then◌else◌, str_eq,
}
use Prim.Native.String.{◌++◌ as str_append}
use limit_halo.Prelude.Result.{Result, ok, err, discovery_failure, ◌>>=◌, ◌>>◌, raise_if}
use limit_halo.Json.{
  Value, Fields, null, str, arr, item, no_items, obj, empty, entry, get, get?, is_str,
}
use limit_halo.Claude.Frame.{codes}
use limit_halo.Discovery.Version.{Version, parse_version}
use limit_halo.Discovery.Windows.{
  Windows, satisfies_policy, read_json_object, is_reparse, reject_reparse_chain,
  canonical_regular_beneath, require_pe_version, executable_sha256, or_failure,
}
use limit_halo.Discovery.Select.{CodexCandidate}

pub record AppxRecord : Type 0 where
  pub name : String
  pub publisher : String
  pub publisher_id : String
  pub family_name : String
  pub full_name : String
  pub version : String
  pub install_location : String

abbrev native_name : String
native_name = "@openai/codex-win32-x64"

-- `Version.parse(package.get("version"))`
abbrev parse_version_value : Value → Result Version
parse_version_value (str s) = parse_version (codes s)
parse_version_value _ = err (discovery_failure "version is not text")

unfoldable all_texts : Fields → Bool
all_texts empty = true
all_texts (entry k (str s) fs) = all_texts fs
all_texts (entry k v fs) = false

-- The declarations of the native package in one of the two fields.
declared_in : Option Value → Result (List Value)
unfolding all_texts
declared_in none = ok []
declared_in (some null) = ok []
declared_in (some (obj fs)) =
    if all_texts fs
    then ok (elim (get? native_name fs) [ none ↦ [] | some v ↦ v ∷ [] ])
    else err (discovery_failure "malformed npm dependency metadata")
declared_in (some _) = err (discovery_failure "malformed npm dependency metadata")

abbrev single : List Value → Result Value
single (v ∷ []) = ok v
single _ = err (discovery_failure "native npm dependency is ambiguous")

abbrev is_single : String → Value → Bool
is_single name (arr (item (str s) no_items)) = str_eq s name
is_single name _ = false

abbrev text_of : Value → String
text_of (str s) = s
text_of _ = ""

-- The two profiles of the native package that are known.
unfoldable pub npm_profile : Fields → String → Value → Bool
npm_profile native package_version declared =
    is_str native_name (get "name" native)
      && is_str package_version (get "version" native)
      && (is_str package_version declared || is_str (str_append "=" package_version) declared)
    || is_str "@openai/codex" (get "name" native)
      && is_str (str_append package_version "-win32-x64") (get "version" native)
      && is_single "win32" (get "os" native)
      && is_single "x64" (get "cpu" native)
      && is_str (str_append "npm:@openai/codex@" (str_append package_version "-win32-x64")) declared

-- `PACKAGE_PUBLISHER_IDS`
unfoldable pub publisher_id_of : String → Option String
publisher_id_of publisher =
    if str_eq publisher
      "CN=\"OpenAI OpCo, LLC\", O=\"OpenAI OpCo, LLC\", L=San Francisco, S=California, C=US"
    then some "3k8sg7r9htsxt"
    else if str_eq publisher "CN=50BDFD77-8903-4850-9FFE-6E8522F64D5B"
    then some "2p2nqsd0c76g0"
    else none

abbrev is_lower_hex : ℕ → Bool
is_lower_hex c = leb b'0' c && leb c b'9' || leb b'a' c && leb c b'f'

-- `re.fullmatch(r"[0-9a-f]{n}", text)`
abbrev pub is_hex_text : ℕ → String → Bool
is_hex_text n text = length (codes text) == n && all is_lower_hex (codes text)

abbrev pub candidate_of :
    String → Version → Option String → String × String → String → CodexCandidate
candidate_of source version publisher paths digest = record {
  source = source;
  version = version;
  executable = paths.1;
  package_root = paths.0;
  publisher_id = publisher;
  executable_sha256 = digest;
}

module _ (w : Windows) where
  -- The tests that end the search of a source, the version of the file, its signature and its bytes,
  -- and the candidate: its source, version and publisher, its root and its executable.
  unfoldable pub checked_candidate :
      String → Version → Option String → String → String × String → Result CodexCandidate
  checked_candidate source version publisher message paths = do
    require_pe_version w paths.1 version
    raise_if (not (satisfies_policy (w.trust paths.1))) (discovery_failure message)
    digest ← executable_sha256 w paths.1
    ok (candidate_of source version publisher paths digest)

  abbrev npm_exe : List String
  npm_exe = "vendor" ∷ "x86_64-pc-windows-msvc" ∷ "bin" ∷ "codex.exe" ∷ []

  -- The version of the npm package, and its root and executable.
  unfoldable pub npm_package : Option String → String → Result (Version × (String × String))
  unfolding declared_in npm_profile
  npm_package anchor root = do
    reject_reparse_chain w anchor root
    flag ← is_reparse w (w.join root ("package.json" ∷ []))
    raise_if flag (discovery_failure "npm metadata reparse rejected")
    metadata ← read_json_object w (w.join root ("package.json" ∷ []))
    raise_if (not (is_str "@openai/codex" (get "name" metadata)))
        (discovery_failure "wrong npm package")
    version ← parse_version_value (get "version" metadata)
    plain ← declared_in (get? "dependencies" metadata)
    optional ← declared_in (get? "optionalDependencies" metadata)
    declared ← single (plain ++ optional)
    hidden ←
        is_reparse w
          (w.join root ("node_modules" ∷ "@openai" ∷ "codex-win32-x64" ∷ "package.json" ∷ []))
    raise_if hidden (discovery_failure "native metadata reparse rejected")
    native ←
        read_json_object w
          (w.join root ("node_modules" ∷ "@openai" ∷ "codex-win32-x64" ∷ "package.json" ∷ []))
    raise_if (not (npm_profile native (text_of (get "version" metadata)) declared))
        (discovery_failure "native npm metadata mismatch")
    paths ←
        canonical_regular_beneath w anchor
          (w.join root ("node_modules" ∷ "@openai" ∷ "codex-win32-x64" ∷ [])) npm_exe
    ok (version, paths)

  -- `npm_candidate`
  unfoldable pub npm_candidate : Option String → String → Result CodexCandidate
  npm_candidate anchor root = do
    found ← npm_package anchor root
    checked_candidate "npm" found.0 none "npm Codex signer rejected" found.1

  -- The identity of a Store package.
  unfoldable pub check_identity : AppxRecord → Result Version
  check_identity r = do
    expected ←
        or_failure "wrong AppX identity"
          (if str_eq r.name "OpenAI.Codex" then publisher_id_of r.publisher else none)
    raise_if (not (str_eq r.publisher_id expected)) (discovery_failure "wrong AppX publisher ID")
    raise_if (not (str_eq r.family_name (str_append "OpenAI.Codex_" r.publisher_id)))
        (discovery_failure "AppX family mismatch")
    version ← parse_version (codes r.version)
    raise_if
        (not (
          str_eq r.full_name (
            str_append "OpenAI.Codex_"
              (str_append r.version (str_append "_x64__" r.publisher_id)))))
        (discovery_failure "AppX full name mismatch")
    ok version

  -- The version of a Store package, and its root and executable.
  unfoldable pub appx_package : Option String → AppxRecord → Result (Version × (String × String))
  unfolding check_identity
  appx_package anchor r = do
    version ← check_identity r
    paths ←
        canonical_regular_beneath w anchor r.install_location
          ("app" ∷ "resources" ∷ "codex.exe" ∷ [])
    ok (version, paths)

  -- `appx_candidate`
  unfoldable pub appx_candidate : Option String → AppxRecord → Result CodexCandidate
  appx_candidate anchor r = do
    found ← appx_package anchor r
    checked_candidate "appx" found.0 (some r.publisher_id) "AppX Codex signer rejected" found.1
