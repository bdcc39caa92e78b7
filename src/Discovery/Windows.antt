-- ===== src/Discovery/Windows.antt =====
-- src/limit_halo/codex_discovery.py: what the search asks Windows, and the checks of paths and files
-- that it makes with the answers. A path is the text of an absolute path.
use limit_halo.Prelude.{
  ℕ, String, Bool, false, ◌&&◌, ◌||◌, not, Option, none, some, List, [], ◌∷◌, ◌==◌, leb, length,
  all, mem, if◌then◌else◌, str_eq,
}
use limit_halo.Prelude.Result.{Result, ok, err, discovery_failure, ◌>>=◌, ◌>>◌, raise_if}
use limit_halo.Dict.{Dict, lookup}
use limit_halo.Json.{Value, Fields, obj}
use limit_halo.Discovery.Version.{Version}

-- What a file's `stat` identifies.
pub record FileId : Type 0 where
  pub device : ℕ
  pub inode : ℕ
  pub size : ℕ
  pub modified : ℕ

pub record TrustRecord : Type 0 where
  pub status_valid : Bool
  pub revocation_cache_available : Bool
  pub subject : Dict String
  pub enhanced_key_usages : List String

-- The calls of one hash, in their order: `none` stands for an `OSError`.
pub record HashCalls : Type 0 where
  pub before : Option FileId
  pub is_file : Bool
  pub digest : Option String
  pub after : Option FileId

-- The answer of the reader of a file's version: an error, no version, or four numbers.
pub data PeVersion : Type 0 where
  unavailable : PeVersion
  absent : PeVersion
  numbers : ℕ → ℕ → ℕ → ℕ → PeVersion

-- Windows at one time; `none` stands for an `OSError` or a `ValueError`.
pub record Windows : Type 0 where
  pub ancestors : String → List String
  pub normcase : String → String
  pub common_path : String → String → Option String
  pub resolve : String → Option String
  pub exists : String → Bool
  pub is_symlink : String → Bool
  pub lstat_reparse : String → Option Bool
  pub is_dir : String → Bool
  pub is_file : String → Bool
  pub folded_name : String → String
  pub join : String → List String → String
  pub file_size : String → Option ℕ
  pub read_metadata : String → Option Value
  pub children : String → Option (List String)
  pub hash_calls : String → HashCalls
  pub trust : String → TrustRecord
  pub pe_version : String → PeVersion
  pub ordinal_lt : String → String → Result Bool

abbrev pub expected_subject : Dict String
expected_subject =
    ("2.5.4.3", "OpenAI OpCo, LLC")
    ∷ ("2.5.4.10", "OpenAI OpCo, LLC")
    ∷ ("2.5.4.7", "San Francisco")
    ∷ ("2.5.4.8", "California")
    ∷ ("2.5.4.6", "US")
    ∷ []

abbrev is_entry : Dict String → String × String → Bool
is_entry subject (oid, name) = elim (lookup oid subject) [ none ↦ false | some n ↦ str_eq n name ]

-- `TrustRecord.satisfies_policy`
unfoldable pub satisfies_policy : TrustRecord → Bool
satisfies_policy t =
    t.status_valid
    && t.revocation_cache_available
    && (length t.subject == length expected_subject && all (is_entry t.subject) expected_subject)
    && mem "1.3.6.1.5.5.7.3.3" t.enhanced_key_usages

abbrev same_file : FileId → FileId → Bool
same_file a b =
    a.device == b.device && a.inode == b.inode && a.size == b.size && a.modified == b.modified

abbrev max_metadata_bytes : ℕ
max_metadata_bytes = 1_048_576

abbrev max_executable_bytes : ℕ
max_executable_bytes = 1_073_741_824

abbrev pub or_failure {ℓ} : {A : Type ℓ} → String → Option A → Result A
or_failure message none = err (discovery_failure message)
or_failure message (some a) = ok a

abbrev object_or_failure : Value → Result Fields
object_or_failure (obj fs) = ok fs
object_or_failure _ = err (discovery_failure "metadata is not an object")

module _ (w : Windows) where
  -- `_read_json_object`
  unfoldable pub read_json_object : String → Result Fields
  read_json_object path = do
    size ← or_failure "metadata rejected" (w.file_size path)
    raise_if (not (leb 1 size && leb size max_metadata_bytes))
        (discovery_failure "metadata size rejected")
    value ← or_failure "metadata rejected" (w.read_metadata path)
    object_or_failure value

  -- `_is_reparse`
  unfoldable pub is_reparse : String → Result Bool
  is_reparse path = or_failure "path is unavailable" (w.lstat_reparse path)

  -- The components up to the trusted one; without it, all of them.
  unfoldable pub up_to_anchor : Option String → List String → Result (List String)
  up_to_anchor none components = ok components
  up_to_anchor (some anchor) [] = err (discovery_failure "trusted anchor not reached")
  up_to_anchor (some anchor) (c ∷ cs) =
      let above = up_to_anchor (some anchor) cs in
      if str_eq (w.normcase c) (w.normcase anchor)
      then ok (c ∷ [])
      else above >>= λ more. ok (c ∷ more)

  -- From the outermost component, as the source reverses the list.
  unfoldable pub reject_components : List String → Result (Unit {0})
  unfolding is_reparse
  reject_components [] = ok tt
  reject_components (c ∷ cs) = do
    reject_components cs
    if w.exists c || w.is_symlink c
        then (is_reparse c >>= λ flag. raise_if flag (discovery_failure "reparse point rejected"))
        else ok tt

  -- The path lies beneath the anchor.
  unfoldable pub check_beneath : Option String → String → Result (Unit {0})
  check_beneath none path = ok tt
  check_beneath (some anchor) path = do
    shared ← or_failure "path escapes trusted anchor" (w.common_path anchor path)
    raise_if (not (str_eq (w.normcase shared) (w.normcase anchor)))
        (discovery_failure "path escapes trusted anchor")

  -- `_reject_existing_reparse_chain`
  unfoldable pub reject_reparse_chain : Option String → String → Result (Unit {0})
  unfolding check_beneath up_to_anchor reject_components
  reject_reparse_chain anchor path = do
    check_beneath anchor path
    components ← up_to_anchor anchor (w.ancestors path)
    reject_components components

  -- The folders and the file on the way from the root.
  unfoldable pub reject_parts : String → List String → Result (Unit {0})
  unfolding is_reparse
  reject_parts cursor [] = ok tt
  reject_parts cursor (part ∷ parts) = do
    flag ← is_reparse (w.join cursor (part ∷ []))
    raise_if flag (discovery_failure "reparse point rejected")
    reject_parts (w.join cursor (part ∷ [])) parts

  -- `_canonical_regular_beneath` of a relative path whose parts the code itself fixes.
  unfoldable pub canonical_regular_beneath :
      Option String → String → List String → Result (String × String)
  unfolding reject_reparse_chain reject_parts
  canonical_regular_beneath anchor root relative = do
    raise_if (mem ".." relative) (discovery_failure "unsafe relative path")
    canonical_root ← or_failure "package root unavailable" (w.resolve root)
    reject_reparse_chain anchor root
    raise_if (not (w.is_dir canonical_root)) (discovery_failure "unsafe package root")
    reject_parts root relative
    candidate ← or_failure "candidate path rejected" (w.resolve (w.join root relative))
    shared ← or_failure "candidate path rejected" (w.common_path canonical_root candidate)
    raise_if (not (str_eq (w.normcase shared) (w.normcase canonical_root)))
        (discovery_failure "candidate escapes package root")
    raise_if (not (str_eq (w.folded_name candidate) "codex.exe") || not (w.is_file candidate))
        (discovery_failure "Codex executable rejected")
    ok (canonical_root, candidate)

  abbrev matching : Version → PeVersion → Result (Unit {0})
  matching v unavailable = err (discovery_failure "PE version unavailable")
  matching v absent = ok tt
  matching v (numbers a b c d) =
      raise_if (not (a == v.major && b == v.minor && c == v.patch && d == v.build))
        (discovery_failure "PE/package version mismatch")

  -- `_require_pe_version`
  unfoldable pub require_pe_version : String → Version → Result (Unit {0})
  require_pe_version executable v = matching v (w.pe_version executable)

  abbrev hash_of : HashCalls → Result String
  hash_of calls = do
    before ← or_failure "Codex executable hash unavailable" calls.before
    raise_if (not calls.is_file || not (leb 1 before.size && leb before.size max_executable_bytes))
        (discovery_failure "Codex executable size rejected")
    digest ← or_failure "Codex executable hash unavailable" calls.digest
    after ← or_failure "Codex executable hash unavailable" calls.after
    raise_if (not (same_file before after))
        (discovery_failure "Codex executable changed while hashing")
    ok digest

  -- `executable_sha256`
  unfoldable pub executable_sha256 : String → Result String
  executable_sha256 executable = hash_of (w.hash_calls executable)
