-- ===== src/Discovery/Search/Unchanged.antt =====
-- The check of a candidate before it is started, against the search that found it.
use mathlib.Core.Path.{subst}
use limit_halo.Prelude.{
  String, Bool, true, false, Option, some, List, ◌||◌, not, ◌≡◌, refl, sym, ap, ◌∙◌, str_eq, eq_iff,
  arith,
}
use limit_halo.Prelude.Result.{
  Result, Error, ok, raise_if, discovery_failure, ◌>>◌, ◌>>=◌, bind_returned, then_returned,
}
use limit_halo.Discovery.Windows.{
  Windows, satisfies_policy, require_pe_version, executable_sha256, reject_reparse_chain,
  or_failure,
}
use limit_halo.Discovery.Select.{CodexCandidate}
use limit_halo.Discovery.Sources.{AppxRecord, is_hex_text}
use limit_halo.Discovery.Search.{
  unchanged_path, unchanged_bytes, verify_candidate_unchanged, discover_from_sources,
}
use limit_halo.Discovery.Search.Trusted.{
  IsVerified, raise_if_passed, discover_from_sources-IsRunnable,
}

-- What follows the second hash.
abbrev after_hash : Windows → CodexCandidate → String → String → Result String
after_hash w c executable digest = do
  raise_if (not (str_eq digest c.executable_sha256))
      (discovery_failure "selected Codex bytes changed")
  raise_if (not (satisfies_policy (w.trust executable)))
      (discovery_failure "selected Codex trust changed")
  ok executable

unchanged_bytes-IsVerified :
    (w : Windows) (c : CodexCandidate) (executable path : String)
    → unchanged_bytes w c executable ≡ ok path
    → IsVerified w (record c { executable = path })
unfolding unchanged_bytes
unchanged_bytes-IsVerified w c executable path h =
    let (h1, e1) = then_returned (require_pe_version w executable c.version) _ h in
    let (digest, h2, e2) =
      bind_returned (executable_sha256 w executable) (after_hash w c executable) e1 in
    let (h3, e3) = then_returned (raise_if (not (str_eq digest c.executable_sha256)) _) _ e2 in
    let (h4, e4) = then_returned (raise_if (not (satisfies_policy (w.trust executable))) _) _ e3 in
    let same : executable ≡ path = cc in
    let bytes : digest ≡ c.executable_sha256 =
      (eq_iff digest c.executable_sha256).0
        (raise_if_passed (str_eq digest c.executable_sha256) _ h3) in
    subst (λ x. IsVerified w (record c { executable = x })) same
      (record {
        signed = raise_if_passed (satisfies_policy (w.trust executable)) _ h4;
        version = h1;
        bytes = h2 ∙ ap ok bytes;
      })

-- The tests of the path, and what follows them.
abbrev is_moved : Windows → CodexCandidate → String → String → String → Bool
is_moved w c package_root executable shared =
    not (str_eq (w.normcase shared) (w.normcase package_root))
    || not (str_eq (w.normcase executable) (w.normcase c.executable))
    || not (str_eq (w.folded_name executable) "codex.exe")

abbrev unmoved : Windows → CodexCandidate → String → String → String → Result String
unmoved w c package_root executable shared =
    raise_if (is_moved w c package_root executable shared)
      (discovery_failure "selected Codex path changed")
    >> ok executable

abbrev with_shared : Windows → CodexCandidate → String → String → Result String
with_shared w c package_root executable =
    or_failure "selected Codex path changed" (w.common_path package_root executable)
    >>= unmoved w c package_root executable

abbrev with_executable : Windows → CodexCandidate → String → Result String
with_executable w c package_root =
    or_failure "selected Codex path changed" (w.resolve c.executable)
    >>= with_shared w c package_root

raise_if_returned : (test : Bool) (e : Error) → raise_if test e ≡ ok tt → test ≡ false
raise_if_returned true e h = cc
raise_if_returned false e h = refl

not_second : (a b c : Bool) → (not a || not b || not c) ≡ false → b ≡ true
not_second a b c h = ground arith

unchanged_path_same :
    (w : Windows) (c : CodexCandidate) (path : String)
    → unchanged_path w c ≡ ok path
    → w.normcase path ≡ w.normcase c.executable
unfolding unchanged_path
unchanged_path_same w c path h =
    let (_, e1) = then_returned (raise_if (not (is_hex_text 64 c.executable_sha256)) _) _ h in
    let (_, e2) = then_returned (reject_reparse_chain w (some c.package_root) c.executable) _ e1 in
    let (root, _, e3) =
      bind_returned (or_failure "selected Codex path changed" (w.resolve c.package_root))
        (with_executable w c) e2 in
    let (executable, _, e4) =
      bind_returned (or_failure "selected Codex path changed" (w.resolve c.executable))
        (with_shared w c root) e3 in
    let (shared, _, e5) =
      bind_returned (or_failure "selected Codex path changed" (w.common_path root executable))
        (unmoved w c root executable) e4 in
    let (h6, returned) =
      then_returned
        (raise_if (is_moved w c root executable shared)
          (discovery_failure "selected Codex path changed"))
        (ok executable) e5 in
    let same : executable ≡ path = cc in
    subst (λ x. w.normcase x ≡ w.normcase c.executable) same
      ((eq_iff (w.normcase executable) (w.normcase c.executable)).0 (
        not_second (str_eq (w.normcase shared) (w.normcase root)) _ _
          (raise_if_returned (is_moved w c root executable shared) _ h6)))

unchanged_bytes_same :
    (w : Windows) (c : CodexCandidate) (executable path : String)
    → unchanged_bytes w c executable ≡ ok path
    → executable ≡ path
unfolding unchanged_bytes
unchanged_bytes_same w c executable path h =
    let (_, e1) = then_returned (require_pe_version w executable c.version) _ h in
    let (digest, _, e2) =
      bind_returned (executable_sha256 w executable) (after_hash w c executable) e1 in
    let (_, e3) = then_returned (raise_if (not (str_eq digest c.executable_sha256)) _) _ e2 in
    let (_, e4) = then_returned (raise_if (not (satisfies_policy (w.trust executable))) _) _ e3 in
    cc

-- A search and a later check of the candidate that it found, of a machine that may have changed in
-- between: the file that the check returns is at the path that was found, the bytes have the hash
-- that the file had when it was searched, and at both times the signature satisfied the policy.
pub verify_candidate_unchanged_searched :
    (w later : Windows) (npm_root npm_anchor appx_anchor mirror_root mirror_anchor : Option String)
    (records : List AppxRecord) (c : CodexCandidate) (path : String)
    → discover_from_sources w npm_root npm_anchor appx_anchor mirror_root mirror_anchor records
      ≡ ok c
    → verify_candidate_unchanged later c ≡ ok path
    → (later.normcase path ≡ later.normcase c.executable)
      × (executable_sha256 later path ≡ executable_sha256 w c.executable)
      × (satisfies_policy (w.trust c.executable) ≡ true)
      × (satisfies_policy (later.trust path) ≡ true)
unfolding verify_candidate_unchanged
verify_candidate_unchanged_searched w later npm_root npm_anchor appx_anchor mirror_root
      mirror_anchor records c path found h =
    let ((searched, _), _) =
      discover_from_sources-IsRunnable w npm_root npm_anchor appx_anchor mirror_root mirror_anchor
        records c found in
    let (_, e1) =
      then_returned (raise_if (not (str_eq c.source "appx-mirror" || str_eq c.source "npm")) _) _
        h in
    let (executable, h2, e2) =
      bind_returned (unchanged_path later c) (unchanged_bytes later c) e1 in
    let checked = unchanged_bytes-IsVerified later c executable path e2 in
    let same = unchanged_bytes_same later c executable path e2 in
    (
      ap later.normcase (sym same) ∙ unchanged_path_same later c executable h2,
      checked.bytes ∙ sym searched.bytes,
      searched.signed,
      checked.signed,
    )
