-- ===== src/SignIn.antt =====
-- src/limit_halo/auth.py: the client that a person signs in with, and the command that is started. The
-- exception `AuthLaunchFailure` is a `RuntimeError`. The places where Claude may be are absolute paths,
-- and an error of `resolve` that is not caught is an `os_error`.
pub mod Trusted
use limit_halo.Prelude.{
  ℕ, String, Bool, true, false, ◌&&◌, ◌||◌, not, Option, none, some, List, [], ◌∷◌, ◌++◌, ◌==◌,
  length, all, mem, if◌then◌else◌, str_eq,
}
use limit_halo.Prelude.Result.{
  Result, Error, ok, err, runtime_error, os_error, discovery_failure, ◌>>=◌, ◌>>◌, raise_if,
}
use limit_halo.Dict.{Dict, lookup}
use limit_halo.Claude.Frame.{codes}
use limit_halo.Discovery.Version.{same_text}
use limit_halo.Discovery.Windows.{Windows, TrustRecord}
use limit_halo.Discovery.Select.{CodexCandidate}
use limit_halo.Discovery.Search.{verify_candidate_unchanged}

pub record TrustedAuthClient : Type 0 where
  pub provider : String
  pub executable : String
  pub fixed_args : List String
  pub trust_source : String
  pub codex_candidate : Option CodexCandidate

-- What the code asks of texts, `casefold` and which characters `split` takes for a space.
pub record Texts : Type 0 where
  pub casefold : String → List ℕ
  pub is_space : ℕ → Bool

abbrev next_word : Bool → ℕ → List (List ℕ) → List (List ℕ)
next_word true c parts = [] ∷ parts
next_word false c [] = (c ∷ []) ∷ []
next_word false c (part ∷ parts) = (c ∷ part) ∷ parts

-- The parts between spaces, the empty ones too.
unfoldable pub parts_of : (ℕ → Bool) → List ℕ → List (List ℕ)
parts_of is_space [] = [] ∷ []
parts_of is_space (c ∷ cs) = next_word (is_space c) c (parts_of is_space cs)

-- `" ".join(words)` of the words that are not empty.
unfoldable pub join_words : List (List ℕ) → List ℕ
join_words [] = []
join_words ([] ∷ rest) = join_words rest
join_words (word ∷ rest) =
    let more = join_words rest in if length more == 0 then word else word ++ b' ' ∷ more

unfoldable pub without_commas : List ℕ → List ℕ
without_commas [] = []
without_commas (c ∷ cs) = (if c == b',' then b' ' else c) ∷ without_commas cs

abbrev or_empty : Option String → String
or_empty none = ""
or_empty (some s) = s

abbrev is_anthropic : List ℕ → Bool
is_anthropic name = same_text name (codes "anthropic") || same_text name (codes "anthropic pbc")

abbrev is_country : Option String → Bool
is_country none = false
is_country (some s) = str_eq s "US"

abbrev pub launch_failure {ℓ} : {A : Type ℓ} → String → Result A
launch_failure message = err (runtime_error message)

-- `except (OSError, DiscoveryFailure)`: other exceptions pass.
abbrev pub refused : String → Error → Error
refused message (os_error _) = runtime_error message
refused message (discovery_failure _) = runtime_error message
refused message e = e

abbrev pub or_os_error {ℓ} : {A : Type ℓ} → Option A → Result A
or_os_error none = err (os_error "resolve")
or_os_error (some a) = ok a

abbrev pub claude_client : String → TrustedAuthClient
claude_client executable = record {
  provider = "claude";
  executable = executable;
  fixed_args = "auth" ∷ "login" ∷ [];
  trust_source = "authenticode-cache-only";
  codex_candidate = none;
}

abbrev pub else_next : Option String → Result TrustedAuthClient → Result TrustedAuthClient
else_next none next = next
else_next (some executable) next = ok (claude_client executable)

abbrev pub codex_client : CodexCandidate → String → TrustedAuthClient
codex_client c executable = record {
  provider = "codex";
  executable = executable;
  fixed_args = "login" ∷ [];
  trust_source = c.source;
  codex_candidate = some c;
}

abbrev no_reparse : Option Bool → Bool
no_reparse (some false) = true
no_reparse _ = false

-- The arguments that are allowed for a provider.
abbrev expected_args : String → List String
expected_args provider = if str_eq provider "codex" then "login" ∷ [] else "auth" ∷ "login" ∷ []

abbrev same_args : List String → List String → Bool
same_args [] [] = true
same_args (a ∷ xs) (b ∷ ys) = str_eq a b && same_args xs ys
same_args _ _ = false

module _ (u : Texts) where
  -- A name of the subject, folded, with single spaces.
  unfoldable pub normalized_name : String → Dict String → List ℕ
  unfolding parts_of join_words without_commas
  normalized_name oid subject =
      join_words (parts_of u.is_space (without_commas (u.casefold (or_empty (lookup oid subject)))))

  -- `_anthropic_trust`
  unfoldable pub anthropic_trust : TrustRecord → Bool
  unfolding normalized_name
  anthropic_trust t =
      t.status_valid
      && t.revocation_cache_available
      && mem "1.3.6.1.5.5.7.3.3" t.enhanced_key_usages
      && is_anthropic (normalized_name "2.5.4.3" t.subject)
      && is_anthropic (normalized_name "2.5.4.10" t.subject)
      && is_country (lookup "2.5.4.6" t.subject)

module _ (w : Windows) where
  -- Paths are compared as Windows does.
  abbrev pub same_path : String → String → Bool
  same_path a b = str_eq (w.normcase a) (w.normcase b)

  -- `trusted_codex_client`, of what the discovery returned.
  unfoldable pub trusted_codex_client : Result CodexCandidate → Result TrustedAuthClient
  trusted_codex_client (err e) = err (refused "trusted Codex client unavailable" e)
  trusted_codex_client (ok c) = do
    executable ← or_os_error (w.resolve c.executable)
    raise_if
        (not (same_path executable c.executable)
          || not (str_eq (w.folded_name executable) "codex.exe"))
        (runtime_error "trusted Codex client changed")
    ok (codex_client c executable)

  abbrev pub is_claude_file : String → String → Bool
  is_claude_file candidate resolved =
      same_path resolved candidate
      && str_eq (w.folded_name resolved) "claude.exe"
      && w.is_file resolved

  abbrev installed_at : String → Option String → Bool
  installed_at candidate none = false
  installed_at candidate (some resolved) = is_claude_file candidate resolved

  abbrev pub verified_path : String → Result String → Result (Unit {0})
  verified_path executable (err e) = err (refused "Codex authentication identity changed" e)
  verified_path executable (ok verified) =
      raise_if (not (same_path verified executable))
        (runtime_error "Codex authentication identity changed")

  abbrev pub candidate_identity : String → Option CodexCandidate → Result (Unit {0})
  candidate_identity executable none = launch_failure "Codex authentication identity unavailable"
  candidate_identity executable (some c) = verified_path executable (verify_candidate_unchanged w c)

  -- The client of Codex is verified again.
  abbrev pub check_launch_identity : TrustedAuthClient → String → Result (Unit {0})
  check_launch_identity client executable =
      if str_eq client.provider "codex"
      then candidate_identity executable client.codex_candidate
      else ok tt

  -- `reject_reparse_components` returns. A component that is a link is rejected whether it exists or
  -- not; one that is neither there nor a link is not looked at, so that no answer of `lstat` means an
  -- error other than `FileNotFoundError`.
  unfoldable pub reparse_free : String → Bool
  reparse_free path =
      all (λ c. not (w.is_symlink c) && (not (w.exists c) || no_reparse (w.lstat_reparse c)))
        (w.ancestors path)

  -- `claude_client_installed`
  unfoldable pub claude_client_installed : List String → Bool
  unfolding reparse_free
  claude_client_installed [] = false
  claude_client_installed (c ∷ cs) =
      reparse_free c && installed_at c (w.resolve c) || claude_client_installed cs

module _ (w : Windows) (u : Texts) where
  -- A place where Claude may be installed: its executable, where it is trusted.
  abbrev pub trusted_at : String → Option String → Option String
  trusted_at candidate none = none
  trusted_at candidate (some resolved) =
      if is_claude_file w candidate resolved && anthropic_trust u (w.trust resolved)
      then some resolved
      else none

  -- `trusted_claude_client`: the first place that is trusted.
  unfoldable pub trusted_claude_client : List String → Result TrustedAuthClient
  trusted_claude_client [] = launch_failure "trusted official Claude client unavailable"
  trusted_claude_client (c ∷ cs) =
      else_next (if reparse_free w c then trusted_at c (w.resolve c) else none)
        (trusted_claude_client cs)

-- `suffix` is the folded suffix of a path.
module _ (w : Windows) (suffix : String → String) where
  -- The executable of a client, after the tests of its provider, arguments and path.
  unfoldable pub launch_path : TrustedAuthClient → Result String
  launch_path client = do
    raise_if (not (mem client.provider ("codex" ∷ "claude" ∷ [])))
        (runtime_error "unsupported provider")
    raise_if (not (same_args client.fixed_args (expected_args client.provider)))
        (runtime_error "authentication arguments rejected")
    executable ← or_os_error (w.resolve client.executable)
    raise_if (not (same_path w executable client.executable && str_eq (suffix executable) ".exe"))
        (runtime_error "authentication executable changed")
    ok executable

  -- `launch_trusted_client`: the command that is started.
  unfoldable pub launch_trusted_client : TrustedAuthClient → Result (List String)
  launch_trusted_client client = do
    executable ← launch_path client
    check_launch_identity w client executable
    ok (executable ∷ client.fixed_args)

  -- `launch_provider_sign_in`, of what the discovery returned and the places where Claude may be.
  unfoldable pub launch_provider_sign_in :
      Texts → Result CodexCandidate → List String → String → Result (List String)
  launch_provider_sign_in u discovered places provider =
      if str_eq provider "codex"
      then trusted_codex_client w discovered >>= launch_trusted_client
      else if str_eq provider "claude"
      then trusted_claude_client w u places >>= launch_trusted_client
      else launch_failure "unsupported provider"
