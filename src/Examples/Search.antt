-- ===== src/Examples/Search.antt =====
-- A machine with the npm package of Codex: instances of the theorems.
use Prim.Native.String.{◌++◌ as str_append}
use limit_halo.Prelude.{
  String, true, false, none, some, List, [], ◌∷◌, ◌≡◌, refl, str_eq, if◌then◌else◌, All,
}
use limit_halo.Prelude.Result.{ok}
use limit_halo.Json.{Value, obj, str, entry, empty, get?}
use limit_halo.Claude.Frame.{codes}
use limit_halo.Discovery.Version.{same_version, Version, version_lt}
use limit_halo.Dict.{lookup}
use limit_halo.Discovery.Version.{parse_version, cut, split}
use limit_halo.Discovery.Windows.{
  reject_reparse_chain, read_json_object, canonical_regular_beneath, require_pe_version,
  satisfies_policy, executable_sha256, is_reparse, check_beneath, up_to_anchor,
}
use limit_halo.Discovery.Sources.{npm_candidate, npm_package, checked_candidate, npm_profile}
use limit_halo.Discovery.Search.{npm_found, appx_found, unchanged_path, unchanged_bytes}
use limit_halo.Discovery.Select.{sort_candidates, insert_candidate}
use limit_halo.Prelude.{◌⊎◌, ◌==◌}
use limit_halo.SignIn.{
  Texts, anthropic_trust, normalized_name, parts_of, join_words, without_commas,
  launch_provider_sign_in, trusted_codex_client, launch_trusted_client, launch_path,
}
use limit_halo.SignIn.Trusted.{IsCodexStart, IsClaudeStart, launch_provider_sign_in-IsTrusted}
use limit_halo.Discovery.Windows.{TrustRecord, Windows, PeVersion, expected_subject}
use limit_halo.Discovery.Select.{source_priority, is_before, CodexCandidate, select_candidate}
use limit_halo.Discovery.Select.Best.{IsNoWorse, select_candidate_best}
use limit_halo.Discovery.Search.{discover_from_sources, verify_candidate_unchanged}
use limit_halo.Discovery.Search.Trusted.{IsPlaced, IsRunnable, discover_from_sources-IsRunnable}
use limit_halo.Discovery.Search.Unchanged.{verify_candidate_unchanged_searched}

abbrev join_all : String → List String → String
join_all root [] = root
join_all root (part ∷ parts) = join_all (str_append root (str_append "/" part)) parts

abbrev package_json : Value
package_json = obj (
    entry "name" (str "@openai/codex") (
      entry "version" (str "0.50.0") (
        entry "optionalDependencies" (obj (entry "@openai/codex-win32-x64" (str "0.50.0") empty))
          empty)))

abbrev native_json : Value
native_json =
    obj (entry "name" (str "@openai/codex-win32-x64") (entry "version" (str "0.50.0") empty))

abbrev machine : Windows
machine = record {
  ancestors = λ path. path ∷ "npm/node_modules/@openai/codex-win32-x64" ∷ [];
  normcase = λ path. path;
  common_path = λ a b. some a;
  resolve = λ path. some path;
  exists = λ path. true;
  is_symlink = λ path. false;
  lstat_reparse = λ path. some false;
  is_dir = λ path. true;
  is_file = λ path. true;
  folded_name = λ path. "codex.exe";
  join = join_all;
  file_size = λ path. some 100;
  read_metadata =
      λ path. some (if str_eq path "npm/package.json" then package_json else native_json);
  children = λ path. none;
  hash_calls = λ path. record {
    before = some (record { device = 1; inode = 2; size = 3; modified = 4 });
    is_file = true;
    digest = some "aaaaaaaaaaaaaaaaaaaaaaaaaaaaaaaaaaaaaaaaaaaaaaaaaaaaaaaaaaaaaaaa";
    after = some (record { device = 1; inode = 2; size = 3; modified = 4 });
  };
  trust = λ path. record {
    status_valid = true;
    revocation_cache_available = true;
    subject = expected_subject;
    enhanced_key_usages = "1.3.6.1.5.5.7.3.3" ∷ [];
  };
  pe_version = λ path. PeVersion.absent;
  ordinal_lt = λ a b. ok false;
}

abbrev version_50 : Version
version_50 = record { major = 0; minor = 50; patch = 0; build = 0; prerelease = [] }

abbrev version_51_alpha : Version
version_51_alpha = record {
  major = 0;
  minor = 51;
  patch = 0;
  build = 0;
  prerelease = codes "alpha" ∷ [];
}

abbrev version_51 : Version
version_51 = record { major = 0; minor = 51; patch = 0; build = 0; prerelease = [] }

abbrev native_root : String
native_root = "npm/node_modules/@openai/codex-win32-x64"

abbrev npm_codex : CodexCandidate
npm_codex = record {
  source = "npm";
  version = version_50;
  executable = str_append native_root "/vendor/x86_64-pc-windows-msvc/bin/codex.exe";
  package_root = native_root;
  publisher_id = none;
  executable_sha256 = "aaaaaaaaaaaaaaaaaaaaaaaaaaaaaaaaaaaaaaaaaaaaaaaaaaaaaaaaaaaaaaaa";
}

searched : discover_from_sources machine (some "npm") none none none none [] ≡ ok npm_codex
unfolding discover_from_sources select_candidate npm_found appx_found npm_candidate npm_package
    reject_reparse_chain read_json_object get? parse_version cut split canonical_regular_beneath
    checked_candidate require_pe_version satisfies_policy lookup executable_sha256 sort_candidates
    insert_candidate npm_profile is_reparse check_beneath up_to_anchor
searched = refl

discover_from_sources-IsRunnable_example :
    IsRunnable machine npm_codex × IsPlaced machine (some "npm") none none none npm_codex
discover_from_sources-IsRunnable_example =
    discover_from_sources-IsRunnable machine (some "npm") none none none none [] npm_codex searched

checked_again : verify_candidate_unchanged machine npm_codex ≡ ok npm_codex.executable
unfolding verify_candidate_unchanged unchanged_path unchanged_bytes reject_reparse_chain
    require_pe_version executable_sha256 satisfies_policy lookup is_reparse check_beneath
    up_to_anchor
checked_again = refl

verify_candidate_unchanged_searched_example :
    (machine.normcase npm_codex.executable ≡ machine.normcase npm_codex.executable)
    × (executable_sha256 machine npm_codex.executable
        ≡ executable_sha256 machine npm_codex.executable)
    × (satisfies_policy (machine.trust npm_codex.executable) ≡ true)
    × (satisfies_policy (machine.trust npm_codex.executable) ≡ true)
verify_candidate_unchanged_searched_example =
    verify_candidate_unchanged_searched machine machine (some "npm") none none none none []
      npm_codex npm_codex.executable searched checked_again

abbrev newer_mirror : CodexCandidate
newer_mirror = record npm_codex { source = "appx-mirror"; version = version_51 }

abbrev older_mirror : CodexCandidate
older_mirror = record npm_codex { source = "appx-mirror"; version = version_51_alpha }

selected :
    select_candidate machine.ordinal_lt (npm_codex ∷ older_mirror ∷ newer_mirror ∷ [])
    ≡ ok newer_mirror
unfolding select_candidate is_before source_priority same_version version_lt
selected = refl

select_candidate_best_example :
    All (IsNoWorse newer_mirror) (npm_codex ∷ older_mirror ∷ newer_mirror ∷ [])
select_candidate_best_example =
    select_candidate_best machine.ordinal_lt (npm_codex ∷ older_mirror ∷ newer_mirror ∷ [])
      newer_mirror selected

-- Letters fold to themselves here.
abbrev plain_texts : Texts
plain_texts = record { casefold = codes; is_space = λ c. c == b' ' }

abbrev codex_command : List String
codex_command = npm_codex.executable ∷ "login" ∷ []

codex_started :
    launch_provider_sign_in machine (λ path. ".exe") plain_texts (ok npm_codex) [] "codex"
    ≡ ok codex_command
unfolding launch_provider_sign_in trusted_codex_client launch_trusted_client launch_path
    verify_candidate_unchanged unchanged_path unchanged_bytes reject_reparse_chain
    require_pe_version executable_sha256 satisfies_policy lookup is_reparse check_beneath
    up_to_anchor
codex_started = refl

launch_provider_sign_in-IsTrusted_example :
    IsCodexStart machine (ok npm_codex) "codex" codex_command
    ⊎ IsClaudeStart machine plain_texts "codex" codex_command
launch_provider_sign_in-IsTrusted_example =
    launch_provider_sign_in-IsTrusted machine (λ path. ".exe") plain_texts (ok npm_codex) [] "codex"
      codex_command codex_started

abbrev anthropic_record : TrustRecord
anthropic_record = record {
  status_valid = true;
  revocation_cache_available = true;
  subject = ("2.5.4.3", "anthropic, pbc") ∷ ("2.5.4.10", "anthropic  pbc") ∷ ("2.5.4.6", "US") ∷ [];
  enhanced_key_usages = "1.3.6.1.5.5.7.3.3" ∷ [];
}

anthropic_trusted : anthropic_trust plain_texts anthropic_record ≡ true
unfolding anthropic_trust normalized_name parts_of join_words without_commas lookup
anthropic_trusted = refl
