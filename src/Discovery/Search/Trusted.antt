-- ===== src/Discovery/Search/Trusted.antt =====
-- What is true of a candidate that is found.
use limit_halo.Prelude.{
  String, Bool, true, false, ◌||◌, not, Option, none, some, List, [], ◌∷◌, All, ◌≡◌, refl, str_eq,
}
use limit_halo.Prelude.Result.{
  Result, ok, err, Error, discovery_failure, raise_if, ◌>>=◌, ◌>>◌, bind_returned, then_returned,
}
use mathlib.Core.Path.{subst}
use limit_halo.Prelude.{eq_iff, ap, ◌∙◌, ◌⊎◌, inl, inr}
use limit_halo.Discovery.Version.{Version}
use limit_halo.Discovery.Windows.{
  Windows, satisfies_policy, require_pe_version, executable_sha256, reject_reparse_chain,
  or_failure, canonical_regular_beneath,
}
use limit_halo.Discovery.Select.{CodexCandidate, select_candidate}
use limit_halo.Discovery.Sources.{
  AppxRecord, checked_candidate, npm_candidate, appx_candidate, npm_package, is_hex_text,
  candidate_of,
}
use limit_halo.Discovery.Select.Members.{select_candidate-All}
use limit_halo.Discovery.Search.{
  same_size, mirror_list, mirror_paths, matching_mirror, non_empty, mirror_of, mirror_places,
  mirror_at, mirrors_at, appx_runnable_mirror, npm_found, appx_found, add_found,
  discover_from_sources,
}

pub raise_if_passed : (test : Bool) (e : Error) → raise_if (not test) e ≡ ok tt → test ≡ true
raise_if_passed true e h = refl
raise_if_passed false e h = cc

-- The signature of the executable satisfies the policy, its version is that of the candidate where
-- it has one, and its bytes have the hash that the candidate carries.
pub record IsVerified (w : Windows) (c : CodexCandidate) : Type 0 where
  pub signed : satisfies_policy (w.trust c.executable) ≡ true
  pub version : require_pe_version w c.executable c.version ≡ ok tt
  pub bytes : executable_sha256 w c.executable ≡ ok c.executable_sha256

-- What follows the hash of a mirror.
abbrev after_hash : Windows → CodexCandidate → String × String → String → Result CodexCandidate
after_hash w c paths digest = do
  raise_if (not (str_eq digest c.executable_sha256)) (discovery_failure "bytes")
  require_pe_version w paths.1 c.version
  raise_if (not (satisfies_policy (w.trust paths.1))) (discovery_failure "signer")
  ok (mirror_of c paths)

-- What a source gives can be started: it is verified and of a source that is runnable.
abbrev pub IsRunnable : Windows → CodexCandidate → Type 0
IsRunnable w c = IsVerified w c × ((str_eq c.source "appx-mirror" || str_eq c.source "npm") ≡ true)

module _ (w : Windows) where
  checked_candidate-IsVerified :
      (source : String) (v : Version) (publisher : Option String) (message : String)
      (paths : String × String) (c : CodexCandidate)
      → checked_candidate w source v publisher message paths ≡ ok c
      → IsVerified w c × (c.source ≡ source)
  unfolding checked_candidate
  checked_candidate-IsVerified source v publisher message paths c h =
      let (h1, e1) = then_returned (require_pe_version w paths.1 v) _ h in
      let (h2, e2) =
        then_returned
          (raise_if (not (satisfies_policy (w.trust paths.1))) (discovery_failure message)) _ e1 in
      let (digest, h3, e3) =
        bind_returned (executable_sha256 w paths.1)
          (λ (d : String). ok (candidate_of source v publisher paths d)) e2 in
      let same : candidate_of source v publisher paths digest ≡ c = cc in
      subst (λ x. IsVerified w x × (x.source ≡ source)) same
        (
          record {
            signed = raise_if_passed (satisfies_policy (w.trust paths.1)) _ h2;
            version = h1;
            bytes = h3;
          },
          refl,
        )

  npm_candidate-IsRunnable :
      (anchor : Option String) (root : String) (c : CodexCandidate)
      → npm_candidate w anchor root ≡ ok c
      → IsRunnable w c
  unfolding npm_candidate
  npm_candidate-IsRunnable anchor root c h =
      let (found, h1, e1) =
        bind_returned (npm_package w anchor root)
          (λ (f : Version × (String × String)).
            checked_candidate w "npm" f.0 none "npm Codex signer rejected" f.1)
          h in
      let (verified, source) = checked_candidate-IsVerified "npm" found.0 none _ found.1 c e1 in
      (verified, rw source)

  abbrev other_size : CodexCandidate → String × String → Bool
  other_size c paths = not (same_size (w.file_size paths.1) (w.file_size c.executable))

  abbrev same_sized : CodexCandidate → String × String → Result (String × String)
  same_sized c paths = raise_if (other_size c paths) (discovery_failure "size") >> ok paths

  -- A mirror is runnable, and it is a file beneath the root of the mirrors.
  abbrev IsMirror : Option String → String → CodexCandidate → Type 0
  IsMirror anchor root c =
      IsRunnable w c
      × (c.source ≡ "appx-mirror")
      × ((relative : List String) × (canonical_regular_beneath w anchor root relative
            ≡ ok (c.package_root, c.executable)))

  mirror_paths_beneath :
      (anchor : Option String) (root : String) (c : CodexCandidate) (relative : List String)
      (paths : String × String)
      → mirror_paths w anchor root c relative ≡ ok paths
      → canonical_regular_beneath w anchor root relative ≡ ok paths
  unfolding mirror_paths
  mirror_paths_beneath anchor root c relative paths h =
      let (found, h1, e1) =
        bind_returned (canonical_regular_beneath w anchor root relative) (same_sized c) h in
      let (_, returned) =
        then_returned (raise_if (other_size c found) (discovery_failure "size")) (ok found) e1 in
      h1 ∙ returned

  matching_mirror-IsRunnable :
      (c : CodexCandidate) (paths : String × String) (m : CodexCandidate)
      → matching_mirror w c paths ≡ ok m
      → IsRunnable w m × (m.source ≡ "appx-mirror") × (paths ≡ (m.package_root, m.executable))
  unfolding matching_mirror
  matching_mirror-IsRunnable c paths m h =
      let (digest, h1, e1) = bind_returned (executable_sha256 w paths.1) (after_hash w c paths) h in
      let (h2, e2) = then_returned (raise_if (not (str_eq digest c.executable_sha256)) _) _ e1 in
      let (h3, e3) = then_returned (require_pe_version w paths.1 c.version) _ e2 in
      let (h4, e4) = then_returned (raise_if (not (satisfies_policy (w.trust paths.1))) _) _ e3 in
      let same : mirror_of c paths ≡ m = cc in
      let bytes : digest ≡ c.executable_sha256 =
        (eq_iff digest c.executable_sha256).0
          (raise_if_passed (str_eq digest c.executable_sha256) _ h2) in
      subst
        (λ x.
          IsRunnable w x × (x.source ≡ "appx-mirror") × (paths ≡ (x.package_root, x.executable)))
        same
        (
          (
            record {
              signed = raise_if_passed (satisfies_policy (w.trust paths.1)) _ h4;
              version = h3;
              bytes = h1 ∙ ap ok bytes;
            },
            refl,
          ),
          refl,
          refl,
        )

  add_found-All :
      {P : CodexCandidate → Type 0} (r : Result CodexCandidate) (cs : List CodexCandidate)
      → ((c : CodexCandidate) → r ≡ ok c → P c)
      → All P cs
      → All P (add_found r cs)
  add_found-All (err e) cs f ps = ps
  add_found-All (ok c) cs f ps = (f c refl, ps)

  mirrors_at-All :
      (anchor : Option String) (root : String) (c : CodexCandidate) (places : List (List String))
      → All (IsMirror anchor root) (mirrors_at w anchor root c places)
  unfolding mirrors_at mirror_at
  mirrors_at-All anchor root c [] = tt
  mirrors_at-All anchor root c (place ∷ places) =
      add_found-All (mirror_at w anchor root c place) (mirrors_at w anchor root c places)
        (λ m h.
          let (paths, h1, e1) =
            bind_returned (mirror_paths w anchor root c place) (matching_mirror w c) h in
          let (runnable, source, same) = matching_mirror-IsRunnable c paths m e1 in
          let beneath = mirror_paths_beneath anchor root c place paths h1 in
          (runnable, source, (place, beneath ∙ ap ok same)))
        (mirrors_at-All anchor root c places)

  mirror_list-All :
      (c : CodexCandidate) (anchor : Option String) (root : String) (ms : List CodexCandidate)
      → mirror_list w c anchor root ≡ ok ms
      → All (IsMirror anchor root) ms
  unfolding mirror_list
  mirror_list-All c anchor root ms h =
      let (h1, e1) =
        then_returned
          (raise_if (not (str_eq c.source "appx") || not (is_hex_text 64 c.executable_sha256)) _) _
          h in
      let (h2, e2) = then_returned (reject_reparse_chain w anchor root) _ e1 in
      let (children, h3, e3) =
        bind_returned (or_failure "Codex mirror root unavailable" (w.children root))
          (λ (ns : List String). ok (mirrors_at w anchor root c (mirror_places ns))) e2 in
      let same : mirrors_at w anchor root c (mirror_places children) ≡ ms = cc in
      subst (All (IsMirror anchor root)) same
        (mirrors_at-All anchor root c (mirror_places children))

  non_empty_same : (cs ds : List CodexCandidate) → non_empty cs ≡ ok ds → cs ≡ ds
  non_empty_same [] ds h = cc
  non_empty_same (c ∷ cs) ds h = cc

  appx_runnable_mirror-IsMirror :
      (c : CodexCandidate) (anchor : Option String) (root : String) (m : CodexCandidate)
      → appx_runnable_mirror w c anchor root ≡ ok m
      → IsMirror anchor root m
  unfolding appx_runnable_mirror
  appx_runnable_mirror-IsMirror c anchor root m h =
      let (ms, h1, e1) =
        bind_returned (mirror_list w c anchor root)
          (λ (l : List CodexCandidate). non_empty l >>= select_candidate w.ordinal_lt) h in
      let (ns, h2, e2) = bind_returned (non_empty ms) (select_candidate w.ordinal_lt) e1 in
      select_candidate-All w.ordinal_lt (IsMirror anchor root) ns m
        (subst (All (IsMirror anchor root)) (non_empty_same ms ns h2)
          (mirror_list-All c anchor root ms h1))
        e2

  -- The candidate is that of npm, or it is a file beneath the root of the mirrors.
  abbrev pub IsPlaced :
      Option String → Option String → Option String → Option String → CodexCandidate → Type 0
  IsPlaced npm_root npm_anchor mirror_root mirror_anchor c =
      ((root : String) × (npm_root ≡ some root) × (npm_candidate w npm_anchor root ≡ ok c))
      ⊎ ((root : String) × (mirror_root ≡ some root)
          × (c.source ≡ "appx-mirror")
          × ((relative : List String) × (canonical_regular_beneath w mirror_anchor root relative
                ≡ ok (c.package_root, c.executable))))

  module _ (npm_root npm_anchor mirror_root mirror_anchor : Option String) where
    abbrev IsFound : CodexCandidate → Type 0
    IsFound c = IsRunnable w c × IsPlaced npm_root npm_anchor mirror_root mirror_anchor c

    appx_found-All :
        (a root : Option String) (rs : List AppxRecord)
        → mirror_root ≡ root
        → All IsFound (appx_found w a mirror_anchor root rs)
    unfolding appx_found
    appx_found-All a root [] e = tt
    appx_found-All a none (r ∷ rs) e = appx_found-All a none rs e
    appx_found-All a (some root) (r ∷ rs) e =
        add_found-All (appx_candidate w a r >>= λ x. appx_runnable_mirror w x mirror_anchor root)
          (appx_found w a mirror_anchor (some root) rs)
          (λ m h.
            let (x, h1, e1) =
              bind_returned (appx_candidate w a r)
                (λ (y : CodexCandidate). appx_runnable_mirror w y mirror_anchor root) h in
            let (runnable, source, (relative, beneath)) =
              appx_runnable_mirror-IsMirror x mirror_anchor root m e1 in
            (runnable, inr (root, e, source, (relative, beneath))))
          (appx_found-All a (some root) rs e)

    npm_found-All :
        (root : Option String) (cs : List CodexCandidate)
        → npm_root ≡ root
        → All IsFound cs
        → All IsFound (npm_found w npm_anchor root cs)
    unfolding npm_found
    npm_found-All none cs e ps = ps
    npm_found-All (some root) cs e ps =
        add_found-All (npm_candidate w npm_anchor root) cs
          (λ c h. (npm_candidate-IsRunnable npm_anchor root c h, inl (root, e, h))) ps

-- Whatever the sources hold, a candidate that the search returns has an executable whose signature
-- satisfies the policy, whose own version, where it has one, is that of its package, and whose bytes
-- have the hash that the candidate carries; and the candidate is the one of the npm package, or its
-- executable and its root are what the check of paths returned for a place beneath the folder of the
-- mirrors.
pub discover_from_sources-IsRunnable :
    (w : Windows) (npm_root npm_anchor appx_anchor mirror_root mirror_anchor : Option String)
    (records : List AppxRecord) (c : CodexCandidate)
    → discover_from_sources w npm_root npm_anchor appx_anchor mirror_root mirror_anchor records
      ≡ ok c
    → IsRunnable w c × IsPlaced w npm_root npm_anchor mirror_root mirror_anchor c
unfolding discover_from_sources
discover_from_sources-IsRunnable w npm_root npm_anchor appx_anchor mirror_root mirror_anchor records
      c h =
    select_candidate-All w.ordinal_lt (IsFound w npm_root npm_anchor mirror_root mirror_anchor) _ c
      (npm_found-All w npm_root npm_anchor mirror_root mirror_anchor npm_root _ refl (
        appx_found-All w npm_root npm_anchor mirror_root mirror_anchor appx_anchor mirror_root
          records refl))
      h
