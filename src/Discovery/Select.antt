-- ===== src/Discovery/Select.antt =====
-- src/limit_halo/codex_discovery.py: the order of candidates, and the one that is selected.
pub mod Members
pub mod Best
use limit_halo.Prelude.{
  ℕ, String, Bool, not, Option, none, some, List, [], ◌∷◌, ◌==◌, ltb, if◌then◌else◌, str_eq,
}
use limit_halo.Prelude.Result.{Result, ok, err, discovery_failure, ◌>>=◌}
use limit_halo.Discovery.Version.{Version, version_lt, same_version}

pub record CodexCandidate : Type 0 where
  pub source : String
  pub version : Version
  pub executable : String
  pub package_root : String
  pub publisher_id : Option String
  pub executable_sha256 : String

-- `source_priority`
unfoldable pub source_priority : String → Option ℕ
source_priority source =
    if str_eq source "appx-mirror" then some 0 else if str_eq source "npm" then some 1 else none

abbrev pub first_of : List CodexCandidate → Result CodexCandidate
first_of [] = err (discovery_failure "no trusted Codex candidate")
first_of (c ∷ cs) = ok c

module _ (ordinal_lt : String → String → Result Bool) where
  -- Candidates of known sources: the source, then the higher version, then the path.
  abbrev pub before_known : ℕ → ℕ → CodexCandidate → CodexCandidate → Result Bool
  before_known p q left right =
      if not (p == q)
      then ok (ltb p q)
      else if not (same_version left.version right.version)
      then ok (not (version_lt left.version right.version))
      else ordinal_lt left.executable right.executable

  abbrev pub before_by : Option ℕ → Option ℕ → CodexCandidate → CodexCandidate → Result Bool
  before_by (some p) (some q) left right = before_known p q left right
  before_by _ _ left right = err (discovery_failure "unknown Codex candidate source")

  -- `_compare_candidates(left, right) < 0`
  unfoldable pub is_before : CodexCandidate → CodexCandidate → Result Bool
  is_before left right =
      before_by (source_priority left.source) (source_priority right.source) left right

  -- `sorted`, which is stable: a candidate goes before those that are not before it.
  unfoldable pub insert_candidate :
      CodexCandidate → List CodexCandidate → Result (List CodexCandidate)
  insert_candidate c [] = ok (c ∷ [])
  insert_candidate c (d ∷ ds) =
      let below = insert_candidate c ds in
      is_before d c >>= λ earlier.
      if earlier then (below >>= λ rest. ok (d ∷ rest)) else ok (c ∷ d ∷ ds)

  unfoldable pub sort_candidates : List CodexCandidate → Result (List CodexCandidate)
  unfolding insert_candidate
  sort_candidates [] = ok []
  sort_candidates (c ∷ cs) = sort_candidates cs >>= insert_candidate c

  -- `select_candidate`
  unfoldable pub select_candidate : List CodexCandidate → Result CodexCandidate
  unfolding sort_candidates
  select_candidate values = sort_candidates values >>= first_of
