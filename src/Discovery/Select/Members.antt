-- ===== src/Discovery/Select/Members.antt =====
-- What is true of every candidate is true of the one that is selected.
use limit_halo.Prelude.{String, Bool, true, false, List, [], ◌∷◌, All, ◌≡◌, if◌then◌else◌}
use mathlib.Core.Path.{subst}
use limit_halo.Prelude.Result.{Result, ok, ◌>>=◌, bind_returned}
use limit_halo.Discovery.Select.{
  CodexCandidate, select_candidate, sort_candidates, insert_candidate, is_before, first_of,
}

module _ {ℓ} (lt : String → String → Result Bool) (P : CodexCandidate → Type ℓ) where
  -- A candidate that is put before or behind another one.
  insert_step :
      (c d : CodexCandidate) (ds es : List CodexCandidate) (earlier : Bool)
      → ((rest : List CodexCandidate) → insert_candidate lt c ds ≡ ok rest → All P rest)
      → P c
      → All P (d ∷ ds)
      → (if earlier then (insert_candidate lt c ds >>= λ rest. ok (d ∷ rest)) else ok (c ∷ d ∷ ds))
        ≡ ok es
      → All P es
  insert_step c d ds es true below p ps h =
      let (rest, h1, e1) =
        bind_returned (insert_candidate lt c ds) (λ (r : List CodexCandidate). ok (d ∷ r)) h in
      let same : d ∷ rest ≡ es = cc in subst (All P) same (ps.0, below rest h1)
  insert_step c d ds es false below p ps h =
      let same : c ∷ d ∷ ds ≡ es = cc in subst (All P) same (p, ps)

  pub insert_candidate-All :
      (c : CodexCandidate) (ds es : List CodexCandidate)
      → P c
      → All P ds
      → insert_candidate lt c ds ≡ ok es
      → All P es
  unfolding insert_candidate
  insert_candidate-All c [] es p ps h = let same : c ∷ [] ≡ es = cc in subst (All P) same (p, tt)
  insert_candidate-All c (d ∷ ds) es p ps h =
      let (earlier, h1, e1) =
        bind_returned (is_before lt d c)
          (λ (b : Bool).
            if b then (insert_candidate lt c ds >>= λ rest. ok (d ∷ rest)) else ok (c ∷ d ∷ ds))
          h in
      insert_step c d ds es earlier (λ rest e. insert_candidate-All c ds rest p ps.1 e) p ps e1

  pub sort_candidates-All :
      (cs es : List CodexCandidate) → All P cs → sort_candidates lt cs ≡ ok es → All P es
  unfolding sort_candidates
  sort_candidates-All [] es ps h = let same : [] ≡ es = cc in subst (All P) same tt
  sort_candidates-All (c ∷ cs) es ps h =
      let (sorted, h1, e1) = bind_returned (sort_candidates lt cs) (insert_candidate lt c) h in
      insert_candidate-All c sorted es ps.0 (sort_candidates-All cs sorted ps.1 h1) e1

  first_of-All :
      (cs : List CodexCandidate) (c : CodexCandidate) → All P cs → first_of cs ≡ ok c → P c
  first_of-All [] c ps h = cc
  first_of-All (d ∷ ds) c ps h = let same : d ≡ c = cc in subst P same ps.0

  pub select_candidate-All :
      (cs : List CodexCandidate) (c : CodexCandidate)
      → All P cs
      → select_candidate lt cs ≡ ok c
      → P c
  unfolding select_candidate
  select_candidate-All cs c ps h =
      let (sorted, h1, e1) = bind_returned (sort_candidates lt cs) first_of h in
      first_of-All sorted c (sort_candidates-All cs sorted ps h1) e1
