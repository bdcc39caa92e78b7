-- ===== src/Discovery/Select/Best.antt =====
-- The candidate that is selected is the best one.
use limit_halo.Prelude.{
  sym, ap, ◌∙◌, ==_iff, ap, ℕ, ◌<◌, String, Bool, true, false, not, Option, none, some, List, [],
  ◌∷◌, ◌==◌, ltb, All, ◌≡◌, ◌⊎◌, inl, inr, refl, arith, if◌then◌else◌, if_holds,
}
use mathlib.Core.Path.{subst}
use limit_halo.Prelude.Result.{Result, ok, ◌>>=◌, bind_returned}
use limit_halo.Discovery.Version.{Version, numbers_lt, same_numbers, version_lt, same_version}
use limit_halo.Discovery.Select.{
  CodexCandidate, source_priority, select_candidate, sort_candidates, insert_candidate, is_before,
  before_by, before_known, first_of,
}
use limit_halo.Discovery.Select.Members.{insert_candidate-All}

abbrev rank_of : Option ℕ → ℕ
rank_of none = 2
rank_of (some n) = n

-- The priority of the source: a mirror of the Store package, then npm, then any other.
abbrev pub rank : CodexCandidate → ℕ
rank c = rank_of (source_priority c.source)

-- A source of a higher priority, or of the same with numbers of the version that are not lower.
abbrev pub IsNoWorse : CodexCandidate → CodexCandidate → Type 0
IsNoWorse c d = (rank c < rank d) ⊎ (rank c ≡ rank d) × (numbers_lt c.version d.version ≡ false)

numbers_irrefl : (a : Version) → numbers_lt a a ≡ false
numbers_irrefl a = ground arith

numbers_trans :
    (a b c : Version) → numbers_lt a b ≡ false → numbers_lt b c ≡ false → numbers_lt a c ≡ false
numbers_trans a b c h k = ground arith

numbers_asym : (a b : Version) → numbers_lt a b ≡ true → numbers_lt b a ≡ false
numbers_asym a b h = ground arith

numbers_same : (a b : Version) → same_numbers a b ≡ true → numbers_lt a b ≡ false
numbers_same a b h = ground arith

numbers_same_back : (a b : Version) → same_numbers a b ≡ true → numbers_lt b a ≡ false
numbers_same_back a b h = ground arith

not_lower : (a b : Version) → version_lt a b ≡ false → numbers_lt a b ≡ false
unfolding version_lt
not_lower a b h = grind (arith, numbers_same a b)

lower : (a b : Version) → version_lt a b ≡ true → numbers_lt b a ≡ false
unfolding version_lt
lower a b h = grind (arith, numbers_same_back a b, numbers_asym a b)

same_version_numbers : (a b : Version) → same_version a b ≡ true → same_numbers a b ≡ true
unfolding same_version
same_version_numbers a b h = grind arith

IsNoWorse-refl : (c : CodexCandidate) → IsNoWorse c c
IsNoWorse-refl c = inr (refl, numbers_irrefl c.version)

IsNoWorse-trans : (c d e : CodexCandidate) → IsNoWorse c d → IsNoWorse d e → IsNoWorse c e
IsNoWorse-trans c d e (inl h) (inl k) = inl (omega (arith, h, k))
IsNoWorse-trans c d e (inl h) (inr k) = inl (omega (arith, h, k.0))
IsNoWorse-trans c d e (inr h) (inl k) = inl (omega (arith, h.0, k))
IsNoWorse-trans c d e (inr h) (inr k) =
    inr (h.0 ∙ k.0, numbers_trans c.version d.version e.version h.1 k.1)

not-true : (b : Bool) → not b ≡ true → b ≡ false
not-true true h = cc
not-true false h = refl

not-false : (b : Bool) → not b ≡ false → b ≡ true
not-false true h = refl
not-false false h = cc

module _ (lt : String → String → Result Bool) where
  -- What an answer of the comparison says.
  abbrev Says : CodexCandidate → CodexCandidate → Bool → Type 0
  Says d c true = IsNoWorse d c
  Says d c false = IsNoWorse c d

  differ-Says :
      (p q : ℕ) (d c : CodexCandidate) (answer : Bool)
      → rank d ≡ p
      → rank c ≡ q
      → (p == q) ≡ false
      → ltb p q ≡ answer
      → Says d c answer
  differ-Says p q d c true hd hc e h = inl (ground (arith, hd, hc))
  differ-Says p q d c false hd hc e h = inl (ground (arith, hd, hc))

  versions_say :
      (d c : CodexCandidate) (answer : Bool)
      → rank d ≡ rank c
      → not (version_lt d.version c.version) ≡ answer
      → Says d c answer
  versions_say d c true e h = inr (e, not_lower d.version c.version (not-true _ h))
  versions_say d c false e h = inr (sym e, lower d.version c.version (not-false _ h))

  same-Says :
      (d c : CodexCandidate) (answer : Bool)
      → rank d ≡ rank c
      → same_numbers d.version c.version ≡ true
      → Says d c answer
  same-Says d c true e h = inr (e, numbers_same d.version c.version h)
  same-Says d c false e h = inr (sym e, numbers_same_back d.version c.version h)

  known-Says :
      (p q : ℕ) (d c : CodexCandidate) (answer : Bool)
      → rank d ≡ p
      → rank c ≡ q
      → before_known lt p q d c ≡ ok answer
      → Says d c answer
  known-Says p q d c answer hd hc =
      if_holds (λ (r : Result Bool). r ≡ ok answer → Says d c answer) (not (p == q)) (ok (ltb p q))
        _ (λ e h. differ-Says p q d c answer hd hc (not-true _ e) (cc))
        (λ e.
          let equal : rank d ≡ rank c = hd ∙ (==_iff p q).0 (not-false _ e) ∙ sym hc in
          if_holds (λ (r : Result Bool). r ≡ ok answer → Says d c answer)
            (not (same_version d.version c.version)) (ok (not (version_lt d.version c.version)))
            (lt d.executable c.executable) (λ f h. versions_say d c answer equal (cc))
            (λ f h.
              same-Says d c answer equal
                (same_version_numbers d.version c.version (not-false _ f))))

  before-Says :
      (d c : CodexCandidate) (o r : Option ℕ) (answer : Bool)
      → source_priority d.source ≡ o
      → source_priority c.source ≡ r
      → before_by lt o r d c ≡ ok answer
      → Says d c answer
  before-Says d c none r answer hd hc h = cc
  before-Says d c (some p) none answer hd hc h = cc
  before-Says d c (some p) (some q) answer hd hc h =
      known-Says p q d c answer (ap rank_of hd) (ap rank_of hc) h

  -- The first of a list is no worse than the others.
  abbrev HeadIsBest : List CodexCandidate → Type 0
  HeadIsBest [] = Unit
  HeadIsBest (c ∷ cs) = All (IsNoWorse c) cs

  All-trans :
      (c d : CodexCandidate) (es : List CodexCandidate)
      → IsNoWorse c d
      → All (IsNoWorse d) es
      → All (IsNoWorse c) es
  All-trans c d [] h ps = tt
  All-trans c d (e ∷ es) h ps = (IsNoWorse-trans c d e h ps.0, All-trans c d es h ps.1)

  insert_best :
      (c d : CodexCandidate) (ds es : List CodexCandidate) (earlier : Bool)
      → HeadIsBest (d ∷ ds)
      → Says d c earlier
      → (if earlier then (insert_candidate lt c ds >>= λ rest. ok (d ∷ rest)) else ok (c ∷ d ∷ ds))
        ≡ ok es
      → HeadIsBest es
  insert_best c d ds es true best says h =
      let (rest, h1, e1) =
        bind_returned (insert_candidate lt c ds) (λ (r : List CodexCandidate). ok (d ∷ r)) h in
      let same : d ∷ rest ≡ es = cc in
      subst HeadIsBest same (insert_candidate-All lt (IsNoWorse d) c ds rest says best h1)
  insert_best c d ds es false best says h =
      let same : c ∷ d ∷ ds ≡ es = cc in subst HeadIsBest same (says, All-trans c d ds says best)

  insert_candidate_best :
      (c : CodexCandidate) (ds es : List CodexCandidate)
      → HeadIsBest ds
      → insert_candidate lt c ds ≡ ok es
      → HeadIsBest es
  unfolding insert_candidate is_before
  insert_candidate_best c [] es best h = let same : c ∷ [] ≡ es = cc in subst HeadIsBest same tt
  insert_candidate_best c (d ∷ ds) es best h =
      let (earlier, h1, e1) =
        bind_returned (is_before lt d c)
          (λ (b : Bool).
            if b then (insert_candidate lt c ds >>= λ rest. ok (d ∷ rest)) else ok (c ∷ d ∷ ds))
          h in
      insert_best c d ds es earlier best (before-Says d c _ _ earlier refl refl h1) e1

  sort_candidates_best :
      (cs es : List CodexCandidate) → sort_candidates lt cs ≡ ok es → HeadIsBest es
  unfolding sort_candidates
  sort_candidates_best [] es h = let same : [] ≡ es = cc in subst HeadIsBest same tt
  sort_candidates_best (c ∷ cs) es h =
      let (sorted, h1, e1) = bind_returned (sort_candidates lt cs) (insert_candidate lt c) h in
      insert_candidate_best c sorted es (sort_candidates_best cs sorted h1) e1

module _ (lt : String → String → Result Bool) (P : CodexCandidate → Type 0) where
  insert_back_step :
      (c d : CodexCandidate) (ds es : List CodexCandidate) (earlier : Bool)
      → ((rest : List CodexCandidate)
          → insert_candidate lt c ds ≡ ok rest
          → All P rest
          → P c × All P ds)
      → All P es
      → (if earlier then (insert_candidate lt c ds >>= λ rest. ok (d ∷ rest)) else ok (c ∷ d ∷ ds))
        ≡ ok es
      → P c × All P (d ∷ ds)
  insert_back_step c d ds es true below ps h =
      let (rest, h1, e1) =
        bind_returned (insert_candidate lt c ds) (λ (r : List CodexCandidate). ok (d ∷ r)) h in
      let same : es ≡ d ∷ rest = cc in
      let at : All P (d ∷ rest) = subst (All P) same ps in
      let (p, qs) = below rest h1 at.1 in (p, (at.0, qs))
  insert_back_step c d ds es false below ps h =
      let same : es ≡ c ∷ d ∷ ds = cc in
      let at : All P (c ∷ d ∷ ds) = subst (All P) same ps in (at.0, at.1)

  -- What is true of the sorted candidates is true of those that were sorted.
  insert_back :
      (c : CodexCandidate) (ds es : List CodexCandidate)
      → insert_candidate lt c ds ≡ ok es
      → All P es
      → P c × All P ds
  unfolding insert_candidate
  insert_back c [] es h ps =
      let same : es ≡ c ∷ [] = cc in let at : All P (c ∷ []) = subst (All P) same ps in (at.0, tt)
  insert_back c (d ∷ ds) es h ps =
      let (earlier, h1, e1) =
        bind_returned (is_before lt d c)
          (λ (b : Bool).
            if b then (insert_candidate lt c ds >>= λ rest. ok (d ∷ rest)) else ok (c ∷ d ∷ ds))
          h in
      insert_back_step c d ds es earlier (λ rest e qs. insert_back c ds rest e qs) ps e1

  sort_back : (cs es : List CodexCandidate) → sort_candidates lt cs ≡ ok es → All P es → All P cs
  unfolding sort_candidates
  sort_back [] es h ps = tt
  sort_back (c ∷ cs) es h ps =
      let (sorted, h1, e1) = bind_returned (sort_candidates lt cs) (insert_candidate lt c) h in
      let (p, qs) = insert_back c sorted es e1 ps in (p, sort_back cs sorted h1 qs)

first_best :
    (lt : String → String → Result Bool) (cs : List CodexCandidate) (c : CodexCandidate)
    → HeadIsBest lt cs
    → first_of cs ≡ ok c
    → All (IsNoWorse c) cs
first_best lt [] c best h = tt
first_best lt (d ∷ ds) c best h =
    let same : d ≡ c = cc in subst (λ x. All (IsNoWorse x) (d ∷ ds)) same (IsNoWorse-refl d, best)

-- The candidate that is selected is no worse than any other: each candidate has a source of a lower
-- priority, or the same priority and numbers of the version that are not higher.
pub select_candidate_best :
    (lt : String → String → Result Bool) (cs : List CodexCandidate) (c : CodexCandidate)
    → select_candidate lt cs ≡ ok c
    → All (IsNoWorse c) cs
unfolding select_candidate
select_candidate_best lt cs c h =
    let (sorted, h1, e1) = bind_returned (sort_candidates lt cs) first_of h in
    sort_back lt (IsNoWorse c) cs sorted h1
      (first_best lt sorted c (sort_candidates_best lt cs sorted h1) e1)
