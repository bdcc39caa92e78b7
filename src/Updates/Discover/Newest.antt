-- ===== src/Updates/Discover/Newest.antt =====
-- The release that is found is the newest one.
use mathlib.Core.Path.{subst}
use limit_halo.Prelude.Result.{◌>>◌}
use limit_halo.Prelude.{
  ◌∙◌, length, sym, ltb, if_both, String, true, false, Option, some, List, [], ◌∷◌, All, ◌≡◌, ◌⊎◌,
  inl, inr, if◌then◌else◌, if_holds,
}
use limit_halo.Prelude.Result.{
  update_error, then_returned, raise_if, Result, ok, ◌>>=◌, bind_returned,
}
use limit_halo.Json.{Items, Value, arr}
use limit_halo.Updates.{Release}
use limit_halo.Updates.Tags.{Tag, TagOrder, order_lt, parse_tag}
use limit_halo.Updates.Releases.{Urls}
use limit_halo.Updates.Discover.{newest_of, listed, newest, release_of, discover, read_items}
use limit_halo.Updates.Discover.Entries.{
  offered, IsLatest, IsNewest, IsCandidate, Has, order_trans, order_irrefl, order_asym,
  items-Covered,
}

-- No candidate is later than the newest one.
abbrev later_of : TagOrder × Release → TagOrder × Release → TagOrder × Release
later_of best c = if order_lt best.0 c.0 then c else best

later_of_not_before :
    (best c : TagOrder × Release)
    → (order_lt (later_of best c).0 best.0 ≡ false) × (order_lt (later_of best c).0 c.0 ≡ false)
later_of_not_before best c =
    if_holds
      (λ (x : TagOrder × Release). (order_lt x.0 best.0 ≡ false) × (order_lt x.0 c.0 ≡ false))
      (order_lt best.0 c.0) c best (λ e. (order_asym best.0 c.0 e, order_irrefl c.0))
      (λ e. (order_irrefl best.0, e))

newest_not_before :
    (best : TagOrder × Release) (cs : List (TagOrder × Release))
    → order_lt (newest best cs).0 best.0 ≡ false
unfolding newest
newest_not_before best [] = order_irrefl best.0
newest_not_before best (c ∷ cs) =
    order_trans (newest (later_of best c) cs).0 (later_of best c).0 best.0
      (newest_not_before (later_of best c) cs) (later_of_not_before best c).0

newest_latest :
    (best : TagOrder × Release) (cs : List (TagOrder × Release)) (o : TagOrder)
    → Has o (best ∷ cs)
    → order_lt (newest best cs).0 o ≡ false
unfolding newest Has
newest_latest best cs o (inl e) =
    subst (λ x. order_lt (newest best cs).0 x ≡ false) e (newest_not_before best cs)
newest_latest best [] o (inr h) = absurd h
newest_latest best (c ∷ cs) o (inr (inl e)) =
    subst (λ x. order_lt (newest (later_of best c) cs).0 x ≡ false) e
      (order_trans (newest (later_of best c) cs).0 (later_of best c).0 c.0
        (newest_not_before (later_of best c) cs) (later_of_not_before best c).1)
newest_latest best (c ∷ cs) o (inr (inr h)) = newest_latest (later_of best c) cs o (inr h)

newest_candidate :
    (P : TagOrder × Release → Type 0) (best : TagOrder × Release) (cs : List (TagOrder × Release))
    → P best
    → All P cs
    → P (newest best cs)
unfolding newest
newest_candidate P best [] p ps = p
newest_candidate P best (c ∷ cs) p ps =
    newest_candidate P (later_of best c) cs (if_both P (order_lt best.0 c.0) c best ps.0 p) ps.1

latest_lem :
    (current : TagOrder) (best : TagOrder × Release) (cs : List (TagOrder × Release))
    (vs : List Value)
    → order_lt current (newest best cs).0 ≡ true
    → All
        (λ v.
          (o : TagOrder) → offered v ≡ some o → (order_lt current o ≡ false) ⊎ Has o (best ∷ cs))
        vs
    → IsLatest (newest best cs).0 vs
latest_lem current best cs [] later h = tt
latest_lem current best cs (v ∷ vs) later h = (
  λ o f. elim (h.0 o f) [
    | inl e ↦
        order_trans (newest best cs).0 current o (order_asym current (newest best cs).0 later) e
    | inr has ↦ newest_latest best cs o has
  ],
  latest_lem current best cs vs later h.1,
)

none_lem :
    (current : TagOrder) (vs : List Value)
    → All (λ v. (o : TagOrder) → offered v ≡ some o → (order_lt current o ≡ false) ⊎ Has o []) vs
    → IsLatest current vs
unfolding Has
none_lem current [] h = tt
none_lem current (v ∷ vs) h =
    (λ o f. elim (h.0 o f) [ inl e ↦ e | inr has ↦ absurd has ], none_lem current vs h.1)

answer_lem :
    (current : TagOrder) (cs : List (TagOrder × Release)) (vs : List Value)
    → All (λ v. (o : TagOrder) → offered v ≡ some o → (order_lt current o ≡ false) ⊎ Has o cs) vs
    → All (IsCandidate current) cs
    → IsNewest current vs (release_of (newest_of cs))
answer_lem current [] vs covered candidates = none_lem current vs covered
answer_lem current (c ∷ cs) vs covered candidates =
    let (later, found) = newest_candidate (IsCandidate current) c cs candidates.0 candidates.1 in
    let (t, tag, same) = found in
    (
      t,
      tag,
      subst (λ x. order_lt current x ≡ true) (sym same) later,
      subst (λ x. IsLatest x vs) (sym same) (latest_lem current c cs vs later covered),
    )

abbrev after_size : Urls → Items → Tag → Result (Option Release)
after_size u items t =
    read_items u t.order [] (listed items) >>= λ cs. ok (release_of (newest_of cs))

abbrev after_tag : Urls → Items → Tag → Result (Option Release)
after_tag u items t =
    raise_if (ltb 100 (length (listed items))) (update_error "Invalid GitHub release list")
    >> after_size u items t

-- Of a page that is accepted, whatever the repository published: where a release is found, its tag
-- is supported and later than that of the program, and no entry of the page that is no draft and has
-- a supported tag is later than it; where none is found, no such entry is later than the program.
pub discover-IsNewest :
    (u : Urls) (current_tag : String) (current : Tag) (items : Items) (answer : Option Release)
    → parse_tag current_tag ≡ ok current
    → discover u current_tag (arr items) ≡ ok answer
    → IsNewest current.order (listed items) answer
unfolding discover
discover-IsNewest u current_tag current items answer tag h =
    let (t, h1, e1) = bind_returned (parse_tag current_tag) (after_tag u items) h in
    let (h2, e2) =
      then_returned (raise_if (ltb 100 (length (listed items))) _) (after_size u items t) e1 in
    let (cs, h3, e3) =
      bind_returned (read_items u t.order [] (listed items))
        (λ (c : List (TagOrder × Release)). ok (release_of (newest_of c))) e2 in
    let given : release_of (newest_of cs) ≡ answer = cc in
    let same : t ≡ current = (let e : ok t ≡ ok current = sym h1 ∙ tag in cc) in
    let (covered, candidates) = items-Covered u t.order [] (listed items) cs h3 in
    subst (λ x. IsNewest x.order (listed items) answer) same
      (subst (IsNewest t.order (listed items)) given
        (answer_lem t.order cs (listed items) covered candidates))
