-- ===== src/Updates/Discover/Entries.antt =====
-- What each entry of the page gives.
use mathlib.Core.Path.{subst}
use limit_halo.Prelude.{
  String, true, false, Option, none, some, List, [], ◌∷◌, All, ◌≡◌, ◌⊎◌, inl, inr, refl, ap, arith,
  if◌then◌else◌, if_holds,
}
use limit_halo.Prelude.Result.{Result, ok, err, ◌>>=◌, bind_returned}
use limit_halo.Json.{Value, Fields, null, bool, int, float, str, arr, obj, get}
use limit_halo.Updates.{Asset, Release}
use limit_halo.Updates.Tags.{Tag, TagOrder, order_lt, parse_tag}
use limit_halo.Updates.Releases.{Urls, RawAsset}
use limit_halo.Updates.Discover.{
  read_items, read_item, read_tagged, read_newer, newer_assets, validate_release, release_with,
  tag_of_value, bool_or_fail, text_of, seen_after, with_found,
}

abbrev order_of_tag : Result Tag → Option TagOrder
order_of_tag (ok t) = some t.order
order_of_tag (err e) = none

abbrev offered_by : Value → Fields → Option TagOrder
offered_by (bool false) fs = order_of_tag (tag_of_value (get "tag_name" fs))
offered_by _ fs = none

-- The order of the release that an entry of the page offers: no draft, with a tag that is supported.
abbrev pub offered : Value → Option TagOrder
offered (obj fs) = offered_by (get "draft" fs) fs
offered _ = none

-- No entry offers a later release.
abbrev pub IsLatest : TagOrder → List Value → Type 0
IsLatest best = All (λ v. (o : TagOrder) → offered v ≡ some o → order_lt best o ≡ false)

-- What the answer says of the entries of the page.
abbrev pub IsNewest : TagOrder → List Value → Option Release → Type 0
IsNewest current items none = IsLatest current items
IsNewest current items (some r) =
    (t : Tag) × (parse_tag r.tag ≡ ok t)
    × (order_lt current t.order ≡ true)
    × IsLatest t.order items

pub order_trans :
    (a b c : TagOrder) → order_lt a b ≡ false → order_lt b c ≡ false → order_lt a c ≡ false
order_trans a b c h k = ground arith

pub order_irrefl : (a : TagOrder) → order_lt a a ≡ false
order_irrefl a = ground arith

pub order_asym : (a b : TagOrder) → order_lt a b ≡ true → order_lt b a ≡ false
order_asym a b h = ground arith

-- A candidate: its order is that of its tag, and later than that of the program.
abbrev pub IsCandidate : TagOrder → TagOrder × Release → Type 0
IsCandidate current c =
    (order_lt current c.0 ≡ true) × ((t : Tag) × (parse_tag (c.1).tag ≡ ok t) × (t.order ≡ c.0))

-- One of the candidates has this order.
unfoldable pub Has : TagOrder → List (TagOrder × Release) → Type 0
Has o [] = ⊥
Has o (c ∷ cs) = (c.0 ≡ o) ⊎ Has o cs

-- What one entry gives.
Entry : TagOrder → Value → Option (TagOrder × Release) → Type 0
unfolding Has
Entry current v none = (o : TagOrder) → offered v ≡ some o → order_lt current o ≡ false
Entry current v (some c) = IsCandidate current c × ((o : TagOrder) → offered v ≡ some o → c.0 ≡ o)

text_of_tag : (v : Value) (t : Tag) → tag_of_value v ≡ ok t → parse_tag (text_of v) ≡ ok t
text_of_tag (str s) t h = h
text_of_tag null t h = cc
text_of_tag (bool b) t h = cc
text_of_tag (int n) t h = cc
text_of_tag (float f) t h = cc
text_of_tag (arr vs) t h = cc
text_of_tag (obj fs) t h = cc

module _ (u : Urls) where
  newer-Entry :
      (current : TagOrder) (seen : List String) (fs : Fields) (t : Tag)
      (found : Option (TagOrder × Release)) (v : Value)
      → order_lt current t.order ≡ true
      → tag_of_value (get "tag_name" fs) ≡ ok t
      → ((o : TagOrder) → offered v ≡ some o → t.order ≡ o)
      → read_newer u seen fs t ≡ ok found
      → Entry current v found
  unfolding read_newer Entry
  newer-Entry current seen fs t found v later tag same h =
      let (raw, h1, e1) =
        bind_returned (newer_assets u seen fs t)
          (λ (r : List RawAsset).
            validate_release u t.numeric (text_of (get "tag_name" fs)) (get "html_url" fs) r
            >>= λ assets. ok (some (t.order, release_with t fs assets)))
          h in
      let (assets, h2, e2) =
        bind_returned
          (validate_release u t.numeric (text_of (get "tag_name" fs)) (get "html_url" fs) raw)
          (λ (a : List Asset). ok (some (t.order, release_with t fs a))) e1 in
      let given : some (t.order, release_with t fs assets) ≡ found = cc in
      subst (Entry current v) given
        ((later, (t, text_of_tag (get "tag_name" fs) t tag, refl)), same)

  tagged-Entry :
      (current : TagOrder) (seen : List String) (fs : Fields) (r : Result Tag)
      (found : Option (TagOrder × Release)) (v : Value)
      → tag_of_value (get "tag_name" fs) ≡ r
      → offered v ≡ order_of_tag r
      → read_tagged u current seen fs r ≡ ok found
      → Entry current v found
  unfolding Entry
  tagged-Entry current seen fs (err e) found v tag offer h =
      let given : none ≡ found = cc in subst (Entry current v) given (λ o f. absurd (cc))
  tagged-Entry current seen fs (ok t) found v tag offer h =
      if_holds (λ (r : Result (Option (TagOrder × Release))). r ≡ ok found → Entry current v found)
        (order_lt current t.order) (read_newer u seen fs t) (ok none)
        (λ later k. newer-Entry current seen fs t found v later tag (λ o f. cc) k)
        (λ later k.
          let given : none ≡ found = cc in
          subst (Entry current v) given (λ o f.
            let same : t.order ≡ o = cc in subst (λ x. order_lt current x ≡ false) same later))
        h

  -- By the draft mark of the entry.
  draft-Entry :
      (current : TagOrder) (seen : List String) (fs : Fields) (mark : Value)
      (found : Option (TagOrder × Release))
      → get "draft" fs ≡ mark
      → (bool_or_fail "Invalid GitHub release entry" mark >>= λ draft.
          if draft
          then ok none
          else read_tagged u current seen fs (tag_of_value (get "tag_name" fs)))
        ≡ ok found
      → Entry current (obj fs) found
  unfolding Entry
  draft-Entry current seen fs (bool true) found m h =
      let given : none ≡ found = cc in
      subst (Entry current (obj fs)) given
        (λ o f. absurd (let gone : offered (obj fs) ≡ none = ap (λ x. offered_by x fs) m in cc))
  draft-Entry current seen fs (bool false) found m h =
      tagged-Entry current seen fs (tag_of_value (get "tag_name" fs)) found (obj fs) refl
        (ap (λ x. offered_by x fs) m) h
  draft-Entry current seen fs null found m h = cc
  draft-Entry current seen fs (int n) found m h = cc
  draft-Entry current seen fs (float f) found m h = cc
  draft-Entry current seen fs (str s) found m h = cc
  draft-Entry current seen fs (arr vs) found m h = cc
  draft-Entry current seen fs (obj gs) found m h = cc

  item-Entry :
      (current : TagOrder) (seen : List String) (v : Value) (found : Option (TagOrder × Release))
      → read_item u current seen v ≡ ok found
      → Entry current v found
  unfolding read_item
  item-Entry current seen (obj fs) found h =
      draft-Entry current seen fs (get "draft" fs) found refl h
  item-Entry current seen null found h = cc
  item-Entry current seen (bool b) found h = cc
  item-Entry current seen (int n) found h = cc
  item-Entry current seen (float f) found h = cc
  item-Entry current seen (str s) found h = cc
  item-Entry current seen (arr vs) found h = cc

  -- An entry that offers an order no later than the program's, or that of a candidate.
  abbrev pub Covered : TagOrder → List (TagOrder × Release) → Value → Type 0
  Covered current cs v =
      (o : TagOrder) → offered v ≡ some o → (order_lt current o ≡ false) ⊎ Has o cs

  Entry-Covered :
      (current : TagOrder) (v : Value) (found : Option (TagOrder × Release))
      (rest : List (TagOrder × Release))
      → Entry current v found
      → Covered current (with_found found rest) v
  unfolding Entry Has
  Entry-Covered current v none rest e o f = inl (e o f)
  Entry-Covered current v (some c) rest e o f = inr (inl (e.1 o f))

  Covered-more :
      (current : TagOrder) (found : Option (TagOrder × Release)) (cs : List (TagOrder × Release))
      (vs : List Value)
      → All (Covered current cs) vs
      → All (Covered current (with_found found cs)) vs
  unfolding Has
  Covered-more current none cs vs h = h
  Covered-more current (some c) cs [] h = tt
  Covered-more current (some c) cs (v ∷ vs) h = (
    λ o f. elim (h.0 o f) [ inl x ↦ inl x | inr x ↦ inr (inr x) ],
    Covered-more current (some c) cs vs h.1,
  )

  Entry-candidates :
      (current : TagOrder) (v : Value) (found : Option (TagOrder × Release))
      (rest : List (TagOrder × Release))
      → Entry current v found
      → All (IsCandidate current) rest
      → All (IsCandidate current) (with_found found rest)
  unfolding Entry
  Entry-candidates current v none rest e h = h
  Entry-candidates current v (some c) rest e h = (e.0, h)

  pub items-Covered :
      (current : TagOrder) (seen : List String) (vs : List Value) (cs : List (TagOrder × Release))
      → read_items u current seen vs ≡ ok cs
      → All (Covered current cs) vs × All (IsCandidate current) cs
  unfolding read_items
  items-Covered current seen [] cs h =
      let given : [] ≡ cs = cc in (tt, subst (All (IsCandidate current)) given tt)
  items-Covered current seen (v ∷ vs) cs h =
      let (found, h1, e1) =
        bind_returned (read_item u current seen v)
          (λ (f : Option (TagOrder × Release)).
            read_items u current (seen_after seen f) vs >>= λ rest. ok (with_found f rest))
          h in
      let (rest, h2, e2) =
        bind_returned (read_items u current (seen_after seen found) vs)
          (λ (r : List (TagOrder × Release)). ok (with_found found r)) e1 in
      let given : with_found found rest ≡ cs = cc in
      let entry = item-Entry current seen v found h1 in
      let (covered, candidates) = items-Covered current (seen_after seen found) vs rest h2 in
      (
        subst (λ x. All (Covered current x) (v ∷ vs)) given
            (Entry-Covered current v found rest entry, Covered-more current found rest vs covered),
        subst (All (IsCandidate current)) given
            (Entry-candidates current v found rest entry candidates),
      )
