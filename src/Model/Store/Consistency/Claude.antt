-- ===== src/Model/Store/Consistency/Claude.antt =====
-- The Claude half of the store stays consistent.
use limit_halo.Prelude.{
  ◌∙◌, ap, ℕ, suc, ◌≡◌, refl, String, true, false, Option, none, some, List, [], ◌∷◌, arith, str_eq,
  eq_iff, length, All, any, all, mem, not, same_set,
}
use limit_halo.Prelude.Result.{ok}
use limit_halo.Json.{Value}
use limit_halo.Dict.{Dict, lookup, insert, keys, map_items, lookup-map_items}
use limit_halo.Dict.Items.{
  AllItems-lookup, AllItems, AllItems-insert, AllItems-map_items, lookup-mem,
}
use limit_halo.Model.Metric.{ProviderState, Metric, IsValid, claude_keys}
use limit_halo.Model.Store.{
  Freshness, by_key, check_claude, mark_metric, merge_metric, merge_claude,
}
use limit_halo.Model.Store.Invariant.{IsClaudeEntry, AllFound}

-- The items of an accepted update are Claude's.
abbrev AllClaude : List Metric → Type 0
AllClaude = All (λ m. (m.provider ≡ "claude") × IsValid m)

AllClaude-any :
    (items : List Metric)
    → All IsValid items
    → any (λ (m : Metric). not (str_eq m.provider "claude")) items ≡ false
    → AllClaude items
AllClaude-any [] valid h = tt
AllClaude-any (m ∷ ms) valid h =
    (((eq_iff _ _).0 (ground arith), valid.0), AllClaude-any ms valid.1 (ground arith))

by_key-AllItems :
    (d : Dict Metric) (items : List Metric)
    → AllItems IsClaudeEntry d
    → AllClaude items
    → AllItems IsClaudeEntry (by_key d items)
unfolding by_key
by_key-AllItems d [] h c = h
by_key-AllItems d (m ∷ ms) h c =
    by_key-AllItems (insert m.key m d) ms
      (AllItems-insert IsClaudeEntry m.key m d (refl, c.0.0, c.0.1) h) c.1

AllFound-mem :
    (ks : List String) (d : Dict Metric) → all (λ k. mem k (keys d)) ks ≡ true → AllFound ks d
AllFound-mem [] d h = tt
AllFound-mem (k ∷ ks) d h = (lookup-mem k d (ground arith), AllFound-mem ks d (ground arith))

pub record IsKeyed (d : Dict Metric) : Type 0 where
  pub entries : AllItems IsClaudeEntry d
  pub found : AllFound claude_keys d
  pub count : length d ≡ 3

-- What a successful check says of the items.
pub record IsChecked (items : List Metric) (values : Dict Metric) : Type 0 where
  pub three : length items ≡ 3
  pub collected : values ≡ by_key [] items
  pub no_duplicate : length (by_key [] items) ≡ 3
  pub exact_keys : same_set (keys (by_key [] items)) claude_keys ≡ true
  pub providers : any (λ (m : Metric). not (str_eq m.provider "claude")) items ≡ false

pub check_claude-IsChecked :
    (items : List Metric) (q : Value) (values : Dict Metric) (f : Freshness)
    → check_claude items q ≡ ok (values, f)
    → IsChecked items values
unfolding check_claude
check_claude-IsChecked items q values f h = record {
  three = ground arith;
  collected = ground arith;
  no_duplicate = ground arith;
  exact_keys = ground arith;
  providers = ground arith;
}

-- What `update_claude` has checked can replace the Claude entries.
pub check_claude-IsKeyed :
    (items : List Metric) (q : Value) (values : Dict Metric) (f : Freshness)
    → All IsValid items
    → check_claude items q ≡ ok (values, f)
    → IsKeyed values
check_claude-IsKeyed items q values f valid h =
    let c = check_claude-IsChecked items q values f h in
    rw c.collected (record {
      entries = by_key-AllItems [] items tt (AllClaude-any items valid c.providers);
      found = AllFound-mem claude_keys (by_key [] items) (ground (arith, c.exact_keys));
      count = c.no_duplicate;
    })

pub mark_metric-IsClaudeEntry :
    (st : ProviderState) (now : ℕ) (code : Option String) (k : String) (m : Metric)
    → IsClaudeEntry k m
    → IsClaudeEntry k (mark_metric st now code m)
unfolding mark_metric
mark_metric-IsClaudeEntry st now code k m h = (
  h.0,
  h.1,
  record {
    known_provider = h.2.known_provider;
    duration_positive = h.2.duration_positive;
    duration_bounded = h.2.duration_bounded;
    percent_in_range = h.2.percent_in_range;
  },
)

AllFound-map_items :
    (f : String → Metric → Metric) (ks : List String) (d : Dict Metric)
    → AllFound ks d
    → AllFound ks (map_items f d)
AllFound-map_items f [] d h = tt
AllFound-map_items f (k ∷ ks) d h =
    ((f k h.0.0, rw (lookup-map_items f k d, h.0.1)), AllFound-map_items f ks d h.1)

length-map_items :
    (f : String → Metric → Metric) (d : Dict Metric) → length (map_items f d) ≡ length d
unfolding map_items
length-map_items f [] = refl
length-map_items f ((k, m) ∷ d) = ap suc (length-map_items f d)

-- A change of the metrics that keeps each entry's key and provider.
pub map_items-IsKeyed :
    (f : String → Metric → Metric)
    → ((k : String) (m : Metric) → IsClaudeEntry k m → IsClaudeEntry k (f k m))
    → (d : Dict Metric) → IsKeyed d
    → IsKeyed (map_items f d)
map_items-IsKeyed f keep d h = record {
  entries = AllItems-map_items IsClaudeEntry IsClaudeEntry f keep d h.entries;
  found = AllFound-map_items f claude_keys d h.found;
  count = length-map_items f d ∙ h.count;
}

merge_metric-IsClaudeEntry :
    (k : String) (prior : Option Metric) (m : Metric)
    → ((p : Metric) → prior ≡ some p → IsClaudeEntry k p)
    → IsClaudeEntry k m
    → IsClaudeEntry k (merge_metric prior m)
unfolding merge_metric
merge_metric-IsClaudeEntry k none m old h = h
merge_metric-IsClaudeEntry k (some p) m old h = ground (arith, old p refl)

-- The merge with what the store had keeps the entries consistent.
pub merge_claude-IsKeyed :
    (old values : Dict Metric)
    → AllItems IsClaudeEntry old
    → IsKeyed values
    → IsKeyed (merge_claude old values)
unfolding merge_claude
merge_claude-IsKeyed old values olds news =
    map_items-IsKeyed (λ k m. merge_metric (lookup k old) m)
      (λ k m.
        merge_metric-IsClaudeEntry k (lookup k old) m
          (λ p. AllItems-lookup IsClaudeEntry k old olds))
      values news
