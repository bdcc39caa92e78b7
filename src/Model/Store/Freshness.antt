-- ===== src/Model/Store/Freshness.antt =====
-- The order in which the store accepts snapshots.
use limit_halo.Prelude.{
  ℕ, ◌≡◌, ◌≢◌, inl, inr, refl, true, false, Option, none, some, List, [], ◌∷◌, arith, Bool-cases,
}
use limit_halo.Json.{Value}
use limit_halo.Prelude.Result.{Result, ok, err}
use limit_halo.Model.Metric.{Metric}
use limit_halo.Model.Store.{
  accept_claude, Dict, commit_claude, accept_codex, commit_codex, MetricStore, Freshness,
  freshness_le, is_outdated, check_codex, check_claude, update_codex, update_claude, mark_provider,
  set_claude_disabled,
}
use limit_halo.Model.Store.Calls.{
  Call, update_codex_call, update_claude_call, mark_call, disable_call, step, run,
}

-- An update that is not accepted, because it raised or is not newer, changes nothing.
pub update_codex_unchanged :
    (s : MetricStore) (metrics : List Metric) (sequence : Value)
    → (update_codex s metrics sequence).0 ≢ ok true
    → (update_codex s metrics sequence).1 ≡ s
unfolding update_codex
update_codex_unchanged s metrics sequence h = ground arith

freshness_le_refl : (f : Freshness) → freshness_le f f ≡ true
freshness_le_refl f = ground arith

freshness_le_trans :
    (f g h : Freshness)
    → freshness_le f g ≡ true
    → freshness_le g h ≡ true
    → freshness_le f h ≡ true
freshness_le_trans f g h p q = ground arith

freshness_le_total : (f g : Freshness) → freshness_le f g ≡ false → freshness_le g f ≡ true
freshness_le_total f g p = ground arith

-- The newest accepted snapshot, if there is one, is not older than `f`.
abbrev pub AtLeast : Freshness → Option Freshness → Type 0
AtLeast f none = ⊥
AtLeast f (some g) = freshness_le f g ≡ true

-- `AtLeast` from the previous freshness to that of a newer snapshot.
AtLeast-newer :
    (f g : Freshness) (previous : Option Freshness)
    → AtLeast f previous
    → is_outdated previous g ≡ false
    → freshness_le f g ≡ true
unfolding is_outdated
AtLeast-newer f g none h e = absurd h
AtLeast-newer f g (some p) h e = freshness_le_trans f p g h (freshness_le_total g p e)

accept_codex_keeps :
    (s : MetricStore) (clean : List (ℕ × Metric)) (f g : Freshness)
    → AtLeast f s.accepted.codex
    → AtLeast f (accept_codex s clean g).1.accepted.codex
unfolding accept_codex
accept_codex_keeps s clean f g h = elim (Bool-cases (is_outdated s.accepted.codex g)) [
  | inl old ↦ rw old h
  | inr new ↦ rw new (AtLeast-newer f g s.accepted.codex h new)
]

commit_codex_keeps :
    (s : MetricStore) (checked : Result (List (ℕ × Metric) × Freshness)) (f : Freshness)
    → AtLeast f s.accepted.codex
    → AtLeast f (commit_codex s checked).1.accepted.codex
unfolding commit_codex
commit_codex_keeps s (err e) f h = h
commit_codex_keeps s (ok (clean, g)) f h = accept_codex_keeps s clean f g h

commit_claude_codex :
    (s : MetricStore) (checked : Result (Dict Metric × Freshness))
    → (commit_claude s checked).1.accepted.codex ≡ s.accepted.codex
unfolding commit_claude
commit_claude_codex s (err e) = refl
commit_claude_codex s (ok (values, g)) = ground arith

step_keeps_codex :
    (s : MetricStore) (c : Call) (f : Freshness)
    → AtLeast f s.accepted.codex
    → AtLeast f (step s c).accepted.codex
unfolding step update_codex update_claude mark_provider set_claude_disabled
step_keeps_codex s (update_codex_call metrics q) f h =
    commit_codex_keeps s (check_codex metrics q) f h
step_keeps_codex s (update_claude_call metrics q) f h =
    rw (commit_claude_codex s (check_claude metrics q)) h
step_keeps_codex s (mark_call provider st now code) f h = ground arith
step_keeps_codex s (disable_call now) f h = h

run_keeps_codex :
    (s : MetricStore) (calls : List Call) (f : Freshness)
    → AtLeast f s.accepted.codex
    → AtLeast f (run s calls).accepted.codex
unfolding run
run_keeps_codex s [] f h = h
run_keeps_codex s (c ∷ cs) f h = run_keeps_codex (step s c) cs f (step_keeps_codex s c f h)

AtLeast-outdated :
    (f : Freshness) (previous : Option Freshness)
    → is_outdated previous f ≡ true
    → AtLeast f previous
unfolding is_outdated
AtLeast-outdated f none e = cc
AtLeast-outdated f (some p) e = e

-- After a checked snapshot was offered, accepted or not, the accepted one is at least as new.
offered_codex :
    (s : MetricStore) (clean : List (ℕ × Metric)) (f : Freshness)
    → AtLeast f (accept_codex s clean f).1.accepted.codex
unfolding accept_codex
offered_codex s clean f = elim (Bool-cases (is_outdated s.accepted.codex f)) [
  | inl old ↦ rw old (AtLeast-outdated f s.accepted.codex old)
  | inr new ↦ rw new (freshness_le_refl f)
]

outdated_of_AtLeast :
    (f g : Freshness) (previous : Option Freshness)
    → AtLeast f previous
    → freshness_le g f ≡ true
    → is_outdated previous g ≡ true
unfolding is_outdated
outdated_of_AtLeast f g none h le = absurd h
outdated_of_AtLeast f g (some p) h le = freshness_le_trans g f p le h

-- Once a well-formed Codex snapshot was offered, no snapshot that is not newer is accepted, however
-- many calls of any methods come between: the later update returns `False`.
pub update_codex_monotone :
    (s : MetricStore) (metrics metrics' : List Metric) (q q' : Value) (calls : List Call)
    (clean clean' : List (ℕ × Metric)) (f g : Freshness)
    → check_codex metrics q ≡ ok (clean, f)
    → check_codex metrics' q' ≡ ok (clean', g)
    → freshness_le g f ≡ true
    → (update_codex (run (update_codex s metrics q).1 calls) metrics' q').0 ≡ ok false
unfolding update_codex
update_codex_monotone s metrics metrics' q q' calls clean clean' f g first later le =
    rw (first, later)
      (rw (outdated_of_AtLeast f g _ (run_keeps_codex _ calls f (offered_codex s clean f)) le) refl)

-- The same for Claude, whose freshness is forgotten when the provider is disabled.
abbrev pub NoDisable : List Call → Type 0
NoDisable [] = Unit
NoDisable (disable_call _ ∷ cs) = ⊥
NoDisable (_ ∷ cs) = NoDisable cs

commit_claude_keeps :
    (s : MetricStore) (checked : Result (Dict Metric × Freshness)) (f : Freshness)
    → AtLeast f s.accepted.claude
    → AtLeast f (commit_claude s checked).1.accepted.claude
unfolding commit_claude accept_claude
commit_claude_keeps s (err e) f h = h
commit_claude_keeps s (ok (values, g)) f h = elim (Bool-cases (is_outdated s.accepted.claude g)) [
  | inl old ↦ rw old h
  | inr new ↦ rw new (AtLeast-newer f g s.accepted.claude h new)
]

commit_codex_claude :
    (s : MetricStore) (checked : Result (List (ℕ × Metric) × Freshness))
    → (commit_codex s checked).1.accepted.claude ≡ s.accepted.claude
unfolding commit_codex
commit_codex_claude s (err e) = refl
commit_codex_claude s (ok (clean, g)) = ground arith

run_keeps_claude :
    (s : MetricStore) (calls : List Call) (f : Freshness)
    → NoDisable calls
    → AtLeast f s.accepted.claude
    → AtLeast f (run s calls).accepted.claude
unfolding run update_codex update_claude mark_provider
run_keeps_claude s [] f none_disabled h = h
run_keeps_claude s (update_codex_call metrics q ∷ cs) f none_disabled h =
    run_keeps_claude (step s (update_codex_call metrics q)) cs f none_disabled
      (rw (commit_codex_claude s (check_codex metrics q)) h)
run_keeps_claude s (update_claude_call metrics q ∷ cs) f none_disabled h =
    run_keeps_claude (step s (update_claude_call metrics q)) cs f none_disabled
      (commit_claude_keeps s (check_claude metrics q) f h)
run_keeps_claude s (mark_call provider st now code ∷ cs) f none_disabled h =
    run_keeps_claude (step s (mark_call provider st now code)) cs f none_disabled (ground arith)
run_keeps_claude s (disable_call now ∷ cs) f none_disabled h = absurd none_disabled

offered_claude :
    (s : MetricStore) (values : Dict Metric) (f : Freshness)
    → AtLeast f (accept_claude s values f).1.accepted.claude
unfolding accept_claude
offered_claude s values f = elim (Bool-cases (is_outdated s.accepted.claude f)) [
  | inl old ↦ rw old (AtLeast-outdated f s.accepted.claude old)
  | inr new ↦ rw new (freshness_le_refl f)
]

-- Once a well-formed Claude snapshot was offered, no snapshot that is not newer is accepted, however
-- many calls come between, as long as none of them disables Claude.
pub update_claude_monotone :
    (s : MetricStore) (items items' : List Metric) (q q' : Value) (calls : List Call)
    (values values' : Dict Metric) (f g : Freshness)
    → NoDisable calls
    → check_claude items q ≡ ok (values, f)
    → check_claude items' q' ≡ ok (values', g)
    → freshness_le g f ≡ true
    → (update_claude (run (update_claude s items q).1 calls) items' q').0 ≡ ok false
unfolding update_claude
update_claude_monotone s items items' q q' calls values values' f g none_disabled first later le =
    rw (first, later)
      (rw
        (outdated_of_AtLeast f g _
          (run_keeps_claude _ calls f none_disabled (offered_claude s values f)) le)
        refl)
