-- ===== src/Model/Store/Snapshot.antt =====
-- What a reader of the store sees.
use limit_halo.Prelude.{
  ◌∙◌, ℕ, suc, ◌≤◌, ◌≡◌, refl, String, List, [], ◌∷◌, map, arith, leb, length, inl, inr, Bool-cases,
  ap,
}
use limit_halo.Prelude.Result.{ok}
use limit_halo.Dict.{Dict}
use limit_halo.Dict.Items.{AllItems, AllItems-lookup}
use limit_halo.Model.Metric.{Metric, claude_keys, stale_if_needed}
use limit_halo.Model.Store.{
  MetricStore, new_store, insert_sorted, sort_codex, second_parts, select_keys, found, snapshot,
}
use limit_halo.Model.Store.Calls.{Call, run}
use limit_halo.Model.Store.Invariant.{IsConsistent, IsCodexEntry, AllCodex, IsClaudeEntry, AllFound}
use limit_halo.Model.Store.Consistency.Calls.{AllValidCalls, run-IsConsistent}

-- Windows that do not get shorter along the list.
abbrev pub IsAscending : List Metric → Type 0
IsAscending [] = Unit
IsAscending (m ∷ []) = Unit
IsAscending (m ∷ n ∷ ms) = (m.window_duration_mins ≤ n.window_duration_mins) × IsAscending (n ∷ ms)

abbrev IsSortedCodex : List (ℕ × Metric) → Type 0
IsSortedCodex [] = Unit
IsSortedCodex (p ∷ []) = Unit
IsSortedCodex (p ∷ q ∷ ps) = (p.0 ≤ q.0) × IsSortedCodex (q ∷ ps)

insert_sorted-IsSortedCodex :
    (p : ℕ × Metric) (ps : List (ℕ × Metric))
    → IsSortedCodex ps
    → IsSortedCodex (insert_sorted p ps)
unfolding insert_sorted
insert_sorted-IsSortedCodex p [] h = tt
insert_sorted-IsSortedCodex p (q ∷ []) h = ground arith
insert_sorted-IsSortedCodex p (q ∷ r ∷ ps) h =
    ground (arith, insert_sorted-IsSortedCodex p (r ∷ ps) h.1)

sort_codex-IsSortedCodex : (ps : List (ℕ × Metric)) → IsSortedCodex (sort_codex ps)
unfolding sort_codex
sort_codex-IsSortedCodex [] = tt
sort_codex-IsSortedCodex (p ∷ ps) =
    insert_sorted-IsSortedCodex p (sort_codex ps) (sort_codex-IsSortedCodex ps)

insert_sorted-AllCodex :
    (d : ℕ) (m : Metric) (ps : List (ℕ × Metric))
    → IsCodexEntry d m
    → AllCodex ps
    → AllCodex (insert_sorted (d, m) ps)
unfolding insert_sorted
insert_sorted-AllCodex d m [] e h = (e, tt)
insert_sorted-AllCodex d m ((d', m') ∷ ps) e h = elim (Bool-cases (leb d d')) [
  | inl before ↦ rw before (e, h)
  | inr after ↦ rw after (h.0, insert_sorted-AllCodex d m ps e h.1)
]

sort_codex-AllCodex : (ps : List (ℕ × Metric)) → AllCodex ps → AllCodex (sort_codex ps)
unfolding sort_codex
sort_codex-AllCodex [] h = tt
sort_codex-AllCodex ((d, m) ∷ ps) h =
    insert_sorted-AllCodex d m (sort_codex ps) h.0 (sort_codex-AllCodex ps h.1)

length-insert_sorted :
    (p : ℕ × Metric) (ps : List (ℕ × Metric)) → length (insert_sorted p ps) ≡ suc (length ps)
unfolding insert_sorted
length-insert_sorted p [] = refl
length-insert_sorted p (q ∷ ps) = ground (arith, length-insert_sorted p ps)

length-sort_codex : (ps : List (ℕ × Metric)) → length (sort_codex ps) ≡ length ps
unfolding sort_codex
length-sort_codex [] = refl
length-sort_codex (p ∷ ps) =
    omega (arith, length-insert_sorted p (sort_codex ps), length-sort_codex ps)

-- The metrics that a reader gets of Codex.
abbrev shown_codex : ℕ → List (ℕ × Metric) → List Metric
shown_codex now ps = map (stale_if_needed now) (second_parts ps)

window-stale :
    (now : ℕ) (m : Metric) → (stale_if_needed now m).window_duration_mins ≡ m.window_duration_mins
unfolding stale_if_needed
window-stale now m = ground arith

shown-IsAscending :
    (now : ℕ) (ps : List (ℕ × Metric))
    → AllCodex ps
    → IsSortedCodex ps
    → IsAscending (shown_codex now ps)
shown-IsAscending now [] h sorted = tt
shown-IsAscending now ((d, m) ∷ []) h sorted = tt
shown-IsAscending now ((d, m) ∷ (e, n) ∷ ps) h sorted = (
  omega (arith, window-stale now m, window-stale now n, h.0.0, h.1.0.0, sorted.0),
  shown-IsAscending now ((e, n) ∷ ps) h.1 sorted.1,
)

length-shown : (now : ℕ) (ps : List (ℕ × Metric)) → length (shown_codex now ps) ≡ length ps
length-shown now [] = refl
length-shown now ((d, m) ∷ ps) = ap suc (length-shown now ps)

-- The keys of the metrics that are found are the keys asked for.
select_keys_total :
    (ks : List String) (d : Dict Metric)
    → AllItems IsClaudeEntry d
    → AllFound ks d
    → (ms : List Metric) × (select_keys ks d ≡ ok ms) × (map (λ (m : Metric). m.key) ms ≡ ks)
unfolding select_keys
select_keys_total [] d h found = ([], refl, refl)
select_keys_total (k ∷ ks) d h ((m, e), rest) =
    let (ms, selected, same) = select_keys_total ks d h rest in
    (m ∷ ms, rw (e, selected), cc ((AllItems-lookup IsClaudeEntry k d h e).0, same))

key-stale : (now : ℕ) (m : Metric) → (stale_if_needed now m).key ≡ m.key
unfolding stale_if_needed
key-stale now m = ground arith

keys-shown :
    (now : ℕ) (ms : List Metric)
    → map (λ (m : Metric). m.key) (map (stale_if_needed now) ms) ≡ map (λ (m : Metric). m.key) ms
keys-shown now [] = refl
keys-shown now (m ∷ ms) = cc (key-stale now m, keys-shown now ms)

-- Whatever calls were made of a new store with metrics that the constructor made, a snapshot is
-- returned: at most two Codex metrics in the order of their windows, and the three Claude metrics
-- in the fixed order of their keys. No key is missing.
pub snapshot_total :
    (start : ℕ) (calls : List Call) (now : ℕ)
    → AllValidCalls calls
    → (codex : List Metric) × (claude : List Metric) × (snapshot (run (new_store start) calls) now
        ≡ ok (codex, claude))
      × (length codex ≤ 2)
      × IsAscending codex
      × (map (λ (m : Metric). m.key) claude ≡ claude_keys)
snapshot_total start calls now valid =
    let s : MetricStore = run (new_store start) calls in
    let c : IsConsistent s = run-IsConsistent start calls valid in
    let (ms, selected, same) =
      select_keys_total claude_keys s.claude c.claude_entries c.claude_found in
    (
      shown_codex now (sort_codex s.codex),
      map (stale_if_needed now) ms,
      unfold snapshot in rw selected,
      omega
          (arith, length-shown now (sort_codex s.codex), length-sort_codex s.codex, c.codex_count),
      shown-IsAscending now (sort_codex s.codex) (sort_codex-AllCodex s.codex c.codex_entries)
          (sort_codex-IsSortedCodex s.codex),
      keys-shown now ms ∙ same,
    )
