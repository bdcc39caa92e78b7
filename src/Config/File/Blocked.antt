-- ===== src/Config/File/Blocked.antt =====
-- A settings file that was rejected is preserved.
use limit_halo.Prelude.{ℕ, true, Option, none, List, [], ◌∷◌, ◌≡◌, ◌⊎◌, inl, inr, refl, All}
use limit_halo.Prelude.Result.{Result, ok, err, Error}
use limit_halo.Json.{Value}
use limit_halo.Config.{AppConfig}
use limit_halo.Config.Schema.{Platform}
use limit_halo.Config.File.{
  first_run, ConfigStore, Reading, Writing, revision, check_write_target, read_current,
  write_blocked, save, save_payload, payload_of, load, load_current, after_read,
}

-- A call of the store, with what the file system answers.
pub data Call : Type 0 where
  saving : AppConfig → Writing → Call
  loading : Reading → Writing → Call

module _ (p : Platform) (read_json : List ℕ → Option Value) where
  -- The store after a call, and what the call has put in place of the file.
  unfoldable pub call : Call → ConfigStore → ConfigStore × Option (List ℕ)
  call (saving c w) s = ((save p read_json c w s).store, (save p read_json c w s).replaced)
  call (loading r w) s = ((load p read_json r w s).store, (load p read_json r w s).replaced)

  unfoldable pub replacements : List Call → ConfigStore → List (Option (List ℕ))
  unfolding call
  replacements [] s = []
  replacements (c ∷ cs) s = (call c s).1 ∷ replacements cs (call c s).0

  -- A call that reads no valid file: a save, a load that fails, or one that finds no file.
  unfoldable pub IsUnread : Call → Type 0
  IsUnread (saving c w) = Unit
  IsUnread (loading r w) =
      (revision r.before ≡ ok none) ⊎ (e : Error) × (read_current p read_json r ≡ err e)

  -- A call that leaves the block, and the file.
  abbrev Preserves : ConfigStore × Option (List ℕ) → Type 0
  Preserves o = (write_blocked o.0 ≡ true) × (o.1 ≡ none)

  save_blocked :
      (o : Result (List ℕ)) (w : Writing) (s : ConfigStore)
      → write_blocked s ≡ true
      → Preserves
          ((save_payload p read_json o w s).store, (save_payload p read_json o w s).replaced)
  unfolding check_write_target
  save_blocked (err e) w s h = (h, refl)
  save_blocked (ok b) w s h = simp (h) (refl, refl)

  -- The file is gone: the block stays.
  load_gone :
      (w : Writing) (s : ConfigStore)
      → write_blocked s ≡ true
      → Preserves (
        (load_current p read_json (ok first_run) w s).store,
        (load_current p read_json (ok first_run) w s).replaced,
      )
  unfolding after_read
  load_gone w s h = (simp (h), refl)

  call_blocked :
      (c : Call) (s : ConfigStore) → IsUnread c → write_blocked s ≡ true → Preserves (call c s)
  unfolding call save load IsUnread read_current
  call_blocked (saving c w) s u h = save_blocked (payload_of p c) w s h
  call_blocked (loading r w) s (inl e) h = simp (e) (load_gone w s h)
  call_blocked (loading r w) s (inr (e, f)) h = simp (f) (refl, refl)

  pub replacements_blocked :
      (cs : List Call) (s : ConfigStore)
      → All IsUnread cs
      → write_blocked s ≡ true
      → All (λ o. o ≡ none) (replacements cs s)
  unfolding replacements
  replacements_blocked [] s u h = tt
  replacements_blocked (c ∷ cs) s u h =
      let (block, kept) = call_blocked c s u.0 h in
      (kept, replacements_blocked cs (call c s).0 u.1 block)

load_rejects :
    (p : Platform) (read_json : List ℕ → Option Value) (r : Reading) (w : Writing) (s : ConfigStore)
    (e : Error)
    → read_current p read_json r ≡ err e
    → (write_blocked (call p read_json (loading r w) s).0 ≡ true)
      × ((call p read_json (loading r w) s).1 ≡ none)
unfolding call load
load_rejects p read_json r w s e h = simp (h) (refl, refl)

-- After a load that rejected the file, no save and no further load replaces it, until a load has
-- read a valid file; a load that finds the file gone does not lift the block.
pub load_rejected_preserves :
    (p : Platform) (read_json : List ℕ → Option Value) (r : Reading) (w : Writing) (s : ConfigStore)
    (e : Error) (cs : List Call)
    → read_current p read_json r ≡ err e
    → All (IsUnread p read_json) cs
    → All (λ o. o ≡ none) (replacements p read_json (loading r w ∷ cs) s)
unfolding replacements
load_rejected_preserves p read_json r w s e cs h u =
    let (block, kept) = load_rejects p read_json r w s e h in
    (kept, replacements_blocked p read_json cs (call p read_json (loading r w) s).0 u block)
