-- ===== src/Config/File/Guarded.antt =====
-- When the settings file is replaced.
use mathlib.Core.Path.{subst}
use limit_halo.Prelude.{
  ℕ, true, false, Option, none, some, List, ◌≡◌, ◌⊎◌, inl, inr, refl, sym, ap, ◌∙◌, arith, if_holds,
}
use limit_halo.Prelude.Result.{Result, ok, err, ◌>>◌}
use limit_halo.Json.{Value}
use limit_halo.Config.{AppConfig}
use limit_halo.Config.Schema.{Platform}
use limit_halo.Config.File.{
  Look, Revision, ConfigStore, Reading, Writing, Current, revision, same_state, same_revision,
  check_state, check_unchanged, check_write_target, read_current, observe_first, refuse_write,
  write_blocked, save, save_payload, first_check, temporary_file, second_check, replace_file,
  payload_of, finish, preserved_error,
}

same_revision_lem : (a b : Revision) → same_revision a b ≡ true → a ≡ b
same_revision_lem a b h =
    let (dev, ino, size, mtime, ctime) : (a.st_dev ≡ b.st_dev)
        × (a.st_ino ≡ b.st_ino)
        × (a.st_size ≡ b.st_size)
        × (a.st_mtime_ns ≡ b.st_mtime_ns)
        × (a.st_ctime_ns ≡ b.st_ctime_ns) =
      grind arith in
    λ i. record {
      st_dev = dev i;
      st_ino = ino i;
      st_size = size i;
      st_mtime_ns = mtime i;
      st_ctime_ns = ctime i;
    }

pub same_state_lem : (a b : Option Revision) → same_state a b ≡ true → a ≡ b
unfolding same_state
same_state_lem none none h = refl
same_state_lem none (some b) h = cc
same_state_lem (some a) none h = cc
same_state_lem (some a) (some b) h = ap some (same_revision_lem a b h)

state_passed :
    (r : Result (Option Revision)) (s t : ConfigStore)
    → check_state r s ≡ (ok tt, t)
    → (r ≡ ok s.disk_revision) × (t ≡ s)
state_passed (err e) s t h = cc
state_passed (ok r) s t h =
    if_holds
      (λ (o : Result (Unit {0}) × ConfigStore).
        o ≡ (ok tt, t) → (ok r ≡ ok s.disk_revision) × (t ≡ s))
      (same_state r s.disk_revision) (ok tt, s) (refuse_write s)
      (λ e f. (ap ok (same_state_lem r s.disk_revision e), cc)) (λ e f. cc) h

unchanged_passed :
    (now : Look) (s t : ConfigStore)
    → check_unchanged now s ≡ (ok tt, t)
    → (revision now ≡ ok s.disk_revision) × (t ≡ s)
unfolding check_unchanged
unchanged_passed now s t h = state_passed (revision now) s t h

module _ (p : Platform) (read_json : List ℕ → Option Value) where
  -- The revision that a write rests on: that of the last load or write, or what this write reads.
  unfoldable pub IsBase : ConfigStore → Reading → Option Revision → Type 0
  IsBase s r base =
      (s.observed_disk ≡ true) × (s.disk_revision ≡ base)
      ⊎ (s.observed_disk ≡ false)
        × ((c : Current) × (read_current p read_json r ≡ ok c) × (c.found ≡ base))

  -- What a check that passed has seen, and the store it leaves.
  abbrev Passed : Reading → Look → ConfigStore → ConfigStore → Type 0
  Passed r now s t =
      (write_blocked s ≡ false)
      × (t.observed_disk ≡ true)
      × (write_blocked t ≡ false)
      × (revision now ≡ ok t.disk_revision)
      × IsBase s r t.disk_revision

  first-Passed :
      (r : Reading) (now : Look) (s t : ConfigStore) (c : Result Current)
      → read_current p read_json r ≡ c
      → write_blocked s ≡ false
      → s.observed_disk ≡ false
      → observe_first p read_json c now s ≡ (ok tt, t)
      → Passed r now s t
  unfolding IsBase
  first-Passed r now s t (err e) g b o h = cc
  first-Passed r now s t (ok c) g b o h =
      let start : ConfigStore = record s { observed_disk = true; disk_revision = c.found } in
      let (e, same) = unchanged_passed now start t h in
      subst (λ x. Passed r now s x) (sym same) (b, refl, b, e, inr (o, (c, g, refl)))

  check-Passed :
      (r : Reading) (now : Look) (s t : ConfigStore)
      → check_write_target p read_json r now s ≡ (ok tt, t)
      → Passed r now s t
  unfolding check_write_target IsBase
  check-Passed r now s t h =
      if_holds (λ (o : Result (Unit {0}) × ConfigStore). o ≡ (ok tt, t) → Passed r now s t)
        (write_blocked s) (err preserved_error, s) _ (λ b f. cc)
        (λ b.
          if_holds (λ (o : Result (Unit {0}) × ConfigStore). o ≡ (ok tt, t) → Passed r now s t)
            s.observed_disk (check_unchanged now s) _
            (λ o f.
              let (e, same) = unchanged_passed now s t f in
              subst (λ x. Passed r now s x) (sym same) (b, o, b, e, inl (o, refl)))
            (λ o f. first-Passed r now s t (read_current p read_json r) refl b o f))
        h

  -- What was true when the file was replaced with these bytes.
  unfoldable pub IsGuarded : AppConfig → Writing → ConfigStore → List ℕ → Type 0
  unfolding IsBase
  IsGuarded c w s bytes =
      (payload_of p c ≡ ok bytes)
      × (write_blocked s ≡ false)
      × ((base : Option Revision) × IsBase s w.reading base
          × (revision w.first ≡ ok base)
          × (revision w.second ≡ ok base))

  module _ (c : AppConfig) (w : Writing) (s : ConfigStore) (bytes : List ℕ) where
    finished :
        (b : List ℕ) (now : Result (Option Revision)) (t : ConfigStore)
        → (finish b now t).replaced ≡ some bytes
        → b ≡ bytes
    finished b (err e) t h = cc
    finished b (ok r) t h = cc

    replaced_guarded :
        (b : List ℕ) (r : Result (Unit {0})) (t : ConfigStore)
        → (replace_file p read_json b w r t).replaced ≡ some bytes
        → b ≡ bytes
    replaced_guarded b (err e) t h = cc
    replaced_guarded b (ok _) t h = finished b (revision w.last) t h

    second_guarded :
        (b : List ℕ) (t : ConfigStore) (x : Result (Unit {0}) × ConfigStore)
        → t.observed_disk ≡ true
        → check_write_target p read_json w.reading w.second t ≡ x
        → (second_check p read_json b w x).replaced ≡ some bytes
        → (b ≡ bytes) × (revision w.second ≡ ok t.disk_revision)
    unfolding IsBase
    second_guarded b t (err e, u) o e1 h = cc
    second_guarded b t (ok _, u) o e1 h =
        let (f, g, i, at, base) = check-Passed w.reading w.second t u e1 in
        elim base [
          | inl (k, same) ↦ (replaced_guarded b w.replaced u h, at ∙ ap ok (sym same))
          | inr (k, more) ↦ absurd (cc)
        ]

    temporary_guarded :
        (b : List ℕ) (t : ConfigStore) (r : Result (Unit {0}))
        → t.observed_disk ≡ true
        → (temporary_file p read_json b w r t).replaced ≡ some bytes
        → (b ≡ bytes) × (revision w.second ≡ ok t.disk_revision)
    temporary_guarded b t (err e) o h = cc
    temporary_guarded b t (ok _) o h = second_guarded b t _ o refl h

    first-IsGuarded :
        (b : List ℕ) (x : Result (Unit {0}) × ConfigStore)
        → payload_of p c ≡ ok b
        → check_write_target p read_json w.reading w.first s ≡ x
        → (first_check p read_json b w x).replaced ≡ some bytes
        → IsGuarded c w s bytes
    unfolding IsGuarded
    first-IsGuarded b (err e, t) g e1 h = cc
    first-IsGuarded b (ok _, t) g e1 h =
        let (f, o, i, at, base) = check-Passed w.reading w.first s t e1 in
        let (same, later) = temporary_guarded b t (w.prepare >> w.written) o h in
        (g ∙ ap ok same, f, (t.disk_revision, base, at, later))

    payload-IsGuarded :
        (o : Result (List ℕ))
        → payload_of p c ≡ o
        → (save_payload p read_json o w s).replaced ≡ some bytes
        → IsGuarded c w s bytes
    payload-IsGuarded (err e) g h = cc
    payload-IsGuarded (ok b) g h = first-IsGuarded b _ g refl h

-- Where a save replaces the settings file, writes were not blocked, the bytes are those of the
-- settings that were given, and both just before the temporary file is made and just before the
-- replacement the file was the one of the last load or save; a store that had done neither has read
-- and decoded that file first.
pub save-IsGuarded :
    (p : Platform) (read_json : List ℕ → Option Value) (c : AppConfig) (w : Writing)
    (s : ConfigStore) (bytes : List ℕ)
    → (save p read_json c w s).replaced ≡ some bytes
    → IsGuarded p read_json c w s bytes
unfolding save
save-IsGuarded p read_json c w s bytes h =
    payload-IsGuarded p read_json c w s bytes (payload_of p c) refl h
