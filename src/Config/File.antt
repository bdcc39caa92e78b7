-- ===== src/Config/File.antt =====
-- src/limit_halo/config.py, `ConfigStore`: the settings file, which is never overwritten unless it
-- was read and has not changed since. What the file system answers is an argument of each operation,
-- in the order of its calls.
pub mod Guarded
pub mod Blocked
pub mod Returned
use limit_halo.Prelude.{
  ℕ, String, Bool, true, false, ◌&&◌, ◌||◌, not, Option, none, some, List, [], ◌∷◌, ◌++◌, ◌==◌, ltb,
  length, if◌then◌else◌, is_some,
}
use limit_halo.Prelude.Int.{eqb_ℤ, pos}
use limit_halo.Prelude.Result.{Result, ok, err, value_error, os_error, Error, ◌>>=◌, ◌>>◌, raise_if}
use limit_halo.Json.{Value, obj, int, null, get}
use limit_halo.Claude.Frame.{codes}
use limit_halo.Config.{AppConfig, safe_defaults}
use limit_halo.Config.Extension.{max_config_bytes}
use limit_halo.Config.Equality.{same_config}
use limit_halo.Config.Schema.{Platform, to_json_object}
use limit_halo.Config.Strict.{strict_decode}

-- The identity of a version of a file.
pub record Revision : Type 0 where
  pub st_dev : ℕ
  pub st_ino : ℕ
  pub st_size : ℕ
  pub st_mtime_ns : ℕ
  pub st_ctime_ns : ℕ

-- What the file system shows at the path of the settings: a reparse point on the way, no file, an
-- error, or an entry that is a regular file or not.
pub data Look : Type 0 where
  reparse : Look
  missing : Look
  failing : Look
  entry : Bool → Revision → Look

pub record ConfigStore : Type 0 where
  pub write_blocked_reason : Option String
  pub observed_disk : Bool
  pub disk_revision : Option Revision

abbrev pub new_config_store : ConfigStore
new_config_store = record {
  write_blocked_reason = none;
  observed_disk = false;
  disk_revision = none;
}

abbrev pub write_blocked : ConfigStore → Bool
write_blocked s = is_some s.write_blocked_reason

-- `_revision`
unfoldable pub revision : Look → Result (Option Revision)
revision reparse = err (os_error "reparse component rejected")
revision missing = ok none
revision failing = err (os_error "stat")
revision (entry regular r) =
    if regular then ok (some r) else err (os_error "configuration target is not a regular file")

abbrev pub same_revision : Revision → Revision → Bool
same_revision a b =
    a.st_dev == b.st_dev
    && a.st_ino == b.st_ino
    && a.st_size == b.st_size
    && a.st_mtime_ns == b.st_mtime_ns
    && a.st_ctime_ns == b.st_ctime_ns

unfoldable pub same_state : Option Revision → Option Revision → Bool
same_state none none = true
same_state (some a) (some b) = same_revision a b
same_state _ _ = false

-- The calls of one read: before, the bytes, and after.
pub record Reading : Type 0 where
  pub before : Look
  pub content : Result (List ℕ)
  pub after : Look

-- The calls of one write, in their order. `prepare` is the folder, its check and the temporary
-- file; `written` is its content on the disk and the check of its path.
pub record Writing : Type 0 where
  pub reading : Reading
  pub first : Look
  pub prepare : Result (Unit {0})
  pub written : Result (Unit {0})
  pub second : Look
  pub replaced : Result (Unit {0})
  pub last : Look

-- What was read: the settings, whether they are of an older schema, the revision.
pub record Current : Type 0 where
  pub config : AppConfig
  pub migrate : Bool
  pub found : Option Revision

-- What an operation leaves: the store, its result, and the bytes that replaced the file.
pub record Outcome {ℓ} (A : Type ℓ) : Type ℓ where
  pub store : ConfigStore
  pub result : Result A
  pub replaced : Option (List ℕ)

abbrev pub preserved_error : Error
preserved_error = os_error "existing configuration preserved; valid reload required"

abbrev older_version : Value → Bool
older_version null = true
older_version (int n) = eqb_ℤ n (pos 1) || eqb_ℤ n (pos 2)
older_version _ = false

-- `raw.get("schemaVersion") in (None, 1, 2)`
abbrev pub is_older : Value → Bool
is_older (obj fs) = older_version (get "schemaVersion" fs)
is_older _ = false

abbrev pub blocked : ConfigStore → String → ConfigStore
blocked s reason = record s { write_blocked_reason = some reason }

abbrev pub refuse_write : ConfigStore → Result (Unit {0}) × ConfigStore
refuse_write s = (err preserved_error, blocked s "existing-config-changed-or-unreadable")

abbrev pub check_state : Result (Option Revision) → ConfigStore → Result (Unit {0}) × ConfigStore
check_state (err e) s = refuse_write s
check_state (ok r) s = if same_state r s.disk_revision then (ok tt, s) else refuse_write s

-- The comparison that ends `_check_write_target`.
unfoldable pub check_unchanged : Look → ConfigStore → Result (Unit {0}) × ConfigStore
check_unchanged now s = check_state (revision now) s

abbrev pub gave_up : ConfigStore → Error → Outcome (Unit {0})
gave_up s e = record { store = s; result = err e; replaced = none }

-- After the file is replaced.
abbrev pub finish : List ℕ → Result (Option Revision) → ConfigStore → Outcome (Unit {0})
finish bytes (err e) s = record { store = s; result = err e; replaced = some bytes }
finish bytes (ok r) s = record {
  store = record s { disk_revision = r };
  result = ok tt;
  replaced = some bytes;
}

-- The store after a read that succeeded: a file that is gone does not lift the block.
unfoldable pub after_read : Option Revision → ConfigStore → ConfigStore
after_read found s = record s {
  write_blocked_reason =
      if is_some found || not (write_blocked s) then none else s.write_blocked_reason;
  observed_disk = true;
  disk_revision = found;
}

-- An older schema is written back at once; only an `OSError` of that is ignored.
abbrev migrated : AppConfig → Outcome (Unit {0}) → Outcome AppConfig
migrated c o = record {
  store = o.store;
  result = elim o.result [ ok _ ↦ ok c | err e ↦ elim e [ os_error m ↦ ok c | other ↦ err other ] ];
  replaced = o.replaced;
}

abbrev pub first_run : Current
first_run = record { config = safe_defaults; migrate = false; found = none }

abbrev pub same_decoded : Option AppConfig → AppConfig → Bool
same_decoded none c = false
same_decoded (some d) c = same_config d c

module _ (p : Platform) where
  -- The bytes that are to be written; settings that would not be read back are refused. `dumps` is
  -- `json.dumps` with the arguments of the source, which sorts the keys.
  unfoldable pub payload_of : AppConfig → Result (List ℕ)
  payload_of c = do
    value ← to_json_object p c
    raise_if (not (same_decoded (strict_decode p (obj value)) c))
        (value_error "unsafe configuration")
    raise_if (ltb max_config_bytes (length (codes (p.codec.dumps value) ++ 10 ∷ [])))
        (value_error "configuration is too large")
    ok (codes (p.codec.dumps value) ++ 10 ∷ [])

-- The platform, and `json.loads` of a file's bytes: `none` where it raises.
module _ (p : Platform) (read_json : List ℕ → Option Value) where
  abbrev decoded_or_raise : Option AppConfig → Result AppConfig
  decoded_or_raise none = err (value_error "configuration schema is invalid")
  decoded_or_raise (some c) = ok c

  abbrev json_or_raise : Option Value → Result Value
  json_or_raise none = err (value_error "json")
  json_or_raise (some v) = ok v

  -- `_read_current` of a file that is there.
  unfoldable pub read_file : Reading → Revision → Result Current
  read_file r found = do
    raise_if (ltb max_config_bytes found.st_size) (value_error "configuration is too large")
    content ← r.content
    raise_if (length content == 0 || ltb max_config_bytes (length content))
        (value_error "configuration size is invalid")
    raw ← json_or_raise (read_json content)
    config ← decoded_or_raise (strict_decode p raw)
    now ← revision r.after
    raise_if (not (same_state now (some found))) (os_error "configuration changed during read")
    ok (record { config = config; migrate = is_older raw; found = some found })

  abbrev pub read_found : Reading → Option Revision → Result Current
  read_found r none = ok first_run
  read_found r (some found) = read_file r found

  unfoldable pub read_current : Reading → Result Current
  read_current r = revision r.before >>= read_found r

  abbrev pub observe_first : Result Current → Look → ConfigStore → Result (Unit {0}) × ConfigStore
  observe_first (err e) now s = refuse_write s
  observe_first (ok c) now s =
      check_unchanged now (record s { observed_disk = true; disk_revision = c.found })

  -- `_check_write_target`
  unfoldable pub check_write_target : Reading → Look → ConfigStore → Result (Unit {0}) × ConfigStore
  check_write_target r now s =
      if write_blocked s
      then (err preserved_error, s)
      else if s.observed_disk
      then check_unchanged now s
      else observe_first (read_current r) now s

  -- The replacement, after the second check.
  abbrev pub replace_file : List ℕ → Writing → Result (Unit {0}) → ConfigStore → Outcome (Unit {0})
  replace_file bytes w (err e) s = gave_up s e
  replace_file bytes w (ok _) s = finish bytes (revision w.last) s

  abbrev pub second_check : List ℕ → Writing → Result (Unit {0}) × ConfigStore → Outcome (Unit {0})
  second_check bytes w (err e, s) = gave_up s e
  second_check bytes w (ok _, s) = replace_file bytes w w.replaced s

  abbrev pub temporary_file :
      List ℕ → Writing → Result (Unit {0}) → ConfigStore → Outcome (Unit {0})
  temporary_file bytes w (err e) s = gave_up s e
  temporary_file bytes w (ok _) s = second_check bytes w (check_write_target w.reading w.second s)

  abbrev pub first_check : List ℕ → Writing → Result (Unit {0}) × ConfigStore → Outcome (Unit {0})
  first_check bytes w (err e, s) = gave_up s e
  first_check bytes w (ok _, s) = temporary_file bytes w (w.prepare >> w.written) s

  abbrev pub save_payload : Result (List ℕ) → Writing → ConfigStore → Outcome (Unit {0})
  save_payload (err e) w s = gave_up s e
  save_payload (ok bytes) w s = first_check bytes w (check_write_target w.reading w.first s)

  -- `save`
  unfoldable pub save : AppConfig → Writing → ConfigStore → Outcome (Unit {0})
  save c w s = save_payload (payload_of p c) w s

  abbrev pub load_current : Result Current → Writing → ConfigStore → Outcome AppConfig
  load_current (err e) w s = record {
    store = blocked s "existing-config-unreadable-or-invalid";
    result = ok safe_defaults;
    replaced = none;
  }
  load_current (ok c) w s =
      if c.migrate
      then migrated c.config (save c.config w (after_read c.found s))
      else record { store = after_read c.found s; result = ok c.config; replaced = none }

  -- `load`, with the writing of a migration.
  unfoldable pub load : Reading → Writing → ConfigStore → Outcome AppConfig
  load r w s = load_current (read_current r) w s
