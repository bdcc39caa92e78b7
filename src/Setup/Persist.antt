-- ===== src/Setup/Persist.antt =====
-- src/limit_halo/configure.py, `persist_configuration`: the registration that starts the program
-- with Windows is set and read back, then the settings are saved; a failure is rolled back.
use limit_halo.Prelude.{◌++◌, ℕ, Bool, true, false, not, Option, none, List, [], ◌∷◌, if◌then◌else◌}
use limit_halo.Prelude.Result.{
  Result, ok, err, Error, os_error, runtime_error, ◌>>=◌, ◌>>◌, raise_if,
}
use limit_halo.Json.{Value}
use limit_halo.Config.{AppConfig}
use limit_halo.Config.Merge.{same_bool}
use limit_halo.Config.Schema.{Platform}
use limit_halo.Config.File.{ConfigStore, Writing, save, write_blocked}

-- What Windows and the disk answer to the calls of `persist_configuration`, in their order: the
-- registration is read, set and read again, the settings are saved; after a failure the registration
-- is set back and the old settings are saved. A writer that raises restores by itself what it changed,
-- or leaves it incomplete; the source does not look, and neither is it recorded here.
pub record Calls : Type 0 where
  pub before : Result Bool
  pub set : Result (Unit {0})
  pub after : Result Bool
  pub writing : Writing
  pub set_back : Result (Unit {0})
  pub writing_back : Writing

-- What `persist_configuration` leaves: the store, its result, the registrations that a writer which
-- returned has set, the latest one first, and the bytes that replaced the file, for the new settings and for the old ones.
pub record Persisted : Type 0 where
  pub store : ConfigStore
  pub result : Result (Unit {0})
  pub registrations : List Bool
  pub replaced_new : Option (List ℕ)
  pub replaced_old : Option (List ℕ)

-- The state of the body of the `try`: a failure, or what was done.
pub record Attempt : Type 0 where
  pub store : ConfigStore
  pub outcome : Result (Unit {0})
  pub applied : Bool
  pub replaced : Option (List ℕ)

-- `except (OSError, RuntimeError): pass`
abbrev pub ignore_expected : Result (Unit {0}) → Result (Unit {0})
ignore_expected (err (os_error m)) = ok tt
ignore_expected (err (runtime_error m)) = ok tt
ignore_expected r = r

-- `except OSError: pass`
abbrev pub ignore_os_error : Result (Unit {0}) → Result (Unit {0})
ignore_os_error (err (os_error m)) = ok tt
ignore_os_error r = r

abbrev pub when_ok : Result (Unit {0}) → Bool → List Bool
when_ok (ok _) value = value ∷ []
when_ok (err e) value = []

abbrev compare_state : Bool → Bool → Result (Unit {0})
compare_state found requested =
    raise_if (not (same_bool found requested))
      (runtime_error "startup state did not match the requested value")

module _ (p : Platform) (read_json : List ℕ → Option Value) where
  -- The check of the registration, and the saving of the settings.
  abbrev pub save_attempt :
      AppConfig → Bool → Bool → Calls → ConfigStore → Result (Unit {0}) → Attempt
  save_attempt c requested applied calls s (err e) = record {
    store = s;
    outcome = err e;
    applied = applied;
    replaced = none;
  }
  save_attempt c requested applied calls s (ok _) =
      let o = save p read_json (record c { start_with_windows = requested }) calls.writing s in
      record { store = o.store; outcome = o.result; applied = applied; replaced = o.replaced }

  -- What is read after the registration: a portable program has none.
  abbrev pub verified : Bool → Bool → Calls → Result (Unit {0})
  verified portable requested calls =
      (if portable then ok false else calls.after) >>= λ found. compare_state found requested

  abbrev pub set_attempt :
      AppConfig → Bool → Bool → Calls → ConfigStore → Result (Unit {0}) → Attempt
  set_attempt c portable requested calls s (err e) = record {
    store = s;
    outcome = err e;
    applied = false;
    replaced = none;
  }
  set_attempt c portable requested calls s (ok _) =
      save_attempt c requested true calls s (verified portable requested calls)

  -- The body of the `try`.
  unfoldable pub body_attempt : AppConfig → Bool → Bool → Bool → Calls → ConfigStore → Attempt
  body_attempt c portable before requested calls s =
      if not (same_bool before requested)
      then set_attempt c portable requested calls s calls.set
      else save_attempt c requested false calls s (verified portable requested calls)

  -- The rollback: the registration first; what it does not expect, it lets through.
  abbrev pub saved_back : AppConfig → Bool → Calls → Error → List Bool → Attempt → Persisted
  saved_back old before calls e registrations a =
      let o =
        save p read_json (record old { start_with_windows = before }) calls.writing_back a.store in
      record {
        store = o.store;
        result = ignore_os_error o.result >> err e;
        registrations = registrations;
        replaced_new = a.replaced;
        replaced_old = o.replaced;
      }

  abbrev pub set_back_first :
      AppConfig → Bool → Calls → Error → List Bool → Attempt → Result (Unit {0}) → Persisted
  set_back_first old before calls e registrations a (err f) = record {
    store = a.store;
    result = err f;
    registrations = registrations;
    replaced_new = a.replaced;
    replaced_old = none;
  }
  set_back_first old before calls e registrations a (ok _) =
      saved_back old before calls e registrations a

  abbrev pub roll_back : AppConfig → Bool → Bool → Calls → Error → Attempt → Persisted
  roll_back old before requested calls e a =
      if a.applied
      then set_back_first old before calls e (when_ok calls.set_back before ++ requested ∷ []) a
          (ignore_expected calls.set_back)
      else saved_back old before calls e [] a

  abbrev pub settle : AppConfig → Bool → Bool → Calls → Attempt → Result (Unit {0}) → Persisted
  settle old before requested calls a (ok _) = record {
    store = a.store;
    result = ok tt;
    registrations = if a.applied then requested ∷ [] else [];
    replaced_new = a.replaced;
    replaced_old = none;
  }
  settle old before requested calls a (err e) = roll_back old before requested calls e a

  abbrev pub nothing_done : ConfigStore → Error → Persisted
  nothing_done s e = record {
    store = s;
    result = err e;
    registrations = [];
    replaced_new = none;
    replaced_old = none;
  }

  abbrev pub persist_read :
      AppConfig → AppConfig → Bool → Calls → ConfigStore → Result Bool → Persisted
  persist_read old new portable calls s (err e) = nothing_done s e
  persist_read old new portable calls s (ok before) =
      let requested = if portable then false else new.start_with_windows in
      let a = body_attempt new portable before requested calls s in
      settle old before requested calls a a.outcome

  -- `persist_configuration`
  unfoldable pub persist_configuration :
      AppConfig → AppConfig → Bool → Calls → ConfigStore → Persisted
  unfolding body_attempt
  persist_configuration old new portable calls s =
      if write_blocked s
      then nothing_done s
          (os_error "existing settings require recovery before changes can be applied")
      else persist_read old new portable calls s (if portable then ok false else calls.before)
