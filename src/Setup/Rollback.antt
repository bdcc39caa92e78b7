-- ===== src/Setup/Rollback.antt =====
-- How `persist_configuration` ends.
use limit_halo.Prelude.{
  ℕ, Bool, true, false, not, Option, some, List, [], ◌∷◌, ◌++◌, ◌≡◌, ◌⊎◌, inl, inr, refl, sym,
  if◌then◌else◌, if_holds,
}
use mathlib.Core.Path.{subst}
use limit_halo.Prelude.Result.{Result, ok, err, Error, ◌>>◌}
use limit_halo.Json.{Value}
use limit_halo.Config.{AppConfig}
use limit_halo.Config.Schema.{Platform}
use limit_halo.Config.File.{ConfigStore, payload_of, write_blocked}
use limit_halo.Config.File.Guarded.{save-IsGuarded, IsGuarded}
use limit_halo.Config.File.Returned.{save_replaced}
use limit_halo.Config.Merge.{same_bool}
use limit_halo.Setup.Persist.{
  ignore_expected, Calls, Persisted, Attempt, persist_configuration, persist_read, body_attempt,
  set_attempt, save_attempt, settle, roll_back, set_back_first, saved_back, verified, nothing_done,
  when_ok,
}

-- The registration that is wanted; a portable program has none.
abbrev pub requested_of : AppConfig → Bool → Bool
requested_of new portable = if portable then false else new.start_with_windows

-- The registration that was found first.
abbrev pub found_before : Bool → Calls → Result Bool
found_before portable calls = if portable then ok false else calls.before

-- No writer returned, or the registration that was found was set again, last.
abbrev pub IsRestored : AppConfig → Bool → Calls → Persisted → Type 0
IsRestored new portable calls o =
    (o.registrations ≡ [])
    ⊎ (before : Bool) × (found_before portable calls ≡ ok before)
      × (o.registrations ≡ before ∷ requested_of new portable ∷ [])

abbrev raised : Error → Result (Unit {0})
raised e = err e

-- A rollback raises.
raises : (r : Result (Unit {0})) (e : Error) → (r >> raised e) ≡ ok tt → ⊥
raises (err f) e h = cc
raises (ok _) e h = cc

module _ (p : Platform) (read_json : List ℕ → Option Value) where
  -- The new settings, with the registration that was requested, replaced the file, after the
  -- registration was read back.
  unfoldable pub IsApplied : AppConfig → Bool → Bool → Calls → Attempt → Type 0
  IsApplied new portable requested calls a =
      (verified p read_json portable requested calls ≡ ok tt)
      × ((bytes : List ℕ) × (payload_of p (record new { start_with_windows = requested })
            ≡ ok bytes)
          × (a.replaced ≡ some bytes))

  save-IsApplied :
      (new : AppConfig) (portable requested applied : Bool) (calls : Calls) (s : ConfigStore)
      (r : Result (Unit {0}))
      → verified p read_json portable requested calls ≡ r
      → (save_attempt p read_json new requested applied calls s r).outcome ≡ ok tt
      → IsApplied new portable requested calls
          (save_attempt p read_json new requested applied calls s r)
  unfolding IsApplied IsGuarded
  save-IsApplied new portable requested applied calls s (err e) g h = absurd (cc)
  save-IsApplied new portable requested applied calls s (ok _) g h =
      let c : AppConfig = record new { start_with_windows = requested } in
      let (bytes, replaced) = save_replaced p read_json c calls.writing s h in
      let (payload, free, base) = save-IsGuarded p read_json c calls.writing s bytes replaced in
      (g, (bytes, payload, replaced))

  set-IsApplied :
      (new : AppConfig) (portable requested : Bool) (calls : Calls) (s : ConfigStore)
      (r : Result (Unit {0}))
      → (set_attempt p read_json new portable requested calls s r).outcome ≡ ok tt
      → IsApplied new portable requested calls
          (set_attempt p read_json new portable requested calls s r)
  set-IsApplied new portable requested calls s (err e) h = absurd (cc)
  set-IsApplied new portable requested calls s (ok _) h =
      save-IsApplied new portable requested true calls s _ refl h

  attempt-IsApplied :
      (new : AppConfig) (portable before requested : Bool) (calls : Calls) (s : ConfigStore)
      → (body_attempt p read_json new portable before requested calls s).outcome ≡ ok tt
      → IsApplied new portable requested calls
          (body_attempt p read_json new portable before requested calls s)
  unfolding body_attempt
  attempt-IsApplied new portable before requested calls s =
      if_holds (λ (a : Attempt). a.outcome ≡ ok tt → IsApplied new portable requested calls a)
        (not (same_bool before requested))
        (set_attempt p read_json new portable requested calls s calls.set)
        (save_attempt p read_json new requested false calls s
          (verified p read_json portable requested calls))
        (λ e. set-IsApplied new portable requested calls s calls.set)
        (λ e h. save-IsApplied new portable requested false calls s _ refl h)

  -- What a call that returned has done, and what one that raised has left.
  unfoldable pub IsSettled : AppConfig → Bool → Calls → Persisted → Type 0
  IsSettled new portable calls o =
      (o.result ≡ ok tt
        → (verified p read_json portable (requested_of new portable) calls ≡ ok tt)
          × ((bytes : List ℕ) × (payload_of p
                  (record new { start_with_windows = requested_of new portable })
                ≡ ok bytes)
              × (o.replaced_new ≡ some bytes)))
      × ((e : Error) → o.result ≡ err e → IsRestored new portable calls o)

  saved-IsSettled :
      (old new : AppConfig) (portable before : Bool) (calls : Calls) (e : Error) (a : Attempt)
      (registrations : List Bool)
      → IsRestored new portable calls (saved_back p read_json old before calls e registrations a)
      → IsSettled new portable calls (saved_back p read_json old before calls e registrations a)
  unfolding IsSettled
  saved-IsSettled old new portable before calls e a registrations restored =
      (λ h. absurd (raises _ e h), λ f h. restored)

  roll_back-IsSettled :
      (old new : AppConfig) (portable before : Bool) (calls : Calls) (e : Error) (a : Attempt)
      → calls.set_back ≡ ok tt
      → found_before portable calls ≡ ok before
      → IsSettled new portable calls
          (roll_back p read_json old before (requested_of new portable) calls e a)
  roll_back-IsSettled old new portable before calls e a back found =
      if_holds (IsSettled new portable calls) a.applied
        (set_back_first p read_json old before calls e
          (when_ok calls.set_back before ++ requested_of new portable ∷ []) a
          (ignore_expected calls.set_back))
        (saved_back p read_json old before calls e [] a)
        (λ f.
          subst
            (λ r. IsSettled new portable calls (
              set_back_first p read_json old before calls e
                (when_ok r before ++ requested_of new portable ∷ []) a (ignore_expected r)))
            (sym back)
            (saved-IsSettled old new portable before calls e a
              (before ∷ requested_of new portable ∷ []) (inr (before, found, refl))))
        (λ f. saved-IsSettled old new portable before calls e a [] (inl refl))

  settle-IsSettled :
      (old new : AppConfig) (portable before : Bool) (calls : Calls) (a : Attempt)
      (r : Result (Unit {0}))
      → calls.set_back ≡ ok tt
      → found_before portable calls ≡ ok before
      → a.outcome ≡ r
      → (a.outcome ≡ ok tt → IsApplied new portable (requested_of new portable) calls a)
      → IsSettled new portable calls
          (settle p read_json old before (requested_of new portable) calls a r)
  unfolding IsSettled IsApplied
  settle-IsSettled old new portable before calls a (err e) back found same applied =
      roll_back-IsSettled old new portable before calls e a back found
  settle-IsSettled old new portable before calls a (ok _) back found same applied =
      (λ h. applied same, λ e h. absurd (cc))

  read-IsSettled :
      (old new : AppConfig) (portable : Bool) (calls : Calls) (s : ConfigStore) (r : Result Bool)
      → calls.set_back ≡ ok tt
      → found_before portable calls ≡ r
      → IsSettled new portable calls (persist_read p read_json old new portable calls s r)
  unfolding IsSettled
  read-IsSettled old new portable calls s (err e) back found = (λ h. absurd (cc), λ f h. inl refl)
  read-IsSettled old new portable calls s (ok before) back found =
      let requested = requested_of new portable in
      let a : Attempt = body_attempt p read_json new portable before requested calls s in
      settle-IsSettled old new portable before calls a a.outcome back found refl
        (attempt-IsApplied new portable before requested calls s)

-- Where the call that sets the registration back returns, `persist_configuration` ends in one of two
-- ways. If it returns, the registration was read back as it was requested, and the new settings with
-- that registration replaced the file. If it raises, either no call of the writer of the registration
-- has returned, or the registration was set back, last, to what was found before.
pub persist_configuration-IsSettled :
    (p : Platform) (read_json : List ℕ → Option Value) (old new : AppConfig) (portable : Bool)
    (calls : Calls) (s : ConfigStore)
    → calls.set_back ≡ ok tt
    → IsSettled p read_json new portable calls
        (persist_configuration p read_json old new portable calls s)
unfolding persist_configuration IsSettled
persist_configuration-IsSettled p read_json old new portable calls s back =
    if_holds (IsSettled p read_json new portable calls) (write_blocked s)
      (nothing_done p read_json s _)
      (persist_read p read_json old new portable calls s (found_before portable calls))
      (λ e. (λ h. absurd (cc), λ f h. inl refl))
      (λ e.
        read-IsSettled p read_json old new portable calls s (found_before portable calls) back refl)
