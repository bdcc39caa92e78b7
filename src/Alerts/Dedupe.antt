-- ===== src/Alerts/Dedupe.antt =====
-- A low window is reported once for each of its resets.
use mathlib.Core.Path.{subst}
use limit_halo.Prelude.{
  sym, ap, ◌+◌, ◌%◌, ◌<◌, ◌<◌, if_both, ◌∙◌, ℕ, ◌-◌, ◌≡◌, refl, Bool, true, false, ◌&&◌, List, [],
  ◌∷◌, str_eq, ltb, arith, eq_iff, All, Option, some, none,
}
use limit_halo.Prelude.Int.{ℤ}
use limit_halo.Prelude.Result.{ok}
use limit_halo.Model.Metric.{Metric, is_ready}
use limit_halo.Alerts.QuietHours.{in_quiet_hours_circular}
use limit_halo.Config.{AppConfig}
use limit_halo.Alerts.{
  evaluate_unless, in_quiet_hours, AppConfig, add_later, Decision, decide_parts, Emitted,
  QuotaNotification, same_series, same_emitted, was_emitted, forget_series, decide_measured, decide,
  decide_all, evaluate, emitted_of,
}

emitted_other :
    (x y : Emitted) (ds : List Emitted)
    → same_series x y ≡ false
    → was_emitted x (forget_series y ds) ≡ was_emitted x ds
unfolding was_emitted forget_series same_series same_emitted
emitted_other x y [] h = refl
emitted_other x y (d ∷ ds) h = grind (arith, eq_iff, emitted_other x y ds h)

emitted_same : (x : Emitted) → same_emitted x x ≡ true
unfolding same_emitted same_series
emitted_same x = grind (arith, eq_iff)

-- Whether the window is reported now.
abbrev pub IsSettled : ℕ → Metric → List Emitted → Type 0
IsSettled threshold m emitted = (decide threshold m emitted).0 ≡ []

decide_measured_settles :
    (threshold : ℕ) (m : Metric) (used : ℕ) (resets_at : ℤ) (emitted : List Emitted)
    → (decide_measured threshold m used resets_at
        (decide_measured threshold m used resets_at emitted).1).0
      ≡ []
unfolding decide_measured was_emitted
decide_measured_settles threshold m used resets_at emitted =
    grind (arith, emitted_same (emitted_of threshold m resets_at))

decide_settles :
    (threshold : ℕ) (m : Metric) (emitted : List Emitted)
    → IsSettled threshold m (decide threshold m emitted).1
unfolding decide
decide_settles threshold m emitted = grind (arith, decide_measured_settles)

-- Two windows of one series: the same provider and key.
unfoldable pub same_window : Metric → Metric → Bool
same_window m n = str_eq m.provider n.provider && str_eq m.key n.key

series_apart :
    (threshold : ℕ) (m n : Metric) (a b : ℤ)
    → same_window m n ≡ false
    → same_series (emitted_of threshold m a) (emitted_of threshold n b) ≡ false
unfolding same_series same_window
series_apart threshold m n a b h = grind (arith, eq_iff)

-- The report of one window does not change what is known of another.
measured_apart :
    (threshold : ℕ) (m : Metric) (used : ℕ) (resets_at : ℤ) (x : Emitted) (emitted : List Emitted)
    → same_series (emitted_of threshold m resets_at) x ≡ false
    → same_series x (emitted_of threshold m resets_at) ≡ false
    → was_emitted x (decide_measured threshold m used resets_at emitted).1 ≡ was_emitted x emitted
unfolding decide_measured was_emitted same_emitted
measured_apart threshold m used resets_at x emitted h k =
    grind (arith, emitted_other x (emitted_of threshold m resets_at) emitted k)

parts_apart :
    (threshold : ℕ) (m n : Metric) (b : ℤ) (used : Option ℕ) (resets_at : Option ℤ)
    (emitted : List Emitted)
    → same_window m n ≡ false
    → same_window n m ≡ false
    → was_emitted (emitted_of threshold n b) (decide_parts threshold m used resets_at emitted).1
      ≡ was_emitted (emitted_of threshold n b) emitted
unfolding decide_parts
parts_apart threshold m n b none a emitted h k = refl
parts_apart threshold m n b (some u) none emitted h k = refl
parts_apart threshold m n b (some u) (some a) emitted h k =
    if_both
      (λ (d : Decision).
        was_emitted (emitted_of threshold n b) d.1 ≡ was_emitted (emitted_of threshold n b) emitted)
      (is_ready m.state) (decide_measured threshold m u a emitted) ([], emitted)
      (measured_apart threshold m u a (emitted_of threshold n b) emitted
        (series_apart threshold m n a b h) (series_apart threshold n m b a k))
      refl

settled_measured :
    (threshold : ℕ) (n : Metric) (used : ℕ) (b : ℤ) (first second : List Emitted)
    → was_emitted (emitted_of threshold n b) first ≡ was_emitted (emitted_of threshold n b) second
    → (decide_measured threshold n used b first).0 ≡ (decide_measured threshold n used b second).0
unfolding decide_measured
settled_measured threshold n used b first second h = grind arith

settled_parts :
    (threshold : ℕ) (n : Metric) (used : Option ℕ) (b : Option ℤ) (first second : List Emitted)
    → ((a : ℤ)
        → was_emitted (emitted_of threshold n a) first
          ≡ was_emitted (emitted_of threshold n a) second)
    → (decide_parts threshold n used b first).0 ≡ (decide_parts threshold n used b second).0
unfolding decide_parts
settled_parts threshold n none b first second h = refl
settled_parts threshold n (some u) none first second h = refl
settled_parts threshold n (some u) (some a) first second h =
    grind (arith, settled_measured threshold n u a first second (h a))

stays-IsSettled :
    (threshold : ℕ) (m n : Metric) (emitted : List Emitted)
    → same_window m n ≡ false
    → same_window n m ≡ false
    → IsSettled threshold n emitted
    → IsSettled threshold n (decide threshold m emitted).1
unfolding decide
stays-IsSettled threshold m n emitted h k s =
    settled_parts threshold n n.used_percent n.resets_at (decide threshold m emitted).1 emitted
      (λ a. parts_apart threshold m n a m.used_percent m.resets_at emitted h k)
    ∙ s

AllSettled : ℕ → List Emitted → List Metric → Type 0
AllSettled threshold emitted ms = All (λ n. IsSettled threshold n emitted) ms

-- A window of another series than all of `ms`.
abbrev pub IsApart : Metric → List Metric → Type 0
IsApart m ms = All (λ n. (same_window m n ≡ false) × (same_window n m ≡ false)) ms

-- No two windows of one series, as in a snapshot of the store.
abbrev pub AllApart : List Metric → Type 0
AllApart [] = Unit {0}
AllApart (m ∷ ms) = IsApart m ms × AllApart ms

stay_settled :
    (threshold : ℕ) (m : Metric) (ms : List Metric) (emitted : List Emitted)
    → IsApart m ms
    → AllSettled threshold emitted ms
    → AllSettled threshold (decide threshold m emitted).1 ms
unfolding AllSettled
stay_settled threshold m [] emitted a s = tt
stay_settled threshold m (n ∷ ns) emitted ((h, k), a) (s, ss) =
    (stays-IsSettled threshold m n emitted h k s, stay_settled threshold m ns emitted a ss)

later_state : (ns : List QuotaNotification) (d : Decision) → (add_later ns d).1 ≡ d.1
later_state [] d = refl
later_state (n ∷ ns) d = refl

state_after :
    (threshold : ℕ) (m : Metric) (ms : List Metric) (emitted : List Emitted)
    → (decide_all threshold (m ∷ ms) emitted).1
      ≡ (decide_all threshold ms (decide threshold m emitted).1).1
unfolding decide_all
state_after threshold m ms emitted =
    later_state (decide threshold m emitted).0
      (decide_all threshold ms (decide threshold m emitted).1)

later-IsSettled :
    (threshold : ℕ) (m : Metric) (ms : List Metric) (emitted : List Emitted)
    → IsApart m ms
    → IsSettled threshold m emitted
    → IsSettled threshold m (decide_all threshold ms emitted).1
unfolding decide_all
later-IsSettled threshold m [] emitted a s = s
later-IsSettled threshold m (n ∷ ns) emitted ((h, k), a) s =
    rw (state_after threshold n ns emitted) (
      later-IsSettled threshold m ns (decide threshold n emitted).1 a
        (stays-IsSettled threshold n m emitted k h s))

all_settled :
    (threshold : ℕ) (ms : List Metric) (emitted : List Emitted)
    → AllApart ms
    → AllSettled threshold (decide_all threshold ms emitted).1 ms
unfolding AllSettled
all_settled threshold [] emitted a = tt
all_settled threshold (m ∷ ms) emitted (a, rest) =
    let moved = sym (state_after threshold m ms emitted) in
    (
      subst (IsSettled threshold m) moved (
          later-IsSettled threshold m ms (decide threshold m emitted).1 a
            (decide_settles threshold m emitted)),
      subst (λ l. AllSettled threshold l ms) moved
          (all_settled threshold ms (decide threshold m emitted).1 rest),
    )

settled_decide_all :
    (threshold : ℕ) (ms : List Metric) (emitted : List Emitted)
    → AllApart ms
    → AllSettled threshold emitted ms
    → (decide_all threshold ms emitted).0 ≡ []
unfolding AllSettled decide_all
settled_decide_all threshold [] emitted a s = refl
settled_decide_all threshold (m ∷ ms) emitted (a, rest) (s, ss) = rw s (
    settled_decide_all threshold ms (decide threshold m emitted).1 rest
      (stay_settled threshold m ms emitted a ss))

reports_state :
    (config : AppConfig) (ms : List Metric) (first : ℕ) (emitted : List Emitted)
    (n : QuotaNotification) (ns : List QuotaNotification)
    → (evaluate config ms first emitted).0 ≡ ok (n ∷ ns)
    → (evaluate config ms first emitted).1
      ≡ (decide_all config.alert_threshold_percent ms emitted).1
unfolding evaluate
reports_state config ms first emitted n ns h = ground arith

in_quiet_hours_returns :
    (minutes start end : ℕ)
    → minutes < 1440
    → start < 1440
    → end < 1440
    → (b : Bool) × (in_quiet_hours minutes start end ≡ ok b)
in_quiet_hours_returns minutes start end m s e = (
  ltb ((minutes + 1440 - start) % 1440) ((end + 1440 - start) % 1440),
  in_quiet_hours_circular minutes start end m s e,
)

unless_settled :
    (b : Bool) (threshold : ℕ) (ms : List Metric) (emitted : List Emitted)
    → (decide_all threshold ms emitted).0 ≡ []
    → (evaluate_unless (ok b) threshold ms emitted).0 ≡ ok []
unfolding evaluate_unless
unless_settled true threshold ms emitted h = refl
unless_settled false threshold ms emitted h = ap ok h

evaluate_settled :
    (config : AppConfig) (ms : List Metric) (minutes : ℕ) (emitted : List Emitted)
    → (decide_all config.alert_threshold_percent ms emitted).0 ≡ []
    → minutes < 1440
    → config.quiet_start_minutes < 1440
    → config.quiet_end_minutes < 1440
    → (evaluate config ms minutes emitted).0 ≡ ok []
unfolding evaluate
evaluate_settled config ms minutes emitted h m s e =
    let (b, hb) =
      in_quiet_hours_returns minutes config.quiet_start_minutes config.quiet_end_minutes m s e in
    grind (arith, unless_settled)

-- If an evaluation of a snapshot, whose windows all differ in provider or key, made a report, then
-- the same snapshot brings no report again at any minute of a day.
pub evaluate_again :
    (config : AppConfig) (ms : List Metric) (first second : ℕ) (emitted : List Emitted)
    (n : QuotaNotification) (ns : List QuotaNotification)
    → AllApart ms
    → (evaluate config ms first emitted).0 ≡ ok (n ∷ ns)
    → second < 1440
    → config.quiet_start_minutes < 1440
    → config.quiet_end_minutes < 1440
    → (evaluate config ms second (evaluate config ms first emitted).1).0 ≡ ok []
evaluate_again config ms first second emitted n ns a h m s e =
    let t = config.alert_threshold_percent in
    let after = (decide_all t ms emitted).1 in
    rw (reports_state config ms first emitted n ns h) (
      evaluate_settled config ms second after
        (settled_decide_all t ms after a (all_settled t ms emitted a)) m s e)
