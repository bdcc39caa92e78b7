-- ===== src/Claude/Collector/Schedule.antt =====
-- When the Claude collector asks the broker again by itself.
use limit_halo.Prelude.{
  ℕ, ◌+◌, ◌*◌, ◌≡◌, ◌≤◌, refl, ap, ◌∙◌, String, Bool, true, false, ◌&&◌, not, Option, some, List,
  [], ◌∷◌, str_eq, if◌then◌else◌, ltb, arith, inl, inr, eq_iff,
}
use limit_halo.Prelude.Result.{Result, ok, err}
use limit_halo.Model.Metric.{second}
use limit_halo.Model.Store.{MetricStore}
use limit_halo.Claude.Broker.{BrokerResult}
use limit_halo.Claude.Collector.Alive.{IsAnswer}
use limit_halo.Prelude.{if_both, if_holds}
use limit_halo.Prelude.Int.{pos}
use limit_halo.Json.{int}
use limit_halo.Model.Metric.{ProviderState, provider_error}
use limit_halo.Model.Store.{update_claude, mark_provider}
use limit_halo.Model.Store.Returns.{update_claude_returns}
use limit_halo.Claude.Collector.{
  Collector, Event, Round, request_refresh, request_stop, happen, happen_all, finish_manual,
  back_off, note_failure, note_update, handle, finally_finish, begin_attempt, attempt, body,
  iteration, backoff_seconds,
}

happen_schedule : (c : Collector) (e : Event) → (happen c e).next_automatic ≡ c.next_automatic
unfolding happen request_refresh request_stop
happen_schedule c Event.asked = refl
happen_schedule c Event.stopped = refl

happen_all_schedule :
    (es : List Event) (c : Collector) → (happen_all es c).next_automatic ≡ c.next_automatic
unfolding happen_all
happen_all_schedule [] c = refl
happen_all_schedule (e ∷ es) c = happen_all_schedule es (happen c e) ∙ happen_schedule c e

happen_event :
    (c : Collector) (e : Event) → c.manual_event ≡ true → (happen c e).manual_event ≡ true
unfolding happen request_refresh request_stop
happen_event c e h = ground arith

happen_all_event :
    (es : List Event) (c : Collector)
    → c.manual_event ≡ true
    → (happen_all es c).manual_event ≡ true
unfolding happen_all
happen_all_event [] c h = h
happen_all_event (e ∷ es) c h = happen_all_event es (happen c e) (happen_event c e h)

note_update_manual :
    (later wall : ℕ) (r : Result Bool × MetricStore) (c : Collector)
    → (note_update true later wall r c).1.next_automatic ≡ c.next_automatic
unfolding note_update
note_update_manual later wall r c = ground arith

handle_manual :
    (later wall : ℕ) (answer : Result BrokerResult) (c : Collector)
    → (handle true later wall answer c).1.next_automatic ≡ c.next_automatic
unfolding handle note_failure back_off
handle_manual later wall answer c = grind (arith, note_update_manual)

finish_schedule :
    (manual : Bool) (out : Result (Unit {0}) × Collector)
    → (finally_finish manual out).1.next_automatic ≡ out.1.next_automatic
unfolding finally_finish finish_manual
finish_schedule true (r, c) = refl
finish_schedule false (r, c) = refl

manual_attempt_schedule :
    (x : Round) (c : Collector) → (attempt true x c).1.next_automatic ≡ c.next_automatic
unfolding attempt begin_attempt
manual_attempt_schedule x c =
    let before = happen_all x.during (begin_attempt true x.wall c) in
    finish_schedule true (handle true x.later x.wall x.answer before)
    ∙ handle_manual x.later x.wall x.answer before
    ∙ happen_all_schedule x.during (begin_attempt true x.wall c)

body_manual :
    (x : Round) (c : Collector) (manual : Bool)
    → manual ≡ true
    → (if not manual && ltb x.now c.next_automatic then (ok tt, c) else attempt manual x c)
      ≡ attempt true x c
body_manual x c manual h = simp h

-- A manual refresh, however it ends, leaves the time of the next automatic one as it was.
pub manual_schedule :
    (x : Round) (c : Collector)
    → c.manual_event ≡ true
    → (iteration x c).1.next_automatic ≡ c.next_automatic
unfolding iteration body
manual_schedule x c h =
    let inside = happen_all x.entering c in
    if_both (λ (out : Result (Unit {0}) × Collector). out.1.next_automatic ≡ c.next_automatic)
      c.stop (ok tt, c) (body x inside) refl
      (ap (λ (out : Result (Unit {0}) × Collector). out.1.next_automatic)
          (body_manual x inside inside.manual_event (happen_all_event x.entering c h))
        ∙ manual_attempt_schedule x inside
        ∙ happen_all_schedule x.entering c)

-- Between the shortest and the longest delay after `later`.
pub record IsScheduled (later : ℕ) (c : Collector) : Type 0 where
  pub not_before : later + 15 * second ≤ c.next_automatic
  pub not_after : c.next_automatic ≤ later + 300 * second

back_off-IsScheduled : (later : ℕ) (c : Collector) → IsScheduled later (back_off false later c)
unfolding back_off backoff_seconds
back_off-IsScheduled later c = ground arith

update-IsScheduled :
    (later wall : ℕ) (r : Result Bool × MetricStore) (c : Collector) (b : Bool)
    → r.0 ≡ ok b
    → IsScheduled later (note_update false later wall r c).1
unfolding note_update
update-IsScheduled later wall r c b h = ground arith

note_failure-IsScheduled :
    (later wall : ℕ) (st : ProviderState) (code : Option String) (c : Collector)
    → IsScheduled later (note_failure false later wall st code c)
unfolding note_failure
note_failure-IsScheduled later wall st code c =
    back_off-IsScheduled later
      (record c { store = (mark_provider c.store "claude" st wall code).1 })

handle-IsScheduled :
    (later wall : ℕ) (answer : Result BrokerResult) (c : Collector)
    → IsAnswer answer
    → IsScheduled later (handle false later wall answer c).1
unfolding handle IsAnswer note_failure
handle-IsScheduled later wall (ok r) c h =
    if_holds (λ (out : Result (Unit {0}) × Collector). IsScheduled later out.1)
      (str_eq r.status "OK")
      (note_update false later wall (update_claude c.store r.metrics (int (pos r.sequence))) c)
      (ok tt, note_failure false later wall r.provider_state r.redacted_error_code c)
      (λ e.
        let (checked, hc) = h.accepted ((eq_iff r.status "OK").0 e) in
        let (b, hb) = update_claude_returns c.store r.metrics (int (pos r.sequence)) checked hc in
        update-IsScheduled later wall (update_claude c.store r.metrics (int (pos r.sequence))) c b
          hb)
      (λ _. note_failure-IsScheduled later wall r.provider_state r.redacted_error_code c)
handle-IsScheduled later wall (err e) c (s, inl h) =
    rw h (note_failure-IsScheduled later wall provider_error (some "broker_failure") c)
handle-IsScheduled later wall (err e) c (s, inr h) =
    rw h (note_failure-IsScheduled later wall provider_error (some "broker_failure") c)

-- After an automatic acquisition that returns what `parse_broker_line` accepts, or raises one of the
-- two errors that the worker catches, the next one is due 15 to 300 seconds after its end.
pub automatic_schedule :
    (x : Round) (c : Collector) → IsAnswer x.answer → IsScheduled x.later (attempt false x c).1
unfolding attempt finally_finish begin_attempt
automatic_schedule x c h = handle-IsScheduled x.later x.wall x.answer (happen_all x.during c) h
