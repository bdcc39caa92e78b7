-- ===== src/Claude/Collector/Alive.antt =====
-- The worker of the Claude collector survives whatever the broker answers.
use limit_halo.Prelude.{
  ◌&&◌, if_holds, sym, ap, ◌∙◌, refl, ℕ, ◌≡◌, ◌≤◌, String, Bool, true, false, List, [], ◌∷◌, str_eq,
  arith, Bool-cases, ◌⊎◌, inl, inr, eq_iff,
}
use limit_halo.Prelude.Int.{pos}
use limit_halo.Prelude.Result.{Error, Result, ok, err, broker_failure, os_error}
use limit_halo.Json.{int}
use limit_halo.Model.Store.{MetricStore, update_claude}
use limit_halo.Model.Store.Returns.{update_claude_returns}
use limit_halo.Model.Coalescer.{request, complete, at, put}
use limit_halo.Claude.Broker.{BrokerResult}
use limit_halo.Claude.Broker.Accepted.{IsReport}
use limit_halo.Claude.Collector.{
  not, next_run, run_rounds, Option, ProviderState, ltb, back_off, Round, some, Coalescer,
  provider_error, note_failure, begin_attempt, attempt, iteration, finally_finish, body, Collector,
  Event, request_refresh, request_stop, happen, happen_all, finish_manual, note_update, handle,
}

-- An event that is set, and not by a stop, belongs to an active refresh.
pub record IsArmed (c : Collector) : Type 0 where
  pub armed : c.manual_event ≡ true → c.stop ≡ false → c.manual.active.claude ≡ true
  pub coalesced : c.manual.pending.claude ≡ true → c.manual.active.claude ≡ true
  pub bounded : c.failure_index ≤ 2

-- What the acquisition may do: return a report, or raise one of the two errors that are caught.
unfoldable pub IsAnswer : Result BrokerResult → Type 0
IsAnswer (ok r) = IsReport r.sequence r
IsAnswer (err e) = (s : String) × ((e ≡ broker_failure s) ⊎ (e ≡ os_error s))

happen-IsArmed : (c : Collector) (e : Event) → IsArmed c → IsArmed (happen c e)
unfolding happen request_refresh request_stop request at put
happen-IsArmed c e h = ground arith

happen_all-IsArmed : (es : List Event) (c : Collector) → IsArmed c → IsArmed (happen_all es c)
unfolding happen_all
happen_all-IsArmed [] c h = h
happen_all-IsArmed (e ∷ es) c h = happen_all-IsArmed es (happen c e) (happen-IsArmed c e h)

happen_active :
    (c : Collector) (e : Event)
    → c.manual.active.claude ≡ true
    → (happen c e).manual.active.claude ≡ true
unfolding happen request_refresh request_stop request at put
happen_active c e h = ground arith

happen_all_active :
    (es : List Event) (c : Collector)
    → c.manual.active.claude ≡ true
    → (happen_all es c).manual.active.claude ≡ true
unfolding happen_all
happen_all_active [] c h = h
happen_all_active (e ∷ es) c h = happen_all_active es (happen c e) (happen_active c e h)

finish_manual_returns :
    (c : Collector) → c.manual.active.claude ≡ true → (finish_manual c).0 ≡ ok tt
unfolding finish_manual complete at put
finish_manual_returns c h = ground arith

-- Without a stop a set event after the end of a manual refresh is that of the pending one.
pub record IsManual (c : Collector) : Type 0 where
  pub active : c.manual.active.claude ≡ true
  pub idle : c.manual_event ≡ true → c.stop ≡ true
  pub bounded : c.failure_index ≤ 2

finish_manual-IsArmed : (c : Collector) → IsManual c → IsArmed (finish_manual c).1
unfolding finish_manual complete at put
finish_manual-IsArmed c h = ground arith

happen-IsManual : (c : Collector) (e : Event) → IsManual c → IsManual (happen c e)
unfolding happen request_refresh request_stop request at put
happen-IsManual c e h = ground arith

happen_all-IsManual : (es : List Event) (c : Collector) → IsManual c → IsManual (happen_all es c)
unfolding happen_all
happen_all-IsManual [] c h = h
happen_all-IsManual (e ∷ es) c h = happen_all-IsManual es (happen c e) (happen-IsManual c e h)

note_update_returns :
    (manual : Bool) (later wall : ℕ) (r : Result Bool × MetricStore) (c : Collector) (b : Bool)
    → r.0 ≡ ok b
    → (note_update manual later wall r c).0 ≡ ok tt
unfolding note_update
note_update_returns manual later wall r c b h = ground arith

handle_returns :
    (manual : Bool) (later wall : ℕ) (answer : Result BrokerResult) (c : Collector)
    → IsAnswer answer
    → (handle manual later wall answer c).0 ≡ ok tt
unfolding handle IsAnswer
handle_returns manual later wall (ok r) c h = elim (Bool-cases (str_eq r.status "OK")) [
  | inl e ↦
      let (checked, hc) = h.accepted ((eq_iff r.status "OK").0 e) in
      let (b, hb) = update_claude_returns c.store r.metrics (int (pos r.sequence)) checked hc in
      rw e (
        note_update_returns manual later wall
          (update_claude c.store r.metrics (int (pos r.sequence))) c b hb)
  | inr e ↦ simp e
]
handle_returns manual later wall (err e) c (s, inl h) = simp h
handle_returns manual later wall (err e) c (s, inr h) = simp h

-- What the handling of an answer leaves alone.
pub record IsHandled (c d : Collector) : Type 0 where
  pub same_stop : d.stop ≡ c.stop
  pub same_event : d.manual_event ≡ c.manual_event
  pub same_manual : d.manual ≡ c.manual
  pub bounded : c.failure_index ≤ 2 → d.failure_index ≤ 2

note_failure-IsHandled :
    (manual : Bool) (later wall : ℕ) (st : ProviderState) (code : Option String) (c : Collector)
    → IsHandled c (note_failure manual later wall st code c)
unfolding note_failure back_off
note_failure-IsHandled manual later wall st code c = ground arith

note_update-IsHandled :
    (manual : Bool) (later wall : ℕ) (r : Result Bool × MetricStore) (c : Collector)
    → IsHandled c (note_update manual later wall r c).1
unfolding note_update
note_update-IsHandled manual later wall r c = ground arith

same-IsHandled : (c : Collector) → IsHandled c c
same-IsHandled c = record {
  same_stop = refl;
  same_event = refl;
  same_manual = refl;
  bounded = λ h. h;
}

handle-IsHandled :
    (manual : Bool) (later wall : ℕ) (answer : Result BrokerResult) (c : Collector)
    → IsAnswer answer
    → IsHandled c (handle manual later wall answer c).1
unfolding handle IsAnswer
handle-IsHandled manual later wall (ok r) c h = elim (Bool-cases (str_eq r.status "OK")) [
  | inl e ↦ rw e (
      note_update-IsHandled manual later wall
        (update_claude c.store r.metrics (int (pos r.sequence))) c)
  | inr e ↦ rw e (note_failure-IsHandled manual later wall r.provider_state r.redacted_error_code c)
]
handle-IsHandled manual later wall (err e) c (s, inl h) =
    rw h (note_failure-IsHandled manual later wall provider_error (some "broker_failure") c)
handle-IsHandled manual later wall (err e) c (s, inr h) =
    rw h (note_failure-IsHandled manual later wall provider_error (some "broker_failure") c)

-- An iteration that returned, and what holds after it.
pub record Survives (out : Result (Unit {0}) × Collector) : Type 0 where
  pub returned : out.0 ≡ ok tt
  pub sound : IsArmed out.1

handled-IsManual : (c d : Collector) → IsManual c → IsHandled c d → IsManual d
handled-IsManual c d m h = record {
  active = simp (h.same_manual, m.active);
  idle = λ e. h.same_stop ∙ m.idle (sym h.same_event ∙ e);
  bounded = h.bounded m.bounded;
}

handled-IsArmed : (c d : Collector) → IsArmed c → IsHandled c d → IsArmed d
handled-IsArmed c d a h = record {
  armed = λ e s.
      ap (λ (x : Coalescer). x.active.claude) h.same_manual
      ∙ a.armed (sym h.same_event ∙ e) (sym h.same_stop ∙ s);
  coalesced = λ p.
      ap (λ (x : Coalescer). x.active.claude) h.same_manual
      ∙ a.coalesced (sym (ap (λ (x : Coalescer). x.pending.claude) h.same_manual) ∙ p);
  bounded = h.bounded a.bounded;
}

finished-Survives :
    (c : Collector) (out : Result (Unit {0}) × Collector)
    → IsManual c
    → IsHandled c out.1
    → out.0 ≡ ok tt
    → Survives (finally_finish true out)
unfolding finally_finish
finished-Survives c (r, d) m h returned =
    let manual = handled-IsManual c d m h in
    record {
      returned = simp (returned, finish_manual_returns d manual.active);
      sound = finish_manual-IsArmed d manual;
    }

unfinished-Survives :
    (c : Collector) (out : Result (Unit {0}) × Collector)
    → IsArmed c
    → IsHandled c out.1
    → out.0 ≡ ok tt
    → Survives (finally_finish false out)
unfolding finally_finish
unfinished-Survives c (r, d) a h returned = record {
  returned = returned;
  sound = handled-IsArmed c d a h;
}

begin-IsManual :
    (c : Collector) (wall : ℕ)
    → IsArmed c
    → c.manual_event ≡ true
    → c.stop ≡ false
    → IsManual (begin_attempt true wall c)
unfolding begin_attempt
begin-IsManual c wall a e s = record { active = a.armed e s; idle = λ h. cc; bounded = a.bounded }

manual_attempt-Survives :
    (x : Round) (c : Collector)
    → IsAnswer x.answer
    → IsArmed c
    → c.manual_event ≡ true
    → c.stop ≡ false
    → Survives (attempt true x c)
unfolding attempt
manual_attempt-Survives x c h a e s =
    let before = happen_all x.during (begin_attempt true x.wall c) in
    let ready =
      happen_all-IsManual x.during (begin_attempt true x.wall c) (begin-IsManual c x.wall a e s) in
    finished-Survives before (handle true x.later x.wall x.answer before) ready
      (handle-IsHandled true x.later x.wall x.answer before h)
      (handle_returns true x.later x.wall x.answer before h)

automatic_attempt-Survives :
    (x : Round) (c : Collector) → IsAnswer x.answer → IsArmed c → Survives (attempt false x c)
unfolding attempt begin_attempt
automatic_attempt-Survives x c h a =
    let before = happen_all x.during c in
    unfinished-Survives before (handle false x.later x.wall x.answer before)
      (happen_all-IsArmed x.during c a) (handle-IsHandled false x.later x.wall x.answer before h)
      (handle_returns false x.later x.wall x.answer before h)

attempt-Survives :
    (x : Round) (c : Collector) (manual : Bool)
    → c.manual_event ≡ manual
    → IsAnswer x.answer
    → IsArmed c
    → c.stop ≡ false
    → Survives (attempt manual x c)
attempt-Survives x c true e h a s = manual_attempt-Survives x c h a e s
attempt-Survives x c false e h a s = automatic_attempt-Survives x c h a

body-Survives :
    (x : Round) (c : Collector)
    → IsAnswer x.answer
    → IsArmed c
    → c.stop ≡ false
    → Survives (body x c)
unfolding body
body-Survives x c h a s =
    if_holds Survives (not c.manual_event && ltb x.now c.next_automatic) (ok tt, c)
      (attempt c.manual_event x c) (λ _. record { returned = refl; sound = a })
      (λ _. attempt-Survives x c c.manual_event refl h a s)

-- Only requests arrive between the test of the loop and that of the event.
unfoldable pub OnlyAsked : List Event → Type 0
OnlyAsked [] = Unit {0}
OnlyAsked (Event.asked ∷ es) = OnlyAsked es
OnlyAsked (Event.stopped ∷ es) = ⊥

asked_stop : (es : List Event) (c : Collector) → OnlyAsked es → (happen_all es c).stop ≡ c.stop
unfolding OnlyAsked happen_all happen request_refresh
asked_stop [] c h = refl
asked_stop (Event.asked ∷ es) c h = asked_stop es (request_refresh c) h
asked_stop (Event.stopped ∷ es) c h = elim h [ ]

pub iteration-Survives :
    (x : Round) (c : Collector)
    → IsAnswer x.answer
    → OnlyAsked x.entering
    → IsArmed c
    → Survives (iteration x c)
unfolding iteration
iteration-Survives x c h o a =
    if_holds Survives c.stop (ok tt, c) (body x (happen_all x.entering c))
      (λ _. record { returned = refl; sound = a })
      (λ s.
        body-Survives x (happen_all x.entering c) h (happen_all-IsArmed x.entering c a)
          (asked_stop x.entering c o ∙ s))

-- Rounds in which the broker answers or fails, and in which no stop comes between the two tests.
unfoldable pub AllOrdinary : List Round → Type 0
AllOrdinary [] = Unit {0}
AllOrdinary (x ∷ xs) = IsAnswer x.answer × OnlyAsked x.entering × AllOrdinary xs

err_returned : (e : Error) → ◌≡◌ {A = Result (Unit {0})} (err e) (ok tt) → ⊥
err_returned e h = cc

next-Survives :
    (out : Result (Unit {0}) × Collector) (next : Collector → Result (Unit {0}) × Collector)
    → Survives out
    → ((c : Collector) → IsArmed c → Survives (next c))
    → Survives (next_run out next)
next-Survives (ok tt, c) next h f = f c h.sound
next-Survives (err e, c) next h f = absurd (err_returned e h.returned)

-- A worker never ends by an exception, and its index into the table of delays stays in the table, if
-- it begins in a state in which a manual event that is set belongs to a refresh that is active,
-- unless a stop is requested, in which a refresh is active where one is pending, and in which the
-- index is at most 2: that of a new collector, and not that of one that is started again after a
-- stop, whose event `start` leaves set. This holds while the broker returns what `parse_broker_line`
-- accepts or raises the errors that the worker catches, and while no stop comes between the test of
-- the loop and that of the manual event. Manual requests may come at any time, a stop also during an
-- acquisition.
pub run_rounds-Survives :
    (xs : List Round) (c : Collector) → AllOrdinary xs → IsArmed c → Survives (run_rounds xs c)
unfolding run_rounds AllOrdinary
run_rounds-Survives [] c h a = record { returned = refl; sound = a }
run_rounds-Survives (x ∷ xs) c (h, o, rest) a =
    next-Survives (iteration x c) (run_rounds xs) (iteration-Survives x c h o a)
      (λ d. run_rounds-Survives xs d rest)
