-- ===== src/Codex/Collector/Manual.antt =====
-- A manual refresh within a session of the Codex collector is completed.
use limit_halo.Prelude.{
  sym, ◌∙◌, ap, if_holds, ◌≡◌, refl, Bool, true, false, arith, List, [], ◌∷◌, ◌||◌,
}
use limit_halo.Prelude.Result.{Result, ok, err}
use limit_halo.Model.Metric.{Metric}
use limit_halo.Model.Store.{MetricStore, update_codex}
use limit_halo.Model.Coalescer.{complete, request, at, put}
use limit_halo.Codex.Collector.{
  Coalescer, none, refreshing, mark_provider, Poll, poll_once, waited, suc, pos, int,
  CodexCollector, Step, accept_snapshot, accepted_or, accept_reading, complete_after, finish_codex,
  CodexEvent, asked, stopped, happen_codex, request_codex, stop_codex, signal,
}

-- The fields that an accepted or refused snapshot leaves alone.
pub record KeepsManual (c d : CodexCollector) : Type 0 where
  pub same_manual : d.manual ≡ c.manual
  pub same_event : d.manual_event ≡ c.manual_event

accepted_or-KeepsManual :
    (r : Result Bool × MetricStore) (c : CodexCollector) → KeepsManual c (accepted_or r c).1
unfolding accepted_or
accepted_or-KeepsManual r c = ground arith

reading-KeepsManual :
    (r : Result (List Metric)) (c : CodexCollector) → KeepsManual c (accept_reading r c).1
unfolding accept_reading accept_snapshot
reading-KeepsManual (err e) c = record { same_manual = refl; same_event = refl }
reading-KeepsManual (ok ms) c =
    let h =
      accepted_or-KeepsManual (update_codex c.store ms (int (pos (suc c.acquisition_sequence))))
        (record c { acquisition_sequence = suc c.acquisition_sequence }) in
    record { same_manual = h.same_manual; same_event = h.same_event }

-- The refresh that was active is over; the event is set exactly when another one was pending.
pub record IsCompleted (pending : Bool) (d : CodexCollector) : Type 0 where
  pub event : d.manual_event ≡ pending
  pub active : d.manual.active.codex ≡ pending
  pub not_pending : d.manual.pending.codex ≡ false

complete-IsCompleted :
    (step : Step)
    → step.1.manual_event ≡ false
    → step.1.manual.active.codex ≡ true
    → IsCompleted step.1.manual.pending.codex (complete_after true step).1
unfolding complete_after finish_codex complete at put
complete-IsCompleted (r, c) e a = ground arith

-- Whether a request comes.
pub asks : List CodexEvent → Bool
asks [] = false
asks (asked ∷ es) = true
asks (stopped ∷ es) = asks es

-- While a refresh is active, requests only mark another one as pending.
record IsActive (c d : CodexCollector) (more : Bool) : Type 0 where
  event : d.manual_event ≡ c.manual_event
  active : d.manual.active.codex ≡ true
  pending : d.manual.pending.codex ≡ more

one-IsActive :
    (c : CodexCollector) → c.manual.active.codex ≡ true → IsActive c (request_codex c) true
unfolding request_codex signal request at put
one-IsActive c h = ground arith

or_false : (b : Bool) → (b || false) ≡ b
or_false b = ground arith

or_true : (b : Bool) → (b || true) ≡ true
or_true b = ground arith

happen_codex-IsActive :
    (es : List CodexEvent) (c : CodexCollector)
    → c.manual.active.codex ≡ true
    → IsActive c (happen_codex es c) (c.manual.pending.codex || asks es)
unfolding happen_codex stop_codex asks
happen_codex-IsActive [] c h = record {
  event = refl;
  active = h;
  pending = sym (or_false c.manual.pending.codex);
}
happen_codex-IsActive (asked ∷ es) c h =
    let one = one-IsActive c h in
    let rest = happen_codex-IsActive es (request_codex c) one.active in
    record {
      event = rest.event ∙ one.event;
      active = rest.active;
      pending =
          rest.pending ∙ ap (λ p. p || asks es) one.pending ∙ sym (or_true c.manual.pending.codex);
    }
happen_codex-IsActive (stopped ∷ es) c h =
    let rest = happen_codex-IsActive es (stop_codex c) h in
    record { event = rest.event; active = rest.active; pending = rest.pending }

-- A manual refresh that the inner loop takes up is completed whether the reading is good, refused by
-- the store or an exception: the event is set again, and the refresh still active, exactly when
-- another request was pending or came during the reading, which is then no longer pending.
pub poll_once-IsCompleted :
    (x : Poll) (c : CodexCollector)
    → c.manual_event ≡ true
    → c.manual.active.codex ≡ true
    → IsCompleted (c.manual.pending.codex || asks x.during) (poll_once x c).1
unfolding poll_once
poll_once-IsCompleted x c e a =
    let before = record c {
      manual_event = false;
      wake_event = false;
      store = (mark_provider c.store "codex" refreshing x.wall none).1;
    } in
    let met = happen_codex-IsActive x.during before a in
    let inside = happen_codex x.during before in
    let h = reading-KeepsManual x.reading inside in
    let step = accept_reading x.reading inside in
    let done =
      complete-IsCompleted step (h.same_event ∙ met.event)
        (ap (λ (m : Coalescer). m.active.codex) h.same_manual ∙ met.active) in
    let same = ap (λ (m : Coalescer). m.pending.codex) h.same_manual ∙ met.pending in
    if_holds (λ (out : Step). IsCompleted (c.manual.pending.codex || asks x.during) out.1)
      c.manual_event (complete_after true step) (waited x.update x c)
      (λ _. record {
        event = done.event ∙ same;
        active = done.active ∙ same;
        not_pending = done.not_pending;
      })
      (λ f. absurd (ground (arith, e, f)))
