-- ===== src/Claude/Broker/Answers.antt =====
-- The metrics of a successful broker answer, as the store checks them.
use limit_halo.Prelude.{
  ap, sym, ◌∙◌, ℕ, ◌*◌, ◌≡◌, ◌⊎◌, inl, inr, refl, String, Bool, true, false, ◌||◌, List, [], ◌∷◌,
  ◌==◌, arith,
}
use limit_halo.Prelude.Int.{pos}
use limit_halo.Prelude.Result.{Error, ok, ◌>>=◌, raise_if, bind_returned, then_returned}
use limit_halo.Dict.{lookup, insert, keys}
use limit_halo.Json.{Value, Fields, null, bool, int, float, str, arr, obj, get, is_null}
use limit_halo.Model.Metric.{
  ProviderState, ready, unavailable, Metric, IsValid, make_metric, second, is_ready, is_unavailable,
}
use limit_halo.Model.Metric.Validity.{make_metric-IsValid, make_metric_fields}
use limit_halo.Model.Store.{Freshness, one_observation, check_claude, by_key, snapshot_freshness}
use limit_halo.Claude.Frame.{need_object}
use limit_halo.Claude.Broker.{Dict, broker_failure, parse_metric, parse_metrics, window_minutes}

-- A metric of a broker answer.
pub record IsAnswered (key : String) (time : ℕ) (st : ProviderState) (m : Metric) : Type 0 where
  pub keyed : m.key ≡ key
  pub of_claude : m.provider ≡ "claude"
  pub in_state : m.state ≡ st
  pub observed : m.observed_at ≡ time
  pub valid : IsValid m

made-IsAnswered :
    (key : String) (duration used reset : Value) (st : ProviderState) (time : ℕ) (m : Metric)
    → make_metric key "claude" duration used reset st time ≡ ok m
    → IsAnswered key time st m
made-IsAnswered key duration used reset st time m h =
    let (k, p, s, o) = make_metric_fields key "claude" duration used reset st time m h in
    record {
      keyed = k;
      of_claude = p;
      in_state = s;
      observed = o;
      valid = make_metric-IsValid key "claude" duration used reset st time h;
    }

abbrev pub answered_state : Value → ProviderState
answered_state null = unavailable
answered_state _ = ready

parse_object-IsAnswered :
    (key : String) (observed : ℕ) (fs : Fields) (m : Metric)
    → parse_metric key observed (obj fs) ≡ ok m
    → IsAnswered key (observed * second) ready m
unfolding parse_metric need_object
parse_object-IsAnswered key observed fs m h = grind (arith, made-IsAnswered)

parse_null-IsAnswered :
    (key : String) (observed : ℕ) (m : Metric)
    → parse_metric key observed null ≡ ok m
    → IsAnswered key (observed * second) unavailable m
unfolding parse_metric
parse_null-IsAnswered key observed m h =
    made-IsAnswered key (int (pos (window_minutes key))) null null unavailable (observed * second) m
      h

parse_metric-IsAnswered :
    (key : String) (observed : ℕ) (value : Value) (m : Metric)
    → parse_metric key observed value ≡ ok m
    → IsAnswered key (observed * second) (answered_state value) m
parse_metric-IsAnswered key observed null m h = parse_null-IsAnswered key observed m h
parse_metric-IsAnswered key observed (obj fs) m h = parse_object-IsAnswered key observed fs m h
parse_metric-IsAnswered key observed _ m h = unfold parse_metric need_object in cc

abbrev pub field : String → Fields → Value
field name values = get name values

-- The three metrics of an answer, in their order.
pub record AreAnswered (values : Fields) (time : ℕ) (ms : List Metric) : Type 0 where
  pub session : Metric
  pub weekly : Metric
  pub fable : Metric
  pub listed : ms ≡ session ∷ weekly ∷ fable ∷ []
  pub baseline : is_null (get "claude_session" values) ≡ false
  pub session_ok :
      IsAnswered "claude_300" time (answered_state (get "claude_session" values)) session
  pub weekly_ok :
      IsAnswered "claude_10080" time (answered_state (get "claude_weekly_all" values)) weekly
  pub fable_ok :
      IsAnswered "claude_fable_10080" time (answered_state (get "claude_fable_weekly" values)) fable

pub ==_same : (n : ℕ) → (n == n) ≡ true
==_same n = ground arith

null_raised : (b : Bool) (e : Error) → raise_if b e ≡ ok tt → b ≡ false
null_raised b e h = ground arith

pub parse_metrics-AreAnswered :
    (values : Fields) (observed : ℕ) (ms : List Metric)
    → parse_metrics values observed ≡ ok ms
    → AreAnswered values (observed * second) ms
unfolding parse_metrics
parse_metrics-AreAnswered values observed ms h =
    let failure = broker_failure "broker baseline metric unavailable" in
    let missing = is_null (get "claude_session" values) in
    let third = λ (s : Metric) (w : Metric).
      parse_metric "claude_fable_10080" observed (get "claude_fable_weekly" values) >>= λ fable.
      ok (s ∷ w ∷ fable ∷ []) in
    let second = λ (s : Metric).
      parse_metric "claude_10080" observed (get "claude_weekly_all" values) >>= third s in
    let first = parse_metric "claude_300" observed (get "claude_session" values) in
    let (r, h0) = then_returned (raise_if missing failure) (first >>= second) h in
    let (s, hs, h1) = bind_returned first second h0 in
    let (w, hw, h2) =
      bind_returned (parse_metric "claude_10080" observed (get "claude_weekly_all" values))
        (third s) h1 in
    let (f, hf, h3) =
      bind_returned (parse_metric "claude_fable_10080" observed (get "claude_fable_weekly" values))
        (λ (fable : Metric). ok (s ∷ w ∷ fable ∷ [])) h2 in
    record {
      session = s;
      weekly = w;
      fable = f;
      listed = cc;
      baseline = null_raised missing failure r;
      session_ok = parse_metric-IsAnswered "claude_300" observed (get "claude_session" values) s hs;
      weekly_ok =
          parse_metric-IsAnswered "claude_10080" observed (get "claude_weekly_all" values) w hw;
      fable_ok =
          parse_metric-IsAnswered "claude_fable_10080" observed (get "claude_fable_weekly" values) f
            hf;
    }

answered_state-cases :
    (value : Value) → (answered_state value ≡ ready) ⊎ (answered_state value ≡ unavailable)
answered_state-cases null = inr refl
answered_state-cases (bool _) = inl refl
answered_state-cases (int _) = inl refl
answered_state-cases (float _) = inl refl
answered_state-cases (str _) = inl refl
answered_state-cases (arr _) = inl refl
answered_state-cases (obj _) = inl refl

answered_state_ready : (value : Value) → is_null value ≡ false → answered_state value ≡ ready
answered_state_ready null h = cc
answered_state_ready (bool _) h = refl
answered_state_ready (int _) h = refl
answered_state_ready (float _) h = refl
answered_state_ready (str _) h = refl
answered_state_ready (arr _) h = refl
answered_state_ready (obj _) h = refl

three_keyed :
    (s w f : Metric)
    → s.key ≡ "claude_300"
    → w.key ≡ "claude_10080"
    → f.key ≡ "claude_fable_10080"
    → by_key [] (s ∷ w ∷ f ∷ [])
      ≡ ("claude_300", s) ∷ ("claude_10080", w) ∷ ("claude_fable_10080", f) ∷ []
unfolding by_key insert
three_keyed s w f ks kw kf = simp (ks, kw, kf)

three_fresh :
    (s w f : Metric) (sequence : ℕ)
    → w.observed_at ≡ s.observed_at
    → f.observed_at ≡ s.observed_at
    → snapshot_freshness (s ∷ w ∷ f ∷ []) (int (pos sequence)) ≡ ok (s.observed_at, sequence)
unfolding snapshot_freshness one_observation
three_fresh s w f sequence ow of = simp (ow, of, ==_same)

-- The store accepts the shape of every answer.
three_checked :
    (s w f : Metric) (sequence : ℕ)
    → s.key ≡ "claude_300"
    → w.key ≡ "claude_10080"
    → f.key ≡ "claude_fable_10080"
    → s.provider ≡ "claude"
    → w.provider ≡ "claude"
    → f.provider ≡ "claude"
    → s.state ≡ ready
    → (is_ready w.state || is_unavailable w.state) ≡ true
    → (is_ready f.state || is_unavailable f.state) ≡ true
    → w.observed_at ≡ s.observed_at
    → f.observed_at ≡ s.observed_at
    → check_claude (s ∷ w ∷ f ∷ []) (int (pos sequence))
      ≡ ok (
        ("claude_300", s) ∷ ("claude_10080", w) ∷ ("claude_fable_10080", f) ∷ [],
        (s.observed_at, sequence),
      )
unfolding check_claude lookup keys
three_checked s w f sequence ks kw kf ps pw pf ss sw sf ow of =
    simp (three_keyed s w f ks kw kf, three_fresh s w f sequence ow of, ps, pw, pf, ss, sw, sf)

answered_allowed :
    (value : Value) (m : Metric)
    → m.state ≡ answered_state value
    → (is_ready m.state || is_unavailable m.state) ≡ true
answered_allowed value m h = elim (answered_state-cases value) [
  | inl e ↦ simp (h, e)
  | inr e ↦ simp (h, e)
]

pub checked_answer :
    (values : Fields) (time sequence : ℕ) (ms : List Metric)
    → AreAnswered values time ms
    → (c : Dict Metric × Freshness) × (check_claude ms (int (pos sequence)) ≡ ok c)
checked_answer values time sequence ms a =
    let h =
      three_checked a.session a.weekly a.fable sequence a.session_ok.keyed a.weekly_ok.keyed
        a.fable_ok.keyed a.session_ok.of_claude a.weekly_ok.of_claude a.fable_ok.of_claude
        (a.session_ok.in_state ∙ answered_state_ready (get "claude_session" values) a.baseline)
        (answered_allowed (get "claude_weekly_all" values) a.weekly a.weekly_ok.in_state)
        (answered_allowed (get "claude_fable_weekly" values) a.fable a.fable_ok.in_state)
        (a.weekly_ok.observed ∙ sym a.session_ok.observed)
        (a.fable_ok.observed ∙ sym a.session_ok.observed) in
    (
      (
        ("claude_300", a.session)
            ∷ ("claude_10080", a.weekly)
            ∷ ("claude_fable_10080", a.fable)
            ∷ [],
        (a.session.observed_at, sequence),
      ),
      ap (λ ms'. check_claude ms' (int (pos sequence))) a.listed ∙ h,
    )
