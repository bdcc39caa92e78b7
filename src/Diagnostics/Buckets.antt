-- ===== src/Diagnostics/Buckets.antt =====
-- The buckets of src/limit_halo/diagnostics.py are the nearest and the most severe ones.
use limit_halo.Prelude.{
  ℕ, ◌≡◌, ◌≤◌, refl, Bool, true, false, ◌||◌, some, List, [], ◌∷◌, arith, All, any, Bool-cases, ◌⊎◌,
  inl, inr,
}
use limit_halo.Prelude.Int.{pos}
use limit_halo.Json.{int}
use limit_halo.Model.Metric.{
  Metric, ProviderState, ready, refreshing, stale, offline, authorization_required, provider_error,
  disabled, unavailable,
}
use limit_halo.Diagnostics.{
  dpi_bucket, distance, has_state, same_state, state_name, first_state, state_order,
  provider_state_of,
}
use limit_halo.Config.{AppConfig, claude_enabled}
use limit_halo.Prelude.{sym, ap, ◌∙◌, eq_iff, if◌then◌else◌, String, str_eq, not, ◌&&◌}

-- One of the four resolutions that are reported.
abbrev pub IsBucket : ℕ → Type 0
IsBucket n = (n ≡ 96) ⊎ ((n ≡ 120) ⊎ ((n ≡ 144) ⊎ (n ≡ 192)))

-- For a positive resolution the result is one of 96, 120, 144 and 192, and none of the four is nearer
-- to the resolution.
pub dpi_bucket_nearest :
    (dpi : ℕ)
    → 1 ≤ dpi
    → IsBucket (dpi_bucket (int (pos dpi)))
      × All
          (λ bucket. distance (dpi_bucket (int (pos dpi))) dpi ≤ distance bucket dpi)
          (96 ∷ 120 ∷ 144 ∷ 192 ∷ [])
unfolding dpi_bucket
dpi_bucket_nearest dpi h = ground arith

-- How urgent a state is for the person, the most urgent first.
unfoldable pub rank : ProviderState → ℕ
rank authorization_required = 0
rank provider_error = 1
rank offline = 2
rank stale = 3
rank refreshing = 4
rank unavailable = 5
rank disabled = 6
rank ready = 7

-- The states of a list get less urgent.
Descends : List ProviderState → Type 0
Descends [] = Unit {0}
Descends (t ∷ ts) = All (λ u. rank t ≤ rank u) ts × Descends ts

first_false : (a b : Bool) → (a || b) ≡ false → a ≡ false
first_false a b h = ground arith

second_false : (a b : Bool) → (a || b) ≡ false → b ≡ false
second_false a b h = ground arith

rest_found :
    (s t : ProviderState) (ts : List ProviderState)
    → any (same_state s) (t ∷ ts) ≡ true
    → same_state s t ≡ false
    → any (same_state s) ts ≡ true
rest_found s t ts h e = grind arith

abbrev named : String → ProviderState
named name =
    if str_eq name "ready"
    then ready
    else if str_eq name "refreshing"
    then refreshing
    else if str_eq name "stale"
    then stale
    else if str_eq name "offline"
    then offline
    else if str_eq name "authorization_required"
    then authorization_required
    else if str_eq name "provider_error"
    then provider_error
    else if str_eq name "claude_disabled"
    then disabled
    else unavailable

named-state_name : (s : ProviderState) → named (state_name s) ≡ s
unfolding state_name
named-state_name ready = refl
named-state_name refreshing = refl
named-state_name stale = refl
named-state_name offline = refl
named-state_name authorization_required = refl
named-state_name provider_error = refl
named-state_name disabled = refl
named-state_name unavailable = refl

same_state_eq : (s t : ProviderState) → same_state s t ≡ true → s ≡ t
same_state_eq s t h =
    sym (named-state_name s)
    ∙ ap named ((eq_iff (state_name s) (state_name t)).0 h)
    ∙ named-state_name t

any_order : (s : ProviderState) → any (same_state s) state_order ≡ true
unfolding state_name
any_order ready = refl
any_order refreshing = refl
any_order stale = refl
any_order offline = refl
any_order authorization_required = refl
any_order provider_error = refl
any_order disabled = refl
any_order unavailable = refl

All-any_order :
    (ms : List Metric) → All (λ (m : Metric). any (same_state m.state) state_order ≡ true) ms
All-any_order [] = tt
All-any_order (m ∷ ms) = (any_order m.state, All-any_order ms)

state_order-Descends : Descends state_order
unfolding Descends rank
state_order-Descends = ground arith

-- A state of a list is no more urgent than a bound of its members.
any_bound :
    (r : ℕ) (s : ProviderState) (ts : List ProviderState)
    → any (same_state s) ts ≡ true
    → All (λ u. r ≤ rank u) ts
    → r ≤ rank s
any_bound r s [] h a = cc
any_bound r s (t ∷ ts) h (b, bs) = elim (Bool-cases (same_state s t)) [
  | inl e ↦ let same = same_state_eq s t e in rw same b
  | inr e ↦ any_bound r s ts (rest_found s t ts h e) bs
]

All-any_bound :
    (r : ℕ) (ts : List ProviderState) (ms : List Metric)
    → All (λ u. r ≤ rank u) ts
    → All (λ (m : Metric). any (same_state m.state) ts ≡ true) ms
    → All (λ (m : Metric). r ≤ rank m.state) ms
All-any_bound r ts [] b a = tt
All-any_bound r ts (m ∷ ms) b (a, as') = (any_bound r m.state ts a b, All-any_bound r ts ms b as')

-- No metric has the first state of the order.
All-any_rest :
    (t : ProviderState) (ts : List ProviderState) (ms : List Metric)
    → has_state t ms ≡ false
    → All (λ (m : Metric). any (same_state m.state) (t ∷ ts) ≡ true) ms
    → All (λ (m : Metric). any (same_state m.state) ts ≡ true) ms
All-any_rest t ts [] e a = tt
All-any_rest t ts (m ∷ ms) e (a, as') = (
  rest_found m.state t ts a (first_false (same_state m.state t) (has_state t ms) e),
  All-any_rest t ts ms (second_false (same_state m.state t) (has_state t ms) e) as',
)

first_state_urgent :
    (order : List ProviderState) (m : Metric) (ms : List Metric)
    → Descends order
    → All (λ (n : Metric). any (same_state n.state) order ≡ true) (m ∷ ms)
    → (s : ProviderState) × (first_state order (m ∷ ms) ≡ some s)
      × (has_state s (m ∷ ms) ≡ true)
      × All (λ (n : Metric). rank s ≤ rank n.state) (m ∷ ms)
unfolding first_state Descends
first_state_urgent [] m ms d (a, as') = absurd (ground arith)
first_state_urgent (t ∷ ts) m ms (b, d) a = elim (Bool-cases (has_state t (m ∷ ms))) [
  | inl e ↦ (t, simp e, e, All-any_bound (rank t) (t ∷ ts) (m ∷ ms) (omega arith, b) a)
  | inr e ↦
      let (s, f, k, u) = first_state_urgent ts m ms d (All-any_rest t ts (m ∷ ms) e a) in
      (s, simp (e, f), k, u)
]

-- With at least one metric, and unless Claude is asked for and disabled, the state that is reported
-- of a provider is that of one of the metrics, and no metric has a more urgent one: an authorization
-- that is missing comes before a provider's error, then offline, stale, refreshing, unavailable,
-- disabled and ready.
pub provider_state_of_urgent :
    (m : Metric) (ms : List Metric) (provider : String) (config : AppConfig)
    → (str_eq provider "claude" && not (claude_enabled config)) ≡ false
    → (s : ProviderState) × (provider_state_of (m ∷ ms) provider config ≡ some s)
      × (has_state s (m ∷ ms) ≡ true)
      × All (λ (n : Metric). rank s ≤ rank n.state) (m ∷ ms)
unfolding provider_state_of
provider_state_of_urgent m ms provider config h =
    let (s, f, k, u) =
      first_state_urgent state_order m ms state_order-Descends (All-any_order (m ∷ ms)) in
    (s, simp (h, f), k, u)
