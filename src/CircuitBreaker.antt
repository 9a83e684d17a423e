-- ===== src/CircuitBreaker.antt =====
-- circuitbreaker/transport.go. The breaker of gobreaker is a parameter: a state `B` and what its
-- Execute does around a call. The vectors of Prometheus are maps from the breaker's name.
use mathlib.Core.Option.{none-ne-some, some-injective}
use hwhkit_go.Prelude.{
  ℕ, suc, ◌+◌, ◌*◌, ◌<◌, String, ◌≡◌, refl, sym, ap, ◌∙◌, ◌⊎◌, inl, inr, Bool, true, false, Option,
  none, some, List, [], ◌∷◌, arith, eq_iff, leb, ◌==◌, nat_eq, string_eq, if◌then◌else◌, is_some,
  or_else,
}
use hwhkit_go.Prelude.Dict
use hwhkit_go.Prelude.Dict.{Dict, get-put}
use hwhkit_go.Prelude.Int.{ℤ, pos, negsuc, Duration, is_positive, second}
use hwhkit_go.Core.CoreError.{Error, plain, Result, ok, err}

-- Config: `max_failures` and `half_open_max_calls` are uint32.
pub record Config : Type 0 where
  pub name : String
  pub max_failures : ℕ
  pub interval : Duration
  pub timeout : Duration
  pub half_open_max_calls : ℕ

-- A gobreaker.State: an int with three names.
pub data State : Type 0 where
  state_closed state_half_open state_open : State
  other_state : ℤ → State

pub record Counts : Type 0 where
  pub consecutive_failures : ℕ

pub record Settings : Type 0 where
  pub settings_name : String
  pub max_requests : ℕ
  pub settings_interval : Duration
  pub settings_timeout : Duration
  pub ready_to_trip : Counts → Bool

pub record Metrics : Type 0 where
  pub state_gauge : Dict ℤ
  pub trips_counter : Dict ℕ

-- The defaults that NewTransport puts in.
unfoldable pub with_defaults : Config → Config
with_defaults cfg = record cfg {
  max_failures = if cfg.max_failures == 0 then 5 else cfg.max_failures;
  interval = if is_positive cfg.interval then cfg.interval else pos (60 * second);
  timeout = if is_positive cfg.timeout then cfg.timeout else pos (30 * second);
  half_open_max_calls = if cfg.half_open_max_calls == 0 then 3 else cfg.half_open_max_calls;
}

unfoldable pub settings_of : Config → Settings
unfolding with_defaults
settings_of config =
    let cfg = with_defaults config in
    record {
      settings_name = cfg.name;
      max_requests = cfg.half_open_max_calls;
      settings_interval = cfg.interval;
      settings_timeout = cfg.timeout;
      ready_to_trip = λ counts. leb cfg.max_failures counts.consecutive_failures;
    }

unfoldable pub state_value : State → ℤ
state_value state_closed = pos 0
state_value state_half_open = pos 1
state_value state_open = pos 2
state_value (other_state n) = negsuc 0

-- OnStateChange, as far as it looks at its arguments.
unfoldable pub on_state_change : String → State → Metrics → Metrics
unfolding state_value
on_state_change name to m =
    let gauge = Dict.put name (state_value to) m.state_gauge in
    let trips = or_else (Dict.get name m.trips_counter) 0 in
    elim to [
      | state_open ↦ record {
        state_gauge = gauge;
        trips_counter = Dict.put name (trips + 1) m.trips_counter;
      }
      | _ ↦ record m { state_gauge = gauge }
    ]

-- A response, as far as the transport looks at it: its status, and the rest.
pub record Response (Rest : Type 0) : Type 0 where
  pub status_code : ℕ
  pub rest : Rest

-- A Go pair of a response, which may be nil, and an error.
abbrev pub Outcome : Type 0 → Type 0
Outcome Rest = Option (Response Rest) × Option Error

module _ {Rest : Type 0} where
  -- The function that RoundTrip passes to Execute, on what the base transport has answered.
  unfoldable pub judge : Result (Response Rest) → Outcome Rest
  judge (err e) = (none, some e)
  judge (ok resp) =
      if leb 500 resp.status_code
      then (some resp, some (plain "upstream 5xx"))
      else (some resp, none)

-- `W` is what the base transport changes.
pub record Transport (W Request Rest B : Type 0) : Type 0 where
  pub base : Request → W → W × Result (Response Rest)
  pub breaker : B

-- NewTransport and Execute of gobreaker: a call may be refused, or is made and counted.
pub record Gobreaker (W Rest B : Type 0) : Type 0 where
  pub new_breaker : Settings → B
  pub execute : B → (W → W × Outcome Rest) → W → B × (W × Outcome Rest)

module _ {W Request Rest B : Type 0} (gobreaker : Gobreaker W Rest B)
    (default_transport : Request → W → W × Result (Response Rest)) where
  unfoldable pub new_transport :
      Option (Request → W → W × Result (Response Rest)) → Config → Transport W Request Rest B
  unfolding settings_of
  new_transport base cfg = record {
    base = or_else base default_transport;
    breaker = gobreaker.new_breaker (settings_of cfg);
  }

  unfoldable pub round_trip :
      Transport W Request Rest B → Request → W → Transport W Request Rest B × (W × Outcome Rest)
  unfolding judge
  round_trip t r w =
      let request : W → W × Outcome Rest =
        λ w. let (w', answer) = t.base r w in (w', judge answer) in
      let (b, result) = gobreaker.execute t.breaker request w in (record t { breaker = b }, result)

-- The callbacks of a list of transitions, each into a state.
abbrev pub transitions : String → List State → Metrics → Metrics
transitions name [] m = m
transitions name (to ∷ ts) m = transitions name ts (on_state_change name to m)

abbrev pub trips_of : String → Metrics → ℕ
trips_of name m = or_else (Dict.get name m.trips_counter) 0

abbrev pub opens : List State → ℕ
opens [] = 0
opens (state_open ∷ ts) = suc (opens ts)
opens (to ∷ ts) = opens ts

trips_of-on_state_change :
    (name : String) (to : State) (m : Metrics)
    → trips_of name (on_state_change name to m) ≡ opens (to ∷ []) + trips_of name m
unfolding on_state_change
trips_of-on_state_change name state_open m =
    ground (arith, get-put name name (trips_of name m + 1) m.trips_counter, eq_iff name name)
trips_of-on_state_change name state_closed m = ground arith
trips_of-on_state_change name state_half_open m = ground arith
trips_of-on_state_change name (other_state n) m = ground arith

-- The trips counter of a breaker grows by one for each transition into the open state, whatever
-- the other transitions are.
pub trips_of-transitions :
    (name : String) (ts : List State) (m : Metrics)
    → trips_of name (transitions name ts m) ≡ opens ts + trips_of name m
trips_of-transitions name [] m = ground arith
trips_of-transitions name (state_open ∷ ts) m = ground (
  arith,
  trips_of-transitions name ts (on_state_change name state_open m),
  trips_of-on_state_change name state_open m,
)
trips_of-transitions name (state_closed ∷ ts) m = ground (
  arith,
  trips_of-transitions name ts (on_state_change name state_closed m),
  trips_of-on_state_change name state_closed m,
)
trips_of-transitions name (state_half_open ∷ ts) m = ground (
  arith,
  trips_of-transitions name ts (on_state_change name state_half_open m),
  trips_of-on_state_change name state_half_open m,
)
trips_of-transitions name (other_state n ∷ ts) m = ground (
  arith,
  trips_of-transitions name ts (on_state_change name (other_state n) m),
  trips_of-on_state_change name (other_state n) m,
)

-- A breaker that NewTransport makes, from any Config, does not trip before a first failure; it
-- trips from MaxFailures failures in a row on, or 5 if that is 0; its interval and timeout are
-- positive and it lets at least one call through when it is half open.
pub settings_of_lem :
    (cfg : Config) (n : ℕ)
    → ((settings_of cfg).ready_to_trip (record { consecutive_failures = 0 }) ≡ false)
      × ((settings_of cfg).ready_to_trip (record { consecutive_failures = n })
          ≡ leb (if cfg.max_failures == 0 then 5 else cfg.max_failures) n)
      × (is_positive (settings_of cfg).settings_interval ≡ true)
      × (is_positive (settings_of cfg).settings_timeout ≡ true)
      × (0 < (settings_of cfg).max_requests)
unfolding settings_of with_defaults
settings_of_lem cfg n = (ground arith, refl, ground arith, ground arith, ground arith)

-- Execute does what gobreaker documents: it refuses a call with an error of its own, or makes it
-- once and gives back what it answers.
abbrev pub ExecutesOnce : {W Rest B : Type 0} → Gobreaker W Rest B → Type 0
ExecutesOnce {W} {Rest} {B} gobreaker =
    (b : B) (f : W → W × Outcome Rest) (w : W)
    → ((e : Error) × ((gobreaker.execute b f w).1 ≡ (w, (none, some e))))
      ⊎ ((gobreaker.execute b f w).1 ≡ f w)

judge-ok :
    {Rest : Type 0} (resp : Response Rest)
    → ((judge (ok resp)).0 ≡ some resp) × (is_some (judge (ok resp)).1 ≡ leb 500 resp.status_code)
unfolding judge
judge-ok resp = (ground arith, ground arith)

judged :
    {W Rest : Type 0} (x : W × Result (Response Rest)) (w' : W) (resp : Response Rest)
    (failure : Option Error)
    → ◌≡◌ {A = W × Outcome Rest} (x.0, judge x.1) (w', (some resp, failure))
    → (x ≡ (w', ok resp)) × (is_some failure ≡ leb 500 resp.status_code)
unfolding judge
judged (w1, err e) w' resp failure h = absurd (none-ne-some resp (ap (λ y. y.1.0) h))
judged (w1, ok r1) w' resp failure h =
    let (given, status) = judge-ok r1 in
    let same : r1 ≡ resp = some-injective r1 resp (sym given ∙ ap (λ y. y.1.0) h) in
    (
      ap (λ v. (v, ok r1)) (ap (λ y. y.0) h) ∙ ap (λ a. (w', ok a)) same,
      sym (ap (λ y. is_some y.1.1) h) ∙ status ∙ ap (λ a. leb 500 a.status_code) same,
    )

module _ {W Request Rest B : Type 0} (gobreaker : Gobreaker W Rest B)
    (default_transport : Request → W → W × Result (Response Rest)) where
  -- RoundTrip with a breaker that refuses a call or makes it once, where it returns a response: the
  -- base transport was asked and answered with that response, and there is an error beside it exactly
  -- if its status is at least 500.
  pub round_trip_lem :
      (t : Transport W Request Rest B) (r : Request) (w w' : W) (resp : Response Rest)
      (failure : Option Error)
      → ExecutesOnce gobreaker
      → (round_trip gobreaker default_transport t r w).1 ≡ (w', (some resp, failure))
      → (t.base r w ≡ (w', ok resp)) × (is_some failure ≡ leb 500 resp.status_code)
  unfolding round_trip
  round_trip_lem t r w w' resp failure once h =
      let request : W → W × Outcome Rest =
        λ w. let (w1, answer) = t.base r w in (w1, judge answer) in
      elim (once t.breaker request w) [
        | inl (e, refused) ↦ absurd (none-ne-some resp (ap (λ y. y.1.0) (sym refused ∙ h)))
        | inr made ↦ judged (t.base r w) w' resp failure (sym made ∙ h)
      ]
