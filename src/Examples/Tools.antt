-- ===== src/Examples/Tools.antt =====
-- The loader, the facade, the circuit breaker and the command line tool at concrete inputs.
use hwhkit_go.Prelude.{
  ℕ, ◌+◌, String, ◌≡◌, refl, inl, inr, true, Option, none, some, List, [], ◌∷◌, ◌++◌, map, leb,
  ◌==◌, nat_eq, string_eq, if◌then◌else◌, Bool-cases, or_else,
}
use hwhkit_go.Prelude.Int.{pos}
use hwhkit_go.Prelude.Text.{Bytes, append, join, strip_prefix}
use hwhkit_go.Config.Bootstrap.{default_bootstrap}
use hwhkit_go.Config.Loader.{
  Library, Loader, Stat, load, has_env_override, map_key, env_prefix, to_dots, trim_prefix,
}
use hwhkit_go.Config.Loader.Sources.{load_provenance, source_name, sources_of, replay, file_of}
use hwhkit_go.Config.Loader.EnvKeys.{map_key-join, is_segment}
use hwhkit_go.Core.AppContext.{AppContext}
use hwhkit_go.Core.CoreError
use hwhkit_go.Core.CoreError.{Error}
use hwhkit_go.Core.Bootstrap.{first_context, Loaded, init_providers, start, first_context}
use hwhkit_go.Core.Bootstrap.Providers.{outcomes, extended, result_of}
use hwhkit_go.Facade.{Setting, with_provider, with_loader, defaults, apply_all}
use hwhkit_go.Facade.Registration.{run_never_mismatches, required_failure}
use hwhkit_go.CircuitBreaker
use hwhkit_go.CircuitBreaker.{
  Gobreaker, Transport, Response, Metrics, round_trip, round_trip_lem, trips_of, transitions, opens,
  trips_of-transitions, settings_of, settings_of_lem, state_open, state_half_open, state_closed,
  ExecutesOnce,
}
use hwhkit_go.Examples.Setup.{
  sample_config, sample_settings, sample_loader, redis_provider, mail_provider,
}

-- A koanf that only keeps what has been loaded; the file is there and no variable is set.
abbrev notes : Library ℕ (List String) String
notes = record {
  empty = [];
  load_bytes = λ b k. CoreError.ok (k ++ "bytes" ∷ []);
  load_file = λ path k. CoreError.ok (k ++ path ∷ []);
  load_env = λ f k. CoreError.ok k;
  string_at = λ path k. if path == "remote.url" then "http://config" else "";
  int_at = λ path k. pos 0;
  unmarshal = λ k. CoreError.ok sample_config;
  validate = λ c. none;
  join_path = λ dir name. append dir (append "/" name);
  stat = λ path. Stat.present;
  environ = [];
  getenv = λ name. "";
  to_lower = λ s. s;
  format_int = λ n. "500";
  new_client = λ d. "client";
  new_request = λ url. none;
  send = λ client url d. CoreError.ok (record { status_code = 200; body = CoreError.ok [] });
}

abbrev plain_loader : Loader String
plain_loader = record { http_client = none }

abbrev loaded_sample : Loaded ℕ
loaded_sample = record {
  config = sample_config;
  applied_sources = "embedded:default.toml" ∷ "file:config/test.toml" ∷ "remote:http://config" ∷ [];
}

loads : load notes [] plain_loader (some sample_settings) ≡ CoreError.ok loaded_sample
unfolding load has_env_override
loads = refl

load_provenance_example :
    (f : Option String) × (r : Option (String × Bytes)) × (k : List String) × (f
      ≡ file_of notes [] (or_else (some sample_settings) (default_bootstrap notes.getenv)))
    × (loaded_sample.applied_sources
        ≡ map source_name (sources_of notes [] f (has_env_override notes) r))
    × (replay notes [] (sources_of notes [] f (has_env_override notes) r) notes.empty
        ≡ CoreError.ok k)
    × (notes.unmarshal k ≡ CoreError.ok loaded_sample.config)
    × (notes.validate loaded_sample.config ≡ none)
load_provenance_example =
    load_provenance notes [] plain_loader (some sample_settings) loaded_sample (λ off k. refl) loads

map_key-join_example :
    map_key notes (append env_prefix (join "__" ("SERVER" ∷ "BIND_ADDR" ∷ [])))
    ≡ notes.to_lower (join "." ("SERVER" ∷ "BIND_ADDR" ∷ []))
unfolding is_segment
map_key-join_example = map_key-join notes ("SERVER" ∷ "BIND_ADDR" ∷ []) (refl, (refl, tt))

abbrev settings : List (Setting ℕ AppContext)
settings = with_provider redis_provider ∷ with_loader none ∷ with_provider mail_provider ∷ []

run_never_mismatches_example :
    let o = apply_all settings (defaults sample_loader) in
    init_providers (λ s. s) sample_config o.features o.providers (start (λ app. app))
    ≡ result_of
        (required_failure (λ s. s) sample_config (outcomes sample_config o.providers first_context))
        (extended sample_config o.providers (start (λ app. app)))
run_never_mismatches_example =
    run_never_mismatches (λ s. s) sample_config sample_loader settings (start (λ app. app))

-- A breaker that counts calls and refuses the third one.
abbrev counting : Gobreaker ℕ String ℕ
counting = record {
  new_breaker = λ s. 0;
  execute =
      λ b f w. if b == 2 then (b, (w, (none, some (CoreError.plain "open")))) else (b + 1, f w);
}

counting-ExecutesOnce : ExecutesOnce counting
counting-ExecutesOnce b f w = elim (Bool-cases (b == 2)) [
  | inl full ↦ inl (CoreError.plain "open", rw (full) refl)
  | inr room ↦ inr (rw (room) refl)
]

-- Every request is answered with 503.
abbrev unwell : Transport ℕ String String ℕ
unwell = record {
  base = λ r n. (n + 1, CoreError.ok (record { status_code = 503; rest = r }));
  breaker = 0;
}

round_trip_lem_example :
    (unwell.base "GET" 0 ≡ (1, CoreError.ok (record { status_code = 503; rest = "GET" })))
    × (true ≡ leb 500 503)
unfolding round_trip CircuitBreaker.judge
round_trip_lem_example =
    round_trip_lem counting unwell.base unwell "GET" 0 1
      (record { status_code = 503; rest = "GET" }) (some (CoreError.plain "upstream 5xx"))
      counting-ExecutesOnce refl

-- The two separators of a variable's name become dots, and a single underscore stays.
bind_addr_key : map_key notes "HWHKIT__SERVER__BIND_ADDR" ≡ "SERVER.BIND_ADDR"
unfolding map_key to_dots trim_prefix strip_prefix
bind_addr_key = refl
