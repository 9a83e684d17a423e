-- ===== src/Examples/Foundations.antt =====
-- Features, the application context, the metrics and the commands at concrete inputs.
use hwhkit_go.Prelude.{
  ◌≡◌, refl, true, none, some, List, [], ◌++◌, nat_eq, string_eq, if◌then◌else◌,
}
use hwhkit_go.BuildInfo
use hwhkit_go.Core.AppContext
use hwhkit_go.Core.AppContext.{AppContext}
use hwhkit_go.Core.AppContext.Typed.{made_new, made_insert, get_never_mistyped, address_of}
use hwhkit_go.Prelude.Dict
use hwhkit_go.Observability.Metrics.{
  Prometheus, Collector, RegistersOnce, clashes, prepare, all_collectors, metrics_once,
}

abbrev with_mailer : AppContext
with_mailer = AppContext.insert AppContext.new "Mailer" true 7

get_never_mistyped_example :
    (AppContext.get with_mailer "Mailer" true ≡ address_of (Dict.get "Mailer" with_mailer.typed))
    × (AppContext.must_get with_mailer "Mailer" true ≡ AppContext.get with_mailer "Mailer" true)
get_never_mistyped_example = get_never_mistyped "Mailer" true (made_insert "Mailer" true 7 made_new)

-- A registry that is the list of its collectors.
abbrev listing : Prometheus (List Collector)
listing = record {
  new_registry = [];
  must_register = λ cs r. if clashes cs r then none else some (r ++ cs);
}

listing-RegistersOnce : RegistersOnce listing (λ r. r)
listing-RegistersOnce = record {
  starts_empty = refl;
  refuses = λ cs r clash. rw (clash) refl;
  accepts = λ cs r fits. (r ++ cs, rw (fits) refl, refl);
}

metrics_once_example :
    (r : List Collector) × (prepare listing BuildInfo.unset "go1.23" none ≡ some r)
    × (r ≡ all_collectors listing BuildInfo.unset "go1.23" (λ r. r))
    × (prepare listing BuildInfo.unset "go1.23" (some r) ≡ none)
metrics_once_example = metrics_once listing BuildInfo.unset "go1.23" (λ r. r) listing-RegistersOnce
