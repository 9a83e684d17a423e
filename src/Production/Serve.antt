-- ===== src/Production/Serve.antt =====
-- hwhkit/production/server.go: what Serve does from the start of the server to its return, where the
-- registration of the metrics does not panic (Observability.Metrics).
pub mod Order
pub mod Stopping
use hwhkit_go.Prelude.{
  ℕ, zero, suc, ◌+◌, ◌-◌, ◌*◌, ◌/◌, ◌%◌, ◌^◌, ◌≤◌, ◌<◌, String, ◌≡◌, refl, sym, ap, ◌∙◌, subst, ◌≢◌,
  ◌↔◌, ◌⊎◌, inl, inr, Bool, true, false, not, ◌&&◌, ◌||◌, Option, none, some, List, [], ◌∷◌, ◌++◌,
  map, append-nil, append_assoc, arith, eq_iff, ltb, leb, Eq, ◌==◌, nat_eq, string_eq,
  if◌then◌else◌, ltb→lt, lt→ltb, leb→le, tests, Bool-cases, Option-cases, is_some, or_else, length,
  get_elem?, set, any, all, length-append, length-map, All, All-append,
}
use hwhkit_go.Prelude.Int.{ℤ, pos, Duration, is_positive, second}
use hwhkit_go.Core.CoreError.{Error, wrapped}
use hwhkit_go.Core.AppContext.{AppContext}
use hwhkit_go.Core.Shutdown.{Token, cancel}
use hwhkit_go.Core.Bootstrap.{Provider, BuiltApplication, set_metrics_registry, set_router}
use hwhkit_go.Config.AppConfig.{
  AppConfig, ServerConfig, drain_timeout, handler_timeout, read_timeout, write_timeout,
  idle_timeout,
}
use mathlib.Core.List.{reverse}

-- What the select of Serve receives: an error of ListenAndServe, the close of `errCh` without one
-- (after http.ErrServerClosed), or the signal context's end.
pub data Wakeup : Type 0 where
  listen_failed : Error → Wakeup
  listen_closed : Wakeup
  signalled : Wakeup

-- The middleware that is put before the routes, outermost first.
pub data Layer : Type 0 where
  request_id recover access_log default_cors http_metrics : Layer
  compress : ℤ → Layer
  body_limit : ℤ → Layer
  timeout : Duration → Layer

unfoldable pub layers : ServerConfig → List Layer
layers s =
    request_id
    ∷ recover
    ∷ access_log
    ∷ default_cors
    ∷ compress (pos 5)
    ∷ body_limit s.body_limit_bytes
    ∷ ((if is_positive (handler_timeout s) then timeout (handler_timeout s) ∷ [] else [])
        ++ http_metrics ∷ [])

-- What Serve does that can be seen from outside, in order.
pub data Event : Type 0 where
  register_metrics : ℕ → Event
  start_server : String → Duration → Duration → Duration → List Layer → Event
  cancel_token : Event
  shut_down_server : Duration → Event
  shut_down_provider : String → Duration → Option Error → Event

pub record ServeResult (F App Router : Type 0) : Type 0 where
  pub events : List Event
  pub built : BuiltApplication F App Router
  pub error : Option Error

abbrev pub drain_of : ServerConfig → Duration
drain_of s = if is_positive (drain_timeout s) then drain_timeout s else pos (30 * second)

-- The loop over the providers, from the last one down; an error is logged and the loop goes on.
unfoldable pub shut_down_all :
    {F App : Type 0} → Duration → List (Provider F App) → App → App × List Event
shut_down_all drain [] app = (app, [])
shut_down_all drain (p ∷ ps) app =
    let (app', failure) = p.shutdown app in
    let (last, events) = shut_down_all drain ps app' in
    (last, shut_down_provider p.key drain failure ∷ events)

module _ {F App Router : Type 0} (init_metrics : ℕ)
    (mount : BuiltApplication F App Router → Router) where
  -- The application keeps its metrics registry, or is given a new one.
  unfoldable pub with_metrics : BuiltApplication F App Router → BuiltApplication F App Router
  with_metrics built = set_metrics_registry built (or_else built.metrics_registry init_metrics)

  -- From the signal on.
  unfoldable pub drain_and_stop :
      BuiltApplication F App Router → List Event × BuiltApplication F App Router
  unfolding shut_down_all
  drain_and_stop built =
      let drain = drain_of built.cfg.server in
      let (app, stops) = shut_down_all drain (reverse built.providers) built.app_ctx in
      (
        cancel_token ∷ shut_down_server drain ∷ stops,
        record built { shutdown_token = cancel built.shutdown_token; app_ctx = app },
      )

  -- The metrics are registered and the server is started, with its layers.
  abbrev pub opening : BuiltApplication F App Router → List Event
  opening ready =
      let s = ready.cfg.server in
      register_metrics (or_else ready.metrics_registry init_metrics)
      ∷ start_server s.bind_addr (read_timeout s) (write_timeout s) (idle_timeout s) (layers s)
      ∷ []

  -- `mount` makes the root router from the endpoints and the application's own router. The text of
  -- the error of a closed `errCh` is what fmt makes of "listen: %w" and nil.
  unfoldable pub serve : BuiltApplication F App Router → Wakeup → ServeResult F App Router
  unfolding with_metrics drain_and_stop
  serve built wakeup =
      let b = with_metrics built in
      let ready = set_router b (mount b) in
      let (stops, stopped) = drain_and_stop ready in
      elim wakeup [
        | listen_failed e ↦ record {
          events = opening ready;
          built = ready;
          error = some (wrapped "listen" e);
        }
        | listen_closed ↦ record {
          events = opening ready;
          built = ready;
          error = some (Error.plain "listen: %!w(<nil>)");
        }
        | signalled ↦ record { events = opening ready ++ stops; built = stopped; error = none }
      ]
