-- ===== src/Production/Serve/Order.antt =====
-- The order in which Serve stops what was started.
use hwhkit_go.Prelude.{
  ℕ, String, ◌≡◌, refl, ap, true, false, none, List, [], ◌∷◌, ◌++◌, arith, nat_eq, string_eq,
}
use hwhkit_go.Prelude.Int.{Duration, is_positive}
use hwhkit_go.Core.Shutdown.{cancel, is_cancelled}
use hwhkit_go.Core.Bootstrap.{Provider, BuiltApplication, set_metrics_registry, set_router}
use hwhkit_go.Production.Serve.{
  Event, cancel_token, shut_down_server, shut_down_provider, signalled, serve, shut_down_all,
  drain_of, with_metrics, opening,
}
use mathlib.Core.List.{reverse}
use hwhkit_go.Core.Bootstrap.Providers.{keys_of}

-- The keys of the providers that events shut down, in order.
abbrev pub stopped_keys : List Event → List String
stopped_keys [] = []
stopped_keys (shut_down_provider key d e ∷ es) = key ∷ stopped_keys es
stopped_keys (_ ∷ es) = stopped_keys es

pub shut_down_all-keys :
    {F App : Type 0} (drain : Duration) (ps : List (Provider F App)) (app : App)
    → stopped_keys (shut_down_all drain ps app).1 ≡ keys_of ps
unfolding shut_down_all
shut_down_all-keys drain [] app = refl
shut_down_all-keys drain (p ∷ ps) app =
    ap (λ l. p.key ∷ l) (shut_down_all-keys drain ps (p.shutdown app).0)

module _ {F App Router : Type 0} (init_metrics : ℕ)
    (mount : BuiltApplication F App Router → Router) where
  -- The application with the metrics registry and the root router that Serve puts into it.
  abbrev pub ready_of : BuiltApplication F App Router → BuiltApplication F App Router
  ready_of built =
      set_router (with_metrics init_metrics mount built)
        (mount (with_metrics init_metrics mount built))

  -- After a signal, Serve of an application whose token nobody has cancelled returns no error. Its
  -- events are those of the start, then the cancellation of the token, the shutdown of the server
  -- with the drain time, which is positive, and the shutdown of every retained provider, the last
  -- one first, whatever errors they return; the token is cancelled in the end.
  pub serve_signalled :
      (built : BuiltApplication F App Router)
      → built.shutdown_token.once_done ≡ false
      → (stops : List Event) × ((serve init_metrics mount built signalled).events
          ≡ opening init_metrics mount (ready_of built)
            ++ (cancel_token ∷ shut_down_server (drain_of built.cfg.server) ∷ stops))
        × (stopped_keys stops ≡ keys_of (reverse built.providers))
        × (is_positive (drain_of built.cfg.server) ≡ true)
        × ((serve init_metrics mount built signalled).error ≡ none)
        × (is_cancelled (serve init_metrics mount built signalled).built.shutdown_token ≡ true)
  unfolding serve is_cancelled cancel set_router set_metrics_registry
  serve_signalled built fresh = (
    (shut_down_all (drain_of built.cfg.server) (reverse built.providers) built.app_ctx).1,
    refl,
    shut_down_all-keys (drain_of built.cfg.server) (reverse built.providers) built.app_ctx,
    ground arith,
    refl,
    ground arith,
  )
