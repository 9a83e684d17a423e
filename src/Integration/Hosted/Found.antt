-- ===== src/Integration/Hosted/Found.antt =====
-- The Handle of a required integration after the bootstrap.
use hwhkit_go.Prelude.{
  ◌≡◌, ap, inl, inr, List, [], ◌∷◌, ◌++◌, All, Bool-cases, Option-cases, ◌∙◌, some, sym, true,
}
use hwhkit_go.Config.AppConfig.{AppConfig}
use hwhkit_go.Core.Bootstrap.{Provider}
use hwhkit_go.Core.Bootstrap.Providers.{outcomes, final_app, failed}
use hwhkit_go.Core.Bootstrap.Outcome.{IsOptional}
use hwhkit_go.Integration.World.{World, find}
use hwhkit_go.Integration.Lifecycle.{Lifecycle, find-Settles}
use hwhkit_go.Integration.Hosted.{Apart, Runs, Keeps-final_app}

module _ {F App H C : Type 0} (l : Lifecycle H C (AppConfig F)) (view : App → World H C)
    (cfg : AppConfig F) where
  -- The Handle of a required integration is found after a bootstrap in which only providers that
  -- are not required have failed.
  pub find-final_app :
      (ps : List (Provider F App)) (p : Provider F App) (qs : List (Provider F App)) (a : App)
      → Runs l view cfg p
      → All (Apart l view cfg) qs
      → p.enabled cfg ≡ true
      → p.required cfg ≡ true
      → All (IsOptional cfg) (failed (outcomes cfg (ps ++ p ∷ qs) a))
      → (h : H) × (find l.t (view (final_app cfg (ps ++ p ∷ qs) a)) ≡ some h)
  find-final_app [] p qs a runs hq on must optional =
      let c = (p.init a cfg).0 in
      elim (Option-cases (p.init a cfg).1) [
        | inr (e, wrong) ↦ let clash = rw (on, wrong) at optional in absurd (cc (clash.0, must))
        | inl fine ↦
            let (h, found) =
              find-Settles l.t l.key l.clients (view a) (l.init (view a) cfg)
                (l.init_settles (view a) cfg) (sym (runs.init_error a) ∙ fine) in
            (
              h,
              rw (on) (
                  (Keeps-final_app l view cfg qs c hq).0
                  ∙ ap (λ w. find l.t w) (runs.init_view a)
                  ∙ found),
            )
      ]
  find-final_app (q ∷ ps) p qs a runs hq on must optional =
      let c = (q.init a cfg).0 in
      elim (Bool-cases (q.enabled cfg)) [
        | inr off ↦
            let rest = rw (off) at optional in
            rw (off) (find-final_app ps p qs a runs hq on must rest)
        | inl up ↦ elim (Option-cases (q.init a cfg).1) [
          | inr (e, wrong) ↦
              let rest = rw (up, wrong) at optional in
              rw (up) (find-final_app ps p qs c runs hq on must rest.1)
          | inl fine ↦
              let rest = rw (up, fine) at optional in
              rw (up) (find-final_app ps p qs c runs hq on must rest)
        ]
      ]
