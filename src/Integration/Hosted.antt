-- ===== src/Integration/Hosted.antt =====
-- An integration among the other providers of an application: what its store of Handles and clients
-- goes through from the bootstrap to the shutdown.
pub mod Found
use hwhkit_go.Prelude.{
  true, none, All-append, ◌≡◌, refl, ap, inl, inr, List, [], ◌∷◌, ◌++◌, All, Bool-cases,
  Option-cases, ◌∙◌, some, sym, append_assoc,
}
use mathlib.Core.List.{reverse_aux, reverse, reverse-append, reverse-cons}
use hwhkit_go.Prelude.Int.{Duration}
use hwhkit_go.Core.CoreError.{Error}
use hwhkit_go.Config.AppConfig.{AppConfig}
use hwhkit_go.Core.Bootstrap.{Provider}
use hwhkit_go.Core.Bootstrap.Providers.{outcomes, final_app, succeeded, failed}
use hwhkit_go.Core.Bootstrap.Outcome.{IsOptional}
use hwhkit_go.Production.Serve.{shut_down_all}
use hwhkit_go.Integration.World.{World, find}
use hwhkit_go.Integration.Lifecycle.{
  Lifecycle, find-Settles, Balanced, Holding, Balanced-Settles, Holds-Settles,
}
use hwhkit_go.Core.Bootstrap.Winners.{winners, winners-append, final_app-append, All-winners}
use hwhkit_go.Production.Serve.Stopping.{stopped, stopped-append, All-reverse_aux}

-- `view` is the part of the state that the integration works on.
module _ {F App H C : Type 0} (l : Lifecycle H C (AppConfig F)) (view : App → World H C) where
  -- The Handle that is found and the clients are as before.
  abbrev pub Keeps : App → App → Type 0
  Keeps a a' =
      (find l.t (view a') ≡ find l.t (view a))
      × ((view a').opened ≡ (view a).opened)
      × ((view a').released ≡ (view a).released)

  Keeps-trans : (a b c : App) → Keeps a b → Keeps b c → Keeps a c
  Keeps-trans a b c (f, o, s) (f', o', s') = (f' ∙ f, o' ∙ o, s' ∙ s)

  -- A provider of something else.
  pub record Apart (cfg : AppConfig F) (p : Provider F App) : Type 0 where
    pub init_keeps : (a : App) → Keeps a (p.init a cfg).0
    pub shutdown_keeps : (a : App) → Keeps a (p.shutdown a).0

  -- The provider of the integration.
  pub record Runs (cfg : AppConfig F) (p : Provider F App) : Type 0 where
    pub init_view : (a : App) → view (p.init a cfg).0 ≡ (l.init (view a) cfg).0
    pub init_error : (a : App) → (p.init a cfg).1 ≡ (l.init (view a) cfg).1
    pub shutdown_view : (a : App) → view (p.shutdown a).0 ≡ (l.shutdown (view a)).0

  -- A Handle is found, and its clients are the only ones that are open.
  abbrev Holds : World H C → Type 0
  Holds w = Holding l.t l.clients w

  Balanced-Keeps : (a b : App) → Keeps a b → Balanced (view a) → Balanced (view b)
  Balanced-Keeps a b (f, o, s) balanced = s ∙ balanced ∙ sym o

  Holds-Keeps : (a b : App) → Keeps a b → Holds (view a) → Holds (view b)
  Holds-Keeps a b (f, o, s) (h, found, open_ones) =
      (h, f ∙ found, o ∙ open_ones ∙ ap (λ cs. cs ++ l.clients h) (sym s))

  module _ (cfg : AppConfig F) where
    pub Keeps-final_app :
        (ps : List (Provider F App)) (a : App) → All (Apart cfg) ps → Keeps a (final_app cfg ps a)
    Keeps-final_app [] a h = (refl, refl, refl)
    Keeps-final_app (p ∷ ps) a h = elim (Bool-cases (p.enabled cfg)) [
      | inr off ↦ rw (off) (Keeps-final_app ps a h.1)
      | inl on ↦ rw (on) (
          Keeps-trans a (p.init a cfg).0 (final_app cfg ps (p.init a cfg).0) (h.0.init_keeps a)
            (Keeps-final_app ps (p.init a cfg).0 h.1))
    ]

    Keeps-stopped :
        (drain : Duration) (ps : List (Provider F App)) (a : App)
        → All (Apart cfg) ps
        → Keeps a (stopped drain ps a)
    unfolding shut_down_all
    Keeps-stopped drain [] a h = (refl, refl, refl)
    Keeps-stopped drain (p ∷ ps) a h =
        Keeps-trans a (p.shutdown a).0 (stopped drain ps (p.shutdown a).0) (h.0.shutdown_keeps a)
          (Keeps-stopped drain ps (p.shutdown a).0 h.1)

    Balanced-reverse :
        (drain : Duration) (ps : List (Provider F App)) (a : App)
        → All (Apart cfg) ps
        → Balanced (view a)
        → Balanced (view (stopped drain (reverse ps) a))
    Balanced-reverse drain ps a h =
        Balanced-Keeps a (stopped drain (reverse ps) a)
          (Keeps-stopped drain (reverse ps) a (All-reverse_aux (Apart cfg) ps [] h tt))

    Balanced-shutdown :
        (p : Provider F App) (a : App)
        → Runs cfg p
        → Holds (view a)
        → Balanced (view (p.shutdown a).0)
    Balanced-shutdown p a runs (h, found, open_ones) =
        rw (runs.shutdown_view a, l.shutdown_of_handle (view a) h found) (sym open_ones)

    -- After an Init that fails no client is open, and after one that succeeds those of the Handle.
    Balanced-init :
        (p : Provider F App) (a : App) (e : Error)
        → Runs cfg p
        → (p.init a cfg).1 ≡ some e
        → Balanced (view a)
        → Balanced (view (p.init a cfg).0)
    Balanced-init p a e runs wrong balanced = rw (runs.init_view a) (
        Balanced-Settles l.t l.key l.clients (view a) (l.init (view a) cfg) e
          (l.init_settles (view a) cfg) (sym (runs.init_error a) ∙ wrong) balanced)

    Holds-init :
        (p : Provider F App) (a : App)
        → Runs cfg p
        → (p.init a cfg).1 ≡ none
        → Balanced (view a)
        → Holds (view (p.init a cfg).0)
    Holds-init p a runs fine balanced = rw (runs.init_view a) (
        Holds-Settles l.t l.key l.clients (view a) (l.init (view a) cfg)
          (l.init_settles (view a) cfg) (sym (runs.init_error a) ∙ fine) balanced)

    -- The shutdown in reverse order with the provider of the integration among the others.
    Balanced-stopped :
        (drain : Duration) (ps : List (Provider F App)) (p : Provider F App)
        (qs : List (Provider F App)) (a : App)
        → All (Apart cfg) ps
        → Runs cfg p
        → All (Apart cfg) qs
        → Holds (view a)
        → Balanced (view (stopped drain (reverse (ps ++ p ∷ qs)) a))
    unfolding shut_down_all
    Balanced-stopped drain ps p qs a hp runs hq holds =
        let b = stopped drain (reverse qs) a in
        let held : Holds (view b) =
          Holds-Keeps a b
            (Keeps-stopped drain (reverse qs) a (All-reverse_aux (Apart cfg) qs [] hq tt)) holds in
        let order : reverse (ps ++ p ∷ qs) ≡ reverse qs ++ (p ∷ reverse ps) =
          reverse-append ps (p ∷ qs)
          ∙ ap (λ xs. xs ++ reverse ps) (reverse-cons p qs)
          ∙ append_assoc (reverse qs) (p ∷ []) (reverse ps) in
        rw (order, stopped-append drain (reverse qs) (p ∷ reverse ps) a)
          (Balanced-reverse drain ps (p.shutdown b).0 hp (Balanced-shutdown p b runs held))

    -- What the bootstrap has started is stopped in reverse order, after a step `route` of something
    -- else: then no client of the integration
    -- is open, if none was before.
    pub Balanced-winners :
        (drain : Duration) (route : App → App) (ps : List (Provider F App)) (p : Provider F App)
        (qs : List (Provider F App)) (a : App)
        → ((x : App) → Keeps x (route x))
        → All (Apart cfg) ps
        → Runs cfg p
        → All (Apart cfg) qs
        → Balanced (view a)
        → Balanced (
            view (
              stopped drain
                (reverse (winners cfg (ps ++ p ∷ qs) a))
                (route (final_app cfg (ps ++ p ∷ qs) a))))
    Balanced-winners drain route ps p qs a keeps hp runs hq balanced =
        let routed : (xs : List (Provider F App)) (x : App)
            → All (Apart cfg) xs
            → Keeps x (route (final_app cfg xs x)) =
          λ xs x h.
            Keeps-trans x (final_app cfg xs x) (route (final_app cfg xs x)) (Keeps-final_app xs x h)
              (keeps (final_app cfg xs x)) in
        let b = final_app cfg ps a in
        let started = All-winners cfg (Apart cfg) ps a hp in
        let before : Balanced (view b) = Balanced-Keeps a b (Keeps-final_app ps a hp) balanced in
        let c = (p.init b cfg).0 in
        rw (winners-append cfg ps (p ∷ qs) a, final_app-append cfg ps (p ∷ qs) a)
          (elim (Bool-cases (p.enabled cfg)) [
            | inr off ↦ rw (off) (
                Balanced-reverse drain (winners cfg ps a ++ winners cfg qs b)
                  (route (final_app cfg qs b))
                  (All-append (Apart cfg) (winners cfg ps a) (winners cfg qs b) started
                    (All-winners cfg (Apart cfg) qs b hq))
                  (Balanced-Keeps b (route (final_app cfg qs b)) (routed qs b hq) before))
            | inl on ↦ elim (Option-cases (p.init b cfg).1) [
              | inr (e, wrong) ↦
                  rw (on, wrong)
                    (Balanced-reverse drain (winners cfg ps a ++ winners cfg qs c)
                      (route (final_app cfg qs c))
                      (All-append (Apart cfg) (winners cfg ps a) (winners cfg qs c) started
                        (All-winners cfg (Apart cfg) qs c hq))
                      (Balanced-Keeps c (route (final_app cfg qs c)) (routed qs c hq)
                        (Balanced-init p b e runs wrong before)))
              | inl fine ↦
                  rw (on, fine)
                    (Balanced-stopped drain (winners cfg ps a) p (winners cfg qs c)
                      (route (final_app cfg qs c)) started runs
                      (All-winners cfg (Apart cfg) qs c hq)
                      (Holds-Keeps c (route (final_app cfg qs c)) (routed qs c hq)
                        (Holds-init p b runs fine before)))
            ]
          ])
