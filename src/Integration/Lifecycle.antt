-- ===== src/Integration/Lifecycle.antt =====
-- The interface that the providers under integration/ fill, and what follows from it for an
-- integration from Init to Shutdown.
use mathlib.Core.Option.{none-ne-some}
use hwhkit_go.Prelude.{
  append-nil, [], String, ◌≡◌, sym, Bool, Option, none, some, List, ◌++◌, arith, nat_eq, string_eq,
  is_some, ap, ◌∙◌,
}
use hwhkit_go.Core.CoreError.{Error}
use hwhkit_go.Core.Health.{Check}
use hwhkit_go.Config.AppConfig.{AppConfig}
use hwhkit_go.Core.AppContext.{AppContext}
use hwhkit_go.Core.Bootstrap.{Provider}
use hwhkit_go.Core.Bootstrap.Degraded.{Traceless}
use hwhkit_go.Integration.World.{World, find, released_with}
use hwhkit_go.Integration.Connecting.{Settles}

-- `t` is the name of the Handle type, `clients` are those that a Handle keeps open, `leaves` those
-- that Shutdown leaves pending, and `probed` says whether it is probed at all.
pub record Lifecycle (H C Cfg : Type 0) : Type 0 where
  pub t : String
  pub key : String
  pub clients : H → List C
  pub leaves : H → List C
  pub probed : H → Bool
  pub init : World H C → Cfg → World H C × Option Error
  pub health_check : World H C → Cfg → Option Check
  pub shutdown : World H C → World H C × Option Error
  pub init_settles : (w : World H C) (c : Cfg) → Settles t key clients w (init w c)
  pub probe_of_handle :
      (w : World H C) (c : Cfg) (h : H) → find t w ≡ some h → is_some (health_check w c) ≡ probed h
  pub no_probe : (w : World H C) (c : Cfg) → find t w ≡ none → health_check w c ≡ none
  pub shutdown_of_handle :
      (w : World H C) (h : H)
      → find t w ≡ some h
      → (shutdown w).0 ≡ released_with (clients h) (leaves h) w
  pub shutdown_of_none : (w : World H C) → find t w ≡ none → shutdown w ≡ (w, none)

-- Every client that was opened has been released, in the same order.
abbrev pub Balanced : {H C : Type 0} → World H C → Type 0
Balanced w = w.released ≡ w.opened

-- Shutdown where Init has succeeded: BuiltApplication retains no provider that failed.
abbrev through :
    {H C : Type 0} → (World H C → World H C × Option Error) → World H C × Option Error → World H C
through shutdown (w, some e) = w
through shutdown (w, none) = (shutdown w).0

through-Settles :
    {H C : Type 0} (t key : String) (clients leaves : H → List C)
    (shutdown : World H C → World H C × Option Error)
    → ((w : World H C) (h : H)
        → find t w ≡ some h
        → (shutdown w).0 ≡ released_with (clients h) (leaves h) w)
    → (w : World H C) (r : World H C × Option Error) → Settles t key clients w r
    → Balanced w
    → Balanced (through shutdown r)
unfolding Settles
through-Settles t key clients leaves shutdown closes w (w', some e)
      (same, handles, (cs, opened, closed), still) balanced =
    grind (arith, opened, closed, balanced)
through-Settles t key clients leaves shutdown closes w (w', none)
      (closed, (h, found, named, opened), frame, still) balanced =
    rw (closes w' h found) (grind (arith, opened, closed, balanced))

pub find-Settles :
    {H C : Type 0} (t key : String) (clients : H → List C) (w : World H C)
    (r : World H C × Option Error)
    → Settles t key clients w r
    → r.1 ≡ none
    → (h : H) × (find t r.0 ≡ some h)
unfolding Settles
find-Settles t key clients w (w', some e) settled bad = absurd (none-ne-some e (sym bad))
find-Settles t key clients w (w', none) (closed, (h, found, named, opened), frame, still) done =
    (h, found)

abbrev pub leaves_of : {H C : Type 0} → (H → List C) → Option H → List C
leaves_of leaves none = []
leaves_of leaves (some h) = leaves h

-- The clients whose Close Shutdown leaves to come to its end, where Init has succeeded.
abbrev pub left : {H C : Type 0} → String → (H → List C) → World H C × Option Error → List C
left t leaves (w, some e) = []
left t leaves (w, none) = leaves_of leaves (find t w)

pending-Settles :
    {H C : Type 0} (t key : String) (clients leaves : H → List C)
    (shutdown : World H C → World H C × Option Error)
    → ((w : World H C) (h : H)
        → find t w ≡ some h
        → (shutdown w).0 ≡ released_with (clients h) (leaves h) w)
    → (w : World H C) (r : World H C × Option Error) → Settles t key clients w r
    → (through shutdown r).pending ≡ w.pending ++ left t leaves r
unfolding Settles
pending-Settles t key clients leaves shutdown closes w (w', some e) (same, handles, log, still) =
    still ∙ sym (append-nil w.pending)
pending-Settles t key clients leaves shutdown closes w (w', none)
      (closed, (h, found, named, opened), frame, still) =
    ap (λ x. x.pending) (closes w' h found)
    ∙ ap (λ ps. ps ++ leaves h) still
    ∙ ap (λ o. w.pending ++ leaves_of leaves o) (sym found)

-- A Handle is found, and its clients are the only ones that are open.
abbrev pub Holding : {H C : Type 0} → String → (H → List C) → World H C → Type 0
Holding {H} t clients w = (h : H) × (find t w ≡ some h) × (w.opened ≡ w.released ++ clients h)

module _ {H C : Type 0} (t key : String) (clients : H → List C) (w : World H C) where
  pub Balanced-Settles :
      (r : World H C × Option Error) (e : Error)
      → Settles t key clients w r
      → r.1 ≡ some e
      → Balanced w
      → Balanced r.0
  unfolding Settles
  Balanced-Settles (w', some x) e (same, handles, (cs, opened, closed), still) failed balanced =
      closed ∙ ap (λ l. l ++ cs) balanced ∙ sym opened
  Balanced-Settles (w', none) e settled failed balanced = absurd (none-ne-some e failed)

  pub Holds-Settles :
      (r : World H C × Option Error)
      → Settles t key clients w r
      → r.1 ≡ none
      → Balanced w
      → Holding t clients r.0
  unfolding Settles
  Holds-Settles (w', some e) settled bad balanced = absurd (none-ne-some e (sym bad))
  Holds-Settles (w', none) (closed, (h, found, named, opened), frame, still) done balanced =
      (h, found, opened ∙ ap (λ l. l ++ clients h) (sym (closed ∙ balanced)))

module _ {H C Cfg : Type 0} (l : Lifecycle H C Cfg) where
  unfoldable pub run_through : World H C → Cfg → World H C
  run_through w c = through l.shutdown (l.init w c)

  -- If every client that was opened before has been released, so has every one after Init and
  -- Shutdown, or after an Init that fails.
  pub run_through_lem : (w : World H C) (c : Cfg) → Balanced w → Balanced (run_through w c)
  unfolding run_through
  run_through_lem w c balanced =
      through-Settles l.t l.key l.clients l.leaves l.shutdown l.shutdown_of_handle w (l.init w c)
        (l.init_settles w c) balanced

  -- Every client is released, and pending are those that were and those that Shutdown leaves.
  abbrev pub Ends : World H C → Cfg → Type 0
  Ends w c =
      Balanced (run_through w c)
      × ((run_through w c).pending ≡ w.pending ++ left l.t l.leaves (l.init w c))

  pub run_through-Ends : (w : World H C) (c : Cfg) → Balanced w → Ends w c
  unfolding run_through
  run_through-Ends w c balanced = (
    run_through_lem w c balanced,
    pending-Settles l.t l.key l.clients l.leaves l.shutdown l.shutdown_of_handle w (l.init w c)
        (l.init_settles w c),
  )

  -- After an Init with no error a Handle is found under its type, and the provider has a health
  -- check if and only if that Handle is one to probe.
  pub checked_after_init :
      (w : World H C) (c : Cfg)
      → (l.init w c).1 ≡ none
      → (h : H) × (find l.t (l.init w c).0 ≡ some h)
        × (is_some (l.health_check (l.init w c).0 c) ≡ l.probed h)
  checked_after_init w c done =
      let (h, found) = find-Settles l.t l.key l.clients w (l.init w c) (l.init_settles w c) done in
      (h, found, l.probe_of_handle (l.init w c).0 c h found)

app-Settles :
    {H C : Type 0} (t key : String) (clients : H → List C) (w : World H C)
    (r : World H C × Option Error) (e : Error)
    → Settles t key clients w r
    → r.1 ≡ some e
    → r.0.app ≡ w.app
unfolding Settles
app-Settles t key clients w (w', some x) e (same, handles, log, still) failed = same
app-Settles t key clients w (w', none) e settled failed = absurd (none-ne-some e failed)

module _ {F H C : Type 0} (l : Lifecycle H C (AppConfig F)) (w : World H C) where
  -- Init as a provider of the bootstrap, with the Handles and clients that there are.
  unfoldable pub init_in : AppContext → AppConfig F → AppContext × Option Error
  init_in app c = let (w', failure) = l.init (record w { app = app }) c in (w'.app, failure)

  -- A provider of the bootstrap whose Init is that of an integration leaves the context as it was
  -- when it fails.
  pub integration-Traceless :
      (c : AppConfig F) (p : Provider F AppContext)
      → ((app : AppContext) → p.init app c ≡ init_in app c)
      → Traceless c p
  unfolding init_in
  integration-Traceless c p is_init app e failed =
      let w0 : World H C = record w { app = app } in
      ap (λ x. x.0) (is_init app)
      ∙ app-Settles l.t l.key l.clients w0 (l.init w0 c) e (l.init_settles w0 c)
          (sym (ap (λ x. x.1) (is_init app)) ∙ failed)
