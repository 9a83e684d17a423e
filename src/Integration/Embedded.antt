-- ===== src/Integration/Embedded.antt =====
-- An integration as a provider of an application whose state holds more than its own part.
use hwhkit_go.Prelude.{
  String, ◌≡◌, refl, ap, ◌∙◌, inl, inr, Bool, false, Option, none, some, List, ◌==◌, string_eq,
  nat_eq, Option-cases,
}
use hwhkit_go.Core.CoreError.{Error}
use hwhkit_go.Core.AppContext
use hwhkit_go.Core.AppContext.{AppContext}
use hwhkit_go.Core.Bootstrap.{Provider}
use hwhkit_go.Config.AppConfig.{AppConfig}
use hwhkit_go.Integration.World.{World, find}
use hwhkit_go.Integration.Connecting.{Settles}
use hwhkit_go.Integration.Lifecycle.{Lifecycle}
use hwhkit_go.Integration.Hosted.{Apart, Runs}

-- The part of the state that an integration works on.
pub record Part (App H C : Type 0) : Type 0 where
  pub view : App → World H C
  pub put : World H C → App → App
  pub view_put : (w : World H C) (a : App) → view (put w a) ≡ w

-- Two parts share the application context and nothing else: a write to the first one shows in the
-- second one as its context.
abbrev pub Shared : {App H C H' C' : Type 0} → Part App H C → Part App H' C' → Type 0
Shared {App} {H} {C} one two =
    (w : World H C) (a : App) → two.view (one.put w a) ≡ (record (two.view a) { app = w.app })

abbrev pub SameContext : {App H C H' C' : Type 0} → Part App H C → Part App H' C' → Type 0
SameContext {App} one two = (a : App) → (one.view a).app ≡ (two.view a).app

module _ {F App H C : Type 0} (part : Part App H C) (l : Lifecycle H C (AppConfig F))
    (enabled required : AppConfig F → Bool) where
  -- NewProvider of the integration.
  unfoldable pub provider_in : Provider F App
  provider_in = record {
    key = l.key;
    enabled = enabled;
    required = required;
    init = λ a c. let (w, failure) = l.init (part.view a) c in (part.put w a, failure);
    health_check = λ a c. l.health_check (part.view a) c;
    shutdown = λ a. let (w, failure) = l.shutdown (part.view a) in (part.put w a, failure);
  }

  pub provider_in-Runs : (c : AppConfig F) → Runs l part.view c provider_in
  unfolding provider_in
  provider_in-Runs c = record {
    init_view = λ a. part.view_put (l.init (part.view a) c).0 a;
    init_error = λ a. refl;
    shutdown_view = λ a. part.view_put (l.shutdown (part.view a)).0 a;
  }

get-Settles :
    {H C : Type 0} (t key u : String) (clients : H → List C) (w : World H C)
    (r : World H C × Option Error)
    → (t == u) ≡ false
    → Settles t key clients w r
    → AppContext.get r.0.app u false ≡ AppContext.get w.app u false
unfolding Settles
get-Settles t key u clients w (w', none) other (closed, kept, frame, still) = frame u other
get-Settles t key u clients w (w', some e) other (same, handles, log, still) =
    ap (λ a. AppContext.get a u false) same

app-shutdown :
    {H C Cfg : Type 0} (l : Lifecycle H C Cfg) (w : World H C) → (l.shutdown w).0.app ≡ w.app
app-shutdown l w = elim (Option-cases (find l.t w)) [
  | inl missing ↦ ap (λ r. r.0.app) (l.shutdown_of_none w missing)
  | inr (h, found) ↦ ap (λ w'. w'.app) (l.shutdown_of_handle w h found)
]

find-app :
    {H C : Type 0} (t : String) (w : World H C) (app : AppContext)
    → AppContext.get app t false ≡ AppContext.get w.app t false
    → find t (record w { app = app }) ≡ find t w
unfolding find
find-app t w app same = rw (same, find) refl

-- The provider of one integration leaves the Handle and the clients of another one alone, if their
-- Handle types differ.
pub provider_in-Apart :
    {F App H C H' C' : Type 0} (one : Part App H C) (l : Lifecycle H C (AppConfig F))
    (enabled required : AppConfig F → Bool) (two : Part App H' C')
    (l' : Lifecycle H' C' (AppConfig F)) (c : AppConfig F)
    → Shared one two
    → SameContext one two
    → (l.t == l'.t) ≡ false
    → Apart l' two.view c (provider_in one l enabled required)
unfolding provider_in
provider_in-Apart one l enabled required two l' c shared same other = record {
  init_keeps = λ a.
      let w = (l.init (one.view a) c).0 in
      let kept =
        get-Settles l.t l.key l'.t l.clients (one.view a) (l.init (one.view a) c) other
          (l.init_settles (one.view a) c)
        ∙ ap (λ x. AppContext.get x l'.t false) (same a) in
      rw (shared w a) (find-app l'.t (two.view a) w.app kept, refl, refl);
  shutdown_keeps = λ a.
      let w = (l.shutdown (one.view a)).0 in
      let kept = ap (λ x. AppContext.get x l'.t false) (app-shutdown l (one.view a) ∙ same a) in
      rw (shared w a) (find-app l'.t (two.view a) w.app kept, refl, refl);
}
