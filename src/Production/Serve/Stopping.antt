-- ===== src/Production/Serve/Stopping.antt =====
-- The state after the loop of Serve over the providers, for a list in two parts.
use hwhkit_go.Prelude.{◌≡◌, refl, List, [], ◌∷◌, ◌++◌, All}
use mathlib.Core.List.{reverse_aux}
use hwhkit_go.Prelude.Int.{Duration}
use hwhkit_go.Core.Bootstrap.{Provider}
use hwhkit_go.Production.Serve.{shut_down_all}

-- The state after the shutdown of providers.
abbrev pub stopped : {F App : Type 0} → Duration → List (Provider F App) → App → App
stopped drain ps a = (shut_down_all drain ps a).0

pub stopped-append :
    {F App : Type 0} (drain : Duration) (ps qs : List (Provider F App)) (a : App)
    → stopped drain (ps ++ qs) a ≡ stopped drain qs (stopped drain ps a)
unfolding shut_down_all
stopped-append drain [] qs a = refl
stopped-append drain (p ∷ ps) qs a = stopped-append drain ps qs (p.shutdown a).0

pub All-reverse_aux :
    {A : Type 0} (P : A → Type 0) (xs ys : List A) → All P xs → All P ys → All P (reverse_aux xs ys)
All-reverse_aux P [] ys hx hy = hy
All-reverse_aux P (x ∷ xs) ys hx hy = All-reverse_aux P xs (x ∷ ys) hx.1 (hx.0, hy)
