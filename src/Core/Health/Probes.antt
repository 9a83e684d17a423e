-- ===== src/Core/Health/Probes.antt =====
-- The results of a probe do not depend on the order in which the goroutines end.
use hwhkit_go.Prelude.{
  ℕ, zero, suc, ◌<◌, ◌≤◌, ◌+◌, none, some, List, [], ◌∷◌, Bool, true, false, ◌≡◌, refl, ap, sym,
  ◌∙◌, inl, inr, arith, length, get_elem?, set, if◌then◌else◌, ◌==◌, nat_eq, Option-cases, ◌||◌,
  ◌&&◌, ltb,
}
use hwhkit_go.Prelude.Int.{Duration}
use hwhkit_go.Core.Health.{
  CheckResult, Check, Registry, run_check, finish_one, finish_all, blank, probe,
}
use hwhkit_go.Core.Health.Verdict.{verdict, overall-eq-verdict}

-- The results that the checks would leave if they ran one after the other, from slot `i` on.
abbrev pub sequential : List Check → (ℕ → Duration) → ℕ → List CheckResult
sequential [] since i = []
sequential (c ∷ cs) since i = run_check c (since i) ∷ sequential cs since (suc i)

-- Whether the goroutine of slot `i` ends.
abbrev pub ends : List ℕ → ℕ → Bool
ends [] i = false
ends (j ∷ order) i = j == i || ends order i

get_elem?-set {ℓ} :
    {A : Type ℓ} (xs : List A) (i j : ℕ) (v : A)
    → get_elem? (set xs i v) j ≡ (if i == j && ltb i (length xs) then some v else get_elem? xs j)
get_elem?-set [] i j v = ground arith
get_elem?-set (x ∷ xs) zero zero v = ground arith
get_elem?-set (x ∷ xs) zero (suc j) v = ground arith
get_elem?-set (x ∷ xs) (suc i) zero v = ground arith
get_elem?-set (x ∷ xs) (suc i) (suc j) v = ground (arith, get_elem?-set xs i j v)

length-set {ℓ} : {A : Type ℓ} (xs : List A) (i : ℕ) (v : A) → length (set xs i v) ≡ length xs
length-set [] i v = refl
length-set (x ∷ xs) zero v = refl
length-set (x ∷ xs) (suc i) v = ap suc (length-set xs i v)

ext_get_elem {ℓ} :
    {A : Type ℓ} (xs ys : List A)
    → length xs ≡ length ys
    → ((i : ℕ) → i < length xs → get_elem? xs i ≡ get_elem? ys i)
    → xs ≡ ys
ext_get_elem [] [] e h = refl
ext_get_elem [] (y ∷ ys) e h = absurd (omega arith)
ext_get_elem (x ∷ xs) [] e h = absurd (omega arith)
ext_get_elem (x ∷ xs) (y ∷ ys) e h =
    let rest : xs ≡ ys = ext_get_elem xs ys (omega arith) (λ i lt. h (suc i) (omega arith)) in
    cc (h 0 (omega arith))

length-sequential :
    (cs : List Check) (since : ℕ → Duration) (k : ℕ) → length (sequential cs since k) ≡ length cs
length-sequential [] since k = refl
length-sequential (c ∷ cs) since k = ap suc (length-sequential cs since (suc k))

length-blank : (cs : List Check) → length (blank cs) ≡ length cs
length-blank [] = refl
length-blank (c ∷ cs) = ap suc (length-blank cs)

sequential_at :
    (cs : List Check) (since : ℕ → Duration) (k i : ℕ) {c : Check}
    → get_elem? cs i ≡ some c
    → get_elem? (sequential cs since k) i ≡ some (run_check c (since (k + i)))
sequential_at [] since k i h = cc
sequential_at (c ∷ cs) since k zero h = let e : k + 0 ≡ k = omega arith in rw e (cc)
sequential_at (c ∷ cs) since k (suc i) h =
    let e : k + suc i ≡ suc k + i = omega arith in rw e (sequential_at cs since (suc k) i h)

in_range {ℓ} : {A : Type ℓ} (xs : List A) (i : ℕ) {x : A} → get_elem? xs i ≡ some x → i < length xs
in_range [] i h = cc
in_range (x ∷ xs) zero h = omega arith
in_range (x ∷ xs) (suc i) h = omega (arith, in_range xs i h)

out_of_range {ℓ} : {A : Type ℓ} (xs : List A) (i : ℕ) → get_elem? xs i ≡ none → length xs ≤ i
out_of_range [] i h = omega arith
out_of_range (x ∷ xs) zero h = cc
out_of_range (x ∷ xs) (suc i) h = omega (arith, out_of_range xs i h)

module _ (cs : List Check) (since : ℕ → Duration) where
  finish_one-length :
      (rs : List CheckResult) (j : ℕ) → length (finish_one cs since rs j) ≡ length rs
  unfolding finish_one
  finish_one-length rs j = elim (Option-cases (get_elem? cs j)) [
    | inl out ↦ rw (out, finish_one)
    | inr (c, found) ↦ rw (found, finish_one) (length-set rs j (run_check c (since j)))
  ]

  -- The slot that ends has its sequential result, and the others are left alone.
  finish_one_at :
      (rs : List CheckResult) (j i : ℕ)
      → length rs ≡ length cs
      → i < length cs
      → get_elem? (finish_one cs since rs j) i
        ≡ (if j == i then get_elem? (sequential cs since 0) i else get_elem? rs i)
  unfolding finish_one
  finish_one_at rs j i e lt = elim (Option-cases (get_elem? cs j)) [
    | inl out ↦ rw (out, finish_one) (ground (arith, out_of_range cs j out))
    | inr (c, found) ↦
        rw (found, finish_one)
          (ground (
            arith,
            get_elem?-set rs j i (run_check c (since j)),
            sequential_at cs since 0 j found,
            in_range cs j found,
          ))
  ]

  finish_all-length :
      (rs : List CheckResult) (order : List ℕ) → length (finish_all cs since rs order) ≡ length rs
  unfolding finish_all
  finish_all-length rs [] = refl
  finish_all-length rs (j ∷ order) =
      finish_all-length (finish_one cs since rs j) order ∙ finish_one-length rs j

  finish_all_at :
      (rs : List CheckResult) (order : List ℕ) (i : ℕ)
      → length rs ≡ length cs
      → i < length cs
      → get_elem? (finish_all cs since rs order) i
        ≡ (if ends order i then get_elem? (sequential cs since 0) i else get_elem? rs i)
  unfolding finish_all
  finish_all_at rs [] i e lt = refl
  finish_all_at rs (j ∷ order) i e lt = ground (
    arith,
    finish_all_at (finish_one cs since rs j) order i (finish_one-length rs j ∙ e) lt,
    finish_one_at rs j i e lt,
  )

  finish_all-eq-sequential :
      (order : List ℕ)
      → ((i : ℕ) → i < length cs → ends order i ≡ true)
      → finish_all cs since (blank cs) order ≡ sequential cs since 0
  finish_all-eq-sequential order every =
      let n = finish_all-length (blank cs) order ∙ length-blank cs in
      ext_get_elem (finish_all cs since (blank cs) order) (sequential cs since 0)
        (n ∙ sym (length-sequential cs since 0))
        λ i lt.
          let lt' : i < length cs = omega arith in
          rw (every i lt') at (finish_all_at (blank cs) order i (length-blank cs) lt')

probe_of :
    (cs : List Check) (since : ℕ → Duration) (order : List ℕ)
    → ((i : ℕ) → i < length cs → ends order i ≡ true)
    → probe (record { checks = cs }) since order
      ≡ (verdict (sequential cs since 0), sequential cs since 0)
unfolding probe
probe_of [] since order every = refl
probe_of (c ∷ cs) since order every =
    rw (finish_all-eq-sequential (c ∷ cs) since order every)
      (rw (overall-eq-verdict (sequential (c ∷ cs) since 0)))

-- In whatever order the goroutines of the checks end, if each ends, Probe returns the results that
-- the checks give one by one, in the order of registration, and their verdict.
pub probe_any_order :
    (r : Registry) (since : ℕ → Duration) (order : List ℕ)
    → ((i : ℕ) → i < length r.checks → ends order i ≡ true)
    → probe r since order ≡ (verdict (sequential r.checks since 0), sequential r.checks since 0)
probe_any_order r since order every = probe_of r.checks since order every
