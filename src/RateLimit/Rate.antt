-- ===== src/RateLimit/Rate.antt =====
-- How many requests the script can admit.
use hwhkit_go.Prelude.{
  ℕ, suc, ◌+◌, ◌-◌, ◌*◌, ◌≤◌, ◌≡◌, refl, inl, inr, Option, none, some, List, [], ◌∷◌, arith, ltb,
  leb, nat_eq, string_eq, leb→le, Bool-cases,
}
use native.Mathlib.Nat.{mul-le-mul_right}
use hwhkit_go.RateLimit.Script.{Limits, Bucket, Reply, allowed, denied, alive, refilled, take_token}

abbrev pub count_if_allowed : Reply → ℕ → ℕ
count_if_allowed allowed n = suc n
count_if_allowed (denied w) n = n

-- The number of admitted requests; each comes the given number of milliseconds after the one before.
abbrev pub admitted : Limits → ℕ → Option Bucket → List ℕ → ℕ
admitted l now stored [] = 0
admitted l now stored (gap ∷ gaps) =
    let (reply, b) = take_token l (now + gap) stored in
    count_if_allowed reply (admitted l (now + gap) (some b) gaps)

abbrev pub total : List ℕ → ℕ
total [] = 0
total (gap ∷ gaps) = gap + total gaps

-- The expiry of a key hides nothing: what has expired would be full.
abbrev pub Sound : Limits → Type 0
Sound l = l.burst ≤ 2 * l.limit

record Fresh (l : Limits) (now : ℕ) (b : Bucket) : Type 0 where
  at : b.ts ≡ now
  until : b.expires ≡ now + l.window * 2

scaled_le : (a g w l : ℕ) → a ≤ 2 * l → w * 2 ≤ g → a * w ≤ g * l
scaled_le a g w l h k =
    let p : a * w ≤ 2 * l * w = mul-le-mul_right w h in
    let q : w * 2 * l ≤ g * l = mul-le-mul_right l k in omega arith

refilled_le :
    (l : Limits) (now gap : ℕ) (b : Bucket)
    → Sound l
    → Fresh l now b
    → refilled l (now + gap) (alive (now + gap) (some b)) ≤ b.level + gap * l.limit
unfolding refilled
refilled_le l now gap b s f = elim (Bool-cases (leb b.expires (now + gap))) [
  | inl gone ↦
      let long : l.window * 2 ≤ gap = omega (arith, f.until, leb→le b.expires (now + gap) gone) in
      let full = scaled_le l.burst gap l.window l.limit s long in rw (gone, refilled) (omega arith)
  | inr there ↦
      let same : now + gap - b.ts ≡ gap = omega (arith, f.at) in
      rw (there, refilled) (rw same (omega arith))
]

take_token-Fresh :
    (l : Limits) (now : ℕ) (stored : Option Bucket) → Fresh l now (take_token l now stored).1
unfolding take_token
take_token-Fresh l now stored = ground arith

-- One admission costs one token.
spent :
    (l : Limits) (now : ℕ) (stored : Option Bucket) (n : ℕ)
    → count_if_allowed (take_token l now stored).0 n * l.window + (take_token l now stored).1.level
      ≡ n * l.window + refilled l now (alive now stored)
unfolding take_token
spent l now stored n = elim (Bool-cases (ltb (refilled l now (alive now stored)) l.window)) [
  | inl few ↦ rw (few, take_token) refl
  | inr many ↦ rw (many, take_token) (ground arith)
]

admitted_from :
    (l : Limits) (now : ℕ) (b : Bucket) (gaps : List ℕ)
    → Sound l
    → Fresh l now b
    → admitted l now (some b) gaps * l.window ≤ b.level + total gaps * l.limit
admitted_from l now b [] s f = omega arith
admitted_from l now b (gap ∷ gaps) s f =
    let (reply, b') = take_token l (now + gap) (some b) in
    let later = admitted_from l (now + gap) b' gaps s (take_token-Fresh l (now + gap) (some b)) in
    omega (
      arith,
      later,
      spent l (now + gap) (some b) (admitted l (now + gap) (some b') gaps),
      refilled_le l now gap b s f,
    )

refilled-none : (l : Limits) (t : ℕ) → refilled l t (alive t none) ≤ l.burst * l.window
unfolding refilled
refilled-none l t = omega arith

-- With exact numbers where the script has doubles, from a key with no bucket on, if the burst is at
-- most twice the limit, the requests admitted in a span of time after the first request number at
-- most burst + span * limit / window.
pub admitted_rate :
    (l : Limits) (start : ℕ) (gaps : List ℕ)
    → l.burst ≤ 2 * l.limit
    → admitted l start none (0 ∷ gaps) * l.window ≤ l.burst * l.window + total gaps * l.limit
admitted_rate l start gaps s =
    let (reply, b') = take_token l (start + 0) none in
    omega (
      arith,
      admitted_from l (start + 0) b' gaps s (take_token-Fresh l (start + 0) none),
      spent l (start + 0) none (admitted l (start + 0) (some b') gaps),
      refilled-none l (start + 0),
    )
