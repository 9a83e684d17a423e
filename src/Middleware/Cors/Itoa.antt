-- ===== src/Middleware/Cors/Itoa.antt =====
-- `itoa` of hwhkit/middleware/cors.go: the decimal digits are written from the end of a buffer of
-- 20 bytes, and `none` is the panic of an index below 0.
use hwhkit_go.Prelude.{
  true, ◌⊎◌, ℕ, zero, suc, ◌+◌, ◌-◌, ◌*◌, ◌/◌, ◌%◌, ◌^◌, ◌≤◌, ◌<◌, ◌≡◌, refl, ap, ◌∙◌, inl, inr,
  Option, none, some, [], ◌∷◌, arith, ◌==◌, nat_eq, string_eq, if◌then◌else◌, Bool-cases, All,
}
use native.Mathlib.Nat.{pow-suc}
use hwhkit_go.Prelude.Int.{wrap64_of_fits, ℤ, pos, negsuc, wrap64, pos_part, max_int64}
use hwhkit_go.Prelude.Text.{Bytes}

-- `for n > 0 { pos--; buf[pos] = '0' + n%10; n /= 10 }` with `room` bytes left.
unfoldable pub digits_loop : ℕ → ℕ → Bytes → Option (ℕ × Bytes)
digits_loop zero n out = if n == 0 then some (0, out) else none
digits_loop (suc room) n out =
    let rest = digits_loop room (n / 10) ((b'0' + n % 10) ∷ out) in
    if n == 0 then some (suc room, out) else rest

-- `-n` in int64: the smallest int stays negative.
abbrev negated : ℕ → ℤ
negated k = wrap64 (pos (suc k))

-- The sign takes one more byte.
abbrev put_sign : Option (ℕ × Bytes) → Option Bytes
put_sign none = none
put_sign (some (zero, out)) = none
put_sign (some (suc room, out)) = some (b'-' ∷ out)

abbrev without_room : Option (ℕ × Bytes) → Option Bytes
without_room none = none
without_room (some (room, out)) = some out

unfoldable pub itoa : ℤ → Option Bytes
itoa (pos n) = if n == 0 then some (b'0' ∷ []) else without_room (digits_loop 20 n [])
itoa (negsuc k) = put_sign (digits_loop 20 (pos_part (negated k)) [])

-- The number that decimal digits denote, after `acc`.
abbrev pub value_from : ℕ → Bytes → ℕ
value_from acc [] = acc
value_from acc (b ∷ bs) = value_from (acc * 10 + (b - b'0')) bs

abbrev pub IsDigit : ℕ → Type 0
IsDigit b = (b'0' ≤ b) × (b ≤ b'9')

quotient_lt : (k n : ℕ) → n < 10 ^ suc k → n / 10 < 10 ^ k
quotient_lt k n h = let h' : n < 10 ^ k * 10 = rw pow-suc at h in omega arith

-- With room for the digits of `n` the loop ends; it leaves the other bytes free, and what it wrote
-- denotes `n` followed by what was there.
digits_loop_writes :
    (room k n : ℕ) (out : Bytes)
    → n < 10 ^ k
    → k ≤ room
    → All IsDigit out
    → (left : ℕ) × (ds : Bytes) × (digits_loop room n out ≡ some (left, ds))
      × All IsDigit ds
      × (value_from 0 ds ≡ value_from n out)
      × (room ≤ left + k)
unfolding digits_loop
digits_loop_writes zero zero n out h le d =
    let e : n ≡ 0 = omega arith in (0, out, ground arith, d, rw e refl, omega arith)
digits_loop_writes zero (suc k) n out h le d = absurd (omega arith)
digits_loop_writes (suc room) zero n out h le d =
    let e : n ≡ 0 = omega arith in (suc room, out, ground arith, d, rw e refl, omega arith)
digits_loop_writes (suc room) (suc k) n out h le d = elim (Bool-cases (n == 0)) [
  | inl stop ↦
      let e : n ≡ 0 = ground arith in (suc room, out, ground arith, d, rw e refl, omega arith)
  | inr more ↦
      let (left, ds, runs, digits, value, free) =
        digits_loop_writes room k (n / 10) ((b'0' + n % 10) ∷ out) (quotient_lt k n h) (omega arith)
          ((omega arith, omega arith), d) in
      let e : n / 10 * 10 + (b'0' + n % 10 - b'0') ≡ n = omega arith in
      (left, ds, rw more runs, digits, value ∙ ap (λ a. value_from a out) e, omega arith)
]

-- With nothing left the loop writes nothing.
digits_loop_ends :
    (room n : ℕ) (out : Bytes) (left : ℕ) (ds : Bytes)
    → (n == 0) ≡ true
    → digits_loop room n out ≡ some (left, ds)
    → ds ≡ out
unfolding digits_loop
digits_loop_ends zero n out left ds z h = ground arith
digits_loop_ends (suc room) n out left ds z h = ground arith

-- There is a first digit, and it is not 0.
abbrev pub Leads : Bytes → Type 0
Leads [] = ⊥
Leads (b ∷ bs) = b'0' < b

-- What the loop writes for a positive number has no leading zero.
digits_loop-Leads :
    (room n : ℕ) (out : Bytes) (left : ℕ) (ds : Bytes)
    → 0 < n
    → digits_loop room n out ≡ some (left, ds)
    → Leads ds
unfolding digits_loop
digits_loop-Leads zero n out left ds p h = absurd (ground arith)
digits_loop-Leads (suc room) n out left ds p h =
    let d = b'0' + n % 10 in
    let more : digits_loop room (n / 10) (d ∷ out) ≡ some (left, ds) = ground arith in
    elim (Bool-cases (n / 10 == 0)) [
      | inl stop ↦
          let last : ds ≡ d ∷ out = digits_loop_ends room (n / 10) (d ∷ out) left ds stop more in
          rw last (ground (arith, stop))
      | inr go ↦ digits_loop-Leads room (n / 10) (d ∷ out) left ds (ground arith) more
    ]

-- The decimal digits that denote `n`, with no leading zero.
abbrev pub Decimal : Bytes → ℕ → Type 0
Decimal ds n = All IsDigit ds × (value_from 0 ds ≡ n) × ((ds ≡ b'0' ∷ []) ⊎ Leads ds)

itoa-suc : (k : ℕ) → itoa (pos (suc k)) ≡ without_room (digits_loop 20 (suc k) [])
unfolding itoa
itoa-suc k = ground arith

itoa_positive : (n : ℕ) → n ≤ max_int64 → (ds : Bytes) × (itoa (pos n) ≡ some ds) × Decimal ds n
unfolding itoa
itoa_positive zero h = (b'0' ∷ [], refl, (((omega arith, omega arith), tt), omega arith, inl refl))
itoa_positive (suc k) h =
    let (left, ds, runs, digits, value, free) =
      digits_loop_writes 20 19 (suc k) [] (omega arith) (omega arith) tt in
    (
      ds,
      itoa-suc k ∙ ap without_room runs,
      (digits, value, inr (digits_loop-Leads 20 (suc k) [] left ds (omega arith) runs)),
    )

itoa_negative :
    (k : ℕ)
    → suc k ≤ max_int64
    → (ds : Bytes) × (itoa (negsuc k) ≡ some (b'-' ∷ ds)) × Decimal ds (suc k)
unfolding itoa
itoa_negative k h =
    let (left, ds, runs, digits, value, free) =
      digits_loop_writes 20 19 (suc k) [] (omega arith) (omega arith) tt in
    (
      ds,
      rw (wrap64_of_fits (suc k) h) (rw runs (put_sign_room left free)),
      (digits, value, inr (digits_loop-Leads 20 (suc k) [] left ds (omega arith) runs)),
    )
  where
    put_sign_room :
        {out : Bytes} (left : ℕ) → 20 ≤ left + 19 → put_sign (some (left, out)) ≡ some (b'-' ∷ out)
    put_sign_room zero f = absurd (omega arith)
    put_sign_room (suc room) f = refl

abbrev pub magnitude : ℤ → ℕ
magnitude (pos n) = n
magnitude (negsuc k) = suc k

abbrev pub signed : ℤ → Bytes → Bytes
signed (pos n) ds = ds
signed (negsuc k) ds = b'-' ∷ ds

-- For every int but the smallest the buffer is large enough, and itoa returns the decimal digits of
-- the absolute value, without leading zeros and "0" for 0, behind a minus sign if the number is
-- negative.
pub itoa-Decimal :
    (z : ℤ)
    → magnitude z ≤ max_int64
    → (ds : Bytes) × (itoa z ≡ some (signed z ds)) × Decimal ds (magnitude z)
itoa-Decimal (pos n) h = itoa_positive n h
itoa-Decimal (negsuc k) h = itoa_negative k h

-- The smallest int: its negation wraps round to itself, and only the sign is written.
itoa_smallest : itoa (negsuc max_int64) ≡ some (b'-' ∷ [])
unfolding itoa digits_loop wrap64
itoa_smallest = refl
