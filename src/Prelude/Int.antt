-- ===== src/Prelude/Int.antt =====
-- Go's signed integers: `int` and `int64` are 64 bits wide, and `time.Duration` is an `int64` of
-- nanoseconds. ℤ is the mathematical integer; `wrap64` is the machine's wrap-around.
use hwhkit_go.Prelude.Tests.{ltb, leb, if◌then◌else◌, ◌==◌, Eq, nat_eq}
use Prim.Native.Nat.{ℕ, suc, ◌+◌, ◌-◌, ◌*◌, ◌%◌, ◌/◌, ◌^◌, ◌≤◌}
use mathlib.Core.Path.{◌≡◌}
use mathlib.Core.Logic.{◌↔◌}
use mathlib.Core.Bool.{Bool, true, false}
use native.Mathlib.Omega.{arith}

-- `negsuc n` is -(n + 1).
pub data ℤ : Type 0 where
  pos : ℕ → ℤ
  negsuc : ℕ → ℤ

abbrev pub pos_part : ℤ → ℕ
pos_part (pos n) = n
pos_part (negsuc n) = 0

abbrev pub neg_part : ℤ → ℕ
neg_part (pos n) = 0
neg_part (negsuc n) = suc n

-- a - b, as an integer.
abbrev pub sub_ℕ : ℕ → ℕ → ℤ
sub_ℕ a b = if leb b a then pos (a - b) else negsuc (b - a - 1)

abbrev pub ltb_ℤ : ℤ → ℤ → Bool
ltb_ℤ a b = ltb (pos_part a + neg_part b) (pos_part b + neg_part a)

abbrev pub leb_ℤ : ℤ → ℤ → Bool
leb_ℤ a b = leb (pos_part a + neg_part b) (pos_part b + neg_part a)

infix 50 ◌≤ℤ◌
abbrev pub ◌≤ℤ◌ : ℤ → ℤ → Type 0
a ≤ℤ b = pos_part a + neg_part b ≤ pos_part b + neg_part a

abbrev int_beq : ℤ → ℤ → Bool
int_beq (pos a) (pos b) = a == b
int_beq (negsuc a) (negsuc b) = a == b
int_beq _ _ = false

pub int_beq_iff : (a b : ℤ) → (int_beq a b ≡ true) ↔ (a ≡ b)
int_beq_iff (pos a) (pos b) = ground arith
int_beq_iff (pos a) (negsuc b) = ground arith
int_beq_iff (negsuc a) (pos b) = ground arith
int_beq_iff (negsuc a) (negsuc b) = ground arith

instance abbrev pub int_eq : Eq ℤ
int_eq = record { beq = int_beq; beq_iff = int_beq_iff }

-- `x <= 0` and `x > 0`.
abbrev pub is_positive : ℤ → Bool
is_positive (pos n) = ltb 0 n
is_positive (negsuc n) = false

-- The int64 whose bit pattern is `r`, for r < 2^64.
abbrev pub of_bits : ℕ → ℤ
of_bits r = if ltb r (2 ^ 63) then pos r else negsuc (2 ^ 64 - 1 - r)

unfoldable pub wrap64 : ℤ → ℤ
wrap64 (pos n) = of_bits (n % 2 ^ 64)
wrap64 (negsuc n) = of_bits (2 ^ 64 - 1 - n % 2 ^ 64)

abbrev pub max_int64 : ℕ
max_int64 = 2 ^ 63 - 1

pub wrap64_of_fits : (n : ℕ) → n ≤ max_int64 → wrap64 (pos n) ≡ pos n
unfolding wrap64
wrap64_of_fits n h = ground arith

-- A duration in nanoseconds; `time.Duration(n) * unit` is computed in int64.
abbrev pub Duration : Type 0
Duration = ℤ

abbrev pub millisecond : ℕ
millisecond = 1_000_000

abbrev pub second : ℕ
second = 1_000_000_000

-- `time.Duration(n) * time.Millisecond` for n ≥ 0.
unfoldable pub of_millis : ℕ → Duration
unfolding wrap64
of_millis n = wrap64 (pos (n * millisecond))

-- `d.Milliseconds()` and `d.Seconds()` truncated to an integer: division that rounds to zero.
abbrev neg : ℕ → ℤ
neg n = sub_ℕ 0 n

unfoldable pub div_trunc : ℤ → ℕ → ℤ
div_trunc (pos n) d = pos (n / d)
div_trunc (negsuc n) d = neg (suc n / d)

-- a + b, as an integer.
abbrev pub add_ℤ : ℤ → ℤ → ℤ
add_ℤ (pos a) (pos b) = pos (a + b)
add_ℤ (pos a) (negsuc b) = sub_ℕ a (suc b)
add_ℤ (negsuc a) (pos b) = sub_ℕ b (suc a)
add_ℤ (negsuc a) (negsuc b) = negsuc (suc (a + b))
