-- ===== src/Vm/Arith/Range.antt =====
-- The operators stay in the 64-bit range.
use Prim.Native.Nat.{bit_and, bit_or, bit_xor}
use native.Mathlib.Nat.{mod-lt, mod-le, div-le_self, div-lt_iff_lt-mul}
use opsh_actual.Base.{
  ℕ, zero, suc, ◌+◌, ◌-◌, ◌*◌, ◌/◌, ◌%◌, ◌^◌, ◌≤◌, ◌<◌, ◌≡◌, subst, Bool, true, false, none, some,
  if◌then◌else◌, ◌&&◌, ◌==◌, ltb, arith, Bool-cases, inl, inr,
}
use opsh_actual.Base.Decimal.{negate}
use opsh_actual.Base.Int.{ℤ, pos, negsuc, ◌+ℤ◌, ◌-ℤ◌, ◌*ℤ◌}
use opsh_actual.Vm.Arith.Int64.{
  IsInt64, of_word, word_mod, add64, sub64, mul64, neg64, not64, and64, or64, xor64, shl64, shr64,
  div64, mod64, to_word, in_range, truth, is_zero, signed_add, signed_sub, signed_mul,
}
use opsh_actual.Vm.Arith.Operators.{
  Compound, plus, minus, times, over, rem_by, and_with, xor_with, or_with, compound,
}

of_word-IsInt64 : (w : ℕ) → w < word_mod → IsInt64 (of_word w)
of_word-IsInt64 w h = elim (Bool-cases (ltb w (2 ^ 63))) [
  | inl low ↦ rw low (ground arith)
  | inr high ↦ rw high (ground arith)
]

wrapped : (n : ℕ) → IsInt64 (of_word (n % word_mod))
wrapped n = of_word-IsInt64 (n % word_mod) (mod-lt n (omega arith))

negate-IsInt64 : (n : ℕ) → n ≤ 2 ^ 63 → IsInt64 (negate n)
negate-IsInt64 zero h = omega arith
negate-IsInt64 (suc n) h = omega arith

-- The one quotient that would leave the range is the one that the code excepts.
both_negative :
    (a b : ℕ) → a < 2 ^ 63 → (a == 2 ^ 63 - 1 && b == 0) ≡ false → suc a / suc b < 2 ^ 63
both_negative a b h other =
    (div-lt_iff_lt-mul {k = suc b} {x = suc a} {y = 2 ^ 63} (omega arith)).1 (below a b h other)
  where
    below : (a b : ℕ) → a < 2 ^ 63 → (a == 2 ^ 63 - 1 && b == 0) ≡ false → suc a < 2 ^ 63 * suc b
    below a b h other = ground arith

pub div64-IsInt64 : (a b : ℤ) → IsInt64 a → IsInt64 (div64 a b)
unfolding div64
div64-IsInt64 (pos a) (pos b) h = omega (arith, div-le_self a b)
div64-IsInt64 (pos a) (negsuc b) h =
    negate-IsInt64 (a / suc b) (omega (arith, div-le_self a (suc b)))
div64-IsInt64 (negsuc a) (pos b) h = elim (Bool-cases (a == 2 ^ 63 - 1)) [
  | inl same ↦ rw same (negate-IsInt64 (suc a / b) (omega (arith, div-le_self (suc a) b)))
  | inr other ↦ rw other (negate-IsInt64 (suc a / b) (omega (arith, div-le_self (suc a) b)))
]
div64-IsInt64 (negsuc a) (negsuc b) h = elim (Bool-cases (a == 2 ^ 63 - 1 && b == 0)) [
  | inl excepted ↦ rw (div64, excepted) (omega arith)
  | inr other ↦ rw (div64, other) (both_negative a b h other)
]

pub mod64-IsInt64 : (a b : ℤ) → IsInt64 a → IsInt64 (mod64 a b)
unfolding mod64
mod64-IsInt64 (pos a) (pos b) h = omega (arith, mod-le a b)
mod64-IsInt64 (pos a) (negsuc b) h = omega (arith, mod-le a (suc b))
mod64-IsInt64 (negsuc a) (pos b) h = elim (Bool-cases (a == 2 ^ 63 - 1)) [
  | inl same ↦ rw same (negate-IsInt64 (suc a % b) (omega (arith, mod-le (suc a) b)))
  | inr other ↦ rw other (negate-IsInt64 (suc a % b) (omega (arith, mod-le (suc a) b)))
]
mod64-IsInt64 (negsuc a) (negsuc b) h = elim (Bool-cases (a == 2 ^ 63 - 1 && b == 0)) [
  | inl excepted ↦ rw (mod64, excepted) (omega arith)
  | inr other ↦
      rw (mod64, other) (negate-IsInt64 (suc a % suc b) (omega (arith, mod-le (suc a) (suc b))))
]

shr64-IsInt64 : (a : ℤ) (k : ℕ) → IsInt64 a → IsInt64 (shr64 a k)
unfolding shr64
shr64-IsInt64 (pos n) k h = omega (arith, div-le_self n (2 ^ k))
shr64-IsInt64 (negsuc n) k h = omega (arith, div-le_self n (2 ^ k))

to_word-lt : (a : ℤ) → to_word a < word_mod
to_word-lt (pos n) = mod-lt n (omega arith)
to_word-lt (negsuc n) = omega arith

-- What an operator of two operands gives, or the count of a shift.
pub record InRange (a b : ℤ) (k : ℕ) : Type 0 where
  pub sum : IsInt64 (add64 a b)
  pub difference : IsInt64 (sub64 a b)
  pub product : IsInt64 (mul64 a b)
  pub quotient : IsInt64 (div64 a b)
  pub remainder : IsInt64 (mod64 a b)
  pub negated : IsInt64 (neg64 a)
  pub inverted : IsInt64 (not64 a)
  pub both_bits : IsInt64 (and64 a b)
  pub either_bits : IsInt64 (or64 a b)
  pub differing_bits : IsInt64 (xor64 a b)
  pub left_shift : IsInt64 (shl64 a k)
  pub right_shift : IsInt64 (shr64 a k)

-- The quotient of the least integer and -1, which is none, is excepted by the code.
pub operators-InRange : (a b : ℤ) (k : ℕ) → IsInt64 a → InRange a b k
unfolding add64 sub64 mul64 neg64 not64 and64 or64 xor64 shl64
operators-InRange a b k h = record {
  sum = wrapped (to_word a + to_word b);
  difference = wrapped (to_word a + word_mod - to_word b);
  product = wrapped (to_word a * to_word b);
  quotient = div64-IsInt64 a b h;
  remainder = mod64-IsInt64 a b h;
  negated = wrapped (word_mod - to_word a);
  inverted = of_word-IsInt64 (word_mod - 1 - to_word a) (omega arith);
  both_bits = wrapped (bit_and (to_word a) (to_word b));
  either_bits = wrapped (bit_or (to_word a) (to_word b));
  differing_bits = wrapped (bit_xor (to_word a) (to_word b));
  left_shift = wrapped (to_word a * 2 ^ k);
  right_shift = shr64-IsInt64 a k h;
}

-- A signed result that is defined is in the range.
pub in_range-IsInt64 : (n v : ℤ) → in_range n ≡ some v → IsInt64 v
in_range-IsInt64 (pos n) v e = elim (Bool-cases (ltb n (2 ^ 63))) [
  | inl low ↦ let same : pos n ≡ v = cc (rw low at e) in subst IsInt64 same (ground arith)
  | inr high ↦ absurd (cc (rw high at e))
]
in_range-IsInt64 (negsuc n) v e = elim (Bool-cases (ltb n (2 ^ 63))) [
  | inl low ↦ let same : negsuc n ≡ v = cc (rw low at e) in subst IsInt64 same (ground arith)
  | inr high ↦ absurd (cc (rw high at e))
]

pub truth-IsInt64 : (b : Bool) → IsInt64 (truth b)
truth-IsInt64 true = omega arith
truth-IsInt64 false = omega arith

-- What a compound assignment stores is in the range.
pub compound-IsInt64 :
    (op : Compound) (lhs rhs v : ℤ) → IsInt64 lhs → compound op lhs rhs ≡ some (some v) → IsInt64 v
unfolding compound signed_add signed_sub signed_mul
compound-IsInt64 op lhs rhs v h e = by_operator op e
  where
    of_defined : (n : ℤ) → some (in_range n) ≡ some (some v) → IsInt64 v
    of_defined n e = in_range-IsInt64 n v (cc)

    of_value : (n : ℤ) → IsInt64 n → some (some n) ≡ some (some v) → IsInt64 v
    of_value n ranged e = let same : n ≡ v = cc in subst IsInt64 same ranged

    of_quotient :
        (b : Bool) (n : ℤ)
        → IsInt64 n
        → (if b then none else some (some n)) ≡ some (some v)
        → IsInt64 v
    of_quotient true n ranged e = cc
    of_quotient false n ranged e = of_value n ranged e

    by_operator : (op : Compound) → compound op lhs rhs ≡ some (some v) → IsInt64 v
    by_operator plus e = of_defined (lhs +ℤ rhs) e
    by_operator minus e = of_defined (lhs -ℤ rhs) e
    by_operator times e = of_defined (lhs *ℤ rhs) e
    by_operator over e = of_quotient (is_zero rhs) (div64 lhs rhs) (div64-IsInt64 lhs rhs h) e
    by_operator rem_by e = of_quotient (is_zero rhs) (mod64 lhs rhs) (mod64-IsInt64 lhs rhs h) e
    by_operator and_with e = of_value (and64 lhs rhs) (operators-InRange lhs rhs 0 h).both_bits e
    by_operator xor_with e =
        of_value (xor64 lhs rhs) (operators-InRange lhs rhs 0 h).differing_bits e
    by_operator or_with e = of_value (or64 lhs rhs) (operators-InRange lhs rhs 0 h).either_bits e
