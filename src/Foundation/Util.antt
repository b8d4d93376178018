-- ===== src/Foundation/Util.antt =====
-- src/foundation/util.c: size_t arithmetic that reports overflow.
use native.Mathlib.Nat.{div-lt_iff_lt-mul, le-div_iff_mul-le, mul_comm}
use opsh_actual.Base.{
  ℕ, zero, suc, refl, ◌+◌, ◌-◌, ◌*◌, ◌/◌, ◌^◌, ◌≤◌, ◌<◌, ◌≡◌, Option, none, some, arith, not, ◌&&◌,
  ◌==◌, ltb, if◌then◌else◌, Bool-cases, inl, inr, ltb→lt,
}

abbrev pub size_max : ℕ
size_max = 2 ^ 64 - 1

-- `none` is the result -1, with `*result` unwritten.
unfoldable pub checked_add : ℕ → ℕ → Option ℕ
checked_add a b = if ltb (size_max - b) a then none else some (a + b)

unfoldable pub checked_mul : ℕ → ℕ → Option ℕ
checked_mul a b = if not (a == 0) && ltb (size_max / a) b then none else some (a * b)

-- What a size_t holds is returned, and any other number is refused.
abbrev pub fitting : ℕ → Option ℕ
fitting n = if ltb size_max n then none else some n

-- For a size_t `b`, the sum is returned if a size_t holds it, and refused otherwise.
pub checked_add_lem : (a b : ℕ) → b ≤ size_max → checked_add a b ≡ fitting (a + b)
unfolding checked_add
checked_add_lem a b hb = ground arith

le-quotient : (a b : ℕ) → suc a * b ≤ size_max → b ≤ size_max / suc a
le-quotient a b h = (le-div_iff_mul-le (omega arith)).1 (omega (arith, mul_comm b (suc a)))

quotient-lt : (a b : ℕ) → size_max < suc a * b → size_max / suc a < b
quotient-lt a b h = (div-lt_iff_lt-mul (omega arith)).1 (omega (arith, mul_comm b (suc a)))

pub checked_mul-eq_some : (a b : ℕ) → a * b ≤ size_max → checked_mul a b ≡ some (a * b)
unfolding checked_mul
checked_mul-eq_some zero b h = refl
checked_mul-eq_some (suc a) b h = ground (arith, le-quotient a b h)

checked_mul-eq_none : (a b : ℕ) → size_max < a * b → checked_mul a b ≡ none
unfolding checked_mul
checked_mul-eq_none zero b h = absurd (omega arith)
checked_mul-eq_none (suc a) b h = ground (arith, quotient-lt a b h)

-- The product is returned if a size_t holds it, and refused otherwise: the test by a division
-- loses no case, and a zero factor is no overflow.
pub checked_mul_lem : (a b : ℕ) → checked_mul a b ≡ fitting (a * b)
checked_mul_lem a b = elim (Bool-cases (ltb size_max (a * b))) [
  | inl over ↦ rw over (checked_mul-eq_none a b (ltb→lt size_max (a * b) over))
  | inr fits ↦ rw fits (checked_mul-eq_some a b (ground arith))
]
