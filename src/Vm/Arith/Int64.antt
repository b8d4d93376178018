-- ===== src/Vm/Arith/Int64.antt =====
-- int64_t and uint64_t arithmetic of src/vm/arith.c. A value is the integer; the casts to
-- uint64_t and back are two's complement. `none` is an overflow that C leaves undefined.
use Prim.Native.Nat.{bit_and, bit_or, bit_xor}
use opsh_actual.Base.{
  ℕ, zero, suc, ◌+◌, ◌-◌, ◌*◌, ◌/◌, ◌%◌, ◌^◌, ◌<◌, Bool, true, false, ◌&&◌, Option, none, some, ltb,
  leb, ◌==◌, if◌then◌else◌,
}
use opsh_actual.Base.Decimal.{negate}
use opsh_actual.Base.Int.{ℤ, pos, negsuc, ◌+ℤ◌, ◌-ℤ◌, ◌*ℤ◌}

abbrev pub word_mod : ℕ
word_mod = 2 ^ 64

abbrev pub IsInt64 : ℤ → Type 0
IsInt64 (pos n) = n < 2 ^ 63
IsInt64 (negsuc n) = n < 2 ^ 63

-- `(uint64_t)a` and `(int64_t)w`
abbrev pub to_word : ℤ → ℕ
to_word (pos n) = n % word_mod
to_word (negsuc n) = word_mod - 1 - n % word_mod

abbrev pub of_word : ℕ → ℤ
of_word w = if ltb w (2 ^ 63) then pos w else negsuc (word_mod - 1 - w)

unfoldable pub add64 : ℤ → ℤ → ℤ
add64 a b = of_word ((to_word a + to_word b) % word_mod)

unfoldable pub sub64 : ℤ → ℤ → ℤ
sub64 a b = of_word ((to_word a + word_mod - to_word b) % word_mod)

unfoldable pub mul64 : ℤ → ℤ → ℤ
mul64 a b = of_word (to_word a * to_word b % word_mod)

-- `(int64_t)(-(uint64_t)a)`
unfoldable pub neg64 : ℤ → ℤ
neg64 a = of_word ((word_mod - to_word a) % word_mod)

unfoldable pub not64 : ℤ → ℤ
not64 a = of_word (word_mod - 1 - to_word a)

unfoldable pub and64 : ℤ → ℤ → ℤ
and64 a b = of_word (bit_and (to_word a) (to_word b) % word_mod)

unfoldable pub or64 : ℤ → ℤ → ℤ
or64 a b = of_word (bit_or (to_word a) (to_word b) % word_mod)

unfoldable pub xor64 : ℤ → ℤ → ℤ
xor64 a b = of_word (bit_xor (to_word a) (to_word b) % word_mod)

-- `(int64_t)((uint64_t)a << k)` and the arithmetic `a >> k`
unfoldable pub shl64 : ℤ → ℕ → ℤ
shl64 a k = of_word (to_word a * 2 ^ k % word_mod)

unfoldable pub shr64 : ℤ → ℕ → ℤ
shr64 (pos n) k = pos (n / 2 ^ k)
shr64 (negsuc n) k = negsuc (n / 2 ^ k)

abbrev pub truth : Bool → ℤ
truth true = pos 1
truth false = pos 0

abbrev pub is_zero : ℤ → Bool
is_zero (pos zero) = true
is_zero _ = false

abbrev pub eqb_ℤ : ℤ → ℤ → Bool
eqb_ℤ (pos a) (pos b) = a == b
eqb_ℤ (negsuc a) (negsuc b) = a == b
eqb_ℤ _ _ = false

abbrev pub int64_min : ℤ
int64_min = negsuc (2 ^ 63 - 1)

-- C's `/` and `%` round towards zero; here the divisor is not zero.
abbrev pub quotient : ℤ → ℤ → ℤ
quotient (pos a) (pos b) = pos (a / b)
quotient (pos a) (negsuc b) = negate (a / suc b)
quotient (negsuc a) (pos b) = negate (suc a / b)
quotient (negsuc a) (negsuc b) = pos (suc a / suc b)

abbrev pub remainder : ℤ → ℤ → ℤ
remainder (pos a) (pos b) = pos (a % b)
remainder (pos a) (negsuc b) = pos (a % suc b)
remainder (negsuc a) (pos b) = negate (suc a % b)
remainder (negsuc a) (negsuc b) = negate (suc a % suc b)

-- With the code's exception for INT64_MIN and -1.
unfoldable pub div64 : ℤ → ℤ → ℤ
div64 a b = if eqb_ℤ a int64_min && eqb_ℤ b (negsuc 0) then int64_min else quotient a b

unfoldable pub mod64 : ℤ → ℤ → ℤ
mod64 a b = if eqb_ℤ a int64_min && eqb_ℤ b (negsuc 0) then pos 0 else remainder a b

-- A signed result is undefined outside the range.
abbrev pub in_range : ℤ → Option ℤ
in_range (pos n) = if ltb n (2 ^ 63) then some (pos n) else none
in_range (negsuc n) = if ltb n (2 ^ 63) then some (negsuc n) else none

unfoldable pub signed_add : ℤ → ℤ → Option ℤ
signed_add a b = in_range (a +ℤ b)

unfoldable pub signed_sub : ℤ → ℤ → Option ℤ
signed_sub a b = in_range (a -ℤ b)

unfoldable pub signed_mul : ℤ → ℤ → Option ℤ
signed_mul a b = in_range (a *ℤ b)

-- `rhs < 0 || rhs >= 64`
abbrev pub bad_shift : ℤ → Bool
bad_shift (pos n) = leb 64 n
bad_shift (negsuc n) = true

abbrev pub shift_count : ℤ → ℕ
shift_count (pos n) = n
shift_count (negsuc n) = 0
