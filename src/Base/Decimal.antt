-- ===== src/Base/Decimal.antt =====
-- Decimal digits: what snprintf and strtoll of the C library do with them.
pub mod Printed
pub mod Inside
use opsh_actual.Base.Tests.{ltb, leb, ◌==◌, if◌then◌else◌}
use opsh_actual.Base.Int.{ℤ, pos, negsuc}
use opsh_actual.Base.Text.{Bytes}
use Prim.Native.Nat.{ℕ, zero, suc, ◌+◌, ◌-◌, ◌*◌, ◌/◌, ◌%◌, ◌^◌}
use mathlib.Core.Bool.{Bool, true, false, ◌&&◌, ◌||◌}
use mathlib.Core.List.{[], ◌∷◌}

-- The digits of `n` in front of `out`; `suc n` rounds are enough.
pub digits_before : ℕ → ℕ → Bytes → Bytes
digits_before zero n out = out
digits_before (suc fuel) n out =
    let rest = digits_before fuel (n / 10) ((b'0' + n % 10) ∷ out) in
    if ltb n 10 then (b'0' + n) ∷ out else rest

unfoldable pub print_nat : ℕ → Bytes
unfolding digits_before
print_nat n = digits_before (suc n) n []

-- `snprintf(buf, sizeof(buf), "%" PRId64, n)`
unfoldable pub print_int : ℤ → Bytes
unfolding print_nat
print_int (pos n) = print_nat n
print_int (negsuc n) = b'-' ∷ print_nat (suc n)

abbrev pub is_digit : ℕ → Bool
is_digit c = leb b'0' c && leb c b'9'

abbrev pub is_space : ℕ → Bool
is_space c = c == b' ' || leb 9 c && leb c 13

-- The value of a digit of base 16, and 16 for any other byte.
unfoldable pub digit_value : ℕ → ℕ
digit_value c =
    if is_digit c
    then c - b'0'
    else if leb b'a' c && leb c b'f'
    then c - b'a' + 10
    else if leb b'A' c && leb c b'F'
    then c - b'A' + 10
    else 16

-- The longest row of digits of a base, added to what was read before it, and the text behind it.
unfoldable pub read_digits : ℕ → Bytes → ℕ → ℕ × Bytes
unfolding digit_value
read_digits base [] n = (n, [])
read_digits base (c ∷ s) n =
    let rest = read_digits base s (n * base + digit_value c) in
    if ltb (digit_value c) base then rest else (n, c ∷ s)

abbrev pub int64_max : ℕ
int64_max = 2 ^ 63 - 1

abbrev pub negate : ℕ → ℤ
negate zero = pos 0
negate (suc n) = negsuc n

-- strtoll saturates.
abbrev pub saturate : Bool → ℕ → ℤ
saturate negative n =
    if negative
    then (if ltb int64_max n then negsuc int64_max else negate n)
    else (if ltb int64_max n then pos int64_max else pos n)

-- `strtoll(s, &end, 0)` on a text that begins with a digit: hexadecimal behind `0x`, octal behind
-- `0`, and decimal otherwise. The hexadecimal prefix needs a digit behind it.
unfoldable pub read_literal : Bytes → ℕ × Bytes
unfolding read_digits
read_literal [] = (0, [])
read_literal (c ∷ []) = read_digits 10 (c ∷ []) 0
read_literal (c ∷ x ∷ []) = read_digits (if c == b'0' then 8 else 10) (c ∷ x ∷ []) 0
read_literal (c ∷ x ∷ d ∷ s) =
    if c == b'0' && (x == b'x' || x == b'X') && ltb (digit_value d) 16
    then read_digits 16 (d ∷ s) 0
    else read_digits (if c == b'0' then 8 else 10) (c ∷ x ∷ d ∷ s) 0

abbrev drop_space : Bytes → Bytes
drop_space [] = []
drop_space (c ∷ s) = if is_space c then drop_space s else c ∷ s

abbrev signed : Bytes → Bool × Bytes
signed [] = (false, [])
signed (c ∷ s) = if c == b'-' then (true, s) else if c == b'+' then (false, s) else (false, c ∷ s)

-- `strtoll(s, NULL, 10)`
unfoldable pub strtoll : Bytes → ℤ
unfolding read_digits
strtoll s =
    let (negative, digits) = signed (drop_space s) in
    saturate negative ((read_digits 10 digits 0).0)
