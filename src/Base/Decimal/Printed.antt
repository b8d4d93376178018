-- ===== src/Base/Decimal/Printed.antt =====
-- A printed number reads back.
use opsh_actual.Base.{
  ℕ, zero, suc, ◌+◌, ◌*◌, ◌/◌, ◌%◌, ◌≤◌, ◌<◌, ◌≡◌, refl, sym, ap, ◌∙◌, true, false, [], ◌∷◌, ltb,
  ◌==◌, if◌then◌else◌, Bytes, arith, Bool-cases, inl, inr, lt→ltb, ltb→lt, ltb→le,
}
use opsh_actual.Base.Int.{ℤ, pos, negsuc}
use opsh_actual.Base.Decimal.{
  strtoll, print_int, int64_max, is_space, digits_before, print_nat, digit_value, read_digits,
}

value_of_digit : (d : ℕ) → d < 10 → digit_value (b'0' + d) ≡ d
unfolding digit_value
value_of_digit d h = ground arith

-- One digit in front.
read_one :
    (d n : ℕ) (out : Bytes)
    → d < 10
    → read_digits 10 ((b'0' + d) ∷ out) n ≡ read_digits 10 out (n * 10 + d)
unfolding read_digits
read_one d n out h =
    let small : ltb d 10 ≡ true = lt→ltb d 10 h in rw (read_digits, value_of_digit d h, small) refl

pub read_back :
    (fuel n : ℕ) (out : Bytes)
    → n < fuel
    → read_digits 10 (digits_before fuel n out) 0 ≡ read_digits 10 out n
unfolding digits_before
read_back zero n out h = absurd (omega arith)
read_back (suc fuel) n out h = elim (Bool-cases (ltb n 10)) [
  | inl small ↦
      let same : 0 * 10 + n ≡ n = omega arith in
      rw small (read_one n 0 out (ltb→lt n 10 small) ∙ ap (read_digits 10 out) same)
  | inr large ↦
      let whole : n / 10 * 10 + n % 10 ≡ n = omega arith in
      rw large (
        read_back fuel (n / 10) ((b'0' + n % 10) ∷ out) (omega (arith, ltb→le n 10 large))
        ∙ read_one (n % 10) (n / 10) out (omega arith)
        ∙ ap (read_digits 10 out) whole)
]

pub read_digits-print_nat : (n : ℕ) → read_digits 10 (print_nat n) 0 ≡ (n, [])
unfolding print_nat read_digits
read_digits-print_nat n = read_back (suc n) n [] (omega arith)

leading :
    (fuel n : ℕ) (out : Bytes)
    → 0 < n
    → n < fuel
    → (c : ℕ) × (rest : Bytes) × (digits_before fuel n out ≡ c ∷ rest) × (b'1' ≤ c) × (c ≤ b'9')
unfolding digits_before
leading zero n out least h = absurd (omega arith)
leading (suc fuel) n out least h = elim (Bool-cases (ltb n 10)) [
  | inl small ↦ (b'0' + n, out, rw small, omega arith, omega (arith, ltb→lt n 10 small))
  | inr large ↦
      let (c, rest, e, low, high) =
        leading fuel (n / 10) ((b'0' + n % 10) ∷ out) (omega (arith, ltb→le n 10 large))
          (omega (arith, ltb→le n 10 large)) in
      (c, rest, rw large e, low, high)
]

-- A positive number starts with a digit that is not 0.
pub print_nat-leading :
    (n : ℕ) → 0 < n → (c : ℕ) × (rest : Bytes) × (print_nat n ≡ c ∷ rest) × (b'1' ≤ c) × (c ≤ b'9')
unfolding print_nat
print_nat-leading n least = leading (suc n) n [] least (omega arith)

-- The first byte of a printed number is a digit.
pub print_nat-head :
    (n : ℕ) → (c : ℕ) × (rest : Bytes) × (print_nat n ≡ c ∷ rest) × (b'0' ≤ c) × (c ≤ b'9')
unfolding print_nat
print_nat-head zero = (b'0', [], refl, omega arith, omega arith)
print_nat-head (suc n) =
    let (c, rest, e, low, high) = print_nat-leading (suc n) (omega arith) in
    (c, rest, e, omega arith, high)

abbrev pub FitsInt64 : ℤ → Type 0
FitsInt64 (pos n) = n ≤ int64_max
FitsInt64 (negsuc n) = n ≤ int64_max

pub head_tests :
    (c : ℕ)
    → b'0' ≤ c
    → c ≤ b'9'
    → (is_space c ≡ false) × ((c == b'-') ≡ false) × ((c == b'+') ≡ false)
head_tests c low high = (ground arith, ground arith, ground arith)

-- Every 64-bit integer reads back from its decimal text.
pub strtoll-print_int : (n : ℤ) → FitsInt64 n → strtoll (print_int n) ≡ n
unfolding strtoll print_int
strtoll-print_int (pos n) fits =
    let (c, rest, e, low, high) = print_nat-head n in
    let (blank, minus, plus) = head_tests c low high in
    let back : read_digits 10 (c ∷ rest) 0 ≡ (n, []) =
      ap (λ s. read_digits 10 s 0) (sym e) ∙ read_digits-print_nat n in
    let small : ltb int64_max n ≡ false = ground arith in
    rw e (rw (strtoll, blank, minus, plus, back, small) refl)
strtoll-print_int (negsuc n) fits =
    let (c, rest, e, low, high) = print_nat-head (suc n) in
    let back : read_digits 10 (print_nat (suc n)) 0 ≡ (suc n, []) = read_digits-print_nat (suc n) in
    rw (strtoll, back) (at_bound n fits)
  where
    at_bound :
        (n : ℕ)
        → n ≤ int64_max
        → (if ltb int64_max (suc n) then negsuc int64_max else negsuc n) ≡ negsuc n
    at_bound n h = elim (Bool-cases (ltb int64_max (suc n))) [
      | inl over ↦ rw over (ap negsuc (top n h over))
      | inr within ↦ rw within
    ]
      where
        top : (n : ℕ) → n ≤ int64_max → ltb int64_max (suc n) ≡ true → int64_max ≡ n
        top n h over = ground arith
