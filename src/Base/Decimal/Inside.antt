-- ===== src/Base/Decimal/Inside.antt =====
-- A printed number with a text behind it.
use mathlib.Core.List.{append_assoc}
use opsh_actual.Base.{
  ℕ, zero, suc, ◌+◌, ◌*◌, ◌/◌, ◌%◌, ◌≤◌, ◌<◌, ◌≡◌, refl, sym, ap, ◌∙◌, true, false, [], ◌∷◌, ◌++◌,
  ltb, Bytes, arith, Bool-cases, inl, inr, lt→ltb, ltb→lt, ltb→le, All, length,
}
use opsh_actual.Base.Int.{pos}
use opsh_actual.Base.Decimal.{
  strtoll, int64_max, digits_before, print_nat, digit_value, read_digits,
}
use opsh_actual.Base.Decimal.Printed.{read_back, print_nat-head, head_tests}

digits_before-append :
    (fuel n : ℕ) (out : Bytes) → digits_before fuel n out ≡ digits_before fuel n [] ++ out
unfolding digits_before
digits_before-append zero n out = refl
digits_before-append (suc fuel) n out = elim (Bool-cases (ltb n 10)) [
  | inl small ↦ rw small refl
  | inr large ↦ rw large (
      digits_before-append fuel (n / 10) ((b'0' + n % 10) ∷ out)
      ∙ sym (append_assoc (digits_before fuel (n / 10) []) ((b'0' + n % 10) ∷ []) out)
      ∙ ap (λ s. s ++ out) (sym (digits_before-append fuel (n / 10) ((b'0' + n % 10) ∷ []))))
]

-- `strtoll` behind a blank reads the number up to a byte that is no digit.
pub strtoll-print_nat :
    (n c : ℕ) (rest : Bytes)
    → n ≤ int64_max
    → ltb (digit_value c) 10 ≡ false
    → strtoll (b' ' ∷ (print_nat n ++ c ∷ rest)) ≡ pos n
unfolding strtoll print_nat read_digits
strtoll-print_nat n c rest fits ends =
    let (d, more, e, low, high) = print_nat-head n in
    let (blank, minus, plus) = head_tests d low high in
    let back : read_digits 10 (d ∷ (more ++ c ∷ rest)) 0 ≡ (n, c ∷ rest) =
      ap (λ s. read_digits 10 (s ++ c ∷ rest) 0) (sym e)
      ∙ ap (λ s. read_digits 10 s 0) (sym (digits_before-append (suc n) n (c ∷ rest)))
      ∙ read_back (suc n) n (c ∷ rest) (omega arith)
      ∙ rw (read_digits, ends) refl in
    let small : ltb int64_max n ≡ false = ground arith in
    rw e (rw (strtoll, blank, minus, plus, back, small) refl)

-- The powers of 10.
abbrev power : ℕ → ℕ
power zero = 1
power (suc k) = power k * 10

abbrev pub IsDigit : ℕ → Type 0
IsDigit c = (b'0' ≤ c) × (c ≤ b'9')

-- A number below a power of 10 has as many digits at most, and nothing but digits.
digits_before-bounds :
    (fuel k n : ℕ) (out : Bytes)
    → n < fuel
    → n < power (suc k)
    → (length (digits_before fuel n out) ≤ suc k + length out)
      × (All IsDigit out → All IsDigit (digits_before fuel n out))
unfolding digits_before
digits_before-bounds zero k n out h less = absurd (omega arith)
digits_before-bounds (suc fuel) zero n out h less =
    let small : ltb n 10 ≡ true = lt→ltb n 10 (omega arith) in
    rw small (omega arith, λ all. ((omega arith, omega arith), all))
digits_before-bounds (suc fuel) (suc k) n out h less = elim (Bool-cases (ltb n 10)) [
  | inl small ↦
      rw small (omega arith, λ all. ((omega arith, omega (arith, ltb→lt n 10 small)), all))
  | inr large ↦
      let (short, digits) =
        digits_before-bounds fuel k (n / 10) ((b'0' + n % 10) ∷ out)
          (omega (arith, ltb→le n 10 large)) (omega arith) in
      rw large (omega arith, λ all. digits ((omega arith, omega arith), all))
]

-- The length of a message that can be read has at most eight digits.
pub print_nat-bounds :
    (n : ℕ) → n < 100000000 → (length (print_nat n) ≤ 8) × All IsDigit (print_nat n)
unfolding print_nat
print_nat-bounds n h =
    let (short, digits) = digits_before-bounds (suc n) 7 n [] (omega arith) h in (short, digits tt)
