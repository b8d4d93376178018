-- ===== src/Exec/Job/Number.antt =====
-- `%N` names the job with the number N.
use opsh_actual.Base.{
  ℕ, ◌%◌, ◌^◌, ◌≤◌, ◌<◌, ◌≡◌, refl, sym, ap, ◌∙◌, true, false, ◌&&◌, ◌||◌, leb, ltb, ◌==◌, [], ◌∷◌,
  arith,
}
use opsh_actual.Base.Decimal.{read_digits, int64_max, print_nat}
use opsh_actual.Base.Decimal.Printed.{read_digits-print_nat, print_nat-leading}
use opsh_actual.Exec.Job.{JobTable, job_find_by_id, int_max}
use opsh_actual.Exec.Job.Spec.{find_number, job_parse_spec}

-- What the spec reads of a number of any size.
find_number_lem : (t : JobTable) (n : ℕ) → n ≤ int_max → find_number t (n, []) ≡ job_find_by_id t n
unfolding find_number
find_number_lem t n h =
    let small : ltb int64_max n ≡ false = ground arith in
    let low : n % 2 ^ 32 ≡ n = omega arith in
    let fits : leb n int_max ≡ true = ground arith in rw (small, low, fits) refl

digit_tests :
    (c : ℕ)
    → b'1' ≤ c
    → c ≤ b'9'
    → ((c == b'%' || c == b'+') ≡ false)
      × ((c == b'-') ≡ false)
      × ((leb b'1' c && leb c b'9') ≡ true)
digit_tests c low high = (ground arith, ground arith, ground arith)

-- For a positive int N, the spec `%N`, N printed in decimal, names what stands under N.
pub job_parse_spec-print_nat :
    (t : JobTable) (n : ℕ)
    → 0 < n
    → n ≤ int_max
    → job_parse_spec t (b'%' ∷ print_nat n) ≡ job_find_by_id t n
unfolding job_parse_spec
job_parse_spec-print_nat t n pos fits =
    let (c, rest, e, low, high) = print_nat-leading n pos in
    let (not_current, not_previous, digit) = digit_tests c low high in
    let back : read_digits 10 (c ∷ rest) 0 ≡ (n, []) =
      ap (λ s. read_digits 10 s 0) (sym e) ∙ read_digits-print_nat n in
    rw e (rw (job_parse_spec, not_current, not_previous, digit, back) (find_number_lem t n fits))
