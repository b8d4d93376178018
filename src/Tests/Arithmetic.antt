-- ===== src/Tests/Arithmetic.antt =====
-- Arithmetic expressions on a small environment.
use opsh_actual.Base.{true, false, ◌≡◌, refl, [], codes, Bytes, str_eq}
use opsh_actual.Base.Decimal.{print_int, read_literal}
use opsh_actual.Base.Int.{ℤ, pos, negsuc, ◌+ℤ◌, ◌-ℤ◌, ◌*ℤ◌}
use opsh_actual.Base.Run.{Run, ok, stop, undefined, ◌>>=◌}
use opsh_actual.Exec.Variable.{
  environ_new, environ_get, environ_set_flags, environ_set, assign_existing, set_global,
  environ_assign, check_readonly, write, create,
}
use opsh_actual.Foundation.Hashtable.{
  ht_fnv1a, ht_init, ht_get, probe, start, place, insert, reinsert, ht_resize, set_at, ht_set,
}
use opsh_actual.Vm.Value
use opsh_actual.Vm.Arith.Int64.{
  IsInt64, int64_min, add64, sub64, mul64, neg64, not64, and64, or64, xor64, shl64, shr64, div64,
  mod64, signed_add, signed_sub, signed_mul,
}
use opsh_actual.Vm.Arith.Operators.{
  left_loop, mul_op, add_op, shift_op, rel_op, eq_op, bit_and_op, bit_xor_op, bit_or_op, log_and_op,
  log_or_op, comma_op, compound,
}
use opsh_actual.Vm.Arith.State.{
  ArithError, ArithState, arith_ok, syntax, advance, skip_blanks, skip_ws, fail, fail_division,
  take_ident, parse_ident, literal, set_var, resolve_var, without_exec,
}
use opsh_actual.Vm.Arith.{
  step_var, compound_assign, shift_assign, after_ident, parenthesized, identifier, parse_primary,
  pre_step, unary_body, take_second, take_first, parse_ternary, expr, parse, arith_eval,
}
use opsh_actual.Vm.Arith.Ranged.{parse-IsInt64}
use opsh_actual.Vm.Arith.Skipped.{Skips, without_exec-Skips}
use opsh_actual.Vm.Arith.Frame.{Same}
use opsh_actual.Vm.Arith.Quiet.{parse-Same}

program : Unit {0}
unfolding ht_fnv1a ht_init ht_get start probe place insert reinsert ht_resize set_at ht_set str_eq
    environ_new environ_get environ_set_flags environ_set assign_existing set_global environ_assign
    check_readonly write create print_int read_literal add64 sub64 mul64 neg64 not64 and64 or64
    xor64 shl64 shr64 div64 mod64 signed_add signed_sub signed_mul ◌+ℤ◌ ◌-ℤ◌ ◌*ℤ◌ left_loop mul_op
    add_op shift_op rel_op eq_op bit_and_op bit_xor_op bit_or_op log_and_op log_or_op comma_op
    compound advance skip_blanks skip_ws fail fail_division take_ident parse_ident literal set_var
    resolve_var without_exec step_var compound_assign shift_assign after_ident parenthesized
    identifier parse_primary pre_step unary_body parse_ternary take_second take_first parse
    arith_eval
program = tt

-- Value and error, with no variables but those that the expression sets.
run : Bytes → Run (ℤ × ArithError)
unfolding program
run text = arith_eval 60 text (environ_new [] (false)) >>= λ r. ok (r.0, r.1)

precedence : run (codes "1 + 2 * 3 - 8 / 3") ≡ ok (pos 5, arith_ok)
unfolding run
precedence = refl

-- A division by zero that is skipped by `&&` is not counted as an error, but it ends its level at
-- once, and what follows it is then a syntax error.
skipped_division : run (codes "0 && 1/0") ≡ ok (pos 0, arith_ok)
unfolding run
skipped_division = refl

skipped_chain : run (codes "0 && 1/0*2") ≡ ok (pos 0, syntax)
unfolding run
skipped_chain = refl

-- A shift that is too long gives 0, and leaves the variable of a compound shift as it is.
long_shift : run (codes "a = 5, a << 64") ≡ ok (pos 0, arith_ok)
unfolding run
long_shift = refl

long_compound_shift : run (codes "a = 5, a <<= 64") ≡ ok (pos 5, arith_ok)
unfolding run
long_compound_shift = refl

-- The skipped assignment does not happen.
skipped_assignment : run (codes "a = 5, 1 || (a = 9), a") ≡ ok (pos 5, arith_ok)
unfolding run
skipped_assignment = refl

-- The value of `x` is the text `x=5`, which the assignment releases while it is being read.
assigned_while_read :
    (environ_set (environ_new [] (false)) (codes "x") (Value.string (codes "x=5")) >>= λ r.
    arith_eval 60 (codes "x") r.0)
    ≡ stop undefined
unfolding program
assigned_while_read = refl

abbrev before : ArithState
before = record {
  text = codes "a = 3";
  env = environ_new [] (false);
  err = arith_ok;
  depth = 0;
  noexec = true;
  reading = [];
}

abbrev behind : ArithState
behind = record before { text = [] }

parse-Same_run : parse 9 expr before ≡ ok (pos 3, behind)
unfolding program
parse-Same_run = refl

parse-Same_example : Same before behind
parse-Same_example = parse-Same 9 expr before behind (pos 3) parse-Same_run

abbrev live : ArithState
live = record before { noexec = false }

-- `0 && a=3`, `1 || a=3`, `0 ? …` and `1 ? …` behind the operator or the question mark.
without_exec-Skips_example : Skips 9 (pos 1) (codes "&&a=3") live
without_exec-Skips_example = without_exec-Skips 9 (pos 1) (codes "&&a=3") live refl

parse-IsInt64_example : IsInt64 (pos 3)
parse-IsInt64_example = parse-IsInt64 9 expr before behind (pos 3) parse-Same_run

-- The least integer by -1.
least_quotient : div64 int64_min (negsuc 0) ≡ int64_min
unfolding div64
least_quotient = refl
