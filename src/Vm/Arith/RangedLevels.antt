-- ===== src/Vm/Arith/RangedLevels.antt =====
-- The operators of every level, and the levels up to `||`: each gives a 64-bit integer.
use opsh_actual.Base.{ℕ, Bool, true, false, some, arith, if◌then◌else◌}
use opsh_actual.Base.Int.{ℤ, pos}
use opsh_actual.Vm.Arith.Int64.{
  IsInt64, is_zero, truth, bad_shift, shift_count, shl64, shr64, div64, mod64, add64, sub64, mul64,
  and64, or64, xor64,
}
use opsh_actual.Vm.Arith.Operators.{
  right, goes_on, dividing, mul_op, add_op, shift_op, rel_op, eq_op, bit_and_op, bit_xor_op,
  bit_or_op, log_and_op, log_or_op, comma_op,
}
use opsh_actual.Vm.Arith.Range.{operators-InRange, truth-IsInt64, div64-IsInt64, mod64-IsInt64}
use opsh_actual.Vm.Arith.Values.{
  Gives-pure, Gives-bind, Gives-after, Gives-if, Ranged, RangedAct, RangedAct-none, RangedAct-some,
  RangedAct-if, RangedOp, Ranged-left_loop,
}
use opsh_actual.Vm.Arith.State.{M, ◌>>◌, advance, fail_division, without_exec}
use opsh_actual.Vm.Arith.{
  parse_mul, parse_add, parse_shift, parse_rel, parse_eq, parse_bit_and, parse_bit_xor,
  parse_bit_or, parse_log_and, parse_log_or,
}

-- An operator with an operand, and a value of both.
value_op :
    (n : ℕ) {operand : M ℤ} (f : ℤ → ℤ)
    → Ranged operand
    → ((rhs : ℤ) → IsInt64 rhs → IsInt64 (f rhs))
    → RangedAct (right n operand (λ rhs. goes_on (f rhs)))
value_op n {operand} f gm ranged = RangedAct-some (
    Gives-bind (Gives-after (advance n) (λ a. gm))
      (λ rhs h. Gives-pure (f rhs, false) (ranged rhs h)))

divide_op :
    {operand : M ℤ} (f : ℤ → ℤ → ℤ) (left : ℤ)
    → Ranged operand
    → ((rhs : ℤ) → IsInt64 (f left rhs))
    → RangedAct (right 1 operand (dividing f left))
divide_op f left gm ranged = RangedAct-some (
    Gives-bind (Gives-after (advance 1) (λ a. gm)) (λ rhs h.
      Gives-if (is_zero rhs)
        (Gives-after fail_division (λ a. Gives-pure (pos 0, true) (omega arith)))
        (Gives-pure (f left rhs, false) (ranged rhs))))

skipped_op :
    (operand : M ℤ) (v : ℤ)
    → IsInt64 v
    → RangedAct (some (advance 2 >> without_exec operand >> goes_on v))
skipped_op operand v h =
    RangedAct-some (Gives-after (advance 2 >> without_exec operand) (λ a. Gives-pure (v, false) h))

shifted : (b : Bool) (v : ℤ) → IsInt64 v → IsInt64 (if b then pos 0 else v)
shifted true v h = omega arith
shifted false v h = h

module _ {operand : M ℤ} (gm : Ranged operand) where
  RangedOp-mul_op : RangedOp (mul_op operand)
  unfolding mul_op
  RangedOp-mul_op left text h =
      RangedAct-if _
        (value_op 1 (mul64 left) gm (λ rhs p. (operators-InRange left rhs 0 h).product))
        (RangedAct-if _ (divide_op div64 left gm (λ rhs. div64-IsInt64 left rhs h)) (
          RangedAct-if _ (divide_op mod64 left gm (λ rhs. mod64-IsInt64 left rhs h))
            RangedAct-none))

  RangedOp-add_op : RangedOp (add_op operand)
  unfolding add_op
  RangedOp-add_op left text h =
      RangedAct-if _ (value_op 1 (add64 left) gm (λ rhs p. (operators-InRange left rhs 0 h).sum)) (
        RangedAct-if _
          (value_op 1 (sub64 left) gm (λ rhs p. (operators-InRange left rhs 0 h).difference))
          RangedAct-none)

  RangedOp-shift_op : RangedOp (shift_op operand)
  unfolding shift_op
  RangedOp-shift_op left text h =
      RangedAct-if _
        (value_op 2 (λ rhs. if bad_shift rhs then pos 0 else shl64 left (shift_count rhs)) gm
          (λ rhs p.
            shifted (bad_shift rhs) _ (operators-InRange left rhs (shift_count rhs) h).left_shift))
        (RangedAct-if _
          (value_op 2 (λ rhs. if bad_shift rhs then pos 0 else shr64 left (shift_count rhs)) gm
            (λ rhs p.
              shifted (bad_shift rhs) _
                (operators-InRange left rhs (shift_count rhs) h).right_shift))
          RangedAct-none)

  -- A comparison gives 0 or 1.
  truth_op : (n : ℕ) (f : ℤ → Bool) → RangedAct (right n operand (λ rhs. goes_on (truth (f rhs))))
  truth_op n f = value_op n (λ rhs. truth (f rhs)) gm (λ rhs p. truth-IsInt64 (f rhs))

  RangedOp-rel_op : RangedOp (rel_op operand)
  unfolding rel_op
  RangedOp-rel_op left text h = search (RangedAct-if, truth_op, RangedAct-none)

  RangedOp-eq_op : RangedOp (eq_op operand)
  unfolding eq_op
  RangedOp-eq_op left text h = search (RangedAct-if, truth_op, RangedAct-none)

  RangedOp-bit_and_op : RangedOp (bit_and_op operand)
  unfolding bit_and_op
  RangedOp-bit_and_op left text h =
      RangedAct-if _
        (value_op 1 (and64 left) gm (λ rhs p. (operators-InRange left rhs 0 h).both_bits))
        RangedAct-none

  RangedOp-bit_xor_op : RangedOp (bit_xor_op operand)
  unfolding bit_xor_op
  RangedOp-bit_xor_op left text h =
      RangedAct-if _
        (value_op 1 (xor64 left) gm (λ rhs p. (operators-InRange left rhs 0 h).differing_bits))
        RangedAct-none

  RangedOp-bit_or_op : RangedOp (bit_or_op operand)
  unfolding bit_or_op
  RangedOp-bit_or_op left text h =
      RangedAct-if _
        (value_op 1 (or64 left) gm (λ rhs p. (operators-InRange left rhs 0 h).either_bits))
        RangedAct-none

  RangedOp-log_and_op : RangedOp (log_and_op operand)
  unfolding log_and_op
  RangedOp-log_and_op left text h =
      RangedAct-if _
        (RangedAct-if (is_zero left) (skipped_op operand (pos 0) (omega arith)) (truth_op 2 _))
        RangedAct-none

  RangedOp-log_or_op : RangedOp (log_or_op operand)
  unfolding log_or_op
  RangedOp-log_or_op left text h =
      RangedAct-if _
        (RangedAct-if (is_zero left) (truth_op 2 _) (skipped_op operand (pos 1) (omega arith)))
        RangedAct-none

  pub RangedOp-comma_op : RangedOp (comma_op operand)
  unfolding comma_op
  RangedOp-comma_op left text h = RangedAct-if _ (value_op 1 (λ v. v) gm (λ v p. p)) RangedAct-none

module _ {parse_unary : M ℤ} (gm : Ranged parse_unary) where
  Ranged-parse_mul : Ranged (parse_mul parse_unary)
  unfolding parse_mul
  Ranged-parse_mul = Ranged-left_loop gm (RangedOp-mul_op gm)

  Ranged-parse_add : Ranged (parse_add parse_unary)
  unfolding parse_add
  Ranged-parse_add = Ranged-left_loop Ranged-parse_mul (RangedOp-add_op Ranged-parse_mul)

  Ranged-parse_shift : Ranged (parse_shift parse_unary)
  unfolding parse_shift
  Ranged-parse_shift = Ranged-left_loop Ranged-parse_add (RangedOp-shift_op Ranged-parse_add)

  Ranged-parse_rel : Ranged (parse_rel parse_unary)
  unfolding parse_rel
  Ranged-parse_rel = Ranged-left_loop Ranged-parse_shift (RangedOp-rel_op Ranged-parse_shift)

  Ranged-parse_eq : Ranged (parse_eq parse_unary)
  unfolding parse_eq
  Ranged-parse_eq = Ranged-left_loop Ranged-parse_rel (RangedOp-eq_op Ranged-parse_rel)

  Ranged-parse_bit_and : Ranged (parse_bit_and parse_unary)
  unfolding parse_bit_and
  Ranged-parse_bit_and = Ranged-left_loop Ranged-parse_eq (RangedOp-bit_and_op Ranged-parse_eq)

  Ranged-parse_bit_xor : Ranged (parse_bit_xor parse_unary)
  unfolding parse_bit_xor
  Ranged-parse_bit_xor =
      Ranged-left_loop Ranged-parse_bit_and (RangedOp-bit_xor_op Ranged-parse_bit_and)

  Ranged-parse_bit_or : Ranged (parse_bit_or parse_unary)
  unfolding parse_bit_or
  Ranged-parse_bit_or =
      Ranged-left_loop Ranged-parse_bit_xor (RangedOp-bit_or_op Ranged-parse_bit_xor)

  Ranged-parse_log_and : Ranged (parse_log_and parse_unary)
  unfolding parse_log_and
  Ranged-parse_log_and =
      Ranged-left_loop Ranged-parse_bit_or (RangedOp-log_and_op Ranged-parse_bit_or)

  pub Ranged-parse_log_or : Ranged (parse_log_or parse_unary)
  unfolding parse_log_or
  Ranged-parse_log_or =
      Ranged-left_loop Ranged-parse_log_and (RangedOp-log_or_op Ranged-parse_log_and)
