-- ===== src/Vm/Arith/Levels.antt =====
-- The operators of every level, and the levels up to `||`: none changes the frame.
use opsh_actual.Base.{
  length, ℕ, zero, suc, Bool, true, false, Option, none, some, Bytes, if◌then◌else◌,
}
use opsh_actual.Base.Int.{ℤ, pos}
use opsh_actual.Vm.Arith.Frame.{
  Frame, Frame-pure, Frame-bind, Frame-if, Frame-peek, Frame-if_failed,
}
use opsh_actual.Vm.Arith.Steps.{
  Frame-advance, Frame-skip_ws, Frame-fail_division, Frame-without_exec,
}
use opsh_actual.Vm.Arith.Int64.{is_zero, div64, mod64}
use opsh_actual.Vm.Arith.Operators.{
  Op, loop, left_loop, right, goes_on, dividing, mul_op, add_op, shift_op, rel_op, eq_op,
  bit_and_op, bit_xor_op, bit_or_op, log_and_op, log_or_op, comma_op,
}
use opsh_actual.Vm.Arith.State.{M, ◌>>=◌, ◌>>◌, pure, advance, without_exec}
use opsh_actual.Vm.Arith.{
  parse_mul, parse_add, parse_shift, parse_rel, parse_eq, parse_bit_and, parse_bit_xor,
  parse_bit_or, parse_log_and, parse_log_or,
}

-- The operators of a level.
abbrev ActFrame : Option (M (ℤ × Bool)) → Type 0
ActFrame none = Unit {0}
ActFrame (some act) = Frame act

pub record FrameAct (o : Option (M (ℤ × Bool))) : Type 0 where
  pub acts : ActFrame o

pub FrameAct-none : FrameAct none
FrameAct-none = record { acts = tt }

pub FrameAct-some : {act : M (ℤ × Bool)} → Frame act → FrameAct (some act)
FrameAct-some fa = record { acts = fa }

pub FrameAct-if :
    (b : Bool) {x y : Option (M (ℤ × Bool))}
    → FrameAct x
    → FrameAct y
    → FrameAct (if b then x else y)
FrameAct-if true fx fy = fx
FrameAct-if false fx fy = fy

abbrev pub FrameOp : Op → Type 0
FrameOp op = (left : ℤ) (text : Bytes) → FrameAct (op left text)

pub Frame-loop : (fuel : ℕ) (op : Op) (left : ℤ) → FrameOp op → Frame (loop fuel op left)
unfolding loop
Frame-loop zero op left fo = record { keeps = λ s. tt }
Frame-loop (suc fuel) op left fo = Frame-bind Frame-skip_ws (λ a.
    Frame-if_failed (Frame-pure left) (
      Frame-peek
        (λ text. by_act (op left text) ((fo left text).acts) (λ v. Frame-loop fuel op v fo))))
  where
    by_act :
        (o : Option (M (ℤ × Bool)))
        → ActFrame o
        → ((v : ℤ) → Frame (loop fuel op v))
        → Frame (elim o [
          | none ↦ pure left
          | some act ↦ act >>= λ r. elim r.1 [ true ↦ pure r.0 | false ↦ loop fuel op r.0 ]
        ])
    by_act none fa later = Frame-pure left
    by_act (some act) fa later = Frame-bind fa (λ r. next r.0 r.1)
      where
        next : (v : ℤ) (b : Bool) → Frame (elim b [ true ↦ pure v | false ↦ loop fuel op v ])
        next v true = Frame-pure v
        next v false = later v

pub Frame-left_loop :
    {operand : M ℤ} {op : Op} → Frame operand → FrameOp op → Frame (left_loop operand op)
unfolding left_loop
Frame-left_loop {operand} {op} fm fo =
    Frame-bind fm (λ left. Frame-peek (λ text. Frame-loop (suc (length text)) op left fo))

-- An operator with an operand, and a value of both.
value_op :
    (n : ℕ) {operand : M ℤ} (f : ℤ → ℤ)
    → Frame operand
    → FrameAct (right n operand (λ rhs. goes_on (f rhs)))
value_op n f fm =
    FrameAct-some
      (Frame-bind (Frame-bind (Frame-advance n) (λ a. fm)) (λ rhs. Frame-pure (f rhs, false)))

Frame-dividing : (f : ℤ → ℤ → ℤ) (left rhs : ℤ) → Frame (dividing f left rhs)
Frame-dividing f left rhs =
    Frame-if (is_zero rhs) (Frame-bind Frame-fail_division (λ a. Frame-pure (pos 0, true)))
      (Frame-pure (f left rhs, false))

divide_op :
    {operand : M ℤ} (f : ℤ → ℤ → ℤ) (left : ℤ)
    → Frame operand
    → FrameAct (right 1 operand (dividing f left))
divide_op f left fm =
    FrameAct-some
      (Frame-bind (Frame-bind (Frame-advance 1) (λ a. fm)) (λ rhs. Frame-dividing f left rhs))

-- An operand that the left side decides.
skipped_op :
    {operand : M ℤ} (v : ℤ)
    → Frame operand
    → FrameAct (some (advance 2 >> without_exec operand >> goes_on v))
skipped_op v fm = FrameAct-some (
    Frame-bind (Frame-bind (Frame-advance 2) (λ a. Frame-without_exec fm))
      (λ a. Frame-pure (v, false)))

module _ {operand : M ℤ} (fm : Frame operand) where
  FrameOp-mul_op : FrameOp (mul_op operand)
  unfolding mul_op
  FrameOp-mul_op left text = FrameAct-if _ (value_op 1 _ fm) (
      FrameAct-if _ (divide_op div64 left fm)
        (FrameAct-if _ (divide_op mod64 left fm) FrameAct-none))

  FrameOp-add_op : FrameOp (add_op operand)
  unfolding add_op
  FrameOp-add_op left text = search (FrameAct-if, value_op, FrameAct-none, fm)

  FrameOp-shift_op : FrameOp (shift_op operand)
  unfolding shift_op
  FrameOp-shift_op left text = search (FrameAct-if, value_op, FrameAct-none, fm)

  FrameOp-rel_op : FrameOp (rel_op operand)
  unfolding rel_op
  FrameOp-rel_op left text = search (FrameAct-if, value_op, FrameAct-none, fm)

  FrameOp-eq_op : FrameOp (eq_op operand)
  unfolding eq_op
  FrameOp-eq_op left text = search (FrameAct-if, value_op, FrameAct-none, fm)

  FrameOp-bit_and_op : FrameOp (bit_and_op operand)
  unfolding bit_and_op
  FrameOp-bit_and_op left text = FrameAct-if _ (value_op 1 _ fm) FrameAct-none

  FrameOp-bit_xor_op : FrameOp (bit_xor_op operand)
  unfolding bit_xor_op
  FrameOp-bit_xor_op left text = FrameAct-if _ (value_op 1 _ fm) FrameAct-none

  FrameOp-bit_or_op : FrameOp (bit_or_op operand)
  unfolding bit_or_op
  FrameOp-bit_or_op left text = FrameAct-if _ (value_op 1 _ fm) FrameAct-none

  FrameOp-log_and_op : FrameOp (log_and_op operand)
  unfolding log_and_op
  FrameOp-log_and_op left text =
      FrameAct-if _ (FrameAct-if (is_zero left) (skipped_op (pos 0) fm) (value_op 2 _ fm))
        FrameAct-none

  FrameOp-log_or_op : FrameOp (log_or_op operand)
  unfolding log_or_op
  FrameOp-log_or_op left text =
      FrameAct-if _ (FrameAct-if (is_zero left) (value_op 2 _ fm) (skipped_op (pos 1) fm))
        FrameAct-none

  pub FrameOp-comma_op : FrameOp (comma_op operand)
  unfolding comma_op
  FrameOp-comma_op left text = FrameAct-if _ (value_op 1 (λ v. v) fm) FrameAct-none

module _ {parse_unary : M ℤ} (fm : Frame parse_unary) where
  Frame-parse_mul : Frame (parse_mul parse_unary)
  unfolding parse_mul
  Frame-parse_mul = Frame-left_loop fm (FrameOp-mul_op fm)

  Frame-parse_add : Frame (parse_add parse_unary)
  unfolding parse_add
  Frame-parse_add = Frame-left_loop Frame-parse_mul (FrameOp-add_op Frame-parse_mul)

  Frame-parse_shift : Frame (parse_shift parse_unary)
  unfolding parse_shift
  Frame-parse_shift = Frame-left_loop Frame-parse_add (FrameOp-shift_op Frame-parse_add)

  Frame-parse_rel : Frame (parse_rel parse_unary)
  unfolding parse_rel
  Frame-parse_rel = Frame-left_loop Frame-parse_shift (FrameOp-rel_op Frame-parse_shift)

  Frame-parse_eq : Frame (parse_eq parse_unary)
  unfolding parse_eq
  Frame-parse_eq = Frame-left_loop Frame-parse_rel (FrameOp-eq_op Frame-parse_rel)

  Frame-parse_bit_and : Frame (parse_bit_and parse_unary)
  unfolding parse_bit_and
  Frame-parse_bit_and = Frame-left_loop Frame-parse_eq (FrameOp-bit_and_op Frame-parse_eq)

  Frame-parse_bit_xor : Frame (parse_bit_xor parse_unary)
  unfolding parse_bit_xor
  Frame-parse_bit_xor = Frame-left_loop Frame-parse_bit_and (FrameOp-bit_xor_op Frame-parse_bit_and)

  pub Frame-parse_bit_or : Frame (parse_bit_or parse_unary)
  unfolding parse_bit_or
  Frame-parse_bit_or = Frame-left_loop Frame-parse_bit_xor (FrameOp-bit_or_op Frame-parse_bit_xor)

  pub Frame-parse_log_and : Frame (parse_log_and parse_unary)
  unfolding parse_log_and
  Frame-parse_log_and = Frame-left_loop Frame-parse_bit_or (FrameOp-log_and_op Frame-parse_bit_or)

  pub Frame-parse_log_or : Frame (parse_log_or parse_unary)
  unfolding parse_log_or
  Frame-parse_log_or = Frame-left_loop Frame-parse_log_and (FrameOp-log_or_op Frame-parse_log_and)
