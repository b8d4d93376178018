-- ===== src/Vm/Arith/Quiet.antt =====
-- Every parser of the evaluator: it gives back the depth and the noexec flag, and an operand that is
-- not evaluated changes no variable.
use opsh_actual.Base.{
  ℕ, zero, suc, ◌≡◌, subst, Bool, true, false, not, ◌&&◌, Option, none, some, Bytes, leb,
  if◌then◌else◌,
}
use opsh_actual.Base.Int.{ℤ, pos}
use opsh_actual.Base.Run.{Run, ok}
use opsh_actual.Vm.Arith.Frame.{
  Same, Post, Frame, Frame-pure, Frame-bind, Frame-if, Frame-peek, Frame-if_failed,
}
use opsh_actual.Vm.Arith.Steps.{
  Frame-advance, Frame-skip_ws, Frame-fail, Frame-fail_division, Frame-defined, Frame-literal,
  Frame-parse_ident, Frame-set_var, Frame-resolve_var, Frame-without_exec,
}
use opsh_actual.Vm.Arith.Int64.{is_zero, signed_add, signed_sub, shl64, shr64}
use opsh_actual.Vm.Arith.Operators.{Compound, compound_at, compound, is_at}
use opsh_actual.Vm.Arith.State.{
  ArithState, M, ◌>>=◌, ◌>>◌, pure, advance, fail, syntax, fail_division, set_var, resolve_var,
  defined, is_ident_start, at,
}
use opsh_actual.Vm.Arith.{
  step_var, compound_assign, shift_assign, after_ident, parenthesized, identifier, parse_primary,
  pre_step, unary_body, take_second, take_first, parse_ternary, Level, unary, assign, expr, parse,
}
use opsh_actual.Vm.Arith.Levels.{Frame-left_loop, Frame-parse_log_or, FrameOp-comma_op}

ruleset frames = (
  Frame-pure, Frame-bind, Frame-if, Frame-peek, Frame-if_failed, Frame-advance, Frame-skip_ws,
  Frame-fail, Frame-fail_division, Frame-defined, Frame-literal, Frame-parse_ident, Frame-set_var,
  Frame-resolve_var, Frame-without_exec,
)

module _ {parse_expr parse_assign : M ℤ} (fe : Frame parse_expr) (fa : Frame parse_assign) where
  Frame-step_var : (f : ℤ → ℤ → Option ℤ) (name : Bytes) → Frame (step_var parse_expr f name)
  unfolding step_var
  Frame-step_var f name = Frame-bind (Frame-resolve_var name fe) (λ old.
      Frame-bind (Frame-defined (f old (pos 1)))
        (λ new. Frame-bind (Frame-set_var name new) (λ a. Frame-pure (old, new))))

  Frame-compound_assign :
      (op : Compound) (name : Bytes) → Frame (compound_assign parse_expr parse_assign op name)
  unfolding compound_assign
  Frame-compound_assign op name =
      Frame-bind (Frame-resolve_var name fe)
        (λ lhs. Frame-bind fa (λ rhs. stored (compound op lhs rhs)))
    where
      stored :
          (o : Option (Option ℤ))
          → Frame (elim o [
            | none ↦ fail_division >> pure (pos 0)
            | some result ↦ defined result >>= λ v. set_var name v >> pure v
          ])
      stored none = search frames
      stored (some result) = search frames

  Frame-shift_assign :
      (shift : ℤ → ℕ → ℤ) (name : Bytes) → Frame (shift_assign parse_expr parse_assign shift name)
  unfolding shift_assign
  Frame-shift_assign shift name =
      Frame-bind (Frame-resolve_var name fe)
        (λ lhs. Frame-bind fa (λ rhs. Frame-bind (Frame-set_var name _) (λ a. Frame-pure _)))

  Frame-after_ident : (name : Bytes) → Frame (after_ident parse_expr parse_assign name)
  unfolding after_ident
  Frame-after_ident name = Frame-peek (λ text.
      Frame-if (is_at text 0 b'+' && is_at text 1 b'+')
        (Frame-bind (Frame-advance 2)
          (λ a. Frame-bind (Frame-step_var signed_add name) (λ r. Frame-pure r.0)))
        (Frame-if (is_at text 0 b'-' && is_at text 1 b'-')
          (Frame-bind (Frame-advance 2)
            (λ a. Frame-bind (Frame-step_var signed_sub name) (λ r. Frame-pure r.0)))
          (Frame-if (is_at text 0 b'=' && not (is_at text 1 b'='))
            (Frame-bind (Frame-advance 1) (λ a.
              Frame-bind fa (λ rhs. Frame-bind (Frame-set_var name rhs) (λ a. Frame-pure rhs))))
            (operator text (if is_at text 1 b'=' then compound_at (at text 0) else none)))))
    where
      operator :
          (text : Bytes) (o : Option Compound)
          → Frame (elim o [
            | some op ↦ advance 2 >> compound_assign parse_expr parse_assign op name
            | none ↦
                if is_at text 0 b'<' && is_at text 1 b'<' && is_at text 2 b'='
                then advance 3 >> shift_assign parse_expr parse_assign shl64 name
                else if is_at text 0 b'>' && is_at text 1 b'>' && is_at text 2 b'='
                then advance 3 >> shift_assign parse_expr parse_assign shr64 name
                else resolve_var parse_expr name
          ])
      operator text (some op) = Frame-bind (Frame-advance 2) (λ a. Frame-compound_assign op name)
      operator text none =
          Frame-if (is_at text 0 b'<' && is_at text 1 b'<' && is_at text 2 b'=')
            (Frame-bind (Frame-advance 3) (λ a. Frame-shift_assign shl64 name))
            (Frame-if (is_at text 0 b'>' && is_at text 1 b'>' && is_at text 2 b'=')
              (Frame-bind (Frame-advance 3) (λ a. Frame-shift_assign shr64 name))
              (Frame-resolve_var name fe))

  Frame-parenthesized : Frame (parenthesized parse_expr)
  unfolding parenthesized
  Frame-parenthesized =
      Frame-bind fe
        (λ val. Frame-bind Frame-skip_ws (λ a. Frame-peek (λ text. close (is_at text 0 b')') val)))
    where
      close :
          (b : Bool) (val : ℤ)
          → Frame (if b then advance 1 >> pure val else fail syntax >> pure val)
      close true val = Frame-bind (Frame-advance 1) (λ a. Frame-pure val)
      close false val = Frame-bind (Frame-fail syntax) (λ a. Frame-pure val)

  Frame-identifier : Frame (identifier parse_expr parse_assign)
  unfolding identifier
  Frame-identifier =
      Frame-bind Frame-parse_ident (λ name. Frame-bind Frame-skip_ws (λ a. named name))
    where
      named :
          (name : Option Bytes)
          → Frame
              (elim name [ none ↦ pure (pos 0) | some n ↦ after_ident parse_expr parse_assign n ])
      named none = Frame-pure (pos 0)
      named (some n) = Frame-after_ident n

  Frame-parse_primary : Frame (parse_primary parse_expr parse_assign)
  unfolding parse_primary
  Frame-parse_primary = Frame-bind Frame-skip_ws (λ a. Frame-if_failed (Frame-pure (pos 0)) (
      Frame-peek (λ text.
        Frame-if (is_at text 0 b'(') (Frame-bind (Frame-advance 1) (λ a. Frame-parenthesized)) (
          Frame-if (leb b'0' (at text 0) && leb (at text 0) b'9') Frame-literal (
            Frame-if (is_ident_start (at text 0)) Frame-identifier (
              Frame-if (is_at text 0 0) (Frame-pure (pos 0))
                (Frame-bind (Frame-fail syntax) (λ a. Frame-pure (pos 0)))))))))

  Frame-pre_step : (f : ℤ → ℤ → Option ℤ) → Frame (pre_step parse_expr f)
  unfolding pre_step
  Frame-pre_step f =
      Frame-bind Frame-skip_ws (λ a. Frame-bind Frame-parse_ident (λ name. named name))
    where
      named :
          (name : Option Bytes)
          → Frame (elim name [
            | none ↦ fail syntax >> pure (pos 0)
            | some n ↦ step_var parse_expr f n >>= λ r. pure r.1
          ])
      named none = Frame-bind (Frame-fail syntax) (λ a. Frame-pure (pos 0))
      named (some n) = Frame-bind (Frame-step_var f n) (λ r. Frame-pure r.1)

  Frame-take_second : Frame (take_second parse_assign)
  unfolding take_second
  Frame-take_second = Frame-bind (Frame-without_exec fa) (λ a. Frame-bind Frame-skip_ws (λ b.
      Frame-peek (λ text.
        Frame-if (is_at text 0 b':') (Frame-bind (Frame-advance 1) (λ a. fa))
          (Frame-bind (Frame-fail syntax) (λ a. Frame-pure (pos 0))))))

  Frame-take_first : Frame (take_first parse_assign)
  unfolding take_first
  Frame-take_first = Frame-bind fa (λ val. Frame-bind Frame-skip_ws (λ b. Frame-peek (λ text.
      Frame-if (is_at text 0 b':')
        (Frame-bind (Frame-bind (Frame-advance 1) (λ a. Frame-without_exec fa))
          (λ a. Frame-pure val))
        (Frame-bind (Frame-fail syntax) (λ a. Frame-pure val)))))

Frame-unary_body :
    {parse_unary parse_expr parse_assign : M ℤ}
    → Frame parse_unary
    → Frame parse_expr
    → Frame parse_assign
    → Frame (unary_body parse_unary parse_expr parse_assign)
unfolding unary_body
Frame-unary_body fu fe fa = Frame-bind Frame-skip_ws (λ a. Frame-if_failed (Frame-pure (pos 0)) (
    Frame-peek (λ text.
      Frame-if (is_at text 0 b'+' && not (is_at text 1 b'+') && not (is_at text 1 b'='))
        (Frame-bind (Frame-advance 1) (λ a. fu))
        (Frame-if (is_at text 0 b'-' && not (is_at text 1 b'-') && not (is_at text 1 b'='))
          (Frame-bind (Frame-advance 1) (λ a. Frame-bind fu (λ v. Frame-pure _)))
          (Frame-if (is_at text 0 b'!')
            (Frame-bind (Frame-advance 1) (λ a. Frame-bind fu (λ v. Frame-pure _)))
            (Frame-if (is_at text 0 b'~')
              (Frame-bind (Frame-advance 1) (λ a. Frame-bind fu (λ v. Frame-pure _)))
              (Frame-if (is_at text 0 b'+' && is_at text 1 b'+')
                (Frame-bind (Frame-advance 2) (λ a. Frame-pre_step fe fa signed_add))
                (Frame-if (is_at text 0 b'-' && is_at text 1 b'-')
                  (Frame-bind (Frame-advance 2) (λ a. Frame-pre_step fe fa signed_sub))
                  (Frame-parse_primary fe fa)))))))))

Frame-parse_ternary :
    {parse_unary parse_assign : M ℤ}
    → Frame parse_unary
    → Frame parse_assign
    → Frame (parse_ternary parse_unary parse_assign)
unfolding parse_ternary
Frame-parse_ternary fu fa = Frame-bind (Frame-parse_log_or fu) (λ cond.
    Frame-bind Frame-skip_ws (λ a. Frame-if_failed (Frame-pure cond) (
      Frame-peek (λ text.
        Frame-if (is_at text 0 b'?')
          (Frame-bind (Frame-advance 1)
            (λ a. Frame-if (is_zero cond) (Frame-take_second fa fa) (Frame-take_first fa fa)))
          (Frame-pure cond)))))

pub Frame-parse : (fuel : ℕ) (level : Level) → Frame (parse fuel level)
unfolding parse
Frame-parse zero level = record { keeps = λ s. tt }
Frame-parse (suc fuel) unary = record {
  keeps =
      (Frame-unary_body (Frame-parse fuel unary) (Frame-parse fuel expr)
        (Frame-parse fuel assign)).keeps;
}
Frame-parse (suc fuel) assign = record {
  keeps = (Frame-parse_ternary (Frame-parse fuel unary) (Frame-parse fuel assign)).keeps;
}
Frame-parse (suc fuel) expr = record {
  keeps =
      (Frame-left_loop (Frame-parse fuel assign)
        (FrameOp-comma_op (Frame-parse fuel assign))).keeps;
}

of_result :
    {A : Type 0} (P : A × ArithState → Type 0) (run : Run (A × ArithState)) (r : A × ArithState)
    → run ≡ ok r
    → Post P run
    → P r
of_result P run r e p = subst (Post P) e p

-- A parser that returns, at whichever level and on whichever text, gives back the depth and the
-- noexec flag; and if the flag was set, it has changed no variable.
pub parse-Same :
    (fuel : ℕ) (level : Level) (s s' : ArithState) (v : ℤ)
    → parse fuel level s ≡ ok (v, s')
    → Same s s'
parse-Same fuel level s s' v run =
    of_result (λ r. Same s r.1) (parse fuel level s) (v, s') run ((Frame-parse fuel level).keeps s)
