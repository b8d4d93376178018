-- ===== src/Vm/Arith/Ranged.antt =====
-- Every parser of the evaluator: its values are 64-bit integers.
use opsh_actual.Base.{
  ℕ, zero, suc, ◌≡◌, subst, not, ◌&&◌, Option, none, some, Bytes, leb, arith, if◌then◌else◌,
}
use opsh_actual.Base.Int.{ℤ, pos, ◌+ℤ◌, ◌-ℤ◌}
use opsh_actual.Base.Run.{ok}
use opsh_actual.Vm.Arith.Frame.{Post}
use opsh_actual.Vm.Arith.Int64.{
  IsInt64, is_zero, truth, signed_add, signed_sub, bad_shift, shift_count, shl64, shr64, neg64,
  not64,
}
use opsh_actual.Vm.Arith.Operators.{Compound, compound_at, compound, is_at}
use opsh_actual.Vm.Arith.Range.{
  operators-InRange, compound-IsInt64, in_range-IsInt64, truth-IsInt64,
}
use opsh_actual.Vm.Arith.RangedLevels.{Ranged-parse_log_or, RangedOp-comma_op}
use opsh_actual.Vm.Arith.Values.{
  Gives, Gives-pure, Gives-bind, Gives-after, Gives-if, Gives-peek, Gives-if_failed, Ranged,
  Ranged-defined, Ranged-literal, Ranged-resolve_var, Ranged-left_loop,
}
use opsh_actual.Vm.Arith.State.{
  ArithState, M, ◌>>=◌, ◌>>◌, pure, advance, skip_ws, fail, syntax, fail_division, set_var,
  resolve_var, without_exec, parse_ident, is_ident_start, at, defined,
}
use opsh_actual.Vm.Arith.{
  step_var, compound_assign, shift_assign, after_ident, parenthesized, identifier, parse_primary,
  pre_step, unary_body, take_second, take_first, parse_ternary, Level, unary, assign, expr, parse,
}

-- A signed operator that is defined only in the range.
abbrev Signed : (ℤ → ℤ → Option ℤ) → Type 0
Signed f = (a b v : ℤ) → f a b ≡ some v → IsInt64 v

signed_add-Signed : Signed signed_add
unfolding signed_add
signed_add-Signed a b v e = in_range-IsInt64 (a +ℤ b) v e

signed_sub-Signed : Signed signed_sub
unfolding signed_sub
signed_sub-Signed a b v e = in_range-IsInt64 (a -ℤ b) v e

-- An error stands for 0.
Ranged-zero : Ranged (pure (pos 0))
Ranged-zero = Gives-pure (pos 0) (omega arith)

Ranged-syntax : Ranged (fail syntax >> pure (pos 0))
Ranged-syntax = Gives-after (fail syntax) (λ a. Ranged-zero)

module _ {parse_expr parse_assign : M ℤ} (ge : Ranged parse_expr) (ga : Ranged parse_assign) where
  Ranged-step_var :
      (f : ℤ → ℤ → Option ℤ) (name : Bytes)
      → Signed f
      → Gives (λ r. IsInt64 r.0 × IsInt64 r.1) (step_var parse_expr f name)
  unfolding step_var
  Ranged-step_var f name signed = Gives-bind (Ranged-resolve_var name ge) (λ old h.
      Gives-bind (Ranged-defined (f old (pos 1)) (signed old (pos 1)))
        (λ new k. Gives-after (set_var name new) (λ a. Gives-pure (old, new) (h, k))))

  Ranged-compound_assign :
      (op : Compound) (name : Bytes) → Ranged (compound_assign parse_expr parse_assign op name)
  unfolding compound_assign
  Ranged-compound_assign op name = Gives-bind (Ranged-resolve_var name ge) (λ lhs h.
      Gives-bind ga (λ rhs k. stored (compound op lhs rhs) (λ v. compound-IsInt64 op lhs rhs v h)))
    where
      stored :
          (o : Option (Option ℤ))
          → ((v : ℤ) → o ≡ some (some v) → IsInt64 v)
          → Ranged (elim o [
            | none ↦ fail_division >> pure (pos 0)
            | some result ↦ defined result >>= λ v. set_var name v >> pure v
          ])
      stored none h = Gives-after fail_division (λ a. Ranged-zero)
      stored (some result) h =
          Gives-bind (Ranged-defined result (λ v e. h v (cc)))
            (λ v k. Gives-after (set_var name v) (λ a. Gives-pure v k))

  Ranged-shift_assign :
      (shift : ℤ → ℕ → ℤ) (name : Bytes)
      → ((a : ℤ) (k : ℕ) → IsInt64 a → IsInt64 (shift a k))
      → Ranged (shift_assign parse_expr parse_assign shift name)
  unfolding shift_assign
  Ranged-shift_assign shift name in_range = Gives-bind (Ranged-resolve_var name ge) (λ lhs h.
      Gives-bind ga (λ rhs k.
        let v = shift lhs (if bad_shift rhs then 0 else shift_count rhs) in
        Gives-after (set_var name v) (λ a. Gives-pure v (in_range lhs _ h))))

  Ranged-after_ident : (name : Bytes) → Ranged (after_ident parse_expr parse_assign name)
  unfolding after_ident
  Ranged-after_ident name = Gives-peek (λ text.
      Gives-if (is_at text 0 b'+' && is_at text 1 b'+')
        (Gives-after (advance 2) (λ a.
          Gives-bind (Ranged-step_var signed_add name signed_add-Signed)
            (λ r h. Gives-pure r.0 h.0)))
        (Gives-if (is_at text 0 b'-' && is_at text 1 b'-')
          (Gives-after (advance 2) (λ a.
            Gives-bind (Ranged-step_var signed_sub name signed_sub-Signed)
              (λ r h. Gives-pure r.0 h.0)))
          (Gives-if (is_at text 0 b'=' && not (is_at text 1 b'='))
            (Gives-after (advance 1) (λ a.
              Gives-bind ga (λ rhs h. Gives-after (set_var name rhs) (λ b. Gives-pure rhs h))))
            (operator text (if is_at text 1 b'=' then compound_at (at text 0) else none)))))
    where
      operator :
          (text : Bytes) (o : Option Compound)
          → Ranged (elim o [
            | some op ↦ advance 2 >> compound_assign parse_expr parse_assign op name
            | none ↦
                if is_at text 0 b'<' && is_at text 1 b'<' && is_at text 2 b'='
                then advance 3 >> shift_assign parse_expr parse_assign shl64 name
                else if is_at text 0 b'>' && is_at text 1 b'>' && is_at text 2 b'='
                then advance 3 >> shift_assign parse_expr parse_assign shr64 name
                else resolve_var parse_expr name
          ])
      operator text (some op) = Gives-after (advance 2) (λ a. Ranged-compound_assign op name)
      operator text none =
          Gives-if (is_at text 0 b'<' && is_at text 1 b'<' && is_at text 2 b'=')
            (Gives-after (advance 3) (λ a.
              Ranged-shift_assign shl64 name (λ v k h. (operators-InRange v v k h).left_shift)))
            (Gives-if (is_at text 0 b'>' && is_at text 1 b'>' && is_at text 2 b'=')
              (Gives-after (advance 3) (λ a.
                Ranged-shift_assign shr64 name (λ v k h. (operators-InRange v v k h).right_shift)))
              (Ranged-resolve_var name ge))

  Ranged-parenthesized : Ranged (parenthesized parse_expr)
  unfolding parenthesized
  Ranged-parenthesized = Gives-bind ge (λ val h. Gives-after skip_ws (λ a. Gives-peek (λ text.
      Gives-if (is_at text 0 b')') (Gives-after (advance 1) (λ b. Gives-pure val h))
        (Gives-after (fail syntax) (λ b. Gives-pure val h)))))

  Ranged-identifier : Ranged (identifier parse_expr parse_assign)
  unfolding identifier
  Ranged-identifier = Gives-after parse_ident (λ name. Gives-after skip_ws (λ a. named name))
    where
      named :
          (name : Option Bytes)
          → Ranged
              (elim name [ none ↦ pure (pos 0) | some n ↦ after_ident parse_expr parse_assign n ])
      named none = Ranged-zero
      named (some n) = Ranged-after_ident n

  Ranged-parse_primary : Ranged (parse_primary parse_expr parse_assign)
  unfolding parse_primary
  Ranged-parse_primary = Gives-after skip_ws (λ a. Gives-if_failed Ranged-zero (
      Gives-peek (λ text.
        Gives-if (is_at text 0 b'(') (Gives-after (advance 1) (λ a. Ranged-parenthesized)) (
          Gives-if (leb b'0' (at text 0) && leb (at text 0) b'9') Ranged-literal (
            Gives-if (is_ident_start (at text 0)) Ranged-identifier
              (Gives-if (is_at text 0 0) Ranged-zero Ranged-syntax))))))

  Ranged-pre_step : (f : ℤ → ℤ → Option ℤ) → Signed f → Ranged (pre_step parse_expr f)
  unfolding pre_step
  Ranged-pre_step f signed = Gives-after skip_ws (λ a. Gives-after parse_ident (λ name. named name))
    where
      named :
          (name : Option Bytes)
          → Ranged (elim name [
            | none ↦ fail syntax >> pure (pos 0)
            | some n ↦ step_var parse_expr f n >>= λ r. pure r.1
          ])
      named none = Ranged-syntax
      named (some n) = Gives-bind (Ranged-step_var f n signed) (λ r h. Gives-pure r.1 h.1)

  Ranged-take_second : Ranged (take_second parse_assign)
  unfolding take_second
  Ranged-take_second = Gives-after (without_exec parse_assign) (λ a. Gives-after skip_ws (λ b.
      Gives-peek
        (λ text. Gives-if (is_at text 0 b':') (Gives-after (advance 1) (λ c. ga)) Ranged-syntax)))

  Ranged-take_first : Ranged (take_first parse_assign)
  unfolding take_first
  Ranged-take_first = Gives-bind ga (λ val h. Gives-after skip_ws (λ b. Gives-peek (λ text.
      Gives-if (is_at text 0 b':')
        (Gives-after (advance 1 >> without_exec parse_assign) (λ c. Gives-pure val h))
        (Gives-after (fail syntax) (λ c. Gives-pure val h)))))

Ranged-unary_body :
    {parse_unary parse_expr parse_assign : M ℤ}
    → Ranged parse_unary
    → Ranged parse_expr
    → Ranged parse_assign
    → Ranged (unary_body parse_unary parse_expr parse_assign)
unfolding unary_body
Ranged-unary_body gu ge ga = Gives-after skip_ws (λ a. Gives-if_failed Ranged-zero (
    Gives-peek (λ text.
      Gives-if (is_at text 0 b'+' && not (is_at text 1 b'+') && not (is_at text 1 b'='))
        (Gives-after (advance 1) (λ b. gu))
        (Gives-if (is_at text 0 b'-' && not (is_at text 1 b'-') && not (is_at text 1 b'='))
          (Gives-after (advance 1)
            (λ b. Gives-bind gu (λ v h. Gives-pure (neg64 v) (operators-InRange v v 0 h).negated)))
          (Gives-if (is_at text 0 b'!')
            (Gives-after (advance 1) (λ b.
              Gives-bind gu (λ v h. Gives-pure (truth (is_zero v)) (truth-IsInt64 (is_zero v)))))
            (Gives-if (is_at text 0 b'~')
              (Gives-after (advance 1) (λ b.
                Gives-bind gu (λ v h. Gives-pure (not64 v) (operators-InRange v v 0 h).inverted)))
              (Gives-if (is_at text 0 b'+' && is_at text 1 b'+')
                (Gives-after (advance 2) (λ b. Ranged-pre_step ge ga signed_add signed_add-Signed))
                (Gives-if (is_at text 0 b'-' && is_at text 1 b'-')
                  (Gives-after (advance 2)
                    (λ b. Ranged-pre_step ge ga signed_sub signed_sub-Signed))
                  (Ranged-parse_primary ge ga)))))))))

Ranged-parse_ternary :
    {parse_unary parse_assign : M ℤ}
    → Ranged parse_unary
    → Ranged parse_assign
    → Ranged (parse_ternary parse_unary parse_assign)
unfolding parse_ternary
Ranged-parse_ternary gu ga = Gives-bind (Ranged-parse_log_or gu) (λ cond h.
    Gives-after skip_ws (λ a. Gives-if_failed (Gives-pure cond h) (
      Gives-peek (λ text.
        Gives-if (is_at text 0 b'?')
          (Gives-after (advance 1)
            (λ b. Gives-if (is_zero cond) (Ranged-take_second ga ga) (Ranged-take_first ga ga)))
          (Gives-pure cond h)))))

Ranged-parse : (fuel : ℕ) (level : Level) → Ranged (parse fuel level)
unfolding parse
Ranged-parse zero level = record { gives = λ s. tt }
Ranged-parse (suc fuel) unary = record {
  gives =
      (Ranged-unary_body (Ranged-parse fuel unary) (Ranged-parse fuel expr)
        (Ranged-parse fuel assign)).gives;
}
Ranged-parse (suc fuel) assign = record {
  gives = (Ranged-parse_ternary (Ranged-parse fuel unary) (Ranged-parse fuel assign)).gives;
}
Ranged-parse (suc fuel) expr = record {
  gives =
      (Ranged-left_loop (Ranged-parse fuel assign)
        (RangedOp-comma_op (Ranged-parse fuel assign))).gives;
}

-- A parser that returns, at whichever level, on whichever text and in whichever state, gives a 64-bit
-- integer.
pub parse-IsInt64 :
    (fuel : ℕ) (level : Level) (s s' : ArithState) (v : ℤ)
    → parse fuel level s ≡ ok (v, s')
    → IsInt64 v
parse-IsInt64 fuel level s s' v run =
    subst (Post (λ r. IsInt64 r.0)) run ((Ranged-parse fuel level).gives s)
