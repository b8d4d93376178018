-- ===== src/Vm/Arith.antt =====
-- src/vm/arith.c: the evaluator of arithmetic expressions, a recursive descent that computes as it
-- parses. `text` is what is left from `pos` on; its end reads as NUL, as in C.
-- A signed overflow that C leaves undefined stops the run (`undefined`). Each parser calls the next
-- tighter one; the calls that go back to a looser one take one unit of fuel.
pub mod Int64
pub mod State
pub mod Operators
pub mod Frame
pub mod Steps
pub mod Levels
pub mod Quiet
pub mod Skipped
pub mod Range
pub mod Values
pub mod RangedLevels
pub mod Ranged
use opsh_actual.Base.{
  ℕ, zero, suc, ◌+◌, Bool, true, false, not, ◌&&◌, ◌||◌, Option, none, some, List, [], ◌∷◌, Bytes,
  leb, ◌==◌, if◌then◌else◌,
}
use opsh_actual.Base.Int.{ℤ, pos, negsuc}
use opsh_actual.Base.Run
use opsh_actual.Base.Run.{Run, ok, stop, out_of_fuel}
use opsh_actual.Exec.Variable.{Environ}
use opsh_actual.Vm.Arith.Int64.{
  neg64, not64, truth, is_zero, signed_add, signed_sub, bad_shift, shift_count, shl64, shr64,
}
use opsh_actual.Vm.Arith.Operators.{
  Compound, compound_at, compound, is_at, left_loop, mul_op, add_op, shift_op, rel_op, eq_op,
  bit_and_op, bit_xor_op, bit_or_op, log_and_op, log_or_op, comma_op,
}
use opsh_actual.Vm.Arith.State.{
  ArithError, arith_ok, syntax, ArithState, M, ◌>>=◌, ◌>>◌, pure, peek, at, advance, skip_ws,
  skip_blanks, if_failed, is_failed, fail, fail_division, defined, literal, parse_ident,
  is_ident_start, set_var, resolve_var, without_exec,
}

-- A variable changed by one, before or after its value is taken.
unfoldable pub step_var : M ℤ → (ℤ → ℤ → Option ℤ) → Bytes → M (ℤ × ℤ)
step_var parse_expr f name = do
  old ← resolve_var parse_expr name
  new ← defined (f old (pos 1))
  set_var name new
  pure (old, new)

-- `name op= rhs`, behind the operator.
unfoldable pub compound_assign : M ℤ → M ℤ → Compound → Bytes → M ℤ
compound_assign parse_expr parse_assign op name = do
  lhs ← resolve_var parse_expr name
  rhs ← parse_assign
  elim (compound op lhs rhs) [
    | none ↦ fail_division >> pure (pos 0)
    | some result ↦ do v ← defined result; set_var name v; pure v
  ]

-- `name <<= rhs` and `name >>= rhs`; a count out of range shifts by nothing.
unfoldable pub shift_assign : M ℤ → M ℤ → (ℤ → ℕ → ℤ) → Bytes → M ℤ
shift_assign parse_expr parse_assign shift name = do
  lhs ← resolve_var parse_expr name
  rhs ← parse_assign
  let v = shift lhs (if bad_shift rhs then 0 else shift_count rhs)
  set_var name v
  pure v

-- The rest of `parse_primary` behind an identifier.
unfoldable pub after_ident : M ℤ → M ℤ → Bytes → M ℤ
after_ident parse_expr parse_assign name = peek λ text.
    if is_at text 0 b'+' && is_at text 1 b'+'
    then (do advance 2; r ← step_var parse_expr signed_add name; pure r.0)
    else if is_at text 0 b'-' && is_at text 1 b'-'
    then (do advance 2; r ← step_var parse_expr signed_sub name; pure r.0)
    else if is_at text 0 b'=' && not (is_at text 1 b'=')
    then (do advance 1; rhs ← parse_assign; set_var name rhs; pure rhs)
    else elim (if is_at text 1 b'=' then compound_at (at text 0) else none) [
      | some op ↦ advance 2 >> compound_assign parse_expr parse_assign op name
      | none ↦
          if is_at text 0 b'<' && is_at text 1 b'<' && is_at text 2 b'='
          then advance 3 >> shift_assign parse_expr parse_assign shl64 name
          else if is_at text 0 b'>' && is_at text 1 b'>' && is_at text 2 b'='
          then advance 3 >> shift_assign parse_expr parse_assign shr64 name
          else resolve_var parse_expr name
    ]

-- Behind the opening parenthesis.
unfoldable pub parenthesized : M ℤ → M ℤ
parenthesized parse_expr = do
  val ← parse_expr
  skip_ws
  peek λ text. if is_at text 0 b')' then advance 1 >> pure val else fail syntax >> pure val

unfoldable pub identifier : M ℤ → M ℤ → M ℤ
identifier parse_expr parse_assign = do
  name ← parse_ident
  skip_ws
  elim name [ none ↦ pure (pos 0) | some n ↦ after_ident parse_expr parse_assign n ]

unfoldable pub parse_primary : M ℤ → M ℤ → M ℤ
parse_primary parse_expr parse_assign =
    skip_ws
    >> if_failed (pure (pos 0)) (
        peek λ text.
          if is_at text 0 b'('
          then advance 1 >> parenthesized parse_expr
          else if leb b'0' (at text 0) && leb (at text 0) b'9'
          then literal
          else if is_ident_start (at text 0)
          then identifier parse_expr parse_assign
          else if is_at text 0 0
          then pure (pos 0)
          else fail syntax >> pure (pos 0))

-- `++name` and `--name`, behind the operator.
unfoldable pub pre_step : M ℤ → (ℤ → ℤ → Option ℤ) → M ℤ
pre_step parse_expr f = do
  skip_ws
  name ← parse_ident
  elim name [
    | none ↦ fail syntax >> pure (pos 0)
    | some n ↦ do r ← step_var parse_expr f n; pure r.1
  ]

-- `parse_unary`, which calls itself behind a prefix operator.
unfoldable pub unary_body : M ℤ → M ℤ → M ℤ → M ℤ
unary_body parse_unary parse_expr parse_assign =
    skip_ws
    >> if_failed (pure (pos 0)) (
        peek λ text.
          if is_at text 0 b'+' && not (is_at text 1 b'+') && not (is_at text 1 b'=')
          then advance 1 >> parse_unary
          else if is_at text 0 b'-' && not (is_at text 1 b'-') && not (is_at text 1 b'=')
          then (do advance 1; v ← parse_unary; pure (neg64 v))
          else if is_at text 0 b'!'
          then (do advance 1; v ← parse_unary; pure (truth (is_zero v)))
          else if is_at text 0 b'~'
          then (do advance 1; v ← parse_unary; pure (not64 v))
          else if is_at text 0 b'+' && is_at text 1 b'+'
          then advance 2 >> pre_step parse_expr signed_add
          else if is_at text 0 b'-' && is_at text 1 b'-'
          then advance 2 >> pre_step parse_expr signed_sub
          else parse_primary parse_expr parse_assign)

-- The levels between `parse_unary` and `parse_ternary`.
module _ (parse_unary : M ℤ) where
  unfoldable pub parse_mul : M ℤ
  parse_mul = left_loop parse_unary (mul_op parse_unary)

  unfoldable pub parse_add : M ℤ
  unfolding parse_mul
  parse_add = left_loop parse_mul (add_op parse_mul)

  unfoldable pub parse_shift : M ℤ
  unfolding parse_add
  parse_shift = left_loop parse_add (shift_op parse_add)

  unfoldable pub parse_rel : M ℤ
  unfolding parse_shift
  parse_rel = left_loop parse_shift (rel_op parse_shift)

  unfoldable pub parse_eq : M ℤ
  unfolding parse_rel
  parse_eq = left_loop parse_rel (eq_op parse_rel)

  unfoldable pub parse_bit_and : M ℤ
  unfolding parse_eq
  parse_bit_and = left_loop parse_eq (bit_and_op parse_eq)

  unfoldable pub parse_bit_xor : M ℤ
  unfolding parse_bit_and
  parse_bit_xor = left_loop parse_bit_and (bit_xor_op parse_bit_and)

  unfoldable pub parse_bit_or : M ℤ
  unfolding parse_bit_xor
  parse_bit_or = left_loop parse_bit_xor (bit_or_op parse_bit_xor)

  unfoldable pub parse_log_and : M ℤ
  unfolding parse_bit_or
  parse_log_and = left_loop parse_bit_or (log_and_op parse_bit_or)

  unfoldable pub parse_log_or : M ℤ
  unfolding parse_log_and
  parse_log_or = left_loop parse_log_and (log_or_op parse_log_and)

-- `cond ? a : b` behind the question mark; the arm that is not taken has no effect.
unfoldable pub take_second : M ℤ → M ℤ
take_second parse_assign = do
  without_exec parse_assign
  skip_ws
  peek λ text. if is_at text 0 b':' then advance 1 >> parse_assign else fail syntax >> pure (pos 0)

unfoldable pub take_first : M ℤ → M ℤ
take_first parse_assign = do
  val ← parse_assign
  skip_ws
  peek λ text.
      if is_at text 0 b':'
      then advance 1 >> without_exec parse_assign >> pure val
      else fail syntax >> pure val

-- The arms behind the question mark, by the condition.
abbrev pub arms : ℤ → M ℤ → M ℤ
arms cond parse_assign = if is_zero cond then take_second parse_assign else take_first parse_assign

unfoldable pub parse_ternary : M ℤ → M ℤ → M ℤ
unfolding parse_log_or
parse_ternary parse_unary parse_assign = do
  cond ← parse_log_or parse_unary
  skip_ws
  if_failed (pure cond)
      (peek λ text. if is_at text 0 b'?' then advance 1 >> arms cond parse_assign else pure cond)

-- The three parsers that call one another.
pub data Level : Type 0 where
  unary assign expr : Level

unfoldable pub parse : ℕ → Level → M ℤ
unfolding parse_ternary
parse zero level s = stop out_of_fuel
parse (suc fuel) unary s = unary_body (parse fuel unary) (parse fuel expr) (parse fuel assign) s
parse (suc fuel) assign s = parse_ternary (parse fuel unary) (parse fuel assign) s
parse (suc fuel) expr s = left_loop (parse fuel assign) (comma_op (parse fuel assign)) s

-- The end of `arith_eval`: the lexer's closing parenthesis, and nothing behind it.
unfoldable pub finish : ℤ → M ℤ
finish result = do
  skip_ws
  peek λ text. if is_at text 0 b')' then advance 1 else pure tt
  skip_ws
  peek λ text. if_failed (pure tt) (if is_at text 0 0 then pure tt else fail syntax)
  if_failed (pure (pos 0)) (pure result)

abbrev pub only_paren : Bytes → Bool
only_paren text = is_at text 0 b')' && is_at text 1 0

-- The value, the error and the variables afterwards.
unfoldable pub arith_eval : ℕ → Bytes → Environ → Run (ℤ × ArithError × Environ)
unfolding finish
arith_eval fuel text env =
    let s : ArithState = record {
      text = skip_blanks text;
      reading = [];
      env = env;
      err = arith_ok;
      depth = 0;
      noexec = false;
    } in
    if only_paren s.text
    then ok (pos 0, arith_ok, env)
    else Run.◌>>=◌ ((parse fuel expr >>= finish) s) (λ r. ok (r.0, r.1.err, r.1.env))
