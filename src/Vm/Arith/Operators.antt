-- ===== src/Vm/Arith/Operators.antt =====
-- The operators of each precedence level, and the loop that the levels share.
use opsh_actual.Base.{
  ℕ, zero, suc, Bool, true, false, not, ◌&&◌, Option, none, some, Bytes, length, ◌==◌,
  if◌then◌else◌,
}
use opsh_actual.Base.Int.{ℤ, pos, ltb_ℤ}
use opsh_actual.Base.Run.{stop, out_of_fuel}
use opsh_actual.Vm.Arith.Int64.{
  add64, sub64, mul64, div64, mod64, and64, or64, xor64, shl64, shr64, is_zero, eqb_ℤ, truth,
  bad_shift, shift_count, signed_add, signed_sub, signed_mul,
}
use opsh_actual.Vm.Arith.State.{
  M, ◌>>=◌, ◌>>◌, pure, peek, at, advance, skip_ws, if_failed, fail_division, without_exec,
}

-- What an operator does: the new left value, and whether the level returns it at once.
abbrev pub Op : Type 0
Op = ℤ → Bytes → Option (M (ℤ × Bool))

-- The end of the text is not the byte `c`, for an operator's byte `c`.
abbrev pub is_at : Bytes → ℕ → ℕ → Bool
is_at text i c = at text i == c

abbrev pub goes_on : ℤ → M (ℤ × Bool)
goes_on v = pure (v, false)

-- `for (;;) { skip_ws(s); if (s->err != ARITH_OK) { return left; } ... }`
unfoldable pub loop : ℕ → Op → ℤ → M ℤ
loop zero op left = λ s. stop out_of_fuel
loop (suc fuel) op left =
    skip_ws
    >> if_failed (pure left) (
        peek λ text. elim (op left text) [
          | none ↦ pure left
          | some act ↦ act >>= λ r. elim r.1 [ true ↦ pure r.0 | false ↦ loop fuel op r.0 ]
        ])

-- A level: an operand, and operators with further operands. Each round takes a byte at least.
unfoldable pub left_loop : M ℤ → Op → M ℤ
unfolding loop
left_loop operand op = operand >>= λ left. peek λ text. loop (suc (length text)) op left

-- The operand of an operator of `n` bytes.
abbrev pub right : ℕ → M ℤ → (ℤ → M (ℤ × Bool)) → Option (M (ℤ × Bool))
right n operand f = some (advance n >> operand >>= f)

abbrev pub dividing : (ℤ → ℤ → ℤ) → ℤ → ℤ → M (ℤ × Bool)
dividing f left rhs =
    if is_zero rhs then fail_division >> pure (pos 0, true) else goes_on (f left rhs)

unfoldable pub mul_op : M ℤ → Op
mul_op parse_unary left text =
    if is_at text 0 b'*' && not (is_at text 1 b'=')
    then right 1 parse_unary (λ rhs. goes_on (mul64 left rhs))
    else if is_at text 0 b'/' && not (is_at text 1 b'=')
    then right 1 parse_unary (dividing div64 left)
    else if is_at text 0 b'%' && not (is_at text 1 b'=')
    then right 1 parse_unary (dividing mod64 left)
    else none

unfoldable pub add_op : M ℤ → Op
add_op parse_mul left text =
    if is_at text 0 b'+' && not (is_at text 1 b'+') && not (is_at text 1 b'=')
    then right 1 parse_mul (λ rhs. goes_on (add64 left rhs))
    else if is_at text 0 b'-' && not (is_at text 1 b'-') && not (is_at text 1 b'=')
    then right 1 parse_mul (λ rhs. goes_on (sub64 left rhs))
    else none

unfoldable pub shift_op : M ℤ → Op
shift_op parse_add left text =
    if is_at text 0 b'<' && is_at text 1 b'<' && not (is_at text 2 b'=')
    then right 2 parse_add
        (λ rhs. goes_on (if bad_shift rhs then pos 0 else shl64 left (shift_count rhs)))
    else if is_at text 0 b'>' && is_at text 1 b'>' && not (is_at text 2 b'=')
    then right 2 parse_add
        (λ rhs. goes_on (if bad_shift rhs then pos 0 else shr64 left (shift_count rhs)))
    else none

unfoldable pub rel_op : M ℤ → Op
rel_op parse_shift left text =
    if is_at text 0 b'<' && is_at text 1 b'='
    then right 2 parse_shift (λ rhs. goes_on (truth (not (ltb_ℤ rhs left))))
    else if is_at text 0 b'>' && is_at text 1 b'='
    then right 2 parse_shift (λ rhs. goes_on (truth (not (ltb_ℤ left rhs))))
    else if is_at text 0 b'<' && not (is_at text 1 b'<')
    then right 1 parse_shift (λ rhs. goes_on (truth (ltb_ℤ left rhs)))
    else if is_at text 0 b'>' && not (is_at text 1 b'>')
    then right 1 parse_shift (λ rhs. goes_on (truth (ltb_ℤ rhs left)))
    else none

unfoldable pub eq_op : M ℤ → Op
eq_op parse_rel left text =
    if is_at text 0 b'=' && is_at text 1 b'='
    then right 2 parse_rel (λ rhs. goes_on (truth (eqb_ℤ left rhs)))
    else if is_at text 0 b'!' && is_at text 1 b'='
    then right 2 parse_rel (λ rhs. goes_on (truth (not (eqb_ℤ left rhs))))
    else none

unfoldable pub bit_and_op : M ℤ → Op
bit_and_op parse_eq left text =
    if is_at text 0 b'&' && not (is_at text 1 b'&') && not (is_at text 1 b'=')
    then right 1 parse_eq (λ rhs. goes_on (and64 left rhs))
    else none

unfoldable pub bit_xor_op : M ℤ → Op
bit_xor_op parse_bit_and left text =
    if is_at text 0 b'^' && not (is_at text 1 b'=')
    then right 1 parse_bit_and (λ rhs. goes_on (xor64 left rhs))
    else none

unfoldable pub bit_or_op : M ℤ → Op
bit_or_op parse_bit_xor left text =
    if is_at text 0 b'|' && not (is_at text 1 b'|') && not (is_at text 1 b'=')
    then right 1 parse_bit_xor (λ rhs. goes_on (or64 left rhs))
    else none

unfoldable pub log_and_op : M ℤ → Op
log_and_op parse_bit_or left text =
    if is_at text 0 b'&' && is_at text 1 b'&'
    then (if is_zero left
        then some (advance 2 >> without_exec parse_bit_or >> goes_on (pos 0))
        else right 2 parse_bit_or (λ rhs. goes_on (truth (not (is_zero rhs)))))
    else none

unfoldable pub log_or_op : M ℤ → Op
log_or_op parse_log_and left text =
    if is_at text 0 b'|' && is_at text 1 b'|'
    then (if is_zero left
        then right 2 parse_log_and (λ rhs. goes_on (truth (not (is_zero rhs))))
        else some (advance 2 >> without_exec parse_log_and >> goes_on (pos 1)))
    else none

-- The comma has no left operand to combine.
unfoldable pub comma_op : M ℤ → Op
comma_op parse_assign left text = if is_at text 0 b',' then right 1 parse_assign goes_on else none

-- `op=`: the operators of compound assignment.
pub data Compound : Type 0 where
  plus minus times over rem_by and_with xor_with or_with : Compound

abbrev pub compound_at : ℕ → Option Compound
compound_at c =
    if c == b'+'
    then some plus
    else if c == b'-'
    then some minus
    else if c == b'*'
    then some times
    else if c == b'/'
    then some over
    else if c == b'%'
    then some rem_by
    else if c == b'&'
    then some and_with
    else if c == b'^'
    then some xor_with
    else if c == b'|'
    then some or_with
    else none

-- The value that a compound assignment stores; none where it divides by zero.
unfoldable pub compound : Compound → ℤ → ℤ → Option (Option ℤ)
compound plus lhs rhs = some (signed_add lhs rhs)
compound minus lhs rhs = some (signed_sub lhs rhs)
compound times lhs rhs = some (signed_mul lhs rhs)
compound over lhs rhs = if is_zero rhs then none else some (some (div64 lhs rhs))
compound rem_by lhs rhs = if is_zero rhs then none else some (some (mod64 lhs rhs))
compound and_with lhs rhs = some (some (and64 lhs rhs))
compound xor_with lhs rhs = some (some (xor64 lhs rhs))
compound or_with lhs rhs = some (some (or64 lhs rhs))
