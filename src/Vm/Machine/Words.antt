-- ===== src/Vm/Machine/Words.antt =====
-- src/vm/vm.c, the cases of `vm_run` for the expansion of parameters and words.
-- `fnmatch` is the C library's function: whether the pattern matches the string. A buffer that
-- receives bytes is the list of them.
pub mod Split
pub mod Fields
pub mod Groups
pub mod Iterate
use Prim.Native.Nat.{bit_and}
use opsh_actual.Base.{
  ℕ, zero, suc, ◌+◌, ◌-◌, Bool, true, false, ltb, leb, ◌==◌, if◌then◌else◌, not, ◌&&◌, ◌||◌, Option,
  none, some, List, [], ◌∷◌, ◌++◌, length, take, drop, map, Bytes, codes,
}
use opsh_actual.Base.Decimal.{print_nat, print_int}
use opsh_actual.Base.Int.{ℤ, pos, negsuc}
use opsh_actual.Base.Run.{Run, ok, stop, out_of_fuel}
use opsh_actual.Base.Run
use opsh_actual.Foundation.Strbuf.{utf8_strlen}
use opsh_actual.Vm.Value.{Value, value_to_string, value_to_integer}
use opsh_actual.Vm.Value
use opsh_actual.Exec.Variable.{Environ, Variable, environ_get, environ_set}
use opsh_actual.Vm.Machine.{
  Vm, M, ◌>>=◌, ◌>>◌, pure, lift, get_vm, by_option, set_env, fail, vm_push, vm_pop, read_u8,
  read_u16, constant, pop_values, push_all, to_int, alloc_count,
}

abbrev pub has : ℕ → ℕ → Bool
has flags flag = not (bit_and flags flag == 0)

abbrev pub pe_colon : ℕ
pe_colon = 1

abbrev pub pe_prefix : ℕ
pe_prefix = 2

abbrev pub pe_suffix : ℕ
pe_suffix = 4

abbrev pub pe_longest : ℕ
pe_longest = 8

abbrev pub pe_global : ℕ
pe_global = 16

abbrev pub pe_strlen : ℕ
pe_strlen = 32

-- `${#name}`
abbrev pub value_length : Value → Bytes
value_length (Value.array elements) = print_nat (length elements)
value_length (Value.string s) = print_nat (utf8_strlen s)
value_length _ = codes "0"

unfoldable pub param_length : Option Variable → Bytes
param_length none = codes "0"
param_length (some var) = value_length var.value

-- The text of a variable that is set.
abbrev pub text_if_set : Value → Option Bytes
text_if_set Value.none = none
text_if_set v = some (value_to_string v)

abbrev pub var_text : Option Variable → Option Bytes
var_text none = none
var_text (some var) = text_if_set var.value

-- Whether the variable is set and, for the form with a colon, no empty string.
abbrev pub is_empty : Value → Bool
is_empty Value.none = true
is_empty (Value.string []) = true
is_empty _ = false

abbrev pub is_used : Bool → Option Variable → Bool
is_used use_colon none = false
is_used true (some var) = not (is_empty var.value)
is_used false (some var) = elim var.value [ Value.none ↦ false | _ ↦ true ]

abbrev pub text_or_empty : Option Bytes → Bytes
text_or_empty none = []
text_or_empty (some s) = s

module _ (fnmatch : Bytes → Bytes → Bool) where
  -- The loop over the prefixes: `left` lengths from `i` on, and the best one so far.
  unfoldable pub match_prefix : Bytes → Bytes → Bool → ℕ → ℕ → Option ℕ → Option ℕ
  match_prefix pat s longest zero i best = best
  match_prefix pat s longest (suc left) i best =
      let on = match_prefix pat s longest left (i + 1) (some i) in
      let past = match_prefix pat s longest left (i + 1) best in
      if fnmatch pat (take i s) then (if longest then on else some i) else past

  -- The loop over the suffixes, from the position `i` down to 0.
  unfoldable pub match_suffix : Bytes → Bytes → Bool → ℕ → Option ℕ → Option ℕ
  match_suffix pat s longest zero best = if fnmatch pat s then some 0 else best
  match_suffix pat s longest (suc i) best =
      let on = match_suffix pat s longest i (some (suc i)) in
      let past = match_suffix pat s longest i best in
      if fnmatch pat (drop (suc i) s) then (if longest then on else some (suc i)) else past

  unfoldable pub trim : Bytes → Bytes → Bool → Bool → Bytes
  unfolding match_prefix match_suffix
  trim pat s match_head longest =
      if match_head
      then elim (match_prefix pat s longest (length s + 1) 0 none) [
        | none ↦ s
        | some best ↦ drop best s
      ]
      else elim (match_suffix pat s longest (length s) none) [ none ↦ s | some best ↦ take best s ]

  -- The first position whose suffix matches, of the `left` positions from `i` on.
  unfoldable pub first_suffix : Bytes → Bytes → ℕ → ℕ → Option ℕ
  first_suffix pat s zero i = none
  first_suffix pat s (suc left) i =
      let later = first_suffix pat s left (i + 1) in
      if fnmatch pat (drop i s) then some i else later

  unfoldable pub replace_tail : Bytes → Bytes → Bytes → Bytes
  unfolding first_suffix
  replace_tail pat rep s = elim (first_suffix pat s (length s + 1) 0) [
    | none ↦ s
    | some i ↦ if ltb i (length s) then take i s ++ rep else s
  ]

  -- The end of the longest match at the front of `s`.
  unfoldable pub longest_match : Bytes → Bytes → Option ℕ
  longest_match pat s = match_prefix pat s true (length s + 1) 0 none

  -- The `while` loop; `s` is what begins at `pos`, and `first` says whether `pos` is 0. The loop is
  -- over when it has passed the terminator.
  unfoldable pub replace_loop : ℕ → Bytes → Bytes → Bool → Bool → Bool → Bytes → Bytes → Run Bytes
  unfolding longest_match
  replace_loop zero pat rep replace_all anchor_head first s result = stop out_of_fuel
  replace_loop (suc fuel) pat rep replace_all anchor_head first s result =
      let again = λ (rest : Bytes) (out : Bytes).
        replace_loop fuel pat rep replace_all anchor_head false rest out in
      if anchor_head && not first then ok (result ++ s) else elim (longest_match pat s) [
        | none ↦ elim s [ [] ↦ ok result | c ∷ rest ↦ again rest (result ++ c ∷ []) ]
        | some zero ↦ elim s [
          | [] ↦ ok (result ++ rep)
          | c ∷ rest ↦
              if replace_all
              then again rest (result ++ rep ++ c ∷ [])
              else ok (result ++ rep ++ c ∷ rest)
        ]
        | some (suc n) ↦
            if leb (length s) (suc n)
            then ok (result ++ rep)
            else if replace_all
            then again (drop (suc n) s) (result ++ rep)
            else ok (result ++ rep ++ drop (suc n) s)
      ]

  -- Each round takes a byte, or is the last.
  unfoldable pub replace : Bytes → Bytes → Bytes → ℕ → Run Bytes
  unfolding replace_tail replace_loop
  replace pat rep s flags =
      if has flags pe_suffix
      then ok (replace_tail pat rep s)
      else replace_loop (length s + 1) pat rep (has flags pe_global) (has flags pe_prefix) true s []

  -- `${name op word}`, by the operator's number.
  unfoldable pub expand_op : Bytes → Option Variable → ℕ → ℕ → M (Unit {0})
  unfolding trim replace
  expand_op name var op flags =
      let used = is_used (has flags pe_colon) var in
      let text = Value.string (text_or_empty (var_text var)) in
      if op == 0
      then vm_push text
      else if op == 1
      then (vm_pop >>= λ word. vm_push (if used then text else word))
      else if op == 2
      then (vm_pop >>= λ word. vm_push (if used then word else text))
      else if op == 3
      then (vm_pop >>= λ word.
          if used
          then vm_push text
          else (get_vm >>= λ vm.
              set_env (environ_set vm.env name word)
              >> vm_push (Value.string (value_to_string word))))
      else if op == 4
      then (vm_pop >>= λ word. if used then vm_push text else (fail >> vm_push (Value.string [])))
      else if op == 5
      then (vm_pop >>= λ pat. by_option (var_text var) (vm_push (Value.string [])) λ s. vm_push (
          Value.string (trim (value_to_string pat) s (has flags pe_prefix) (has flags pe_longest))))
      else if op == 6
      then (vm_pop >>= λ rep. vm_pop >>= λ pat.
          by_option (var_text var) (vm_push (Value.string [])) λ s.
            lift (replace (value_to_string pat) (value_to_string rep) s flags) >>= λ result.
            vm_push (Value.string result))
      else pure tt

  unfoldable pub op_expand_param : M (Unit {0})
  op_expand_param = do
    name_idx ← read_u16
    op ← read_u8
    flags ← read_u8
    name ← constant name_idx
    vm ← get_vm
    var ← lift (environ_get vm.env name)
    (if has flags pe_strlen
        then vm_push (Value.string (param_length var))
        else expand_op name var op flags)
