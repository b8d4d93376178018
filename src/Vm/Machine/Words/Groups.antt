-- ===== src/Vm/Machine/Words/Groups.antt =====
-- src/vm/vm.c, OP_COLLECT_WORDS and OP_EXPAND_ARGS: the groups of values that the words of a command
-- leave on the stack, and the positional parameters.
use opsh_actual.Base.{ℕ, zero, suc, ◌+◌, Option, none, some, List, [], ◌++◌, length, codes}
use opsh_actual.Base.Decimal.{print_nat}
use opsh_actual.Base.Int.{ℤ, pos, negsuc}
use opsh_actual.Vm.Value.{Value, value_to_integer}
use opsh_actual.Exec.Variable.{Variable, environ_get}
use opsh_actual.Vm.Machine.{
  M, ◌>>=◌, ◌>>◌, pure, lift, get_vm, vm_push, vm_pop, pop_values, push_all, to_int, alloc_count,
}

-- The groups from the last to the first; `vals` are the values of those already popped.
unfoldable pub collect_groups : ℕ → List Value → M (List Value)
collect_groups zero vals = pure vals
collect_groups (suc ngroups) vals = do
  count_val ← vm_pop
  count ← alloc_count (to_int (value_to_integer count_val))
  group ← pop_values count
  collect_groups ngroups (group ++ vals)

unfoldable pub op_collect_words : M (Unit {0})
op_collect_words = do
  ngroups_val ← vm_pop
  ngroups ← alloc_count (to_int (value_to_integer ngroups_val))
  vals ← collect_groups ngroups []
  push_all vals
  vm_push (Value.integer (pos (length vals)))

abbrev pub param_value : Option Variable → Value
param_value none = Value.string []
param_value (some var) = var.value

-- The parameters of `left` numbers from `i` on.
unfoldable pub push_params : ℕ → ℕ → M (Unit {0})
push_params zero i = pure tt
push_params (suc left) i = do
  vm ← get_vm
  var ← lift (environ_get vm.env (print_nat i))
  vm_push (param_value var)
  push_params left (i + 1)

abbrev pub param_count : Option Variable → ℤ
param_count none = pos 0
param_count (some var) = to_int (value_to_integer var.value)

-- No round for a negative count.
abbrev pub rounds : ℤ → ℕ
rounds (pos n) = n
rounds (negsuc n) = 0

unfoldable pub op_expand_args : M (Unit {0})
op_expand_args = do
  vm ← get_vm
  hash ← lift (environ_get vm.env (codes "#"))
  push_params (rounds (param_count hash)) 1
  vm_push (Value.integer (param_count hash))
