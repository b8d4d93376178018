-- ===== src/Vm/Machine/Data.antt =====
-- src/vm/vm.c, the cases of `vm_run` for the operand stack, variables, arrays and iterators.
use opsh_actual.Base.{
  ℕ, zero, suc, ◌+◌, ◌-◌, ◌^◌, Bool, false, ltb, leb, if◌then◌else◌, Option, none, some, List, [],
  ◌∷◌, ◌++◌, length, get_elem?, set, replicate, map, Bytes,
}
use opsh_actual.Base.Int.{ℤ, pos, negsuc}
use opsh_actual.Base.Run.{Run, ok, stop, undefined}
use opsh_actual.Base.Run
use opsh_actual.Foundation.Hashtable.{ht_get}
use opsh_actual.Foundation.Strbuf.{Strbuf, strbuf_init, strbuf_append_str}
use opsh_actual.Vm.Value.{Value, value_to_string, value_to_integer}
use opsh_actual.Exec.Variable.{
  Environ, Variable, environ_get, environ_assign, environ_set, environ_export, write,
}
use opsh_actual.Vm.Machine.{
  M, ◌>>=◌, ◌>>◌, pure, lift, get_vm, put_env, by_option, set_env, fail, vm_push, vm_pop, vm_peek,
  read_u16, read_i32, constant, pop_values, to_int, vm_stack_max,
}

unfoldable pub op_push_const : M (Unit {0})
op_push_const = do
  idx ← read_u16
  vm ← get_vm
  by_option (get_elem? vm.image.const_pool idx) fail λ s. vm_push (Value.string s)

unfoldable pub op_push_int : M (Unit {0})
op_push_int = do val ← read_i32; vm_push (Value.integer val)

unfoldable pub op_pop : M (Unit {0})
op_pop = do v ← vm_pop; pure tt

unfoldable pub op_dup : M (Unit {0})
op_dup = do top ← vm_peek 0; vm_push top

-- The texts of the values, appended to a buffer.
unfoldable pub append_all : Strbuf → List Value → Run Strbuf
append_all buf [] = ok buf
append_all buf (v ∷ vals) =
    Run.◌>>=◌ (strbuf_append_str buf (value_to_string v)) λ buf'. append_all buf' vals

unfoldable pub op_concat : M (Unit {0})
op_concat = do
  count ← read_u16
  vals ← pop_values count
  result ← lift (append_all strbuf_init vals)
  vm_push (Value.string result.contents)

-- A variable's value, or the empty string of an unset one.
abbrev pub value_or_empty : Option Variable → Value
value_or_empty none = Value.string []
value_or_empty (some var) = var.value

-- What `set -u` does when the variable is missing.
abbrev pub check_unset : Option Variable → M (Unit {0})
check_unset (some var) vm = ok (tt, vm)
check_unset none vm = if vm.opt_nounset then fail vm else ok (tt, vm)

unfoldable pub op_get_var : M (Unit {0})
op_get_var = do
  name_idx ← read_u16
  name ← constant name_idx
  vm ← get_vm
  var ← lift (environ_get vm.env name)
  check_unset var
  vm_push (value_or_empty var)

-- `ht_get(&vm->env->vars, name)`
abbrev pub innermost : Environ → Bytes → Run (Option Variable)
innermost [] name = stop undefined
innermost (s ∷ env) name = ht_get s.vars name

unfoldable pub op_get_local : M (Unit {0})
op_get_local = do
  name_idx ← read_u16
  name ← constant name_idx
  vm ← get_vm
  local ← lift (innermost vm.env name)
  by_option local (lift (environ_get vm.env name) >>= λ var. vm_push (value_or_empty var))
      (λ var. vm_push var.value)

unfoldable pub op_set_var : M (Unit {0})
op_set_var = do
  name_idx ← read_u16
  name ← constant name_idx
  val ← vm_pop
  vm ← get_vm
  set_env (environ_assign vm.env name val)

unfoldable pub op_set_local : M (Unit {0})
op_set_local = do
  name_idx ← read_u16
  name ← constant name_idx
  val ← vm_pop
  vm ← get_vm
  set_env (environ_set vm.env name val)

unfoldable pub op_export : M (Unit {0})
op_export = do
  name_idx ← read_u16
  name ← constant name_idx
  vm ← get_vm
  env ← lift (environ_export vm.env name)
  put_env env

-- The element of an array variable, or the empty string.
abbrev pub element : Value → ℤ → Bytes
element (Value.array elements) (pos i) = elim (get_elem? elements i) [ none ↦ [] | some s ↦ s ]
element _ _ = []

abbrev pub element_of : Option Variable → ℤ → Bytes
element_of none idx = []
element_of (some var) idx = element var.value idx

unfoldable pub op_get_array : M (Unit {0})
op_get_array = do
  name_idx ← read_u16
  name ← constant name_idx
  idx ← vm_pop
  vm ← get_vm
  var ← lift (environ_get vm.env name)
  vm_push (Value.string (element_of var (to_int (value_to_integer idx))))

-- The write of an element through the variable that `environ_get` found: the table entry of the
-- first scope that has the name.
unfoldable pub write_found : Environ → Bytes → Variable → Run Environ
write_found [] name v = ok []
write_found (s ∷ env) name v =
    let outer = write_found env name v in
    Run.◌>>=◌ (ht_get s.vars name) λ found. elim found [
      | some old ↦ Run.◌>>=◌ (write s name v) λ s'. ok (s' ∷ env)
      | none ↦ Run.◌>>=◌ outer λ env'. ok (s ∷ env')
    ]

-- `idx + 1` is undefined for the largest int.
abbrev pub next_int : ℕ → Run ℕ
next_int i = if leb (2 ^ 31 - 1) i then stop undefined else ok (i + 1)

-- An existing array, made longer if it has to be, with the string at the index.
unfoldable pub store_element : List Bytes → ℤ → Bytes → Run (List Bytes)
store_element elements (negsuc n) str = ok elements
store_element elements (pos i) str =
    if leb (length elements) i
    then (Run.◌>>=◌ (next_int i)
        λ count. ok (set (elements ++ replicate (count - length elements) []) i str))
    else ok (set elements i str)

-- A new array of empty strings with the string at the index.
unfoldable pub new_elements : ℤ → Bytes → Run (List Bytes)
new_elements (negsuc n) str = ok ([] ∷ [])
new_elements (pos i) str = Run.◌>>=◌ (next_int i) λ count. ok (set (replicate count []) i str)

-- Whether the variable is an array, with its elements.
abbrev pub array_of : Option Variable → Option (Variable × List Bytes)
array_of none = none
array_of (some var) = elim var.value [ Value.array elements ↦ some (var, elements) | _ ↦ none ]

unfoldable pub set_array : Bytes → ℤ → Bytes → M (Unit {0})
set_array name idx str = do
  vm ← get_vm
  var ← lift (environ_get vm.env name)
  by_option (array_of var)
      (lift (new_elements idx str) >>= λ elements.
        set_env (environ_assign vm.env name (Value.array elements)))
      (λ (v, old). lift (store_element old idx str) >>= λ elements.
        lift (write_found vm.env name (record v { value = Value.array elements })) >>= put_env)

unfoldable pub op_set_array : M (Unit {0})
unfolding set_array
op_set_array = do
  name_idx ← read_u16
  name ← constant name_idx
  idx ← vm_pop
  val ← vm_pop
  set_array name (to_int (value_to_integer idx)) (value_to_string val)

abbrev pub in_temporary : Environ → Bool
in_temporary [] = false
in_temporary (s ∷ env) = s.is_temporary

unfoldable pub op_set_array_bulk : M (Unit {0})
op_set_array_bulk = do
  name_idx ← read_u16
  count ← read_u16
  name ← constant name_idx
  vals ← pop_values count
  vm ← get_vm
  let arr = Value.array (map value_to_string vals)
  set_env
      (if in_temporary vm.env then environ_set vm.env name arr else environ_assign vm.env name arr)

-- The sizes of the groups, popped from the last to the first; none if one is out of range.
unfoldable pub group_sizes : ℕ → ℕ → M (Option ℕ)
group_sizes zero total = pure (some total)
group_sizes (suc groups) total = do
  count ← vm_pop
  elim (value_to_integer count) [
    | negsuc n ↦ fail >> pure none
    | pos gs ↦ if ltb vm_stack_max gs then (fail >> pure none) else group_sizes groups (total + gs)
  ]

-- The sizes count by their sum: the fields are popped group by group, and stored from the last on.
unfoldable pub op_init_iter : M (Unit {0})
op_init_iter = do
  group_count ← read_u16
  total ← group_sizes group_count 0
  by_option total (pure tt)
      (λ n. pop_values n >>= λ fields. vm_push (Value.iterator (map value_to_string fields) 0))

-- The iterator on the top moves on, and its element is pushed.
unfoldable pub next_iter : List Value → M (Unit {0})
next_iter (Value.iterator elements position ∷ below) vm = elim (get_elem? elements position) [
  | none ↦ vm_push Value.none vm
  | some s ↦
      vm_push (Value.string s)
        (record vm { stack = Value.iterator elements (position + 1) ∷ below })
]
next_iter _ vm = fail vm

unfoldable pub op_get_next_iter : M (Unit {0})
unfolding next_iter
op_get_next_iter vm = next_iter vm.stack vm
