-- ===== src/Vm/Machine/Limits.antt =====
-- The limits of the machine's stacks, on every run.
pub mod Rules
mod Handlers
mod Control
mod Special
use opsh_actual.Base.{
  ℕ, ◌≡◌, Bool, true, false, ◌==◌, if◌then◌else◌, Option, none, some, List, [], ◌∷◌, All, Bytes,
  subst, arith, Bool-cases, inl, inr,
}
use opsh_actual.Base.Run.{Run, ok, stop}
use opsh_actual.Vm.Image.{BytecodeImage}
use opsh_actual.Vm.Machine.{Vm, M, read_u8}
use opsh_actual.Vm.Machine.Special.{System, check_errexit}
use opsh_actual.Vm.Machine.Dispatch.{
  vm_init, handlers, find_handler, Step, executes, Steps, here, next,
}
use Rules.{Keeps-bind, IsValid, Post, Keeps, Keeps-read_u8}
use Handlers.{
  Keeps-op_push_const, Keeps-op_push_int, Keeps-op_pop, Keeps-op_dup, Keeps-op_concat,
  Keeps-op_get_var, Keeps-op_get_local, Keeps-op_set_var, Keeps-op_set_local, Keeps-op_export,
  Keeps-op_get_array, Keeps-op_set_array, Keeps-op_set_array_bulk, Keeps-op_init_iter,
  Keeps-op_get_next_iter, Keeps-op_jmp, Keeps-op_jmp_true, Keeps-op_jmp_false, Keeps-op_jmp_none,
  Keeps-op_push_scope, Keeps-op_pop_scope, Keeps-op_loop_enter, Keeps-op_loop_exit,
  Keeps-op_negate_status, Keeps-op_errexit_push, Keeps-op_errexit_pop, Keeps-op_status_zero,
  Keeps-op_push_status, Keeps-op_pop_status,
}
use Special.{
  Keeps-op_get_special, Keeps-op_expand_arith, Keeps-op_quote_remove, Keeps-op_test_unary,
  Keeps-op_halt, Keeps-check_errexit,
}
use Control.{
  Keeps-op_exec_func, Keeps-op_ret, Keeps-op_test_binary, Keeps-op_pattern_match,
  Keeps-op_split_fields, Keeps-op_collect_words, Keeps-op_expand_args, Keeps-op_expand_param,
}

Keeps-ok :
    {A : Type 0} {m : M A} {a : A} {vm vm' : Vm}
    → Keeps m
    → IsValid vm
    → m vm ≡ ok (a, vm')
    → IsValid vm'
Keeps-ok {A} {m} {a} {vm} {vm'} k v e = subst Post e (k.keeps vm v)

-- Every handler of a table keeps the limits.
infixr 5 ◌also◌
data AllKeep : List (ℕ × M (Unit {0})) → Type 0 where
  done : AllKeep []
  ◌also◌ :
      {op : ℕ} {m : M (Unit {0})} {rest : List (ℕ × M (Unit {0}))}
      → Keeps m
      → AllKeep rest
      → AllKeep ((op, m) ∷ rest)

module _ (sys : System) (arith_fuel : ℕ) where
  find_handler-Keeps :
      (op : ℕ) (table : List (ℕ × M (Unit {0}))) (m : M (Unit {0}))
      → AllKeep table
      → find_handler sys arith_fuel op table ≡ some m
      → Keeps m
  unfolding find_handler
  find_handler-Keeps op [] m done e = cc
  find_handler-Keeps op ((code, k) ∷ rest) m (kept also all) e = elim (Bool-cases (code == op)) [
    | inl same ↦ let eq : k ≡ m = cc (rw same at e) in subst Keeps eq kept
    | inr other ↦ find_handler-Keeps op rest m all (rw other at e)
  ]

  handlers-AllKeep : AllKeep (handlers sys arith_fuel)
  handlers-AllKeep =
      Keeps-op_push_const
      also Keeps-op_push_int
      also Keeps-op_pop
      also Keeps-op_dup
      also Keeps-op_get_var
      also Keeps-op_set_var
      also Keeps-op_get_array
      also Keeps-op_set_array
      also Keeps-op_set_array_bulk
      also Keeps-op_export
      also Keeps-op_push_scope
      also Keeps-op_pop_scope
      also Keeps-op_get_special sys.getpid
      also Keeps-op_get_local
      also Keeps-op_set_local
      also Keeps-op_concat
      also Keeps-op_expand_param sys.fnmatch
      also Keeps-op_expand_arith arith_fuel
      also Keeps-op_split_fields
      also Keeps-op_quote_remove
      also Keeps-op_collect_words
      also Keeps-op_expand_args
      also Keeps-op_jmp
      also Keeps-op_jmp_true
      also Keeps-op_jmp_false
      also Keeps-op_jmp_none
      also Keeps-op_ret
      also Keeps-op_loop_enter
      also Keeps-op_loop_exit
      also Keeps-op_get_next_iter
      also Keeps-op_init_iter
      also Keeps-op_exec_func
      also Keeps-op_test_unary sys
      also Keeps-op_test_binary sys.fnmatch sys.compare_files sys.regex
      also Keeps-op_negate_status
      also Keeps-op_pattern_match sys.fnmatch sys.compare_files sys.regex
      also Keeps-op_errexit_push
      also Keeps-op_errexit_pop
      also Keeps-op_status_zero
      also Keeps-op_push_status
      also Keeps-op_pop_status
      also Keeps-op_halt
      also done

  Step-IsValid : (vm vm' : Vm) → Step sys arith_fuel vm vm' → IsValid vm → IsValid vm'
  Step-IsValid vm vm' (executes op m running more e found run) v =
      let kept = find_handler-Keeps op (handlers sys arith_fuel) m handlers-AllKeep found in
      Keeps-ok (Keeps-bind kept λ _. Keeps-check_errexit op) (Keeps-ok Keeps-read_u8 v e) run

  Steps-IsValid : (vm vm' : Vm) → Steps sys arith_fuel vm vm' → IsValid vm → IsValid vm'
  Steps-IsValid vm vm' here v = v
  Steps-IsValid vm vm' (next s rest) v = Steps-IsValid _ vm' rest (Step-IsValid vm _ s v)

  -- However long a machine runs from its start, on whatever bytecode, by the instructions of the
  -- model: at most 1024 values are on its operand stack, at most 256 calls are open, and at most 64
  -- loops, now and in every open call's caller.
  pub vm_init-IsValid :
      (image : BytecodeImage) (vm : Vm) → Steps sys arith_fuel (vm_init image) vm → IsValid vm
  unfolding vm_init
  vm_init-IsValid image vm steps =
      Steps-IsValid _ vm steps
        (record { stack = omega arith; calls = omega arith; loops = omega arith; frames = tt })
