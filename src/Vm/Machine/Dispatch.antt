-- ===== src/Vm/Machine/Dispatch.antt =====
-- src/vm/vm.c: `vm_init`, and the dispatch loop of `vm_run` as steps from machine to machine.
-- A step executes one instruction whose handler is in the model. An instruction that starts a
-- process, runs a builtin or a module, or opens a file has no step, nor has a round that finds a signal.
use opsh_actual.Base.{
  ℕ, ◌<◌, ◌≡◌, false, ◌==◌, if◌then◌else◌, Option, none, some, List, [], ◌∷◌, length, map,
}
use opsh_actual.Base.Int.{pos}
use opsh_actual.Base.Run.{ok}
use opsh_actual.Exec.Variable.{environ_new}
use opsh_actual.Vm.Image.{BytecodeImage, VmFunc}
use opsh_actual.Vm.Machine.{Vm, M, ◌>>◌, TableFunc, read_u8}
use opsh_actual.Vm.Machine.Control.{
  op_jmp, op_jmp_true, op_jmp_false, op_jmp_none, op_push_scope, op_pop_scope, op_exec_func, op_ret,
  op_loop_enter, op_loop_exit, op_test_binary, op_negate_status, op_pattern_match, op_errexit_push,
  op_errexit_pop, op_status_zero, op_push_status, op_pop_status,
}
use opsh_actual.Vm.Machine.Data.{
  op_push_const, op_push_int, op_pop, op_dup, op_concat, op_get_var, op_get_local, op_set_var,
  op_set_local, op_export, op_get_array, op_set_array, op_set_array_bulk, op_init_iter,
  op_get_next_iter,
}
use opsh_actual.Vm.Machine.Special.{
  System, op_get_special, op_expand_arith, op_quote_remove, op_test_unary, op_halt, check_errexit,
}
use opsh_actual.Vm.Machine.Words.{op_expand_param}
use opsh_actual.Vm.Machine.Words.Groups.{op_collect_words, op_expand_args}
use opsh_actual.Vm.Machine.Words.Split.{op_split_fields}

abbrev table_func : VmFunc → TableFunc
table_func f = record { name = f.name; bytecode_offset = f.bytecode_offset; image = none }

unfoldable pub vm_init : BytecodeImage → Vm
vm_init image = record {
  image = image;
  main_image = image;
  ip = 0;
  stack = [];
  call_stack = [];
  loop_depth = 0;
  func_table = map table_func image.funcs;
  env = environ_new [] false;
  laststatus = pos 0;
  halted = false;
  script_name = none;
  last_bg_pid = pos 0;
  option_flags = [];
  opt_errexit = false;
  opt_nounset = false;
  errexit_suppressed = 0;
}

module _ (sys : System) (arith_fuel : ℕ) where
  abbrev pub handlers : List (ℕ × M (Unit {0}))
  handlers =
      (0x01, op_push_const)
      ∷ (0x02, op_push_int)
      ∷ (0x03, op_pop)
      ∷ (0x04, op_dup)
      ∷ (0x10, op_get_var)
      ∷ (0x11, op_set_var)
      ∷ (0x12, op_get_array)
      ∷ (0x13, op_set_array)
      ∷ (0x14, op_set_array_bulk)
      ∷ (0x15, op_export)
      ∷ (0x16, op_push_scope)
      ∷ (0x17, op_pop_scope)
      ∷ (0x18, op_get_special sys.getpid)
      ∷ (0x19, op_get_local)
      ∷ (0x1A, op_set_local)
      ∷ (0x20, op_concat)
      ∷ (0x21, op_expand_param sys.fnmatch)
      ∷ (0x22, op_expand_arith arith_fuel)
      ∷ (0x23, op_split_fields)
      ∷ (0x25, op_quote_remove)
      ∷ (0x27, op_collect_words)
      ∷ (0x28, op_expand_args)
      ∷ (0x30, op_jmp)
      ∷ (0x31, op_jmp_true)
      ∷ (0x32, op_jmp_false)
      ∷ (0x33, op_jmp_none)
      ∷ (0x34, op_ret)
      ∷ (0x35, op_loop_enter)
      ∷ (0x36, op_loop_exit)
      ∷ (0x39, op_get_next_iter)
      ∷ (0x3A, op_init_iter)
      ∷ (0x42, op_exec_func)
      ∷ (0x60, op_test_unary sys)
      ∷ (0x61, op_test_binary sys.fnmatch sys.compare_files sys.regex)
      ∷ (0x62, op_negate_status)
      ∷ (0x63, op_pattern_match sys.fnmatch sys.compare_files sys.regex)
      ∷ (0x80, op_errexit_push)
      ∷ (0x81, op_errexit_pop)
      ∷ (0x82, op_status_zero)
      ∷ (0x83, op_push_status)
      ∷ (0x84, op_pop_status)
      ∷ (0xFF, op_halt)
      ∷ []

  unfoldable pub find_handler : ℕ → List (ℕ × M (Unit {0})) → Option (M (Unit {0}))
  find_handler op [] = none
  find_handler op ((code, m) ∷ rest) =
      let later = find_handler op rest in if code == op then some m else later

  -- One round of the loop.
  pub data Step : Vm → Vm → Type 0 where
    executes :
        {vm read vm' : Vm} (op : ℕ) (m : M (Unit {0}))
        → vm.halted ≡ false
        → vm.ip < length vm.image.code
        → read_u8 vm ≡ ok (op, read)
        → find_handler op handlers ≡ some m
        → (m >> check_errexit op) read ≡ ok (tt, vm')
        → Step vm vm'

  pub data Steps : Vm → Vm → Type 0 where
    here : {vm : Vm} → Steps vm vm
    next : {vm vm' vm'' : Vm} → Step vm vm' → Steps vm' vm'' → Steps vm vm''
