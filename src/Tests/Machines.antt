-- ===== src/Tests/Machines.antt =====
-- The virtual machine on small programs.
use opsh_actual.Base.{◌≡◌, refl, true, false, List, [], ◌∷◌, none, codes, str_eq, arith}
use opsh_actual.Base.Int.{pos, negsuc, ◌+ℤ◌}
use opsh_actual.Base.Run.{Run, ok, stop, Returns}
use opsh_actual.Exec.Variable.{
  environ_new, environ_set, environ_set_flags, check_readonly, environ_get, create,
}
use opsh_actual.Foundation.Hashtable.{ht_init, ht_get, probe, ht_fnv1a, ht_set, insert}
use opsh_actual.Foundation.Hashtable
use opsh_actual.Vm.Image.{BytecodeImage, image_new}
use opsh_actual.Vm.Value.{Value, value_to_string}
use opsh_actual.Vm.Machine.{
  Vm, TableFunc, by_option, vm_push, take_top, vm_pop, vm_peek, read_u8, read_u16, read_i32,
  jump_to, vm_jump, constant, pop_onto, pop_values, push_all, to_int, alloc_count, ◌>>◌,
}
use opsh_actual.Vm.Machine.Calls.{op_ret-enter}
use opsh_actual.Vm.Machine.Control.{no_match, bind_params, call_env, enter, op_ret, op_jmp}
use opsh_actual.Vm.Machine.Data.{op_push_int, op_init_iter, op_get_var}
use opsh_actual.Vm.Machine.Dispatch.{vm_init, find_handler, executes, Steps, here, next}
use opsh_actual.Vm.Machine.Limits.{vm_init-IsValid}
use opsh_actual.Vm.Machine.Limits.Rules.{IsValid}
use opsh_actual.Vm.Machine.Special.{System, check_errexit}
use opsh_actual.Vm.Machine.Words.{
  match_prefix, match_suffix, trim, first_suffix, replace_tail, longest_match, replace_loop,
  replace,
}
use opsh_actual.Vm.Machine.Words.Fields.{Splits, split-Splits}
use opsh_actual.Vm.Machine.Words.Groups.{op_collect_words}
use opsh_actual.Vm.Machine.Words.Iterate.{layout, words-iterate}
use opsh_actual.Vm.Machine.Words.Split.{
  is_ifs, skip_ifs_space, take_field, skip_delimiters, split_loop, split,
}

program : Unit {0}
unfolding image_new vm_init by_option vm_push take_top vm_pop vm_peek read_u8 read_u16 read_i32
    jump_to vm_jump constant pop_onto pop_values push_all to_int alloc_count op_push_int op_jmp
    op_init_iter op_get_var find_handler match_prefix match_suffix trim first_suffix replace_tail
    longest_match replace_loop replace is_ifs skip_ifs_space take_field skip_delimiters split_loop
    split ◌+ℤ◌ environ_new ht_init op_ret enter str_eq value_to_string call_env bind_params
    environ_set environ_set_flags ht_get Hashtable.start probe ht_fnv1a check_readonly environ_get
    create ht_set insert check_errexit
program = tt

-- Splitting at blanks and at colons.
blanks : split (codes " \t\n") (codes "  a bc\n") ≡ ok (codes "a" ∷ codes "bc" ∷ [])
unfolding program
blanks = refl

colons : split (codes ":") (codes ":a::b:") ≡ ok ([] ∷ codes "a" ∷ [] ∷ codes "b" ∷ [] ∷ [])
unfolding program
colons = refl

-- A blank before a colon makes an empty field, although both are one delimiter in POSIX.
blank_colon : split (codes " :") (codes "a : b") ≡ ok (codes "a" ∷ [] ∷ codes "b" ∷ [])
unfolding program
blank_colon = refl

split-Splits_example :
    Returns (split (codes " \t\n") (codes "a b")) (Splits (codes " \t\n") (codes "a b"))
split-Splits_example = split-Splits (codes " \t\n") (codes "a b")

-- Patterns that are plain texts.
trimmed : trim str_eq (codes "a") (codes "aba") true false ≡ codes "ba"
unfolding program
trimmed = refl

replaced : replace str_eq (codes "a") (codes "xy") (codes "aba") 16 ≡ ok (codes "xybxy")
unfolding program
replaced = refl

-- PUSH_INT -2; JMP 1.
abbrev two_instructions : BytecodeImage
two_instructions = record {
  const_pool = [];
  const_cap = 0;
  code = 0x02 ∷ 0xFE ∷ 0xFF ∷ 0xFF ∷ 0xFF ∷ 0x30 ∷ 1 ∷ 0 ∷ 0 ∷ 0 ∷ 0x82 ∷ [];
  code_cap = 64;
  funcs = [];
  modules = [];
}

abbrev start : Vm
start = record {
  image = two_instructions;
  main_image = two_instructions;
  ip = 0;
  stack = [];
  call_stack = [];
  loop_depth = 0;
  func_table = [];
  env = record { vars = ht_init; is_temporary = false } ∷ [];
  laststatus = pos 0;
  halted = false;
  script_name = none;
  last_bg_pid = pos 0;
  option_flags = [];
  opt_errexit = false;
  opt_nounset = false;
  errexit_suppressed = 0;
}

abbrev pushed : Vm
pushed = record start { ip = 5; stack = Value.integer (negsuc 1) ∷ [] }

abbrev jumped : Vm
jumped = record pushed { ip = 11 }

abbrev system : System
system = record {
  fnmatch = str_eq;
  regex = λ re s. no_match;
  test_file = λ op s. false;
  compare_files = λ op a b. false;
  isatty = λ fd. false;
  getpid = 1;
}

run : Steps system 16 (vm_init two_instructions) jumped
unfolding program
run =
    next (executes 0x02 op_push_int refl (omega arith) refl refl refl)
      (next (executes 0x30 op_jmp refl (omega arith) refl refl refl) here)

vm_init-IsValid_example : IsValid jumped
vm_init-IsValid_example = vm_init-IsValid system 16 two_instructions jumped run

-- Two words, one of two fields, and then the operand of INIT_ITER.
abbrev groups : List (List Value)
groups =
    (Value.string (codes "a") ∷ Value.string (codes "b") ∷ [])
    ∷ (Value.string (codes "c") ∷ [])
    ∷ []

abbrev iterating : Vm
iterating = record start { image = record two_instructions { code = 1 ∷ 0 ∷ [] } }

words-iterate_example :
    (op_collect_words >> op_init_iter)
      (record iterating { stack = Value.integer (pos 2) ∷ layout groups [] })
    ≡ ok (
      tt,
      record iterating {
        ip = 2;
        stack = Value.iterator (codes "a" ∷ codes "b" ∷ codes "c" ∷ []) 0 ∷ [];
      },
    )
unfolding program
words-iterate_example = words-iterate groups [] iterating (omega arith) refl refl

-- A function without arguments, called and left with a value on the stack.
abbrev callee : TableFunc
callee = record { name = codes "f"; bytecode_offset = 10; image = none }

abbrev after : Run (Unit {0} × Vm) → Vm
after (ok (done, vm)) = vm
after (stop e) = start

abbrev inside : Vm
inside = after (enter callee [] pushed)

entered : enter callee [] pushed ≡ ok (tt, inside)
unfolding program
entered = refl

abbrev returning : Vm
returning = record inside {
  stack = Value.string [] ∷ Value.integer (negsuc 1) ∷ [];
  env = record { vars = ht_init; is_temporary = false } ∷ pushed.env;
  ip = 11;
}

op_ret-enter_example :
    op_ret returning
    ≡ ok (
      tt,
      record inside {
        ip = 5;
        image = two_instructions;
        stack = Value.integer (negsuc 1) ∷ [];
        call_stack = [];
        loop_depth = 0;
        env = pushed.env;
      },
    )
unfolding program
op_ret-enter_example =
    op_ret-enter callee [] pushed inside returning (Value.string [] ∷ [])
      (record { vars = ht_init; is_temporary = false }) (omega arith) entered refl refl refl
