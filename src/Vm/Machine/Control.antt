-- ===== src/Vm/Machine/Control.antt =====
-- src/vm/vm.c, the cases of `vm_run` for jumps, scopes, function calls, loops, tests and the status.
-- `fnmatch` is the C library's function: whether the pattern matches the string.
use Prim.Native.Nat.{bit_and}
use opsh_actual.Base.{
  ℕ, ◌+◌, ◌-◌, ◌%◌, Bool, true, false, ltb, leb, ◌==◌, if◌then◌else◌, not, ◌&&◌, Option, none, some,
  List, [], ◌∷◌, length, get_elem?, Bytes, codes,
}
use opsh_actual.Base.Decimal.{print_nat, strtoll}
use opsh_actual.Base.Int.{ℤ, pos, negsuc, ltb_ℤ}
use opsh_actual.Base.Run.{Run, ok, stop, undefined, out_of_bounds}
use opsh_actual.Base.Run
use opsh_actual.Vm.Image.{BytecodeImage}
use opsh_actual.Vm.Value.{Value, value_to_string, value_to_integer}
use opsh_actual.Exec.Variable.{Environ, environ_new, environ_set, environ_assign}
use opsh_actual.Vm.Machine.{
  Vm, M, TableFunc, CallFrame, vm_call_stack_max, vm_loop_stack_max, ◌>>=◌, ◌>>◌, pure, lift,
  get_vm, put_env, set_env, fail, vm_push, vm_pop, read_u8, read_u16, read_i32, vm_jump, pop_values,
  to_int, alloc_count,
}

abbrev pub is_zero : ℤ → Bool
is_zero (pos n) = n == 0
is_zero (negsuc n) = false

abbrev pub set_status : ℤ → M (Unit {0})
set_status status vm = ok (tt, record vm { laststatus = status })

unfoldable pub op_jmp : M (Unit {0})
op_jmp = do offset ← read_i32; vm_jump offset

unfoldable pub op_jmp_true : M (Unit {0})
op_jmp_true = do
  offset ← read_i32
  vm ← get_vm
  if is_zero vm.laststatus then vm_jump offset else pure tt

unfoldable pub op_jmp_false : M (Unit {0})
op_jmp_false = do
  offset ← read_i32
  vm ← get_vm
  if is_zero vm.laststatus then pure tt else vm_jump offset

abbrev pub is_none : Value → Bool
is_none Value.none = true
is_none _ = false

unfoldable pub op_jmp_none : M (Unit {0})
op_jmp_none = do offset ← read_i32; v ← vm_pop; if is_none v then vm_jump offset else pure tt

unfoldable pub op_push_scope : M (Unit {0})
op_push_scope = do
  flags ← read_u8
  vm ← get_vm
  put_env (environ_new vm.env (not (bit_and flags 1 == 0)))

-- The scope without its parent is the global one.
unfoldable pub pop_scope : Environ → M (Unit {0})
pop_scope [] vm = stop undefined
pop_scope (s ∷ []) vm = fail vm
pop_scope (s ∷ t ∷ env) vm = ok (tt, record vm { env = t ∷ env })

unfoldable pub op_pop_scope : M (Unit {0})
unfolding pop_scope
op_pop_scope vm = pop_scope vm.env vm

-- The positional parameters from number `i` on.
unfoldable pub bind_params : ℕ → List Value → Environ → Run Environ
bind_params i [] env = ok env
bind_params i (arg ∷ argv) env =
    Run.◌>>=◌ (environ_set env (print_nat i) arg) λ (env', said). bind_params (i + 1) argv env'

-- The first argument is the function's name.
abbrev pub parameters : List Value → List Value
parameters [] = []
parameters (name ∷ argv) = argv

unfoldable pub call_env : Environ → List Value → Run Environ
call_env env argv = Run.◌>>=◌ (bind_params 1 (parameters argv) (environ_new env false)) λ env'.
    Run.◌>>=◌ (environ_set env' (codes "#") (Value.string (print_nat (length (parameters argv)))))
      λ (env'', said). ok env''

abbrev pub image_of : Vm → TableFunc → BytecodeImage
image_of vm f = elim f.image [ none ↦ vm.main_image | some image ↦ image ]

unfoldable pub enter : TableFunc → List Value → M (Unit {0})
enter f argv vm =
    if leb vm_call_stack_max (length vm.call_stack)
    then fail vm
    else (let frame : CallFrame = record {
      return_ip = vm.ip;
      saved_stack_base = length vm.stack;
      saved_loop_depth = vm.loop_depth;
      saved_image = vm.image;
    } in
        Run.◌>>=◌ (call_env vm.env argv) λ env. ok (
          tt,
          record vm {
            image = image_of vm f;
            call_stack = frame ∷ vm.call_stack;
            env = env;
            ip = f.bytecode_offset;
          },
        ))

-- By whether the index is out of range, and by the function there.
abbrev pub call : Bool → Option TableFunc → List Value → M (Unit {0})
call true f argv = set_status (pos 127)
call false none argv = lift (stop out_of_bounds)
call false (some f) argv = enter f argv

unfoldable pub op_exec_func : M (Unit {0})
op_exec_func = do
  func_idx ← read_u16
  argc_val ← vm_pop
  argc ← alloc_count (to_int (value_to_integer argc_val))
  argv ← pop_values argc
  vm ← get_vm
  call (leb (length vm.func_table % 65536) func_idx) (get_elem? vm.func_table func_idx) argv

-- The values above the base are popped.
abbrev pub keep_last {ℓ} : {A : Type ℓ} → ℕ → List A → List A
keep_last base [] = []
keep_last base (v ∷ stack) =
    if ltb base (length (v ∷ stack)) then keep_last base stack else v ∷ stack

abbrev pub parent : Environ → Run Environ
parent [] = stop undefined
parent (s ∷ env) = ok env

unfoldable pub leave : List CallFrame → M (Unit {0})
leave [] vm = ok (tt, record vm { halted = true })
leave (frame ∷ frames) vm = Run.◌>>=◌ (parent vm.env) λ env. ok (
  tt,
  record vm {
    call_stack = frames;
    stack = keep_last frame.saved_stack_base vm.stack;
    loop_depth = frame.saved_loop_depth;
    env = env;
    ip = frame.return_ip;
    image = frame.saved_image;
  },
)

unfoldable pub op_ret : M (Unit {0})
unfolding leave
op_ret vm = leave vm.call_stack vm

unfoldable pub op_loop_enter : M (Unit {0})
op_loop_enter vm =
    if leb vm_loop_stack_max vm.loop_depth
    then fail vm
    else ok (tt, record vm { loop_depth = vm.loop_depth + 1 })

unfoldable pub op_loop_exit : M (Unit {0})
op_loop_exit vm = ok (tt, record vm { loop_depth = vm.loop_depth - 1 })

-- The comparisons of strings and numbers by their number; none for the others.
abbrev pub eq_ℤ : ℤ → ℤ → Bool
eq_ℤ a b = not (ltb_ℤ a b) && not (ltb_ℤ b a)

abbrev pub compares : ℕ → ℤ → ℤ → Option Bool
compares op a b =
    if op == 40
    then some (eq_ℤ a b)
    else if op == 41
    then some (not (eq_ℤ a b))
    else if op == 42
    then some (ltb_ℤ a b)
    else if op == 43
    then some (not (ltb_ℤ b a))
    else if op == 44
    then some (ltb_ℤ b a)
    else if op == 45
    then some (not (ltb_ℤ a b))
    else none

unfoldable pub op_negate_status : M (Unit {0})
op_negate_status = do vm ← get_vm; set_status (if is_zero vm.laststatus then pos 1 else pos 0)

unfoldable pub op_errexit_push : M (Unit {0})
op_errexit_push vm = ok (tt, record vm { errexit_suppressed = vm.errexit_suppressed + 1 })

unfoldable pub op_errexit_pop : M (Unit {0})
op_errexit_pop vm = ok (tt, record vm { errexit_suppressed = vm.errexit_suppressed - 1 })

unfoldable pub op_status_zero : M (Unit {0})
op_status_zero = set_status (pos 0)

unfoldable pub op_push_status : M (Unit {0})
op_push_status = do vm ← get_vm; vm_push (Value.integer vm.laststatus)

-- The code reads the union as an integer without a look at its tag.
abbrev pub untagged : Value → Run ℤ
untagged (Value.integer n) = ok n
untagged _ = stop undefined

unfoldable pub op_pop_status : M (Unit {0})
op_pop_status = do v ← vm_pop; n ← lift (untagged v); set_status (to_int n)

-- What the C library finds of an extended regular expression in a string: the expression is
-- invalid, it does not match, or the texts of the groups up to the last one that took part.
pub data Match : Type 0 where
  invalid no_match : Match
  matched : List Bytes → Match

abbrev pub status_of : Bool → ℤ
status_of true = pos 0
status_of false = pos 1

-- `file_test` is the result of -nt, -ot and -ef on two files.
module _ (fnmatch : Bytes → Bytes → Bool) (file_test : ℕ → Bytes → Bytes → Bool)
    (regex : Bytes → Bytes → Match) where
  abbrev pub set_matches : List Bytes → ℤ → M (Unit {0})
  set_matches groups status = do
    vm ← get_vm
    set_env (environ_assign vm.env (codes "BASH_REMATCH") (Value.array groups))
    set_status status

  abbrev pub test_regex : Match → M (Unit {0})
  test_regex invalid = set_status (pos 2)
  test_regex no_match = set_matches [] (pos 1)
  test_regex (matched groups) = set_matches groups (pos 0)

  unfoldable pub test_binary : ℕ → Bytes → Bytes → M (Unit {0})
  test_binary op lhs rhs =
      if op == 30
      then set_status (status_of (fnmatch rhs lhs))
      else if op == 31
      then set_status (status_of (not (fnmatch rhs lhs)))
      else if leb 50 op && leb op 52
      then set_status (status_of (file_test op lhs rhs))
      else if op == 60
      then test_regex (regex rhs lhs)
      else elim (compares op (strtoll lhs) (strtoll rhs)) [
        | none ↦ set_status (pos 1)
        | some holds ↦ set_status (status_of holds)
      ]

  unfoldable pub op_test_binary : M (Unit {0})
  unfolding test_binary
  op_test_binary = do
    op ← read_u8
    rhs ← vm_pop
    lhs ← vm_pop
    test_binary op (value_to_string lhs) (value_to_string rhs)

  unfoldable pub op_pattern_match : M (Unit {0})
  op_pattern_match = do
    pattern ← vm_pop
    subject ← vm_pop
    set_status (status_of (fnmatch (value_to_string pattern) (value_to_string subject)))
