-- ===== src/Vm/Machine/Special.antt =====
-- src/vm/vm.c, the cases of `vm_run` for the special parameters, arithmetic expansion, the unary
-- tests and the end of the program, and the check of `set -e` behind every instruction.
use opsh_actual.Base.{
  ℕ, zero, suc, ◌+◌, Bool, true, false, leb, ◌==◌, if◌then◌else◌, not, ◌&&◌, ◌||◌, Option, none,
  some, [], ◌∷◌, ◌++◌, Bytes, codes,
}
use opsh_actual.Base.Decimal.{print_nat, print_int, strtoll}
use opsh_actual.Base.Int.{ℤ, pos, negsuc}
use opsh_actual.Base.Run.{Run, ok}
use opsh_actual.Base.Run
use opsh_actual.Vm.Value.{Value, value_to_string}
use opsh_actual.Vm.Arith.{arith_eval}
use opsh_actual.Vm.Arith.State.{ArithError, arith_ok}
use opsh_actual.Exec.Variable.{Environ, Variable, environ_get}
use opsh_actual.Vm.Machine.{
  Vm, M, ◌>>=◌, ◌>>◌, pure, lift, get_vm, put_env, fail, vm_push, vm_pop, read_u8, to_int,
}
use opsh_actual.Vm.Machine.Control.{Match, set_status, status_of, is_zero}
use opsh_actual.Vm.Machine.Words.Groups.{param_count, rounds}

-- What the instructions ask the C library and the system: whether a pattern matches a string, what
-- an extended regular expression finds in a string, the tests of one and of two files by the
-- number of the test, whether a descriptor is a terminal, and the number of the process.
pub record System : Type 0 where
  pub fnmatch : Bytes → Bytes → Bool
  pub regex : Bytes → Bytes → Match
  pub test_file : ℕ → Bytes → Bool
  pub compare_files : ℕ → Bytes → Bytes → Bool
  pub isatty : ℤ → Bool
  pub getpid : ℕ

abbrev pub count_text : Option Variable → Bytes
count_text none = codes "0"
count_text (some var) = elim var.value [ Value.string s ↦ s | _ ↦ codes "0" ]

-- One more parameter, with the separator if there is one and something stands before it.
abbrev pub separated : ℕ → Bytes → Bytes
separated sep [] = []
separated sep (c ∷ s) = if sep == 0 then c ∷ s else (c ∷ s) ++ sep ∷ []

abbrev pub add_param : ℕ → Option Variable → Bytes → Bytes
add_param sep none result = result
add_param sep (some var) result = separated sep result ++ value_to_string var.value

-- The parameters of `left` numbers from `i` on, behind `result`.
unfoldable pub join_params : ℕ → ℕ → ℕ → Environ → Bytes → Run Bytes
join_params sep zero i env result = ok result
join_params sep (suc left) i env result =
    Run.◌>>=◌ (environ_get env (print_nat i))
      λ var. join_params sep left (i + 1) env (add_param sep var result)

-- The first character of IFS, and 0 where it is empty.
abbrev pub ifs_separator : Option Variable → ℕ
ifs_separator none = b' '
ifs_separator (some var) = elim var.value [
  | Value.string s ↦ elim s [ [] ↦ 0 | c ∷ rest ↦ c ]
  | _ ↦ b' '
]

unfoldable pub push_joined : ℕ → M (Unit {0})
unfolding join_params
push_joined sep = do
  vm ← get_vm
  hash ← lift (environ_get vm.env (codes "#"))
  joined ← lift (join_params sep (rounds (param_count hash)) 1 vm.env [])
  vm_push (Value.string joined)

abbrev pub background_text : ℤ → Bytes
background_text (pos zero) = []
background_text (pos (suc n)) = print_nat (suc n)
background_text (negsuc n) = []

abbrev pub script_text : Option Bytes → Bytes
script_text none = codes "opsh"
script_text (some name) = name

-- The texts of the special parameters that no loop makes.
abbrev pub special_text : ℕ → ℕ → Vm → Bytes
special_text pid which vm =
    if which == 0
    then print_int vm.laststatus
    else if which == 4
    then print_nat pid
    else if which == 5
    then background_text vm.last_bg_pid
    else if which == 6
    then vm.option_flags
    else if which == 7
    then script_text vm.script_name
    else []

unfoldable pub op_get_special : ℕ → M (Unit {0})
unfolding push_joined
op_get_special pid = do
  which ← read_u8
  vm ← get_vm
  (if which == 1
      then (lift (environ_get vm.env (codes "#")) >>= λ hash.
          vm_push (Value.string (count_text hash)))
      else if which == 2
      then push_joined b' '
      else if which == 3
      then (lift (environ_get vm.env (codes "IFS")) >>= λ ifs. push_joined (ifs_separator ifs))
      else vm_push (Value.string (special_text pid which vm)))

abbrev pub is_ok : ArithError → Bool
is_ok arith_ok = true
is_ok _ = false

-- The evaluator stores its assignments in the machine's variables, also where it fails.
unfoldable pub op_expand_arith : ℕ → M (Unit {0})
op_expand_arith fuel = do
  expr ← vm_pop
  vm ← get_vm
  result ← lift (arith_eval fuel (value_to_string expr) vm.env)
  put_env result.2
  (if is_ok result.1 then pure tt else fail)
  vm_push (Value.string (print_int result.0))

unfoldable pub op_quote_remove : M (Unit {0})
op_quote_remove = pure tt

abbrev pub is_empty_text : Bytes → Bool
is_empty_text [] = true
is_empty_text (c ∷ s) = false

abbrev pub test_unary : System → ℕ → Bytes → Bool
test_unary sys op s =
    if leb op 16 || op == 18
    then sys.test_file op s
    else if op == 17
    then sys.isatty (to_int (strtoll s))
    else if op == 20
    then not (is_empty_text s)
    else if op == 21
    then is_empty_text s
    else false

unfoldable pub op_test_unary : System → M (Unit {0})
op_test_unary sys = do
  op ← read_u8
  arg ← vm_pop
  set_status (status_of (test_unary sys op (value_to_string arg)))

-- `vm_exit` where no EXIT trap is set.
unfoldable pub vm_exit : ℤ → M (Unit {0})
vm_exit status vm = ok (tt, record vm { laststatus = status; halted = true })

unfoldable pub op_halt : M (Unit {0})
op_halt = do vm ← get_vm; vm_exit vm.laststatus

-- The instructions that run a command.
abbrev pub is_command : ℕ → Bool
is_command op = leb 0x40 op && leb op 0x43 || op == 0x47

abbrev pub exits : ℕ → Vm → Bool
exits op vm =
    vm.opt_errexit && vm.errexit_suppressed == 0 && not (is_zero vm.laststatus) && is_command op

unfoldable pub check_errexit : ℕ → M (Unit {0})
check_errexit op = do vm ← get_vm; if exits op vm then vm_exit vm.laststatus else pure tt
