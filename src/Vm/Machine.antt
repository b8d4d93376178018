-- ===== src/Vm/Machine.antt =====
-- src/vm/vm.h, src/vm/vm.c: the state of the virtual machine, its operand stack, the decoding of
-- instructions and jumps.
-- The operand stack is the list of its values, the top first, so `stack_top` is its length. Values
-- that the code copies or releases are the values. Messages on stderr are not modelled.
pub mod Data
pub mod Words
pub mod Control
pub mod Special
pub mod Stack
pub mod Dispatch
pub mod Limits
pub mod Calls
use opsh_actual.Base.{
  ℕ, zero, suc, ◌+◌, ◌-◌, ◌*◌, ◌%◌, ◌^◌, Bool, true, false, ltb, leb, ◌==◌, if◌then◌else◌, Option,
  none, some, List, [], ◌∷◌, length, get_elem?, Bytes,
}
use opsh_actual.Base.Int.{ℤ, pos, negsuc, ◌+ℤ◌}
use opsh_actual.Base.Run.{Run, ok, stop, aborted, in_bounds}
use opsh_actual.Base.Run
use opsh_actual.Vm.Image.{BytecodeImage}
use opsh_actual.Vm.Value.{Value}
use opsh_actual.Exec.Variable.{Environ}

abbrev pub vm_stack_max : ℕ
vm_stack_max = 1024

abbrev pub vm_call_stack_max : ℕ
vm_call_stack_max = 256

abbrev pub vm_loop_stack_max : ℕ
vm_loop_stack_max = 64

-- `vm_func_t`; `image` is none for the null pointer, which means the main image.
pub record TableFunc : Type 0 where
  pub name : Bytes
  pub bytecode_offset : ℕ
  pub image : Option BytecodeImage

-- `call_frame_t`; `saved_env` is written and never read, so it is left out.
pub record CallFrame : Type 0 where
  pub return_ip : ℕ
  pub saved_stack_base : ℕ
  pub saved_loop_depth : ℕ
  pub saved_image : BytecodeImage

-- The parts of `vm_t` that the instructions of the model use. The loop frames' contents are written
-- and never read, so `loop_depth` stands for them.
pub record Vm : Type 0 where
  pub image : BytecodeImage
  pub main_image : BytecodeImage
  pub ip : ℕ
  pub stack : List Value
  pub call_stack : List CallFrame
  pub loop_depth : ℕ
  pub func_table : List TableFunc
  pub env : Environ
  pub laststatus : ℤ
  pub halted : Bool
  pub script_name : Option Bytes
  pub last_bg_pid : ℤ
  pub option_flags : Bytes
  pub opt_errexit : Bool
  pub opt_nounset : Bool
  pub errexit_suppressed : ℕ

-- Code that reads and writes the machine.
abbrev pub M : Type 0 → Type 0
M A = Vm → Run (A × Vm)

infixl 5 ◌>>=◌ ◌>>◌
abbrev pub ◌>>=◌ : {A B : Type 0} → M A → (A → M B) → M B
(m >>= f) vm = Run.◌>>=◌ (m vm) λ (a, vm'). f a vm'

abbrev pub ◌>>◌ : {A B : Type 0} → M A → M B → M B
m >> n = m >>= λ _. n

abbrev pub pure : {A : Type 0} → A → M A
pure a vm = ok (a, vm)

abbrev pub get_vm : M Vm
get_vm vm = ok (vm, vm)

-- `vm->env = env`
abbrev pub put_env : Environ → M (Unit {0})
put_env env vm = ok (tt, record vm { env = env })

abbrev pub lift : {A : Type 0} → Run A → M A
lift r vm = Run.◌>>=◌ r λ a. ok (a, vm)

-- Code that depends on whether a pointer is null.
unfoldable pub by_option : {A B : Type 0} → Option B → M A → (B → M A) → M A
by_option none m k = m
by_option (some b) m k = k b

-- `vm->laststatus = 1; vm->halted = true`
abbrev pub fail : M (Unit {0})
fail vm = ok (tt, record vm { laststatus = pos 1; halted = true })

-- A message about a readonly variable is not kept.
abbrev pub set_env : Run (Environ × Bool) → M (Unit {0})
set_env change vm = Run.◌>>=◌ change λ (env, said). ok (tt, record vm { env = env })

unfoldable pub vm_push : Value → M (Unit {0})
vm_push val vm =
    if leb vm_stack_max (length vm.stack)
    then stop aborted
    else ok (tt, record vm { stack = val ∷ vm.stack })

unfoldable pub take_top : List Value → M Value
take_top [] vm = stop aborted
take_top (val ∷ stack) vm = ok (val, record vm { stack = stack })

unfoldable pub vm_pop : M Value
unfolding take_top
vm_pop vm = take_top vm.stack vm

unfoldable pub vm_peek : ℕ → M Value
vm_peek offset vm = elim (get_elem? vm.stack offset) [
  | none ↦ stop aborted
  | some val ↦ ok (val, vm)
]

unfoldable pub read_u8 : M ℕ
read_u8 vm = elim (get_elem? vm.image.code vm.ip) [
  | none ↦ stop aborted
  | some byte ↦ ok (byte, record vm { ip = vm.ip + 1 })
]

-- The bytes do not overlap, so `|` of the shifted bytes is their sum.
unfoldable pub read_u16 : M ℕ
read_u16 = do lo ← read_u8; hi ← read_u8; pure (lo + hi * 256)

-- `(int32_t)w`
abbrev pub to_i32 : ℕ → ℤ
to_i32 w = if ltb w (2 ^ 31) then pos w else negsuc (2 ^ 32 - 1 - w)

unfoldable pub read_i32 : M ℤ
read_i32 = do
  b0 ← read_u8
  b1 ← read_u8
  b2 ← read_u8
  b3 ← read_u8
  pure (to_i32 (b0 + b1 * 256 + b2 * 65536 + b3 * 16777216))

unfoldable pub jump_to : ℤ → M (Unit {0})
jump_to (negsuc n) vm = fail vm
jump_to (pos target) vm =
    if ltb (length vm.image.code) target then fail vm else ok (tt, record vm { ip = target })

unfoldable pub vm_jump : ℤ → M (Unit {0})
unfolding jump_to
vm_jump offset vm = jump_to (pos vm.ip +ℤ offset) vm

-- `vm->image->const_pool[idx]`, which is not tested against the number of constants.
unfoldable pub constant : ℕ → M Bytes
constant idx vm = Run.◌>>=◌ (in_bounds (get_elem? vm.image.const_pool idx)) λ s. ok (s, vm)

-- Pops `n` values; the value that was deepest comes first in the list.
unfoldable pub pop_onto : ℕ → List Value → M (List Value)
pop_onto zero vals = pure vals
pop_onto (suc n) vals = do v ← vm_pop; pop_onto n (v ∷ vals)

unfoldable pub pop_values : ℕ → M (List Value)
pop_values n = pop_onto n []

-- Pushes the values in the order of the list.
unfoldable pub push_all : List Value → M (Unit {0})
push_all [] = pure tt
push_all (v ∷ vals) = do vm_push v; push_all vals

-- `(int)n` of an int64_t
unfoldable pub to_int : ℤ → ℤ
to_int (pos n) = to_i32 (n % 2 ^ 32)
to_int (negsuc n) = to_i32 (2 ^ 32 - 1 - n % 2 ^ 32)

-- The number of elements of a new array. A negative int becomes a size_t that no allocation grants,
-- and `xcalloc` calls abort().
unfoldable pub alloc_count : ℤ → M ℕ
alloc_count (pos n) vm = ok (n, vm)
alloc_count (negsuc n) vm = stop aborted
