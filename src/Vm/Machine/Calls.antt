-- ===== src/Vm/Machine/Calls.antt =====
-- A function call and its return.
use opsh_actual.Base.{
  ◌<◌, ◌≡◌, refl, ◌∙◌, true, false, ltb, List, [], ◌∷◌, ◌++◌, length, length-append, arith,
}
use opsh_actual.Base.Run.{Run, ok, stop}
use opsh_actual.Vm.Value.{Value}
use opsh_actual.Exec.Variable.{Scope, Environ}
use opsh_actual.Vm.Machine.{Vm, CallFrame, TableFunc, vm_call_stack_max}
use opsh_actual.Vm.Machine.Control.{call_env, enter, keep_last, op_ret}

keep_last-length : {A : Type 0} (xs : List A) → keep_last (length xs) xs ≡ xs
keep_last-length [] = refl
keep_last-length (x ∷ xs) =
    let done : ltb (length (x ∷ xs)) (length (x ∷ xs)) ≡ false = ground arith in rw done

keep_last-append : {A : Type 0} (extra xs : List A) → keep_last (length xs) (extra ++ xs) ≡ xs
keep_last-append [] xs = keep_last-length xs
keep_last-append (x ∷ extra) xs =
    let more : ltb (length xs) (length ((x ∷ extra) ++ xs)) ≡ true =
      ground (arith, length-append extra xs) in
    rw more (keep_last-append extra xs)

frame_of : Vm → CallFrame
frame_of vm = record {
  return_ip = vm.ip;
  saved_stack_base = length vm.stack;
  saved_loop_depth = vm.loop_depth;
  saved_image = vm.image;
}

enter_frame :
    (f : TableFunc) (argv : List Value) (vm inside : Vm)
    → length vm.call_stack < vm_call_stack_max
    → enter f argv vm ≡ ok (tt, inside)
    → inside.call_stack ≡ frame_of vm ∷ vm.call_stack
unfolding enter frame_of
enter_frame f argv vm inside room e = entered (call_env vm.env argv) refl
  where
    entered :
        (r : Run Environ)
        → call_env vm.env argv ≡ r
        → inside.call_stack ≡ frame_of vm ∷ vm.call_stack
    entered (ok env) same = ground arith
    entered (stop x) same = ground arith

-- A call that finds room on the call stack and enters the function, followed by a return when the
-- function has left values of its own on the stack and one scope more than the caller had: the
-- caller goes on where it was, with its bytecode, its operand stack, its loops and its variables.
pub op_ret-enter :
    (f : TableFunc) (argv : List Value) (vm inside vm' : Vm) (extra : List Value) (s : Scope)
    → length vm.call_stack < vm_call_stack_max
    → enter f argv vm ≡ ok (tt, inside)
    → vm'.call_stack ≡ inside.call_stack
    → vm'.stack ≡ extra ++ vm.stack
    → vm'.env ≡ s ∷ vm.env
    → op_ret vm'
      ≡ ok (
        tt,
        record vm' {
          ip = vm.ip;
          image = vm.image;
          stack = vm.stack;
          call_stack = vm.call_stack;
          loop_depth = vm.loop_depth;
          env = vm.env;
        },
      )
unfolding op_ret frame_of
op_ret-enter f argv vm inside vm' extra s room e calls stack scopes =
    let frames = calls ∙ enter_frame f argv vm inside room e in
    rw (frames, scopes, stack, keep_last-append extra vm.stack) refl
