-- ===== src/Vm/Machine/Limits/Special.antt =====
-- The special parameters, arithmetic, the tests of one operand and the end of the program keep the
-- limits.
use opsh_actual.Base.{ℕ, refl}
use opsh_actual.Base.Int.{ℤ}
use opsh_actual.Vm.Machine.Special.{
  System, push_joined, op_get_special, op_expand_arith, op_quote_remove, op_test_unary, vm_exit,
  op_halt, check_errexit,
}
use opsh_actual.Vm.Machine.Limits.Rules.{Keeps, Keeps-pure, same_stacks}
use opsh_actual.Vm.Machine.Limits.Handlers.{handlers}

Keeps-vm_exit : (status : ℤ) → Keeps (vm_exit status)
unfolding vm_exit
Keeps-vm_exit status = record { keeps = λ vm v. same_stacks vm _ refl refl refl v }

Keeps-push_joined : (sep : ℕ) → Keeps (push_joined sep)
unfolding push_joined
Keeps-push_joined sep = search handlers depth 14

pub Keeps-op_get_special : (pid : ℕ) → Keeps (op_get_special pid)
unfolding op_get_special
Keeps-op_get_special pid = search (handlers, Keeps-push_joined) depth 14

pub Keeps-op_expand_arith : (fuel : ℕ) → Keeps (op_expand_arith fuel)
unfolding op_expand_arith
Keeps-op_expand_arith fuel = search handlers depth 14

pub Keeps-op_quote_remove : Keeps op_quote_remove
unfolding op_quote_remove
Keeps-op_quote_remove = Keeps-pure tt

pub Keeps-op_test_unary : (sys : System) → Keeps (op_test_unary sys)
unfolding op_test_unary
Keeps-op_test_unary sys = search handlers depth 14

pub Keeps-op_halt : Keeps op_halt
unfolding op_halt
Keeps-op_halt = search (handlers, Keeps-vm_exit) depth 14

pub Keeps-check_errexit : (op : ℕ) → Keeps (check_errexit op)
unfolding check_errexit
Keeps-check_errexit op = search (handlers, Keeps-vm_exit) depth 14
