-- ===== src/Vm/Machine/Limits/Handlers.antt =====
-- The instructions keep the limits.
use opsh_actual.Base.{
  ℕ, zero, suc, ◌+◌, ◌≤◌, ◌<◌, refl, leb, ltb, if◌then◌else◌, Option, none, some, List, [], ◌∷◌,
  length, Bytes, arith, get_elem?,
}
use opsh_actual.Base.Int.{ℤ, pos, negsuc}
use opsh_actual.Vm.Value.{Value, value_to_integer}
use opsh_actual.Exec.Variable.{Environ, Variable}
use opsh_actual.Vm.Machine.{Vm, ◌>>◌, pure, fail, vm_push, vm_stack_max, vm_loop_stack_max}
use opsh_actual.Vm.Machine.Data.{
  op_push_const, op_push_int, op_pop, op_dup, op_concat, op_get_var, op_get_local, op_set_var,
  op_set_local, op_export, op_get_array, op_set_array, op_set_array_bulk, op_init_iter,
  op_get_next_iter, check_unset, set_array, group_sizes, next_iter,
}
use opsh_actual.Vm.Machine.Control.{
  op_jmp, op_jmp_true, op_jmp_false, op_jmp_none, op_push_scope, op_pop_scope, pop_scope,
  op_loop_enter, op_loop_exit, op_negate_status, op_errexit_push, op_errexit_pop, op_status_zero,
  op_push_status, op_pop_status, set_status,
}
use opsh_actual.Vm.Machine.Limits.Rules.{
  Keeps, rules, Keeps-bind, Keeps-get_vm, Keeps-fail, Keeps-vm_push, Keeps-read_u16, Keeps-constant,
  Keeps-lift, Keeps-pure, Keeps-vm_pop, Keeps-if, Keeps-set_env, Keeps-put_env, IsValid, Post,
  Post-if, same_stacks,
}

pub Keeps-set_status : (n : ℤ) → Keeps (set_status n)
Keeps-set_status n = record { keeps = λ vm v. same_stacks vm _ refl refl refl v }

pub Keeps-check_unset : (var : Option Variable) → Keeps (check_unset var)
Keeps-check_unset none = record {
  keeps = λ vm v. Post-if vm.opt_nounset _ _ (λ _. Keeps-fail.keeps vm v) λ _. v;
}
Keeps-check_unset (some var) = record { keeps = λ vm v. v }

pub ruleset handlers = (rules, Keeps-set_status, Keeps-check_unset)

pub Keeps-op_push_int : Keeps op_push_int
unfolding op_push_int
Keeps-op_push_int = search handlers depth 14

pub Keeps-op_pop : Keeps op_pop
unfolding op_pop
Keeps-op_pop = search handlers depth 14

pub Keeps-op_dup : Keeps op_dup
unfolding op_dup
Keeps-op_dup = search handlers depth 14

pub Keeps-op_concat : Keeps op_concat
unfolding op_concat
Keeps-op_concat = search handlers depth 14

pub Keeps-op_set_var : Keeps op_set_var
unfolding op_set_var
Keeps-op_set_var = search handlers depth 14

pub Keeps-op_set_local : Keeps op_set_local
unfolding op_set_local
Keeps-op_set_local = search handlers depth 14

pub Keeps-op_export : Keeps op_export
unfolding op_export
Keeps-op_export = search handlers depth 14

pub Keeps-op_get_array : Keeps op_get_array
unfolding op_get_array
Keeps-op_get_array = search handlers depth 14

pub Keeps-op_set_array_bulk : Keeps op_set_array_bulk
unfolding op_set_array_bulk
Keeps-op_set_array_bulk = search handlers depth 14

pub Keeps-op_jmp : Keeps op_jmp
unfolding op_jmp
Keeps-op_jmp = search handlers depth 14

pub Keeps-op_jmp_true : Keeps op_jmp_true
unfolding op_jmp_true
Keeps-op_jmp_true = search handlers depth 14

pub Keeps-op_jmp_false : Keeps op_jmp_false
unfolding op_jmp_false
Keeps-op_jmp_false = search handlers depth 14

pub Keeps-op_jmp_none : Keeps op_jmp_none
unfolding op_jmp_none
Keeps-op_jmp_none = search handlers depth 14

pub Keeps-op_push_scope : Keeps op_push_scope
unfolding op_push_scope
Keeps-op_push_scope = search handlers depth 14

pub Keeps-op_push_status : Keeps op_push_status
unfolding op_push_status
Keeps-op_push_status = search handlers depth 14

pub Keeps-op_push_const : Keeps op_push_const
unfolding op_push_const
Keeps-op_push_const = search handlers depth 14

pub Keeps-op_negate_status : Keeps op_negate_status
unfolding op_negate_status
Keeps-op_negate_status = search handlers depth 14

pub Keeps-op_pop_status : Keeps op_pop_status
unfolding op_pop_status
Keeps-op_pop_status = search handlers depth 14

pub Keeps-op_status_zero : Keeps op_status_zero
unfolding op_status_zero
Keeps-op_status_zero = search handlers depth 14

pub Keeps-op_get_var : Keeps op_get_var
unfolding op_get_var
Keeps-op_get_var = search handlers depth 14

pub Keeps-op_get_local : Keeps op_get_local
unfolding op_get_local
Keeps-op_get_local = search handlers depth 14

Keeps-set_array : (name : Bytes) (idx : ℤ) (str : Bytes) → Keeps (set_array name idx str)
unfolding set_array
Keeps-set_array name idx str = search handlers depth 14

pub Keeps-op_set_array : Keeps op_set_array
unfolding op_set_array
Keeps-op_set_array = search (handlers, Keeps-set_array) depth 14

Keeps-group_sizes : (groups total : ℕ) → Keeps (group_sizes groups total)
unfolding group_sizes
Keeps-group_sizes zero total = Keeps-pure _
Keeps-group_sizes (suc groups) total =
    Keeps-bind Keeps-vm_pop
      λ count. by_sign (value_to_integer count) (λ gs. Keeps-group_sizes groups (total + gs))
  where
    by_sign :
        (n : ℤ)
        → ((gs : ℕ) → Keeps (group_sizes groups (total + gs)))
        → Keeps (elim n [
          | negsuc k ↦ fail >> pure none
          | pos gs ↦
              if ltb vm_stack_max gs then (fail >> pure none) else group_sizes groups (total + gs)
        ])
    by_sign (negsuc k) later = search handlers depth 14
    by_sign (pos gs) later =
        Keeps-if (ltb vm_stack_max gs) {m = fail >> pure none} (search handlers depth 14) (later gs)

pub Keeps-op_init_iter : Keeps op_init_iter
unfolding op_init_iter
Keeps-op_init_iter = search (handlers, Keeps-group_sizes) depth 14

pub Keeps-op_get_next_iter : Keeps op_get_next_iter
unfolding op_get_next_iter
Keeps-op_get_next_iter = record { keeps = λ vm v. by_top vm v vm.stack v.stack }
  where
    moved :
        (vm : Vm)
        → IsValid vm
        → (elements : List Bytes) (position : ℕ) (below : List Value) → length below < vm_stack_max
        → (o : Option Bytes)
        → Post (elim o [
          | none ↦ vm_push Value.none vm
          | some s ↦
              vm_push
                (Value.string s)
                (record vm { stack = Value.iterator elements (position + 1) ∷ below })
        ])
    moved vm v elements position below h none = (Keeps-vm_push Value.none).keeps vm v
    moved vm v elements position below h (some s) =
        (Keeps-vm_push (Value.string s)).keeps _
          (record { stack = omega arith; calls = v.calls; loops = v.loops; frames = v.frames })

    by_top :
        (vm : Vm)
        → IsValid vm
        → (stack : List Value) → length stack ≤ vm_stack_max
        → Post (next_iter stack vm)
    by_top vm v [] h = Keeps-fail.keeps vm v
    by_top vm v (Value.iterator elements position ∷ below) h =
        moved vm v elements position below (omega arith) (get_elem? elements position)
    by_top vm v (Value.none ∷ below) h = Keeps-fail.keeps vm v
    by_top vm v (Value.string s ∷ below) h = Keeps-fail.keeps vm v
    by_top vm v (Value.integer n ∷ below) h = Keeps-fail.keeps vm v
    by_top vm v (Value.array elements ∷ below) h = Keeps-fail.keeps vm v

pub Keeps-op_pop_scope : Keeps op_pop_scope
unfolding op_pop_scope
Keeps-op_pop_scope = record { keeps = λ vm v. by_chain vm v vm.env }
  where
    by_chain : (vm : Vm) → IsValid vm → (env : Environ) → Post (pop_scope env vm)
    by_chain vm v [] = tt
    by_chain vm v (s ∷ []) = Keeps-fail.keeps vm v
    by_chain vm v (s ∷ t ∷ env) = same_stacks vm _ refl refl refl v

pub Keeps-op_loop_enter : Keeps op_loop_enter
unfolding op_loop_enter
Keeps-op_loop_enter = record {
  keeps = λ vm v.
      Post-if (leb vm_loop_stack_max vm.loop_depth) _ _ (λ _. Keeps-fail.keeps vm v)
        λ room. record {
          stack = v.stack;
          calls = v.calls;
          loops = ground arith;
          frames = v.frames;
        };
}

pub Keeps-op_loop_exit : Keeps op_loop_exit
unfolding op_loop_exit
Keeps-op_loop_exit = record {
  keeps = λ vm v. record {
    stack = v.stack;
    calls = v.calls;
    loops = omega (arith, v.loops);
    frames = v.frames;
  };
}

pub Keeps-op_errexit_push : Keeps op_errexit_push
unfolding op_errexit_push
Keeps-op_errexit_push = record { keeps = λ vm v. same_stacks vm _ refl refl refl v }

pub Keeps-op_errexit_pop : Keeps op_errexit_pop
unfolding op_errexit_pop
Keeps-op_errexit_pop = record { keeps = λ vm v. same_stacks vm _ refl refl refl v }
