-- ===== src/Vm/Machine/Limits/Control.antt =====
-- The instructions for calls, tests and words keep the limits.
use opsh_actual.Base.{
  ℕ, zero, suc, ◌+◌, ◌≤◌, ◌<◌, refl, Bool, true, false, leb, ◌==◌, ◌&&◌, Option, none, some, List,
  [], ◌∷◌, ◌++◌, length, All, Bytes, arith,
}
use opsh_actual.Base.Run
use opsh_actual.Base.Run.{Run, ok, stop, in_bounds}
use opsh_actual.Base.Int.{pos}
use opsh_actual.Base.Decimal.{strtoll}
use opsh_actual.Vm.Value.{Value}
use opsh_actual.Exec.Variable.{Environ, Variable}
use opsh_actual.Vm.Machine.{Vm, CallFrame, TableFunc, vm_call_stack_max, vm_loop_stack_max}
use opsh_actual.Vm.Machine.Control.{
  Match, invalid, no_match, matched, op_exec_func, call, enter, image_of, call_env, op_ret, leave,
  keep_last, parent, op_test_binary, test_binary, op_pattern_match, set_status, compares, status_of,
  test_regex,
}
use opsh_actual.Vm.Machine.Words.{expand_op, op_expand_param}
use opsh_actual.Vm.Machine.Words.Split.{op_split_fields}
use opsh_actual.Vm.Machine.Words.Groups.{
  collect_groups, op_collect_words, push_params, op_expand_args,
}
use opsh_actual.Vm.Machine.Limits.Rules.{
  Keeps, Keeps-bind, Keeps-get_vm, Keeps-fail, Keeps-vm_push, Keeps-lift, Keeps-pure, Keeps-vm_pop,
  Keeps-if, Keeps-pop_values, Keeps-alloc_count, IsValid, Post, Post-if, same_stacks,
}
use opsh_actual.Vm.Machine.Limits.Handlers.{Keeps-set_status, handlers}

Keeps-enter : (f : TableFunc) (argv : List Value) → Keeps (enter f argv)
unfolding enter
Keeps-enter f argv = record {
  keeps = λ vm v.
      Post-if (leb vm_call_stack_max (length vm.call_stack)) _ _ (λ _. Keeps-fail.keeps vm v)
        λ room. entered vm v (ground arith) (call_env vm.env argv);
}
  where
    entered :
        (vm : Vm)
        → IsValid vm
        → length vm.call_stack < vm_call_stack_max
        → (r : Run Environ)
        → Post (
            Run.◌>>=◌ r λ env. ok (
              tt,
              record vm {
                image = image_of vm f;
                call_stack =
                    record {
                      return_ip = vm.ip;
                      saved_stack_base = length vm.stack;
                      saved_loop_depth = vm.loop_depth;
                      saved_image = vm.image;
                    }
                    ∷ vm.call_stack;
                env = env;
                ip = f.bytecode_offset;
              },
            ))
    entered vm v h (stop e) = tt
    entered vm v h (ok env) = record {
      stack = v.stack;
      calls = omega arith;
      loops = v.loops;
      frames = (v.loops, v.frames);
    }

Keeps-call : (b : Bool) (o : Option TableFunc) (argv : List Value) → Keeps (call b o argv)
Keeps-call true o argv = Keeps-set_status (pos 127)
Keeps-call false none argv = Keeps-lift (stop Run.out_of_bounds)
Keeps-call false (some f) argv = Keeps-enter f argv

pub Keeps-op_exec_func : Keeps op_exec_func
unfolding op_exec_func
Keeps-op_exec_func = search (handlers, Keeps-call) depth 14

keep_last-le : {A : Type 0} (base : ℕ) (xs : List A) → length (keep_last base xs) ≤ length xs
keep_last-le base [] = omega arith
keep_last-le base (x ∷ xs) = ground (arith, keep_last-le base xs)

pub Keeps-op_ret : Keeps op_ret
unfolding op_ret
Keeps-op_ret = record { keeps = λ vm v. by_frames vm v vm.call_stack v.calls v.frames }
  where
    left :
        (vm : Vm)
        → IsValid vm
        → (frame : CallFrame) (frames : List CallFrame) → length frames ≤ vm_call_stack_max
        → frame.saved_loop_depth ≤ vm_loop_stack_max
        → All (λ (f : CallFrame). f.saved_loop_depth ≤ vm_loop_stack_max) frames
        → (r : Run Environ)
        → Post (
            Run.◌>>=◌ r λ env. ok (
              tt,
              record vm {
                call_stack = frames;
                stack = keep_last frame.saved_stack_base vm.stack;
                loop_depth = frame.saved_loop_depth;
                env = env;
                ip = frame.return_ip;
                image = frame.saved_image;
              },
            ))
    left vm v frame frames few one others (stop e) = tt
    left vm v frame frames few one others (ok env) = record {
      stack = omega (arith, keep_last-le frame.saved_stack_base vm.stack, v.stack);
      calls = few;
      loops = one;
      frames = others;
    }

    by_frames :
        (vm : Vm)
        → IsValid vm
        → (frames : List CallFrame) → length frames ≤ vm_call_stack_max
        → All (λ (f : CallFrame). f.saved_loop_depth ≤ vm_loop_stack_max) frames
        → Post (leave frames vm)
    by_frames vm v [] few saved = same_stacks vm _ refl refl refl v
    by_frames vm v (frame ∷ frames) few (one, others) =
        left vm v frame frames (omega arith) one others (parent vm.env)

module _ (fnmatch : Bytes → Bytes → Bool) (file_test : ℕ → Bytes → Bytes → Bool)
    (regex : Bytes → Bytes → Match) where
  pub Keeps-op_pattern_match : Keeps (op_pattern_match fnmatch file_test regex)
  unfolding op_pattern_match
  Keeps-op_pattern_match = search handlers depth 14

  Keeps-test_regex : (m : Match) → Keeps (test_regex fnmatch file_test regex m)
  Keeps-test_regex invalid = Keeps-set_status _
  Keeps-test_regex no_match = search handlers depth 14
  Keeps-test_regex (matched groups) = search handlers depth 14

  Keeps-compared :
      (o : Option Bool)
      → Keeps (elim o [ none ↦ set_status (pos 1) | some holds ↦ set_status (status_of holds) ])
  Keeps-compared none = Keeps-set_status _
  Keeps-compared (some holds) = Keeps-set_status _

  Keeps-test_binary :
      (op : ℕ) (lhs rhs : Bytes) → Keeps (test_binary fnmatch file_test regex op lhs rhs)
  unfolding test_binary
  Keeps-test_binary op lhs rhs = Keeps-if (op == 30) (Keeps-set_status _) (
      Keeps-if (op == 31) (Keeps-set_status _) (
        Keeps-if (leb 50 op && leb op 52) (Keeps-set_status _) (
          Keeps-if (op == 60) (Keeps-test_regex (regex rhs lhs))
            (Keeps-compared (compares op (strtoll lhs) (strtoll rhs))))))

  pub Keeps-op_test_binary : Keeps (op_test_binary fnmatch file_test regex)
  unfolding op_test_binary
  Keeps-op_test_binary = search (handlers, Keeps-test_binary) depth 14

pub Keeps-op_split_fields : Keeps op_split_fields
unfolding op_split_fields
Keeps-op_split_fields = search handlers depth 14

Keeps-collect_groups : (n : ℕ) (vals : List Value) → Keeps (collect_groups n vals)
unfolding collect_groups
Keeps-collect_groups zero vals = Keeps-pure vals
Keeps-collect_groups (suc n) vals = Keeps-bind Keeps-vm_pop λ count.
    Keeps-bind (Keeps-alloc_count _)
      λ c. Keeps-bind (Keeps-pop_values c) λ group. Keeps-collect_groups n (group ++ vals)

pub Keeps-op_collect_words : Keeps op_collect_words
unfolding op_collect_words
Keeps-op_collect_words = search (handlers, Keeps-collect_groups) depth 14

Keeps-push_params : (left i : ℕ) → Keeps (push_params left i)
unfolding push_params
Keeps-push_params zero i = Keeps-pure tt
Keeps-push_params (suc left) i = Keeps-bind Keeps-get_vm λ vm.
    Keeps-bind (Keeps-lift _)
      λ var. Keeps-bind (Keeps-vm_push _) λ _. Keeps-push_params left (i + 1)

pub Keeps-op_expand_args : Keeps op_expand_args
unfolding op_expand_args
Keeps-op_expand_args = search (handlers, Keeps-push_params) depth 14

module _ (fnmatch : Bytes → Bytes → Bool) where
  Keeps-expand_op :
      (name : Bytes) (var : Option Variable) (op flags : ℕ)
      → Keeps (expand_op fnmatch name var op flags)
  unfolding expand_op
  Keeps-expand_op name var op flags = search handlers depth 30

  pub Keeps-op_expand_param : Keeps (op_expand_param fnmatch)
  unfolding op_expand_param
  Keeps-op_expand_param = search (handlers, Keeps-expand_op) depth 14
