-- ===== src/Vm/Machine/Limits/Rules.antt =====
-- What keeps the limits: the steps of which the instructions are made.
use opsh_actual.Base.{
  ℕ, zero, suc, ◌+◌, ◌≤◌, ◌≡◌, refl, Bool, true, false, leb, ltb, if◌then◌else◌, Option, none, some,
  List, [], ◌∷◌, length, All, Bytes, arith, get_elem?,
}
use opsh_actual.Base.Run
use opsh_actual.Base.Run.{Run, ok, stop, in_bounds}
use opsh_actual.Base.Int.{ℤ, pos, negsuc, ◌+ℤ◌}
use opsh_actual.Vm.Value.{Value}
use opsh_actual.Exec.Variable.{Environ}
use opsh_actual.Vm.Machine.{
  Vm, M, CallFrame, vm_stack_max, vm_call_stack_max, vm_loop_stack_max, ◌>>=◌, pure, get_vm,
  put_env, by_option, set_env, lift, fail, vm_push, take_top, vm_pop, vm_peek, read_u8, read_u16,
  read_i32, jump_to, vm_jump, constant, pop_onto, pop_values, push_all, alloc_count,
}

pub record IsValid (vm : Vm) : Type 0 where
  pub stack : length vm.stack ≤ vm_stack_max
  pub calls : length vm.call_stack ≤ vm_call_stack_max
  pub loops : vm.loop_depth ≤ vm_loop_stack_max
  pub frames : All (λ (f : CallFrame). f.saved_loop_depth ≤ vm_loop_stack_max) vm.call_stack

-- Of every result there may be.
abbrev pub Post : {A : Type 0} → Run (A × Vm) → Type 0
Post (ok (a, vm)) = IsValid vm
Post (stop e) = Unit {0}

pub record Keeps {A : Type 0} (m : M A) : Type 0 where
  pub keeps : (vm : Vm) → IsValid vm → Post (m vm)

pub Keeps-pure : {A : Type 0} (a : A) → Keeps (pure a)
Keeps-pure a = record { keeps = λ vm v. v }

pub Keeps-bind :
    {A B : Type 0} {m : M A} {f : A → M B} → Keeps m → ((a : A) → Keeps (f a)) → Keeps (m >>= f)
Keeps-bind {A} {B} {m} {f} km kf = record { keeps = λ vm v. after (m vm) (km.keeps vm v) }
  where
    after : (r : Run (A × Vm)) → Post r → Post (Run.◌>>=◌ r (λ r. f r.0 r.1))
    after (ok (a, vm)) v = (kf a).keeps vm v
    after (stop e) v = tt

pub Keeps-get_vm : Keeps get_vm
Keeps-get_vm = record { keeps = λ vm v. v }

pub same_stacks :
    (vm vm' : Vm)
    → vm'.stack ≡ vm.stack
    → vm'.call_stack ≡ vm.call_stack
    → vm'.loop_depth ≡ vm.loop_depth
    → IsValid vm
    → IsValid vm'
same_stacks vm vm' e e' e'' v = record {
  stack = rw e v.stack;
  calls = rw e' v.calls;
  loops = rw e'' v.loops;
  frames = rw e' v.frames;
}

pub Keeps-lift : {A : Type 0} (r : Run A) → Keeps (lift r)
Keeps-lift (ok a) = record { keeps = λ vm v. v }
Keeps-lift (stop e) = record { keeps = λ vm v. tt }

pub Keeps-put_env : (env : Environ) → Keeps (put_env env)
Keeps-put_env env = record { keeps = λ vm v. same_stacks vm _ refl refl refl v }

pub Keeps-set_env : (r : Run (Environ × Bool)) → Keeps (set_env r)
Keeps-set_env (ok r) = record { keeps = λ vm v. same_stacks vm _ refl refl refl v }
Keeps-set_env (stop e) = record { keeps = λ vm v. tt }

pub Keeps-fail : Keeps fail
Keeps-fail = record { keeps = λ vm v. same_stacks vm _ refl refl refl v }

pub Keeps-if : {A : Type 0} (b : Bool) {m k : M A} → Keeps m → Keeps k → Keeps (if b then m else k)
Keeps-if true km kk = km
Keeps-if false km kk = kk

pub Keeps-by_option :
    {A B : Type 0} (o : Option B) {m : M A} {k : B → M A}
    → Keeps m
    → ((b : B) → Keeps (k b))
    → Keeps (by_option o m k)
unfolding by_option
Keeps-by_option none km kk = km
Keeps-by_option (some b) km kk = kk b

pub Post-if :
    {A : Type 0} (b : Bool) (x y : Run (A × Vm))
    → (b ≡ true → Post x)
    → (b ≡ false → Post y)
    → Post (if b then x else y)
Post-if true x y hx hy = hx refl
Post-if false x y hx hy = hy refl

pub Keeps-vm_push : (val : Value) → Keeps (vm_push val)
unfolding vm_push
Keeps-vm_push val = record {
  keeps = λ vm v.
      Post-if (leb vm_stack_max (length vm.stack)) _ _ (λ full. tt)
        λ room. record {
          stack = ground arith;
          calls = v.calls;
          loops = v.loops;
          frames = v.frames;
        };
}

pub Keeps-vm_pop : Keeps vm_pop
unfolding vm_pop
Keeps-vm_pop = record { keeps = λ vm v. popped vm v vm.stack v.stack }
  where
    popped :
        (vm : Vm)
        → IsValid vm
        → (stack : List Value) → length stack ≤ vm_stack_max
        → Post (take_top stack vm)
    popped vm v [] h = tt
    popped vm v (val ∷ stack) h = record {
      stack = omega arith;
      calls = v.calls;
      loops = v.loops;
      frames = v.frames;
    }

-- A read of the machine that leaves it as it is.
reads :
    {A : Type 0} (vm : Vm) (o : Option A) (e : Run.Stop)
    → IsValid vm
    → Post (elim o [ none ↦ stop e | some a ↦ ok (a, vm) ])
reads vm none e v = tt
reads vm (some a) e v = v

pub Keeps-vm_peek : (offset : ℕ) → Keeps (vm_peek offset)
unfolding vm_peek
Keeps-vm_peek offset = record { keeps = λ vm v. reads vm (get_elem? vm.stack offset) Run.aborted v }

pub Keeps-read_u8 : Keeps read_u8
unfolding read_u8
Keeps-read_u8 = record { keeps = λ vm v. next vm v (get_elem? vm.image.code vm.ip) }
  where
    next :
        (vm : Vm)
        → IsValid vm
        → (o : Option ℕ)
        → Post (elim o [ none ↦ stop Run.aborted | some b ↦ ok (b, record vm { ip = vm.ip + 1 }) ])
    next vm v none = tt
    next vm v (some b) = same_stacks vm _ refl refl refl v

pub Keeps-constant : (idx : ℕ) → Keeps (constant idx)
unfolding constant
Keeps-constant idx = record { keeps = λ vm v. found vm v (get_elem? vm.image.const_pool idx) }
  where
    found :
        (vm : Vm) → IsValid vm → (o : Option Bytes) → Post (Run.◌>>=◌ (in_bounds o) λ s. ok (s, vm))
    found vm v none = tt
    found vm v (some s) = v

pub Keeps-vm_jump : (offset : ℤ) → Keeps (vm_jump offset)
unfolding vm_jump
Keeps-vm_jump offset = record { keeps = λ vm v. to vm v (pos vm.ip +ℤ offset) }
  where
    to : (vm : Vm) → IsValid vm → (target : ℤ) → Post (jump_to target vm)
    to vm v (negsuc n) = same_stacks vm _ refl refl refl v
    to vm v (pos target) =
        Post-if (ltb (length vm.image.code) target) _ _ (λ _. same_stacks vm _ refl refl refl v)
          λ _. same_stacks vm _ refl refl refl v

pub Keeps-alloc_count : (n : ℤ) → Keeps (alloc_count n)
unfolding alloc_count
Keeps-alloc_count (pos n) = record { keeps = λ vm v. v }
Keeps-alloc_count (negsuc n) = record { keeps = λ vm v. tt }

pub Keeps-read_u16 : Keeps read_u16
unfolding read_u16
Keeps-read_u16 = Keeps-bind Keeps-read_u8 λ lo. Keeps-bind Keeps-read_u8 λ hi. Keeps-pure _

pub Keeps-read_i32 : Keeps read_i32
unfolding read_i32
Keeps-read_i32 = Keeps-bind Keeps-read_u8 λ b0.
    Keeps-bind Keeps-read_u8
      λ b1. Keeps-bind Keeps-read_u8 λ b2. Keeps-bind Keeps-read_u8 λ b3. Keeps-pure _

pub Keeps-pop_onto : (n : ℕ) (vals : List Value) → Keeps (pop_onto n vals)
unfolding pop_onto
Keeps-pop_onto zero vals = Keeps-pure vals
Keeps-pop_onto (suc n) vals = Keeps-bind Keeps-vm_pop λ v. Keeps-pop_onto n (v ∷ vals)

pub Keeps-pop_values : (n : ℕ) → Keeps (pop_values n)
unfolding pop_values
Keeps-pop_values n = Keeps-pop_onto n []

pub Keeps-push_all : (vals : List Value) → Keeps (push_all vals)
unfolding push_all
Keeps-push_all [] = Keeps-pure tt
Keeps-push_all (v ∷ vals) = Keeps-bind (Keeps-vm_push v) λ _. Keeps-push_all vals

pub ruleset rules = (
  Keeps-pure, Keeps-bind, Keeps-get_vm, Keeps-lift, Keeps-put_env, Keeps-set_env, Keeps-fail,
  Keeps-if, Keeps-by_option, Keeps-vm_push, Keeps-vm_pop, Keeps-vm_peek, Keeps-read_u8,
  Keeps-read_u16, Keeps-read_i32, Keeps-constant, Keeps-vm_jump, Keeps-alloc_count,
  Keeps-pop_values, Keeps-push_all,
)
