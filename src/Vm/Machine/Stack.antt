-- ===== src/Vm/Machine/Stack.antt =====
-- The operand stack: values pushed, and popped again.
use mathlib.Core.List.{append-nil}
use opsh_actual.Base.{
  ℕ, ◌+◌, ◌*◌, ◌≤◌, ◌<◌, ◌≡◌, refl, ◌∙◌, false, leb, some, List, [], ◌∷◌, ◌++◌, length, get_elem?,
  arith,
}
use opsh_actual.Base.Int.{pos}
use opsh_actual.Base.Run.{ok}
use opsh_actual.Vm.Value.{Value}
use opsh_actual.Vm.Machine.{
  Vm, vm_stack_max, vm_push, vm_pop, read_u8, read_u16, pop_onto, pop_values, push_all, to_int,
}

-- The values on the stack, the last on the top.
abbrev pub reverse_onto {ℓ} : {A : Type ℓ} → List A → List A → List A
reverse_onto [] ys = ys
reverse_onto (x ∷ xs) ys = reverse_onto xs (x ∷ ys)

module _ {ℓ} {A : Type ℓ} where
  pub length-reverse_onto : (xs ys : List A) → length (reverse_onto xs ys) ≡ length xs + length ys
  length-reverse_onto [] ys = omega arith
  length-reverse_onto (x ∷ xs) ys = omega (arith, length-reverse_onto xs (x ∷ ys))

  reverse_onto-append : (xs ys zs : List A) → reverse_onto xs (ys ++ zs) ≡ reverse_onto xs ys ++ zs
  reverse_onto-append [] ys zs = refl
  reverse_onto-append (x ∷ xs) ys zs = reverse_onto-append xs (x ∷ ys) zs

  reverse_onto_back :
      (xs ys zs : List A) → reverse_onto (reverse_onto xs ys) zs ≡ reverse_onto ys (xs ++ zs)
  reverse_onto_back [] ys zs = refl
  reverse_onto_back (x ∷ xs) ys zs = reverse_onto_back xs (x ∷ ys) zs

abbrev pub with_stack : Vm → List Value → Vm
with_stack vm stack = record vm { stack = stack }

pub vm_push_lem :
    (v : Value) (vm : Vm)
    → length vm.stack < vm_stack_max
    → vm_push v vm ≡ ok (tt, with_stack vm (v ∷ vm.stack))
unfolding vm_push
vm_push_lem v vm h = let room : leb vm_stack_max (length vm.stack) ≡ false = ground arith in rw room

pub push_all_lem :
    (vals : List Value) (vm : Vm)
    → length vals + length vm.stack ≤ vm_stack_max
    → push_all vals vm ≡ ok (tt, with_stack vm (reverse_onto vals vm.stack))
unfolding push_all
push_all_lem [] vm h = refl
push_all_lem (v ∷ vals) vm h =
    rw (vm_push_lem v vm (omega arith))
      (push_all_lem vals (with_stack vm (v ∷ vm.stack)) (omega arith))

pop_onto_lem :
    (top vals below : List Value) (vm : Vm)
    → pop_onto (length top) vals (with_stack vm (top ++ below))
      ≡ ok (reverse_onto top vals, with_stack vm below)
unfolding pop_onto vm_pop
pop_onto_lem [] vals below vm = refl
pop_onto_lem (v ∷ top) vals below vm = pop_onto_lem top (v ∷ vals) below vm

-- Values that were pushed are popped in the order in which they were pushed.
pub pop_values_lem :
    (vals below : List Value) (vm : Vm)
    → pop_values (length vals) (with_stack vm (reverse_onto vals below))
      ≡ ok (vals, with_stack vm below)
unfolding pop_values
pop_values_lem vals below vm =
    let top = reverse_onto vals [] in
    let size : length vals ≡ length top = omega (arith, length-reverse_onto vals []) in
    let back : reverse_onto top [] ≡ vals = reverse_onto_back vals [] [] ∙ append-nil vals in
    rw (size, reverse_onto-append vals [] below) (pop_onto_lem top [] below vm ∙ rw back)

pub to_int_small : (n : ℕ) → n ≤ vm_stack_max → to_int (pos n) ≡ pos n
unfolding to_int
to_int_small n h = ground arith

pub read_u8_lem :
    (b : ℕ) (vm : Vm)
    → get_elem? vm.image.code vm.ip ≡ some b
    → read_u8 vm ≡ ok (b, record vm { ip = vm.ip + 1 })
unfolding read_u8
read_u8_lem b vm e = rw (e, read_u8)

pub read_u16_lem :
    (lo hi : ℕ) (vm : Vm)
    → get_elem? vm.image.code vm.ip ≡ some lo
    → get_elem? vm.image.code (vm.ip + 1) ≡ some hi
    → read_u16 vm ≡ ok (lo + hi * 256, record vm { ip = vm.ip + 1 + 1 })
unfolding read_u16
read_u16_lem lo hi vm e e' =
    rw (read_u8_lem lo vm e) (rw (read_u8_lem hi (record vm { ip = vm.ip + 1 }) e') refl)
