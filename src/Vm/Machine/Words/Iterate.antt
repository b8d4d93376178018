-- ===== src/Vm/Machine/Words/Iterate.antt =====
-- The words of a command or of a `for` loop: the groups on the stack, collected by OP_COLLECT_WORDS
-- and made an iterator by OP_INIT_ITER.
use mathlib.Core.List.{append_assoc, append-nil}
use native.Mathlib.Nat.{zero-add}
use opsh_actual.Base.{
  ◌+◌, ◌≤◌, ◌<◌, ◌≡◌, refl, ◌∙◌, false, ltb, some, List, [], ◌∷◌, ◌++◌, length, length-append,
  get_elem?, map, arith,
}
use opsh_actual.Base.Int.{pos}
use opsh_actual.Base.Run.{ok}
use opsh_actual.Vm.Value.{Value, value_to_string, value_to_integer}
use opsh_actual.Vm.Machine.{Vm, by_option, ◌>>◌, vm_stack_max, vm_pop, alloc_count}
use opsh_actual.Vm.Machine.Data.{op_init_iter, group_sizes}
use opsh_actual.Vm.Machine.Stack.{
  reverse_onto, with_stack, length-reverse_onto, vm_push_lem, push_all_lem, pop_values_lem,
  to_int_small, read_u16_lem,
}
use opsh_actual.Vm.Machine.Words.Groups.{collect_groups, op_collect_words}

abbrev counted : List Value → List Value → List Value
counted g st = Value.integer (pos (length g)) ∷ reverse_onto g st

-- The stack after each group was pushed and, behind its values, their number.
abbrev pub layout : List (List Value) → List Value → List Value
layout [] st = st
layout (g ∷ gs) st = layout gs (counted g st)

abbrev pub flatten : List (List Value) → List Value
flatten [] = []
flatten (g ∷ gs) = g ++ flatten gs

-- The same for the groups from the last to the first.
abbrev layout_back : List (List Value) → List Value → List Value
layout_back [] st = st
layout_back (g ∷ gs) st = counted g (layout_back gs st)

abbrev flatten_onto : List (List Value) → List Value → List Value
flatten_onto [] vals = vals
flatten_onto (g ∷ gs) vals = flatten_onto gs (g ++ vals)

layout_reversed :
    (gs done : List (List Value)) (st : List Value)
    → layout gs (layout_back done st) ≡ layout_back (reverse_onto gs done) st
layout_reversed [] done st = refl
layout_reversed (g ∷ gs) done st = layout_reversed gs (g ∷ done) st

flatten_reversed :
    (gs done : List (List Value)) (vals : List Value)
    → flatten_onto (reverse_onto gs done) vals ≡ flatten_onto done (flatten gs ++ vals)
flatten_reversed [] done vals = refl
flatten_reversed (g ∷ gs) done vals = flatten_reversed gs (g ∷ done) vals ∙ rw append_assoc

collect_groups_back :
    (gs : List (List Value)) (vals below : List Value) (vm : Vm)
    → length (layout_back gs below) ≤ vm_stack_max
    → collect_groups (length gs) vals (with_stack vm (layout_back gs below))
      ≡ ok (flatten_onto gs vals, with_stack vm below)
unfolding collect_groups vm_pop value_to_integer alloc_count
collect_groups_back [] vals below vm h = refl
collect_groups_back (g ∷ gs) vals below vm h =
    let sizes = length-reverse_onto g (layout_back gs below) in
    let small : length g ≤ vm_stack_max = omega arith in
    rw (to_int_small (length g) small, pop_values_lem g (layout_back gs below) vm)
      (collect_groups_back gs (g ++ vals) below vm (omega arith))

length-layout :
    (gs : List (List Value)) (st : List Value)
    → length (layout gs st) ≡ length st + length gs + length (flatten gs)
length-layout [] st = omega arith
length-layout (g ∷ gs) st =
    omega (
      arith,
      length-layout gs (counted g st),
      length-reverse_onto g st,
      length-append g (flatten gs),
    )

collect_groups_lem :
    (gs : List (List Value)) (below : List Value) (vm : Vm)
    → length (layout gs below) ≤ vm_stack_max
    → collect_groups (length gs) [] (with_stack vm (layout gs below))
      ≡ ok (flatten gs, with_stack vm below)
collect_groups_lem gs below vm h =
    let back = reverse_onto gs [] in
    let same : layout gs below ≡ layout_back back below = layout_reversed gs [] below in
    let size : length gs ≡ length back = omega (arith, length-reverse_onto gs []) in
    let flat : flatten_onto back [] ≡ flatten gs =
      flatten_reversed gs [] [] ∙ append-nil (flatten gs) in
    rw (same, size) (collect_groups_back back [] below vm (rw (← same) h) ∙ rw flat)

-- OP_COLLECT_WORDS, where the stack has each group of values with its number behind it, and on the
-- top the number of groups: it leaves the values of all groups in their order, and their number.
pub op_collect_words_lem :
    (gs : List (List Value)) (below : List Value) (vm : Vm)
    → length (layout gs below) < vm_stack_max
    → op_collect_words (with_stack vm (Value.integer (pos (length gs)) ∷ layout gs below))
      ≡ ok (tt, with_stack vm (counted (flatten gs) below))
unfolding op_collect_words vm_pop value_to_integer alloc_count
op_collect_words_lem gs below vm h =
    let sizes = length-layout gs below in
    let all = flatten gs in
    let pushed = length-reverse_onto all below in
    rw (to_int_small (length gs) (omega arith), collect_groups_lem gs below vm (omega arith))
      (rw (push_all_lem all (with_stack vm below) (omega arith))
        (vm_push_lem _ (with_stack vm (reverse_onto all below)) (omega arith)))

op_init_iter_lem :
    (fields below : List Value) (vm : Vm)
    → get_elem? vm.image.code vm.ip ≡ some 1
    → get_elem? vm.image.code (vm.ip + 1) ≡ some 0
    → length fields + length below < vm_stack_max
    → op_init_iter (with_stack vm (counted fields below))
      ≡ ok (
        tt,
        with_stack
            (record vm { ip = vm.ip + 1 + 1 })
            (Value.iterator (map value_to_string fields) 0 ∷ below),
      )
unfolding op_init_iter group_sizes by_option vm_pop value_to_integer
op_init_iter_lem fields below vm e e' h =
    let few : ltb vm_stack_max (length fields) ≡ false = ground arith in
    let vm' : Vm = record vm { ip = vm.ip + 1 + 1 } in
    rw (read_u16_lem 1 0 (with_stack vm (counted fields below)) e e') (
      rw (few, zero-add (length fields))
        (rw (pop_values_lem fields below vm') (
          vm_push_lem (Value.iterator (map value_to_string fields) 0) (with_stack vm' below)
            (omega arith))))

-- Where the stack has, for each word, its values with their number behind them, and on the top the
-- number of words, and the whole fits, OP_COLLECT_WORDS followed by the one-group OP_INIT_ITER
-- leaves in their place an iterator over the texts of all the values in the order of the words.
pub words-iterate :
    (gs : List (List Value)) (below : List Value) (vm : Vm)
    → length (layout gs below) < vm_stack_max
    → get_elem? vm.image.code vm.ip ≡ some 1
    → get_elem? vm.image.code (vm.ip + 1) ≡ some 0
    → (op_collect_words >> op_init_iter)
        (with_stack vm (Value.integer (pos (length gs)) ∷ layout gs below))
      ≡ ok (
        tt,
        with_stack
            (record vm { ip = vm.ip + 1 + 1 })
            (Value.iterator (map value_to_string (flatten gs)) 0 ∷ below),
      )
words-iterate gs below vm h e e' =
    let sizes = length-layout gs below in
    rw (op_collect_words_lem gs below vm h)
      (op_init_iter_lem (flatten gs) below vm e e' (omega arith))
