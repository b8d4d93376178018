-- ===== src/Tests/Table.antt =====
-- The hash table on concrete keys.
use opsh_actual.Base.{
  length, Bytes, ℕ, ◌+◌, ◌*◌, ◌^◌, ◌≤◌, ◌≡◌, refl, none, some, List, [], ◌∷◌, codes, arith, str_eq,
}
use Prim.Native.Nat.{max}
use opsh_actual.Base.Run.{ok, Returns}
use opsh_actual.Foundation.Hashtable.{
  Hashtable, ht_fnv1a, ht_init, ht_get, probe, start, place, insert, reinsert, ht_resize, set_at,
  ht_set, shifts, backward_shift, unlink, ht_remove, ht_foreach,
}
use opsh_actual.Foundation.Hashtable.Grow.{ht_set-Stored}
use opsh_actual.Foundation.Hashtable.Insert.{Stored}
use opsh_actual.Foundation.Hashtable.Remove.{Removed, ht_remove-Removed}
use opsh_actual.Foundation.Util.{checked_mul, fitting, checked_mul_lem}
use opsh_actual.Tests.Fixture.{home, one, one_lem}
use opsh_actual.Foundation.Hashtable.Visits.{note, value_in, ht_foreach-note}
use opsh_actual.Foundation.Hashtable.Session.{
  Call, get, store, remove, calls, answers, calls-refine,
}

-- The published 32-bit FNV-1a value of "a".
fnv1a_a : ht_fnv1a (codes "a") ≡ 0xe40c292c
unfolding ht_fnv1a
fnv1a_a = refl

program : Unit {0}
unfolding ht_fnv1a ht_init ht_get start probe place insert reinsert ht_resize set_at ht_set shifts
    backward_shift unlink ht_remove str_eq calls
program = tt

abbrev a_few : List (Call ℕ)
a_few =
    store (codes "HOME") 1
    ∷ store (codes "PATH") 2
    ∷ store (codes "HOME") 3
    ∷ get (codes "HOME")
    ∷ remove (codes "PATH")
    ∷ get (codes "PATH")
    ∷ get (codes "HOME")
    ∷ []

a_few_run : calls a_few ht_init ≡ ok (none ∷ none ∷ some 1 ∷ some 3 ∷ some 2 ∷ none ∷ some 3 ∷ [])
unfolding program
a_few_run = refl

calls-refine_example : calls a_few ht_init ≡ ok (answers a_few (λ _. none))
calls-refine_example = calls-refine a_few (omega arith)

abbrev with_one : Hashtable ℕ
with_one = one 7

ht_remove-Removed_example :
    Returns (ht_remove with_one home) λ r.
      Removed with_one home r × (r.1.capacity ≡ with_one.capacity) × (r.1.count ≤ with_one.count)
ht_remove-Removed_example = ht_remove-Removed (one_lem 7).0 home

ht_set-Stored_example : Returns (ht_set with_one home 8) λ r.
    Stored with_one home 8 r
    × (r.1.count ≤ with_one.count + 1)
    × (r.1.capacity * 3 ≤ max (with_one.capacity * 3) (with_one.count * 8))
ht_set-Stored_example = ht_set-Stored with_one home 8 (one_lem 7).0 (one_lem 7).1

checked_mul_example : checked_mul (2 ^ 32) (2 ^ 32) ≡ fitting (2 ^ 32 * 2 ^ 32)
checked_mul_example = checked_mul_lem (2 ^ 32) (2 ^ 32)

ht_foreach-note_example :
    (length (ht_foreach with_one note []) ≡ with_one.count)
    × ((q : Bytes) → ht_get with_one q ≡ ok (value_in (ht_foreach with_one note []) q))
ht_foreach-note_example = ht_foreach-note with_one (one_lem 7).0
