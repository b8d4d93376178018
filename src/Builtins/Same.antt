-- ===== src/Builtins/Same.antt =====
-- `test` and `[[ ]]` on numbers.
use opsh_actual.Base.{ℕ, ◌≡◌, refl, Bool, [], ◌∷◌, Bytes, codes, str_eq}
use opsh_actual.Base.Run.{ok}
use opsh_actual.Vm.Value.{Value, value_to_string}
use opsh_actual.Vm.Machine.{Vm}
use opsh_actual.Vm.Machine.Control.{Match, test_binary}
use opsh_actual.Builtins.Condition.{builtin_test, test_args, test_two}

-- The comparisons of numbers: the text that `test` takes, and the number that the compiler gives to
-- `[[ ]]`.
pub data Comparison : Bytes → ℕ → Type 0 where
  equal : Comparison (codes "-eq") 40
  different : Comparison (codes "-ne") 41
  less : Comparison (codes "-lt") 42
  at_most : Comparison (codes "-le") 43
  greater : Comparison (codes "-gt") 44
  at_least : Comparison (codes "-ge") 45

-- `test` with two numbers and a comparison has the status that `[[ ]]` leaves in the machine, whatever
-- the operands are.
pub builtin_test-test_binary :
    (test_file : Bytes → Bytes → Bool) (fnmatch : Bytes → Bytes → Bool)
    (file_test : ℕ → Bytes → Bytes → Bool) (regex : Bytes → Bytes → Match) (text : Bytes) (op : ℕ)
    (left right : Value) (vm : Vm)
    → Comparison text op
    → test_binary fnmatch file_test regex op (value_to_string left) (value_to_string right) vm
      ≡ ok (
        tt,
        record vm {
          laststatus =
              builtin_test test_file
                (Value.string (codes "test") ∷ left ∷ Value.string text ∷ right ∷ []);
        },
      )
unfolding test_binary builtin_test test_args test_two str_eq value_to_string
builtin_test-test_binary tf f g r text op left right vm equal = refl
builtin_test-test_binary tf f g r text op left right vm different = refl
builtin_test-test_binary tf f g r text op left right vm less = refl
builtin_test-test_binary tf f g r text op left right vm at_most = refl
builtin_test-test_binary tf f g r text op left right vm greater = refl
builtin_test-test_binary tf f g r text op left right vm at_least = refl
