-- ===== src/Tests/Commands.antt =====
-- The builtins on small arguments.
use opsh_actual.Base.{◌≡◌, refl, Bool, true, false, [], ◌∷◌, Bytes, codes, str_eq}
use opsh_actual.Base.Decimal.{print_nat, print_int, strtoll, read_digits}
use opsh_actual.Base.Int.{pos}
use opsh_actual.Base.Run.{ok}
use opsh_actual.Vm.Value.{Value, value_to_string, value_to_integer}
use opsh_actual.Vm.Machine.Control.{no_match, test_binary}
use opsh_actual.Vm.Machine.Dispatch.{vm_init}
use opsh_actual.Vm.Image.{image_new}
use opsh_actual.Builtins.Condition.{builtin_test, bracket_args, test_args, test_two}
use opsh_actual.Builtins.Format.{builtin_printf, format}
use opsh_actual.Builtins.Same.{less, builtin_test-test_binary}

program : Unit {0}
unfolding str_eq print_nat print_int strtoll read_digits value_to_string value_to_integer
    builtin_test bracket_args test_args test_two builtin_printf format
program = tt

abbrev word : Bytes → Value
word s = Value.string s

printed :
    builtin_printf (
      word (codes "printf")
      ∷ word (codes "%s=%d\\n%%%x")
      ∷ word (codes "a")
      ∷ word (codes "12z")
      ∷ [])
    ≡ codes "a=12\n%%x"
unfolding program
printed = refl

-- `[ ! -f x ]` is false whether the file exists or not.
negated :
    (exists : Bool)
    → builtin_test
        (λ op path. exists)
        (word (codes "[")
          ∷ word (codes "!")
          ∷ word (codes "-f")
          ∷ word (codes "x")
          ∷ word (codes "]")
          ∷ [])
      ≡ pos 1
unfolding program
negated exists = refl

unclosed : builtin_test (λ op path. true) (word (codes "[") ∷ word (codes "a") ∷ []) ≡ pos 2
unfolding program
unclosed = refl

builtin_test-test_binary_example :
    test_binary str_eq
      (λ op a b. false)
      (λ re s. no_match)
      42
      (codes "9")
      (codes "10")
      (vm_init image_new)
    ≡ ok (tt, record (vm_init image_new) { laststatus = pos 0 })
unfolding program
builtin_test-test_binary_example =
    builtin_test-test_binary (λ op path. true) str_eq (λ op a b. false) (λ re s. no_match)
      (codes "-lt") 42 (word (codes "9")) (word (codes "10")) (vm_init image_new) less
