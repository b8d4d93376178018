-- ===== src/Builtins/Condition.antt =====
-- src/builtins/builtins.c: `test` and `[`.
-- `test_file` asks the system about a file, by the operator's text; the result 0 is true.
use opsh_actual.Base.{
  ◌==◌, Bool, true, false, not, ◌||◌, if◌then◌else◌, Option, none, some, List, [], ◌∷◌, Bytes,
  codes, str_eq, map,
}
use opsh_actual.Base.Decimal.{strtoll}
use opsh_actual.Base.Int.{ℤ, pos, ltb_ℤ}
use opsh_actual.Vm.Value.{Value, value_to_string}
use opsh_actual.Vm.Machine.Control.{eq_ℤ, status_of}

abbrev no_text : Bytes → Bool
no_text [] = true
no_text (c ∷ s) = false

abbrev starts_option : Bytes → Bool
starts_option [] = false
starts_option (c ∷ s) = c == b'-'

-- The comparisons of two texts; an operator that is none of them is false.
unfoldable pub test_two : Bytes → Bytes → Bytes → Bool
test_two left op right =
    let l = strtoll left in
    let r = strtoll right in
    if str_eq op (codes "=") || str_eq op (codes "==")
    then str_eq left right
    else if str_eq op (codes "!=")
    then not (str_eq left right)
    else if str_eq op (codes "-eq")
    then eq_ℤ l r
    else if str_eq op (codes "-ne")
    then not (eq_ℤ l r)
    else if str_eq op (codes "-lt")
    then ltb_ℤ l r
    else if str_eq op (codes "-le")
    then not (ltb_ℤ r l)
    else if str_eq op (codes "-gt")
    then ltb_ℤ r l
    else if str_eq op (codes "-ge")
    then not (ltb_ℤ l r)
    else false

-- The last of the arguments, and those before it.
abbrev pub unsnoc : List Bytes → Option (List Bytes × Bytes)
unsnoc [] = none
unsnoc (a ∷ args) = elim (unsnoc args) [
  | none ↦ some ([], a)
  | some (front, last) ↦ some (a ∷ front, last)
]

module _ (test_file : Bytes → Bytes → Bool) where
  abbrev pub test_one : Bytes → Bytes → Bool
  test_one op arg =
      if str_eq op (codes "-n")
      then not (no_text arg)
      else if str_eq op (codes "-z")
      then no_text arg
      else if str_eq op (codes "!")
      then no_text arg
      else if starts_option op
      then test_file op arg
      else false

  -- By the number of arguments.
  unfoldable pub test_args : List Bytes → Bool
  unfolding test_two
  test_args [] = false
  test_args (s ∷ []) = not (no_text s)
  test_args (op ∷ arg ∷ []) = test_one op arg
  test_args (left ∷ op ∷ right ∷ []) = test_two left op right
  test_args (bang ∷ left ∷ op ∷ right ∷ []) =
      if str_eq bang (codes "!") then not (test_two left op right) else false
  test_args (a ∷ b ∷ c ∷ d ∷ e ∷ args) = false

  -- As `[`, the last argument must be `]`.
  unfoldable pub bracket_args : Option (List Bytes × Bytes) → ℤ
  unfolding test_args
  bracket_args none = pos 1
  bracket_args (some (args, last)) =
      if str_eq last (codes "]") then status_of (test_args args) else pos 2

  abbrev pub by_name : Bytes → List Bytes → ℤ
  by_name cmd_name [] = pos 1
  by_name cmd_name (a ∷ args) =
      if str_eq cmd_name (codes "[")
      then bracket_args (unsnoc (a ∷ args))
      else status_of (test_args (a ∷ args))

  unfoldable pub builtin_test : List Value → ℤ
  unfolding test_args bracket_args
  builtin_test [] = pos 1
  builtin_test (name ∷ argv) = by_name (value_to_string name) (map value_to_string argv)
