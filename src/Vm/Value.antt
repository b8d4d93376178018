-- ===== src/Vm/Value.antt =====
-- src/vm/value.c and include/opsh/value.h: the tagged union of the operand stack and of variables.
-- Strings are immutable, so the reference counts of src/foundation/rcstr.c are not in the model: a
-- retained string is the string.
pub mod Printed
use opsh_actual.Base.{ℕ, List, [], Bytes}
use opsh_actual.Base.Decimal.{print_int, strtoll}
use opsh_actual.Base.Int.{ℤ, pos}

-- `value_t` with its tag `valuetype_t`; an array's count is its length.
pub data Value : Type 0 where
  none : Value
  string : Bytes → Value
  integer : ℤ → Value
  array : List Bytes → Value
  iterator : List Bytes → ℕ → Value

unfoldable pub value_clone : Value → Value
value_clone none = none
value_clone (string s) = string s
value_clone (integer n) = integer n
value_clone (array elements) = array elements
value_clone (iterator elements position) = iterator elements position

unfoldable pub value_to_string : Value → Bytes
value_to_string (string s) = s
value_to_string (integer n) = print_int n
value_to_string none = []
value_to_string (array elements) = []
value_to_string (iterator elements position) = []

unfoldable pub value_to_integer : Value → ℤ
value_to_integer (integer n) = n
value_to_integer (string s) = strtoll s
value_to_integer none = pos 0
value_to_integer (array elements) = pos 0
value_to_integer (iterator elements position) = pos 0
