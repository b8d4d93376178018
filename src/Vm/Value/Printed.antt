-- ===== src/Vm/Value/Printed.antt =====
-- A value as a string, and the string as an integer.
use opsh_actual.Base.{◌≡◌, refl}
use opsh_actual.Base.Decimal.Printed.{FitsInt64, strtoll-print_int}
use opsh_actual.Base.Decimal.{strtoll}
use opsh_actual.Vm.Value.{Value, value_to_string, value_to_integer}

abbrev pub HoldsInt64 : Value → Type 0
HoldsInt64 (Value.integer n) = FitsInt64 n
HoldsInt64 _ = Unit {0}

-- For every value, its integer is the integer of its string: going through the text, by the decimal
-- printer and strtoll, loses no 64-bit integer, and values that are no number give 0 both ways.
pub value_to_integer-value_to_string :
    (v : Value)
    → HoldsInt64 v
    → value_to_integer (Value.string (value_to_string v)) ≡ value_to_integer v
unfolding value_to_integer value_to_string strtoll
value_to_integer-value_to_string (Value.integer n) fits = strtoll-print_int n fits
value_to_integer-value_to_string (Value.string s) fits = refl
value_to_integer-value_to_string Value.none fits = refl
value_to_integer-value_to_string (Value.array elements) fits = refl
value_to_integer-value_to_string (Value.iterator elements position) fits = refl
