-- ===== src/Builtins/Format.antt =====
-- src/builtins/builtins.c: `printf`.
-- The bytes written to the standard output are the result.
use opsh_actual.Base.{ℕ, ◌==◌, if◌then◌else◌, List, [], ◌∷◌, ◌++◌, Bytes}
use opsh_actual.Base.Decimal.{print_int}
use opsh_actual.Vm.Value.{Value, value_to_string, value_to_integer}

-- What follows a backslash, which may be the end.
abbrev pub escaped : ℕ → Bytes
escaped c =
    if c == b'n'
    then 10 ∷ []
    else if c == b't'
    then 9 ∷ []
    else if c == b'\\'
    then b'\\' ∷ []
    else b'\\' ∷ c ∷ []

abbrev pub text_argument : List Value → Bytes
text_argument [] = []
text_argument (v ∷ args) = value_to_string v

abbrev pub number_argument : List Value → Bytes
number_argument [] = []
number_argument (v ∷ args) = print_int (value_to_integer v)

abbrev pub next_arguments : List Value → List Value
next_arguments [] = []
next_arguments (v ∷ args) = args

-- A directive that is not known stands for itself, and its letter is read as text.
unfoldable pub format : Bytes → List Value → Bytes
format [] args = []
format (c ∷ []) args = c ∷ []
format (c ∷ d ∷ p) args =
    let same = format p args in
    let next = format p (next_arguments args) in
    let as_text = format (d ∷ p) args in
    if c == b'\\'
    then escaped d ++ same
    else if c == b'%'
    then (if d == b's'
        then text_argument args ++ next
        else if d == b'd'
        then number_argument args ++ next
        else if d == b'%'
        then b'%' ∷ same
        else b'%' ∷ as_text)
    else c ∷ as_text

-- The output; the status is always 0.
unfoldable pub builtin_printf : List Value → Bytes
unfolding format
builtin_printf [] = []
builtin_printf (name ∷ []) = []
builtin_printf (name ∷ fmt ∷ args) = format (value_to_string fmt) args
