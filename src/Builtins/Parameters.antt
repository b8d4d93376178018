-- ===== src/Builtins/Parameters.antt =====
-- src/builtins/builtins.c: `shift`.
use opsh_actual.Base.{
  ℕ, zero, suc, ◌+◌, ◌-◌, ltb, if◌then◌else◌, Option, none, some, List, [], ◌∷◌, codes,
}
use opsh_actual.Base.Decimal.{print_nat}
use opsh_actual.Base.Int.{ℤ, pos, negsuc}
use opsh_actual.Base.Run.{Run, ok, ◌>>=◌}
use opsh_actual.Exec.Variable.{Environ, Variable, environ_get, environ_set, environ_unset}
use opsh_actual.Vm.Machine.{to_int}
use opsh_actual.Vm.Machine.Words.Groups.{param_count}
use opsh_actual.Vm.Value.{Value, value_to_integer, value_clone}

-- One parameter takes the value of the one `n` numbers further on, in the current scope.
abbrev move_param : Environ → ℕ → Option Variable → Run Environ
move_param env i none = ok env
move_param env i (some src) =
    environ_set env (print_nat i) (value_clone src.value) >>= λ (env', said). ok env'

-- `left` parameters from number `i` on.
unfoldable pub shift_params : ℕ → ℕ → ℕ → Environ → Run Environ
shift_params zero i n env = ok env
shift_params (suc left) i n env = environ_get env (print_nat (i + n)) >>= λ src.
    move_param env i src >>= λ env'. shift_params left (i + 1) n env'

unfoldable pub unset_params : ℕ → ℕ → Environ → Run Environ
unset_params zero i env = ok env
unset_params (suc left) i env =
    environ_unset env (print_nat i) >>= λ (env', said). unset_params left (i + 1) env'

abbrev pub shift_amount : List Value → ℤ
shift_amount [] = pos 1
shift_amount (name ∷ []) = pos 1
shift_amount (name ∷ v ∷ argv) = to_int (value_to_integer v)

-- `n` of `count` parameters; out of range it does nothing and fails.
unfoldable pub shift_by : ℤ → ℤ → Environ → Run (Environ × ℤ)
unfolding shift_params unset_params
shift_by (negsuc n) count env = ok (env, pos 1)
shift_by (pos n) (negsuc m) env = ok (env, pos 1)
shift_by (pos n) (pos count) env =
    if ltb count n
    then ok (env, pos 1)
    else (shift_params (count - n) 1 n env >>= λ moved.
        unset_params n (count - n + 1) moved >>= λ fewer.
        environ_set fewer (codes "#") (Value.string (print_nat (count - n))) >>= λ (env', said).
        ok (env', pos 0))

unfoldable pub builtin_shift : Environ → List Value → Run (Environ × ℤ)
unfolding shift_by
builtin_shift env argv =
    environ_get env (codes "#") >>= λ hash. shift_by (shift_amount argv) (param_count hash) env
