-- ===== src/Builtins/Declare.antt =====
-- src/builtins/builtins.c: `local`, `export`, `readonly` and `unset`.
-- Their status is always 0, also where a readonly variable refuses the change.
use Prim.Native.Nat.{bit_or}
use opsh_actual.Base.{◌==◌, if◌then◌else◌, Option, none, some, List, [], ◌∷◌, Bytes}
use opsh_actual.Base.Run.{Run, ok, ◌>>=◌}
use opsh_actual.Exec.Variable.{
  Environ, Variable, vf_readonly, environ_get, environ_set_flags, environ_assign, environ_set_local,
  environ_export, environ_unset,
}
use opsh_actual.Vm.Machine.Data.{write_found}
use opsh_actual.Vm.Value.{Value, value_to_string}

-- The name before the first `=`, and the value behind it if there is one.
abbrev pub assignment : Bytes → Bytes × Option Bytes
assignment [] = ([], none)
assignment (c ∷ s) =
    let (name, value) = assignment s in if c == b'=' then ([], some s) else (c ∷ name, value)

abbrev pub value_or_nothing : Option Bytes → Bytes
value_or_nothing none = []
value_or_nothing (some s) = s

-- The loop over the arguments behind the name.
unfoldable pub local_args : Environ → List Value → Run Environ
local_args env [] = ok env
local_args env (arg ∷ argv) =
    let (name, value) = assignment (value_to_string arg) in
    environ_set_local env name (Value.string (value_or_nothing value)) >>= λ env'.
    local_args env' argv

unfoldable pub builtin_local : Environ → List Value → Run Environ
unfolding local_args
builtin_local env [] = ok env
builtin_local env (name ∷ argv) = local_args env argv

-- With a value the variable is assigned before it is exported.
abbrev pub export_one : Environ → Bytes × Option Bytes → Run Environ
export_one env (name, none) = environ_export env name
export_one env (name, some s) =
    environ_assign env name (Value.string s) >>= λ (env', said). environ_export env' name

unfoldable pub export_args : Environ → List Value → Run Environ
export_args env [] = ok env
export_args env (arg ∷ argv) =
    export_one env (assignment (value_to_string arg)) >>= λ env'. export_args env' argv

unfoldable pub builtin_export : Environ → List Value → Run Environ
unfolding export_args
builtin_export env [] = ok env
builtin_export env (name ∷ argv) = export_args env argv

unfoldable pub unset_args : Environ → List Value → Run Environ
unset_args env [] = ok env
unset_args env (arg ∷ argv) =
    environ_unset env (value_to_string arg) >>= λ (env', said). unset_args env' argv

unfoldable pub builtin_unset : Environ → List Value → Run Environ
unfolding unset_args
builtin_unset env [] = ok env
builtin_unset env (name ∷ argv) = unset_args env argv

-- Without a value the flag is set where the variable is, or on a new one in the current scope.
abbrev set_readonly : Environ → Bytes → Option Variable → Run Environ
set_readonly env name (some var) =
    write_found env name (record var { flags = bit_or var.flags vf_readonly })
set_readonly env name none =
    environ_set_flags env name (Value.string []) vf_readonly >>= λ (env', said). ok env'

abbrev pub readonly_one : Environ → Bytes × Option Bytes → Run Environ
readonly_one env (name, none) = environ_get env name >>= set_readonly env name
readonly_one env (name, some s) =
    environ_set_flags env name (Value.string s) vf_readonly >>= λ (env', said). ok env'

unfoldable pub readonly_args : Environ → List Value → Run Environ
readonly_args env [] = ok env
readonly_args env (arg ∷ argv) =
    readonly_one env (assignment (value_to_string arg)) >>= λ env'. readonly_args env' argv

unfoldable pub builtin_readonly : Environ → List Value → Run Environ
unfolding readonly_args
builtin_readonly env [] = ok env
builtin_readonly env (name ∷ argv) = readonly_args env argv
