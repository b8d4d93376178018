-- ===== src/Exec/Variable.antt =====
-- src/exec/variable.c: variables, scopes and the chain of scopes.
-- A chain is the list of its scopes, the innermost first; `env == NULL` is the empty list. A
-- `variable_t *` that a table holds is owned by its slot alone, so a write through the pointer is a
-- write of that slot (`write`). The message on stderr is the Boolean of a result: true where the
-- code reports a readonly variable.
pub mod Chain
pub mod Assign
pub mod Others
pub mod Readonly
use Prim.Native.Nat.{bit_and, bit_or}
use opsh_actual.Base.{
  ℕ, ◌+◌, Bool, true, false, not, ◌&&◌, ◌||◌, Option, none, some, List, [], ◌∷◌, ◌++◌, Bytes, leb,
  ◌==◌, if◌then◌else◌,
}
use opsh_actual.Base.Run.{Run, ok, stop, undefined, ◌>>=◌}
use opsh_actual.Foundation.Hashtable.{
  Hashtable, ht_init, ht_get, ht_set, ht_remove, ht_foreach, insert,
}
use opsh_actual.Vm.Value.{Value}
use opsh_actual.Vm.Value

abbrev pub vf_export : ℕ
vf_export = 1

abbrev pub vf_readonly : ℕ
vf_readonly = 2

abbrev pub vf_prefix : ℕ
vf_prefix = 4

pub record Variable : Type 0 where
  pub name : Bytes
  pub value : Value
  pub flags : ℕ
  pub dirty : Bool
  pub host_origin : Bool

pub record Scope : Type 0 where
  pub vars : Hashtable Variable
  pub is_temporary : Bool

abbrev pub Environ : Type 0
Environ = List Scope

-- What a void function of the file leaves: the chain, and whether it reported a readonly variable.
abbrev pub Outcome : Type 0
Outcome = Environ × Bool

abbrev pub has_flag : ℕ → ℕ → Bool
has_flag flag flags = not (bit_and flags flag == 0)

abbrev pub is_readonly : Variable → Bool
is_readonly v = has_flag vf_readonly v.flags

abbrev pub variable_new : Bytes → Value → ℕ → Variable
variable_new name value flags = record {
  name = name;
  value = value;
  flags = flags;
  dirty = false;
  host_origin = false;
}

unfoldable pub environ_new : Environ → Bool → Environ
environ_new parent is_temporary = record { vars = ht_init; is_temporary = is_temporary } ∷ parent

unfoldable pub environ_get : Environ → Bytes → Run (Option Variable)
environ_get [] name = ok none
environ_get (s ∷ env) name =
    let outer = environ_get env name in
    ht_get s.vars name >>= λ found. elim found [ some v ↦ ok (some v) | none ↦ outer ]

abbrev pub reports : Option Variable → Bool
reports none = false
reports (some v) = is_readonly v

unfoldable pub check_readonly : Environ → Bytes → Run Bool
check_readonly env name = environ_get env name >>= λ found. ok (reports found)

-- A write through the pointer that the table holds under the name.
unfoldable pub write : Scope → Bytes → Variable → Run Scope
write s name v = insert s.vars name v >>= λ r. ok (record s { vars = r.1 })

-- `ht_set` with a new variable.
unfoldable pub create : Scope → Bytes → Variable → Run Scope
create s name v = ht_set s.vars name v >>= λ r. ok (record s { vars = r.1 })

unfoldable pub environ_set_flags : Environ → Bytes → Value → ℕ → Run Outcome
environ_set_flags [] name value flags = stop undefined
environ_set_flags (s ∷ env) name value flags = ht_get s.vars name >>= λ found. elim found [
  | some v ↦
      if is_readonly v
      then ok (s ∷ env, true)
      else write s name (record v { value = value; flags = bit_or v.flags flags }) >>= λ s'.
          ok (s' ∷ env, false)
  | none ↦ check_readonly env name >>= λ blocked.
      if blocked
      then ok (s ∷ env, true)
      else create s name (variable_new name value flags) >>= λ s'. ok (s' ∷ env, false)
]

unfoldable pub environ_set : Environ → Bytes → Value → Run Outcome
environ_set env name value = environ_set_flags env name value 0

-- The first loop of `environ_assign`; none where it runs off the chain.
unfoldable pub assign_existing : Environ → Bytes → Value → Run (Option Outcome)
assign_existing [] name value = ok none
assign_existing (s ∷ env) name value =
    let outer = assign_existing env name value in
    ht_get s.vars name >>= λ found. elim found [
      | some v ↦
          if is_readonly v
          then ok (some (s ∷ env, true))
          else write s name (record v { value = value }) >>= λ s'. ok (some (s' ∷ env, false))
      | none ↦
          outer >>= λ r. elim r [ none ↦ ok none | some (env', said) ↦ ok (some (s ∷ env', said)) ]
    ]

-- The second loop, to the outermost scope, and the `environ_set` there.
unfoldable pub set_global : Environ → Bytes → Value → Run Outcome
set_global [] name value = stop undefined
set_global (s ∷ []) name value = environ_set (s ∷ []) name value
set_global (s ∷ t ∷ env) name value = set_global (t ∷ env) name value >>= λ r. ok (s ∷ r.0, r.1)

unfoldable pub environ_assign : Environ → Bytes → Value → Run Outcome
environ_assign env name value = assign_existing env name value >>= λ r. elim r [
  | some done ↦ ok done
  | none ↦ set_global env name value
]

unfoldable pub environ_set_local : Environ → Bytes → Value → Run Environ
environ_set_local [] name value = stop undefined
environ_set_local (s ∷ env) name value = ht_get s.vars name >>= λ found. elim found [
  | some v ↦ write s name (record v { value = value }) >>= λ s'. ok (s' ∷ env)
  | none ↦ create s name (variable_new name value 0) >>= λ s'. ok (s' ∷ env)
]

unfoldable pub environ_export : Environ → Bytes → Run Environ
environ_export [] name = ok []
environ_export (s ∷ env) name =
    let outer = environ_export env name in
    ht_get s.vars name >>= λ found. elim found [
      | some v ↦
          write s name (record v { flags = bit_or v.flags vf_export }) >>= λ s'. ok (s' ∷ env)
      | none ↦ outer >>= λ env'. ok (s ∷ env')
    ]

unfoldable pub environ_unset : Environ → Bytes → Run Outcome
environ_unset [] name = ok ([], false)
environ_unset (s ∷ env) name =
    let outer = environ_unset env name in
    ht_get s.vars name >>= λ found. elim found [
      | some v ↦
          if is_readonly v
          then ok (s ∷ env, true)
          else ht_remove s.vars name >>= λ r. ok (record s { vars = r.1 } ∷ env, false)
      | none ↦ outer >>= λ r. ok (s ∷ r.0, r.1)
    ]

-- Positional parameters and special variables are not exported.
abbrev pub is_internal : Bytes → Bool
is_internal [] = false
is_internal (c ∷ _) = leb b'0' c && leb c b'9' || c == b'#' || c == b'?' || c == b'-'

-- The names seen so far, and the calls of `setenv`.
abbrev pub Exported : Type 0
Exported = Hashtable ℕ × List (Bytes × Bytes)

abbrev pub setenv : Value → Bytes → List (Bytes × Bytes) → List (Bytes × Bytes)
setenv (Value.string text) name out = out ++ (name, text) ∷ []
setenv _ name out = out

unfoldable pub export_var_cb : Variable → Exported → Run Exported
export_var_cb v (seen, out) =
    if not (has_flag (vf_export + vf_prefix) v.flags) || is_internal v.name
    then ok (seen, out)
    else ht_get seen v.name >>= λ found. elim found [
      | some _ ↦ ok (seen, out)
      | none ↦ ht_set seen v.name 1 >>= λ r. ok (r.1, setenv v.value v.name out)
    ]

-- The walk of `environ_export_to_c`, the innermost scope first.
unfoldable pub export_scopes : Environ → Run Exported → Run Exported
export_scopes [] st = st
export_scopes (s ∷ env) st =
    export_scopes env (ht_foreach s.vars (λ key v st'. (true, st' >>= export_var_cb v)) st)

unfoldable pub environ_export_to_c : Environ → Run (List (Bytes × Bytes))
environ_export_to_c env = export_scopes env (ok (ht_init, [])) >>= λ r. ok r.1
