-- ===== src/Vm/Machine/Words/Split.antt =====
-- src/vm/vm.c, OP_SPLIT_FIELDS: the splitting of a word by the characters of IFS.
use opsh_actual.Base.{
  ℕ, zero, suc, Bool, true, false, ◌==◌, if◌then◌else◌, not, ◌&&◌, ◌||◌, Option, none, some, List,
  [], ◌∷◌, ◌++◌, length, map, Bytes, codes,
}
use opsh_actual.Base.Int.{pos}
use opsh_actual.Base.Run.{Run, ok, stop, out_of_fuel, Returns}
use opsh_actual.Base.Run
use opsh_actual.Vm.Value.{Value, value_to_string}
use opsh_actual.Exec.Variable.{Variable, environ_get}
use opsh_actual.Vm.Machine.{M, ◌>>=◌, ◌>>◌, lift, get_vm, vm_push, vm_pop, push_all}

-- `strchr(ifs, c) != NULL` for a byte that is no NUL
unfoldable pub is_ifs : Bytes → ℕ → Bool
is_ifs [] c = false
is_ifs (d ∷ ifs) c = let rest = is_ifs ifs c in if d == c then true else rest

abbrev pub is_ifs_space : ℕ → Bool
is_ifs_space c = c == b' ' || c == b'\t' || c == b'\n'

unfoldable pub skip_ifs_space : Bytes → Bytes → Bytes
skip_ifs_space ifs [] = []
skip_ifs_space ifs (c ∷ s) =
    let rest = skip_ifs_space ifs s in if is_ifs ifs c && is_ifs_space c then rest else c ∷ s

-- The bytes up to the next character of IFS, and what begins there.
unfoldable pub take_field : Bytes → Bytes → Bytes × Bytes
take_field ifs [] = ([], [])
take_field ifs (c ∷ s) =
    let (field, rest) = take_field ifs s in if is_ifs ifs c then ([], c ∷ s) else (c ∷ field, rest)

-- An empty field behind a delimiter at the end.
abbrev pub last_field : Bytes → List Bytes
last_field [] = [] ∷ []
last_field (c ∷ s) = []

-- The delimiters behind a field: the empty field that a last one makes, and what follows them.
unfoldable pub skip_delimiters : Bytes → Bytes → List Bytes × Bytes
skip_delimiters ifs [] = ([], [])
skip_delimiters ifs (c ∷ s) =
    if is_ifs ifs c && not (is_ifs_space c)
    then (last_field (skip_ifs_space ifs s), skip_ifs_space ifs s)
    else ([], skip_ifs_space ifs (c ∷ s))

unfoldable pub split_loop : ℕ → Bytes → Bytes → Run (List Bytes)
split_loop fuel ifs [] = ok []
split_loop zero ifs (c ∷ s) = stop out_of_fuel
split_loop (suc fuel) ifs (c ∷ s) =
    let (field, behind) = take_field ifs (c ∷ s) in
    let (extra, rest) = skip_delimiters ifs behind in
    Run.◌>>=◌ (split_loop fuel ifs rest) λ fields. ok (field ∷ extra ++ fields)

-- Each field takes a byte of the string, with its delimiters.
unfoldable pub split : Bytes → Bytes → Run (List Bytes)
unfolding split_loop take_field skip_delimiters skip_ifs_space is_ifs
split ifs s = let p = skip_ifs_space ifs s in split_loop (length p) ifs p

-- IFS, or its default where it is unset or no string.
abbrev pub ifs_of : Option Variable → Bytes
ifs_of none = codes " \t\n"
ifs_of (some var) = elim var.value [ Value.string s ↦ s | _ ↦ codes " \t\n" ]

-- An empty IFS leaves the word whole.
abbrev pub fields_of : Bytes → Bytes → Run (List Bytes)
fields_of [] s = ok (s ∷ [])
fields_of (c ∷ ifs) s = split (c ∷ ifs) s

unfoldable pub op_split_fields : M (Unit {0})
op_split_fields = do
  val ← vm_pop
  vm ← get_vm
  ifs ← lift (environ_get vm.env (codes "IFS"))
  fields ← lift (fields_of (ifs_of ifs) (value_to_string val))
  push_all (map Value.string fields)
  vm_push (Value.integer (pos (length fields)))
