-- ===== src/Exec/Variable/Readonly.antt =====
-- A readonly variable keeps its value through every change of the chain but `local`.
use Prim.Native.Nat.{bit_and, bit_or}
use opsh_actual.Base.{
  ℕ, ◌≡◌, ◌≢◌, refl, ◌∙◌, ap, true, Option, none, some, [], ◌∷◌, Bytes, arith, str_eq, str_eq→eq,
  Bool-cases, inl, inr,
}
use opsh_actual.Base.Bits.{bit_and-two, bit_or-one}
use opsh_actual.Base.Run.{Run, ok, Returns, ◌>>=◌}
use opsh_actual.Exec.Variable.Assign.{environ_assign-Assigns, assigned}
use opsh_actual.Exec.Variable.Chain.{Chain, Fits, own, lookup, or_outer, Rewrites}
use opsh_actual.Exec.Variable.Others.{
  environ_set_flags-flagged, environ_export-exported, environ_unset-uncovered, uncovered, revealed,
  flagged, exported,
}
use opsh_actual.Exec.Variable.{
  Variable, Environ, is_readonly, vf_export, environ_set_flags, environ_assign, environ_export,
  environ_unset,
}
use opsh_actual.Vm.Value.{Value}

-- A change that a script can ask for.
pub data Change : Type 0 where
  set_flags : Bytes → Value → ℕ → Change
  assign : Bytes → Value → Change
  export unset : Bytes → Change

pub change : Change → Environ → Run Environ
change (set_flags name value flags) env = environ_set_flags env name value flags >>= λ r. ok r.0
change (assign name value) env = environ_assign env name value >>= λ r. ok r.0
change (export name) env = environ_export env name
change (unset name) env = environ_unset env name >>= λ r. ok r.0

-- Exporting sets another bit.
is_readonly-export :
    (v : Variable)
    → is_readonly v ≡ true
    → is_readonly (record v { flags = bit_or v.flags vf_export }) ≡ true
is_readonly-export v h =
    let same : bit_and (bit_or v.flags 1) 2 ≡ bit_and v.flags 2 =
      omega (arith, bit_and-two (bit_or v.flags 1), bit_and-two v.flags, bit_or-one v.flags) in
    rw same h

-- Some readonly variable with the value stands under the name.
abbrev pub Keeps : Value → Option Variable → Type 0
Keeps value o = (v : Variable) × (o ≡ some v) × (v.value ≡ value) × (is_readonly v ≡ true)

Keeps-eq : {value : Value} (o o' : Option Variable) → o' ≡ o → Keeps value o → Keeps value o'
Keeps-eq o o' e (v, held, same, locked) = (v, e ∙ held, same, locked)

Keeps-Rewrites :
    (env env' : Environ) (name : Bytes) (w : Option Variable) (q : Bytes) (value : Value)
    → Rewrites env name w env'
    → Keeps value (lookup env q)
    → (Keeps value (lookup env name) → Keeps value w)
    → Keeps value (lookup env' q)
Keeps-Rewrites env env' name w q value reads held same = elim (Bool-cases (str_eq name q)) [
  | inl e ↦
      Keeps-eq w (lookup env' q) (reads q ∙ rw e) (
        same
          (Keeps-eq (lookup env q) (lookup env name) (ap (lookup env) (str_eq→eq name q e)) held))
  | inr e ↦ Keeps-eq (lookup env q) (lookup env' q) (reads q ∙ rw e) held
]

module _ (value : Value) where
  assigned-Keeps :
      (name : Bytes) (new : Value) (o : Option Variable)
      → Keeps value o
      → Keeps value (some (assigned name new o))
  assigned-Keeps name new o (v, held, same, locked) = (v, rw (held, locked), same, locked)

  flagged-Keeps :
      (name : Bytes) (new : Value) (flags : ℕ) (o outer : Option Variable)
      → Keeps value (or_outer o outer)
      → Keeps value (flagged name new flags o outer)
  flagged-Keeps name new flags (some u) outer (v, held, same, locked) =
      let e : u ≡ v = cc in (v, rw (e, locked), same, locked)
  flagged-Keeps name new flags none outer (v, held, same, locked) =
      (v, rw (held, locked), same, locked)

  exported-Keeps : (o : Option Variable) → Keeps value o → Keeps value (exported o)
  exported-Keeps o (v, held, same, locked) =
      (record v { flags = bit_or v.flags vf_export }, rw held, same, is_readonly-export v locked)

  revealed-Keeps :
      (o outer deeper : Option Variable)
      → Keeps value (or_outer o outer)
      → (Keeps value outer → Keeps value deeper)
      → Keeps value (revealed o outer deeper)
  revealed-Keeps (some u) outer deeper (v, held, same, locked) down =
      let e : u ≡ v = cc in (v, rw (e, locked), same, locked)
  revealed-Keeps none outer deeper held down = down held

  uncovered-Keeps :
      (env : Environ) (name : Bytes)
      → Keeps value (lookup env name)
      → Keeps value (uncovered env name)
  uncovered-Keeps [] name held = held
  uncovered-Keeps (s ∷ env) name held =
      revealed-Keeps (own s name) (lookup env name) (uncovered env name) held
        (uncovered-Keeps env name)

  -- A change of a valid, non-empty chain that can still double returns a valid chain, in which a name
  -- that read as a readonly variable reads as a readonly one with the same value.
  pub change-Keeps :
      (c : Change) (env : Environ) (q : Bytes)
      → env ≢ []
      → Chain env
      → Fits env
      → Keeps value (lookup env q)
      → Returns (change c env) λ env'. Chain env' × Keeps value (lookup env' q)
  unfolding change
  change-Keeps c [] q more valid fits held = absurd (more refl)
  change-Keeps (set_flags name new flags) (s ∷ env) q more valid fits held =
      let (r, run, (valid', said, reads, current)) =
        environ_set_flags-flagged s env name new flags valid fits.0 in
      (
        r.0,
        rw run,
        (
          valid',
          Keeps-Rewrites (s ∷ env) r.0 name _ q value reads held
              (flagged-Keeps name new flags (own s name) (lookup env name)),
        ),
      )
  change-Keeps (assign name new) (s ∷ env) q more valid fits held =
      let (r, run, a) = environ_assign-Assigns (s ∷ env) name new more valid fits in
      (
        r.0,
        rw run,
        (
          a.valid,
          Keeps-Rewrites (s ∷ env) r.0 name _ q value a.reads held
              (assigned-Keeps name new (lookup (s ∷ env) name)),
        ),
      )
  change-Keeps (export name) (s ∷ env) q more valid fits held =
      let (r, run, (valid', reads)) = environ_export-exported (s ∷ env) name valid in
      (
        r,
        run,
        (
          valid',
          Keeps-Rewrites (s ∷ env) r name _ q value reads held
              (exported-Keeps (lookup (s ∷ env) name)),
        ),
      )
  change-Keeps (unset name) (s ∷ env) q more valid fits held =
      let (r, run, (valid', said, reads)) = environ_unset-uncovered (s ∷ env) name valid in
      (
        r.0,
        rw run,
        (
          valid',
          Keeps-Rewrites (s ∷ env) r.0 name _ q value reads held (uncovered-Keeps (s ∷ env) name),
        ),
      )
