-- ===== src/Exec/Variable/Assign.antt =====
-- `environ_assign`: POSIX assignment on the whole chain.
use opsh_actual.Base.{
  ◌<◌, ◌^◌, ◌≡◌, ◌≢◌, refl, sym, subst, ◌∙◌, ap, true, false, Option, none, some, [], ◌∷◌, Bytes,
  str_eq_refl, if◌then◌else◌, inl, inr, Bool-cases, Option-cases,
}
use opsh_actual.Base.Run.{ok, Returns}
use opsh_actual.Exec.Variable.Chain.{
  Chain, Fits, own, lookup, check_readonly-reports, Updates, write-Updates, create-Updates,
  Rewrites, Rewrites-self, Rewrites-outer, Updates-Rewrites, none_outer,
}
use opsh_actual.Exec.Variable.{
  Variable, Scope, Environ, Outcome, is_readonly, reports, variable_new, environ_set_flags,
  environ_set, assign_existing, set_global, environ_assign,
}
use opsh_actual.Foundation.Hashtable.{ht_get}
use opsh_actual.Foundation.Hashtable.Valid.{IsValid, ht_get-view}
use opsh_actual.Vm.Value.{Value}

-- The variable that an assignment leaves under the name.
abbrev pub assigned : Bytes → Value → Option Variable → Variable
assigned name value none = variable_new name value 0
assigned name value (some v) = if is_readonly v then v else record v { value = value }

-- What an assignment leaves of a chain that held `before` under the name.
pub record Assigns (env : Environ) (name : Bytes) (value : Value) (before : Option Variable)
    (r : Outcome) : Type 0 where
  pub valid : Chain r.0
  pub reported : r.1 ≡ reports before
  pub reads : Rewrites env name (some (assigned name value before)) r.0

-- The first loop stops where the name is found, and passes on a chain without it.
abbrev Existing : Environ → Bytes → Value → Option Outcome → Type 0
Existing env name value none = lookup env name ≡ none
Existing env name value (some r) =
    (v : Variable) × (lookup env name ≡ some v) × Assigns env name value (some v) r

-- A scope without the name in front of a chain.
Assigns-outer :
    {env : Environ} {name : Bytes} {value : Value} {before : Option Variable} {r : Outcome}
    (s : Scope)
    → IsValid s.vars
    → own s name ≡ none
    → Assigns env name value before r
    → Assigns (s ∷ env) name value before (s ∷ r.0, r.1)
Assigns-outer {env} {name} {value} {before} {r} s valid gone a = record {
  valid = (valid, a.valid);
  reported = a.reported;
  reads = Rewrites-outer s env r.0 name (some (assigned name value before)) gone a.reads;
}

-- An update of the innermost scope.
Updates-Assigns :
    {s s' : Scope} {name : Bytes} {v : Variable} (env : Environ) (value : Value)
    (before : Option Variable)
    → Chain env
    → Updates s name v s'
    → v ≡ assigned name value before
    → reports before ≡ false
    → Assigns (s ∷ env) name value before (s' ∷ env, false)
Updates-Assigns {s} {s'} {name} env value before outer u new quiet = record {
  valid = (u.valid, outer);
  reported = sym quiet;
  reads = subst (λ w. Rewrites (s ∷ env) name (some w) (s' ∷ env)) new (Updates-Rewrites env u);
}

-- A readonly variable is reported, and nothing changes.
refused-Assigns :
    (env : Environ) (name : Bytes) (value : Value) (v : Variable)
    → Chain env
    → lookup env name ≡ some v
    → is_readonly v ≡ true
    → Assigns env name value (some v) (env, true)
refused-Assigns env name value v valid held locked = record {
  valid = valid;
  reported = sym locked;
  reads = Rewrites-self env name (rw locked held);
}

assign_existing-Existing :
    (env : Environ) (name : Bytes) (value : Value)
    → Chain env
    → Returns (assign_existing env name value) (Existing env name value)
unfolding assign_existing
assign_existing-Existing [] name value valid = (none, refl, refl)
assign_existing-Existing (s ∷ env) name value (here, outer) = elim (Option-cases (own s name)) [
  | inr (v, e) ↦
      let held : lookup (s ∷ env) name ≡ some v = rw e in
      elim (Bool-cases (is_readonly v)) [
        | inl locked ↦ (
          some (s ∷ env, true),
          rw (ht_get-view here name, e, locked),
          (v, held, refused-Assigns (s ∷ env) name value v (here, outer) held locked),
        )
        | inr free ↦
            let (s', run, u) = write-Updates s name (record v { value = value }) here e in
            (
              some (s' ∷ env, false),
              rw (ht_get-view here name, e, free, run),
              (v, held, Updates-Assigns env value (some v) outer u (rw free) free),
            )
      ]
  | inl e ↦
      let (r, run, ends) = assign_existing-Existing env name value outer in
      let read = ht_get-view here name in past r read e run ends
]
  where
    past :
        (r : Option Outcome)
        → ht_get s.vars name ≡ ok (own s name)
        → own s name ≡ none
        → assign_existing env name value ≡ ok r
        → Existing env name value r
        → Returns (assign_existing (s ∷ env) name value) (Existing (s ∷ env) name value)
    past none read e run gone = (none, rw (read, e, run), rw e gone)
    past (some r) read e run (v, held, a) =
        (some (s ∷ r.0, r.1), rw (read, e, run), (v, rw e held, Assigns-outer s here e a))

environ_set-Assigns :
    (s : Scope) (name : Bytes) (value : Value)
    → IsValid s.vars
    → s.vars.capacity < 2 ^ 63
    → own s name ≡ none
    → Returns (environ_set (s ∷ []) name value) (Assigns (s ∷ []) name value none)
unfolding environ_set environ_set_flags
environ_set-Assigns s name value here fits e =
    let (s', run, u) = create-Updates s name (variable_new name value 0) here fits in
    (
      (s' ∷ [], false),
      rw (ht_get-view here name, e, check_readonly-reports [] name tt, run),
      Updates-Assigns [] value none tt u refl refl,
    )

set_global-Assigns :
    (env : Environ) (name : Bytes) (value : Value)
    → env ≢ []
    → Chain env
    → Fits env
    → lookup env name ≡ none
    → Returns (set_global env name value) (Assigns env name value none)
unfolding set_global
set_global-Assigns [] name value some' valid fits gone = absurd (some' refl)
set_global-Assigns (s ∷ []) name value some' (here, outer) (fit, fits) gone =
    environ_set-Assigns s name value here fit (none_outer (own s name) none gone).0
set_global-Assigns (s ∷ t ∷ env) name value some' (here, outer) (fit, fits) gone =
    let (mine, theirs) = none_outer (own s name) (lookup (t ∷ env) name) gone in
    let (r, run, a) = set_global-Assigns (t ∷ env) name value (λ h. cc) outer fits theirs in
    ((s ∷ r.0, r.1), rw run, Assigns-outer s here mine a)

assign_existing-none :
    (env : Environ) (name : Bytes) (value : Value)
    → Chain env
    → lookup env name ≡ none
    → assign_existing env name value ≡ ok none
assign_existing-none env name value valid gone =
    let (r, run, ends) = assign_existing-Existing env name value valid in
    run ∙ ap ok (is_none r ends)
  where
    is_none : (r : Option Outcome) → Existing env name value r → r ≡ none
    is_none none h = refl
    is_none (some r) (v, held, a) = absurd (cc)

-- In a valid chain of tables that can still double, an assignment returns; afterwards the name reads
-- as the old variable with the new value, or as the old variable if that was readonly, or as a new
-- variable if there was none. Exactly the assignment to a readonly one is reported. All other names
-- read as before, and the tables stay valid.
pub environ_assign-Assigns :
    (env : Environ) (name : Bytes) (value : Value)
    → env ≢ []
    → Chain env
    → Fits env
    → Returns (environ_assign env name value) (Assigns env name value (lookup env name))
unfolding environ_assign
environ_assign-Assigns env name value some' valid fits =
    let (r, run, ends) = assign_existing-Existing env name value valid in finish r run ends
  where
    finish :
        (r : Option Outcome)
        → assign_existing env name value ≡ ok r
        → Existing env name value r
        → Returns (environ_assign env name value) (Assigns env name value (lookup env name))
    finish none run gone =
        let (r, run', a) = set_global-Assigns env name value some' valid fits gone in
        (r, rw run run', rw gone a)
    finish (some r) run (v, held, a) = (r, rw run, rw held a)

-- Where no scope has the name, the current scope stays as it is if it has a parent: the new
-- variable stands further out, and outlives the current scope.
pub environ_assign_outside :
    (s : Scope) (env : Environ) (name : Bytes) (value : Value)
    → env ≢ []
    → Chain (s ∷ env)
    → Fits (s ∷ env)
    → lookup (s ∷ env) name ≡ none
    → (env' : Environ) × (environ_assign (s ∷ env) name value ≡ ok (s ∷ env', false))
      × (lookup env' name ≡ some (variable_new name value 0))
unfolding environ_assign set_global
environ_assign_outside s [] name value more valid fits gone = absurd (more refl)
environ_assign_outside s (t ∷ env) name value more (here, outer) (fit, fits) gone =
    let (mine, theirs) = none_outer (own s name) (lookup (t ∷ env) name) gone in
    let (r, run, a) = set_global-Assigns (t ∷ env) name value (λ h. cc) outer fits theirs in
    let missing = assign_existing-none (s ∷ t ∷ env) name value (here, outer) gone in
    (r.0, rw (missing, run, a.reported), rw str_eq_refl at (a.reads name))
