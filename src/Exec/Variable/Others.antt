-- ===== src/Exec/Variable/Others.antt =====
-- The other changes of a chain: a store in the current scope, `local`, `export` and `unset`.
use Prim.Native.Nat.{bit_or}
use opsh_actual.Base.{
  ℕ, ◌<◌, ◌^◌, ◌≡◌, refl, true, false, Option, none, some, [], ◌∷◌, Bytes, str_eq, str_eq→eq,
  if◌then◌else◌, inl, inr, Bool-cases, Option-cases,
}
use opsh_actual.Base.Run.{Returns}
use opsh_actual.Exec.Variable.Chain.{
  Chain, own, lookup, check_readonly-reports, write-Updates, create-Updates, Rewrites,
  Rewrites-self, Rewrites-outer, Updates-Rewrites, Current, Current-self, Current-Updates,
}
use opsh_actual.Exec.Variable.{
  Variable, Scope, Environ, is_readonly, reports, variable_new, vf_export, environ_set_flags,
  environ_set_local, environ_export, environ_unset,
}
use opsh_actual.Foundation.Hashtable.{Hashtable}
use opsh_actual.Foundation.Hashtable.Remove.{ht_remove-Removed}
use opsh_actual.Foundation.Hashtable.Valid.{ht_get-view}
use opsh_actual.Foundation.Hashtable.View.{view}
use opsh_actual.Vm.Value.{Value}

-- What `environ_set_flags` leaves under the name: by the current scope's own variable and by what
-- the scopes further out hold.
abbrev pub flagged : Bytes → Value → ℕ → Option Variable → Option Variable → Option Variable
flagged name value flags (some v) outer =
    some (if is_readonly v then v else record v { value = value; flags = bit_or v.flags flags })
flagged name value flags none outer =
    if reports outer then outer else some (variable_new name value flags)

-- The current scope's own variable of the name afterwards.
abbrev pub own_flagged : Bytes → Value → ℕ → Option Variable → Option Variable → Option Variable
own_flagged name value flags (some v) outer =
    some (if is_readonly v then v else record v { value = value; flags = bit_or v.flags flags })
own_flagged name value flags none outer =
    if reports outer then none else some (variable_new name value flags)

-- In a valid chain whose innermost table can still double, a store in the current scope returns; it is
-- refused, and reported, exactly if the innermost variable of the name is readonly, and then the
-- current scope has the variable of its own that it had, or none. Otherwise the current scope's own
-- variable takes the value and the flags, or is made with them, and the name reads as it. The current
-- scope's other variables and the scopes further out are what they were, all other names read as
-- before, and the tables stay valid.
pub environ_set_flags-flagged :
    (s : Scope) (env : Environ) (name : Bytes) (value : Value) (flags : ℕ)
    → Chain (s ∷ env)
    → s.vars.capacity < 2 ^ 63
    → Returns (environ_set_flags (s ∷ env) name value flags) λ r.
      Chain r.0
      × (r.1 ≡ reports (lookup (s ∷ env) name))
      × Rewrites (s ∷ env) name (flagged name value flags (own s name) (lookup env name)) r.0
      × Current s env name (own_flagged name value flags (own s name) (lookup env name)) r.0
unfolding environ_set_flags
environ_set_flags-flagged s env name value flags (here, outer) fits =
    elim (Option-cases (own s name)) [
      | inr (v, e) ↦ elim (Bool-cases (is_readonly v)) [
        | inl locked ↦ (
          (s ∷ env, true),
          rw (ht_get-view here name, e, locked),
          (
            (here, outer),
            rw (e, locked),
            rw (e, locked) (Rewrites-self (s ∷ env) name (rw e)),
            rw (e, locked) (Current-self s env name e),
          ),
        )
        | inr free ↦
            let (s', run, u) =
              write-Updates s name (record v { value = value; flags = bit_or v.flags flags }) here
                e in
            (
              (s' ∷ env, false),
              rw (ht_get-view here name, e, free, run),
              (
                (u.valid, outer),
                rw (e, free),
                rw (e, free) (Updates-Rewrites env u),
                rw (e, free) (Current-Updates env u),
              ),
            )
      ]
      | inl e ↦ elim (Bool-cases (reports (lookup env name))) [
        | inl locked ↦ (
          (s ∷ env, true),
          rw (ht_get-view here name, e, check_readonly-reports env name outer, locked),
          (
            (here, outer),
            rw (e, locked),
            rw (e, locked) (Rewrites-self (s ∷ env) name (rw e)),
            rw (e, locked) (Current-self s env name e),
          ),
        )
        | inr free ↦
            let (s', run, u) = create-Updates s name (variable_new name value flags) here fits in
            (
              (s' ∷ env, false),
              rw (ht_get-view here name, e, check_readonly-reports env name outer, free, run),
              (
                (u.valid, outer),
                rw (e, free),
                rw (e, free) (Updates-Rewrites env u),
                rw (e, free) (Current-Updates env u),
              ),
            )
      ]
    ]

abbrev pub localized : Bytes → Value → Option Variable → Variable
localized name value none = variable_new name value 0
localized name value (some v) = record v { value = value }

-- In a valid chain whose innermost table can still double, `local` returns and always takes effect:
-- the current scope's own variable takes the value, even if it is readonly, or a new one is made in
-- the current scope, and the name reads as it. The current scope's other variables and the scopes
-- further out are what they were, all other names read as before, and the tables stay valid.
pub environ_set_local-localized :
    (s : Scope) (env : Environ) (name : Bytes) (value : Value)
    → Chain (s ∷ env)
    → s.vars.capacity < 2 ^ 63
    → Returns (environ_set_local (s ∷ env) name value) λ r.
      Chain r
      × Rewrites (s ∷ env) name (some (localized name value (own s name))) r
      × Current s env name (some (localized name value (own s name))) r
unfolding environ_set_local
environ_set_local-localized s env name value (here, outer) fits = elim (Option-cases (own s name)) [
  | inr (v, e) ↦
      let (s', run, u) = write-Updates s name (record v { value = value }) here e in
      (
        s' ∷ env,
        rw (ht_get-view here name, e, run),
        ((u.valid, outer), rw e (Updates-Rewrites env u), rw e (Current-Updates env u)),
      )
  | inl e ↦
      let (s', run, u) = create-Updates s name (variable_new name value 0) here fits in
      (
        s' ∷ env,
        rw (ht_get-view here name, e, run),
        ((u.valid, outer), rw e (Updates-Rewrites env u), rw e (Current-Updates env u)),
      )
]

abbrev pub exported : Option Variable → Option Variable
exported none = none
exported (some v) = some (record v { flags = bit_or v.flags vf_export })

-- `export` returns and sets the export flag of the innermost variable of the name, if there is one;
-- all other names read as before, and the tables stay valid.
pub environ_export-exported :
    (env : Environ) (name : Bytes)
    → Chain env
    → Returns
        (environ_export env name)
        λ r. Chain r × Rewrites env name (exported (lookup env name)) r
unfolding environ_export
environ_export-exported [] name valid = ([], refl, (tt, Rewrites-self [] name refl))
environ_export-exported (s ∷ env) name (here, outer) = elim (Option-cases (own s name)) [
  | inr (v, e) ↦
      let (s', run, u) =
        write-Updates s name (record v { flags = bit_or v.flags vf_export }) here e in
      (
        s' ∷ env,
        rw (ht_get-view here name, e, run),
        ((u.valid, outer), rw e (Updates-Rewrites env u)),
      )
  | inl e ↦
      let (r, run, (valid, reads)) = environ_export-exported env name outer in
      (
        s ∷ r,
        rw (ht_get-view here name, e, run),
        ((here, valid), rw e (Rewrites-outer s env r name (exported (lookup env name)) e reads)),
      )
]

abbrev pub revealed : Option Variable → Option Variable → Option Variable → Option Variable
revealed (some v) outer deeper = if is_readonly v then some v else outer
revealed none outer deeper = deeper

-- What is seen under a name after `unset`: the next variable out, unless the first is readonly.
abbrev pub uncovered : Environ → Bytes → Option Variable
uncovered [] name = none
uncovered (s ∷ env) name = revealed (own s name) (lookup env name) (uncovered env name)

-- `unset` returns; afterwards the name reads as it does further out than its innermost variable, or
-- as before if that variable is readonly, and exactly that is reported. All other names read as before, and the tables
-- stay valid.
pub environ_unset-uncovered :
    (env : Environ) (name : Bytes)
    → Chain env
    → Returns (environ_unset env name) λ r.
      Chain r.0 × (r.1 ≡ reports (lookup env name)) × Rewrites env name (uncovered env name) r.0
unfolding environ_unset
environ_unset-uncovered [] name valid = (([], false), refl, (tt, refl, Rewrites-self [] name refl))
environ_unset-uncovered (s ∷ env) name (here, outer) = elim (Option-cases (own s name)) [
  | inr (v, e) ↦ elim (Bool-cases (is_readonly v)) [
    | inl locked ↦ (
      (s ∷ env, true),
      rw (ht_get-view here name, e, locked),
      ((here, outer), rw (e, locked), rw (e, locked) (Rewrites-self (s ∷ env) name (rw e))),
    )
    | inr free ↦
        let (r, run, (gone, wide, few)) = ht_remove-Removed here name in
        (
          (record s { vars = r.1 } ∷ env, false),
          rw (ht_get-view here name, e, free, run),
          ((gone.valid, outer), rw (e, free), rw (e, free) (removed r.1 gone.reads)),
        )
  ]
  | inl e ↦
      let (r, run, (valid, said, reads)) = environ_unset-uncovered env name outer in
      (
        (s ∷ r.0, r.1),
        rw (ht_get-view here name, e, run),
        (
          (here, valid),
          rw e said,
          rw e (Rewrites-outer s env r.0 name (uncovered env name) e reads),
        ),
      )
]
  where
    removed :
        (vars : Hashtable Variable)
        → ((q : Bytes) → view vars.entries q ≡ (if str_eq name q then none else own s q))
        → Rewrites (s ∷ env) name (lookup env name) (record s { vars = vars } ∷ env)
    removed vars reads q = elim (Bool-cases (str_eq name q)) [
      | inl same ↦ rw (reads q, same, str_eq→eq name q same)
      | inr other ↦ rw (reads q, other)
    ]
