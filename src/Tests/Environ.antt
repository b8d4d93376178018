-- ===== src/Tests/Environ.antt =====
-- The chain of scopes on a function's scope over a global one.
use opsh_actual.Base.{◌≡◌, ◌≢◌, refl, false, none, some, [], ◌∷◌, codes}
use opsh_actual.Base.Run.{ok, Returns}
use opsh_actual.Exec.Variable.{
  Environ, Variable, environ_get, environ_set_flags, environ_assign, environ_set_local,
  environ_export, environ_unset, variable_new, reports,
}
use opsh_actual.Exec.Variable.Assign.{environ_assign-Assigns, environ_assign_outside, Assigns}
use opsh_actual.Exec.Variable.Chain.{Chain, lookup, own, Rewrites, Current, environ_get-lookup}
use opsh_actual.Exec.Variable.Others.{
  environ_set_flags-flagged, own_flagged, environ_set_local-localized, environ_export-exported,
  environ_unset-uncovered, flagged, localized, exported, uncovered,
}
use opsh_actual.Exec.Variable.Readonly.{unset, change, Keeps, change-Keeps}
use opsh_actual.Foundation.Hashtable.Grow.{ht_init-IsValid}
use opsh_actual.Tests.Fixture.{
  home, home_variable, home_scope, inner, scopes, scopes-Chain, scopes-Fits, scopes-lookup,
  inner-fits,
}
use opsh_actual.Vm.Value.{Value}

abbrev elsewhere : Value
elsewhere = Value.string (codes "/tmp")

scopes_more : scopes 0 ≢ []
scopes_more h = cc

locked_more : scopes 2 ≢ []
locked_more h = cc

environ_get-lookup_example : environ_get (scopes 0) home ≡ ok (lookup (scopes 0) home)
environ_get-lookup_example = environ_get-lookup (scopes 0) home (scopes-Chain 0)

environ_assign-Assigns_example :
    Returns
      (environ_assign (scopes 0) home elsewhere)
      (Assigns (scopes 0) home elsewhere (lookup (scopes 0) home))
environ_assign-Assigns_example =
    environ_assign-Assigns (scopes 0) home elsewhere scopes_more (scopes-Chain 0) (scopes-Fits 0)

environ_set_flags-flagged_example : Returns (environ_set_flags (scopes 2) home elsewhere 1) λ r.
    Chain r.0
    × (r.1 ≡ reports (lookup (scopes 2) home))
    × Rewrites
        (scopes 2)
        home
        (flagged home elsewhere 1 (own inner home) (lookup (home_scope 2 ∷ []) home))
        r.0
    × Current inner
        (home_scope 2 ∷ [])
        home
        (own_flagged home elsewhere 1 (own inner home) (lookup (home_scope 2 ∷ []) home))
        r.0
environ_set_flags-flagged_example =
    environ_set_flags-flagged inner (home_scope 2 ∷ []) home elsewhere 1 (scopes-Chain 2) inner-fits

environ_set_local-localized_example : Returns (environ_set_local (scopes 2) home elsewhere) λ r.
    Chain r
    × Rewrites (scopes 2) home (some (localized home elsewhere (own inner home))) r
    × Current inner (home_scope 2 ∷ []) home (some (localized home elsewhere (own inner home))) r
environ_set_local-localized_example =
    environ_set_local-localized inner (home_scope 2 ∷ []) home elsewhere (scopes-Chain 2) inner-fits

environ_export-exported_example :
    Returns
      (environ_export (scopes 0) home)
      λ r. Chain r × Rewrites (scopes 0) home (exported (lookup (scopes 0) home)) r
environ_export-exported_example = environ_export-exported (scopes 0) home (scopes-Chain 0)

environ_unset-uncovered_example : Returns (environ_unset (scopes 2) home) λ r.
    Chain r.0
    × (r.1 ≡ reports (lookup (scopes 2) home))
    × Rewrites (scopes 2) home (uncovered (scopes 2) home) r.0
environ_unset-uncovered_example = environ_unset-uncovered (scopes 2) home (scopes-Chain 2)

change-Keeps_example :
    Returns
      (change (unset home) (scopes 2))
      λ env'. Chain env' × Keeps (Value.string (codes "/root")) (lookup env' home)
change-Keeps_example =
    change-Keeps (Value.string (codes "/root")) (unset home) (scopes 2) home locked_more
      (scopes-Chain 2) (scopes-Fits 2) (home_variable 2, scopes-lookup 2, refl, refl)

-- Two new scopes: `x=...` in the inner one makes the variable in the outer one.
abbrev new : Environ
new = inner ∷ inner ∷ []

outside_more : (inner ∷ []) ≢ []
outside_more h = cc

new-lookup : lookup new home ≡ none
new-lookup = let (valid, empty) = ht_init-IsValid {V = Variable} in rw (empty home)

environ_assign_outside_example :
    (env' : Environ) × (environ_assign new home elsewhere ≡ ok (inner ∷ env', false))
    × (lookup env' home ≡ some (variable_new home elsewhere 0))
environ_assign_outside_example =
    environ_assign_outside inner (inner ∷ []) home elsewhere outside_more
      ((ht_init-IsValid {V = Variable}).0, ((ht_init-IsValid {V = Variable}).0, tt))
      (inner-fits, (inner-fits, tt)) new-lookup
