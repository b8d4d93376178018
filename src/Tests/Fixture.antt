-- ===== src/Tests/Fixture.antt =====
-- A table with one entry, and a chain of scopes with one variable.
use opsh_actual.Base.{
  ℕ, ◌^◌, ◌<◌, ◌≡◌, refl, sym, ◌∙◌, ap, subst, false, true, Option, some, [], ◌∷◌, codes, Bytes,
  arith, str_eq_refl,
}
use opsh_actual.Base.Run.{Run, ok}
use opsh_actual.Exec.Variable.{Variable, Scope, Environ}
use opsh_actual.Exec.Variable.Chain.{Chain, Fits, lookup}
use opsh_actual.Foundation.Hashtable.{Hashtable, ht_init, ht_set}
use opsh_actual.Foundation.Hashtable.Grow.{ht_init-IsValid, ht_set-Stored}
use opsh_actual.Foundation.Hashtable.Valid.{IsValid}
use opsh_actual.Foundation.Hashtable.View.{view}
use opsh_actual.Vm.Value.{Value}

abbrev pub home : Bytes
home = codes "HOME"

module _ {V : Type 0} where
  abbrev kept : Run (Option V × Hashtable V) → Hashtable V
  kept (ok r) = r.1
  kept _ = ht_init

  abbrev pub one : V → Hashtable V
  one v = kept (ht_set ht_init home v)

  pub one_lem :
      (v : V) → IsValid (one v) × ((one v).capacity < 2 ^ 63) × (view (one v).entries home ≡ some v)
  unfolding ht_init
  one_lem v =
      let (r, run, (stored, count, wide)) =
        ht_set-Stored ht_init home v (ht_init-IsValid {V = V}).0 (omega arith) in
      subst (λ t. IsValid t × (t.capacity < 2 ^ 63) × (view t.entries home ≡ some v))
        (sym (ap kept run))
        (stored.valid, omega (arith, wide), stored.reads home ∙ rw (str_eq_refl home) refl)

abbrev pub home_variable : ℕ → Variable
home_variable flags = record {
  name = home;
  value = Value.string (codes "/root");
  flags = flags;
  dirty = false;
  host_origin = false;
}

abbrev pub home_scope : ℕ → Scope
home_scope flags = record { vars = one (home_variable flags); is_temporary = false }

-- A function's scope over the global one, where HOME stands with the flags.
abbrev pub inner : Scope
inner = record { vars = ht_init; is_temporary = true }

abbrev pub scopes : ℕ → Environ
scopes flags = inner ∷ home_scope flags ∷ []

pub scopes-Chain : (flags : ℕ) → Chain (scopes flags)
scopes-Chain flags = ((ht_init-IsValid {V = Variable}).0, ((one_lem (home_variable flags)).0, tt))

pub inner-fits : inner.vars.capacity < 2 ^ 63
unfolding ht_init
inner-fits = omega arith

pub scopes-Fits : (flags : ℕ) → Fits (scopes flags)
scopes-Fits flags = (inner-fits, ((one_lem (home_variable flags)).1, tt))

pub scopes-lookup : (flags : ℕ) → lookup (scopes flags) home ≡ some (home_variable flags)
scopes-lookup flags =
    let (valid, empty) = ht_init-IsValid {V = Variable} in
    rw (empty home, (one_lem (home_variable flags)).2)
