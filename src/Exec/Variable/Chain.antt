-- ===== src/Exec/Variable/Chain.antt =====
-- What a chain of scopes stands for, and the reads and single writes of it.
use opsh_actual.Base.{
  ◌^◌, ◌<◌, ◌≡◌, refl, ap, Bool, Option, none, some, [], ◌∷◌, Bytes, subst, str_eq, str_eq→eq,
  if◌then◌else◌, inl, inr, Bool-cases, Option-cases,
}
use opsh_actual.Base.Run.{ok, Returns}
use opsh_actual.Exec.Variable.{
  Variable, Scope, Environ, environ_new, environ_get, check_readonly, reports, write, create,
}
use opsh_actual.Foundation.Hashtable.Grow.{ht_init-IsValid, ht_set-Stored}
use opsh_actual.Foundation.Hashtable.Insert.{insert_present}
use opsh_actual.Foundation.Hashtable.Valid.{IsValid, ht_get-view}
use opsh_actual.Foundation.Hashtable.View.{view}

-- Every table of the chain is valid.
abbrev pub Chain : Environ → Type 0
Chain [] = Unit
Chain (s ∷ env) = IsValid s.vars × Chain env

-- No table is near the size at which doubling overflows, which no memory holds.
abbrev pub Fits : Environ → Type 0
Fits [] = Unit
Fits (s ∷ env) = (s.vars.capacity < 2 ^ 63) × Fits env

abbrev pub or_outer {ℓ} : {A : Type ℓ} → Option A → Option A → Option A
or_outer none o = o
or_outer (some a) o = some a

-- The variable of a scope, and of a chain: the innermost scope that has the name wins.
abbrev pub own : Scope → Bytes → Option Variable
own s q = view s.vars.entries q

abbrev pub lookup : Environ → Bytes → Option Variable
lookup [] q = none
lookup (s ∷ env) q = or_outer (own s q) (lookup env q)

-- The walk up the chain finds the innermost variable of the name.
pub environ_get-lookup :
    (env : Environ) (q : Bytes) → Chain env → environ_get env q ≡ ok (lookup env q)
unfolding environ_get
environ_get-lookup [] q valid = refl
environ_get-lookup (s ∷ env) q (here, outer) = elim (Option-cases (own s q)) [
  | inl e ↦ rw (ht_get-view here q, e) (environ_get-lookup env q outer)
  | inr (v, e) ↦ rw (ht_get-view here q, e)
]

pub check_readonly-reports :
    (env : Environ) (q : Bytes) → Chain env → check_readonly env q ≡ ok (reports (lookup env q))
unfolding check_readonly
check_readonly-reports env q valid = rw (environ_get-lookup env q valid)

-- One scope after a write under a name.
pub record Updates (s : Scope) (name : Bytes) (v : Variable) (s' : Scope) : Type 0 where
  pub valid : IsValid s'.vars
  pub reads : (q : Bytes) → own s' q ≡ (if str_eq name q then some v else own s q)
  pub kind : s'.is_temporary ≡ s.is_temporary

pub write-Updates :
    (s : Scope) (name : Bytes) (v : Variable) {old : Variable}
    → IsValid s.vars
    → own s name ≡ some old
    → Returns (write s name v) (Updates s name v)
unfolding write
write-Updates s name v valid held =
    let (r, run, (stored, wide, count)) = insert_present s.vars name v valid held in
    (
      record s { vars = r.1 },
      rw run,
      record { valid = stored.valid; reads = stored.reads; kind = refl },
    )

pub create-Updates :
    (s : Scope) (name : Bytes) (v : Variable)
    → IsValid s.vars
    → s.vars.capacity < 2 ^ 63
    → Returns (create s name v) (Updates s name v)
unfolding create
create-Updates s name v valid fits =
    let (r, run, (stored, count, wide)) = ht_set-Stored s.vars name v valid fits in
    (
      record s { vars = r.1 },
      rw run,
      record { valid = stored.valid; reads = stored.reads; kind = refl },
    )

-- A new scope hides nothing.
pub environ_new-lookup :
    (env : Environ) (temporary : Bool) (q : Bytes)
    → Chain env
    → Chain (environ_new env temporary) × (lookup (environ_new env temporary) q ≡ lookup env q)
unfolding environ_new
environ_new-lookup env temporary q valid =
    let (new, empty) = ht_init-IsValid {V = Variable} in
    ((new, valid), ap (λ o. or_outer o (lookup env q)) (empty q))

-- The chain reads as before but at one name.
abbrev pub Rewrites : Environ → Bytes → Option Variable → Environ → Type 0
Rewrites env name w env' = (q : Bytes) → lookup env' q ≡ (if str_eq name q then w else lookup env q)

pub Rewrites-self :
    (env : Environ) (name : Bytes) {w : Option Variable}
    → lookup env name ≡ w
    → Rewrites env name w env
Rewrites-self env name {w} held q = elim (Bool-cases (str_eq name q)) [
  | inl same ↦ rw same (subst (λ k. lookup env k ≡ w) (str_eq→eq name q same) held)
  | inr other ↦ rw other
]

-- Behind a scope without the name.
pub Rewrites-outer :
    (s : Scope) (env env' : Environ) (name : Bytes) (w : Option Variable)
    → own s name ≡ none
    → Rewrites env name w env'
    → Rewrites (s ∷ env) name w (s ∷ env')
Rewrites-outer s env env' name w gone reads q = elim (Bool-cases (str_eq name q)) [
  | inl same ↦
      let gone' : own s q ≡ none = subst (λ k. own s k ≡ none) (str_eq→eq name q same) gone in
      rw (gone', reads q, same)
  | inr other ↦ rw (reads q, other)
]

-- An update of the innermost scope.
pub Updates-Rewrites :
    {s s' : Scope} {name : Bytes} {v : Variable} (env : Environ)
    → Updates s name v s'
    → Rewrites (s ∷ env) name (some v) (s' ∷ env)
Updates-Rewrites {name = name} env u q = elim (Bool-cases (str_eq name q)) [
  | inl same ↦ rw (u.reads q, same)
  | inr other ↦ rw (u.reads q, other)
]

pub none_outer : {A : Type 0} (o p : Option A) → or_outer o p ≡ none → (o ≡ none) × (p ≡ none)
none_outer none p h = (refl, h)
none_outer (some a) p h = absurd (cc)

-- In the current scope alone, the name has another variable of its own, or none: the scope's other
-- variables, and the scopes further out, are what they were.
pub record Current (s : Scope) (env : Environ) (name : Bytes) (w : Option Variable) (r : Environ)
    : Type 0 where
  pub scope : Scope
  pub chain : r ≡ scope ∷ env
  pub owns : (q : Bytes) → own scope q ≡ (if str_eq name q then w else own s q)
  pub kind : scope.is_temporary ≡ s.is_temporary

pub Current-Updates :
    {s s' : Scope} {name : Bytes} {v : Variable} (env : Environ)
    → Updates s name v s'
    → Current s env name (some v) (s' ∷ env)
Current-Updates {s' = s'} env u = record { scope = s'; chain = refl; owns = u.reads; kind = u.kind }

pub Current-self :
    (s : Scope) (env : Environ) (name : Bytes) {w : Option Variable}
    → own s name ≡ w
    → Current s env name w (s ∷ env)
Current-self s env name {w} held = record {
  scope = s;
  chain = refl;
  owns = λ q. elim (Bool-cases (str_eq name q)) [
    | inl same ↦ rw same (subst (λ k. own s k ≡ w) (str_eq→eq name q same) held)
    | inr other ↦ rw other
  ];
  kind = refl;
}
