-- ===== src/Foundation/Hashtable/View.antt =====
-- The map that a slot array stands for, and what one write does to it.
use opsh_actual.Base.{
  ℕ, zero, suc, ◌+◌, ◌<◌, ◌≡◌, ◌≢◌, refl, sym, ◌∙◌, ap, Bool, true, false, if◌then◌else◌, Option,
  none, some, [], ◌∷◌, length, set, get_or-set_self, get_or-set_ne, eq-cases, length-set, Bytes,
  arith, Bool-cases, Option-cases, str_eq, str_eq_refl, str_eq→eq, inl, inr, ◌⊎◌,
}
use opsh_actual.Foundation.Hashtable.{Entry, Slots}
use opsh_actual.Foundation.Hashtable.Placed.{Layout, slot, Stores}

module _ {ℓ} {V : Type ℓ} where
  -- The first entry of the key, slot by slot.
  unfoldable pub view : Slots V → Bytes → Option V
  view [] q = none
  view (none ∷ es) q = view es q
  view (some e ∷ es) q = if str_eq e.key q then some e.value else view es q

  -- The number of taken slots.
  unfoldable pub occupied : Slots V → ℕ
  occupied [] = 0
  occupied (none ∷ es) = occupied es
  occupied (some e ∷ es) = suc (occupied es)

  abbrev pub one_if : Option (Entry V) → ℕ
  one_if none = 0
  one_if (some e) = 1

  pub occupied-set :
      (es : Slots V) (i : ℕ) (x : Option (Entry V))
      → i < length es
      → occupied (set es i x) + one_if (slot es i) ≡ occupied es + one_if x
  unfolding occupied
  occupied-set [] i x h = absurd (omega arith)
  occupied-set (none ∷ es) zero none h = omega arith
  occupied-set (none ∷ es) zero (some x) h = omega arith
  occupied-set (some e ∷ es) zero none h = omega arith
  occupied-set (some e ∷ es) zero (some x) h = omega arith
  occupied-set (none ∷ es) (suc i) x h = occupied-set es i x (omega arith)
  occupied-set (some e ∷ es) (suc i) x h = omega (arith, occupied-set es i x)

  pub occupied-set_free :
      (es : Slots V) (i : ℕ) (x : Option (Entry V))
      → i < length es
      → slot es i ≡ none
      → occupied (set es i x) ≡ occupied es + one_if x
  occupied-set_free es i x h free = omega (arith, ap one_if free, occupied-set es i x h)

  pub occupied-set_taken :
      (es : Slots V) (i : ℕ) (e : Entry V) (x : Option (Entry V))
      → i < length es
      → slot es i ≡ some e
      → occupied (set es i x) + 1 ≡ occupied es + one_if x
  occupied-set_taken es i e x h at = omega (arith, ap one_if at, occupied-set es i x h)

  -- An array that is not full has an empty slot.
  pub free_slot :
      (es : Slots V) → occupied es < length es → (z : ℕ) × (z < length es) × (slot es z ≡ none)
  unfolding occupied
  free_slot [] h = absurd (omega arith)
  free_slot (none ∷ es) h = (0, omega arith, refl)
  free_slot (some e ∷ es) h =
      let (z, below, free) = free_slot es (omega arith) in (suc z, omega arith, free)

  pub view-Stores :
      (es : Slots V) (q : Bytes) (v : V) → view es q ≡ some v → Stores (length es) (slot es) q v
  unfolding view
  view-Stores [] q v h = absurd (cc)
  view-Stores (none ∷ es) q v h =
      let (j, e, below, at, k, w) = view-Stores es q v h in (suc j, e, omega arith, at, k, w)
  view-Stores (some e ∷ es) q v h = elim (Bool-cases (str_eq e.key q)) [
    | inl same ↦ (0, e, omega arith, refl, str_eq→eq e.key q same, ground arith)
    | inr other ↦
        let (j, a, below, at, k, w) = view-Stores es q v (ground arith) in
        (suc j, a, omega arith, at, k, w)
  ]

  Stores-view-ne :
      (es : Slots V) (j : ℕ) (e : Entry V)
      → j < length es
      → slot es j ≡ some e
      → view es e.key ≢ none
  unfolding view
  Stores-view-ne [] j e h at = absurd (omega arith)
  Stores-view-ne (none ∷ es) zero e h at = absurd (cc)
  Stores-view-ne (none ∷ es) (suc j) e h at = Stores-view-ne es j e (omega arith) at
  Stores-view-ne (some a ∷ es) zero e h at = ground (arith, str_eq_refl e.key)
  Stores-view-ne (some a ∷ es) (suc j) e h at = ground (arith, Stores-view-ne es j e)

  abbrev pub Unique : ℕ → Layout V → Type ℓ
  Unique n f =
      (i j : ℕ) (a b : Entry V)
      → i < n
      → j < n
      → f i ≡ some a
      → f j ≡ some b
      → a.key ≡ b.key
      → i ≡ j

  pub Stores-view :
      (es : Slots V) (j : ℕ) (e : Entry V)
      → Unique (length es) (slot es)
      → j < length es
      → slot es j ≡ some e
      → view es e.key ≡ some e.value
  Stores-view es j e unique below at = elim (Option-cases (view es e.key)) [
    | inl gone ↦ absurd (Stores-view-ne es j e below at gone)
    | inr (w, seen) ↦
        let (i, a, near, there, k, value) = view-Stores es e.key w seen in
        let here = unique i j a e near below there at k in seen ∙ ground (arith, here)
  ]

  pub same-view :
      (es es' : Slots V) (q : Bytes)
      → Unique (length es) (slot es)
      → Unique (length es') (slot es')
      → ((v : V) → Stores (length es) (slot es) q v → Stores (length es') (slot es') q v)
      → ((v : V) → Stores (length es') (slot es') q v → Stores (length es) (slot es) q v)
      → view es q ≡ view es' q
  same-view es es' q u u' to back = elim (Option-cases (view es q)) [
    | inr (v, seen) ↦
        let (j, e, below, at, k, w) = to v (view-Stores es q v seen) in
        seen ∙ sym (rw (k, w) at (Stores-view es' j e u' below at))
    | inl gone ↦ elim (Option-cases (view es' q)) [
      | inl gone' ↦ gone ∙ sym gone'
      | inr (v, seen) ↦
          let (j, e, below, at, k, w) = back v (view-Stores es' q v seen) in
          absurd (Stores-view-ne es j e below at (rw k gone))
    ]
  ]

  abbrev pub value_of : Option (Entry V) → Option V
  value_of none = none
  value_of (some e) = some e.value

  -- A write of one slot.
  module _ (es : Slots V) (i : ℕ) (x : Option (Entry V)) (key : Bytes) (below : i < length es)
      (unique : Unique (length es) (slot es))
      (here : (a : Entry V) → slot es i ≡ some a → a.key ≡ key)
      (fresh : (a : Entry V) → x ≡ some a → a.key ≡ key)
      (elsewhere : (j : ℕ) (a : Entry V)
        → j < length es
        → slot es j ≡ some a
        → a.key ≡ key
        → j ≡ i) where
    -- What stands in the new array is the new entry or an old one.
    stored-set :
        (j : ℕ) (a : Entry V)
        → slot (set es i x) j ≡ some a
        → ((j ≡ i) × (x ≡ some a)) ⊎ ((j ≢ i) × (slot es j ≡ some a))
    stored-set j a at = elim (eq-cases i j) [
      | inl p ↦ inl (sym p, sym (get_or-set_self es i x none below) ∙ ap (slot (set es i x)) p ∙ at)
      | inr apart ↦ inr (λ e. apart (sym e), sym (get_or-set_ne es i j x none apart) ∙ at)
    ]

    pub Unique-set : Unique (length (set es i x)) (slot (set es i x))
    Unique-set j k a b hj hk at at' same =
        let size = length-set es i x in
        elim (stored-set j a at) [
          | inl (p, new) ↦ elim (stored-set k b at') [
            | inl (p', new') ↦ p ∙ sym p'
            | inr (apart, old) ↦ p ∙ sym (elsewhere k b (omega arith) old (sym same ∙ fresh a new))
          ]
          | inr (apart, old) ↦ elim (stored-set k b at') [
            | inl (p', new') ↦ elsewhere j a (omega arith) old (same ∙ fresh b new') ∙ sym p'
            | inr (apart', old') ↦ unique j k a b (omega arith) (omega arith) old old' same
          ]
        ]

    old_of :
        (q : Bytes)
        → key ≢ q
        → (j : ℕ) (e : Entry V) → slot (set es i x) j ≡ some e
        → e.key ≡ q
        → slot es j ≡ some e
    old_of q other j e at k = elim (stored-set j e at) [
      | inl (p, new) ↦ absurd (other (sym (fresh e new) ∙ k))
      | inr (apart, old) ↦ old
    ]

    -- A key other than that of the write is seen as before.
    view-set_ne : (q : Bytes) → key ≢ q → view (set es i x) q ≡ view es q
    view-set_ne q other = sym (
        same-view es (set es i x) q unique Unique-set
          (λ v (j, e, hj, at, k, w). (
            j,
            e,
            rw length-set hj,
            get_or-set_ne es i j x none (λ p. other (sym (here e (ap (slot es) p ∙ at)) ∙ k)) ∙ at,
            k,
            w,
          ))
          (λ v (j, e, hj, at, k, w). (j, e, rw length-set at hj, old_of q other j e at k, k, w)))

    view-set_self : view (set es i x) key ≡ value_of x
    view-set_self = elim (Option-cases (view (set es i x) key)) [
      | inr (v, seen) ↦
          let (j, e, hj, at, k, w) = view-Stores (set es i x) key v seen in
          elim (stored-set j e at) [
            | inl (p, new) ↦ seen ∙ ap some (sym w) ∙ ap value_of (sym new)
            | inr (apart, old) ↦ absurd (apart (elsewhere j e (rw length-set at hj) old k))
          ]
      | inl gone ↦ elim (Option-cases x) [
        | inl e ↦ gone ∙ ap value_of (sym e)
        | inr (e, new) ↦ absurd (
            Stores-view-ne (set es i x) i e (rw length-set below)
              (get_or-set_self es i x none below ∙ new) (rw (fresh e new) gone))
      ]
    ]

    pub view-set :
        (q : Bytes) → view (set es i x) q ≡ (if str_eq key q then value_of x else view es q)
    view-set q = elim (Bool-cases (str_eq key q)) [
      | inl same ↦ rw (same, ← str_eq→eq key q same) view-set_self
      | inr other ↦ rw other (view-set_ne q (λ e. absurd_eq (str_eq_refl q) (rw e at other)))
    ]
      where
        absurd_eq : {b : Bool} → b ≡ true → b ≡ false → ⊥
        absurd_eq t f = cc
