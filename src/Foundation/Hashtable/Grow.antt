-- ===== src/Foundation/Hashtable/Grow.antt =====
-- `ht_resize`, `ht_set` with it, and the empty table.
use Prim.Native.Nat.{max}
use mathlib.Core.Option.{or_else}
use opsh_actual.Base.{
  ℕ, zero, suc, ◌+◌, ◌*◌, ◌^◌, ◌≤◌, ◌<◌, ◌≡◌, refl, subst, sym, ◌∙◌, ap, Bool, true, false, Option,
  none, some, [], ◌∷◌, length, replicate, length-replicate, get_or-replicate, Bytes, arith, str_eq,
  str_eq→eq, if◌then◌else◌, inl, inr, Bool-cases, Option-cases, leb, leb→le, leb→lt,
}
use opsh_actual.Base.Bits.{pow_double}
use opsh_actual.Base.Run.{Returns}
use opsh_actual.Foundation.Hashtable.{
  Entry, Slots, Hashtable, ht_init, is_loaded, insert, reinsert, ht_resize, set_at, ht_set,
}
use opsh_actual.Foundation.Hashtable.Insert.{Stored, insert-Stored}
use opsh_actual.Foundation.Hashtable.Placed.{slot}
use opsh_actual.Foundation.Hashtable.Valid.{IsValid, IsValid-wide}
use opsh_actual.Foundation.Hashtable.View.{view, occupied, Unique, view-Stores}
use opsh_actual.Foundation.Util.{checked_mul-eq_some}

view-replicate {ℓ} : (V : Type ℓ) (n : ℕ) (q : Bytes) → view {V = V} (replicate n none) q ≡ none
unfolding view
view-replicate V zero q = refl
view-replicate V (suc n) q = view-replicate V n q

occupied-replicate {ℓ} : (V : Type ℓ) (n : ℕ) → occupied {V = V} (replicate n none) ≡ 0
unfolding occupied
occupied-replicate V zero = refl
occupied-replicate V (suc n) = occupied-replicate V n

module _ {ℓ} {V : Type ℓ} where
  none_some : {a : Entry V} → none ≡ some a → ⊥
  none_some h = cc

  abbrev fresh : ℕ → Hashtable V
  fresh n = record { entries = replicate n none; capacity = n; count = 0 }

  fresh-IsValid : (bits n : ℕ) → n ≡ 2 ^ suc (suc (suc (suc bits))) → IsValid (fresh n)
  fresh-IsValid bits n power = record {
    bits = bits;
    power = power;
    size = length-replicate n none;
    counted = occupied-replicate V n;
    sparse = omega arith;
    placed = record {
      chained = λ i j e hi hj at. absurd (none_some (sym (get_or-replicate n j none) ∙ at));
      unique = λ i j a b hi hj at. absurd (none_some (sym (get_or-replicate n i none) ∙ at));
      hashed = λ j e hj at. absurd (none_some (sym (get_or-replicate n j none) ∙ at));
    };
  }

  -- A new table is valid and empty.
  pub ht_init-IsValid :
      let t : Hashtable V = ht_init in IsValid t × ((q : Bytes) → view t.entries q ≡ none)
  unfolding ht_init
  ht_init-IsValid = (fresh-IsValid 0 16 refl, view-replicate V 16)

  -- No key of the array stands twice, entry by entry.
  abbrev Distinct : Slots V → Type ℓ
  Distinct [] = Unit
  Distinct (none ∷ es) = Distinct es
  Distinct (some e ∷ es) = (view es e.key ≡ none) × Distinct es

  Unique-tail :
      (x : Option (Entry V)) (es : Slots V)
      → Unique (suc (length es)) (slot (x ∷ es))
      → Unique (length es) (slot es)
  Unique-tail x es u i j a b hi hj at at' same =
      suc_eq (u (suc i) (suc j) a b (omega arith) (omega arith) at at' same)
    where
      suc_eq : {a b : ℕ} → suc a ≡ suc b → a ≡ b
      suc_eq e = omega arith

  Unique-Distinct : (es : Slots V) → Unique (length es) (slot es) → Distinct es
  Unique-Distinct [] u = tt
  Unique-Distinct (none ∷ es) u = Unique-Distinct es (Unique-tail none es u)
  Unique-Distinct (some e ∷ es) u = (
    elim (Option-cases (view es e.key)) [
      | inl gone ↦ gone
      | inr (v, seen) ↦
          let (j, a, hj, at, k, w) = view-Stores es e.key v seen in
          absurd (apart (u 0 (suc j) e a (omega arith) (omega arith) refl at (sym k)))
    ],
    Unique-Distinct es (Unique-tail (some e) es u),
  )
    where
      apart : {j : ℕ} → 0 ≡ suc j → ⊥
      apart h = omega arith

  -- With room for one more the nested call is no resize.
  set_at-room :
      (depth : ℕ) (t : Hashtable V) (key : Bytes) (value : V)
      → t.count * 4 < t.capacity * 3
      → set_at (suc depth) t key value ≡ insert t key value
  unfolding set_at
  set_at-room depth t key value room = rw (not_loaded (leb (t.capacity * 3) (t.count * 4)) refl)
    where
      not_loaded :
          (b : Bool)
          → leb (t.capacity * 3) (t.count * 4) ≡ b
          → leb (t.capacity * 3) (t.count * 4) ≡ false
      not_loaded true h = absurd (omega (arith, leb→le (t.capacity * 3) (t.count * 4) h))
      not_loaded false h = h

  -- An entry is seen in the new table, or among the entries that are still to come.
  both :
      (q : Bytes) (e : Entry V) (es : Slots V) (t s : Hashtable V)
      → view s.entries q ≡ (if str_eq e.key q then some e.value else view t.entries q)
      → view es e.key ≡ none
      → or_else (view es q) (view s.entries q)
        ≡ or_else (if str_eq e.key q then some e.value else view es q) (view t.entries q)
  unfolding or_else
  both q e es t s stored new = elim (Bool-cases (str_eq e.key q)) [
    | inl same ↦
        let gone : view es q ≡ none = subst (λ k. view es k ≡ none) (str_eq→eq e.key q same) new in
        rw (stored, same, gone)
    | inr other ↦ rw (stored, other)
  ]

  record Refilled (es : Slots V) (t r : Hashtable V) : Type ℓ where
    valid : IsValid r
    reads : (q : Bytes) → view r.entries q ≡ or_else (view es q) (view t.entries q)
    wide : r.capacity ≡ t.capacity
    few : r.count ≤ t.count + occupied es

  reinsert-Refilled :
      (depth : ℕ) (es : Slots V) (t : Hashtable V)
      → IsValid t
      → Distinct es
      → (t.count + occupied es) * 4 ≤ t.capacity * 3
      → Returns (reinsert (set_at (suc depth)) es t) (Refilled es t)
  unfolding reinsert occupied view or_else
  reinsert-Refilled depth [] t valid apart room =
      (t, refl, record { valid = valid; reads = λ q. refl; wide = refl; few = omega arith })
  reinsert-Refilled depth (none ∷ es) t valid apart room =
      let (r, run, done) = reinsert-Refilled depth es t valid apart room in
      (r, run, record { valid = done.valid; reads = done.reads; wide = done.wide; few = done.few })
  reinsert-Refilled depth (some e ∷ es) t valid (new, apart) room =
      let (s, run, (stored, wide, few)) = insert-Stored t e.key e.value valid (omega arith) in
      let (r, run', done) = reinsert-Refilled depth es s.1 stored.valid apart (omega arith) in
      (
        r,
        rw (set_at-room depth t e.key e.value (omega arith), run) run',
        record {
          valid = done.valid;
          reads = λ q. done.reads q ∙ both q e es t s.1 (stored.reads q) new;
          wide = done.wide ∙ wide;
          few = omega (arith, done.few);
        },
      )

  -- The table doubles and holds what it held.
  pub ht_resize-Refills :
      (depth : ℕ) (t : Hashtable V)
      → IsValid t
      → t.capacity < 2 ^ 63
      → Returns (ht_resize (set_at (suc depth)) t) λ r.
        IsValid r
        × ((q : Bytes) → view r.entries q ≡ view t.entries q)
        × (r.capacity ≡ t.capacity * 2)
        × (r.count ≤ t.count)
  unfolding ht_resize or_else
  ht_resize-Refills depth t valid small =
      let n = t.capacity * 2 in
      let power : n ≡ 2 ^ suc (suc (suc (suc (suc valid.bits)))) =
        omega (arith, valid.power, pow_double (suc (suc (suc (suc valid.bits))))) in
      let (r, run, done) =
        reinsert-Refilled depth t.entries (fresh n) (fresh-IsValid (suc valid.bits) n power)
          (Unique-Distinct t.entries (rw valid.size valid.placed.unique))
          (omega (arith, valid.counted, valid.sparse)) in
      (
        r,
        rw (ht_resize, checked_mul-eq_some t.capacity 2 (omega arith)) run,
        (
          done.valid,
          λ q.
              done.reads q
              ∙ ap (or_else (view t.entries q)) (view-replicate V n q)
              ∙ or_none (view t.entries q),
          done.wide,
          omega (arith, done.few, valid.counted),
        ),
      )
    where
      or_none : (o : Option V) → or_else o none ≡ o
      or_none none = refl
      or_none (some v) = refl

  -- The store in a valid table returns, without a deeper resize, and refines the map's update.
  pub ht_set-Stored :
      (t : Hashtable V) (key : Bytes) (value : V)
      → IsValid t
      → t.capacity < 2 ^ 63
      → Returns (ht_set t key value) λ r.
        Stored t key value r
        × (r.1.count ≤ t.count + 1)
        × (r.1.capacity * 3 ≤ max (t.capacity * 3) (t.count * 8))
  unfolding ht_set
  ht_set-Stored t key value valid small = elim (Bool-cases (is_loaded t)) [
    | inl full ↦
        let (t', run, (valid', same, wide, few)) = ht_resize-Refills 0 t valid small in
        let (q, wide', pos) = IsValid-wide valid in
        let (r, run', (stored, wide'', more)) =
          insert-Stored t' key value valid' (omega (arith, wide, few, valid.sparse)) in
        (
          r,
          rw (full, run) run',
          (
            record {
              old = stored.old ∙ same key;
              valid = stored.valid;
              reads =
                  λ k. stored.reads k ∙ ap (λ v. if str_eq key k then some value else v) (same k);
            },
            omega (arith, more, few),
            omega (arith, wide, wide'', leb→le (t.capacity * 3) (t.count * 4) full),
          ),
        )
    | inr room ↦
        let (r, run, (stored, wide, more)) =
          insert-Stored t key value valid (leb→lt (t.capacity * 3) (t.count * 4) room) in
        (r, rw room run, (stored, more, omega (arith, wide)))
  ]
