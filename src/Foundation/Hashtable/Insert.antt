-- ===== src/Foundation/Hashtable/Insert.antt =====
-- `ht_set` where it finds room: the write of one slot, at the place where the search ended.
use opsh_actual.Base.{
  ℕ, ◌+◌, ◌*◌, ◌≤◌, ◌<◌, ◌≡◌, ◌≢◌, refl, sym, ◌∙◌, ap, false, Option, none, some, length, set,
  length-set, get_or-set_self, get_or-set_ne, eq-cases, Bytes, arith, str_eq, str_eq→eq,
  if◌then◌else◌, inl, inr,
}
use opsh_actual.Base.Run.{Returns}
use opsh_actual.Foundation.Hashtable.{
  Entry, Slots, Hashtable, Probe, empty, found, matches, place, insert, ht_fnv1a,
}
use opsh_actual.Foundation.Hashtable.Cycle.{dist}
use opsh_actual.Foundation.Hashtable.Placed.{slot, home, IsPlaced}
use opsh_actual.Foundation.Hashtable.Search.{Ends}
use opsh_actual.Foundation.Hashtable.Valid.{
  IsValid, IsValid-wide, start-Ends, absent, Ends-view, seen,
}
use opsh_actual.Foundation.Hashtable.View.{
  view, occupied-set_free, occupied-set_taken, Unique, Unique-set, view-set,
}

module _ {ℓ} {V : Type ℓ} where
  -- A new entry at the end of its way keeps the ways of all entries.
  some_none : {a : Entry V} → some a ≡ none → ⊥
  some_none h = cc

  none_some : {a : Entry V} → none ≡ some a → ⊥
  none_some h = cc

  taken :
      (hash : ℕ) (key : Bytes) {f : Option (Entry V)}
      → (e : Entry V) × (f ≡ some e) × (matches hash key e ≡ false)
      → f ≢ none
  taken hash key (e, at, _) gone = some_none (sym at ∙ gone)

  some_eq : {a b : Entry V} → some a ≡ some b → a ≡ b
  some_eq h = cc

  IsPlaced-set :
      (n : ℕ) (es : Slots V) (i : ℕ) (new : Entry V)
      → length es ≡ n
      → IsPlaced n (slot es) n
      → i < n
      → new.hash ≡ ht_fnv1a new.key
      → ((j : ℕ) → j < n → dist n (home n new) j < dist n (home n new) i → slot es j ≢ none)
      → Unique n (slot (set es i (some new)))
      → IsPlaced n (slot (set es i (some new))) n
  IsPlaced-set n es i new size placed hi hash way unique = record {
    chained = λ a j e ha hj at near not_hole. chain a j e ha hj at near not_hole;
    unique = unique;
    hashed = λ j e hj at. hashes j e hj at;
  }
    where
      filled : slot (set es i (some new)) i ≡ some new
      filled = get_or-set_self es i (some new) none (omega (arith, size))

      kept : (a : ℕ) → slot es a ≢ none → slot (set es i (some new)) a ≢ none
      kept a old = elim (eq-cases i a) [
        | inl p ↦ λ gone. some_none (sym filled ∙ ap (slot (set es i (some new))) p ∙ gone)
        | inr apart ↦ λ gone. old (sym (get_or-set_ne es i a (some new) none apart) ∙ gone)
      ]

      new_at : (j : ℕ) (e : Entry V) → i ≡ j → slot (set es i (some new)) j ≡ some e → new ≡ e
      new_at j e p at = some_eq (sym filled ∙ ap (slot (set es i (some new))) p ∙ at)

      old_at :
          (j : ℕ) (e : Entry V) → i ≢ j → slot (set es i (some new)) j ≡ some e → slot es j ≡ some e
      old_at j e apart at = sym (get_or-set_ne es i j (some new) none apart) ∙ at

      moved :
          (e : Entry V) (j : ℕ)
          → new ≡ e
          → i ≡ j
          → (a : ℕ) → dist n (home n e) a < dist n (home n e) j
          → dist n (home n new) a < dist n (home n new) i
      moved e j p q a near = rw (p, q) near

      hash_of : (e : Entry V) → new ≡ e → e.hash ≡ ht_fnv1a e.key
      hash_of e p = rw (← p) hash

      chain :
          (a j : ℕ) (e : Entry V)
          → a < n
          → j < n
          → slot (set es i (some new)) j ≡ some e
          → dist n (home n e) a < dist n (home n e) j
          → a ≢ n
          → slot (set es i (some new)) a ≢ none
      chain a j e ha hj at near not_hole = elim (eq-cases i j) [
        | inl p ↦ kept a (way a ha (moved e j (new_at j e p at) p a near))
        | inr apart ↦ kept a (placed.chained a j e ha hj (old_at j e apart at) near not_hole)
      ]

      hashes :
          (j : ℕ) (e : Entry V)
          → j < n
          → slot (set es i (some new)) j ≡ some e
          → e.hash ≡ ht_fnv1a e.key
      hashes j e hj at = elim (eq-cases i j) [
        | inl p ↦ hash_of e (new_at j e p at)
        | inr apart ↦ placed.hashed j e hj (old_at j e apart at)
      ]

  -- The result of a store that returns the old value.
  pub record Stored (t : Hashtable V) (key : Bytes) (value : V) (r : Option V × Hashtable V)
      : Type ℓ where
    pub old : r.0 ≡ view t.entries key
    pub valid : IsValid r.1
    pub reads :
        (q : Bytes) → view r.1.entries q ≡ (if str_eq key q then some value else view t.entries q)

  module _ (t : Hashtable V) (key : Bytes) (value : V) (valid : IsValid t) where
    n : ℕ
    n = t.capacity

    unique' : Unique (length t.entries) (slot t.entries)
    unique' = rw valid.size valid.placed.unique

    abbrev Placed : Probe V → ℕ → Type ℓ
    Placed p more =
        let r = place t key value p in
        Stored t key value r × (r.1.capacity ≡ t.capacity) × (r.1.count ≡ t.count + more)

    quarter : t.count * 4 < t.capacity * 3 → (t.count + 1) * 4 ≤ t.capacity * 3
    quarter room = let (q, wide, pos) = IsValid-wide valid in omega arith

    -- An empty slot takes a new entry.
    place-empty :
        (i : ℕ)
        → Ends t.capacity (slot t.entries) (ht_fnv1a key) key (empty i)
        → t.count * 4 < t.capacity * 3
        → Placed (empty i) 1
    unfolding place n
    place-empty i (hi, free, before) room =
        let new : Entry V = record { key = key; value = value; hash = ht_fnv1a key } in
        let nowhere = absent valid key i hi free before in
        let here : (a : Entry V) → slot t.entries i ≡ some a → a.key ≡ key =
          λ a at. absurd (none_some (sym free ∙ at)) in
        let fresh : (a : Entry V) → some new ≡ some a → a.key ≡ key =
          λ a h. ap Entry.key (sym (some_eq h)) in
        let elsewhere : (j : ℕ) (a : Entry V)
            → j < length t.entries
            → slot t.entries j ≡ some a
            → a.key ≡ key
            → j ≡ i =
          λ j a hj at k. absurd (nowhere j a (omega (arith, valid.size)) at k) in
        let below : i < length t.entries = omega (arith, valid.size) in
        let unique = Unique-set t.entries i (some new) key below unique' here fresh elsewhere in
        let size = length-set t.entries i (some new) in
        (
          record {
            old = sym (Ends-view valid key (empty i) (hi, free, before));
            valid = record {
              bits = valid.bits;
              power = valid.power;
              size = size ∙ valid.size;
              counted =
                  omega (arith, valid.counted, occupied-set_free t.entries i (some new) below free);
              sparse = quarter room;
              placed =
                  IsPlaced-set n t.entries i new valid.size valid.placed hi refl
                    (λ j hj near. taken (ht_fnv1a key) key (before j hj near))
                    (rw (size, valid.size) at unique);
            };
            reads = view-set t.entries i (some new) key below unique' here fresh elsewhere;
          },
          refl,
          omega arith,
        )

    -- An entry with the key takes the new value.
    place-found :
        (i : ℕ) (e : Entry V)
        → Ends t.capacity (slot t.entries) (ht_fnv1a key) key (found i e)
        → Placed (found i e) 0
    unfolding place n
    place-found i e (hi, at, same) =
        let new : Entry V = record e { value = value } in
        let k : e.key ≡ key = str_eq→eq e.key key (ground arith) in
        let here : (a : Entry V) → slot t.entries i ≡ some a → a.key ≡ key =
          λ a at'. ap Entry.key (some_eq (sym at' ∙ at)) ∙ k in
        let fresh : (a : Entry V) → some new ≡ some a → a.key ≡ key =
          λ a h. ap Entry.key (sym (some_eq h)) ∙ k in
        let below : i < length t.entries = omega (arith, valid.size) in
        let elsewhere : (j : ℕ) (a : Entry V)
            → j < length t.entries
            → slot t.entries j ≡ some a
            → a.key ≡ key
            → j ≡ i =
          λ j a hj at' k'. unique' j i a e hj below at' at (k' ∙ sym k) in
        let unique = Unique-set t.entries i (some new) key below unique' here fresh elsewhere in
        let size = length-set t.entries i (some new) in
        (
          record {
            old = sym (Ends-view valid key (found i e) (hi, at, same));
            valid = record {
              bits = valid.bits;
              power = valid.power;
              size = size ∙ valid.size;
              counted =
                  omega
                    (arith, valid.counted, occupied-set_taken t.entries i e (some new) below at);
              sparse = valid.sparse;
              placed =
                  IsPlaced-set n t.entries i new valid.size valid.placed hi
                    (valid.placed.hashed i e hi at)
                    (λ j hj near. valid.placed.chained j i e hj hi at near (omega arith))
                    (rw (size, valid.size) at unique);
            };
            reads = view-set t.entries i (some new) key below unique' here fresh elsewhere;
          },
          refl,
          omega arith,
        )

  -- With room the search's slot takes the entry, and the table grows by one at most.
  pub insert-Stored :
      (t : Hashtable V) (key : Bytes) (value : V)
      → IsValid t
      → t.count * 4 < t.capacity * 3
      → Returns
          (insert t key value)
          λ r. Stored t key value r × (r.1.capacity ≡ t.capacity) × (r.1.count ≤ t.count + 1)
  unfolding insert
  insert-Stored t key value valid room =
      let (p, run, ends) = start-Ends valid key in (place t key value p, rw run, finish p ends)
    where
      finish :
          (p : Probe V)
          → Ends t.capacity (slot t.entries) (ht_fnv1a key) key p
          → let r = place t key value p in
            Stored t key value r × (r.1.capacity ≡ t.capacity) × (r.1.count ≤ t.count + 1)
      finish (empty i) ends =
          let (s, w, c) = place-empty t key value valid i ends room in (s, w, omega (arith, c))
      finish (found i e) ends =
          let (s, w, c) = place-found t key value valid i e ends in (s, w, omega (arith, c))

  -- A key that the table holds needs no room.
  pub insert_present :
      (t : Hashtable V) (key : Bytes) (value : V) {old : V}
      → IsValid t
      → view t.entries key ≡ some old
      → Returns
          (insert t key value)
          λ r. Stored t key value r × (r.1.capacity ≡ t.capacity) × (r.1.count ≡ t.count)
  unfolding insert
  insert_present t key value {old} valid held =
      let (p, run, ends) = start-Ends valid key in
      (place t key value p, rw run, finish p ends (sym (Ends-view valid key p ends) ∙ held))
    where
      finish :
          (p : Probe V)
          → Ends t.capacity (slot t.entries) (ht_fnv1a key) key p
          → seen p ≡ some old
          → let r = place t key value p in
            Stored t key value r × (r.1.capacity ≡ t.capacity) × (r.1.count ≡ t.count)
      finish (empty i) ends h = absurd (cc)
      finish (found i e) ends h =
          let (s, w, c) = place-found t key value valid i e ends in (s, w, omega (arith, c))
