-- ===== src/Foundation/Hashtable/Remove.antt =====
-- `ht_remove`: it returns the value, clears the key, and keeps every other key reachable.
use Prim.Native.Nat.{bit_and}
use opsh_actual.Base.{
  ℕ, suc, ◌+◌, ◌-◌, ◌^◌, ◌≤◌, ◌<◌, ◌≡◌, ◌≢◌, refl, subst, sym, ◌∙◌, ap, Option, none, some, length,
  get_or-set_ne, Bytes, arith, str_eq, str_eq→eq, if◌then◌else◌, inl, inr, Bool-cases,
}
use opsh_actual.Base.Run.{Returns}
use opsh_actual.Foundation.Hashtable.{
  Entry, Hashtable, Probe, empty, found, backward_shift, unlink, ht_remove, ht_fnv1a,
}
use opsh_actual.Foundation.Hashtable.Cycle.{
  dist, next, dist-lt, dist_self, dist-pos, next-lt, dist-next, mask-next,
}
use opsh_actual.Foundation.Hashtable.Move.{backward_shift-Closes}
use opsh_actual.Foundation.Hashtable.Placed.{slot}
use opsh_actual.Foundation.Hashtable.Search.{Ends}
use opsh_actual.Foundation.Hashtable.Shift.{clear, cleared, Gap, Closes}
use opsh_actual.Foundation.Hashtable.Valid.{IsValid, IsValid-wide, has_free, start-Ends, Ends-view}
use opsh_actual.Foundation.Hashtable.View.{view, occupied-set_taken, Unique, view-set}

module _ {ℓ} {V : Type ℓ} where
  -- The result of a removal that returns the old value.
  pub record Removed (t : Hashtable V) (key : Bytes) (r : Option V × Hashtable V) : Type ℓ where
    pub old : r.0 ≡ view t.entries key
    pub valid : IsValid r.1
    pub reads : (q : Bytes) → view r.1.entries q ≡ (if str_eq key q then none else view t.entries q)

  module _ {t : Hashtable V} (valid : IsValid t) where
    n : ℕ
    n = t.capacity

    -- Where the key was found the shift may start.
    Gap-start :
        (i : ℕ) (e : Entry V)
        → i < t.capacity
        → slot t.entries i ≡ some e
        → (z : ℕ) × Gap t.capacity t.entries i (next t.capacity i) z
    Gap-start i e hi at =
        let (z, hz, free) = has_free valid in
        let n = t.capacity in
        let wide = IsValid-wide valid in
        let one : dist n i (next n i) ≡ 1 =
          omega
            (arith, dist_self n i, dist-next n i i hi hi (omega (arith, dist_self n i, wide))) in
        let in_range : i < length t.entries = omega (arith, valid.size) in
        let off : i ≢ z = λ q. some_none (sym at ∙ ap (slot t.entries) q ∙ free) in
        (
          z,
          record {
            size = valid.size;
            hole_lt = hi;
            scan_lt = next-lt n i hi;
            free_lt = hz;
            filled = λ gone. some_none (sym at ∙ gone);
            free = free;
            apart = λ q. no_step (sym one ∙ sym (ap (dist n i) q) ∙ dist_self n i);
            ahead = omega (arith, one, dist-pos n i z hi hz off);
            placed = record {
              chained = λ a j b ha hj at' near apart gone.
                  valid.placed.chained a j b ha hj ((cleared t.entries i j b in_range at').1) near
                    (omega arith)
                    (sym (get_or-set_ne t.entries i a none none (λ q. apart (sym q))) ∙ gone);
              unique = λ a j b c ha hj at' at''.
                  valid.placed.unique a j b c ha hj ((cleared t.entries i a b in_range at').1)
                    ((cleared t.entries i j c in_range at'').1);
              hashed = λ j b hj at'.
                  valid.placed.hashed j b hj ((cleared t.entries i j b in_range at').1);
            };
            crossing = λ j b hj at' near. omega (
              arith,
              one,
              dist-pos n i j hi hj (λ q. (cleared t.entries i j b in_range at').0 (sym q)),
            );
          },
        )
      where
        some_none : {a : Entry V} → some a ≡ none → ⊥
        some_none h = cc

        no_step : ◌≡◌ {A = ℕ} 1 0 → ⊥
        no_step e = omega arith

    shift-Closes :
        (i : ℕ) (e : Entry V)
        → i < t.capacity
        → slot t.entries i ≡ some e
        → Returns
            (backward_shift t.capacity t.entries
              (t.capacity - 1)
              i
              (bit_and (i + 1) (t.capacity - 1)))
            λ r. Closes t.capacity (clear t.entries i) (clear r.1 r.0)
    shift-Closes i e hi at =
        let (z, gap) = Gap-start i e hi at in
        let b = suc (suc (suc (suc valid.bits))) in
        let m = t.capacity in
        let far : dist m i z < m = dist-lt m i z hi gap.free_lt in
        subst
          (λ (w : ℕ).
            Gap w t.entries i (next w i) z
            → dist w i z < m
            → i < w
            → Returns (backward_shift m t.entries (w - 1) i (bit_and (i + 1) (w - 1)))
                λ r. Closes w (clear t.entries i) (clear r.1 r.0))
          (sym valid.power)
          (λ g near low.
            rw (mask-next b i low)
              (backward_shift-Closes b m t.entries i (next (2 ^ b) i) z g (omega (arith, near))))
          gap far hi

    unlink-Removed :
        (key : Bytes) (p : Probe V)
        → Ends t.capacity (slot t.entries) (ht_fnv1a key) key p
        → Returns
            (unlink t p)
            λ r. Removed t key r × (r.1.capacity ≡ t.capacity) × (r.1.count ≤ t.count)
    unfolding unlink
    unlink-Removed key (empty i) ends =
        let gone = Ends-view valid key (empty i) ends in
        (
          (none, t),
          refl,
          (record { old = sym gone; valid = valid; reads = reads gone }, refl, omega arith),
        )
      where
        reads :
            view t.entries key ≡ none
            → (q : Bytes) → view t.entries q ≡ (if str_eq key q then none else view t.entries q)
        reads gone q = elim (Bool-cases (str_eq key q)) [
          | inl same ↦ rw (same, ← str_eq→eq key q same) gone
          | inr other ↦ rw other
        ]
    unlink-Removed key (found i e) (hi, at, same) =
        let (r, run, c) = shift-Closes i e hi at in
        let below : i < length t.entries = omega (arith, valid.size) in
        let k : e.key ≡ key = str_eq→eq e.key key (ground arith) in
        let unique : Unique (length t.entries) (slot t.entries) =
          rw valid.size valid.placed.unique in
        let here : (a : Entry V) → slot t.entries i ≡ some a → a.key ≡ key =
          λ a at'. ap Entry.key (some_eq (sym at' ∙ at)) ∙ k in
        let fresh : (a : Entry V) → none ≡ some a → a.key ≡ key = λ a h. absurd (none_some h) in
        let elsewhere : (j : ℕ) (a : Entry V)
            → j < length t.entries
            → slot t.entries j ≡ some a
            → a.key ≡ key
            → j ≡ i =
          λ j a hj at' k'. unique j i a e hj below at' at (k' ∙ sym k) in
        let fewer = occupied-set_taken t.entries i e none below at in
        (
          (some e.value, record t { entries = clear r.1 r.0; count = t.count - 1 }),
          rw run,
          (
            record {
              old = sym (Ends-view valid key (found i e) (hi, at, same));
              valid = record {
                bits = valid.bits;
                power = valid.power;
                size = c.size;
                counted = omega (arith, c.counted, fewer, valid.counted);
                sparse = omega (arith, valid.sparse);
                placed = c.placed;
              };
              reads =
                  λ q. c.same q ∙ view-set t.entries i none key below unique here fresh elsewhere q;
            },
            refl,
            omega arith,
          ),
        )
      where
        some_eq : {a b : Entry V} → some a ≡ some b → a ≡ b
        some_eq h = cc

        none_some : {a : Entry V} → none ≡ some a → ⊥
        none_some h = cc

    -- Removal in a valid table returns, and refines the removal from the map.
    pub ht_remove-Removed :
        (key : Bytes)
        → Returns
            (ht_remove t key)
            λ r. Removed t key r × (r.1.capacity ≡ t.capacity) × (r.1.count ≤ t.count)
    unfolding ht_remove
    ht_remove-Removed key =
        let (p, run, ends) = start-Ends valid key in
        let (r, run', done) = unlink-Removed key p ends in (r, rw run run', done)
