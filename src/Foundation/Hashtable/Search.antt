-- ===== src/Foundation/Hashtable/Search.antt =====
-- The search loop: with an empty slot in the array it ends, and at the right place.
use opsh_actual.Base.{
  ℕ, zero, suc, ◌+◌, ◌-◌, ◌%◌, ◌^◌, ◌≤◌, ◌<◌, ◌≡◌, ◌≢◌, true, false, none, some, length, Bytes,
  arith, Bool-cases, Option-cases, get_elem?-get_or, inl, inr, ◌⊎◌,
}
use opsh_actual.Base.Run.{Returns}
use opsh_actual.Foundation.Hashtable.{Entry, Slots, Probe, empty, found, matches, probe}
use opsh_actual.Foundation.Hashtable.Cycle.{
  dist, next, dist-lt, dist_injective, next-lt, dist-next, mask-next,
}
use opsh_actual.Foundation.Hashtable.Placed.{Layout, slot}

module _ {ℓ} {V : Type ℓ} where
  abbrev pub Passed : ℕ → Layout V → ℕ → Bytes → ℕ → Type ℓ
  Passed n f hash key idx =
      (j : ℕ)
      → j < n
      → dist n (hash % n) j < dist n (hash % n) idx
      → (e : Entry V) × (f j ≡ some e) × (matches hash key e ≡ false)

  -- What the search found.
  abbrev pub Ends : ℕ → Layout V → ℕ → Bytes → Probe V → Type ℓ
  Ends n f hash key (empty i) = (i < n) × (f i ≡ none) × Passed n f hash key i
  Ends n f hash key (found i e) = (i < n) × (f i ≡ some e) × (matches hash key e ≡ true)

  module _ (k : ℕ) (es : Slots V) (size : length es ≡ 2 ^ k) (hash : ℕ) (key : Bytes) where
    Passed-next :
        (idx : ℕ) (e : Entry V)
        → idx < 2 ^ k
        → hash % 2 ^ k < 2 ^ k
        → dist (2 ^ k) (hash % 2 ^ k) idx + 1 < 2 ^ k
        → slot es idx ≡ some e
        → matches hash key e ≡ false
        → Passed (2 ^ k) (slot es) hash key idx
        → Passed (2 ^ k) (slot es) hash key (next (2 ^ k) idx)
    Passed-next idx e hi hs room at no_match before j hj near =
        let n = 2 ^ k in
        let s = hash % n in
        let step = dist-next n s idx hs hi room in
        elim (split (dist n s j) (dist n s idx) (omega arith)) [
          | inl lt ↦ before j hj lt
          | inr eq ↦ (e, rw (dist_injective n s j idx hs hj hi eq) at', no_match)
        ]
      where
        at' : slot es idx ≡ some e
        at' = at

        split : (a b : ℕ) → a ≤ b → (a < b) ⊎ (a ≡ b)
        split a b h = omega arith

    pub probe-Ends :
        (fuel idx z : ℕ)
        → idx < 2 ^ k
        → hash % 2 ^ k < 2 ^ k
        → z < 2 ^ k
        → slot es z ≡ none
        → Passed (2 ^ k) (slot es) hash key idx
        → dist (2 ^ k) (hash % 2 ^ k) idx ≤ dist (2 ^ k) (hash % 2 ^ k) z
        → dist (2 ^ k) (hash % 2 ^ k) z < dist (2 ^ k) (hash % 2 ^ k) idx + fuel
        → Returns (probe fuel es (2 ^ k - 1) hash key idx) (Ends (2 ^ k) (slot es) hash key)
    unfolding probe
    probe-Ends zero idx z hi hs hz free before lo hi' = absurd (omega arith)
    probe-Ends (suc fuel) idx z hi hs hz free before lo enough =
        let n = 2 ^ k in
        let s = hash % n in
        let read = get_elem?-get_or es idx none (rw size hi) in
        elim (Option-cases (slot es idx)) [
          | inl e ↦ (empty idx, rw (read, e), (hi, e, before))
          | inr (e, at) ↦ elim (Bool-cases (matches hash key e)) [
            | inl yes' ↦ (found idx e, rw (read, at, yes'), (hi, at, yes'))
            | inr no' ↦
                let apart : idx ≢ z = λ p. cc in
                let near : dist n s idx ≢ dist n s z =
                  λ p. apart (dist_injective n s idx z hs hi hz p) in
                let far : dist n s z < n = dist-lt n s z hs hz in
                let step = dist-next n s idx hs hi (omega arith) in
                let (r, run, ends) =
                  probe-Ends fuel (next n idx) z (next-lt n idx hi) hs hz free
                    (Passed-next idx e hi hs (omega arith) at no' before) (omega arith)
                    (omega arith) in
                (r, rw (read, at, no', mask-next k idx hi) run, ends)
          ]
        ]
