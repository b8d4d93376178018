-- ===== src/Foundation/Hashtable/Placed.antt =====
-- The invariant of the slot array, as a function from positions to entries, and what it holds.
use opsh_actual.Base.{ℕ, ◌%◌, ◌<◌, ◌≡◌, ◌≢◌, Option, none, some, get_or, Bytes}
use opsh_actual.Foundation.Hashtable.{Entry, Slots, ht_fnv1a}
use opsh_actual.Foundation.Hashtable.Cycle.{dist}

abbrev pub Layout {ℓ} : Type ℓ → Type ℓ
Layout V = ℕ → Option (Entry V)

abbrev pub slot {ℓ} : {V : Type ℓ} → Slots V → Layout V
slot es i = get_or es i none

abbrev pub home {ℓ} : {V : Type ℓ} → ℕ → Entry V → ℕ
home n e = e.hash % n

module _ {ℓ} {V : Type ℓ} where
  -- Every slot on the way from an entry's home to the entry is taken, no key stands twice, and the
  -- stored hash is the key's. One slot, the hole, may be exempt from the first.
  pub record IsPlaced (n : ℕ) (f : Layout V) (hole : ℕ) : Type ℓ where
    pub chained :
        (i j : ℕ) (e : Entry V)
        → i < n
        → j < n
        → f j ≡ some e
        → dist n (home n e) i < dist n (home n e) j
        → i ≢ hole
        → f i ≢ none
    pub unique :
        (i j : ℕ) (a b : Entry V)
        → i < n
        → j < n
        → f i ≡ some a
        → f j ≡ some b
        → a.key ≡ b.key
        → i ≡ j
    pub hashed : (j : ℕ) (e : Entry V) → j < n → f j ≡ some e → e.hash ≡ ht_fnv1a e.key

  -- The entry stands somewhere in the array.
  abbrev pub Stores : ℕ → Layout V → Bytes → V → Type ℓ
  Stores n f q v = (j : ℕ) × (e : Entry V) × (j < n) × (f j ≡ some e) × (e.key ≡ q) × (e.value ≡ v)
