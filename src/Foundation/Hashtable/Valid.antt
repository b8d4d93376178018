-- ===== src/Foundation/Hashtable/Valid.antt =====
-- The invariant of the table, the search from its public operations, and `ht_get`.
use native.Mathlib.Nat.{mod-lt}
use Prim.Native.Nat.{bit_and}
use opsh_actual.Base.{
  ℕ, suc, ◌-◌, ◌*◌, ◌%◌, ◌^◌, ◌≤◌, ◌<◌, ◌≡◌, ◌≢◌, subst, sym, ◌∙◌, ap, false, Option, none, some,
  length, Bytes, arith, Option-cases, str_eq_refl, str_eq→eq, inl, inr, ◌⊎◌,
}
use opsh_actual.Base.Bits.{bit_and_mask, pow_double, pow_pos}
use opsh_actual.Base.Run.{ok, Returns}
use opsh_actual.Foundation.Hashtable.{
  Entry, Hashtable, Probe, empty, found, matches, probe, start, ht_get, ht_fnv1a,
}
use opsh_actual.Foundation.Hashtable.Cycle.{dist, dist-lt, dist_self, dist_injective}
use opsh_actual.Foundation.Hashtable.Placed.{slot, IsPlaced}
use opsh_actual.Foundation.Hashtable.Search.{Passed, Ends, probe-Ends}
use opsh_actual.Foundation.Hashtable.View.{view, occupied, free_slot, view-Stores, Stores-view}

pub capacity_lem : (bits : ℕ) → (2 ^ suc (suc (suc (suc bits))) ≡ 2 ^ bits * 16) × (0 < 2 ^ bits)
capacity_lem b = (
  omega (
    arith,
    pow_double b,
    pow_double (suc b),
    pow_double (suc (suc b)),
    pow_double (suc (suc (suc b))),
  ),
  pow_pos b,
)

module _ {ℓ} {V : Type ℓ} where
  -- The capacity is a power of two from 16 up, and at most three quarters of it are taken.
  pub record IsValid (t : Hashtable V) : Type ℓ where
    pub bits : ℕ
    pub power : t.capacity ≡ 2 ^ suc (suc (suc (suc bits)))
    pub size : length t.entries ≡ t.capacity
    pub counted : occupied t.entries ≡ t.count
    pub sparse : t.count * 4 ≤ t.capacity * 3
    pub placed : IsPlaced t.capacity (slot t.entries) t.capacity

  abbrev pub seen : Probe V → Option V
  seen (empty _) = none
  seen (found _ e) = some e.value

  module _ {t : Hashtable V} (valid : IsValid t) where
    pub IsValid-wide : (q : ℕ) × (t.capacity ≡ q * 16) × (0 < q)
    IsValid-wide =
        (2 ^ valid.bits, omega (arith, valid.power, capacity_lem valid.bits), pow_pos valid.bits)

    pub has_free : (z : ℕ) × (z < t.capacity) × (slot t.entries z ≡ none)
    has_free =
        let (q, wide, pos) = IsValid-wide in
        let (z, below, free) =
          free_slot t.entries (omega (arith, valid.counted, valid.sparse, valid.size)) in
        (z, omega (arith, valid.size), free)

    -- A search in a valid table ends.
    pub start-Ends :
        (key : Bytes) → Returns (start t key) (Ends t.capacity (slot t.entries) (ht_fnv1a key) key)
    unfolding start
    start-Ends key =
        let hash = ht_fnv1a key in
        let b = suc (suc (suc (suc valid.bits))) in
        let (z, below, free) = has_free in
        let at_home : bit_and hash (2 ^ b - 1) ≡ hash % 2 ^ b = bit_and_mask b hash in
        let low : hash % 2 ^ b < 2 ^ b = mod-lt hash (pow_pos b) in
        let zero_way : dist (2 ^ b) (hash % 2 ^ b) (hash % 2 ^ b) ≡ 0 =
          dist_self (2 ^ b) (hash % 2 ^ b) in
        let far : dist (2 ^ b) (hash % 2 ^ b) z < 2 ^ b =
          dist-lt (2 ^ b) (hash % 2 ^ b) z low (omega (arith, valid.power)) in
        subst
          (λ (n : ℕ).
            Returns (probe t.capacity t.entries (n - 1) hash key (bit_and hash (n - 1)))
              (Ends n (slot t.entries) hash key))
          (sym valid.power)
          (rw at_home (
            probe-Ends b t.entries (valid.size ∙ valid.power) hash key t.capacity (hash % 2 ^ b) z
              low low (omega (arith, valid.power)) free (λ j hj near. absurd (omega arith))
              (omega arith) (omega (arith, valid.power))))

    -- At an empty slot: the key is nowhere.
    pub absent :
        (key : Bytes) (i : ℕ)
        → i < t.capacity
        → slot t.entries i ≡ none
        → Passed t.capacity (slot t.entries) (ht_fnv1a key) key i
        → (j : ℕ) (e : Entry V) → j < t.capacity
        → slot t.entries j ≡ some e
        → e.key ≢ key
    absent key i hi free before j e hj at same =
        let n = t.capacity in
        let s = ht_fnv1a key % n in
        let stored : e.hash ≡ ht_fnv1a key = valid.placed.hashed j e hj at ∙ ap ht_fnv1a same in
        let apart : i ≢ j = λ p. none_some (sym free ∙ ap (slot t.entries) p ∙ at) in
        let low : s < n = mod-lt (ht_fnv1a key) (omega arith) in
        elim (le_or_lt (dist n s i) (dist n s j)) [
          | inl near ↦
              valid.placed.chained i j e hi hj at
                (rw stored (lt_of_le_ne near (λ p. apart (dist_injective n s i j low hi hj p))))
                (omega arith) free
          | inr far ↦
              let (a, there, other) = before j hj far in
              mismatch a e other (some_eq (sym there ∙ at)) stored same
        ]
      where
        none_some : {A : Type ℓ} {a : A} → none ≡ some a → ⊥
        none_some h = cc

        some_eq : {A : Type ℓ} {a b : A} → some a ≡ some b → a ≡ b
        some_eq h = cc

        le_or_lt : (a b : ℕ) → (a ≤ b) ⊎ (b < a)
        le_or_lt a b = omega arith

        lt_of_le_ne : {a b : ℕ} → a ≤ b → a ≢ b → a < b
        lt_of_le_ne h ne = omega arith

        mismatch :
            (a e : Entry V)
            → matches (ht_fnv1a key) key a ≡ false
            → a ≡ e
            → e.hash ≡ ht_fnv1a key
            → e.key ≡ key
            → ⊥
        mismatch a e other same h k = ground (arith, str_eq_refl key)

    -- Where a search ends says what the table's map holds under the key.
    pub Ends-view :
        (key : Bytes) (p : Probe V)
        → Ends t.capacity (slot t.entries) (ht_fnv1a key) key p
        → view t.entries key ≡ seen p
    Ends-view key (empty i) (hi, free, before) = elim (Option-cases (view t.entries key)) [
      | inl gone ↦ gone
      | inr (v, found') ↦
          let (j, e, hj, at, k, w) = view-Stores t.entries key v found' in
          absurd (absent key i hi free before j e (rw valid.size at hj) at k)
    ]
    Ends-view key (found i e) (hi, at, same) =
        rw (str_eq→eq e.key key (ground arith)) at
          (Stores-view t.entries i e (rw valid.size valid.placed.unique) (rw valid.size hi) at)

    -- The lookup is that of the map that the table stands for.
    pub ht_get-view : (key : Bytes) → ht_get t key ≡ ok (view t.entries key)
    unfolding ht_get
    ht_get-view key = let (p, run, ends) = start-Ends key in rw run (read p (Ends-view key p ends))
      where
        read :
            (p : Probe V)
            → view t.entries key ≡ seen p
            → (elim p [ empty _ ↦ ok none | found _ e ↦ ok (some e.value) ])
              ≡ ok (view t.entries key)
        read (empty i) h = ap ok (sym h)
        read (found i e) h = ap ok (sym h)
