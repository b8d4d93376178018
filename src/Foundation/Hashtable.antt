-- ===== src/Foundation/Hashtable.antt =====
-- src/foundation/hashtable.c: open addressing with linear probing, FNV-1a and backward-shift
-- deletion. A key is a C string; `key == NULL` is the empty slot, whose other fields the code
-- never reads. The stored pointers are values of any type.
-- `count * 4` and `capacity * 3` could wrap only past 2^62 entries, more than memory holds.
pub mod Cycle
pub mod Placed
pub mod Search
pub mod View
pub mod Valid
pub mod Insert
pub mod Shift
pub mod Move
pub mod Remove
pub mod Grow
pub mod Session
pub mod Visits
use Prim.Native.Nat.{bit_and, bit_xor}
use opsh_actual.Base.{
  ℕ, zero, suc, ◌+◌, ◌-◌, ◌*◌, ◌%◌, ◌^◌, Bool, ◌&&◌, ◌||◌, ltb, leb, ◌==◌, if◌then◌else◌, Option,
  none, some, List, [], ◌∷◌, get_elem?, set, replicate, Bytes, str_eq,
}
use opsh_actual.Base.Run.{Run, ok, stop, aborted, out_of_fuel, ◌>>=◌, in_bounds}
use opsh_actual.Foundation.Util.{checked_mul}

pub record Entry {ℓ} (V : Type ℓ) : Type ℓ where
  pub key : Bytes
  pub value : V
  pub hash : ℕ

abbrev pub Slots {ℓ} : Type ℓ → Type ℓ
Slots V = List (Option (Entry V))

pub record Hashtable {ℓ} (V : Type ℓ) : Type ℓ where
  pub entries : Slots V
  pub capacity : ℕ
  pub count : ℕ

abbrev pub ht_initial_cap : ℕ
ht_initial_cap = 16

-- The loop of `ht_fnv1a`; the product wraps at 32 bits.
fnv1a_loop : Bytes → ℕ → ℕ
fnv1a_loop [] hash = hash
fnv1a_loop (c ∷ key) hash = fnv1a_loop key (bit_xor hash c * 16777619 % 2 ^ 32)

unfoldable pub ht_fnv1a : Bytes → ℕ
unfolding fnv1a_loop
ht_fnv1a key = fnv1a_loop key 2166136261

-- Whether the entry at `scan` moves back to the hole at `idx`.
unfoldable pub shifts : ℕ → ℕ → ℕ → Bool
shifts idx scan natural =
    if ltb idx scan
    then leb natural idx || ltb scan natural
    else ltb scan natural && leb natural idx

-- Where the search of a key ends: at an empty slot, or at the entry with the key.
pub data Probe {ℓ} (V : Type ℓ) : Type ℓ where
  empty : ℕ → Probe V
  found : ℕ → Entry V → Probe V

module _ {ℓ} {V : Type ℓ} where
  unfoldable pub ht_init : Hashtable V
  ht_init = record { entries = replicate ht_initial_cap none; capacity = ht_initial_cap; count = 0 }

  -- `e->hash == hash && strcmp(e->key, key) == 0`
  abbrev pub matches : ℕ → Bytes → Entry V → Bool
  matches hash key e = e.hash == hash && str_eq e.key key

  -- The search loop that `ht_get`, `ht_set` and `ht_remove` share.
  unfoldable pub probe : ℕ → Slots V → ℕ → ℕ → Bytes → ℕ → Run (Probe V)
  probe zero es mask hash key idx = stop out_of_fuel
  probe (suc fuel) es mask hash key idx =
      let rest = probe fuel es mask hash key (bit_and (idx + 1) mask) in
      in_bounds (get_elem? es idx) >>= λ s. elim s [
        | none ↦ ok (empty idx)
        | some e ↦ if matches hash key e then ok (found idx e) else rest
      ]

  -- The head of the three operations, with one round for each slot.
  unfoldable pub start : Hashtable V → Bytes → Run (Probe V)
  start t key =
      let hash = ht_fnv1a key in
      let mask = t.capacity - 1 in probe t.capacity t.entries mask hash key (bit_and hash mask)

  unfoldable pub ht_get : Hashtable V → Bytes → Run (Option V)
  ht_get t key = start t key >>= λ p. elim p [ empty _ ↦ ok none | found _ e ↦ ok (some e.value) ]

  -- `ht->count * HT_LOAD_FACTOR_DEN >= ht->capacity * HT_LOAD_FACTOR_NUM`
  abbrev pub is_loaded : Hashtable V → Bool
  is_loaded t = leb (t.capacity * 3) (t.count * 4)

  -- What `ht_set` does where the search ended.
  unfoldable pub place : Hashtable V → Bytes → V → Probe V → Option V × Hashtable V
  place t key value (empty idx) = (
    none,
    record t {
      entries = set t.entries idx (some (record { key = key; value = value; hash = ht_fnv1a key }));
      count = t.count + 1;
    },
  )
  place t key value (found idx e) =
      (some e.value, record t { entries = set t.entries idx (some (record e { value = value })) })

  -- `ht_set` after its load test.
  unfoldable pub insert : Hashtable V → Bytes → V → Run (Option V × Hashtable V)
  insert t key value = start t key >>= λ p. ok (place t key value p)

  -- The loop of `ht_resize` over the old entries, with the `ht_set` that it calls.
  unfoldable pub reinsert :
      (Hashtable V → Bytes → V → Run (Option V × Hashtable V))
      → Slots V
      → Hashtable V
      → Run (Hashtable V)
  reinsert store [] t = ok t
  reinsert store (none ∷ es) t = reinsert store es t
  reinsert store (some e ∷ es) t = store t e.key e.value >>= λ r. reinsert store es r.1

  unfoldable pub ht_resize :
      (Hashtable V → Bytes → V → Run (Option V × Hashtable V)) → Hashtable V → Run (Hashtable V)
  ht_resize store t = elim (checked_mul t.capacity 2) [
    | none ↦ stop aborted
    | some capacity ↦
        reinsert store t.entries
          (record { entries = replicate capacity none; capacity = capacity; count = 0 })
  ]

  -- `ht_set` and `ht_resize` call one another; the fuel is the depth of these calls.
  unfoldable pub set_at : ℕ → Hashtable V → Bytes → V → Run (Option V × Hashtable V)
  set_at zero t key value = stop out_of_fuel
  set_at (suc depth) t key value =
      let grown = ht_resize (set_at depth) t in
      (if is_loaded t then grown else ok t) >>= λ t'. insert t' key value

  unfoldable pub ht_set : Hashtable V → Bytes → V → Run (Option V × Hashtable V)
  unfolding set_at
  ht_set t key value = set_at 2 t key value

  -- The backward shift of `ht_remove`: the last hole, and the slots, where an entry that moved is
  -- still in its old place too.
  unfoldable pub backward_shift : ℕ → Slots V → ℕ → ℕ → ℕ → Run (ℕ × Slots V)
  backward_shift zero es mask idx scan = stop out_of_fuel
  backward_shift (suc fuel) es mask idx scan =
      let next = bit_and (scan + 1) mask in
      let stay = backward_shift fuel es mask idx next in
      in_bounds (get_elem? es scan) >>= λ s. elim s [
        | none ↦ ok (idx, es)
        | some ne ↦
            let move = backward_shift fuel (set es idx (some ne)) mask scan next in
            if shifts idx scan (bit_and ne.hash mask) then move else stay
      ]

  -- What `ht_remove` does where the search ended.
  unfoldable pub unlink : Hashtable V → Probe V → Run (Option V × Hashtable V)
  unlink t (empty _) = ok (none, t)
  unlink t (found idx e) =
      let mask = t.capacity - 1 in
      backward_shift t.capacity t.entries mask idx (bit_and (idx + 1) mask) >>= λ r.
      ok (some e.value, record t { entries = set r.1 r.0 none; count = t.count - 1 })

  unfoldable pub ht_remove : Hashtable V → Bytes → Run (Option V × Hashtable V)
  ht_remove t key = start t key >>= unlink t

  -- The visits of `ht_foreach`: the callback's state, and whether it returned 0.
  unfoldable pub visit {κ} : {C : Type κ} → (Bytes → V → C → Bool × C) → Slots V → C → C
  visit fn [] ctx = ctx
  visit fn (none ∷ es) ctx = visit fn es ctx
  visit fn (some e ∷ es) ctx =
      let (again, ctx') = fn e.key e.value ctx in
      let rest = visit fn es ctx' in if again then rest else ctx'

  unfoldable pub ht_foreach {κ} : {C : Type κ} → Hashtable V → (Bytes → V → C → Bool × C) → C → C
  unfolding visit
  ht_foreach t fn ctx = visit fn t.entries ctx
