-- ===== src/Foundation/Plist/Sequence.antt =====
-- The array is the sequence of what was added, less what was removed.
use opsh_actual.Base.{
  ℕ, ◌*◌, ◌^◌, ◌≤◌, ◌<◌, ◌≡◌, refl, ◌∙◌, true, false, leb, ltb, if◌then◌else◌, none, some, List, [],
  ◌∷◌, ◌++◌, length, length-append, arith, Bool-cases, inl, inr,
}
use opsh_actual.Base.Run.{ok, Returns}
use opsh_actual.Foundation.Plist.{
  Plist, plist_init, plist_grow, store_last, plist_add, take_out, plist_remove,
}
use opsh_actual.Foundation.Util.{checked_mul, checked_mul_lem}

module _ {ℓ} {V : Type ℓ} where
  pub record IsValid (list : Plist V) : Type ℓ where
    pub room : length list.contents ≤ list.capacity
    pub some_room : 0 < list.capacity

  pub plist_init-IsValid : IsValid plist_init
  unfolding plist_init
  plist_init-IsValid = record { room = omega arith; some_room = omega arith }

  -- With a capacity below 2^59, whose double still is a number of bytes, adding returns, in a valid
  -- array with the pointer behind the others, within at most twice the capacity.
  pub plist_add-appends :
      (list : Plist V) (ptr : V)
      → IsValid list
      → list.capacity < 2 ^ 59
      → Returns (plist_add list ptr) λ list'.
        IsValid list'
        × (list'.contents ≡ list.contents ++ ptr ∷ [])
        × (list'.capacity ≤ list.capacity * 2)
  unfolding plist_add plist_grow store_last
  plist_add-appends list ptr v small =
      elim (Bool-cases (leb list.capacity (length list.contents))) [
        | inr free ↦
            let fits : ltb (length list.contents) list.capacity ≡ true = ground arith in
            (
              record list { contents = list.contents ++ ptr ∷ [] },
              rw (plist_add, free, fits) refl,
              (
                record {
                  room = omega (arith, length-append list.contents (ptr ∷ []), less free);
                  some_room = v.some_room;
                },
                refl,
                omega arith,
              ),
            )
        | inl full ↦
            let doubled : checked_mul list.capacity 2 ≡ some (list.capacity * 2) =
              checked_mul_lem list.capacity 2 ∙ within (list.capacity * 2) (omega arith) in
            let bytes : checked_mul (list.capacity * 2) 8 ≡ some (list.capacity * 2 * 8) =
              checked_mul_lem (list.capacity * 2) 8
              ∙ within (list.capacity * 2 * 8) (omega arith) in
            let fits : ltb (length list.contents) (list.capacity * 2) ≡ true =
              more v.room v.some_room in
            (
              record { contents = list.contents ++ ptr ∷ []; capacity = list.capacity * 2 },
              rw (plist_add, full, plist_grow, doubled, bytes, store_last, fits) refl,
              (
                record {
                  room = omega (arith, length-append list.contents (ptr ∷ []), v.room, v.some_room);
                  some_room = omega (arith, v.some_room);
                },
                refl,
                omega arith,
              ),
            )
      ]
    where
      less : leb list.capacity (length list.contents) ≡ false → length list.contents < list.capacity
      less h = ground arith

      more :
          length list.contents ≤ list.capacity
          → 0 < list.capacity
          → ltb (length list.contents) (list.capacity * 2) ≡ true
      more h h' = ground arith

      within : (n : ℕ) → n < 2 ^ 64 → (if ltb 18446744073709551615 n then none else some n) ≡ some n
      within n h = ground arith

  take_out-parts :
      (before : List V) (x : V) (behind : List V)
      → take_out (length before) (before ++ x ∷ behind) ≡ some (x, before ++ behind)
  unfolding take_out
  take_out-parts [] x behind = refl
  take_out-parts (b ∷ before) x behind = rw (take_out, take_out-parts before x behind) refl

  -- Removing at the number of elements before one returns it, and closes the gap.
  pub plist_remove-parts :
      (before : List V) (x : V) (behind : List V) (capacity : ℕ)
      → plist_remove
          (record { contents = before ++ x ∷ behind; capacity = capacity })
          (length before)
        ≡ ok (x, record { contents = before ++ behind; capacity = capacity })
  unfolding plist_remove
  plist_remove-parts before x behind capacity =
      rw (plist_remove, take_out-parts before x behind) refl
