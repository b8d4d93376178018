-- ===== src/Foundation/Plist.antt =====
-- src/foundation/plist.c: a growing array of pointers, whose targets are values of any type.
-- Removing at an index that is not below the length is undefined: the code then reads what was never
-- stored and moves a negative number of elements.
pub mod Sequence
use opsh_actual.Base.{
  ℕ, zero, suc, ◌+◌, ◌*◌, Bool, leb, ltb, if◌then◌else◌, Option, none, some, List, [], ◌∷◌, ◌++◌,
  length,
}
use opsh_actual.Base.Run.{Run, ok, stop, aborted, out_of_bounds, undefined, ◌>>=◌}
use opsh_actual.Foundation.Util.{checked_mul}

abbrev pub plist_initial_cap : ℕ
plist_initial_cap = 16

-- `sizeof(void *)`
abbrev pub pointer_size : ℕ
pointer_size = 8

pub record Plist {ℓ} (V : Type ℓ) : Type ℓ where
  pub contents : List V
  pub capacity : ℕ

module _ {ℓ} {V : Type ℓ} where
  unfoldable pub plist_init : Plist V
  plist_init = record { contents = []; capacity = plist_initial_cap }

  unfoldable pub plist_grow : Plist V → Run (Plist V)
  plist_grow list = elim (checked_mul list.capacity 2) [
    | none ↦ stop aborted
    | some new_cap ↦ elim (checked_mul new_cap pointer_size) [
      | none ↦ stop aborted
      | some byte_size ↦ ok (record list { capacity = new_cap })
    ]
  ]

  -- `list->contents[list->length++] = ptr`
  unfoldable pub store_last : V → Plist V → Run (Plist V)
  store_last ptr list =
      if ltb (length list.contents) list.capacity
      then ok (record list { contents = list.contents ++ ptr ∷ [] })
      else stop out_of_bounds

  unfoldable pub plist_add : Plist V → V → Run (Plist V)
  plist_add list ptr =
      (if leb list.capacity (length list.contents) then plist_grow list else ok list)
      >>= store_last ptr

  -- The element at an index, and the elements before and behind it.
  unfoldable pub take_out : ℕ → List V → Option (V × List V)
  take_out i [] = none
  take_out zero (x ∷ xs) = some (x, xs)
  take_out (suc i) (x ∷ xs) = elim (take_out i xs) [ none ↦ none | some r ↦ some (r.0, x ∷ r.1) ]

  unfoldable pub plist_remove : Plist V → ℕ → Run (V × Plist V)
  plist_remove list index = elim (take_out index list.contents) [
    | none ↦ stop undefined
    | some r ↦ ok (r.0, record list { contents = r.1 })
  ]

  unfoldable pub plist_clear : Plist V → Plist V
  plist_clear list = record list { contents = [] }
