-- ===== src/Foundation/Hashtable/Visits.antt =====
-- `ht_foreach`: what a callback sees that never stops it.
use opsh_actual.Base.{
  suc, ◌≡◌, refl, sym, ap, ◌∙◌, Bool, true, Option, none, some, List, [], ◌∷◌, ◌++◌, length, Bytes,
  str_eq, if◌then◌else◌,
}
use opsh_actual.Base.Run.{ok}
use opsh_actual.Foundation.Hashtable.{Slots, Hashtable, visit, ht_foreach, ht_get}
use opsh_actual.Foundation.Hashtable.Valid.{IsValid, ht_get-view}
use opsh_actual.Foundation.Hashtable.View.{view, occupied}

module _ {ℓ} {V : Type ℓ} where
  -- A callback that notes each pair behind those before it.
  abbrev pub note : Bytes → V → List (Bytes × V) → Bool × List (Bytes × V)
  note key value noted = (true, noted ++ (key, value) ∷ [])

  -- The value under a key in a list of pairs.
  abbrev pub value_in : List (Bytes × V) → Bytes → Option V
  value_in [] q = none
  value_in ((key, v) ∷ ps) q = if str_eq key q then some v else value_in ps q

  abbrev pairs : Slots V → List (Bytes × V)
  pairs [] = []
  pairs (none ∷ es) = pairs es
  pairs (some e ∷ es) = (e.key, e.value) ∷ pairs es

  append_assoc : (xs ys zs : List (Bytes × V)) → (xs ++ ys) ++ zs ≡ xs ++ (ys ++ zs)
  append_assoc [] ys zs = refl
  append_assoc (x ∷ xs) ys zs = ap (λ l. x ∷ l) (append_assoc xs ys zs)

  visit-note : (es : Slots V) (noted : List (Bytes × V)) → visit note es noted ≡ noted ++ pairs es
  unfolding visit
  visit-note [] noted = sym (append_nil noted)
    where
      append_nil : (xs : List (Bytes × V)) → xs ++ [] ≡ xs
      append_nil [] = refl
      append_nil (x ∷ xs) = ap (λ l. x ∷ l) (append_nil xs)
  visit-note (none ∷ es) noted = visit-note es noted
  visit-note (some e ∷ es) noted =
      visit-note es (noted ++ (e.key, e.value) ∷ [])
      ∙ append_assoc noted ((e.key, e.value) ∷ []) (pairs es)

  value_in-pairs : (es : Slots V) (q : Bytes) → value_in (pairs es) q ≡ view es q
  unfolding view
  value_in-pairs [] q = refl
  value_in-pairs (none ∷ es) q = value_in-pairs es q
  value_in-pairs (some e ∷ es) q =
      ap (λ o. if str_eq e.key q then some e.value else o) (value_in-pairs es q)

  length-pairs : (es : Slots V) → length (pairs es) ≡ occupied es
  unfolding occupied
  length-pairs [] = refl
  length-pairs (none ∷ es) = length-pairs es
  length-pairs (some e ∷ es) = ap suc (length-pairs es)

  -- In a valid table a callback that notes each pair and never stops notes as many pairs as the table
  -- counts, and under every key the list has the value that `ht_get` finds.
  pub ht_foreach-note :
      (t : Hashtable V)
      → IsValid t
      → let noted = ht_foreach t note [] in
        (length noted ≡ t.count) × ((q : Bytes) → ht_get t q ≡ ok (value_in noted q))
  unfolding ht_foreach
  ht_foreach-note t valid =
      let all : visit note t.entries [] ≡ pairs t.entries = visit-note t.entries [] in
      rw all (
        length-pairs t.entries ∙ valid.counted,
        λ q. ht_get-view valid q ∙ ap ok (sym (value_in-pairs t.entries q)),
      )
