-- ===== src/Vm/Machine/Words/Fields.antt =====
-- What OP_SPLIT_FIELDS leaves on the stack.
use mathlib.Core.List.{append_assoc}
use opsh_actual.Base.{
  ℕ, zero, suc, ◌+◌, ◌-◌, ◌≤◌, ◌<◌, ◌≡◌, refl, ◌∙◌, true, if◌then◌else◌, List, [], ◌∷◌, ◌++◌,
  length, All, Bytes, Bool-cases, inl, inr, arith,
}
use opsh_actual.Base.Run.{Returns}
use opsh_actual.Vm.Machine.Words.Split.{
  is_ifs, is_ifs_space, skip_ifs_space, take_field, last_field, skip_delimiters, split_loop, split,
}

-- The string without the characters of IFS.
unfoldable pub strip : Bytes → Bytes → Bytes
strip ifs [] = []
strip ifs (c ∷ s) = let rest = strip ifs s in if is_ifs ifs c then rest else c ∷ rest

abbrev pub concat : List Bytes → Bytes
concat [] = []
concat (s ∷ ss) = s ++ concat ss

abbrev pub IsWhole : Bytes → Bytes → Type 0
IsWhole ifs field = strip ifs field ≡ field

skip_ifs_space_lem :
    (ifs s : Bytes)
    → (strip ifs (skip_ifs_space ifs s) ≡ strip ifs s) × (length (skip_ifs_space ifs s) ≤ length s)
unfolding skip_ifs_space strip
skip_ifs_space_lem ifs [] = (refl, omega arith)
skip_ifs_space_lem ifs (c ∷ s) = ground (arith, skip_ifs_space_lem ifs s)

take_field_lem :
    (ifs s : Bytes)
    → IsWhole ifs (take_field ifs s).0
      × ((take_field ifs s).0 ++ strip ifs (take_field ifs s).1 ≡ strip ifs s)
      × (length (take_field ifs s).0 + length (take_field ifs s).1 ≡ length s)
unfolding take_field strip
take_field_lem ifs [] = (refl, refl, omega arith)
take_field_lem ifs (c ∷ s) = ground (arith, take_field_lem ifs s)

-- What is behind a field is empty or begins with a character of IFS.
abbrev Stops : Bytes → Bytes → Type 0
Stops ifs [] = Unit {0}
Stops ifs (c ∷ s) = is_ifs ifs c ≡ true

take_field-Stops : (ifs s : Bytes) → Stops ifs (take_field ifs s).1
unfolding take_field
take_field-Stops ifs [] = tt
take_field-Stops ifs (c ∷ s) = elim (Bool-cases (is_ifs ifs c)) [
  | inl found ↦ rw found found
  | inr other ↦ rw other (take_field-Stops ifs s)
]

-- The extra fields are empty, no other character is lost, and a delimiter at least is taken.
record Skipped (ifs behind : Bytes) (extra : List Bytes) (rest : Bytes) : Type 0 where
  empty : concat extra ≡ []
  whole : All (IsWhole ifs) extra
  kept : strip ifs rest ≡ strip ifs behind
  less : length rest ≤ length behind - 1

last_field-concat : (s : Bytes) → concat (last_field s) ≡ []
last_field-concat [] = refl
last_field-concat (c ∷ s) = refl

last_field-IsWhole : (ifs s : Bytes) → All (IsWhole ifs) (last_field s)
unfolding strip
last_field-IsWhole ifs [] = (refl, tt)
last_field-IsWhole ifs (c ∷ s) = tt

skip_ifs_space-lt :
    (ifs : Bytes) (c : ℕ) (s : Bytes)
    → is_ifs ifs c ≡ true
    → is_ifs_space c ≡ true
    → length (skip_ifs_space ifs (c ∷ s)) < length (c ∷ s)
unfolding skip_ifs_space
skip_ifs_space-lt ifs c s h space = ground (arith, skip_ifs_space_lem ifs s)

strip-ifs :
    (ifs : Bytes) (c : ℕ) (s : Bytes) → is_ifs ifs c ≡ true → strip ifs (c ∷ s) ≡ strip ifs s
unfolding strip
strip-ifs ifs c s h = rw h

skip_delimiters-Skipped :
    (ifs behind : Bytes)
    → Stops ifs behind
    → Skipped ifs behind (skip_delimiters ifs behind).0 (skip_delimiters ifs behind).1
unfolding skip_delimiters
skip_delimiters-Skipped ifs [] h = record {
  empty = refl;
  whole = tt;
  kept = refl;
  less = omega arith;
}
skip_delimiters-Skipped ifs (c ∷ s) h = elim (Bool-cases (is_ifs_space c)) [
  | inl space ↦
      rw (h, space)
        (record {
          empty = refl;
          whole = tt;
          kept = (skip_ifs_space_lem ifs (c ∷ s)).0;
          less = omega (arith, skip_ifs_space-lt ifs c s h space);
        })
  | inr other ↦
      let (kept, short) = skip_ifs_space_lem ifs s in
      rw (h, other)
        (record {
          empty = last_field-concat (skip_ifs_space ifs s);
          whole = last_field-IsWhole ifs (skip_ifs_space ifs s);
          kept = rw (strip-ifs ifs c s h) kept;
          less = omega arith;
        })
]

-- No field has a character of IFS, and together they are the other characters of the string.
abbrev pub Splits : Bytes → Bytes → List Bytes → Type 0
Splits ifs s fields = All (IsWhole ifs) fields × (concat fields ≡ strip ifs s)

concat-append : (xs ys : List Bytes) → concat (xs ++ ys) ≡ concat xs ++ concat ys
concat-append [] ys = refl
concat-append (x ∷ xs) ys = rw (concat-append xs ys, append_assoc)

All-append {ℓ κ} :
    {A : Type ℓ} (P : A → Type κ) (xs ys : List A) → All P xs → All P ys → All P (xs ++ ys)
All-append P [] ys hx hy = hy
All-append P (x ∷ xs) ys (p, hx) hy = (p, All-append P xs ys hx hy)

split_loop-Splits :
    (fuel : ℕ) (ifs s : Bytes) → length s ≤ fuel → Returns (split_loop fuel ifs s) (Splits ifs s)
unfolding split_loop
split_loop-Splits fuel ifs [] h = ([], refl, (tt, unfold strip in refl))
split_loop-Splits zero ifs (c ∷ s) h = absurd (omega arith)
split_loop-Splits (suc fuel) ifs (c ∷ s) h =
    let (field_whole, joined, lengths) = take_field_lem ifs (c ∷ s) in
    let behind = (take_field ifs (c ∷ s)).1 in
    let k = skip_delimiters-Skipped ifs behind (take_field-Stops ifs (c ∷ s)) in
    let rest = (skip_delimiters ifs behind).1 in
    let extra = (skip_delimiters ifs behind).0 in
    let less : length rest ≤ fuel = omega (arith, k.less) in
    let (fields, run, (whole, all)) = split_loop-Splits fuel ifs rest less in
    let text : concat (extra ++ fields) ≡ strip ifs behind =
      concat-append extra fields ∙ rw (k.empty, all) k.kept in
    (
      (take_field ifs (c ∷ s)).0 ∷ (extra ++ fields),
      rw run refl,
      ((field_whole, All-append (IsWhole ifs) extra fields k.whole whole), rw text joined),
    )

-- Splitting a string by the characters of IFS returns, no field has such a character, and the
-- fields together are the other characters of the string in their order.
pub split-Splits : (ifs s : Bytes) → Returns (split ifs s) (Splits ifs s)
unfolding split
split-Splits ifs s =
    let (kept, less) = skip_ifs_space_lem ifs s in
    let (fields, run, (whole, all)) =
      split_loop-Splits _ ifs (skip_ifs_space ifs s) (omega arith) in
    (fields, run, (whole, all ∙ kept))
