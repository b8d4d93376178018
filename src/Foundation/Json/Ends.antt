-- ===== src/Foundation/Json/Ends.antt =====
-- The key search ends on every text, whatever it holds.
use opsh_actual.Base.{
  ℕ, zero, suc, ◌≤◌, ◌<◌, ◌≡◌, refl, Bool, false, not, ◌&&◌, ◌||◌, ◌==◌, if◌then◌else◌, Option,
  none, some, [], ◌∷◌, length, Bytes, str_eq, arith, Bool-cases, inl, inr,
}
use opsh_actual.Base.Run.{ok, Returns}
use opsh_actual.Foundation.Json.{
  is_ws, json_skip_ws, raw_string, Place, outside, next_place, next_depth, skip_nested, skip_scalar,
  skip_from, json_skip_value, skip_colon, at_entry, Round, leave, again, find_loop, find_in,
  json_find_key,
}

json_skip_ws-le : (s : Bytes) → length (json_skip_ws s) ≤ length s
unfolding json_skip_ws
json_skip_ws-le [] = omega arith
json_skip_ws-le (c ∷ s) = elim (Bool-cases (is_ws c)) [
  | inl blank ↦ rw blank (omega (arith, json_skip_ws-le s))
  | inr other ↦ rw other (omega arith)
]

raw_string-le : (escaped : Bool) (s : Bytes) → length (raw_string escaped s).1 ≤ length s
unfolding raw_string
raw_string-le escaped [] = omega arith
raw_string-le escaped (c ∷ s) = elim (Bool-cases (not escaped && c == b'"')) [
  | inl end ↦ rw end (omega arith)
  | inr more ↦ rw more (omega (arith, raw_string-le (not escaped && c == b'\\') s))
]

skip_nested-le :
    (opening closing : ℕ) (place : Place) (depth : ℕ) (s : Bytes)
    → length (skip_nested opening closing place depth s) ≤ length s
unfolding skip_nested
skip_nested-le opening closing place zero s = omega arith
skip_nested-le opening closing place (suc depth) [] = omega arith
skip_nested-le opening closing place (suc depth) (c ∷ s) = omega (
  arith,
  skip_nested-le opening closing (next_place place c)
      (next_depth place opening closing c (suc depth)) s,
)

skip_scalar-le : (s : Bytes) → length (skip_scalar s) ≤ length s
unfolding skip_scalar
skip_scalar-le [] = omega arith
skip_scalar-le (c ∷ s) = elim (Bool-cases (c == b',' || c == b'}' || c == b']')) [
  | inl end ↦ rw end (omega arith)
  | inr more ↦ rw more (omega (arith, skip_scalar-le s))
]

skip_from-le : (s : Bytes) → length (skip_from s) ≤ length s
unfolding skip_from
skip_from-le [] = omega arith
skip_from-le (c ∷ s) = elim (Bool-cases (c == b'"')) [
  | inl a ↦ rw a (omega (arith, raw_string-le false s))
  | inr a ↦ elim (Bool-cases (c == b'{')) [
    | inl b ↦ rw (a, b) (omega (arith, skip_nested-le b'{' b'}' outside 1 s))
    | inr b ↦ elim (Bool-cases (c == b'[')) [
      | inl d ↦ rw (a, b, d) (omega (arith, skip_nested-le b'[' b']' outside 1 s))
      | inr d ↦ rw (a, b, d) (omega (arith, skip_scalar-le (c ∷ s)))
    ]
  ]
]

json_skip_value-le : (s : Bytes) → length (json_skip_value s) ≤ length s
unfolding json_skip_value
json_skip_value-le s = omega (arith, skip_from-le (json_skip_ws s), json_skip_ws-le s)

skip_colon-le : (s : Bytes) → length (skip_colon s) ≤ length s
skip_colon-le [] = omega arith
skip_colon-le (c ∷ s) = elim (Bool-cases (c == b':')) [
  | inl end ↦ rw end (omega arith)
  | inr more ↦ rw more (omega arith)
]

-- A round that goes on has read something.
abbrev Shorter : ℕ → Round → Type 0
Shorter n (leave found) = Unit {0}
Shorter n (again p) = length p < n

at_entry-Shorter : (key p : Bytes) → Shorter (length p) (at_entry key p)
unfolding at_entry
at_entry-Shorter key [] = tt
at_entry-Shorter key (c ∷ s) = elim (Bool-cases (c == b'}')) [
  | inl a ↦ rw a tt
  | inr a ↦ elim (Bool-cases (c == b',')) [
    | inl b ↦ rw (a, b) (omega arith)
    | inr b ↦ elim (Bool-cases (c == b'"')) [
      | inr d ↦ rw (a, b, d) tt
      | inl d ↦ rw (a, b, d) at_pair
    ]
  ]
]
  where
    at_pair :
        let (name, rest) = raw_string false s in
        let p = json_skip_ws (skip_colon (json_skip_ws rest)) in
        Shorter
          (suc (length s))
          (if str_eq name key then leave (some p) else again (json_skip_value p))
    at_pair =
        let rest = (raw_string false s).1 in
        let p = json_skip_ws (skip_colon (json_skip_ws rest)) in
        elim (Bool-cases (str_eq (raw_string false s).0 key)) [
          | inl same ↦ rw same tt
          | inr other ↦ rw other (
              omega (
                arith,
                json_skip_value-le p,
                json_skip_ws-le (skip_colon (json_skip_ws rest)),
                skip_colon-le (json_skip_ws rest),
                json_skip_ws-le rest,
                raw_string-le false s,
              ))
        ]

find_loop-returns :
    (fuel : ℕ) (key p : Bytes) → length p < fuel → Returns (find_loop fuel key p) λ found. Unit {0}
unfolding find_loop
find_loop-returns zero key p h = absurd (omega arith)
find_loop-returns (suc fuel) key [] h = (none, refl, tt)
find_loop-returns (suc fuel) key (c ∷ s) h =
    round (at_entry key (json_skip_ws (c ∷ s))) (at_entry-Shorter key (json_skip_ws (c ∷ s)))
      (find_loop-returns fuel key)
  where
    round :
        (r : Round)
        → Shorter (length (json_skip_ws (c ∷ s))) r
        → ((p : Bytes) → length p < fuel → Returns (find_loop fuel key p) λ found. Unit {0})
        → Returns
            (elim r [ leave found ↦ ok found | again p ↦ find_loop fuel key p ])
            λ found. Unit {0}
    round (leave found) less later = (found, refl, tt)
    round (again p) less later = later p (omega (arith, json_skip_ws-le (c ∷ s)))

-- The search for a key returns on every text, well-formed or not.
pub json_find_key-returns :
    (json key : Bytes) → (found : Option Bytes) × (json_find_key json key ≡ ok found)
unfolding json_find_key
json_find_key-returns json key = from (json_skip_ws json)
  where
    from : (p : Bytes) → (found : Option Bytes) × (find_in key p ≡ ok found)
    from [] = (none, refl)
    from (c ∷ s) = elim (Bool-cases (c == b'{')) [
      | inl object ↦
          let (found, run, done) = find_loop-returns (suc (length s)) key s (omega arith) in
          (found, rw object run)
      | inr other ↦ (none, rw other)
    ]
