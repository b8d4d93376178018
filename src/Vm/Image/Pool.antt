-- ===== src/Vm/Image/Pool.antt =====
-- The constant pool: src/vm/vm.c `image_add_const`, and the lookups in src/vm/image_io.c.
use mathlib.Core.List.{append-nil}
use opsh_actual.Base.{
  ℕ, suc, ◌+◌, ◌≤◌, ◌<◌, ◌≡◌, ◌≢◌, refl, sym, ap, true, false, leb, ltb, if◌then◌else◌, none, some,
  List, [], ◌∷◌, ◌++◌, length, length-append, get_elem?, Bytes, str_eq, str_eq→eq, str_eq_refl,
  arith, Bool-cases, Option-cases, inl, inr, ◌⊎◌,
}
use opsh_actual.Base.Run.{ok, stop, aborted, Returns}
use opsh_actual.Vm.Image.{
  BytecodeImage, image_new, vm_const_pool_max, find_from, larger_pool, image_add_const,
}

-- `s` is none of the constants.
abbrev pub Absent : Bytes → List Bytes → Type 0
Absent s [] = Unit {0}
Absent s (t ∷ pool) = (t ≢ s) × Absent s pool

abbrev pub IsDistinct : List Bytes → Type 0
IsDistinct [] = Unit {0}
IsDistinct (s ∷ pool) = Absent s pool × IsDistinct pool

pub Absent→none :
    (i : ℕ) (pool : List Bytes) (s : Bytes) → Absent s pool → find_from i pool s ≡ none
unfolding find_from
Absent→none i [] s h = refl
Absent→none i (t ∷ pool) s (ne, h) = elim (Bool-cases (str_eq t s)) [
  | inl e ↦ absurd (ne (str_eq→eq t s e))
  | inr e ↦ rw e (Absent→none (suc i) pool s h)
]

none→Absent : (i : ℕ) (pool : List Bytes) (s : Bytes) → find_from i pool s ≡ none → Absent s pool
unfolding find_from
none→Absent i [] s h = tt
none→Absent i (t ∷ pool) s h = elim (Bool-cases (str_eq t s)) [
  | inl e ↦ cc (h, e)
  | inr e ↦ (λ p. cc (p, e, str_eq_refl s), none→Absent (suc i) pool s (rw e at h))
]

pub find_from-get_elem? :
    (i : ℕ) (pool : List Bytes) (s : Bytes) (n : ℕ)
    → find_from i pool s ≡ some n
    → (k : ℕ) × (n ≡ i + k) × (get_elem? pool k ≡ some s)
unfolding find_from
find_from-get_elem? i [] s n h = cc
find_from-get_elem? i (t ∷ pool) s n h = elim (Bool-cases (str_eq t s)) [
  | inl e ↦ (0, ground arith, ap some (str_eq→eq t s e))
  | inr e ↦
      let (k, at, found) = find_from-get_elem? (suc i) pool s n (rw e at h) in
      (suc k, omega arith, found)
]

pub Absent-of_IsDistinct :
    (pool : List Bytes) (s : Bytes) (more : List Bytes)
    → IsDistinct (pool ++ s ∷ more)
    → Absent s pool
Absent-of_IsDistinct [] s more h = tt
Absent-of_IsDistinct (t ∷ pool) s more (absent, h) =
    (differs pool absent, Absent-of_IsDistinct pool s more h)
  where
    differs : (pool : List Bytes) → Absent t (pool ++ s ∷ more) → t ≢ s
    differs [] (ne, rest) = λ e. ne (sym e)
    differs (u ∷ pool) (ne, rest) = differs pool rest

Absent-append :
    (t : Bytes) (pool : List Bytes) (s : Bytes) → s ≢ t → Absent t pool → Absent t (pool ++ s ∷ [])
Absent-append t [] s ne h = (ne, tt)
Absent-append t (u ∷ pool) s ne (other, h) = (other, Absent-append t pool s ne h)

IsDistinct-append :
    (pool : List Bytes) (s : Bytes) → IsDistinct pool → Absent s pool → IsDistinct (pool ++ s ∷ [])
IsDistinct-append [] s h absent = (tt, tt)
IsDistinct-append (t ∷ pool) s (fresh, h) (ne, absent) =
    (Absent-append t pool s (λ e. ne (sym e)) fresh, IsDistinct-append pool s h absent)

-- The constants are distinct and fit in the array, whose size is a uint16_t.
pub record IsValidPool (img : BytecodeImage) : Type 0 where
  pub distinct : IsDistinct img.const_pool
  pub within : length img.const_pool ≤ img.const_cap
  pub small : img.const_cap ≤ vm_const_pool_max

larger_pool_grows :
    (cap : ℕ)
    → cap < vm_const_pool_max
    → (cap < larger_pool cap) × (larger_pool cap ≤ vm_const_pool_max)
larger_pool_grows cap h = ground arith

-- The capacity at which a new constant is stored.
abbrev capacity_for : BytecodeImage → ℕ
capacity_for img =
    if leb img.const_cap (length img.const_pool) then larger_pool img.const_cap else img.const_cap

capacity_for_room :
    (img : BytecodeImage)
    → IsValidPool img
    → length img.const_pool < vm_const_pool_max
    → (length img.const_pool < capacity_for img) × (capacity_for img ≤ vm_const_pool_max)
capacity_for_room img v h = elim (Bool-cases (leb img.const_cap (length img.const_pool))) [
  | inl full ↦
      let reached : img.const_cap ≤ length img.const_pool = ground arith in
      let (lo, hi) = larger_pool_grows img.const_cap (omega (arith, v.within)) in
      rw full (omega arith, hi)
  | inr free ↦
      let room : length img.const_pool < img.const_cap = ground arith in rw free (room, v.small)
]

abbrev pub with_const : BytecodeImage → Bytes → BytecodeImage
with_const img s = record img {
  const_pool = img.const_pool ++ s ∷ [];
  const_cap = capacity_for img;
}

-- A constant that is new is stored behind the others while there is room.
pub image_add_const_new :
    (img : BytecodeImage) (s : Bytes)
    → IsValidPool img
    → Absent s img.const_pool
    → length img.const_pool < vm_const_pool_max
    → (image_add_const img s ≡ ok (length img.const_pool, with_const img s))
      × IsValidPool (with_const img s)
unfolding image_add_const
image_add_const_new img s v absent room =
    let (free, small) = capacity_for_room img v room in
    let fresh = Absent→none 0 img.const_pool s absent in
    let below : leb vm_const_pool_max (length img.const_pool) ≡ false = ground arith in
    let fits : ltb (length img.const_pool) (capacity_for img) ≡ true = ground arith in
    (
      rw (fresh, image_add_const, below, fits),
      record {
        distinct = IsDistinct-append img.const_pool s v.distinct absent;
        within = omega (arith, length-append img.const_pool (s ∷ []));
        small = small;
      },
    )

-- The string stands at the answered index, the constants before are where they were with at most
-- one more behind them, and nothing else of the image has changed.
pub record Added (img : BytecodeImage) (s : Bytes) (i : ℕ) (img' : BytecodeImage) : Type 0 where
  pub valid : IsValidPool img'
  pub stored : get_elem? img'.const_pool i ≡ some s
  pub one_more : length img'.const_pool ≤ length img.const_pool + 1
  pub kept : (more : List Bytes) × (img'.const_pool ≡ img.const_pool ++ more)
  pub rest : record img' { const_pool = img.const_pool; const_cap = img.const_cap } ≡ img

get_elem?-last : (pool : List Bytes) (s : Bytes) → get_elem? (pool ++ s ∷ []) (length pool) ≡ some s
get_elem?-last [] s = refl
get_elem?-last (t ∷ pool) s = get_elem?-last pool s

-- In an image whose constants are distinct and fit in their array, adding a string stops in one
-- case alone, by abort() for a new string when there are 65535 constants. Otherwise it answers an
-- index at which the string stands, the constants so far keep their indices, the pool stays valid
-- and nothing else changes.
pub image_add_const-Added :
    (img : BytecodeImage) (s : Bytes)
    → IsValidPool img
    → ((image_add_const img s ≡ stop aborted)
        × Absent s img.const_pool
        × (vm_const_pool_max ≤ length img.const_pool))
      ⊎ Returns (image_add_const img s) (λ (i, img'). Added img s i img')
unfolding image_add_const
image_add_const-Added img s v = elim (Option-cases (find_from 0 img.const_pool s)) [
  | inr (n, found) ↦
      let (k, at, here) = find_from-get_elem? 0 img.const_pool s n found in
      let same : n ≡ k = omega arith in
      inr (
        (n, img),
        rw (found, image_add_const),
        record {
          valid = v;
          stored = rw same here;
          one_more = omega arith;
          kept = ([], sym (append-nil img.const_pool));
          rest = refl;
        },
      )
  | inl fresh ↦
      let absent = none→Absent 0 img.const_pool s fresh in
      elim (Bool-cases (leb vm_const_pool_max (length img.const_pool))) [
        | inl full ↦ inl (rw (fresh, image_add_const, full), absent, ground arith)
        | inr below ↦
            let (run, valid) = image_add_const_new img s v absent (ground arith) in
            inr (
              (length img.const_pool, with_const img s),
              run,
              record {
                valid = valid;
                stored = get_elem?-last img.const_pool s;
                one_more = omega (arith, length-append img.const_pool (s ∷ []));
                kept = (s ∷ [], refl);
                rest = refl;
              },
            )
      ]
]

pub image_new-IsValidPool : IsValidPool image_new
unfolding image_new
image_new-IsValidPool = record { distinct = tt; within = omega arith; small = omega arith }
