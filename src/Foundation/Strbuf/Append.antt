-- ===== src/Foundation/Strbuf/Append.antt =====
-- Appending to a buffer.
use Prim.Native.Nat.{max}
use native.Mathlib.Nat.{mul_comm, mul_assoc}
use opsh_actual.Base.{
  ℕ, zero, suc, ◌+◌, ◌*◌, ◌^◌, ◌≤◌, ◌<◌, ◌≡◌, refl, sym, ap, ◌∙◌, Bool, true, false, leb, ltb, none,
  some, ◌++◌, length, length-append, Bytes, arith, Bool-cases, inl, inr,
}
use opsh_actual.Base.Bits.{pow_double}
use opsh_actual.Base.Run.{stop, aborted, Returns}
use opsh_actual.Foundation.Strbuf.{
  Strbuf, grow, enlarge, strbuf_ensure_capacity, put_bytes, strbuf_append_bytes, strbuf_init,
}
use opsh_actual.Foundation.Util.{
  checked_add, checked_mul, checked_add_lem, checked_mul_lem, size_max,
}

-- The terminator has room, and the capacity is a size_t of 16 or more.
pub record IsValid (buf : Strbuf) : Type 0 where
  pub room : length buf.contents < buf.capacity
  pub wide : 16 ≤ buf.capacity
  pub fits : buf.capacity ≤ size_max

pub strbuf_init-IsValid : IsValid strbuf_init
unfolding strbuf_init
strbuf_init-IsValid = record { room = omega arith; wide = omega arith; fits = omega arith }

double_first : (c k : ℕ) → c * 2 ^ suc k ≡ c * 2 * 2 ^ k
double_first c k =
    rw (pow_double k) (ap (λ q. c * q) (mul_comm (2 ^ k) 2) ∙ sym (mul_assoc c 2 (2 ^ k)))

-- What the loop returns: room, at no more than twice the need.
abbrev Grows : ℕ → ℕ → ℕ → Type 0
Grows cap needed new =
    (needed ≤ new) × (cap ≤ new) × (new ≤ max cap (needed * 2)) × (new ≤ size_max)

grow-Grows :
    (fuel cap needed : ℕ)
    → needed ≤ cap * 2 ^ fuel
    → needed ≤ size_max
    → cap ≤ size_max
    → Returns (grow (suc fuel) cap needed) (Grows cap needed)
unfolding grow
grow-Grows zero cap needed enough fits small =
    let done : ltb cap needed ≡ false = ground arith in
    (cap, rw done, (omega arith, omega arith, omega arith, omega arith))
grow-Grows (suc fuel) cap needed enough fits small = elim (Bool-cases (ltb cap needed)) [
  | inr done ↦ (cap, rw done, (ground arith, omega arith, omega arith, omega arith))
  | inl less ↦ elim (Bool-cases (ltb size_max (cap * 2))) [
    | inl over ↦
        let refused : checked_mul cap 2 ≡ none = checked_mul_lem cap 2 ∙ rw over refl in
        (needed, rw (less, refused), (omega arith, ground arith, omega arith, omega arith))
    | inr within ↦
        let doubled : checked_mul cap 2 ≡ some (cap * 2) = checked_mul_lem cap 2 ∙ rw within refl in
        let (new, run, (a, b, c, d)) =
          grow-Grows fuel (cap * 2) needed (omega (arith, double_first cap fuel)) fits
            (ground arith) in
        (new, rw (less, doubled) run, (a, omega arith, ground arith, d))
  ]
]

-- What appending does, by whether a size_t holds the length with the terminator.
abbrev pub Appends : Strbuf → Bytes → Bool → Type 0
Appends buf s true = strbuf_append_bytes buf s ≡ stop aborted
Appends buf s false = Returns (strbuf_append_bytes buf s) λ buf'.
    IsValid buf'
    × (buf'.contents ≡ buf.contents ++ s)
    × (buf'.capacity ≤ max buf.capacity ((length buf.contents + length s + 1) * 2))

enlarge-Grows :
    (buf : Strbuf) (needed : ℕ)
    → IsValid buf
    → needed ≤ size_max
    → Returns
        (enlarge buf needed)
        λ buf'. (buf'.contents ≡ buf.contents) × Grows buf.capacity needed buf'.capacity
enlarge-Grows buf needed v fits = elim (Bool-cases (leb needed buf.capacity)) [
  | inl enough ↦ (buf, rw enough, (refl, (ground arith, omega arith, omega arith, v.fits)))
  | inr short ↦
      let (new, run, g) = grow-Grows 64 buf.capacity needed (omega (arith, v.wide)) fits v.fits in
      (record buf { capacity = new }, rw (short, run), (refl, g))
]

-- Appending to a valid buffer aborts exactly if a size_t does not hold the new length and the
-- terminator. Otherwise it returns a valid buffer with the bytes behind the old ones, its writes
-- stay within the capacity, and the capacity is at most the old one or twice the need.
pub strbuf_append_bytes-Appends :
    (buf : Strbuf) (s : Bytes)
    → IsValid buf
    → length s ≤ size_max
    → Appends buf s (ltb size_max (length buf.contents + length s + 1))
unfolding strbuf_append_bytes strbuf_ensure_capacity put_bytes
strbuf_append_bytes-Appends buf s v short =
    by_size (ltb size_max (length buf.contents + length s + 1)) refl
  where
    by_size :
        (over : Bool)
        → ltb size_max (length buf.contents + length s + 1) ≡ over
        → Appends buf s over
    by_size true over = elim (Bool-cases (ltb size_max (length buf.contents + length s))) [
      | inl first ↦
          let refused : checked_add (length buf.contents) (length s) ≡ none =
            checked_add_lem (length buf.contents) (length s) short ∙ rw first refl in
          rw (strbuf_append_bytes, strbuf_ensure_capacity, refused) refl
      | inr holds ↦
          let first : checked_add (length buf.contents) (length s)
              ≡ some (length buf.contents + length s) =
            checked_add_lem (length buf.contents) (length s) short ∙ rw holds refl in
          let refused : checked_add (length buf.contents + length s) 1 ≡ none =
            checked_add_lem (length buf.contents + length s) 1 (omega arith) ∙ rw over refl in
          rw (strbuf_append_bytes, strbuf_ensure_capacity, first, refused) refl
    ]
    by_size false fits =
        let low : length buf.contents + length s + 1 ≤ size_max = ground arith in
        let holds : ltb size_max (length buf.contents + length s) ≡ false = below low in
        let first : checked_add (length buf.contents) (length s)
            ≡ some (length buf.contents + length s) =
          checked_add_lem (length buf.contents) (length s) short ∙ rw holds refl in
        let second : checked_add (length buf.contents + length s) 1
            ≡ some (length buf.contents + length s + 1) =
          checked_add_lem (length buf.contents + length s) 1 (omega arith) ∙ rw fits refl in
        let (buf', run, (same, (a, b, c, d))) =
          enlarge-Grows buf (length buf.contents + length s + 1) v low in
        let room : ltb (length buf'.contents + length s) buf'.capacity ≡ true = rw same (fit a) in
        (
          record buf' { contents = buf'.contents ++ s },
          rw (strbuf_append_bytes, strbuf_ensure_capacity, first, second, run, put_bytes, room)
              refl,
          (
            record {
              room = omega (arith, length-append buf'.contents s, ap length same, a);
              wide = omega (arith, v.wide);
              fits = d;
            },
            ap (λ t. t ++ s) same,
            c,
          ),
        )
      where
        below :
            length buf.contents + length s + 1 ≤ size_max
            → ltb size_max (length buf.contents + length s) ≡ false
        below h = ground arith

        fit :
            {cap : ℕ}
            → length buf.contents + length s + 1 ≤ cap
            → ltb (length buf.contents + length s) cap ≡ true
        fit h = ground arith
