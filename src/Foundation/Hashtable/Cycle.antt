-- ===== src/Foundation/Hashtable/Cycle.antt =====
-- Positions of the probe order, which wraps round at the end of the array.
use Prim.Native.Nat.{bit_and}
use native.Mathlib.Nat.{mod-lt}
use opsh_actual.Base.{
  ℕ, ◌+◌, ◌-◌, ◌^◌, ◌≤◌, ◌<◌, ◌≡◌, ◌≢◌, true, false, leb, ◌==◌, if◌then◌else◌, arith,
}
use opsh_actual.Base.Bits.{bit_and_mask}
use opsh_actual.Foundation.Hashtable.{shifts}

-- The number of steps from `a` forward to `b` in a cycle of `n`.
unfoldable pub dist : ℕ → ℕ → ℕ → ℕ
dist n a b = if leb a b then b - a else b + n - a

unfoldable pub next : ℕ → ℕ → ℕ
next n i = if i + 1 == n then 0 else i + 1

module _ (n : ℕ) where
  pub dist-lt : (a b : ℕ) → a < n → b < n → dist n a b < n
  unfolding dist
  dist-lt a b ha hb = ground arith

  pub dist_self : (a : ℕ) → dist n a a ≡ 0
  unfolding dist
  dist_self a = ground arith

  pub dist_injective : (a b c : ℕ) → a < n → b < n → c < n → dist n a b ≡ dist n a c → b ≡ c
  unfolding dist
  dist_injective a b c ha hb hc e = ground arith

  pub dist-pos : (a b : ℕ) → a < n → b < n → a ≢ b → 0 < dist n a b
  unfolding dist
  dist-pos a b ha hb e = ground arith

  -- A position on the way splits the way.
  pub dist_split :
      (s h j : ℕ)
      → s < n
      → h < n
      → j < n
      → dist n s h ≤ dist n s j
      → dist n s j ≡ dist n s h + dist n h j
  unfolding dist
  dist_split s h j hs hh hj e = ground arith

  -- What is nearer to `h` than the end of the way lies on the way.
  pub dist_between :
      (s h p j : ℕ)
      → s < n
      → h < n
      → p < n
      → j < n
      → dist n s h ≤ dist n s j
      → dist n h p ≤ dist n h j
      → dist n s p ≡ dist n s h + dist n h p
  unfolding dist
  dist_between s h p j hs hh hp hj e f = ground arith

  pub next-lt : (i : ℕ) → i < n → next n i < n
  unfolding next
  next-lt i h = ground arith

  pub dist-next :
      (a i : ℕ) → a < n → i < n → dist n a i + 1 < n → dist n a (next n i) ≡ dist n a i + 1
  unfolding dist next
  dist-next a i ha hi h = ground arith

  -- The code's test says that the hole lies before the entry on the entry's way from its home.
  pub shifts_iff_before :
      (idx scan natural : ℕ)
      → idx < n
      → scan < n
      → natural < n
      → idx ≢ scan
      → (shifts idx scan natural ≡ true → dist n natural idx < dist n natural scan)
        × (shifts idx scan natural ≡ false → dist n natural scan ≤ dist n natural idx)
  unfolding dist shifts
  shifts_iff_before idx scan natural hi hs hn e = (λ t. ground arith, λ f. ground arith)

-- `(i + 1) & mask` is the next position.
pub mask-next : (k i : ℕ) → i < 2 ^ k → bit_and (i + 1) (2 ^ k - 1) ≡ next (2 ^ k) i
unfolding next
mask-next k i h = grind (arith, bit_and_mask)

pub mask-lt : (k x : ℕ) → 0 < 2 ^ k → bit_and x (2 ^ k - 1) < 2 ^ k
mask-lt k x h = rw bit_and_mask (mod-lt x h)
