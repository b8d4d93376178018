-- ===== src/Base/Bits.antt =====
-- Masking by a power of two minus one is the remainder.
use Prim.Native.Nat.{
  ℕ, zero, suc, ◌+◌, ◌-◌, ◌*◌, ◌/◌, ◌%◌, ◌^◌, ◌≤◌, ◌<◌, min, max, bit_and, bit_or, digits,
  bit_and-bitwise, bit_or-bitwise,
}
use mathlib.Core.Path.{◌≡◌, refl, sym, ap, ◌∙◌}
use native.Mathlib.Nat.{pow-suc, mod-lt, mod-eq_of_lt, mul-add-mod_self_right, div-add-mod'}
use native.Mathlib.Omega.{arith}

pub pow_double : (k : ℕ) → 2 ^ suc k ≡ 2 ^ k * 2
pow_double k = pow-suc 2 k

pub pow_pos : (k : ℕ) → 0 < 2 ^ k
pow_pos zero = omega arith
pow_pos (suc k) = omega (arith, pow_double k, pow_pos k)

-- An operation that works digit by digit: its law for one digit, and its value beside 0.
module _ (z : ℕ → ℕ) (f op : ℕ → ℕ → ℕ) (bitwise : (a b : ℕ) → op a b ≡ digits z f a a b) where
  at_zero : (n b : ℕ) → digits z f n 0 b ≡ z b
  at_zero zero b = refl
  at_zero (suc n) b = refl

  enough : (a b n m : ℕ) → a ≤ n → a ≤ m → digits z f n a b ≡ digits z f m a b
  enough zero b n m le le' = at_zero n b ∙ sym (at_zero m b)
  enough (suc a) b zero m le le' = absurd (omega arith)
  enough (suc a) b (suc n) zero le le' = absurd (omega arith)
  enough (suc a) b (suc n) (suc m) le le' =
      ap (λ q. q * 2 + f (suc a % 2) (b % 2))
        (enough (suc a / 2) (b / 2) n m (omega arith) (omega arith))

  by_halves :
      ((b : ℕ) → z b ≡ z (b / 2) * 2 + f 0 (b % 2))
      → (a b : ℕ) → op a b ≡ op (a / 2) (b / 2) * 2 + f (a % 2) (b % 2)
  by_halves base zero b = omega (arith, bitwise 0 b, bitwise 0 (b / 2), base b)
  by_halves base (suc a) b =
      let h = suc a / 2 in
      bitwise (suc a) b
      ∙ ap (λ q. q * 2 + f (suc a % 2) (b % 2))
          (enough h (b / 2) a h (omega arith) (omega arith) ∙ sym (bitwise h (b / 2)))

  beside_zero :
      (g : ℕ → ℕ)
      → ((b : ℕ) → z b ≡ z (b / 2) * 2 + f 0 (b % 2))
      → g 0 ≡ z 0
      → ((a : ℕ) → g a ≡ g (a / 2) * 2 + f (a % 2) 0)
      → (bound a : ℕ) → a ≤ bound
      → op a 0 ≡ g a
  beside_zero g base start step bound zero le = bitwise 0 0 ∙ sym start
  beside_zero g base start step zero (suc a) le = absurd (omega arith)
  beside_zero g base start step (suc bound) (suc a) le =
      let deeper = beside_zero g base start step bound (suc a / 2) (omega arith) in
      by_halves base (suc a) 0 ∙ ap (λ q. q * 2 + f (suc a % 2) 0) deeper ∙ sym (step (suc a))

bit_and_halves : (a b : ℕ) → bit_and a b ≡ bit_and (a / 2) (b / 2) * 2 + min (a % 2) (b % 2)
bit_and_halves = by_halves (λ b. zero) min bit_and bit_and-bitwise (λ b. omega arith)

bit_and-zero : (a : ℕ) → bit_and a 0 ≡ 0
bit_and-zero a =
    beside_zero (λ b. zero) min bit_and bit_and-bitwise (λ b. zero) (λ b. omega arith) refl
      (λ b. omega arith) a a (omega arith)

pub bit_or_halves : (a b : ℕ) → bit_or a b ≡ bit_or (a / 2) (b / 2) * 2 + max (a % 2) (b % 2)
bit_or_halves = by_halves (λ b. b) max bit_or bit_or-bitwise (λ b. omega arith)

pub bit_or-zero : (a : ℕ) → bit_or a 0 ≡ a
bit_or-zero a =
    beside_zero (λ b. b) max bit_or bit_or-bitwise (λ b. b) (λ b. omega arith) refl
      (λ b. omega arith) a a (omega arith)

mod_unique : (q r m : ℕ) → r < m → (q * m + r) % m ≡ r
mod_unique q r m h = mul-add-mod_self_right q m r ∙ mod-eq_of_lt h

mod_double_step : (a m : ℕ) → 0 < m → a % (m * 2) ≡ (a / 2) % m * 2 + a % 2
mod_double_step a m h =
    let q = a / 2 / m in
    let r = a / 2 % m in
    let low : r < m = mod-lt (a / 2) h in
    let whole : a ≡ q * (m * 2) + (r * 2 + a % 2) = omega (arith, div-add-mod' (a / 2) m) in
    let split : (q * (m * 2) + (r * 2 + a % 2)) % (m * 2) ≡ r * 2 + a % 2 =
      mod_unique q (r * 2 + a % 2) (m * 2) (omega arith) in
    ap_mod whole ∙ split
  where
    ap_mod : {x y : ℕ} → x ≡ y → x % (m * 2) ≡ y % (m * 2)
    ap_mod e = cc

-- `x & (2^k - 1)` is `x % 2^k`
pub bit_and_mask : (k a : ℕ) → bit_and a (2 ^ k - 1) ≡ a % 2 ^ k
bit_and_mask zero a = omega (arith, bit_and-zero a)
bit_and_mask (suc k) a =
    let m = 2 ^ k in
    let half : (m * 2 - 1) / 2 ≡ m - 1 = omega (arith, pow_pos k) in
    let odd : (m * 2 - 1) % 2 ≡ 1 = omega (arith, pow_pos k) in
    rw (pow_double k) (
      rw (bit_and_halves a (m * 2 - 1), half, odd)
        (omega (arith, bit_and_mask k (a / 2), mod_double_step a m (pow_pos k))))

pub bit_and-one : (a : ℕ) → bit_and a 1 ≡ a % 2
bit_and-one a = omega (arith, bit_and_halves a 1, bit_and-zero (a / 2))

-- The second lowest bit.
pub bit_and-two : (a : ℕ) → bit_and a 2 ≡ a / 2 % 2 * 2
bit_and-two a = omega (arith, bit_and_halves a 2, bit_and-one (a / 2))

-- `a | 1`
pub bit_or-one : (a : ℕ) → bit_or a 1 ≡ a / 2 * 2 + 1
bit_or-one a = omega (arith, bit_or_halves a 1, bit_or-zero (a / 2))
