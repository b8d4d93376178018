-- ===== src/Vm/Image/Wire.antt =====
-- The numbers and strings of a file, written and read back.
use Prim.Native.Nat.{bit_and}
use opsh_actual.Base.{
  ℕ, ◌+◌, ◌*◌, ◌/◌, ◌%◌, ◌^◌, ◌<◌, ◌≡◌, refl, ap, false, some, List, [], ◌∷◌, ◌++◌, length, Bytes,
  arith,
}
use opsh_actual.Base.Bits.{bit_and_mask}
use opsh_actual.Vm.Image.Write.{write_u8, write_u16, write_u32}
use opsh_actual.Vm.Image.Read.{
  ReadCtx, ctx_read_u8, ctx_read_u16, ctx_read_u32, split_at, ctx_read_bytes,
}

-- A file of which these bytes are left.
abbrev pub input : Bytes → ReadCtx
input bs = record { rest = bs; error = false }

low_byte : (v : ℕ) → bit_and v 0xFF ≡ v % 256
low_byte v = bit_and_mask 8 v

pub u8_back : (v : ℕ) (rest : Bytes) → ctx_read_u8 (input (write_u8 v ++ rest)) ≡ (v, input rest)
unfolding ctx_read_u8
u8_back v rest = refl

two_bytes : (v : ℕ) → v < 2 ^ 16 → bit_and v 0xFF + bit_and (v / 256) 0xFF * 256 ≡ v
two_bytes v h = rw (low_byte v, low_byte (v / 256)) (omega arith)

pub u16_back :
    (v : ℕ) (rest : Bytes)
    → v < 2 ^ 16
    → ctx_read_u16 (input (write_u16 v ++ rest)) ≡ (v, input rest)
unfolding ctx_read_u16 ctx_read_u8
u16_back v rest h = ap (λ n. (n, input rest)) (two_bytes v h)

four_bytes :
    (v : ℕ)
    → v < 2 ^ 32
    → bit_and v 0xFF
        + bit_and (v / 256) 0xFF * 256
        + bit_and (v / 65536) 0xFF * 65536
        + bit_and (v / 16777216) 0xFF * 16777216
      ≡ v
four_bytes v h =
    rw (low_byte v, low_byte (v / 256), low_byte (v / 65536), low_byte (v / 16777216)) (omega arith)

pub u32_back :
    (v : ℕ) (rest : Bytes)
    → v < 2 ^ 32
    → ctx_read_u32 (input (write_u32 v ++ rest)) ≡ (v, input rest)
unfolding ctx_read_u32 ctx_read_u8
u32_back v rest h = ap (λ n. (n, input rest)) (four_bytes v h)

pub split_at-append {ℓ} :
    {A : Type ℓ} (xs ys : List A) → split_at (length xs) (xs ++ ys) ≡ some (xs, ys)
unfolding split_at
split_at-append [] ys = refl
split_at-append (x ∷ xs) ys = rw (split_at-append xs ys)

pub bytes_back :
    (s rest : Bytes) → ctx_read_bytes (input (s ++ rest)) (length s) ≡ (some s, input rest)
unfolding ctx_read_bytes
bytes_back s rest = rw (split_at-append s rest)
