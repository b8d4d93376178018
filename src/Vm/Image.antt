-- ===== src/Vm/Image.antt =====
-- src/vm/vm.h, src/vm/vm.c: the bytecode image, its constant pool and its code.
-- The arrays are lists, and each store is tested against the allocated capacity. The pointer of a
-- function to the image that holds its code is null in an image, so it has no field. A failed
-- allocation ends the program and is not modelled.
pub mod Pool
pub mod Write
pub mod Read
pub mod Wire
pub mod RoundTrip
pub mod Untrusted
use Prim.Native.Nat.{bit_and}
use opsh_actual.Base.{
  ℕ, zero, suc, ◌+◌, ◌*◌, ◌/◌, ◌%◌, Bool, leb, ltb, ◌==◌, if◌then◌else◌, Option, none, some, List,
  [], ◌∷◌, ◌++◌, length, Bytes, str_eq,
}
use opsh_actual.Base.Run.{Run, ok, stop, aborted, out_of_bounds, out_of_fuel, ◌>>=◌}
use opsh_actual.Foundation.Util.{checked_add, checked_mul}

abbrev pub vm_const_pool_max : ℕ
vm_const_pool_max = 65535

pub record VmModule : Type 0 where
  pub name : Bytes
  pub init_offset : ℕ

pub record VmFunc : Type 0 where
  pub name : Bytes
  pub bytecode_offset : ℕ

pub record BytecodeImage : Type 0 where
  pub const_pool : List Bytes
  pub const_cap : ℕ  -- uint16_t
  pub code : Bytes
  pub code_cap : ℕ
  pub funcs : List VmFunc
  pub modules : List VmModule

unfoldable pub image_new : BytecodeImage
image_new = record {
  const_pool = [];
  const_cap = 0;
  code = [];
  code_cap = 0;
  funcs = [];
  modules = [];
}

-- The index of the first constant equal to the string, from the index `i` on.
unfoldable pub find_from : ℕ → List Bytes → Bytes → Option ℕ
find_from i [] str = none
find_from i (s ∷ pool) str =
    let rest = find_from (suc i) pool str in if str_eq s str then some i else rest

-- A uint16_t doubles, or becomes the largest number of constants if that wraps.
abbrev pub larger_pool : ℕ → ℕ
larger_pool cap =
    let new_cap = if cap == 0 then 16 else cap * 2 % 65536 in
    if ltb new_cap cap then vm_const_pool_max else new_cap

unfoldable pub store_const : BytecodeImage → Bytes → ℕ → Run (ℕ × BytecodeImage)
store_const img str cap =
    if ltb (length img.const_pool) cap
    then ok (
      length img.const_pool,
      record img { const_pool = img.const_pool ++ str ∷ []; const_cap = cap },
    )
    else stop out_of_bounds

unfoldable pub image_add_const : BytecodeImage → Bytes → Run (ℕ × BytecodeImage)
unfolding store_const
image_add_const img str = elim (find_from 0 img.const_pool str) [
  | some i ↦ ok (i, img)
  | none ↦
      if leb vm_const_pool_max (length img.const_pool)
      then stop aborted
      else store_const img str (
          if leb img.const_cap (length img.const_pool)
          then larger_pool img.const_cap
          else img.const_cap)
]

-- The doubling loop.
unfoldable pub grow_code : ℕ → ℕ → ℕ → Run ℕ
grow_code zero new_cap needed = stop out_of_fuel
grow_code (suc fuel) new_cap needed =
    if ltb new_cap needed
    then elim (checked_mul new_cap 2) [
      | none ↦ ok needed
      | some doubled ↦ grow_code fuel doubled needed
    ]
    else ok new_cap

-- A size_t doubles at most 64 times.
abbrev pub enlarge_code : BytecodeImage → ℕ → Run BytecodeImage
enlarge_code img needed =
    if leb needed img.code_cap
    then ok img
    else (grow_code 65 (if img.code_cap == 0 then 64 else img.code_cap) needed >>= λ cap.
        ok (record img { code_cap = cap }))

unfoldable pub image_ensure_capacity : BytecodeImage → ℕ → Run BytecodeImage
image_ensure_capacity img additional = elim (checked_add (length img.code) additional) [
  | none ↦ stop aborted
  | some needed ↦ enlarge_code img needed
]

-- `img->code[img->code_size++] = byte`
unfoldable pub put_code : ℕ → BytecodeImage → Run BytecodeImage
put_code byte img =
    if ltb (length img.code) img.code_cap
    then ok (record img { code = img.code ++ byte ∷ [] })
    else stop out_of_bounds

unfoldable pub image_emit_u8 : BytecodeImage → ℕ → Run BytecodeImage
image_emit_u8 img byte = image_ensure_capacity img 1 >>= put_code byte

unfoldable pub image_emit_u16 : BytecodeImage → ℕ → Run BytecodeImage
image_emit_u16 img val =
    image_ensure_capacity img 2
    >>= put_code (bit_and val 0xFF)
    >>= put_code (bit_and (val / 256) 0xFF)

-- The argument is the number's two's complement, `(uint32_t)val`.
unfoldable pub image_emit_i32 : BytecodeImage → ℕ → Run BytecodeImage
image_emit_i32 img uval =
    image_ensure_capacity img 4
    >>= put_code (bit_and uval 0xFF)
    >>= put_code (bit_and (uval / 256) 0xFF)
    >>= put_code (bit_and (uval / 65536) 0xFF)
    >>= put_code (bit_and (uval / 16777216) 0xFF)
