-- ===== src/Vm/Image/Read.antt =====
-- src/vm/image_io.c: the reader of .opsb files, `image_read_opsb` and its helpers.
-- The messages on stderr are not modelled.
use opsh_actual.Base.{
  ℕ, zero, suc, ◌+◌, ◌*◌, ltb, ◌==◌, if◌then◌else◌, not, ◌||◌, Bool, true, false, Option, none,
  some, List, [], ◌∷◌, ◌++◌, length, get_or, Bytes, str_eq,
}
use opsh_actual.Base.Run.{Run, ok, stop, out_of_bounds, ◌>>=◌}
use opsh_actual.Vm.Image.{BytecodeImage, image_new, image_add_const}
use opsh_actual.Vm.Image.Write.{
  opsb_magic, opsb_version, sect_const_pool, sect_bytecode, sect_func_table, sect_module_table,
}

abbrev pub opsb_max_section_size : ℕ
opsb_max_section_size = 64 * 1024 * 1024

abbrev pub opsb_max_string_size : ℕ
opsb_max_string_size = 16 * 1024 * 1024

abbrev pub opsb_max_sections : ℕ
opsb_max_sections = 256

-- The bytes of the file that are left, and the flag.
pub record ReadCtx : Type 0 where
  pub rest : Bytes
  pub error : Bool

-- A read past the end.
abbrev pub ended : ReadCtx
ended = record { rest = []; error = true }

-- The next byte, by the flag and by what is left.
unfoldable pub next_byte : Bool → Bytes → ReadCtx → ℕ × ReadCtx
next_byte true bs ctx = (0, ctx)
next_byte false [] ctx = (0, ended)
next_byte false (b ∷ bs) ctx = (b, record ctx { rest = bs })

unfoldable pub ctx_read_u8 : ReadCtx → ℕ × ReadCtx
unfolding next_byte
ctx_read_u8 ctx = next_byte ctx.error ctx.rest ctx

-- The bytes do not overlap, so `|` of the shifted bytes is their sum.
unfoldable pub ctx_read_u16 : ReadCtx → ℕ × ReadCtx
ctx_read_u16 ctx =
    let (lo, c1) = ctx_read_u8 ctx in let (hi, c2) = ctx_read_u8 c1 in (lo + hi * 256, c2)

unfoldable pub ctx_read_u32 : ReadCtx → ℕ × ReadCtx
ctx_read_u32 ctx =
    let (b0, c1) = ctx_read_u8 ctx in
    let (b1, c2) = ctx_read_u8 c1 in
    let (b2, c3) = ctx_read_u8 c2 in
    let (b3, c4) = ctx_read_u8 c3 in (b0 + b1 * 256 + b2 * 65536 + b3 * 16777216, c4)

-- The first `n` elements and the others, if there are as many.
unfoldable pub split_at {ℓ} : {A : Type ℓ} → ℕ → List A → Option (List A × List A)
split_at zero xs = some ([], xs)
split_at (suc n) [] = none
split_at (suc n) (x ∷ xs) = elim (split_at n xs) [
  | none ↦ none
  | some (front, back) ↦ some (x ∷ front, back)
]

-- By the flag, and by what can be taken of the file.
unfoldable pub take_bytes : Bool → Option (Bytes × Bytes) → ReadCtx → Option Bytes × ReadCtx
take_bytes true parts ctx = (none, ctx)
take_bytes false none ctx = (none, ended)
take_bytes false (some (front, back)) ctx = (some front, record ctx { rest = back })

unfoldable pub ctx_read_bytes : ReadCtx → ℕ → Option Bytes × ReadCtx
unfolding take_bytes
ctx_read_bytes ctx n = take_bytes ctx.error (split_at n ctx.rest) ctx

-- What the string functions see of a buffer: the bytes before the first NUL.
unfoldable pub c_string : Bytes → Bytes
c_string [] = []
c_string (b ∷ bs) = let rest = c_string bs in if b == 0 then [] else b ∷ rest

-- The locals of `image_read_opsb`.
pub record Load : Type 0 where
  pub image : BytecodeImage
  pub has_const_pool : Bool
  pub has_bytecode : Bool
  pub has_func_table : Bool
  pub has_module_table : Bool

-- `none` is the early `return NULL`.
abbrev pub Outcome {ℓ} : Type ℓ → Type ℓ
Outcome A = Run (Option (ReadCtx × A))

abbrev pub goes_on {ℓ} : {A : Type ℓ} → ReadCtx → A → Outcome A
goes_on ctx a = ok (some (ctx, a))

abbrev pub refuse {ℓ} : {A : Type ℓ} → Outcome A
refuse = ok none

infixl 5 ◌then_with◌
abbrev pub ◌then_with◌ {ℓ κ} :
    {A : Type ℓ} {B : Type κ} → Outcome A → (ReadCtx → A → Outcome B) → Outcome B
r then_with f = r >>= λ o. elim o [ none ↦ refuse | some (ctx, a) ↦ f ctx a ]

unfoldable pub read_consts : ℕ → ReadCtx → BytecodeImage → Outcome BytecodeImage
read_consts zero ctx img = goes_on ctx img
read_consts (suc count) ctx img =
    if ctx.error
    then goes_on ctx img
    else (let (slen, c1) = ctx_read_u32 ctx in
        let (str, c2) = ctx_read_bytes c1 slen in
        if ltb opsb_max_string_size slen then refuse else elim str [
          | none ↦ goes_on c2 img
          | some s ↦ image_add_const img (c_string s) >>= λ (i, img'). read_consts count c2 img'
        ])

-- The rows of a table, stored one by one in an array of `cap` records; `make` is the row's record,
-- and an index past the pool is the empty name.
unfoldable pub read_rows {ℓ} :
    {A : Type ℓ} → (Bytes → ℕ → A) → List Bytes → ℕ → ℕ → ReadCtx → List A → Outcome (List A)
read_rows make pool cap zero ctx rows = goes_on ctx rows
read_rows make pool cap (suc count) ctx rows =
    let (name_idx, c1) = ctx_read_u16 ctx in
    let (offset, c2) = ctx_read_u32 c1 in
    let more =
      read_rows make pool cap count c2 (rows ++ make (get_or pool name_idx []) offset ∷ []) in
    if ctx.error
    then goes_on ctx rows
    else if c2.error
    then goes_on c2 rows
    else if ltb (length rows) cap
    then more
    else stop out_of_bounds

unfoldable pub read_const_pool : ReadCtx → Load → Outcome Load
read_const_pool ctx l =
    if l.has_const_pool
    then refuse
    else (let (count, c1) = ctx_read_u16 ctx in
        read_consts count c1 l.image then_with λ c2 img.
        goes_on c2 (record l { image = img; has_const_pool = true }))

-- After a read that fails the image is dropped, whatever its code is.
unfoldable pub read_bytecode : ℕ → ReadCtx → Load → Outcome Load
read_bytecode sect_len ctx l =
    if l.has_bytecode
    then refuse
    else (let (code, c1) = ctx_read_bytes ctx sect_len in
        elim code [
          | none ↦ goes_on c1 (record l { has_bytecode = true })
          | some bs ↦ goes_on c1 (record l {
            image = record l.image { code = bs; code_cap = sect_len };
            has_bytecode = true;
          })
        ])

unfoldable pub read_func_table : ReadCtx → Load → Outcome Load
read_func_table ctx l =
    if not l.has_const_pool || l.has_func_table
    then refuse
    else (let (count, c1) = ctx_read_u16 ctx in
        read_rows (λ n o. record { name = n; bytecode_offset = o }) l.image.const_pool count count
          c1 []
        then_with λ c2 funcs.
            goes_on c2
              (record l { image = record l.image { funcs = funcs }; has_func_table = true }))

unfoldable pub read_module_table : ReadCtx → Load → Outcome Load
read_module_table ctx l =
    if not l.has_const_pool || l.has_module_table
    then refuse
    else (let (count, c1) = ctx_read_u16 ctx in
        read_rows (λ n o. record { name = n; init_offset = o }) l.image.const_pool count count c1 []
        then_with λ c2 modules.
            goes_on c2
              (record l { image = record l.image { modules = modules }; has_module_table = true }))

-- The section's length counts for the bytecode and for an unknown section alone.
unfoldable pub read_section : ℕ → ℕ → ReadCtx → Load → Outcome Load
read_section sect_type sect_len ctx l =
    if sect_type == sect_const_pool
    then read_const_pool ctx l
    else if sect_type == sect_bytecode
    then read_bytecode sect_len ctx l
    else if sect_type == sect_func_table
    then read_func_table ctx l
    else if sect_type == sect_module_table
    then read_module_table ctx l
    else goes_on (ctx_read_bytes ctx sect_len).1 l

unfoldable pub read_sections : ℕ → ReadCtx → Load → Outcome Load
read_sections zero ctx l = goes_on ctx l
read_sections (suc sections) ctx l =
    if ctx.error
    then goes_on ctx l
    else (let (sect_type, c1) = ctx_read_u8 ctx in
        let (sect_len, c2) = ctx_read_u32 c1 in
        if c2.error
        then goes_on c2 l
        else if ltb opsb_max_section_size sect_len
        then refuse
        else (read_section sect_type sect_len c2 l then_with read_sections sections))

abbrev pub new_load : Load
new_load = record {
  image = image_new;
  has_const_pool = false;
  has_bytecode = false;
  has_func_table = false;
  has_module_table = false;
}

-- The header: the number of sections, and where they begin.
unfoldable pub read_header : ReadCtx → Option (ReadCtx × ℕ)
read_header ctx =
    let (magic, c1) = ctx_read_bytes ctx 4 in
    elim magic [
      | none ↦ none
      | some m ↦
          let (version, c2) = ctx_read_u16 c1 in
          let (flags, c3) = ctx_read_u16 c2 in
          let (sections, c4) = ctx_read_u32 c3 in
          let (reserved, c5) = ctx_read_u32 c4 in
          if not (str_eq m opsb_magic)
          then none
          else if c2.error || not (version == opsb_version)
          then none
          else if c5.error
          then none
          else if ltb opsb_max_sections sections
          then none
          else some (c5, sections)
    ]

-- `ok none` is the result NULL.
unfoldable pub image_read_opsb : Bytes → Run (Option BytecodeImage)
image_read_opsb file = elim (read_header (record { rest = file; error = false })) [
  | none ↦ ok none
  | some (ctx, sections) ↦ read_sections sections ctx new_load >>= λ o. elim o [
    | none ↦ ok none
    | some (c, l) ↦ ok (if c.error then none else some l.image)
  ]
]
