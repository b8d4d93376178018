-- ===== src/Vm/Image/RoundTrip/Sections.antt =====
-- The sections of a file, written and read back.
use opsh_actual.Base.{
  ℕ, suc, ◌+◌, ◌^◌, ◌≤◌, ◌<◌, ◌≡◌, refl, ap, ◌∙◌, true, false, ltb, some, List, [], ◌∷◌, ◌++◌,
  length, map, All, Bytes, arith, Option-cases, inl, inr,
}
use native.Mathlib.Nat.{zero-add}
use opsh_actual.Vm.Image.{BytecodeImage, VmFunc, VmModule}
use opsh_actual.Vm.Image.Pool.{IsValidPool, IsDistinct}
use opsh_actual.Vm.Image.Wire.{input, u8_back, u16_back, u32_back, bytes_back}
use opsh_actual.Vm.Image.Write.{
  write_u8, write_u16, write_u32, u16, write_consts, write_rows, write_table, func_row, module_row,
  count_table, sect_func_table, sect_module_table,
}
use opsh_actual.Vm.Image.Read.{
  ReadCtx, Load, ctx_read_u8, ctx_read_u16, ctx_read_u32, goes_on, ◌then_with◌,
  opsb_max_section_size, read_consts, read_rows, read_const_pool, read_bytecode, read_func_table,
  read_module_table, read_section, read_sections,
}
use opsh_actual.Vm.Image.RoundTrip.Parts.{IsStorable, Pooled, consts_back, rows_back, small_mod}

read_section_step :
    (n t len : ℕ) (ctx c1 c2 : ReadCtx) (l : Load)
    → ctx.error ≡ false
    → ctx_read_u8 ctx ≡ (t, c1)
    → ctx_read_u32 c1 ≡ (len, c2)
    → c2.error ≡ false
    → ltb opsb_max_section_size len ≡ false
    → read_sections (suc n) ctx l ≡ (read_section t len c2 l then_with read_sections n)
unfolding read_sections
read_section_step n t len ctx c1 c2 l good e1 e2 good2 short = ground arith

pub section_back :
    (n t len : ℕ) (body : Bytes) (l : Load)
    → len ≤ opsb_max_section_size
    → read_sections (suc n) (input (write_u8 t ++ write_u32 len ++ body)) l
      ≡ (read_section t len (input body) l then_with read_sections n)
section_back n t len body l h =
    let fits : len < 2 ^ 32 = omega arith in
    read_section_step n t len (input (write_u8 t ++ write_u32 len ++ body))
      (input (write_u32 len ++ body)) (input body) l refl (u8_back t (write_u32 len ++ body))
      (u32_back len body fits) refl (ground arith)

-- The constant pool, by its parts.
pool_step :
    (count : ℕ) (ctx c1 c2 : ReadCtx) (l : Load) (img : BytecodeImage)
    → l.has_const_pool ≡ false
    → ctx_read_u16 ctx ≡ (count, c1)
    → read_consts count c1 l.image ≡ goes_on c2 img
    → read_const_pool ctx l ≡ goes_on c2 (record l { image = img; has_const_pool = true })
unfolding read_const_pool
pool_step count ctx c1 c2 l img fresh e run = ground arith

pub pool_back :
    (pool : List Bytes) (l : Load) (rest : Bytes)
    → IsValidPool l.image
    → l.image.const_pool ≡ []
    → l.has_const_pool ≡ false
    → IsDistinct pool
    → length pool ≤ 65535
    → All IsStorable pool
    → (img' : BytecodeImage) × (read_const_pool
          (input (write_u16 (length pool) ++ write_consts pool ++ rest))
          l
        ≡ goes_on (input rest) (record l { image = img'; has_const_pool = true }))
      × Pooled l.image pool img'
pool_back pool l rest v empty fresh distinct few all =
    let (img', run, p) =
      consts_back pool l.image rest v (rw empty distinct) (rw empty (omega arith)) all in
    let start = u16_back (length pool) (write_consts pool ++ rest) (omega arith) in
    (img', pool_step (length pool) _ _ (input rest) l img' fresh start run, p)

pub code_back :
    (code rest : Bytes) (l : Load)
    → l.has_bytecode ≡ false
    → read_bytecode (length code) (input (code ++ rest)) l
      ≡ goes_on (input rest) (record l {
        image = record l.image { code = code; code_cap = length code };
        has_bytecode = true;
      })
unfolding read_bytecode
code_back code rest l fresh = ground (arith, bytes_back code rest)

-- A table's section from its rows: what the two tables share.
table_first :
    (sect size : ℕ) (img : BytecodeImage) (row : Bytes × ℕ) (rows : List (Bytes × ℕ)) (out : Bytes)
    → write_table sect size img (row ∷ rows) ≡ some out
    → (body : Bytes) × (write_rows img (row ∷ rows) ≡ some body)
      × (out ≡ write_u8 sect ++ write_u32 size ++ write_u16 (u16 (length (row ∷ rows))) ++ body)
unfolding write_table
table_first sect size img row rows out e = elim (Option-cases (write_rows img (row ∷ rows))) [
  | inl failed ↦ ground arith
  | inr (body, written) ↦ (body, written, ground arith)
]

func_step :
    (count : ℕ) (ctx c1 c2 : ReadCtx) (l : Load) (funcs : List VmFunc)
    → l.has_const_pool ≡ true
    → l.has_func_table ≡ false
    → ctx_read_u16 ctx ≡ (count, c1)
    → read_rows
        (λ n o. let f : VmFunc = record { name = n; bytecode_offset = o } in f)
        l.image.const_pool
        count
        count
        c1
        []
      ≡ goes_on c2 funcs
    → read_func_table ctx l
      ≡ goes_on c2 (record l { image = record l.image { funcs = funcs }; has_func_table = true })
unfolding read_func_table
func_step count ctx c1 c2 l funcs pool fresh e run = ground arith

module_step :
    (count : ℕ) (ctx c1 c2 : ReadCtx) (l : Load) (modules : List VmModule)
    → l.has_const_pool ≡ true
    → l.has_module_table ≡ false
    → ctx_read_u16 ctx ≡ (count, c1)
    → read_rows
        (λ n o. let m : VmModule = record { name = n; init_offset = o } in m)
        l.image.const_pool
        count
        count
        c1
        []
      ≡ goes_on c2 modules
    → read_module_table ctx l
      ≡ goes_on c2
          (record l { image = record l.image { modules = modules }; has_module_table = true })
unfolding read_module_table
module_step count ctx c1 c2 l modules pool fresh e run = ground arith

map_rows_back {ℓ} :
    {A : Type ℓ} (make : Bytes → ℕ → A) (row : A → Bytes × ℕ) (xs : List A)
    → ((a : A) → make (row a).0 (row a).1 ≡ a)
    → map (λ (n, o). make n o) (map row xs) ≡ xs
map_rows_back make row [] back = refl
map_rows_back make row (x ∷ xs) back = cc (back x, map_rows_back make row xs back)

length-map {ℓ κ} :
    {A : Type ℓ} {B : Type κ} (f : A → B) (xs : List A) → length (map f xs) ≡ length xs
length-map f [] = refl
length-map f (x ∷ xs) = ap suc (length-map f xs)

abbrev pub HasOffset : Bytes × ℕ → Type 0
HasOffset row = row.1 < 2 ^ 32

-- A section with rows: `step` is what the section's reader does with its count and its rows.
rows_section :
    {A : Type 0} (make : Bytes → ℕ → A) (row : A → Bytes × ℕ) (sect size n : ℕ)
    (img : BytecodeImage) (x : A) (xs : List A) (out rest : Bytes) (l l' : Load)
    → ((a : A) → make (row a).0 (row a).1 ≡ a)
    → size ≤ opsb_max_section_size
    → length img.const_pool ≤ 65535
    → length (x ∷ xs) ≤ 65535
    → All HasOffset (map row (x ∷ xs))
    → l.image.const_pool ≡ img.const_pool
    → write_table sect size img (map row (x ∷ xs)) ≡ some out
    → ((count : ℕ) (ctx c1 c2 : ReadCtx)
        → ctx_read_u16 ctx ≡ (count, c1)
        → read_rows make l.image.const_pool count count c1 [] ≡ goes_on c2 (x ∷ xs)
        → read_section sect size ctx l ≡ goes_on c2 l')
    → read_sections (1 + n) (input (out ++ rest)) l ≡ read_sections n (input rest) l'
rows_section make row sect size n img x xs out rest l l' back small few some_rows offsets same e
      step =
    let (body, written, split) = table_first sect size img (row x) (map row xs) out e in
    let rows = map row (x ∷ xs) in
    let fits : length rows < 2 ^ 16 = omega (arith, length-map row (x ∷ xs)) in
    let whole : u16 (length rows) ≡ length rows = small_mod (length rows) (2 ^ 16) fits in
    let count = u16_back (length rows) (body ++ rest) fits in
    let items =
      rows_back make img rows body rest [] (length rows) (omega arith) few offsets written
      ∙ ap (λ ys. goes_on (input rest) ys) (map_rows_back make row (x ∷ xs) back) in
    let run = step (length rows) _ (input (body ++ rest)) (input rest) count (rw same items) in
    let one_more : 1 + n ≡ suc n = omega arith in
    rw (one_more, split, whole)
      (section_back n sect size (write_u16 (length rows) ++ body ++ rest) l small ∙ rw run refl)

same_funcs : (img : BytecodeImage) → img.funcs ≡ [] → img ≡ record img { funcs = [] }
same_funcs img e =
    ap (λ (fs : List VmFunc). let r : BytecodeImage = record img { funcs = fs } in r) e

same_modules : (img : BytecodeImage) → img.modules ≡ [] → img ≡ record img { modules = [] }
same_modules img e =
    ap (λ (ms : List VmModule). let r : BytecodeImage = record img { modules = ms } in r) e

-- A table's section, if there is one, leads to a load with the table; the flags of the other
-- sections stay.
pub funcs_back :
    (img : BytecodeImage) (funcs : List VmFunc) (size n : ℕ) (out rest : Bytes) (l : Load)
    → size ≤ opsb_max_section_size
    → length img.const_pool ≤ 65535
    → length funcs ≤ 65535
    → All HasOffset (map func_row funcs)
    → l.has_const_pool ≡ true
    → l.has_func_table ≡ false
    → l.image.funcs ≡ []
    → l.image.const_pool ≡ img.const_pool
    → write_table sect_func_table size img (map func_row funcs) ≡ some out
    → (l' : Load) × (read_sections (count_table funcs + n) (input (out ++ rest)) l
        ≡ read_sections n (input rest) l')
      × (l'.image ≡ record l.image { funcs = funcs })
      × (l'.has_const_pool ≡ true)
      × (l'.has_module_table ≡ l.has_module_table)
unfolding read_section
funcs_back img [] size n out rest l small few some_rows offsets pool fresh empty same e =
    let nothing : out ≡ [] = unfold write_table in cc in
    (l, rw (nothing, zero-add) refl, same_funcs l.image empty, pool, refl)
funcs_back img (f ∷ fs) size n out rest l small few some_rows offsets pool fresh empty same e =
    let l' : Load = record l { image = record l.image { funcs = f ∷ fs }; has_func_table = true } in
    let run =
      rows_section (λ name offset. record { name = name; bytecode_offset = offset }) func_row
        sect_func_table size n img f fs out rest l l' (λ g. refl) small few some_rows offsets same e
        (λ count ctx c1 c2. func_step count ctx c1 c2 l (f ∷ fs) pool fresh) in
    (l', run, refl, pool, refl)

pub modules_back :
    (img : BytecodeImage) (modules : List VmModule) (size n : ℕ) (out rest : Bytes) (l : Load)
    → size ≤ opsb_max_section_size
    → length img.const_pool ≤ 65535
    → length modules ≤ 65535
    → All HasOffset (map module_row modules)
    → l.has_const_pool ≡ true
    → l.has_module_table ≡ false
    → l.image.modules ≡ []
    → l.image.const_pool ≡ img.const_pool
    → write_table sect_module_table size img (map module_row modules) ≡ some out
    → (l' : Load) × (read_sections (count_table modules + n) (input (out ++ rest)) l
        ≡ read_sections n (input rest) l')
      × (l'.image ≡ record l.image { modules = modules })
unfolding read_section
modules_back img [] size n out rest l small few some_rows offsets pool fresh empty same e =
    let nothing : out ≡ [] = unfold write_table in cc in
    (l, rw (nothing, zero-add) refl, same_modules l.image empty)
modules_back img (m ∷ ms) size n out rest l small few some_rows offsets pool fresh empty same e =
    let l' : Load = record l {
      image = record l.image { modules = m ∷ ms };
      has_module_table = true;
    } in
    let run =
      rows_section (λ name offset. record { name = name; init_offset = offset }) module_row
        sect_module_table size n img m ms out rest l l' (λ g. refl) small few some_rows offsets same
        e (λ count ctx c1 c2. module_step count ctx c1 c2 l (m ∷ ms) pool fresh) in
    (l', run, refl)
