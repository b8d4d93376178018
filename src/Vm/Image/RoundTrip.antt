-- ===== src/Vm/Image/RoundTrip.antt =====
-- A file that `image_write_opsb` wrote, read by `image_read_opsb`.
mod Parts
mod Sections
use mathlib.Core.List.{append_assoc, append-nil}
use opsh_actual.Base.{
  ℕ, zero, suc, ◌+◌, ◌*◌, ◌%◌, ◌^◌, ◌≤◌, ◌<◌, ◌≡◌, refl, sym, ap, ◌∙◌, Bool, true, false, ltb,
  if◌then◌else◌, Option, none, some, List, [], ◌∷◌, ◌++◌, length, map, All, Bytes, str_eq,
  str_eq_refl, arith, Option-cases, inl, inr,
}
use opsh_actual.Base.Run.{ok, Returns, ◌>>=◌}
use opsh_actual.Vm.Image.{BytecodeImage, VmFunc, VmModule, image_new}
use opsh_actual.Vm.Image.Pool.{IsDistinct, image_new-IsValidPool}
use opsh_actual.Vm.Image.Wire.{input, u8_back, u16_back, u32_back, bytes_back}
use opsh_actual.Vm.Image.Write.{
  opsb_magic, opsb_version, sect_const_pool, sect_bytecode, sect_func_table, sect_module_table,
  write_u8, write_u16, write_u32, u16, u32, const_pool_size, func_table_size, module_table_size,
  write_consts, write_rows, func_row, module_row, write_table, count_table, section_count,
  write_header, write_pool_section, write_code_section, image_write_opsb,
}
use opsh_actual.Vm.Image.Read.{
  ReadCtx, Load, Outcome, goes_on, ◌then_with◌, opsb_max_section_size, read_consts, read_rows,
  read_const_pool, read_bytecode, read_func_table, read_module_table, read_section, read_sections,
  opsb_max_sections, ctx_read_bytes, ctx_read_u16, ctx_read_u32, new_load, read_header,
  image_read_opsb,
}
use Parts.{IsStorable, Pooled, small_mod}
use Sections.{HasOffset, section_back, pool_back, code_back, funcs_back, modules_back}

-- What the format can hold, and what the reader admits.
pub record IsSavable (img : BytecodeImage) : Type 0 where
  pub distinct : IsDistinct img.const_pool
  pub few_constants : length img.const_pool ≤ 65535
  pub storable : All IsStorable img.const_pool
  pub small_pool : const_pool_size img ≤ opsb_max_section_size
  pub small_code : length img.code ≤ opsb_max_section_size
  pub few_funcs : length img.funcs ≤ 65535
  pub func_offsets : All HasOffset (map func_row img.funcs)
  pub few_modules : length img.modules ≤ 65535
  pub module_offsets : All HasOffset (map module_row img.modules)

-- Two images with the same constants, code and tables; the capacities may differ.
pub record SameContents (a b : BytecodeImage) : Type 0 where
  pub same_constants : a.const_pool ≡ b.const_pool
  pub same_code : a.code ≡ b.code
  pub same_funcs : a.funcs ≡ b.funcs
  pub same_modules : a.modules ≡ b.modules

header_step :
    (version flags sections reserved : ℕ) (m : Bytes) (ctx c1 c2 c3 c4 c5 : ReadCtx)
    → ctx_read_bytes ctx 4 ≡ (some m, c1)
    → ctx_read_u16 c1 ≡ (version, c2)
    → ctx_read_u16 c2 ≡ (flags, c3)
    → ctx_read_u32 c3 ≡ (sections, c4)
    → ctx_read_u32 c4 ≡ (reserved, c5)
    → str_eq m opsb_magic ≡ true
    → version ≡ opsb_version
    → c2.error ≡ false
    → c5.error ≡ false
    → sections ≤ opsb_max_sections
    → read_header ctx ≡ some (c5, sections)
unfolding read_header
header_step version flags sections reserved m ctx c1 c2 c3 c4 c5 e1 e2 e3 e4 e5 magic v good2 good5
      h =
    ground arith

-- The header, written and read back.
header_back :
    (sections : ℕ) (rest : Bytes)
    → sections ≤ opsb_max_sections
    → read_header (input (write_header sections ++ rest)) ≡ some (input rest, sections)
header_back sections rest h =
    let after_version = write_u16 0 ++ write_u32 sections ++ write_u32 0 ++ rest in
    header_step opsb_version 0 sections 0 opsb_magic _ _ (input after_version)
      (input (write_u32 sections ++ write_u32 0 ++ rest)) (input (write_u32 0 ++ rest)) (input rest)
      (bytes_back opsb_magic (write_u16 opsb_version ++ after_version))
      (u16_back opsb_version after_version (omega arith))
      (u16_back 0 (write_u32 sections ++ write_u32 0 ++ rest) (omega arith))
      (u32_back sections (write_u32 0 ++ rest) (omega arith)) (u32_back 0 rest (omega arith))
      (str_eq_refl opsb_magic) refl refl refl h

pool_section_back :
    (img : BytecodeImage) (n : ℕ) (rest : Bytes)
    → IsSavable img
    → (img' : BytecodeImage) × (read_sections
          (suc n)
          (input (write_pool_section img ++ rest))
          new_load
        ≡ read_sections n (input rest) (record new_load { image = img'; has_const_pool = true }))
      × Pooled image_new img.const_pool img'
unfolding read_section image_new
pool_section_back img n rest s =
    let (img', run, p) =
      pool_back img.const_pool new_load rest image_new-IsValidPool refl refl s.distinct
        s.few_constants s.storable in
    let body = write_u16 (length img.const_pool) ++ write_consts img.const_pool ++ rest in
    (
      img',
      section_back n sect_const_pool (const_pool_size img) body new_load s.small_pool ∙ rw run refl,
      p,
    )

code_section_back :
    (img : BytecodeImage) (n : ℕ) (rest : Bytes) (l : Load)
    → IsSavable img
    → l.has_bytecode ≡ false
    → read_sections (suc n) (input (write_code_section img ++ rest)) l
      ≡ read_sections n (input rest) (record l {
        image = record l.image { code = img.code; code_cap = length img.code };
        has_bytecode = true;
      })
unfolding read_section
code_section_back img n rest l s fresh =
    let small : length img.code < 2 ^ 32 = omega (arith, s.small_code) in
    rw (small_mod (length img.code) (2 ^ 32) small) (
      section_back n sect_bytecode (length img.code) (img.code ++ rest) l s.small_code
      ∙ rw (code_back img.code rest l fresh) refl)

-- What a written file consists of.
file_parts :
    (img : BytecodeImage) (file : Bytes)
    → image_write_opsb img ≡ some file
    → (funcs modules : Bytes) × (write_table sect_func_table
          (func_table_size img)
          img
          (map func_row img.funcs)
        ≡ some funcs)
      × (write_table sect_module_table (module_table_size img) img (map module_row img.modules)
          ≡ some modules)
      × (file
          ≡ write_header (section_count img)
            ++ write_pool_section img
            ++ write_code_section img
            ++ funcs
            ++ modules)
unfolding image_write_opsb
file_parts img file e =
    elim (Option-cases
      (write_table sect_func_table (func_table_size img) img (map func_row img.funcs))) [
        | inl failed ↦ ground arith
        | inr (funcs, wrote) ↦
            elim (Option-cases (
              write_table sect_module_table (module_table_size img) img
                (map module_row img.modules))) [
                  | inl failed ↦ ground arith
                  | inr (modules, wrote') ↦ (funcs, modules, wrote, wrote', ground arith)
                ]
      ]

table_small : (n : ℕ) → n ≤ 65535 → u32 (2 + u32 n * 6) ≤ opsb_max_section_size
table_small n h = omega arith

same_read :
    {n m : ℕ} {a b : Bytes} (l : Load)
    → n ≡ m
    → a ≡ b
    → read_sections n (input a) l ≡ read_sections m (input b) l
same_read l e e' = cc

count_table-le {ℓ} : {A : Type ℓ} (xs : List A) → count_table xs ≤ 1
count_table-le [] = omega arith
count_table-le (x ∷ xs) = omega arith

read_step :
    (file : Bytes) (ctx c : ReadCtx) (sections : ℕ) (l : Load)
    → read_header (input file) ≡ some (ctx, sections)
    → read_sections sections ctx new_load ≡ goes_on c l
    → c.error ≡ false
    → image_read_opsb file ≡ ok (some l.image)
unfolding image_read_opsb
read_step file ctx c sections l head run good = ground arith

regroup : (a b c d e : Bytes) → a ++ b ++ c ++ d ++ e ≡ a ++ (b ++ (c ++ (d ++ e)))
regroup a b c d e = rw (append_assoc, append_assoc, append_assoc)

-- The sections of a written file, read from the state after the header.
sections_back :
    (img : BytecodeImage) (funcs modules rest : Bytes)
    → IsSavable img
    → write_table sect_func_table (func_table_size img) img (map func_row img.funcs) ≡ some funcs
    → write_table sect_module_table (module_table_size img) img (map module_row img.modules)
      ≡ some modules
    → (l : Load) × (read_sections
          (section_count img)
          (input (write_pool_section img ++ write_code_section img ++ funcs ++ modules ++ rest))
          new_load
        ≡ goes_on (input rest) l)
      × SameContents l.image img
unfolding read_sections image_new
sections_back img funcs modules rest s wrote wrote' =
    let last = modules ++ rest in
    let tables = count_table img.funcs + (count_table img.modules + 0) in
    let (img1, pool_run, p) =
      pool_section_back img (suc tables) (write_code_section img ++ (funcs ++ last)) s in
    let l1 : Load = record new_load { image = img1; has_const_pool = true } in
    let code_run = code_section_back img tables (funcs ++ last) l1 s refl in
    let l2 : Load = record l1 {
      image = record img1 { code = img.code; code_cap = length img.code };
      has_bytecode = true;
    } in
    let (l3, funcs_run, eq3, pool3, flag3) =
      funcs_back img img.funcs (func_table_size img) (count_table img.modules + 0) funcs last l2
        (table_small _ s.few_funcs) s.few_constants s.few_funcs s.func_offsets refl refl
        (ap (λ (i : BytecodeImage). i.funcs) p.rest) p.constants wrote in
    let (l4, modules_run, eq4) =
      modules_back img img.modules (module_table_size img) 0 modules rest l3
        (table_small _ s.few_modules) s.few_constants s.few_modules s.module_offsets pool3 flag3
        (ap (λ (i : BytecodeImage). i.modules) eq3 ∙ ap (λ (i : BytecodeImage). i.modules) p.rest)
        (ap (λ (i : BytecodeImage). i.const_pool) eq3 ∙ p.constants) wrote' in
    let whole : section_count img ≡ suc (suc tables) = omega arith in
    (
      l4,
      same_read new_load whole
            (regroup (write_pool_section img) (write_code_section img) funcs modules rest)
          ∙ pool_run
          ∙ code_run
          ∙ funcs_run
          ∙ modules_run,
      record {
        same_constants =
            ap (λ (i : BytecodeImage). i.const_pool) eq4
            ∙ ap (λ (i : BytecodeImage). i.const_pool) eq3
            ∙ p.constants;
        same_code = ap (λ (i : BytecodeImage). i.code) eq4 ∙ ap (λ (i : BytecodeImage). i.code) eq3;
        same_funcs =
            ap (λ (i : BytecodeImage). i.funcs) eq4 ∙ ap (λ (i : BytecodeImage). i.funcs) eq3;
        same_modules = ap (λ (i : BytecodeImage). i.modules) eq4;
      },
    )

-- If an image fits the format and the reader's limits and `image_write_opsb` writes it, then
-- `image_read_opsb` reads the file, whatever follows it, as an image with the same constants, code,
-- functions and modules.
pub image_read_opsb-image_write_opsb :
    (img : BytecodeImage) (file rest : Bytes)
    → IsSavable img
    → image_write_opsb img ≡ some file
    → (img' : BytecodeImage) × (image_read_opsb (file ++ rest) ≡ ok (some img'))
      × SameContents img' img
image_read_opsb-image_write_opsb img file rest s e =
    let (funcs, modules, wrote, wrote', split) = file_parts img file e in
    let (l, run, same) = sections_back img funcs modules rest s wrote wrote' in
    let body = write_pool_section img ++ write_code_section img ++ funcs ++ modules ++ rest in
    let few : section_count img ≤ opsb_max_sections =
      omega (arith, count_table-le img.funcs, count_table-le img.modules) in
    let head = header_back (section_count img) body few in
    (
      l.image,
      rw split (read_step _ (input body) (input rest) (section_count img) l head run refl),
      same,
    )
