-- ===== src/Vm/Image/Untrusted.antt =====
-- `image_read_opsb` on any file at all.
mod Reads
mod Items
pub mod Sections
use native.Mathlib.Nat.{zero-add}
use opsh_actual.Base.{
  ℕ, zero, suc, ◌+◌, ◌*◌, ◌^◌, ◌≤◌, ◌<◌, ◌≡◌, ◌≢◌, refl, sym, ap, ◌∙◌, subst, Bool, true, false,
  ltb, ◌==◌, if◌then◌else◌, Option, none, some, List, [], ◌∷◌, ◌++◌, length, length-append,
  get_elem?, get_or, All, Bytes, str_eq, arith, not, ◌||◌, Bool-cases, Option-cases, inl, inr, ◌⊎◌,
}
use opsh_actual.Base.Run.{Run, ok, Returns, ◌>>=◌}
use opsh_actual.Vm.Image.{
  BytecodeImage, VmFunc, VmModule, vm_const_pool_max, image_new, image_add_const,
}
use opsh_actual.Vm.Image.Pool.{IsValidPool, Added, image_add_const-Added}
use opsh_actual.Vm.Image.Write.{
  opsb_magic, opsb_version, sect_const_pool, sect_bytecode, sect_func_table, sect_module_table,
}
use opsh_actual.Vm.Image.Read.{
  ReadCtx, Load, Outcome, goes_on, refuse, ◌then_with◌, opsb_max_section_size, opsb_max_string_size,
  opsb_max_sections, next_byte, ctx_read_u8, ctx_read_u16, ctx_read_u32, split_at, take_bytes,
  ctx_read_bytes, c_string, read_consts, read_rows, read_const_pool, read_bytecode, read_func_table,
  read_module_table, read_section, read_sections, new_load, read_header, image_read_opsb,
}
use Reads.{IsByte, HasBytes, Fine, goes, refused, either}
use Sections.{
  IsWellFormed, Loading, sections-Fine, new_load-Loading, Headed, no_header, header, header-Headed,
}

-- NULL, or a well-formed image.
abbrev pub IsLoaded : Option BytecodeImage → Type 0
IsLoaded none = Unit {0}
IsLoaded (some img) = IsWellFormed img

finish :
    {r : Outcome Load}
    → Fine Loading r
    → Returns
        (r >>= λ o. elim o [
          | none ↦ ok none
          | some (c, l) ↦ ok (if c.error then none else some l.image)
        ])
        IsLoaded
finish (goes {ctx} {a} h v) = (_, refl, either IsLoaded ctx.error tt v.formed)
finish refused = (none, refl, tt)

-- On any file the reader returns: it neither aborts nor writes outside an array. What it returns is
-- NULL, or an image whose constants are distinct and fit in their array, whose code is at most
-- 64 MB and fits in its array, and whose functions and modules are named by a constant or by "".
pub image_read_opsb-IsLoaded :
    (file : Bytes) → All IsByte file → Returns (image_read_opsb file) IsLoaded
unfolding image_read_opsb
image_read_opsb-IsLoaded file bytes =
    by_header (read_header start) (header-Headed start (record { bytes = bytes }))
  where
    start : ReadCtx
    start = record { rest = file; error = false }

    by_header :
        (o : Option (ReadCtx × ℕ))
        → Headed o
        → Returns
            (elim o [
              | none ↦ ok none
              | some (ctx, sections) ↦ read_sections sections ctx new_load >>= λ o'. elim o' [
                | none ↦ ok none
                | some (c, l) ↦ ok (if c.error then none else some l.image)
              ]
            ])
            IsLoaded
    by_header none no_header = (none, refl, tt)
    by_header (some (ctx, sections)) (header h) =
        finish (sections-Fine sections ctx new_load h new_load-Loading)
