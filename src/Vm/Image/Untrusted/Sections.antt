-- ===== src/Vm/Image/Untrusted/Sections.antt =====
-- The sections and the header, read from any bytes.
use opsh_actual.Base.{
  ℕ, zero, suc, ◌≤◌, ◌≡◌, ◌≢◌, refl, ap, ◌∙◌, Bool, true, false, ltb, ◌==◌, Option, none, some, [],
  length, All, str_eq, arith, not, ◌||◌,
}
use opsh_actual.Vm.Image.{BytecodeImage, VmFunc, VmModule, image_new}
use opsh_actual.Vm.Image.Pool.{IsValidPool}
use opsh_actual.Vm.Image.Write.{
  opsb_magic, opsb_version, sect_const_pool, sect_bytecode, sect_func_table, sect_module_table,
}
use opsh_actual.Vm.Image.Read.{
  ReadCtx, Load, opsb_max_section_size, opsb_max_sections, ctx_read_u8, ctx_read_u16, ctx_read_u32,
  ctx_read_bytes, read_const_pool, read_bytecode, read_func_table, read_module_table, read_section,
  read_sections, new_load, read_header,
}
use opsh_actual.Vm.Image.Untrusted.Reads.{
  HasBytes, u8_range, u16_range, u32_bytes, bytes_range, Fine, goes, refused, Fine-then, Fine-if,
  Fine-option, either,
}
use opsh_actual.Vm.Image.Untrusted.Items.{Constants, read_consts-Fine, IsNamed, read_rows-Fine}

-- What holds of a loaded image.
pub record IsWellFormed (img : BytecodeImage) : Type 0 where
  pub pool : IsValidPool img
  pub code_room : length img.code ≤ img.code_cap
  pub code_small : img.code_cap ≤ opsb_max_section_size
  pub funcs_named : All (λ (f : VmFunc). IsNamed img.const_pool f.name) img.funcs
  pub modules_named : All (λ (m : VmModule). IsNamed img.const_pool m.name) img.modules

-- What holds between two sections: without a pool there are no tables yet.
pub record Loading (l : Load) : Type 0 where
  pub formed : IsWellFormed l.image
  pub no_pool : l.has_const_pool ≡ false → l.image.const_pool ≡ []
  pub no_funcs : l.has_const_pool ≡ false → l.image.funcs ≡ []
  pub no_modules : l.has_const_pool ≡ false → l.image.modules ≡ []

const_pool-Fine :
    (ctx : ReadCtx) (l : Load) → HasBytes ctx → Loading l → Fine Loading (read_const_pool ctx l)
unfolding read_const_pool
const_pool-Fine ctx l h v =
    let (small, h1) = u16_range ctx h in
    let start : Constants l.image l.image = record { valid = v.formed.pool; kept = refl } in
    Fine-if l.has_const_pool (λ twice. refused)
      λ first.
        let empty : length l.image.const_pool ≡ 0 = ap length (v.no_pool first) in
        Fine-then (read_consts-Fine _ _ l.image l.image h1 start (omega arith)) λ c2 img h2 c.
          goes h2 (record {
            formed = with_pool img c (v.no_funcs first) (v.no_modules first);
            no_pool = λ e. cc;
            no_funcs = λ e. cc;
            no_modules = λ e. cc;
          })
  where
    with_pool :
        (img : BytecodeImage)
        → Constants l.image img
        → l.image.funcs ≡ []
        → l.image.modules ≡ []
        → IsWellFormed img
    with_pool img c e e' =
        let code : img.code ≡ l.image.code = ap (λ (i : BytecodeImage). i.code) c.kept in
        let cap : img.code_cap ≡ l.image.code_cap = ap (λ (i : BytecodeImage). i.code_cap) c.kept in
        let funcs : img.funcs ≡ [] = ap (λ (i : BytecodeImage). i.funcs) c.kept ∙ e in
        let modules : img.modules ≡ [] = ap (λ (i : BytecodeImage). i.modules) c.kept ∙ e' in
        record {
          pool = c.valid;
          code_room = rw (code, cap) v.formed.code_room;
          code_small = rw cap v.formed.code_small;
          funcs_named = rw funcs tt;
          modules_named = rw modules tt;
        }

same_pool :
    {a : BytecodeImage} (b : BytecodeImage)
    → IsValidPool a
    → b.const_pool ≡ a.const_pool
    → b.const_cap ≡ a.const_cap
    → IsValidPool b
same_pool b v e e' = record {
  distinct = rw e v.distinct;
  within = rw (e, e') v.within;
  small = rw e' v.small;
}

bytecode-Fine :
    (size : ℕ) (ctx : ReadCtx) (l : Load)
    → size ≤ opsb_max_section_size
    → HasBytes ctx
    → Loading l
    → Fine Loading (read_bytecode size ctx l)
unfolding read_bytecode
bytecode-Fine size ctx l small h v =
    let (h1, whole) = bytes_range ctx size h in
    let same : Loading (record l { has_bytecode = true }) = record {
      formed = v.formed;
      no_pool = v.no_pool;
      no_funcs = v.no_funcs;
      no_modules = v.no_modules;
    } in
    Fine-if l.has_bytecode (λ twice. refused)
      λ first.
        Fine-option (ctx_read_bytes ctx size).0 (λ missing. goes h1 same)
          λ code got. goes h1 (record {
            formed = record {
              pool = same_pool _ v.formed.pool refl refl;
              code_room = omega (arith, whole code got);
              code_small = small;
              funcs_named = v.formed.funcs_named;
              modules_named = v.formed.modules_named;
            };
            no_pool = v.no_pool;
            no_funcs = v.no_funcs;
            no_modules = v.no_modules;
          })

has_pool : (pool table : Bool) → (not pool || table) ≡ false → pool ≢ false
has_pool true table h e = cc
has_pool false table h e = cc

func_table-Fine :
    (ctx : ReadCtx) (l : Load) → HasBytes ctx → Loading l → Fine Loading (read_func_table ctx l)
unfolding read_func_table
func_table-Fine ctx l h v =
    Fine-if (not l.has_const_pool || l.has_func_table) (λ early. refused)
      λ fine.
        let (small, h1) = u16_range ctx h in
        let pooled = has_pool l.has_const_pool l.has_func_table fine in
        Fine-then
          (read_rows-Fine (λ n o. let f : VmFunc = record { name = n; bytecode_offset = o } in f)
            (λ f. f.name) l.image.const_pool _ _ _ [] (λ n o. refl) (omega arith) h1 tt)
          λ c2 funcs h2 named. goes h2 (record {
            formed = record {
              pool = same_pool _ v.formed.pool refl refl;
              code_room = v.formed.code_room;
              code_small = v.formed.code_small;
              funcs_named = named;
              modules_named = v.formed.modules_named;
            };
            no_pool = λ e. absurd (pooled e);
            no_funcs = λ e. absurd (pooled e);
            no_modules = λ e. absurd (pooled e);
          })

module_table-Fine :
    (ctx : ReadCtx) (l : Load) → HasBytes ctx → Loading l → Fine Loading (read_module_table ctx l)
unfolding read_module_table
module_table-Fine ctx l h v =
    Fine-if (not l.has_const_pool || l.has_module_table) (λ early. refused)
      λ fine.
        let (small, h1) = u16_range ctx h in
        let pooled = has_pool l.has_const_pool l.has_module_table fine in
        Fine-then
          (read_rows-Fine (λ n o. let m : VmModule = record { name = n; init_offset = o } in m)
            (λ m. m.name) l.image.const_pool _ _ _ [] (λ n o. refl) (omega arith) h1 tt)
          λ c2 modules h2 named. goes h2 (record {
            formed = record {
              pool = same_pool _ v.formed.pool refl refl;
              code_room = v.formed.code_room;
              code_small = v.formed.code_small;
              funcs_named = v.formed.funcs_named;
              modules_named = named;
            };
            no_pool = λ e. absurd (pooled e);
            no_funcs = λ e. absurd (pooled e);
            no_modules = λ e. absurd (pooled e);
          })

section-Fine :
    (t size : ℕ) (ctx : ReadCtx) (l : Load)
    → size ≤ opsb_max_section_size
    → HasBytes ctx
    → Loading l
    → Fine Loading (read_section t size ctx l)
unfolding read_section
section-Fine t size ctx l small h v =
    Fine-if (t == sect_const_pool) (λ _. const_pool-Fine ctx l h v)
      λ _.
        Fine-if (t == sect_bytecode) (λ _. bytecode-Fine size ctx l small h v)
          λ _.
            Fine-if (t == sect_func_table) (λ _. func_table-Fine ctx l h v)
              λ _.
                Fine-if (t == sect_module_table) (λ _. module_table-Fine ctx l h v)
                  λ _. goes (bytes_range ctx size h).0 v

pub sections-Fine :
    (n : ℕ) (ctx : ReadCtx) (l : Load)
    → HasBytes ctx
    → Loading l
    → Fine Loading (read_sections n ctx l)
unfolding read_sections
sections-Fine zero ctx l h v = goes h v
sections-Fine (suc n) ctx l h v =
    let (small, h1) = u8_range ctx h in
    let c1 = (ctx_read_u8 ctx).1 in
    let h2 = u32_bytes c1 h1 in
    Fine-if ctx.error (λ bad. goes h v)
      λ good.
        Fine-if (ctx_read_u32 c1).1.error (λ bad. goes h2 v)
          λ good'.
            Fine-if (ltb opsb_max_section_size (ctx_read_u32 c1).0) (λ long. refused)
              λ short.
                Fine-then (section-Fine _ _ (ctx_read_u32 c1).1 l (ground arith) h2 v)
                  (sections-Fine n)

pub new_load-Loading : Loading new_load
unfolding image_new
new_load-Loading = record {
  formed = record {
    pool = record { distinct = tt; within = omega arith; small = omega arith };
    code_room = omega arith;
    code_small = omega arith;
    funcs_named = tt;
    modules_named = tt;
  };
  no_pool = λ e. refl;
  no_funcs = λ e. refl;
  no_modules = λ e. refl;
}

on_option {ℓ κ μ} :
    {A : Type ℓ} {B : Type μ} (P : A → Type κ) (o : Option B) {x : A} {y : B → A}
    → P x
    → ((b : B) → P (y b))
    → P (elim o [ none ↦ x | some b ↦ y b ])
on_option P none x y = x
on_option P (some b) x y = y b

pub data Headed : Option (ReadCtx × ℕ) → Type 0 where
  no_header : Headed none
  header : {ctx : ReadCtx} {sections : ℕ} → HasBytes ctx → Headed (some (ctx, sections))

pub header-Headed : (ctx : ReadCtx) → HasBytes ctx → Headed (read_header ctx)
unfolding read_header
header-Headed ctx h =
    let (h1, whole) = bytes_range ctx 4 h in
    let (version, h2) = u16_range _ h1 in
    let (flags, h3) = u16_range _ h2 in
    let h5 = u32_bytes _ (u32_bytes _ h3) in
    let c1 = (ctx_read_bytes ctx 4).1 in
    let c2 = (ctx_read_u16 c1).1 in
    let c3 = (ctx_read_u16 c2).1 in
    let sections = (ctx_read_u32 c3).0 in
    let c5 = (ctx_read_u32 (ctx_read_u32 c3).1).1 in
    on_option Headed (ctx_read_bytes ctx 4).0 no_header λ m.
      either Headed (not (str_eq m opsb_magic)) no_header (
        either Headed (c2.error || not ((ctx_read_u16 c1).0 == opsb_version)) no_header (
          either Headed c5.error no_header (
            either Headed (ltb opsb_max_sections sections) no_header
              (header {ctx = c5} {sections = sections} h5))))
