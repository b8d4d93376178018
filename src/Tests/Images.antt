-- ===== src/Tests/Images.antt =====
-- Bytecode images and their files.
use opsh_actual.Base.{
  ◌≤◌, ◌≡◌, ◌⊎◌, refl, [], ◌∷◌, ◌++◌, length, none, some, Bytes, codes, str_eq, arith,
}
use opsh_actual.Base.Run.{ok, stop, aborted, Returns}
use opsh_actual.Foundation.Util.{checked_add, checked_mul}
use opsh_actual.Base.Decimal.{print_nat}
use opsh_actual.Vm.Bytecode.{find_op, opcode_operand_size}
use opsh_actual.Vm.Disasm.{
  opcode_name, operands_of, peek_u16, print_operands, operands_size, disasm_instruction,
  disasm_consts, put_before, disasm_code, disasm_image,
}
use opsh_actual.Vm.Disasm.Sizes.{disasm_instruction-opcode_operand_size, disasm_image-returns}
use opsh_actual.Vm.Image.{
  BytecodeImage, vm_const_pool_max, image_new, find_from, store_const, image_add_const, grow_code,
  image_ensure_capacity, put_code, image_emit_u8, image_emit_u16, image_emit_i32,
}
use opsh_actual.Vm.Image.Pool.{Absent, Added, image_new-IsValidPool, image_add_const-Added}
use opsh_actual.Vm.Image.Read.{
  next_byte, ctx_read_u8, ctx_read_u16, ctx_read_u32, split_at, take_bytes, ctx_read_bytes,
  c_string, read_consts, read_rows, read_const_pool, read_bytecode, read_func_table,
  read_module_table, read_section, read_sections, read_header, image_read_opsb,
}
use opsh_actual.Vm.Image.RoundTrip.{IsSavable, SameContents, image_read_opsb-image_write_opsb}
use opsh_actual.Vm.Image.Untrusted.{IsLoaded, image_read_opsb-IsLoaded}
use opsh_actual.Vm.Image.Write.{
  find_const, add_sizes, write_consts, write_rows, write_table, image_write_opsb,
}

program : Unit {0}
unfolding image_new find_from store_const image_add_const grow_code image_ensure_capacity put_code
    image_emit_u8 image_emit_u16 image_emit_i32 checked_add checked_mul next_byte ctx_read_u8
    ctx_read_u16 ctx_read_u32 split_at take_bytes ctx_read_bytes c_string read_consts read_rows
    read_const_pool read_bytecode read_func_table read_module_table read_section read_sections
    read_header image_read_opsb find_const add_sizes write_consts write_rows write_table
    image_write_opsb str_eq find_op opcode_name operands_of peek_u16 print_operands operands_size
    disasm_instruction disasm_consts put_before disasm_code disasm_image print_nat
program = tt

-- Two constants, two instructions, and a function named by the second constant.
abbrev sample : BytecodeImage
sample = record {
  const_pool = codes "hi" ∷ codes "f" ∷ [];
  const_cap = 16;
  code = 0x82 ∷ 0xFF ∷ [];
  code_cap = 64;
  funcs = record { name = codes "f"; bytecode_offset = 1 } ∷ [];
  modules = [];
}

abbrev sample_file : Bytes
sample_file =
    codes "OPSH"
    ++ (1 ∷ 0 ∷ 0 ∷ 0 ∷ 3 ∷ 0 ∷ 0 ∷ 0 ∷ 0 ∷ 0 ∷ 0 ∷ 0 ∷ [])
    ++ (1 ∷ 13 ∷ 0 ∷ 0 ∷ 0 ∷ 2 ∷ 0 ∷ 2 ∷ 0 ∷ 0 ∷ 0 ∷ b'h' ∷ b'i' ∷ 1 ∷ 0 ∷ 0 ∷ 0 ∷ b'f' ∷ [])
    ++ (2 ∷ 2 ∷ 0 ∷ 0 ∷ 0 ∷ 0x82 ∷ 0xFF ∷ [])
    ++ (3 ∷ 8 ∷ 0 ∷ 0 ∷ 0 ∷ 1 ∷ 0 ∷ 1 ∷ 0 ∷ 1 ∷ 0 ∷ 0 ∷ 0 ∷ [])

written : image_write_opsb sample ≡ some sample_file
unfolding program
written = refl

-- A file cut short is refused, and so is one with another version.
cut : image_read_opsb (1 ∷ 2 ∷ []) ≡ ok none
unfolding program
cut = refl

newer :
    image_read_opsb (codes "OPSH" ++ (2 ∷ 0 ∷ 0 ∷ 0 ∷ 0 ∷ 0 ∷ 0 ∷ 0 ∷ 0 ∷ 0 ∷ 0 ∷ 0 ∷ [])) ≡ ok none
unfolding program
newer = refl

-- A name that is no constant.
nameless :
    image_write_opsb (record sample { modules = record { name = codes "m"; init_offset = 0 } ∷ [] })
    ≡ none
unfolding program
nameless = refl

sample-IsSavable : IsSavable sample
unfolding program
sample-IsSavable = record {
  distinct = ((λ e. cc, tt), (tt, tt));
  few_constants = omega arith;
  storable = (((λ e. cc, (λ e. cc, tt)), omega arith), (((λ e. cc, tt), omega arith), tt));
  small_pool = omega arith;
  small_code = omega arith;
  few_funcs = omega arith;
  func_offsets = (omega arith, tt);
  few_modules = omega arith;
  module_offsets = tt;
}

image_read_opsb-image_write_opsb_example :
    (img' : BytecodeImage) × (image_read_opsb (sample_file ++ (7 ∷ [])) ≡ ok (some img'))
    × SameContents img' sample
image_read_opsb-image_write_opsb_example =
    image_read_opsb-image_write_opsb sample sample_file (7 ∷ []) sample-IsSavable written

image_read_opsb-IsLoaded_example : Returns (image_read_opsb (79 ∷ 80 ∷ 83 ∷ [])) IsLoaded
image_read_opsb-IsLoaded_example =
    image_read_opsb-IsLoaded (79 ∷ 80 ∷ 83 ∷ []) (omega arith, (omega arith, (omega arith, tt)))

image_add_const-Added_example :
    ((image_add_const image_new (codes "x") ≡ stop aborted)
      × Absent (codes "x") image_new.const_pool
      × (vm_const_pool_max ≤ length image_new.const_pool))
    ⊎ Returns
        (image_add_const image_new (codes "x"))
        (λ (i, img'). Added image_new (codes "x") i img')
image_add_const-Added_example = image_add_const-Added image_new (codes "x") image_new-IsValidPool

-- A listing of an instruction with an operand.
listed :
    disasm_image (record sample { const_pool = codes "x" ∷ []; code = 0x16 ∷ 7 ∷ [] })
    ≡ some (
        codes "=== Constants ===\n  [0] \"x\"\n=== Bytecode (2 bytes) ===\n"
        ++ codes "0000  PUSH_SCOPE      7\n")
unfolding program
listed = refl

disasm_image-returns_example : (text : Bytes) × (disasm_image sample ≡ some text)
disasm_image-returns_example = disasm_image-returns sample

-- The operand of EXPAND_PARAM.
abbrev expansion : BytecodeImage
expansion = record sample { code = 0x82 ∷ 0x21 ∷ 0 ∷ 0 ∷ 1 ∷ 0 ∷ [] }

disasm_instruction-opcode_operand_size_example :
    ((disasm_instruction expansion 1).0 ≡ 6) × (opcode_operand_size 0x48 ≡ 4)
unfolding opcode_operand_size find_op
disasm_instruction-opcode_operand_size_example =
    disasm_instruction-opcode_operand_size expansion 1 (omega arith)

background :
    disasm_instruction (record sample { code = 0x48 ∷ 1 ∷ 0 ∷ 0 ∷ 0 ∷ [] }) 0
    ≡ (1, codes "0000  BACKGROUND      \n")
unfolding program
background = refl
