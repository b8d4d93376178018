-- ===== src/Vm/Image/Write.antt =====
-- src/vm/image_io.c: the writer of .opsb files, `image_write_opsb` and its helpers.
-- The output is the list of the bytes written; a write that the system refuses is not modelled.
use Prim.Native.Nat.{bit_and}
use opsh_actual.Base.{
  ℕ, ◌+◌, ◌*◌, ◌/◌, ◌%◌, ◌^◌, Option, none, some, List, [], ◌∷◌, ◌++◌, length, map, Bytes, codes,
}
use opsh_actual.Vm.Image.{BytecodeImage, VmFunc, VmModule, find_from}

abbrev pub opsb_magic : Bytes
opsb_magic = codes "OPSH"

abbrev pub opsb_version : ℕ
opsb_version = 1

abbrev pub sect_const_pool : ℕ
sect_const_pool = 1

abbrev pub sect_bytecode : ℕ
sect_bytecode = 2

abbrev pub sect_func_table : ℕ
sect_func_table = 3

abbrev pub sect_module_table : ℕ
sect_module_table = 4

abbrev pub write_u8 : ℕ → Bytes
write_u8 v = v ∷ []

abbrev pub write_u16 : ℕ → Bytes
write_u16 v = bit_and v 0xFF ∷ bit_and (v / 256) 0xFF ∷ []

abbrev pub write_u32 : ℕ → Bytes
write_u32 v =
    bit_and v 0xFF
    ∷ bit_and (v / 256) 0xFF
    ∷ bit_and (v / 65536) 0xFF
    ∷ bit_and (v / 16777216) 0xFF
    ∷ []

unfoldable pub find_const : BytecodeImage → Bytes → Option ℕ
find_const img name = find_from 0 img.const_pool name

abbrev pub u16 : ℕ → ℕ
u16 n = n % 2 ^ 16

abbrev pub u32 : ℕ → ℕ
u32 n = n % 2 ^ 32

unfoldable pub add_sizes : ℕ → List Bytes → ℕ
add_sizes size [] = size
add_sizes size (s ∷ pool) = add_sizes (u32 (size + (4 + u32 (length s)))) pool

abbrev pub const_pool_size : BytecodeImage → ℕ
const_pool_size img = add_sizes 2 img.const_pool

abbrev pub func_table_size : BytecodeImage → ℕ
func_table_size img = u32 (2 + u32 (length img.funcs) * 6)

abbrev pub module_table_size : BytecodeImage → ℕ
module_table_size img = u32 (2 + u32 (length img.modules) * 6)

-- The strings of the constant pool, each after its length.
unfoldable pub write_consts : List Bytes → Bytes
write_consts [] = []
write_consts (s ∷ pool) = write_u32 (u32 (length s)) ++ s ++ write_consts pool

-- The rows of a table; `none` once a name is not in the constant pool.
unfoldable pub write_rows : BytecodeImage → List (Bytes × ℕ) → Option Bytes
write_rows img [] = some []
write_rows img ((name, offset) ∷ rows) =
    let more = write_rows img rows in
    elim (find_const img name) [
      | none ↦ none
      | some idx ↦ elim more [
        | none ↦ none
        | some out ↦ some (write_u16 (u16 idx) ++ write_u32 (u32 offset) ++ out)
      ]
    ]

abbrev pub func_row : VmFunc → Bytes × ℕ
func_row f = (f.name, f.bytecode_offset)

abbrev pub module_row : VmModule → Bytes × ℕ
module_row m = (m.name, m.init_offset)

-- A table that has no rows is not written.
unfoldable pub write_table : ℕ → ℕ → BytecodeImage → List (Bytes × ℕ) → Option Bytes
write_table sect size img [] = some []
write_table sect size img (row ∷ rows) = elim (write_rows img (row ∷ rows)) [
  | none ↦ none
  | some out ↦
      some (write_u8 sect ++ write_u32 size ++ write_u16 (u16 (length (row ∷ rows))) ++ out)
]

abbrev pub count_table {ℓ} : {A : Type ℓ} → List A → ℕ
count_table [] = 0
count_table (x ∷ xs) = 1

abbrev pub section_count : BytecodeImage → ℕ
section_count img = 2 + count_table img.funcs + count_table img.modules

abbrev pub write_header : ℕ → Bytes
write_header sections =
    opsb_magic ++ write_u16 opsb_version ++ write_u16 0 ++ write_u32 sections ++ write_u32 0

abbrev pub write_pool_section : BytecodeImage → Bytes
write_pool_section img =
    write_u8 sect_const_pool
    ++ write_u32 (const_pool_size img)
    ++ write_u16 (length img.const_pool)
    ++ write_consts img.const_pool

abbrev pub write_code_section : BytecodeImage → Bytes
write_code_section img = write_u8 sect_bytecode ++ write_u32 (u32 (length img.code)) ++ img.code

-- The file, or `none` for the result -1, when a function or a module has a name that is no constant.
unfoldable pub image_write_opsb : BytecodeImage → Option Bytes
image_write_opsb img =
    elim (write_table sect_func_table (func_table_size img) img (map func_row img.funcs)) [
      | none ↦ none
      | some funcs ↦
          elim (write_table sect_module_table (module_table_size img) img
            (map module_row img.modules)) [
              | none ↦ none
              | some modules ↦ some (
                  write_header (section_count img)
                  ++ write_pool_section img
                  ++ write_code_section img
                  ++ funcs
                  ++ modules)
            ]
    ]
