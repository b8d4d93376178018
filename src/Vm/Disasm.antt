-- ===== src/Vm/Disasm.antt =====
-- src/vm/disasm.c: the listing of bytecode.
-- The text is the list of the bytes printed.
pub mod Sizes
use opsh_actual.Base.{
  ℕ, zero, suc, ◌+◌, ◌-◌, ◌*◌, ◌^◌, Bool, true, false, ltb, leb, ◌==◌, if◌then◌else◌, Option, none,
  some, List, [], ◌∷◌, ◌++◌, length, get_or, get_elem?, replicate, Bytes, codes,
}
use opsh_actual.Vm.Bytecode.{find_op}
use opsh_actual.Base.Decimal.{print_nat, print_int}
use opsh_actual.Base.Int.{ℤ, pos, negsuc, ◌+ℤ◌}
use opsh_actual.Vm.Image.{BytecodeImage}

abbrev pub opcode_names : List (ℕ × Bytes)
opcode_names =
    (0x01, codes "PUSH_CONST")
    ∷ (0x02, codes "PUSH_INT")
    ∷ (0x03, codes "POP")
    ∷ (0x04, codes "DUP")
    ∷ (0x10, codes "GET_VAR")
    ∷ (0x11, codes "SET_VAR")
    ∷ (0x19, codes "GET_LOCAL")
    ∷ (0x1A, codes "SET_LOCAL")
    ∷ (0x12, codes "GET_ARRAY")
    ∷ (0x13, codes "SET_ARRAY")
    ∷ (0x14, codes "SET_ARRAY_BULK")
    ∷ (0x15, codes "EXPORT")
    ∷ (0x16, codes "PUSH_SCOPE")
    ∷ (0x17, codes "POP_SCOPE")
    ∷ (0x18, codes "GET_SPECIAL")
    ∷ (0x20, codes "CONCAT")
    ∷ (0x21, codes "EXPAND_PARAM")
    ∷ (0x22, codes "EXPAND_ARITH")
    ∷ (0x23, codes "SPLIT_FIELDS")
    ∷ (0x27, codes "COLLECT_WORDS")
    ∷ (0x24, codes "GLOB")
    ∷ (0x25, codes "QUOTE_REMOVE")
    ∷ (0x26, codes "EXPAND_TILDE")
    ∷ (0x30, codes "JMP")
    ∷ (0x31, codes "JMP_TRUE")
    ∷ (0x32, codes "JMP_FALSE")
    ∷ (0x33, codes "JMP_NONE")
    ∷ (0x34, codes "RET")
    ∷ (0x35, codes "LOOP_ENTER")
    ∷ (0x36, codes "LOOP_EXIT")
    ∷ (0x37, codes "BREAK")
    ∷ (0x38, codes "CONTINUE")
    ∷ (0x39, codes "GET_NEXT_ITER")
    ∷ (0x3A, codes "INIT_ITER")
    ∷ (0x40, codes "EXEC_SIMPLE")
    ∷ (0x41, codes "EXEC_BUILTIN")
    ∷ (0x42, codes "EXEC_FUNC")
    ∷ (0x43, codes "PIPELINE")
    ∷ (0x44, codes "PIPELINE_CMD")
    ∷ (0x45, codes "PIPELINE_END")
    ∷ (0x46, codes "CMD_SUBST")
    ∷ (0x47, codes "SUBSHELL")
    ∷ (0x48, codes "BACKGROUND")
    ∷ (0x50, codes "REDIR_SAVE")
    ∷ (0x51, codes "REDIR_RESTORE")
    ∷ (0x52, codes "REDIR_OPEN")
    ∷ (0x53, codes "REDIR_DUP")
    ∷ (0x54, codes "REDIR_CLOSE")
    ∷ (0x55, codes "REDIR_HERE")
    ∷ (0x60, codes "TEST_UNARY")
    ∷ (0x61, codes "TEST_BINARY")
    ∷ (0x62, codes "NEGATE_STATUS")
    ∷ (0x63, codes "PATTERN_MATCH")
    ∷ (0x70, codes "IMPORT")
    ∷ (0x28, codes "EXPAND_ARGS")
    ∷ (0x71, codes "CAP_CHECK")
    ∷ (0x80, codes "ERREXIT_PUSH")
    ∷ (0x81, codes "ERREXIT_POP")
    ∷ (0x82, codes "STATUS_ZERO")
    ∷ (0x83, codes "PUSH_STATUS")
    ∷ (0x84, codes "POP_STATUS")
    ∷ (0xFF, codes "HALT")
    ∷ []

unfoldable pub opcode_name : ℕ → Bytes
unfolding find_op
opcode_name = find_op opcode_names (codes "UNKNOWN")

-- How the listing prints the operands: the groups of cases of its `switch`.
pub data Operands : Type 0 where
  nothing pool_index number index name_index two_indices expansion offset address byte two_bytes :
      Operands

abbrev pub operand_kinds : List (ℕ × Operands)
operand_kinds =
    (0x01, pool_index)
    ∷ (0x02, number)
    ∷ (0x10, name_index)
    ∷ (0x11, name_index)
    ∷ (0x19, name_index)
    ∷ (0x1A, name_index)
    ∷ (0x12, name_index)
    ∷ (0x13, name_index)
    ∷ (0x14, two_indices)
    ∷ (0x15, name_index)
    ∷ (0x16, byte)
    ∷ (0x18, byte)
    ∷ (0x20, index)
    ∷ (0x21, expansion)
    ∷ (0x30, offset)
    ∷ (0x31, offset)
    ∷ (0x32, offset)
    ∷ (0x33, offset)
    ∷ (0x37, byte)
    ∷ (0x38, byte)
    ∷ (0x3A, index)
    ∷ (0x40, byte)
    ∷ (0x41, index)
    ∷ (0x42, index)
    ∷ (0x43, index)
    ∷ (0x44, address)
    ∷ (0x45, byte)
    ∷ (0x46, address)
    ∷ (0x47, address)
    ∷ (0x52, two_bytes)
    ∷ (0x53, two_bytes)
    ∷ (0x54, byte)
    ∷ (0x55, two_bytes)
    ∷ (0x60, byte)
    ∷ (0x61, byte)
    ∷ (0x70, index)
    ∷ (0x71, byte)
    ∷ []

unfoldable pub operands_of : ℕ → Operands
unfolding find_op
operands_of = find_op operand_kinds nothing

-- Bytes past the end read as 0.
abbrev pub peek_u8 : BytecodeImage → ℕ → ℕ
peek_u8 img at = get_or img.code at 0

unfoldable pub peek_u16 : BytecodeImage → ℕ → ℕ
peek_u16 img at = peek_u8 img at + peek_u8 img (at + 1) * 256

unfoldable pub peek_word : BytecodeImage → ℕ → ℕ
peek_word img at =
    peek_u8 img at
    + peek_u8 img (at + 1) * 256
    + peek_u8 img (at + 2) * 65536
    + peek_u8 img (at + 3) * 16777216

unfoldable pub peek_i32 : BytecodeImage → ℕ → ℤ
peek_i32 img at =
    let w = peek_word img at in if ltb w (2 ^ 31) then pos w else negsuc (2 ^ 32 - 1 - w)

-- `%04zu` and `%-16s`
abbrev pub pad_zeros : Bytes → Bytes
pad_zeros s = replicate (4 - length s) b'0' ++ s

abbrev pub pad_blanks : Bytes → Bytes
pad_blanks s = s ++ replicate (16 - length s) b' '

-- A size_t holds what is below 0 by two's complement.
abbrev pub to_size : ℤ → ℕ
to_size (pos n) = n
to_size (negsuc n) = 2 ^ 64 - 1 - n

abbrev pub quoted : Bytes → Bytes
quoted s = codes " (\"" ++ s ++ codes "\")"

abbrev pub with_name : Option Bytes → Bytes → Bytes
with_name none otherwise = otherwise
with_name (some s) otherwise = quoted s

unfoldable pub print_operands : BytecodeImage → ℕ → Operands → Bytes
print_operands img at nothing = []
print_operands img at pool_index =
    print_nat (peek_u16 img at)
    ++ with_name (get_elem? img.const_pool (peek_u16 img at)) (codes " (invalid)")
print_operands img at number = print_int (peek_i32 img at)
print_operands img at index = print_nat (peek_u16 img at)
print_operands img at name_index =
    print_nat (peek_u16 img at) ++ with_name (get_elem? img.const_pool (peek_u16 img at)) []
print_operands img at two_indices =
    print_nat (peek_u16 img at) ++ codes ", " ++ print_nat (peek_u16 img (at + 2))
print_operands img at expansion =
    print_nat (peek_u16 img at)
    ++ codes ", op="
    ++ print_nat (peek_u8 img (at + 2))
    ++ codes ", flags="
    ++ print_nat (peek_u8 img (at + 3))
print_operands img at offset =
    print_int (peek_i32 img at)
    ++ codes " (-> "
    ++ pad_zeros (print_nat (to_size (pos (at + 4) +ℤ peek_i32 img at)))
    ++ codes ")"
print_operands img at address = print_nat (peek_word img at)
print_operands img at byte = print_nat (peek_u8 img at)
print_operands img at two_bytes =
    print_nat (peek_u8 img at) ++ codes ", " ++ print_nat (peek_u8 img (at + 1))

-- How far each group of cases moves on.
unfoldable pub operands_size : Operands → ℕ
operands_size nothing = 0
operands_size pool_index = 2
operands_size number = 4
operands_size index = 2
operands_size name_index = 2
operands_size two_indices = 4
operands_size expansion = 4
operands_size offset = 4
operands_size address = 4
operands_size byte = 1
operands_size two_bytes = 2

-- The offset behind the instruction, and its line.
unfoldable pub disasm_instruction : BytecodeImage → ℕ → ℕ × Bytes
unfolding operands_of operands_size
disasm_instruction img at =
    if leb (length img.code) at
    then (at, [])
    else (let op = peek_u8 img at in
        (
          at + 1 + operands_size (operands_of op),
          pad_zeros (print_nat at)
              ++ codes "  "
              ++ pad_blanks (opcode_name op)
              ++ print_operands img (at + 1) (operands_of op)
              ++ b'\n' ∷ [],
        ))

-- The lines of the constants from the index `i` on.
unfoldable pub disasm_consts : ℕ → List Bytes → Bytes
disasm_consts i [] = []
disasm_consts i (s ∷ pool) =
    codes "  [" ++ print_nat i ++ codes "] \"" ++ s ++ codes "\"\n" ++ disasm_consts (i + 1) pool

-- What is printed comes before the rest.
unfoldable pub put_before : Bytes → Option Bytes → Option Bytes
put_before line none = none
put_before line (some lines) = some (line ++ lines)

-- The loop over the code.
unfoldable pub disasm_code : ℕ → BytecodeImage → ℕ → Option Bytes
disasm_code zero img at = none
disasm_code (suc fuel) img at =
    let (behind, line) = disasm_instruction img at in
    let more = disasm_code fuel img behind in
    if ltb at (length img.code) then put_before line more else some []

-- The lines of the constants, and the title of the code.
abbrev pub print_header : BytecodeImage → Bytes
print_header img =
    codes "=== Constants ===\n"
    ++ disasm_consts 0 img.const_pool
    ++ codes "=== Bytecode ("
    ++ print_nat (length img.code)
    ++ codes " bytes) ===\n"

-- Each line takes a byte at least. `none` would be a loop that goes on.
unfoldable pub disasm_image : BytecodeImage → Option Bytes
disasm_image img = put_before (print_header img) (disasm_code (length img.code + 1) img 0)
