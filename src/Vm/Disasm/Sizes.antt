-- ===== src/Vm/Disasm/Sizes.antt =====
-- The listing and the sizes of the instructions.
use opsh_actual.Base.{
  ℕ, zero, suc, ◌+◌, leb, false, ◌<◌, ◌≡◌, ◌≢◌, ◌∙◌, refl, ap, ltb, ◌==◌, if◌then◌else◌, Option,
  some, List, [], ◌∷◌, ◌++◌, length, map, take, drop, Bytes, Bool-cases, inl, inr, ltb→lt, arith,
}
use opsh_actual.Vm.Image.{BytecodeImage}
use opsh_actual.Vm.Bytecode.{find_op, operand_sizes, opcode_operand_size}
use opsh_actual.Vm.Disasm.{
  Operands, nothing, operand_kinds, operands_of, operands_size, disasm_instruction, disasm_code,
  disasm_image, put_before, peek_u8,
}

abbrev sized : ℕ × Operands → ℕ × ℕ
sized (op, kind) = (op, operands_size kind)

find_op-map :
    (kinds : List (ℕ × Operands)) (op : ℕ)
    → operands_size (find_op kinds nothing op) ≡ find_op (map sized kinds) 0 op
unfolding find_op operands_size
find_op-map [] op = refl
find_op-map ((code, kind) ∷ kinds) op = let later = find_op-map kinds op in ground arith

-- An entry of another opcode makes no difference.
find_op_other {ℓ} :
    {A : Type ℓ} (before behind : List (ℕ × A)) (code : ℕ) (a default : A) (op : ℕ)
    → op ≢ code
    → find_op (before ++ behind) default op ≡ find_op (before ++ (code, a) ∷ behind) default op
unfolding find_op
find_op_other [] behind code a default op h = ground arith
find_op_other ((c, b) ∷ before) behind code a default op h =
    ap (λ later. if c == op then b else later) (find_op_other before behind code a default op h)

operands_size-opcode_operand_size :
    (op : ℕ) → op ≢ 0x48 → operands_size (operands_of op) ≡ opcode_operand_size op
unfolding operands_of operands_size opcode_operand_size
operands_size-opcode_operand_size op h =
    find_op-map operand_kinds op
    ∙ find_op_other (take 29 operand_sizes) (drop 30 operand_sizes) 0x48 4 0 op h

-- The listing knows no operands of OP_BACKGROUND; bytecode.h gives it four bytes.
background_sizes : (operands_size (operands_of 0x48) ≡ 0) × (opcode_operand_size 0x48 ≡ 4)
unfolding operands_of operands_size opcode_operand_size
background_sizes = (refl, refl)

-- How far bytecode.h and the listing disagree: the operands of OP_BACKGROUND.
abbrev pub listed_size : ℕ → ℕ
listed_size op = if op == 0x48 then 0 else opcode_operand_size op

operands_size-listed_size : (op : ℕ) → operands_size (operands_of op) ≡ listed_size op
operands_size-listed_size op = elim (Bool-cases (op == 0x48)) [
  | inl e ↦
      let same : op ≡ 0x48 = ground arith in
      rw e (ap (λ n. operands_size (operands_of n)) same ∙ background_sizes.0)
  | inr e ↦
      let other : op ≢ 0x48 = ground arith in rw e (operands_size-opcode_operand_size op other)
]

-- At an offset in the code the listing moves past the opcode and the operands that bytecode.h gives it,
-- for every opcode but that of OP_BACKGROUND: there bytecode.h gives four bytes of operands, and the
-- listing moves past the opcode alone.
pub disasm_instruction-opcode_operand_size :
    (img : BytecodeImage) (at : ℕ)
    → at < length img.code
    → ((disasm_instruction img at).0
        ≡ at + 1 + (if peek_u8 img at == 0x48 then 0 else opcode_operand_size (peek_u8 img at)))
      × (opcode_operand_size 0x48 ≡ 4)
unfolding disasm_instruction
disasm_instruction-opcode_operand_size img at h =
    let inside : leb (length img.code) at ≡ false = ground arith in
    (
      rw inside (ap (λ n. at + 1 + n) (operands_size-listed_size (peek_u8 img at))),
      background_sizes.1,
    )

disasm_instruction-advances :
    (img : BytecodeImage) (at : ℕ) → at < length img.code → at < (disasm_instruction img at).0
unfolding disasm_instruction
disasm_instruction-advances img at h = ground arith

-- Whether the listing of an offset comes to its end.
abbrev Listed : Option Bytes → Type 0
Listed r = (lines : Bytes) × (r ≡ some lines)

Listed-line : (r : Option Bytes) (line : Bytes) → Listed r → Listed (put_before line r)
unfolding put_before
Listed-line r line (lines, e) = (line ++ lines, rw e refl)

-- One round, whatever the instruction is.
Listed-round :
    (at size : ℕ) (line : Bytes) (more : Option Bytes)
    → (at < size → Listed more)
    → Listed (if ltb at size then put_before line more else some [])
Listed-round at size line more h = elim (Bool-cases (ltb at size)) [
  | inl e ↦ rw e (Listed-line more line (h (ltb→lt at size e)))
  | inr e ↦ ([], rw e refl)
]

disasm_code-returns :
    (fuel : ℕ) (img : BytecodeImage) (at : ℕ)
    → 0 < fuel
    → length img.code < at + fuel
    → Listed (disasm_code fuel img at)
unfolding disasm_code
disasm_code-returns zero img at some_fuel h = absurd (omega arith)
disasm_code-returns (suc fuel) img at some_fuel h =
    let behind = (disasm_instruction img at).0 in
    let rest : at < length img.code → Listed (disasm_code fuel img behind) = λ inside.
      disasm_code-returns fuel img behind (omega arith)
        (let moved = disasm_instruction-advances img at inside in omega arith) in
    Listed-round at (length img.code) (disasm_instruction img at).1 (disasm_code fuel img behind)
      rest

-- The listing of every image comes to its end.
pub disasm_image-returns : (img : BytecodeImage) → (text : Bytes) × (disasm_image img ≡ some text)
unfolding disasm_image
disasm_image-returns img =
    Listed-line (disasm_code (length img.code + 1) img 0) _
      (disasm_code-returns (length img.code + 1) img 0 (omega arith) (omega arith))
