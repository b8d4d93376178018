-- ===== src/Vm/Bytecode.antt =====
-- src/compiler/bytecode.h: the sizes of the operands.
use opsh_actual.Base.{ℕ, ◌==◌, if◌then◌else◌, List, [], ◌∷◌}

-- What the table has for an opcode, or the default.
unfoldable pub find_op {ℓ} : {A : Type ℓ} → List (ℕ × A) → A → ℕ → A
find_op [] default op = default
find_op ((code, a) ∷ rest) default op =
    let later = find_op rest default op in if code == op then a else later

abbrev pub operand_sizes : List (ℕ × ℕ)
operand_sizes =
    (0x01, 2)
    ∷ (0x02, 4)
    ∷ (0x10, 2)
    ∷ (0x11, 2)
    ∷ (0x19, 2)
    ∷ (0x1A, 2)
    ∷ (0x12, 2)
    ∷ (0x13, 2)
    ∷ (0x14, 4)
    ∷ (0x15, 2)
    ∷ (0x16, 1)
    ∷ (0x18, 1)
    ∷ (0x20, 2)
    ∷ (0x21, 4)
    ∷ (0x30, 4)
    ∷ (0x31, 4)
    ∷ (0x32, 4)
    ∷ (0x33, 4)
    ∷ (0x37, 1)
    ∷ (0x38, 1)
    ∷ (0x3A, 2)
    ∷ (0x40, 1)
    ∷ (0x41, 2)
    ∷ (0x42, 2)
    ∷ (0x43, 2)
    ∷ (0x44, 4)
    ∷ (0x45, 1)
    ∷ (0x46, 4)
    ∷ (0x47, 4)
    ∷ (0x48, 4)
    ∷ (0x52, 2)
    ∷ (0x53, 2)
    ∷ (0x54, 1)
    ∷ (0x55, 2)
    ∷ (0x60, 1)
    ∷ (0x61, 1)
    ∷ (0x70, 2)
    ∷ (0x71, 1)
    ∷ []

unfoldable pub opcode_operand_size : ℕ → ℕ
unfolding find_op
opcode_operand_size = find_op operand_sizes 0
