-- ===== src/Vm.antt =====
-- src/vm: values, the arithmetic evaluator and the bytecode image.
pub mod Value
pub mod Arith
pub mod Image
pub mod Bytecode
pub mod Disasm
pub mod Machine
