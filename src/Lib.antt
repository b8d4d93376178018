-- ===== src/Lib.antt =====
-- opsh, a shell: a lexer, a parser and a compiler turn a script into bytecode, which a virtual
-- machine runs. The machine keeps variables in a chain of scopes, evaluates arithmetic on them, starts
-- processes and keeps a table of jobs; a language server and an agent protocol speak JSON. This library
-- models the data structures under all of that, the bytecode image and its files, the machine's state
-- and the instructions that start no process, and the components that work on plain data.
--
-- Base holds what the modules share: lists with native indices, byte strings (the codes up to the
-- terminator), decimal printing and strtoll, masks of a power of two, and Base.Run, the outcome of C
-- code: a value, an abort, an access out of bounds, other undefined behaviour, or fuel that was too
-- little. `Returns r P` says that the code returns, and that P holds of what it returns.
--
-- Foundation.Util      src/foundation/util.c       checked_add, checked_mul
-- Foundation.Hashtable src/foundation/hashtable.c  ht_init, ht_get, ht_set, ht_resize, ht_remove, ht_foreach
-- Foundation.Strbuf    src/foundation/strbuf.c     the append functions, over ensure_capacity
-- Foundation.Plist     src/foundation/plist.c      plist_add, plist_remove
-- Foundation.Json      src/foundation/json.c       json_write_string, json_key_*, json_get_*, json_find_*
-- Foundation.Jsonrpc   src/foundation/jsonrpc.c    jsonrpc_read_message, jsonrpc_send, jsonrpc_send_*
-- Vm.Value             src/vm/value.c              value_clone, value_to_string, value_to_integer
-- Vm.Arith             src/vm/arith.c              arith_eval and its parser, with Int64, State, Operators
-- Vm.Image             src/vm/vm.c, src/vm/image_io.c  image_new, image_add_const, image_emit_*; in Write and
--                      Read image_write_opsb and image_read_opsb
-- Vm.Bytecode          src/compiler/bytecode.h     opcode_operand_size
-- Vm.Disasm            src/vm/disasm.c             disasm_instruction, disasm_image
-- Vm.Machine           src/vm/vm.h, src/vm/vm.c    the state, vm_push, vm_pop, vm_peek, the operand readers, vm_jump
-- Vm.Machine.Data      src/vm/vm.c                 the instructions on the stack, the variables, arrays, iterators
-- Vm.Machine.Words     src/vm/vm.c                 parameter expansion, with Split and Groups for the words
-- Vm.Machine.Control   src/vm/vm.c                 jumps, scopes, calls, loops, tests, the status
-- Vm.Machine.Special   src/vm/vm.c                 special parameters, arithmetic, unary tests, set -e, the end
-- Vm.Machine.Dispatch  src/vm/vm.c                 vm_init, and vm_run as a step relation
-- Exec.Variable        src/exec/variable.c         environ_* over the hash table
-- Exec.Job             src/exec/job.c              job_*, with the results of waitpid as an argument
-- Exec.Signal          src/exec/signal.c           the handlers and the flags, signal_init, signal_check_*
-- Builtins             src/builtins/builtins.c     test, printf, shift, local, export, readonly, unset
-- Agent                src/agent/event.c           stdio_emit, with the results of write as an argument
--
-- A definition has the name of the C function that it models. Pointers into a table that the table
-- alone holds are the slots themselves. The names of the laws say what they are about: in
-- Foundation.Hashtable, Cycle has the probe order, Placed and View the invariant and the map behind the
-- slots, Search, Insert, Shift, Move, Remove, Grow and Visits the operations, and Session whole runs; in
-- Exec.Variable, Chain has the map behind a chain of scopes; in Exec.Job, Order and Settled have the two
-- halves of the invariant, and Session whole runs; Foundation.Json.Object writes lists of pairs; in
-- Vm.Arith, Frame, Steps, Levels and Quiet go through the parsers from the smallest to the whole for what
-- they leave of the state, and Range, Values, RangedLevels and Ranged for the range of their values;
-- Skipped has the operands that are not evaluated.
--
-- In Vm.Image, Pool is about the constant pool, Wire reads back what the writer wrote, RoundTrip puts it
-- together section by section, and Untrusted is about files from anywhere. An instruction is a function
-- on the machine's state, whose outcome is a Run; in Vm.Machine, Stack has what the accessors do, Limits
-- the bounds of the three stacks, instruction by instruction, Calls a call and its return, Words.Fields
-- the splitting at IFS, and Words.Iterate the words of a `for` loop. fnmatch, the tests of files and the
-- regular expressions of the C library are parameters of the instructions that call them: the record
-- System of Vm.Machine.Special holds them.
--
-- The evaluation of a variable's own string is in that string and not in a copy, so an assignment to the
-- variable meanwhile, which releases the string, is undefined in Vm.Arith.
--
-- Fuel: the search loops of the hash table have one round for each slot, of which one is empty, and
-- ht_set and ht_resize call one another to the depth 2, since a doubled table takes all its entries
-- without growing again. The growth loop of the buffer has 65 rounds, one more than a size_t can
-- double. The reaping of the job table has one round for each job and one more, the key search of JSON
-- one for each byte and one more, the header of a JSON-RPC message too, since each round takes a job
-- or a byte. arith_eval takes its fuel as an argument; no bound for it is given yet. The growth of the
-- code has 65 rounds, one more than a size_t can double; the splitting at IFS and the replacement have
-- one round for each byte, the replacement one more for the end of the string; the listing of the
-- bytecode has one for each byte and one more.
--
-- Not modelled: allocation failure and freeing, files and processes; of the machine the instructions
-- that start processes, run builtins or modules, redirect, match file names, expand ~ or check
-- capabilities, the EXIT trap, and the traps that vm_run runs between instructions. The lexer, the
-- parser, the compiler, the formatter, the linter, the other builtins and the servers are not in the
-- library yet.
--
-- The hypotheses on capacities below 2^63, 2^59 and the like keep sums and byte counts in a size_t;
-- no memory holds more. A job has at least one process, as every call of job_add in the program gives it.
pub mod Base
pub mod Foundation
pub mod Vm
pub mod Exec
pub mod Builtins
pub mod Agent
mod Tests
