-- ===== src/Lib.antt =====
-- A model of the core of the xan interpreter, a bytecode compiler and virtual machine in C, with
-- proofs about it.
--
-- The source text goes through the scanner (src/scanner.c) to the compiler (src/parse.c), which
-- writes 32-bit instructions (src/chunk.h) into a chunk with its pool of constants (src/chunk.c);
-- the virtual machine (src/vm.c) runs them on values (src/object.h), arrays (src/array.c,
-- src/object.c) and hash tables (src/table.c), which the garbage collector (src/memory.c) frees.
-- Modelled are the data structures, the instruction format, the chunks, the scanner, the jump
-- lists, names, registers and expressions of the compiler, interned strings, the call stack of the virtual machine and its
-- instructions on registers, and the garbage collector.
--
--   Base      names and lemmas that the other modules share. `length`, `get_or` and `set` index a
--             C array by a native number; a write out of range changes nothing.
--   Memory    src/memory.h: `round_up_pow_2` and `GROW_CAPACITY`. A `size_t` is a number below
--             2 ^ 64, with the wrap-around written out. Memory.RoundUp has the proofs.
--   Bytecode  src/chunk.h: the opcodes, the macros that pack and unpack the fields of an
--             instruction, and the writes of one field on either byte order (`setbc`).
--             Bytecode.Fields is about packing, Bytecode.Patch about the writes.
--   Value     src/type.h, src/object.h: the values as a sum, `valuesEqual`, and `hash` of
--             src/table.c. The C type `double` is a parameter, the record `Number`: its equality,
--             conversions and bits, with laws that IEEE numbers have. An object is its address,
--             and the record `Strings` says which objects are strings and what their hashes are.
--   Array     src/array.c, src/object.c: `newArray`, `ArrayInit`, `writeValueArray`, `setArray`,
--             `getArray`, `duplicateArray`. A cell that has not been written is `none`.
--             Array.Contents says when an array holds a list; Array.Methods has the proofs.
--   Table     src/table.c: `findEntry`, `tableGet`, `adjustCapacity`, `newTable`, `tableSet`,
--             `tableDelete`, `tableAddAll`, `duplicateTable`. Table.Probe follows the sequence of
--             entries that a search visits, Table.Slots says when an array of entries is well
--             formed and what a search finds, Table.Counting, Table.Writes and Table.Resize what writes and
--             growth do, Table.Model when a table represents a function from keys to values, and
--             Table.Entries and Table.Methods have the operations.
--   Interning src/xanString.c, `tableFindString` of src/table.c and `concatenate` of src/vm.c: string
--             objects and the table that keeps one of them for each text. The address of a new
--             object is an argument. Interning.Plain says what operations on a table leave in its
--             cells, Interning.Search compares the search for a text with `findEntry`,
--             Interning.Texts says when a table keeps one object for each text, and
--             Interning.Lookup, Copies, Equality and Kept are about the operations.
--   Chunk     src/chunk.c: `initChunk`, `writeChunk`, `addConstant`. Chunk.Code is about the
--             instructions, Chunk.Pool about the constants and the table of their indices.
--   Collector src/memory.c: a collection on a heap of objects, and the write barrier. An object is
--             a cell of the heap and its address is its index; freed cells stay in the heap, but
--             are not in the list of objects. `body_targets` are the pointers that `blackenObject`
--             follows. Collector.Roots is the walk of `markThread` through the call frames and
--             Collector.Walk says what it meets, Collector.References what an object refers to by its
--             fields; Collector.Marking, Tracing and Sweeping are about
--             the phases of a collection, Collector.Collect and Safety about a whole one, and
--             Collector.Barrier about `writeBarrier`.
--   Frames    src/vm.c, src/vm.h: `growStack`, `incFrame`, `incCFrame`, `decFrame`, `decCFrame`,
--             `call`, `captureUpvalue`, `closeUpvalues`. Pointers into the stack are addresses, which
--             a growth moves; `realloc` is a parameter, the record `Realloc`, that keeps the old
--             cells and says nothing of the new ones. An upvalue is in the list of open ones with
--             its location, or has its own value. Frames.Growth, Entering, Calls, Upvalues and Closing are
--             about these operations.
--   Run       src/vm.c: the loop `run`, for the instructions on registers and constants, the jumps and
--             the handlers of one function. The operators on a `double` are a parameter, the
--             record `Arithmetic`, and so are the objects that `isFalsey` takes for empty.
--             A seventeenth handler, which `run` would write behind its array of `TRY_MAX`, is an outcome
--             of its own. Run.Jumps is about tests and jumps, Run.Handlers about handlers.
--   Compiler  src/parse.c: the lists of jumps that wait for their target (`jump_next`,
--             `jump_append`, `jump_patch_value` and what they call) and the emission of
--             instructions (`emitBytecode`, `_emit_jump`, `jump_to_here`). The code is the list of
--             its instructions, as Chunk.Code shows of `writeChunk`. Compiler.Jumps is about one
--             jump, Compiler.Lists about lists of jumps, Compiler.Resolve about the patching of a
--             list, Compiler.Emit about emission. Compiler.Scopes has the locals of the functions
--             that are being compiled, outermost last: `resolveLocal`, `var_lookup`,
--             `declareVariable`, `endScope`, `regReserve` and what belongs to them. Scopes.Names,
--             Entries and Lookup are about the resolution of names, Scopes.Declarations and Blocks
--             about the locals of a block, Scopes.Registers about freeing a register.
--   Expressions src/parse.c: `expressionDescription` and the functions from `exprInit` to `emit_store`.
--             Expressions.Registers has the functions that bring a value to a register,
--             Expressions.Operators those for operators and assignment, Expressions.Trees what an
--             expression means and the calls for it. Expressions.Steps is about single steps of
--             the run loop, Growth and Places about what is emitted, Deliver says what it is for
--             code to bring a value, Fits when registers and positions are enough for it, and Settle,
--             AnyRegister, Operands, Unary, Emitted, Binary and
--             Generate prove it of one function after the other.
--   Scanner   src/scanner.c, src/scanner.h: the whole scanner. A pointer into the source is the
--             rest of the source, whose end is the terminating NUL. Scanner.Tokens has the types of
--             tokens and Scanner.Words the reserved words, about which Scanner.Keywords is.
--             Scanner.Progress and Scanner.Slices are about termination and the extent of tokens,
--             Scanner.Comments about block comments, Scanner.Steps about the bytes that a token
--             takes, and Scanner.Advance about the loop of `advance` in src/parse.c.
--   Tests     concrete inputs for the theorems.
--
-- Bounds and fuel. A search in a table has one step of fuel for each cell, the scanner one round
-- for each byte of the source and one more, the walks along a jump list one step
-- for each jump and one more. A trace takes a step for each object that turns black and for each
-- entry of the gray stack, the growth of a stack at most one for each cell that is asked for, the
-- walk through a stack one for each cell. The theorems state that the operations return, or what they return at that fuel.
-- The lists of jumps in an expression are followed with a step for each instruction and one more.
-- The theorem on expressions is for code of fewer than 2 ^ 16 instructions and for fewer than 256
-- registers.
-- A function that is being compiled has 256 places for locals, and the theorem on names is for fewer
-- than 255 upvalues in each.
-- Sizes of arrays and tables are bounded as the theorems say.
--
-- Not modelled: statements, calls and the reading of tokens in the compiler, the instructions of the virtual machine on globals,
-- upvalues, properties and calls, the count of allocated bytes (a collection is told whether the
-- next one is a major one), the calls that make a new object reachable, methods of strings, classes,
-- exception objects, the argument checks of native methods, and all input and output.
pub mod Base
pub mod Bytecode
pub mod Memory
pub mod Value
pub mod Array
pub mod Table
pub mod Interning
pub mod Chunk
pub mod Collector
pub mod Frames
pub mod Run
pub mod Compiler
pub mod Expressions
pub mod Scanner
pub mod Tests
