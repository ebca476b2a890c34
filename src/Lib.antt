-- ===== src/Lib.antt =====
-- A verification library of lakesis, a virtual machine with a garbage-collected memory, and its
-- assembler.
--
-- The program's parts. The assembler turns source text into tokens (src/assembler/lexer.rs), the
-- tokens into opcodes, labels and directives (src/assembler/parser.rs), and those into bytes
-- (src/assembler/encoder.rs). The bytes are an executable. The interpreter (src/interpreter/mod.rs)
-- loads them at address 0, decodes an opcode at a time (src/opcodes.rs) and executes it on its
-- registers, flags and memory. The memory (src/interpreter/memory.rs) hands out virtual addresses:
-- pages map to blocks, blocks to allocations, and allocations to regions of the heap, which are
-- collected and compacted when they run out.
--
-- The files.
--   Base: what all share: tests, lists, signed integers, bytes, words, dictionaries, and results that
--     are a value, an error or a panic.
--   Core: src/core.rs, its sizes and errors. A message is a constructor.
--   Opcodes/Mode, Operand, Instruction: the tables and enums of src/opcodes.rs, and the lookups.
--   Opcodes/Decode: `Opcode::decode` and `Operand::decode` over any reader. A reader is the function
--     `read_exact` on a state; `Serves` says what the standard library promises of it.
--   Opcodes/Cursor: a cursor as a reader, and the loop of `disassemble` in src/main.rs with the lines that it
--     prints. Lines is about these, and Follow compares another reader with a cursor.
--   Assembler/Report, Lexeme, Token: errors and positions (src/assembler/mod.rs), the tokens of the lexer and
--     of the parser.
--   Assembler/Lexer: `TrackingFileReader` and `Lexer`; Numbers has `lex_number`, Words the strings, characters,
--     identifiers and directives, Single the choice between them and the loop over the text. Progress says
--     what the loops pass, Multiplier names texts in which no number has a multiplier, NumberSafety, WordSafety and Safety
--     are about panics, and Reading and NumberBack lex the digits of a number.
--   Assembler/Assemble: `assemble`, the lexer, the parser and the encoder in a row.
--   Assembler/Parser: the state of `Parser` and its operands; Statements has directives, opcodes and the
--     loops. View says what is left of the input, Safety and Checked are about panics and checks, Printed
--     has the tokens of a statement, OperandsBack, StatementsBack and RoundTrip parse them back, Refusal and
--     Acceptance say what is refused and what is accepted, and Disassembly joins the
--     parser to the encoder and the decoder.
--   Assembler/Output: the writer, as bytes and a position.
--   Assembler/Encoder: the encoder, with labels, fixups and alignment; its children prove things
--     about values, operands, opcodes, whole programs and alignment.
--   Interpreter/Data: words with the mark of a reference, and the operations on them.
--   Interpreter/Memory/IdMap, Sizes, Heap: `IdHashMap`, the size computations, the bytes.
--   Interpreter/Memory/Regions: `HeapRegions`. Order says that the id list and the map agree, Layout
--     that the regions tile the heap, Valid puts both together. Counting counts the used ones, Reached has the
--     heaps that any allocations and frees lead to, and Compact is the compaction.
--   Interpreter/Memory/Mapper: `VirtualAddressMapper`.
--   Interpreter/Memory/Store: `Memory`, its access to words and marks by address. ReadBack is about
--     the words, Marks about the marks, DataWords about both together.
--   Interpreter/Memory/Reader: `MemoryReader`.
--   Interpreter/Memory/Allocator: allocation, garbage collection and growth. Reach says what is reached from
--     some addresses, Visit has the sets of ids that marking keeps, Mark its invariant, Scan the memories
--     that can be scanned, Collected what marking leaves, Survival what the other loops of a collection do
--     to the allocations, and Garbage the whole. Growth is about the growth of the heap.
--   Interpreter/Cpu, Native, Step, Run: the state of `Interpreter`, its helpers, the native calls, each
--     arm of `step`, and `run` with its loop. Step/Compare is about conditional jumps, Step/Calls about the
--     stack and calls, Step/Sums about addition and subtraction. Run/Fetch compares fetching with a cursor on the
--     bytes, Run/Straight names opcodes that work in registers, Run/Listing runs these, and Run/Assembled
--     joins the assembler to the interpreter.
--   CommandLine: the verbs of src/main.rs, with the help. Compose is about commands on the same files.
--   Tests: runs of the theorems at concrete inputs.
--
-- Parameters. `Classes` has what the standard library's tables say of a character: whether it is
-- white space, alphabetic or numeric. Where a theorem asks more of the tables than that they are
-- there, it says so. `Platform` has the files and the decoding of texts for the command line, and
-- `KeepsFiles` what the standard library and the operating system promise of files; whether two paths lead to
-- the same file is the operating system's to say.
--
-- Conventions. A method on `&mut self` is a function from the old state to a result with the new
-- one. An `unwrap`, `expect`, `assert!`, index or arithmetic operation that fails is `panic`;
-- arithmetic is checked, as in a debug build, where the source does not use a wrapping type. Sums within
-- the heap, of bases, lengths and offsets, are not checked where they cannot be too large. Bytes of the heap
-- that were not written, which the source leaves uninitialised, are zeros. Words
-- are numbers of ℕ and wrap by `% 2 ^ 64` where the source's do. A HashMap is an association list;
-- the source iterates over one in an unspecified order, the model in the order of the list. What
-- the interpreter prints is returned as a list of pieces, random numbers are an argument, and
-- what a command that fails leaves in files is not kept.
--
-- Fuel. The loops of the lexer have a round for each character, and those of the parser,
-- `operands_loop` and `parse_loop`, one for each token, since each round passes one. `align_loop`
-- has as much as the alignment, since fewer zeros are missing. `grow` has 32 rounds, since the size
-- at least doubles up to 2 ^ 30. `compact_loop` has a round for each region. `mark_loop` has a
-- round for each address that it starts with and one for each bit of the bitfields, which lie on
-- the heap. `disassemble_loop`, `listing_loop` and `view_loop` have one for each byte. Out of fuel they panic. The loop of
-- `run` may go on for ever: it is given a number of steps, and has no answer when it needs more.
--
-- Not modelled: the formatting of values, opcodes, memory and machine, which is output only, and the
-- program's exit, which shows the error that a command ends with.
pub mod Base
pub mod Core
pub mod Opcodes
pub mod Assembler
pub mod Interpreter
pub mod CommandLine
pub mod Tests
