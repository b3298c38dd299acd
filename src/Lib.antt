-- ===== src/Lib.antt =====
-- Aer's value representation, its tables and its memory pools, with proofs.
--
-- Parts. Every Aer value is one 64-bit word (source/core/value_box.h), which holds a double or a tag
-- with 48 bits of payload. Maps, scopes and the constant tables keep such words, or pointers to
-- them, in one open-addressing hash table (source/utilities/hashtable.c), which hashes its keys
-- with source/utilities/hash_util.c.
-- The lexer (source/compiler/lexer.c) turns a source into tokens, the indentation of its lines included.
-- Errors of all parts go to source/utilities/error.c, which keeps the last message and the flags.
-- JSON text is written and read by source/core/aer_json.c, whose objects become such tables.
-- The compiler emits code and constants into a chunk (source/core/vm.c), which the machine runs.
-- Names are resolved in a stack of scopes, whose overflow tables are hash tables, too.
-- The cells behind such pointers come from slab pools (source/utilities/pool.c), which the garbage
-- collector sweeps.
--
-- Files.
--   Base: numbers, tests, lists, bit patterns and C strings as lists of bytes.
--   Hash: `hash_key` and `hash_match` of source/utilities/hash_util.c.
--   HashTable: `hashtable_put`, `hashtable_get`, `hashtable_remove`, `hashtable_clear`,
--   `hashtable_free`, `rehash` and `free_payload` of source/utilities/hashtable.c, and the reads of
--   hashmap.c and dictmap.c in the same directory. The table is a record with the fields of the
--   source; an operation returns the table it leaves and the allocations it has released. Below it:
--   Ring (slots modulo the capacity), Placement (an entry is reached by probing from its home slot),
--   Contents (the map that buckets represent), Chain (the buckets behind a removal), Search and
--   Loops (where the probe loops stop), Live (the invariant), Entries (the keys with
--   their values), and one file for each operation.
--   ValueBox: the factories and accessors of source/core/value_box.h, `aer_int` of
--   source/core/vm.c, and the seam to the public `Value`.
--   Pool: source/utilities/pool.c, one function for each of its functions, on a heap of the pool, the
--   memory of the free list and the count of allocations. Below it: Slots (from an address to its
--   state byte), State (a write of one byte), Bytes (its bits), Chain (the free list and the
--   invariant), Free, Grow, Alloc, SweepCell, Sweep, Mark and Marks for the operations, and Cycle
--   for a full collection: marks cleared, roots marked, pool swept.
--   Lexer: the head of `lex` and its end in source/compiler/lexer.c, which turn the indentation of lines
--   into INDENT and DEDENT. Below it: Indentation (the loops and the stack) and Balance; Symbols
--   is the switch of `lex` over punctuation and operators, with the spelling of its tokens. Words is
--   the rest: white space and comments, identifiers and keywords, strings, numbers, and `lex` as a whole,
--   which lists the errors beside the token. Below it: Keywords, Strings and Numbers, Progress (each
--   token takes a byte), Layout (blank lines and comments end), Work (what is left to do) and Ends.
--   Error: source/utilities/error.c, on what the C library makes of a format and its arguments. Below it:
--   Clip (the bounded buffer), Lines (the line of the cursor) and Message.
--   Json: source/core/aer_json.c. Json itself is the text buffer and the encoder over the tree of a
--   value, Json/Decode the parser, Json/Dict the table of a decoded object and Json/Call the calls of
--   the two functions on the stack. Below it: Text (the grammar that the encoder follows), Strings and
--   Digits (the round trips of strings and integers), Plain and RoundTrip, and Ends.
--   Chunk: the bytecode chunk of source/core/vm.c and vm.h (`chunk_emit`, `chunk_mark_line`,
--   `chunk_line_for_offset`, `chunk_add_pool`, `chunk_find_shape`, `chunk_add_import`). Below it: Lines,
--   Pool and Shapes for the three tables.
--   Scope: the scopes of the machine in source/core/vm.c (`vm_scope_get`, `vm_scope_define`,
--   `vm_scope_set`, `vm_box_slot`, `vm_resolve_name_cached` and the handlers that use them). Below it:
--   Places (where a name is found), Nearest (which binding is seen), Extend, Set, Define and Box (a write, a new variable, a capture)
--   and Stale (the address cache).
--
-- Numbers. `unsigned int` and `unsigned long long` are natural numbers with their wrap-around
-- written out. A double is the number of its 64 bits.
--
-- Fuel. The probe loops run on the rounds that are left, which the source counts up to the
-- capacity. The doubling loop of `rehash` has 33 rounds: a nonzero capacity of 32 bits is doubled
-- to 0 in 32. `hashtable_put` and `rehash` call each other to depth 2, since the puts of a rehash
-- find a load below one half. The loop behind a removal has a round for each slot. The
-- loop over blank lines has a round for each byte and one more, and each round takes a byte.
-- The loop over white space and comments has a round for each byte and one more, since each
-- round but the last takes a byte.
-- The JSON decoder has three calls for each byte of the input, since a bracket, which takes a byte, is
-- read by three nested calls; the loop of a string has a round for each byte, and the loop that widens
-- the text buffer a round for each byte needed.
-- The binary search over the line marks has a round for each mark and one more.
--
-- Not modelled: failing allocations (the source exits), the formatting and reading of doubles and the
-- formatting of error texts (arguments of the models), the parser, the garbage collector's choice of
-- roots, the dispatch loop of the virtual machine, and all input and output, the reading of a
-- source file included.
pub mod Base
pub mod Chunk
pub mod Error
pub mod Hash
pub mod HashTable
pub mod Json
pub mod Lexer
pub mod Pool
pub mod Scope
pub mod ValueBox
