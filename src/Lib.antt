-- ===== src/Lib.antt =====
-- NemClass reads the memory of a running process. This library models the parts of it that decide
-- what is found there: address formulas, scan sessions, pointer scans and structure scans.
--
-- Parts, and the files that model them:
--  - Address formulas (crates/nemclass-model/src/address). A text is split into tokens
--    (tokenizer.rs: Address/Tokenizer), parsed by recursive descent (parser.rs: Address/Parser) into
--    an expression (ast.rs: Address/Syntax), and evaluated against the modules and the memory of the
--    target (interpreter.rs and mod.rs: Address/Interpreter). Address/Grammar is the grammar as a
--    relation, Address/Written a way to write formulas down. Address/Sound, Rounds, Complete, ReadBack, RoundTrip,
--    Totality, Value and Height hold the proofs; Address/Fuel the laws of the parser's fuel.
--  - The scanner (crates/nemclass-scan/src). What a value is compared with (compare.rs and
--    value_type.rs: Scan/Compare, ValueType, Needle), byte patterns (pattern.rs: Scan/Pattern), the
--    results as parallel columns (results.rs: Scan/Results), regions and filters (target.rs:
--    Scan/Target), the session and its two passes (scanner.rs: Scan/Session, FirstScan, NextScan),
--    signatures (signature.rs: Scan/Signature) and frozen values (freeze.rs: Scan/Freeze). A pass
--    takes the filtered regions from Target, tests candidates by Needle, and pushes onto Results.
--    The other files below Scan hold the proofs: Walk, Lattice, Rounds, Coverage, Locality, Columns and
--    Finds on the first pass, Passes, Generations and History on the session, Filtered, Merged and Window on
--    filters, Unique and Spelling on signatures, Frozen on frozen values.
--  - The pointer scan (crates/nemclass-scan/src/pointerscan.rs): paths (Pointer/Path), the harvest of a
--    map of pointers (Pointer/Harvest), the search over it (Pointer/Search) and a path as a formula
--    (Pointer/Formula), with proofs in Pointer/Chains, Bounded and Harvested, and in Spelled, Reparsed
--    and Reread on formulas.
--  - The structure spider (crates/nemclass-scan/src/spider.rs): settings and paths (Spider/Path), the
--    window of a structure and its page-by-page retry (Spider/Window), the breadth-first search
--    (Spider/Search) and the refine (Spider/Refine). Proofs: Cover and Pages on what a window shows,
--    Invariant, Slots, Levels and Sound on the search, Narrow on the refine.
--  - The document model (crates/nemclass-model/src): nodes with their tags and sizes (node/builtins.rs,
--    vector.rs, function.rs, vtable.rs: Model/Node), their stored form (serialize.rs: Model/Stored), the
--    registry that reads it back (node/registry.rs: Model/Registry), classes and projects (class.rs,
--    project.rs: Model/Project) and their files (Model/File). Proofs: Reload and Depth on nodes, Maps,
--    Order and Uses on projects, Saved and Loaded on files.
--  - The layout that the code generators print (codegen/mod.rs: Model/Sizes, Model/Fields), with proofs in
--    Model/Measured, Acyclic, Printed and Layout.
--  - The dissection of an unknown structure: printable runs (crates/nemclass-core/src/internal/analysis,
--    strings.rs: Process/Strings, with proofs in Process/Runs), what a word points at (pointer.rs:
--    Process/Pointers, proofs in Process/Vtables), and the fields that these suggest
--    (crates/nemclass-model/src/dissect.rs: Model/Dissect, proofs in Model/Tiling).
--  - The process layer (crates/nemclass-core/src/internal): protection flags and sections
--    (process/protection.rs, process/types.rs: Process/Section), and the index of what an address
--    points into (analysis/region_index.rs: Process/RegionIndex, with its proof in Process/Lookup).
--    A live process offers its sections to a scan behind a filter (target.rs: Scan/SectionFilter,
--    with the proof in Scan/Offered).
--  - Common holds what they share: tests and lists over the native numbers, integers, a stable sort,
--    texts, and the outcome of code that may fail. Examples holds tests.
--
-- Names follow the source, save that a method without a telling name takes its type's
-- (`FreezeSet::set` is set_frozen, `BytePattern::parse` is parse_pattern, `Scanner::results` is
-- current_results, `Scanner::alignment` is step_of, `RegionIndex::is_mapped` is is_mapped_in).
--
-- How the code is read:
--  - A usize has 64 bits. Evaluation of formulas wraps, as the source does; `Region::end` saturates.
--    The addresses of a walk do not wrap: the source panics where `next_multiple_of` overflows.
--  - Texts are lists of code points or bytes. The cursor of the tokenizer and of the parser is the
--    input that is left. An error's message is replaced by a constructor that names its place.
--  - `Outcome` is a `Result` with one value more, `diverged`, for a loop that runs out of fuel. The
--    tokenizer has one unit of fuel more than the text is long, and each round takes a byte; the
--    parser six for each token and six more, since it makes at most six calls between two tokens; the
--    walk of a region one more than the region's end, since each round raises the address.
--  - The target is a parameter: a list of regions or an error, and a reader that answers the bytes
--    read or an error (a number). The observer is a function of the progress that it is given, since
--    the calls within a pass differ in it. Floats are a record of the operations that the code uses.
--  - The crates uuid and toml are parameters: the text of an id and of a file, and what a text spells. A
--    map is an association list. The check on the nesting of a stored node has one unit of fuel for each
--    node, and the measuring of a class one for each class of the project and one more.
--  - The set of visited goals of a pointer scan, and that of addresses of a structure scan, is a list
--    without order. The levels of a structure scan have one unit of fuel more than the depth, and the
--    slots of a window one more than its end; the retry of a window one for each byte. The
--    searches for runs and for fields have one more than the buffer is long, and so has the harvest
--    of pointers for the words of a chunk; for the chunks of a region it has one more than the end.
--
-- Not modelled: system calls, the kernel client with its wire structures and the kernel module; the
-- listing of processes and of /proc, symbols and PE headers; the parsing and conversion of protection
-- flags; disassembly (a third-party decoder) and the cross references built on it (analysis/dissect.rs);
-- the user interface and scripting (drawing and a third-party engine); cheat tables; the texts that
-- nodes and generators print.
pub mod Common
pub mod Address
pub mod Scan
pub mod Pointer
pub mod Spider
pub mod Process
mod Examples
pub mod Model
