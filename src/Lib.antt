-- ===== src/Lib.antt =====
-- The Ahaggar framework: GCC plugins that print the syntax tree of a program as text, match the
-- calls in that text against tables of functions, and insert calls into the statements of a
-- program.
--
-- The parts, and how they meet. A plugin (ahaggar-ast.c) walks the trees of a unit with the walkers
-- of walk-nodes.c and prints them with print-nodes.c into an output buffer (buffer.c), numbering
-- the nodes with a structure of cache-nodes.c. When a statement has been printed, fncalls-match.c
-- looks in the text for the calls of the functions in its tables. It cuts each call out with the
-- substrings of str-utils.c, tries the patterns of the table on it, which are regular expressions
-- and callbacks, and reports what matches. The callbacks are the checks of fncalls_checks/, which
-- read the arguments out of the text of the call with checks-utils.c. Another plugin
-- (ahaggar-xinstrument.c) inserts calls behind calls of the functions in its own table.
--
-- Which file models what. Paths are those of the repository.
--   Base      the shared names: Boolean tests on numbers, lists, the arithmetic of unsigned long
--             and unsigned int, and Run, the outcome of C code, a value or a fault. A fault is a
--             NULL or dangling pointer that is followed, an access out of bounds, or a signed
--             overflow.
--   Buffer    buffer.c and buffer.h. OutputBuf is struct output_buf with the bytes of its block; a
--             store maps addresses to live structs, so that two pointers may be one buffer. The
--             static helpers of the model (grown, printed, settled) are stretches of the functions.
--   Str       str-utils.c and str-utils.h. Mem is one block of bytes at a 64-bit address; a
--             Substring has the pointers start and stop (the field end) and the length, and pointer
--             arithmetic wraps. strchr, strrchr, strlen, strstr and strncmp are written out on
--             bytes.
--   Cache     cache-nodes.c and cache-nodes.h. A node is its address. The queue's entries are cells
--             of a heap. The pointer map and the splay tree of GCC are a parameter, TableOps.
--   Checks    fncalls_checks/checks-utils.c; Checks/Sizes has mem-checks.c and malloc-checks.c, and
--             Checks/Open has file-checks.c. A call is a block of bytes with its terminator, and a
--             pointer into it an index. strtoul, strtol and the print of a number are parameters.
--   Match     fncalls-match.c and fncalls-match.h: the data and the tables in Match, their setup
--             and the name test in Match/Setup, the scan of the text in Match/Calls, the patterns
--             in Match/Reports, the loop over the calls and the handler in Match/Output, the
--             headers of fncalls_checks/ with the functions to look out for in Match/Targets, and
--             regex-utils.c in Match/Regexp. libiberty's hash table and regcomp and regexec are a
--             parameter, Libs. A table holds the index of a target where the source holds its
--             address. What is written or reported is a list of events.
--   Log       log.c and gcc-log.c. The operating system is a parameter, Os: each call maps a state
--             that is not known to its answer and the next state. IsLawful says what the calls do
--             to the bytes that a descriptor has taken; theorems that need no more than the order
--             of the calls do without it. Log/Session has what both plugins do at the ends of a
--             unit.
--   Instrument  ahaggar-xinstrument.c and xinstrument_calls/xinstrument-utils.c: the tests on a
--             statement, the walk over a block, which is a list of statements, and the pass over
--             all blocks. The functions that build a call are fields of the table, as in the
--             source. Instrument/Calls has the table, xinstrument_calls/xinstrument-calls.h, and
--             Instrument/Unit the callbacks and the registration of the plugin.
--   Tree      nodes-utils.c, gcc-utils.c and print-nodes.c, and how a walker acts on struct
--             plugin_data (ahaggar.h). GCC is a parameter, the record Gcc: a node is its address,
--             NULL is 0, each macro is a function of the address, to apply one to NULL is a fault,
--             and a formatted number enters as its text. Pdata is the struct, with the calls of the
--             output functions on its buffer in place of the buffer; Buffer/Script says what those
--             calls do to it. Tree/Steady has the rules for walkers that keep the level of the
--             indentation.
--   Walk      walk-nodes.c, in Lists, Types, Decls, Stmts, Jumps and Exprs, and walk-gimple.c, in
--             Gimple. A Walker is the plugin's data with the walk that GCC runs on a part
--             (base_cp_tree_walker with the tree_walker of the plugin), which is a parameter.
--   Ast       ahaggar-ast.c: its statics and the groups of its cases in Ast, the calls in
--             Ast/Calls, the cases and the tree walker in Ast/Cases, the dump of a function in
--             Ast/Functions, and the arguments of the plugin in Ast/Options. errorcount enters
--             there as whether it is not 0. Ast/Unit has the callbacks of the plugin from
--             plugin_init to ast_finish, on a record of the plugin with errorcount and the state of
--             the system; its child modules follow a unit whose log is opened (Dumped, Written),
--             one whose log is not (Unopened), and any callbacks in the order that GCC documents
--             (Order).
--
-- Each part but Tree and Walk has a file Tests, with small inputs and the theorems at them;
-- Ast/Tests has those of Tree and Walk too. The target is a 64-bit one: unsigned long has 64 bits,
-- int and unsigned int have 32, a pointer has 8 bytes.
--
-- Fuel. Most loops recur on the bytes or the list that they run over. Four kinds run on fuel, and
-- to outlive it is a fault: get_args_nr, for which one round more than there are arguments is
-- enough; the loop of pmap_nodes_finish and sptree_nodes_finish, for which one more than the
-- entries is enough; the walk over a block, for which the statements that it visits are enough; and
-- the loops of the tree walkers over a chain of nodes or of types, whose bound is the field links
-- of a Walker: one more than the links of the chain is enough.
--
-- What is not modelled: substring_fini, which only frees; the functions of the plugins that do
-- nothing (ahg_ast_checker, ahg_xinstrument_write and the gate of the pass); and the headers that
-- the sources include and the repository does not have (builtins-warnings.h, builtins-checks.h and
-- compiletime-size.h): what they declare is a parameter where it is used. The lines of
-- fncalls-match.c that include a header in a table are commented out but one, so the tables are
-- parameters of Match, and Match/Targets has what the headers put into them. The text functions of
-- nodes-utils.c take a fresh buffer on every call, which is why they are functions to texts here.
-- Formatting is done by the C library, so a formatted text enters a function as the bytes it stands
-- for.
pub mod Base
pub mod Buffer
pub mod Cache
pub mod Checks
pub mod Str
pub mod Match
pub mod Log
pub mod Instrument
pub mod Tree
pub mod Walk
pub mod Ast
