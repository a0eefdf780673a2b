-- ===== src/Lib.antt =====
-- Verification of ish, an interactive shell.
--
-- The program is a line editor and job-controlling front end (`src/`), a POSIX shell that runs the
-- commands (`crates/epsh`), and tools for directories (`crates/fdu-*`, `crates/ish-fs`). This library
-- models parts of the program's own logic as functions by clauses and proves what they promise.
--
-- Files and the code they model:
-- Prelude: shared names, Boolean tests on numbers and lemmas on lists.
-- Utf8: the standard library's text, code points with the byte offsets of their UTF-8 encoding.
-- Line: the buffer of `src/line.rs`, one function per method of `LineBuffer`; Line.Grid has the methods on
--   rows and lines, Line.Width the widths.
--   A method that may panic returns an option, and `none` is the panic. Line.Zipper is the contract, a
--   cursor between two lists of characters; Line.Edits, Line.Words, Line.Replace and Line.Motions relate
--   the methods to it, but for the motions between rows of the terminal, and Line.Session runs sequences of
--   these. Line.Vertical is about where the motions between lines and rows leave
--   the cursor; a grid motion on a buffer with a newline, a failed assertion, is `none`.
-- Int64: the operations of i64 on bit patterns below 2^64.
-- Arith: `crates/epsh/src/arith.rs`. Arith.Token is `tokenize`; Arith.Eval is `ArithParser`, whose tokens
--   and position are the list of tokens left, with the variables behind an interface, `Store`. Below it,
--   Post, Shape, Rules and Skip prove what each method keeps, and Total states the results.
-- Tree: the arena of `crates/fdu-core/src/lib.rs`. A node is its index, and a Rust index out of range
--   that the code tests for is `none`. Ancestors has the walks to the root, WellFormed has the
--   invariant, Append, Lineage, Totals and Paths what the operations do, Tombstone has
--   `tombstone_subtree`, Rounds is about the fuel of its inner loops, and Preserve, Buried
--   and Reachable are about the invariant, which all keep.
-- Vars: `crates/epsh/src/var.rs`, the variables with flags and scopes. The map is a function of the name.
--   Vars.Op runs sequences of changes, Restore, Readonly and Integer have the results.
-- Glob: `fnmatch` of `crates/epsh/src/glob.rs`; Glob.Encoding has the encoding of
--   `crates/epsh/src/encoding.rs` on valid text, Glob.Bytes that of any bytes.
-- Expand: `field_split`, `trim_suffix`, `trim_prefix` and `remove_glob_escapes` of
--   `crates/epsh/src/expand.rs`. Expand.Items is an independent description of the splitting, which Units and
--   FieldSplit relate to the loop.
-- History: the log of `src/history/store.rs`. History.Bytes has the numbers and the checksum, History the
--   records, History.Log the loop of `read_snapshot`, History.Store the operations on a file; below
--   it, Recovery and Torn are about reading, Append about writing, Salvage about
--   a corrupt frame, Resume and Kept about a cursor that is kept. The three
--   errors of `encode` are one, `invalid_occurrence`.
-- Completion: the moves in the grid of `src/complete.rs`.
-- Input: the decoder of `src/input.rs`. Input has the escape sequences, Input.Decode the keys and
--   characters, Input.Paste the paste.
--
-- How the parts interact: the decoder of keys gives the editor its characters and pastes, and the editor's
-- buffer gives the shell its text; the shell's arithmetic reads and writes its variables through the calls
-- that `Store` names; patterns are matched on the encoded text, by the trimming of values too; the history
-- log keeps the commands that were run.
--
-- Fuel: the parser has twelve calls to each token and twelve more, the tokenizer one round to each
-- character, the matcher one to each character of the pattern and one more. Each method of the parser
-- passes at least one token between two visits of itself. The loops over a node and its ancestors have one
-- round more than the node's index, since a parent stands before its children; the loops over words have
-- one round more than the text has bytes. The splitting of a fragment has one round to each unit. The loop
-- over the history log has one round to each byte, since each frame has some, and `read_snapshot` one call
-- to each byte of the file and one more, since a log that is published is shorter than the torn one. The
-- loop over the bytes of input is given its rounds by the caller, and so is the traversal of
-- `tombstone_subtree`.
--
-- Not modelled: terminals, processes, signals, directories and other effects; the shell's parser, its
-- evaluation and the expansion of its syntax tree; the history's lock, writes that fail, and its old format;
-- the iterator over children of the arena; importing and exporting an environment;
-- special parameters, which the arithmetic reads through `Store`; the rest
-- of a paste that is too long. Numbers that the code keeps in machine words are natural numbers, with
-- wrap-around and range checks written out where the code has them; a usize has 64 bits.
pub mod Prelude
pub mod Tree
pub mod Utf8
pub mod Line
pub mod Int64
pub mod Arith
pub mod Vars
pub mod Glob
pub mod Expand
pub mod History
pub mod Completion
pub mod Input
