-- ===== src/Lib.antt =====
-- The query engine over chunks of blockchain data: a request selects rows of a chunk's tables, joins
-- them to related rows, and returns them as a page of complete blocks within a weight budget.
--
-- What is modelled, and where:
-- - Page (src/execution/page.rs): `select_page` reads complete ranges of blocks, weighs their blocks,
--   and ends when the budget is spent or the request ends. `Execution` holds what the loop reads of
--   the plan, the options and the footers; `Reader` is the interface of what reads a range: scan_tables,
--   the headers of a range, range_blocks, compute_block_weights, retain_selected_keys and the append of
--   tables. `read_ranges` has fuel, one for each round, and gives `none` where it runs out. Page.Bounds
--   is about the end of a range, Page.Ranges about the blocks that lie in one, Page.Loop about the
--   rounds, Page.Ends about their end, Page.Selected about the page.
-- - Selection (src/output/weight.rs): `BlockSelection`, which page selection extends range by range,
--   and the loop of `weight_range_end` over the weights of a narrow scan. Selection.Prefix compares it
--   with the longest run of blocks within the budget, Selection.Ranges with a selection at once.
-- - Join (src/join/mod.rs), Join.Semi (src/join/semi_join.rs) and Join.Hierarchical
--   (src/join/hierarchical.rs): rows joined by the bytes of their keys, or by their group and address.
--   A hash set is the list of its members, a hash map an association list; Arrow's filter kernel is a
--   parameter of `keep_matching`. Join.Semi.Encoded has the values of keys and Join.Semi.Keys is about
--   their bytes, Join.Semi.Masks and
--   Join.Hierarchical.Masks compare the masks with nested loops, Join.Hierarchical.Index is about the
--   index by group, Join.Hierarchical.Prefix about the tests of two addresses.
-- - Fork (src/output/fork.rs): the comparison of a client's parent hash with the chunk's. Fork.Answer is
--   about the row that answers, Fork.Check about the verdict.
-- - Integers (src/integers.rs): integer columns at every physical width, the keys they are joined by,
--   the block numbers they hold, and filter values narrowed to them.
-- - Sets (src/sets.rs): the wire form of a fuse filter and the lookup in it; the hash of a key is a
--   parameter.
-- - BlockIndex (src/output/block_index.rs): where each block of a page sits in it, and the rows of each
--   block. BlockIndex.Positions is about positions, dense or searched, BlockIndex.Range about the
--   least and the largest block, BlockIndex.Counted, BlockIndex.Placed, BlockIndex.Visited and
--   BlockIndex.Sorted about the counting sort of rows, BlockIndex.Built about its refusal.
-- - Pairs (src/scan/pairs.rs): sets of two-integer keys, as bitmaps or hashed. Pairs.Dense is about the
--   size of the bitmaps, Pairs.Hashed about membership without them.
-- - Predicate (src/scan/predicate.rs): filters on columns and on rows. Predicate.Mask has masks and the
--   loops over them, Predicate.Scalar scalars, statistics and thresholds, Predicate.Value, Predicate.Bloom
--   and Predicate.InSet the filters on values, Predicate.Column their evaluation on plain arrays,
--   dictionaries and lists, Predicate.Skip what statistics prove, Predicate.Row the filters on rows.
--   Predicate.Kept is about the rows that masks keep, Predicate.Search about the search in sorted lists,
--   Predicate.Pruned, Predicate.Pruning and Predicate.Matched about statistics, Predicate.Rows and
--   Predicate.Proven about filters on rows, Predicate.Verdicts and Predicate.Members about the caches.
--   Predicate.Outside, Predicate.Held, Predicate.Groups, Predicate.LeftOut and Predicate.Listed have
--   their lemmas.
--   Predicate.Union merges the lists of several items; Predicate.Admitted, Predicate.Chosen and
--   Predicate.United are about it.
--   The hashes XXH3 are parameters; a sort of Rust's library is by insertion.
-- - Scanner (src/scan/scanner.rs): the statistics of a row group, the row groups that a scan reads, and the
--   filters left to check in each. A table is what its footer states. Scanner.Stats has the
--   statistics. Scanner.Checked and Scanner.Prepared are about the row groups read,
--   Scanner.Dropped about those left out.
-- - Weight (src/output/weight.rs, and the descriptions of crates/metadata/src/types.rs): what a row is
--   charged for, what it weighs, and what the rows of a table add up to. Weight.Sums compares the
--   weights of blocks with sums of rows, Weight.Repeated is about rows that several sources hold.
--   What identifies a row is a parameter there.
-- - RowOrder (src/output/row_order.rs): the order of rows within a block. RowOrder.Compare has the
--   comparisons of Rust's library, RowOrder.Stored the keys at their stored types, as words and as
--   bytes. RowOrder.Biased, RowOrder.Words, RowOrder.Bytes and RowOrder.Packed are about words and
--   bytes, RowOrder.Pairs, RowOrder.Resolved, RowOrder.Typed, RowOrder.Traverse, RowOrder.Forms and
--   RowOrder.Prepared about keys against columns, RowOrder.Sorted about the sort.
-- - Encoder (src/output/encoder.rs): bytes rendered in hex and in base 58, which filters by sets look up;
--   Encoder.Base58 is about the digits.
-- - Error (src/error.rs) and Arrow: the kinds of errors with the result monad, and what the engine reads
--   of Arrow's arrays and batches, which are not part of the repository.
-- - Prelude: Boolean tests, lists over native numbers, signed integers, bits and machine words.
--
-- Page, Semi and Hierarchical joins and Fork read columns through Arrow and Integers; Page extends the
-- selection of Selection. Words are natural numbers below 2^64; where the code saturates, checks or wraps,
-- the model does.
--
-- Not modelled: the reading of parquet files, the parsing and planning of requests, the
-- writing of rows and of pages as JSON and Arrow but for bytes, and the thread pool.
mod Prelude
pub mod Error
pub mod Arrow
pub mod Integers
pub mod Sets
pub mod Encoder
pub mod Predicate
pub mod Scanner
pub mod Selection
pub mod Weight
pub mod RowOrder
pub mod Page
pub mod Join
pub mod Fork
pub mod BlockIndex
pub mod Pairs
