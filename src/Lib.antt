-- ===== src/Lib.antt =====
-- A verification library for the offline import of velr: the writer of SQLite database files.
--
-- The offline import (rust/velr-cli/src/offline_import/native.rs) builds a database file without SQL:
-- rows become records, sorted records become packed B-trees, and the pages of the trees are written
-- to the file by one writer or by several threads that share an allocator of page blocks. Before an
-- index is built in a range of reserved pages, a plan counts the pages that it will take.
--
-- The files and the code they model (directory rust/velr-cli/src):
--   Varint      varint_len, varint and read_varint of offline_import/native/page_writer.rs.
--   Record      encode_record and its special forms, record_values and its iterator, of the same file.
--   Pager/Page  Page: cells and offsets of a page under construction, and its image.
--   Pager/Alloc BlockAllocator: blocks of pages for threads, and the pages they give back.
--   Pager/Writer  PageWriter: where the next page goes, its blocks and workers, and the writes.
--   Pager/Tree  PageWriter::cell, tree, parent and level: leaves, overflow chains and levels.
--   Plan        offline_import/native/page_plan.rs: the number of pages of a packed index.
--   Sort        offline_import/native/index_builder.rs: tuples as keys, radix sort, runs and merges, frames.
--   Stats       offline_import/native/index_stats.rs: stat1 and the samples of a sorted index.
--   IdMap       offline_import/native/id_map.rs: integer ids to nodes, by ranges and bitmap pages.
--   Csv         import/csv.rs: the fields of a record, without and with quotes.
--   Names       import/input.rs: natural_cmp, the order of the files of a pattern.
--   Batch       import/batch.rs: values of a batch over one byte buffer.
--   Table       the escapes of runtime/table.rs for CSV, JSON and TSV output.
--   Base        lists, Boolean tests, results and words that these share.
-- Names are those of the source; Pager.Writer.write_root is PageWriter::root, Plan.new_plan is
-- IndexPagePlan::new, Plan.push_length is IndexPagePlan::push, IdMap.AffineRange is Affine,
-- new_statistics, push_row and finish_statistics of Stats are new, push and finish, and
-- IdMap.affine_lookup, IdMap.visits and IdMap.Page.new_page are its lookup and for_each and Page::new.
--
-- State is passed explicitly. An i64 and an f64 are their 64-bit patterns, `usize` has 64 bits, and
-- the u32 sums of the source that are checked give an error here too. Reads and writes of files
-- succeed; the file is the log of writes with their offsets. A spool in a temporary file is the list
-- of what was pushed. A failed assert or unwrap is the error `panicked`. What other threads store in
-- the shared page counter while a grant waits is a list, and a parameter `others` in the tree builder.
--
-- Fuel: header sizing has 10 rounds, as a varint has 1 to 9 bytes. An overflow chain has its length
-- in bytes, as each page holds one at least. The levels of a tree have one more than the number of
-- leaves, as two children at least share a parent. A merge has a round for each key of its runs, and
-- there are no more generations of merges than runs. A quoted CSV field and the fields of a record
-- have the length of the record and more, as every step goes on by a byte, and natural_cmp goes on in
-- its first string in every round.
--
-- Not modelled: opening, finishing and completing a writer, SQL, threads as such, the command line,
-- headers, options and discovery of import files, validation; of the index sort its threads (the runs
-- of each worker are a list), buffers, the radix sort of text keys, and the direct writers.
pub mod Base
pub mod Varint
pub mod Record
pub mod Pager
pub mod Plan
pub mod Table
pub mod Batch
pub mod IdMap
pub mod Csv
pub mod Sort
pub mod Stats
pub mod Names
