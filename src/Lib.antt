-- ===== src/Lib.antt =====
-- nixdex: an index of the files in Nix packages, with its search front end.
--
-- The program has a core (crates/nixdex-core) that reads the listings of packages and writes them
-- into a database, side stores that keep a content-defined chunk manifest and a version history,
-- and front ends, of which the terminal one (crates/nixdex-tui) holds most state. The parts that
-- are modelled:
--
--   StorePath models crates/nixdex-core/src/store_path.rs, the parsing and rendering of store
--   paths.
--   Files models crates/nixdex-core/src/files.rs, the file types, nodes and trees. Files.antt has
--   the nodes and the codec of an entry, Files/Tree the trees and `to_list`, Files/Ls the
--   conversion of a binary cache's listing. A directory's map is the list of its entries.
--   Frcode models crates/nixdex-core/src/frcode.rs, the encoder of sorted paths by shared prefixes.
--   Each method takes the encoder and returns it with a result. Frcode/Format is a reader of the
--   format written independently of the encoder, against which the encoder's output is read back.
--   Database models crates/nixdex-core/src/database.rs, adding a package: `kept` is the filter of
--   the entries, `encode_package` the block of the package and `add_excluding` the operation, which
--   lists the tree by Files, records its entries with the builders of Index and with redb, and
--   writes it by Frcode. The redb writer is a parameter of it, which Redb (redb_index.rs) fulfils:
--   `add` of its writer, on tables with transactions that go through or not. Database/FrameMap has
--   the frame map, both sides, a write that fails halfway included.
--   Cdc models crates/nixdex-core/src/cdc.rs, cutting data into chunks, checking and reassembling
--   it. FastCDC and BLAKE3 are parameters: the cutter gives the offsets and lengths of the cuts,
--   and the hash is any function to digests of 32 bytes. No theorem takes it to be free of
--   collisions: those that say what a manifest pins down name the collision that is the
--   alternative.
--   Tui models crates/nixdex-tui/src. Tui/App (app.rs) is the state as a record, with an operation
--   per method; Tui/Event (event.rs) the events and the keys; Tui/Keys and Tui/Handler (tui.rs,
--   from result_at_row to handle_detail_event) what a group of keys and what an event does;
--   Tui/Loop (run_tui and the functions that dispatch searches) the loop as a step relation on the
--   app, the pending query and the channel to the worker. `Reachable` closes it under events,
--   ticks, outcomes, the debounce timer and the loss of the worker, in any order and at any times.
--   History models crates/nixdex-history/src/lib.rs: `record_version` of the builder,
--   `write_sidecar` and `open`, on the bytes of the sidecar.
--   Index models the secondary indexes of crates/nixdex-core/src, from a key to ordinals:
--   Index/Basename (basename_index.rs), Index/Path (path_index.rs), Index/Trigram
--   (path_trigram_index.rs), Index/Ngram (ngram_index.rs) and Index/Command (command_index.rs), on
--   the bytes of their sidecar files. What the sources repeat is modelled once, the postings in
--   Index.antt. The packages `fst` and `roaring` are the records `Fst` and `Roaring`, of the
--   operations used and their documented laws; Index/Instances has lists that fulfil them.
--   Index/Recorded has the ordinals that a builder has recorded for a key, Index/Packed what the
--   files hold and a reader finds there.
--
-- Strings are lists of bytes, in Tui of characters, and numbers the native ones with the wrap-
-- around of a u16 or u64 written out. A time is a number of milliseconds that an operation takes. A
-- map is the list of its entries in order, or a function where its order is not looked at. A method
-- that changes its receiver is a function from the old state to the new one; a fallible one returns
-- a `Result`.
--
-- The loops are structural but for `FileTree::to_list`, which runs on fuel, one for each node of the
-- tree, and the reader of Frcode/Format, on one for each line; that this is enough is part of the
-- theorems about them.
--
-- Parameters: the maps of `fst` and the sets of `roaring`, the test for UTF-8, the cutter and the hash
-- of Cdc, the JSON of a package and of a history, postcard's encodings and the outcome of a redb
-- transaction, the listing that serde has parsed, the clipboard program and the outcomes of the
-- search worker of Tui.
--
-- Not modelled: the frcode decoder, the database reader with its queries, the redb reader and the
-- package search; network, process, terminal and file I/O with its failures, the drawing of the
-- screen, the command lines, and the third-party storage and compression formats.
pub mod Cdc
pub mod Database
pub mod Files
pub mod Frcode
pub mod History
pub mod Index
pub mod Prelude
pub mod Redb
pub mod StorePath
pub mod Tui
