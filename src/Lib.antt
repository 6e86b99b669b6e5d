-- ===== src/Lib.antt =====
-- A verification library for blockstore, a store of blocks by height.
--
-- The program is the crate of blockstore/src, with a C interface in blockstore-ffi/src and a
-- command line tool in blockstore-cli/src. A store keeps blocks in data files and, for each
-- height, a fixed-size entry in an index file that says where the block stands. `FileSet`
-- (file_set.rs) splits global offsets over the data files and keeps a bounded cache of their
-- open handles. `Store` (store.rs) reserves space, writes a block's bytes and then its entry,
-- moves its two heights, and now and then writes a checkpoint to the header of the index file.
-- `CachedStore` (cached_store.rs) keeps blocks in memory in front of a store.
--
-- Prelude: what the other files share: results and a monad on a state, machine words with their
--   checked and wrapping operations, association lists, decimal names, rules for code on a state.
-- Disk: the file system as the crate uses it. A file has a size and a byte at each offset
--   (Disk/Files), a directory has named nodes (Disk/Dir), and each call takes one outcome from a
--   list, success or failure, where a failing write may put down a part of its bytes. Disk/Calls
--   says what calls do when none fails.
-- Format: `BlockHeader`, `IndexEntry` and `IndexFileHeader` of store.rs and their bytes.
-- FileSet: file_set.rs. FileSet holds the operations: `touch`, `insert_handle` and `remove` are the
--   methods of `Inner`, `cached` is `FileSet::lookup`, and the others have their names in the source.
--   FileSet/Names has `data_file_name` and `parse_data_file_index`, FileSet/Layout `list_on_disk` and
--   `validate_layout`; Cache, Insertion and Opening are about the handles and their files.
-- Store: store.rs. `cascade` is the loop of
--   `advance_max_contiguous_height`; `reservation` and `write_offset` are the arithmetic of
--   `reserve_space`; `write_data` is the closure of `write_block` whose failure gives the space back
--   and `commit_block` is what follows it (Store/ReadWrite). Store/Writers interleaves writers at the
--   mutex of `data_highwater`. Store/Refines and Store/Writes relate a store to the map from
--   heights to blocks.
--   Store/Recovery has `ScanWindow` and `recover_unindexed_blocks`, one round of which is `scan_step`,
--   and Store/Lifecycle `open` (`open_store`), `recover`, `scan_contiguous_floor` (`floor_loop`),
--   `Drop` (`close`) and `Store::new` (`new_store`). The files under Store/Recovery are about the scan
--   of what a crash left: Chain says what that is, Scanning, Indexing, WholeBlocks and Stored follow
--   one round, Replay and Recovers all of them, and Progress and Termination are about the end of the
--   loop. Store/Floor is about the loop over the index, Store/Reopen about `recover` and `open` on the
--   disk of an earlier store, Store/Durability about writes, a crash and
--   `open`, and Store/Integrity about what a read checks.
-- Cached: cached_store.rs. `read_cached` and `write_cached` are the methods `read_block` and
--   `write_block` of `CachedStore`, over a cache that is a parameter.
-- Ffi: blockstore-ffi/src/lib.rs and value/results.rs. A handle is a store with or without a cache;
--   `forward_read` and `forward_write` are the methods of `Store` there, and `void_result` and
--   `block_result` the conversions of results.
-- Cli: blockstore-cli/src/main.rs, whose commands `Get` and `Copy` are `get_command` and
--   `copy_command`, and import.rs: Cli/Keys has `LevelDBKey` and Cli/Import the function `import`
--   (`import_command`), with its two loops `import_blocks` and `import_with_receipts`.
--   Cli/Getting is about `Get`, Cli/Copying about the loop of `Copy` and Cli/CopyCommand about the
--   whole of it, Cli/Importing about the loops of the import, and Cli/KeyOrder about the keys.
-- Tests: runs and applications at concrete inputs.
--
-- A store is a record that operations take and give back, with the disk and the handles in its
-- volume. Numbers are naturals, and every operation of the source that checks or wraps does so here.
-- Four loops have fuel. Each round of `cascade` reads the entry of a greater height, and past the end
-- of the index file entries are zero, so the size of that file is fuel enough. Each round of
-- `scan_loop` that does not break moves the next write offset up, so the distance to the end of the
-- data is enough. Each round of `floor_loop` that goes on has read a full chunk of the index file, and
-- each round of `copy_loop` an entry of a greater height from the index of its source, so the sizes of
-- those files are enough.
--
-- Parameters: compression and the checksum come from other crates and are the record `Codec`,
-- with what they document in `IsCodec`; the LRU cache of cached_store.rs comes from another
-- crate and is the record `BlockCache`, with what it documents in `IsBlockCache`. The rows that
-- a LevelDB gives from a key on and the list encoding of the rlp crate are arguments of the
-- import. Locks are not modelled: a call under a mutex is one step.
--
-- Not modelled: metrics.rs; the arguments of the command line tool, which the clap crate reads, and
-- what the tool prints; the memory that the C interface hands over; the Go binding. Metrics in the
-- functions that are modelled are left out, and an error keeps its kind and not its message.
pub mod Prelude
pub mod Disk
pub mod Format
pub mod FileSet
pub mod Store
pub mod Cached
pub mod Ffi
pub mod Cli
pub mod Tests
