-- ===== src/Cli/Getting.antt =====
-- The command `Get` of blockstore-cli/src/main.rs on the disk of an earlier store.
use blockstore.Prelude.{
  ℕ, ◌+◌, ◌-◌, ◌*◌, ◌%◌, ◌≤◌, ◌<◌, ◌^◌, ◌≡◌, refl, List, Option, some, ok, arith,
}
use blockstore.Disk.{Disk}
use blockstore.Format.{entry_size, IndexFileHeader}
use blockstore.FileSet.Layout.{list_on_disk, validate_layout}
use blockstore.Store.{Codec, IsCodec, async, index_entry_offset}
use blockstore.Store.Refines.{read_block_lookup}
use blockstore.Store.Recovery.Chain.{at_scan, replay, Chain, RepresentsBut}
use blockstore.Store.Recovery.Recovers.{top}
use blockstore.Store.Lifecycle.{
  StoreOptions, default_options, unrecovered, effective_max, new_store, close,
}
use blockstore.Store.Reopen.Opening.{HasHeader, keeping, open_store-replay}
use blockstore.Cli.{get_command, expect}

-- The options of `Get`.
abbrev pub get_options : ℕ → StoreOptions
get_options height = record default_options { sync = async; minimum_height = height }

-- `Get` gives the block that the disk of an earlier store has at a height: that of the last
-- checkpoint, or the last of those that follow it in the data files; and it panics where there is
-- none. The index header is on the disk; the data files are numbered without a gap and do not end
-- before the last checkpoint; the index file is of whole entries and its heights are far from
-- 2^64; at the checkpoint the store, but for the heights of the blocks that follow, held the
-- blocks of the map and was sound, which includes that the disk does not fail; the crates do as
-- they say; and the height has an entry.
pub get_command-replay :
    (c : Codec) (height offset : ℕ) (d : Disk) (header : IndexFileHeader)
    (blocks : ℕ → Option (List ℕ)) (data_files : List (ℕ × ℕ)) (end : ℕ) (chain : List (ℕ × List ℕ))
    → IsCodec c
    → HasHeader d header
    → list_on_disk d ≡ (ok data_files, d)
    → validate_layout (effective_max header.max_data_file_size) data_files ≡ ok end
    → header.next_write_offset ≤ end
    → Chain c
        (unrecovered (keeping (get_options height)) header d).volume
        data_files
        header.min_height
        end
        header.next_write_offset
        chain
    → RepresentsBut c chain (at_scan (unrecovered (keeping (get_options height)) header d)) blocks
    → d.index_file.size % entry_size ≡ 0
    → 64 + 16 * (top header.max_height chain + 1 - header.min_height) < 2 ^ 64
    → top header.max_height chain + 1 < 2 ^ 64
    → index_entry_offset header.min_height height ≡ some offset
    → (e : Disk) × (get_command c height d ≡ (expect (replay blocks chain height), e))
unfolding get_command new_store unrecovered
get_command-replay c height offset d header blocks data_files end chain kd h listed valid behind
      found r aligned fits top_fits at =
    let (t, opened, represents, high, is) =
      open_store-replay c (get_options height) d header blocks data_files end chain kd (omega arith)
        h listed valid behind found r aligned fits top_fits in
    let (u, read, after) =
      read_block_lookup c t (replay blocks chain) height offset kd represents
        (rw is.min_height at) in
    (close u, rw (opened, read) refl)
