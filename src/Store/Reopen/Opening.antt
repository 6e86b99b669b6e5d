-- ===== src/Store/Reopen/Opening.antt =====
-- `open` of blockstore/src/store.rs on the disk of an earlier store.
use blockstore.Prelude.{
  ℕ, ◌+◌, ◌-◌, ◌*◌, ◌%◌, ◌≤◌, ◌<◌, ◌^◌, ◌≡◌, refl, ◌∙◌, ap, true, false, List, [], Option, ok,
  arith, ◌==◌, drop, to_le_bytes, replicate,
}
use blockstore.Disk.{Disk, IsQuiet, next_outcome}
use blockstore.Disk.Files.{read_at, bytes_from}
use blockstore.Disk.Calls.{index_read_at_quiet, try_lock_quiet}
use blockstore.Format.{
  entry_size, header_size, IndexFileHeader, default_header, header_bytes, overlay,
}
use blockstore.Format.RoundTrip.{IsHeader, length-header_bytes, header_of_bytes-header_bytes}
use blockstore.FileSet.{Volume}
use blockstore.FileSet.Layout.{list_on_disk, validate_layout}
use blockstore.Store.{Codec, IsCodec, Store}
use blockstore.Store.Refines.{Represents}
use blockstore.Store.Recovery.Chain.{at_scan, replay, Chain, RepresentsBut}
use blockstore.Store.Recovery.Recovers.{top}
use blockstore.Store.Lifecycle.{
  StoreOptions, open_header, open_index, open_store, unrecovered, effective_max,
  recovered_or_closed, recovered_or_closed,
}
use blockstore.Store.Reopen.{IsRecovered, recover_lem}
use blockstore.FileSet
use mathlib.Core.List.{append-nil}

-- The index header on the disk is the one given.
pub record HasHeader (d : Disk) (header : IndexFileHeader) : Type 0 where
  pub exists : d.index_exists ≡ true
  pub size : header_size ≤ d.index_file.size
  pub bytes : bytes_from d.index_file.byte 0 header_size ≡ header_bytes header
  pub fields : IsHeader header

default_dropped : drop header_size (header_bytes default_header) ≡ []
unfolding header_bytes default_header to_le_bytes replicate
default_dropped = refl

open_header_old :
    (options : StoreOptions) (d : Disk) (header : IndexFileHeader)
    → options.truncate ≡ false
    → IsQuiet d
    → HasHeader d header
    → open_header options d ≡ (ok header, d)
unfolding open_header
open_header_old options d header t q h =
    let read : read_at d.index_file 0 header_size ≡ header_bytes header =
      unfold read_at in ap (bytes_from d.index_file.byte 0) (omega (arith, h.size)) ∙ h.bytes in
    let over : overlay (header_bytes header) (header_bytes default_header) ≡ header_bytes header =
      unfold overlay in
      rw (length-header_bytes header h.fields, default_dropped)
        (append-nil (header_bytes header)) in
    rw (t, index_read_at_quiet d q, read, over, header_of_bytes-header_bytes header h.fields) refl

-- Options that do not cut an old store to nothing.
abbrev pub keeping : StoreOptions → StoreOptions
keeping options = record options { truncate = false }

-- Opening the store of an earlier run succeeds. The store holds the blocks that it held at its last
-- checkpoint, with the whole blocks that follow in the data files put in, the later in the place
-- of the earlier, up to the end of the data or to a block that was cut off; its greatest height is
-- raised to theirs, its highwater is where the scan of the blocks ended, and the height below
-- which no block is missing is counted on from the saved one. The options do not cut the store to
-- nothing and allow a data file; the index header is on the disk; the data files are numbered
-- without a gap and do not end before the last checkpoint; the index file is of whole entries and
-- its heights are far from 2^64; and at the checkpoint the store, but for the heights of the
-- blocks that follow, held the blocks of the map and was sound, which includes that the disk does
-- not fail.
pub open_store-replay :
    (c : Codec) (options : StoreOptions) (d : Disk) (header : IndexFileHeader)
    (blocks : ℕ → Option (List ℕ)) (data_files : List (ℕ × ℕ)) (end : ℕ) (chain : List (ℕ × List ℕ))
    → IsCodec c
    → 0 < options.max_data_files
    → HasHeader d header
    → list_on_disk d ≡ (ok data_files, d)
    → validate_layout (effective_max header.max_data_file_size) data_files ≡ ok end
    → header.next_write_offset ≤ end
    → Chain c
        (unrecovered (keeping options) header d).volume
        data_files
        header.min_height
        end
        header.next_write_offset
        chain
    → RepresentsBut c chain (at_scan (unrecovered (keeping options) header d)) blocks
    → d.index_file.size % entry_size ≡ 0
    → 64 + 16 * (top header.max_height chain + 1 - header.min_height) < 2 ^ 64
    → top header.max_height chain + 1 < 2 ^ 64
    → (t : Store) × (open_store c (keeping options) d ≡ (ok t, t.volume.disk))
      × Represents c t (replay blocks chain)
      × (t.height_highwater ≡ top header.max_height chain)
      × IsRecovered chain (unrecovered (keeping options) header d) t
unfolding open_store unrecovered recovered_or_closed
open_store-replay c options d header blocks data_files end chain kd pos h listed valid behind found
      r aligned fits top_fits =
    let some_files : (options.max_data_files == 0) ≡ false = ground arith in
    let quiet : IsQuiet d = r.sound.ready.quiet in
    let opened : open_index false d ≡ (ok tt, d) =
      unfold open_index in unfold next_outcome in ground (arith, quiet, h.exists) in
    let (u, run, represents, high, is_recovered) =
      recover_lem c (unrecovered (keeping options) header d) blocks data_files end chain kd listed
        (unfold FileSet.new in valid) behind found r aligned fits top_fits in
    (
      u,
      rw
          (
            some_files,
            opened,
            try_lock_quiet d quiet,
            open_header_old (keeping options) d header refl quiet h,
            run,
          )
          refl,
      represents,
      high,
      is_recovered,
    )
