-- ===== src/Tests/Restarts.antt =====
-- A store with one block that is closed and opened again.
use blockstore.Prelude.{Result, ℕ, ◌≡◌, refl, ok, arith}
use blockstore.Disk.Files.{size-write_at, empty_file}
use blockstore.Format.{entry_bytes}
use blockstore.Format.RoundTrip.{IsHeader, length-entry_bytes}
use blockstore.FileSet
use blockstore.FileSet.Layout.{list_on_disk}
use blockstore.Store.{Store}
use blockstore.Store.Commit.{saved_header, is_present-write_at}
use blockstore.Store.Heights.{IsContiguous, absent_past_end}
use blockstore.Store.Refines.{Represents}
use blockstore.Store.Lifecycle.{
  open_store, close, default_options, effective_max, unrecovered, scan_contiguous_floor,
}
use blockstore.Store.Recovery.Stored.{SameData-Holds}
use blockstore.Store.Reopen.{SameData-refl}
use blockstore.Store.Reopen.Opening.{keeping}
use blockstore.Store.Reopen.RoundTrip.{close_lem, saved_index, close-open_store}
use blockstore.Store.Floor.{IsFloorFrom}
use blockstore.Store.Floor.Rounds.{scan_contiguous_floor_lem}
use blockstore.Store.Recovery.{Scan, recover_unindexed_blocks}
use blockstore.Store.Recovery.Recovers.{scan_of}
use blockstore.Store.Recovery.Termination.{Ends, recover_unindexed_blocks-Ends}
use blockstore.Tests.{codec, codec-IsCodec}
use blockstore.Tests.Stores.{
  one, one_block, one-Represents, one_index, one_index-IsFile, first_entry, first_entry-IsEntry,
  one_place,
}
use blockstore.Tests.Crashes.{crashed, files, listed, valid}

abbrev ended : Store
ended = record one { height_highwater = 1; max_contiguous_height = 1 }

ended-Represents : Represents codec ended one_block
ended-Represents = record {
  sound = record {
    ready = one-Represents.sound.ready;
    index = one-Represents.sound.index;
    limit = one-Represents.sound.limit;
    in_files = one-Represents.sound.in_files;
    reserved = one-Represents.sound.reserved;
    reserved_size = one-Represents.sound.reserved_size;
  };
  absent = one-Represents.absent;
  held = λ h o b e here.
      SameData-Holds codec one ended (SameData-refl one.volume) (omega arith) _ b
        (one-Represents.held h o b e here);
}

ended-IsHeader : IsHeader (saved_header 25 ended)
ended-IsHeader = record {
  version = omega arith;
  max_data_file_size = omega arith;
  min_height = omega arith;
  max_height = omega arith;
  next_write_offset = omega arith;
  highest_contiguous_block_height = omega arith;
  reserved = refl;
}

ended_size : one_index.size ≡ 80
ended_size = omega (
  arith,
  length-entry_bytes first_entry first_entry-IsEntry,
  size-write_at empty_file 64 (entry_bytes first_entry)
      (omega (arith, length-entry_bytes first_entry first_entry-IsEntry)),
)

ended-IsContiguous : IsContiguous one_index 1 1
ended-IsContiguous = record {
  above = omega arith;
  run = λ h lo hi.
      let e : h ≡ 1 = omega arith in
      rw e (is_present-write_at empty_file 1 1 64 1 first_entry first_entry-IsEntry refl one_place);
  gap = absent_past_end one_index 1 2 one_index-IsFile (omega (arith, ended_size));
}

ended_listed : list_on_disk (close ended) ≡ (ok files, close ended)
ended_listed =
    rw (close_lem ended refl (omega arith) ended-IsHeader refl)
      (listed (saved_index ended refl (omega arith) ended-IsHeader))

close-open_store_example :
    (t : Store) × (open_store codec (keeping default_options) (close ended) ≡ (ok t, t.volume.disk))
    × Represents codec t one_block
    × (t.height_highwater ≡ 1)
    × (t.max_contiguous_height ≡ 1)
close-open_store_example =
    close-open_store codec ended one_block default_options files codec-IsCodec ended-Represents refl
      refl (omega arith) ended-IsHeader (unfold effective_max in refl) (omega arith) ended_listed
      (unfold effective_max in valid) (omega (arith, ended_size)) (omega arith) (omega arith)
      ended-IsContiguous (omega arith)

scan_contiguous_floor_lem_example :
    (m : ℕ) × (scan_contiguous_floor 0 ended ≡ (ok m, ended)) × IsFloorFrom one_index 1 1 0 m
scan_contiguous_floor_lem_example =
    scan_contiguous_floor_lem ended 0 refl one_index-IsFile (omega (arith, ended_size))
      (omega arith) (omega arith)

recover_unindexed_blocks-Ends_example :
    (r : Result (Unit {0})) × (t : Scan) × (recover_unindexed_blocks codec 25 files crashed
      ≡ (r, t.store))
    × Ends codec 25 files (scan_of crashed) r t
recover_unindexed_blocks-Ends_example =
    recover_unindexed_blocks-Ends codec 25 files crashed (
      unfold unrecovered in
      unfold FileSet.new in unfold effective_max in (omega arith, omega arith))
