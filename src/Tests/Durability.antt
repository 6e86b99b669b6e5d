-- ===== src/Tests/Durability.antt =====
-- A store of one data file that crashed after a write, and opening it again.
use blockstore.Prelude.{
  sym, ap, ◌∙◌, All, true, ℕ, ◌≡◌, refl, List, [], ◌∷◌, none, some, ok, arith, lookup, length,
  replicate, delete, insert, retain_ne, bytes_eq, decimal, from_le_bytes, to_le_bytes, strip_prefix,
  strip_suffix, parse_u32,
}
use blockstore.Disk.{
  set_index, open_data_file, try_lock, data_write_all_at, index_write_all_at, index_read_at,
  next_outcome, opened, sync_all, system_call,
}
use blockstore.Disk.Files.{
  write_at-IsFile, bytes_from-patch_self, byte-write_at, size-write_at, File, write_at, empty_file,
  bytes_from, patch, read_at,
}
use blockstore.Format.{
  header_size, IndexFileHeader, header_bytes, entry_bytes, entry_of_bytes, overlay, serialize,
}
use blockstore.FileSet.{
  resolve, cached, eviction, found_or_open, get_or_open, insert_handle, is_index, open_and_cache,
  open_under_lock, position, remove_at, split_offset, touch,
}
use blockstore.FileSet.Opening.{data_file}
use blockstore.FileSet.Layout.{max_key, list_on_disk, validate_layout, list_entries}
use blockstore.Store.{
  Store, index_entry_offset, reserve_space, update_index_at, update_highwater,
  advance_max_contiguous_height, cascade, advance_to_next_file, checkpoint, exceeds,
  read_index_entry, release_reservation, reservation, reserved, write_offset,
}
use blockstore.Store.Refines.{Represents}
use blockstore.Store.Lifecycle.{effective_max, open_store, default_options}
use blockstore.Store.Recovery.Chain.{replay}
use blockstore.Store.Reopen.Opening.{keeping}
use blockstore.Store.Durability.{IsAccepted, write_all_lem, write_all}
use blockstore.Store.Durability.Crash.{IsCrash, write_all-open_store}
use blockstore.Format.RoundTrip.{IsHeader, length-header_bytes}
use blockstore.Store.Commit.{header_bytes-IsByte}
use blockstore.Store.Recovery.Recovers.{top}
use blockstore.Store.Entries.{entry_at-write_header, index_entry_offset_lem}
use blockstore.Tests.{empty_file-IsFile, codec, codec-IsCodec, header}
use blockstore.Tests.Stores.{fresh-IsSound, one_place, block}
use blockstore.Tests.Tools.{single, no_blocks, single-Represents}
use blockstore.Store.ReadWrite.{write_block, store_block, write_data, commit_block}
use blockstore.Disk.Dir.{find_node, put_file}
use blockstore.FileSet.Names.{data_file_name, parse_data_file_index}

abbrev run : List (ℕ × List ℕ)
run = (1, block) ∷ []

accepted : All (IsAccepted codec 1) run
accepted = (
  record {
    height_fits = omega arith;
    place = (64, one_place);
    positive = omega arith;
    short = omega arith;
    small = omega arith;
  },
  tt,
)

-- The store after the write.
abbrev written : Store
written = (write_all codec run single).1

written_ok : write_all codec run single ≡ (ok tt, written)
written_ok =
    let (u, e, represents, appended) =
      write_all_lem codec run single no_blocks codec-IsCodec single-Represents refl accepted
        (omega arith) in
    e ∙ ap (λ p. (ok tt, p.1)) (sym e)

abbrev files : List (ℕ × ℕ)
files = (0, 25) ∷ []

has_size : lookup 0 files ≡ some 25
unfolding lookup
has_size = refl

no_gap : validate_layout none files ≡ ok 25
unfolding validate_layout max_key lookup
no_gap = refl

-- The disk after the write, with any index file.
written_disk :
    (g : File)
    → (list_on_disk (set_index g written.volume.disk) ≡ (ok files, set_index g written.volume.disk))
      × ((data_file 0 written.volume).size ≡ 25)
      × (written.volume.disk.index_exists ≡ true)
unfolding write_block store_block write_data commit_block index_entry_offset reserve_space
    update_index_at update_highwater advance_max_contiguous_height cascade advance_to_next_file
    checkpoint exceeds read_index_entry release_reservation reservation reserved write_offset
    resolve cached eviction found_or_open get_or_open insert_handle is_index open_and_cache
    open_under_lock position remove_at split_offset touch lookup replicate delete insert retain_ne
    bytes_eq decimal from_le_bytes to_le_bytes strip_prefix strip_suffix parse_u32 open_data_file
    try_lock data_write_all_at index_write_all_at index_read_at next_outcome opened sync_all
    system_call find_node put_file bytes_from patch read_at write_at data_file_name
    parse_data_file_index list_on_disk list_entries entry_bytes entry_of_bytes header_bytes overlay
    serialize data_file
written_disk g = (refl, refl, refl)

-- The header of the last checkpoint, and an index file with no entries.
abbrev saved : IndexFileHeader
saved = record header { max_data_file_size = 0 }

abbrev lost_index : File
lost_index = write_at empty_file 0 (header_bytes saved)

saved-IsHeader : IsHeader saved
saved-IsHeader = record {
  version = omega arith;
  max_data_file_size = omega arith;
  min_height = omega arith;
  max_height = omega arith;
  next_write_offset = omega arith;
  highest_contiguous_block_height = omega arith;
  reserved = refl;
}

size_64 : length (header_bytes saved) ≡ header_size
size_64 = length-header_bytes saved saved-IsHeader

lost_size : lost_index.size ≡ 64
lost_size =
    omega (arith, size_64, size-write_at empty_file 0 (header_bytes saved) (omega (arith, size_64)))

lost-IsCrash : IsCrash run single written saved lost_index
lost-IsCrash = record {
  has_header = record {
    exists = (written_disk lost_index).2;
    size = omega (arith, lost_size);
    bytes = rw (byte-write_at empty_file 0 (header_bytes saved)) (
        ap (bytes_from (patch empty_file.byte 0 (header_bytes saved)) 0) (sym size_64)
        ∙ bytes_from-patch_self empty_file.byte 0 (header_bytes saved));
    fields = saved-IsHeader;
  };
  min_height = refl;
  limit = unfold effective_max in refl;
  next_write_offset = refl;
  reserved = refl;
  file =
      write_at-IsFile empty_file 0 (header_bytes saved)
        (header_bytes-IsByte saved fresh-IsSound.reserved) empty_file-IsFile;
  whole = omega (arith, lost_size);
  entries = λ h o out e.
      let (low, start, fits) = (index_entry_offset_lem 1 h o).0 e in
      entry_at-write_header empty_file (header_bytes saved) o size_64 (omega arith);
}

write_all-open_store_example :
    (t : Store) × (open_store codec
        (keeping default_options)
        (set_index lost_index written.volume.disk)
      ≡ (ok t, t.volume.disk))
    × Represents codec t (replay no_blocks run)
    × (t.height_highwater ≡ top saved.max_height run)
write_all-open_store_example =
    write_all-open_store codec single written no_blocks run default_options saved lost_index files
      codec-IsCodec single-Represents refl accepted (omega arith) written_ok lost-IsCrash
      (omega arith) (written_disk lost_index).0 (rw (written_disk lost_index).1 has_size) no_gap
      (omega arith) (omega arith)
