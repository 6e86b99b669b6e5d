-- ===== src/Tests/Crashes.antt =====
-- A store that crashed before its first checkpoint, and opening it again.
use blockstore.Prelude.{
  ◌%◌, length, sym, ℕ, ◌≡◌, refl, ap, ◌∙◌, List, [], ◌∷◌, none, some, ok, arith, lookup,
  strip_prefix, strip_suffix, decimal, parse_u32, insert, to_le_bytes,
}
use blockstore.Disk.{Disk, set_index, system_call}
use blockstore.Disk.Dir.{put_file}
use blockstore.FileSet.Names.{parse_data_file_index, data_file_name}
use blockstore.Disk.Files.{File, empty_file, write_at}
use blockstore.Format.{header_bytes, serialize}
use blockstore.FileSet.{split_offset}
use blockstore.FileSet.Layout.{list_on_disk}
use blockstore.FileSet.Opening.{data_file}
use blockstore.Store.{Store}
use blockstore.Store.Places.{file_of, local_of}
use blockstore.Store.Lifecycle.{effective_max, default_options, unrecovered}
use blockstore.Store.Reopen.Opening.{keeping}
use blockstore.FileSet
use blockstore.FileSet.Layout.{validate_layout, max_key}
use blockstore.Disk.Files.{
  size-write_at, byte-write_at, bytes_from, bytes_from-patch_self, patch, write_at-IsFile,
}
use blockstore.Format.{IndexEntry, entry_size, header_size}
use blockstore.Format.RoundTrip.{IsHeader, length-header_bytes}
use blockstore.Store.Creation.{new-IsValid}
use blockstore.Store.Commit.{header_bytes-IsByte}
use blockstore.Store.Entries.{index_entry_offset_lem, entry_at-write_header}
use blockstore.Store.ReadWrite.{new_header}
use blockstore.Store.Refines.{Represents}
use blockstore.Store.Lifecycle.{open_store}
use blockstore.Store.Recovery.{recover_unindexed_blocks}
use blockstore.Store.Recovery.Chain.{replay}
use blockstore.Store.Recovery.Recovers.{top, recover_unindexed_blocks-replay}
use blockstore.Store.Reopen.{IsRecovered}
use blockstore.Store.Reopen.Opening.{HasHeader, open_store-replay}
use blockstore.Cli.{get_command}
use blockstore.Cli.Getting.{get_command-replay}
use blockstore.Cli.{copy_command}
use blockstore.Store.Lifecycle.{close}
use blockstore.Disk.Dir.{find_node}
use blockstore.Cli.Copying.{put_all}
use blockstore.Cli.CopyCommand.{copy_command_run}
use blockstore.Tests.{fresh_disk}
use blockstore.Tests.{empty_file-IsFile}
use blockstore.Tests.Stores.{empty_entry, fresh-IsSound, one-IsReady, one_place}
use blockstore.Store.Landing.{data_file-put_data, bytes-landed}
use blockstore.Store.Recovery.Chain.{Chain, stored, done, IsStored, RepresentsBut, at_scan}
use blockstore.Tests.{fresh_volume, codec, codec-IsCodec, header}
use blockstore.Tests.Stores.{one_place, block, one_volume, one_file}

abbrev crashed_disk : Disk
crashed_disk = set_index (write_at empty_file 0 (header_bytes header)) one_volume.disk

abbrev pub crashed : Store
crashed = unrecovered (keeping default_options) header crashed_disk

abbrev pub chain : List (ℕ × List ℕ)
chain = (1, block) ∷ []

abbrev pub files : List (ℕ × ℕ)
files = (0, 25) ∷ []

pub listed :
    (g : File)
    → list_on_disk (set_index g one_volume.disk) ≡ (ok files, set_index g one_volume.disk)
unfolding list_on_disk system_call put_file parse_data_file_index strip_prefix data_file_name
    strip_suffix decimal parse_u32 insert write_at serialize to_le_bytes
listed g = refl

pub valid : validate_layout (effective_max header.max_data_file_size) files ≡ ok 25
unfolding validate_layout max_key lookup effective_max
valid = refl

same_file : data_file 0 crashed.volume ≡ one_file
unfolding data_file unrecovered
same_file = data_file-put_data 0 0 one_file fresh_volume (omega arith) (omega arith)

file_size : one_file.size ≡ 25
unfolding write_at serialize to_le_bytes
file_size = refl

whole : IsStored codec crashed.volume files 1 0 1 block
unfolding unrecovered FileSet.new effective_max file_of local_of split_offset lookup
whole = record {
  listed = rw (same_file, file_size) refl;
  height_fits = omega arith;
  place = (64, one_place);
  positive = omega arith;
  small = omega arith;
  one_file = (omega arith, omega arith, omega arith);
  in_files = omega arith;
  fits = omega arith;
  inside = rw (same_file, file_size) (omega arith);
  bytes = rw same_file (bytes-landed empty_file 0 block (new_header codec 1 block));
}

found : Chain codec crashed.volume files 1 25 0 chain
found = stored 0 1 block [] (omega arith) whole (done 25 (omega arith))

header-IsHeader : IsHeader header
header-IsHeader = record {
  version = omega arith;
  max_data_file_size = omega arith;
  min_height = omega arith;
  max_height = omega arith;
  next_write_offset = omega arith;
  highest_contiguous_block_height = omega arith;
  reserved = refl;
}

size_64 : length (header_bytes header) ≡ header_size
size_64 = length-header_bytes header header-IsHeader

crashed-HasHeader : HasHeader crashed_disk header
crashed-HasHeader = record {
  exists = refl;
  size =
      omega
        (arith, size_64, size-write_at empty_file 0 (header_bytes header) (omega (arith, size_64)));
  bytes = rw (byte-write_at empty_file 0 (header_bytes header)) (
      ap (bytes_from (patch empty_file.byte 0 (header_bytes header)) 0) (sym size_64)
      ∙ bytes_from-patch_self empty_file.byte 0 (header_bytes header));
  fields = header-IsHeader;
}

crashed_aligned : crashed_disk.index_file.size % entry_size ≡ 0
crashed_aligned =
    omega
      (arith, size_64, size-write_at empty_file 0 (header_bytes header) (omega (arith, size_64)))

-- The index holds nothing yet.
crashed-RepresentsBut : RepresentsBut codec chain (at_scan crashed) (λ h. none)
unfolding unrecovered FileSet.new effective_max
crashed-RepresentsBut = record {
  sound = record {
    ready = record {
      quiet = refl;
      cache = new-IsValid (some 100) 10;
      no_directory = one-IsReady.no_directory;
    };
    index =
        write_at-IsFile empty_file 0 (header_bytes header)
          (header_bytes-IsByte header fresh-IsSound.reserved) empty_file-IsFile;
    limit = (omega arith, omega arith);
    in_files = omega arith;
    reserved = fresh-IsSound.reserved;
    reserved_size = refl;
  };
  absent = λ h o out e n.
      let (low, start, fits) = (index_entry_offset_lem 1 h o).0 e in
      ap (λ (x : IndexEntry). x.size)
        (entry_at-write_header empty_file (header_bytes header) o size_64 (omega arith))
      ∙ empty_entry o;
  held = λ h o b out e there. absurd (cc);
}

recover_unindexed_blocks-replay_example :
    (t : Store) × (recover_unindexed_blocks codec 25 files crashed ≡ (ok tt, t))
    × Represents codec (at_scan t) (replay (λ h. none) chain)
    × (t.height_highwater ≡ top crashed.height_highwater chain)
recover_unindexed_blocks-replay_example =
    recover_unindexed_blocks-replay codec crashed (λ h. none) files 25 chain codec-IsCodec
      (unfold unrecovered in found) crashed-RepresentsBut

open_store-replay_example :
    (t : Store) × (open_store codec (keeping default_options) crashed_disk ≡ (ok t, t.volume.disk))
    × Represents codec t (replay (λ h. none) chain)
    × (t.height_highwater ≡ top header.max_height chain)
    × IsRecovered chain crashed t
open_store-replay_example =
    open_store-replay codec default_options crashed_disk header (λ h. none) files 25 chain
      codec-IsCodec (omega arith) crashed-HasHeader (listed crashed_disk.index_file) valid
      (omega arith) found crashed-RepresentsBut crashed_aligned (omega arith) (omega arith)

get_command-replay_example : (e : Disk) × (get_command codec 1 crashed_disk ≡ (ok block, e))
get_command-replay_example =
    get_command-replay codec 1 64 crashed_disk header (λ h. none) files 25 chain codec-IsCodec
      crashed-HasHeader (listed crashed_disk.index_file) valid (omega arith) found
      crashed-RepresentsBut crashed_aligned (omega arith) (omega arith) one_place

copy_command_run_example :
    (s : Store) × (t : Store) × (copy_command codec none (crashed_disk, fresh_disk)
      ≡ (ok 2, (close s, close t)))
    × Represents codec s (replay (λ h. none) chain)
    × Represents codec t (put_all (λ h. none) 1 (block ∷ []))
unfolding find_node
copy_command_run_example =
    copy_command_run codec none crashed_disk fresh_disk header (λ h. none) files 25 chain
      (block ∷ []) codec-IsCodec crashed-HasHeader (listed crashed_disk.index_file) valid
      (omega arith) found crashed-RepresentsBut crashed_aligned (omega arith) (omega arith) refl
      (λ i e. cc)
      (record {
        run_of = (refl, refl);
        writable =
            (record { positive = omega arith; short = omega arith; small = omega arith }, tt);
        low = omega arith;
        places = omega arith;
        heights = omega arith;
        room = omega arith;
      })
