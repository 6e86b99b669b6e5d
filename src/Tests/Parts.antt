-- ===== src/Tests/Parts.antt =====
-- The parts of the store on concrete inputs: offsets, index entries, heights and formats.
use blockstore.Prelude.{
  ℕ, ◌+◌, ◌-◌, ◌*◌, ◌≤◌, ◌<◌, ◌^◌, ◌≡◌, ◌≢◌, ◌↔◌, refl, ◌⊎◌, [], ◌∷◌, some, ok, arith,
  if◌then◌else◌, ◌==◌, IsU32, to_le_bytes, u32_max, take,
}
use blockstore.Disk.Files.{empty_file}
use blockstore.Format.{entry_bytes, entry_of_bytes, serialize, deserialize}
use blockstore.Format.RoundTrip.{deserialize-serialize, entry_of_bytes-entry_bytes}
use blockstore.FileSet.{Volume, split_offset}
use blockstore.FileSet.Opening.{data_file, IsReady}
use blockstore.Store.{
  Store, index_entry_offset, read_index_entry, write_offset, advance_max_contiguous_height,
}
use blockstore.Store.ReadWrite.{new_header, write_data}
use blockstore.Store.Places.{file_of, local_of, places_apart, exact_fill_overlaps}
use blockstore.Store.Entries.{entry_at, with_index, index_entry_offset_lem, read_index_entry_ok}
use blockstore.Store.Heights.{
  IsContiguous, with_max, advance-IsContiguous, advance_skips_zero, absent_past_end,
}
use blockstore.Store.Landing.{landed_file, write_data-IsReady}
use blockstore.Store.Commit.{is_present-write_at}
use blockstore.Tests.{codec, fresh, fresh_volume, fresh_volume-IsReady, empty_file-IsFile, header}
use blockstore.Tests.Stores.{
  block, first_entry, first_entry-IsEntry, one_index, one_index-IsFile, size-one_index, one_place,
}

write_data-IsReady_example :
    (w : Volume) × (write_data 120 block (new_header codec 1 block) fresh
      ≡ (ok tt, record fresh { volume = w }))
    × IsReady w
    × (w.disk.index_file ≡ empty_file)
    × (w.files.max_data_file_size ≡ some 100)
    × ((j : ℕ)
        → IsU32 j
        → data_file j w ≡ (
            if file_of (some 100) 120 == j
            then landed_file
                (data_file (file_of (some 100) 120) fresh_volume)
                (local_of (some 100) 120)
                block
                (new_header codec 1 block)
            else data_file j fresh_volume))
write_data-IsReady_example =
    write_data-IsReady fresh 120 block (new_header codec 1 block) fresh_volume-IsReady
      (omega arith, omega arith) (omega arith, omega arith, omega arith) (omega arith)

empty-IsContiguous : IsContiguous empty_file 1 0
empty-IsContiguous = record {
  above = omega arith;
  run = λ h lo hi. absurd (omega arith);
  gap = absent_past_end empty_file 1 1 empty_file-IsFile (omega arith);
}

-- With block 1 written to the store without blocks, the height rises from 0.
advance-IsContiguous_example :
    (x : ℕ) × (advance_max_contiguous_height 1 (with_index one_index fresh)
      ≡ with_max x (with_index one_index fresh))
    × IsContiguous one_index 1 x
advance-IsContiguous_example =
    advance-IsContiguous (with_index one_index fresh) empty_file 1 refl one_index-IsFile
      (omega arith) (omega arith) (omega (arith, size-one_index))
      (λ h. is_present-write_at empty_file 1 1 64 h first_entry first_entry-IsEntry refl one_place)
      empty-IsContiguous

abbrev from_zero : Store
from_zero = record fresh { header = record header { min_height = 0 } }

advance_skips_zero_example :
    1 ≤ (advance_max_contiguous_height 1 (with_index one_index from_zero)).max_contiguous_height
advance_skips_zero_example =
    advance_skips_zero (with_index one_index from_zero) refl one_index-IsFile refl refl
      (omega (arith, size-one_index))

places_apart_example :
    (file_of (some 100) 0 ≢ file_of (some 100) 130)
    ⊎ (local_of (some 100) 0 + 60 ≤ local_of (some 100) 130)
places_apart_example =
    places_apart (some 100) 0 60 130 40 (omega arith, omega arith, omega arith)
      (omega arith, omega arith, omega arith) (omega arith)

exact_fill_overlaps_example :
    (write_offset (some 100) (2 ^ 32 * 100) 30 ≡ ok (2 ^ 32 * 100))
    × (split_offset (some 100) (2 ^ 32 * 100) ≡ split_offset (some 100) (u32_max * 100))
exact_fill_overlaps_example = exact_fill_overlaps 100 30 (omega arith) (omega arith) (omega arith)

index_entry_offset_lem_example :
    (index_entry_offset 1 5 ≡ some 128) ↔ ((1 ≤ 5) × (128 ≡ 64 + 16 * (5 - 1)) × (128 < 2 ^ 64))
index_entry_offset_lem_example = index_entry_offset_lem 1 5 128

read_index_entry_ok_example :
    read_index_entry 1 (with_index one_index fresh)
    ≡ (ok (some (entry_at one_index 64)), with_index one_index fresh)
read_index_entry_ok_example =
    read_index_entry_ok (with_index one_index fresh) refl one_index-IsFile 1 64 one_place

deserialize-serialize_example :
    deserialize (serialize (new_header codec 300 block)) ≡ ok (new_header codec 300 block)
deserialize-serialize_example = deserialize-serialize (new_header codec 300 block) (record {
  height = omega arith;
  size = omega arith;
  checksum = omega arith;
  version = omega arith;
})

entry_of_bytes-entry_bytes_example : entry_of_bytes (entry_bytes first_entry) ≡ first_entry
entry_of_bytes-entry_bytes_example = entry_of_bytes-entry_bytes first_entry first_entry-IsEntry

serialize_run :
    take 14 (serialize (new_header codec 300 block))
    ≡ 44 ∷ 1 ∷ 0 ∷ 0 ∷ 0 ∷ 0 ∷ 0 ∷ 0 ∷ 3 ∷ 0 ∷ 0 ∷ 0 ∷ 3 ∷ 0 ∷ []
unfolding serialize to_le_bytes
serialize_run = refl
