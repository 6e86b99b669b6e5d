-- ===== src/Store.antt =====
-- `Store` of blockstore/src/store.rs: its state, the index entries, the reservation of space and
-- the checkpoint. One thread runs at a time: an atomic load, store
-- or compare-and-exchange is a step on the state, and a mutex is not seen.
pub mod Reserve
pub mod Heights
pub mod Landing
pub mod Blocks
pub mod Places
pub mod Entries
pub mod Writers
pub mod ReadWrite
pub mod Commit
pub mod Windows
pub mod Creation
pub mod Removal
pub mod Reindex
pub mod Lifecycle
pub mod Floor
pub mod Reopen
pub mod Recovery
pub mod Errors
pub mod Failure
pub mod Writes
pub mod Durability
pub mod Integrity
pub mod Refines
pub mod Kept
pub mod Room
use blockstore.Prelude.{
  ℕ, suc, zero, ◌+◌, ◌-◌, ◌*◌, ◌/◌, ◌%◌, ◌<◌, ◌^◌, ◌≡◌, Bool, true, false, not, ◌&&◌, ◌||◌, List,
  Option, none, some, M, Result, ok, err, panic, Error, ◌>>=◌, ◌>>◌, pure, fail, get, modify, lift,
  zoom, then_ok, ok_or, and_then, if◌then◌else◌, ltb, leb, ◌==◌, length, take, drop, replicate,
  checked_add, checked_mul, checked_sub, checked_add_u32, wrapping_add, try_u32, All, IsByte, IsU64,
}
use blockstore.Disk.{
  index_read_at, index_write_all_at, data_read_exact_at, data_write_all_at, sync_all,
}
use blockstore.Format.{
  BlockHeader, max_block_size, block_entry_version, serialized_size, serialize, deserialize,
  IndexEntry, entry_size, zero_entry, entry_bytes, entry_of_bytes, IndexFileHeader, header_size,
  header_bytes, overlay,
}
use blockstore.FileSet.{Volume, on_disk, resolve}
use blockstore.FileSet.Names.{data_file_name}

-- `compress` and `decompress` call the snappy or the zstd crate, by the features of the build, and
-- the checksum is that of the xxhash crate with seed 0.
pub record Codec : Type 0 where
  pub compress : List ℕ → List ℕ
  pub decompress : List ℕ → Result (List ℕ)
  pub xxh64 : List ℕ → ℕ

-- What those crates document: a frame decodes to what it was made of, a frame of something is not
-- empty, and a checksum has 64 bits.
pub record IsCodec (c : Codec) : Type 0 where
  pub decompress-compress : (block : List ℕ) → c.decompress (c.compress block) ≡ ok block
  pub compress_nonempty : (block : List ℕ) → 0 < length block → 0 < length (c.compress block)
  pub xxh64-IsU64 : (block : List ℕ) → IsU64 (c.xxh64 block)

pub data SyncMode : Type 0 where
  async sync : SyncMode

pub record Store : Type 0 where
  pub volume : Volume
  pub data_highwater : ℕ
  pub header : IndexFileHeader
  pub sync_mode : SyncMode
  pub max_contiguous_height : ℕ
  pub height_highwater : ℕ
  pub last_checkpoint_offset : ℕ
  pub recovered : Bool

abbrev pub on_volume : {A : Type 0} → M Volume A → M Store A
on_volume = zoom (λ s. s.volume) (λ v s. record s { volume = v })

-- `Store::CHECKPOINT_INTERVAL` and `CHECKPOINT_BYTES`.
abbrev pub checkpoint_interval : ℕ
checkpoint_interval = 1024

abbrev pub checkpoint_bytes : ℕ
checkpoint_bytes = 64 * 1024 * 1024

-- `sync_all` under `SyncMode::Sync`.
abbrev pub sync_if : SyncMode → M Store (Unit {0})
sync_if async = pure tt
sync_if sync = on_volume (on_disk sync_all)

-- `index_entry_offset`, of a store with the given `min_height`.
unfoldable pub index_entry_offset : ℕ → ℕ → Option ℕ
index_entry_offset min_height height =
    and_then (checked_sub height min_height) λ relative.
      and_then (checked_mul relative entry_size) λ offset. checked_add offset header_size

-- `read_index_entry`: the entry's bytes, zero where the index file ends before them.
unfoldable pub read_index_entry : ℕ → M Store (Option IndexEntry)
unfolding index_entry_offset
read_index_entry height s =
    (do
      offset ←
          lift (ok_or (index_entry_offset s.header.min_height height) Error.invalid_block_height)
      bytes ← on_volume (on_disk (index_read_at offset entry_size))
      pure (some (entry_of_bytes (overlay bytes (entry_bytes zero_entry)))))
      s

-- `update_index_at`.
unfoldable pub update_index_at : ℕ → IndexEntry → M Store (Unit {0})
update_index_at offset index_entry =
    on_volume (on_disk (index_write_all_at offset (entry_bytes index_entry)))

-- `update_highwater`.
unfoldable pub update_highwater : ℕ → Store → Bool × Store
update_highwater height s =
    if ltb s.height_highwater height
    then (true, record s { height_highwater = height })
    else (false, s)

-- `advance_to_next_file`: the offset at which the file after `current_file_idx` starts.
unfoldable pub advance_to_next_file : ℕ → ℕ → Result ℕ
advance_to_next_file current_file_idx limit =
    ok_or (and_then (checked_add_u32 current_file_idx 1) (λ i. checked_mul i limit))
      Error.data_offset_overflow

-- Where `reserve_space` puts a block: here, or at the start of the next file.
unfoldable pub write_offset : Option ℕ → ℕ → ℕ → Result ℕ
unfolding advance_to_next_file
write_offset none current size_with_header = ok current
write_offset (some limit) current size_with_header =
    then_ok (ok_or (checked_add (current % limit) size_with_header) Error.block_too_large)
      λ end_within_file.
        if leb end_within_file limit
        then ok current
        else then_ok (ok_or (try_u32 (current / limit)) Error.file_index_overflow)
            λ idx. advance_to_next_file idx limit

unfoldable pub exceeds : Option ℕ → ℕ → Bool
exceeds none size_with_header = false
exceeds (some limit) size_with_header = ltb limit size_with_header

-- The offset of a block, and the highwater behind it.
unfoldable pub reservation : Option ℕ → ℕ → ℕ → Result (ℕ × ℕ)
unfolding exceeds write_offset
reservation max current size_with_header =
    if exceeds max size_with_header
    then err Error.block_exceeds_file_size
    else then_ok (write_offset max current size_with_header) λ offset.
      then_ok (ok_or (checked_add offset size_with_header) Error.highwater_overflow)
        λ new_highwater. ok (offset, new_highwater)

-- `reserve_space`: the offset of the block, and the highwater after it and before it.
unfoldable pub reserved : Store → Result (ℕ × ℕ) → Result (ℕ × ℕ × ℕ) × Store
reserved s (ok (offset, new_highwater)) =
    (ok (offset, new_highwater, s.data_highwater), record s { data_highwater = new_highwater })
reserved s (err e) = (err e, s)
reserved s panic = (panic, s)

unfoldable pub reserve_space : ℕ → M Store (ℕ × ℕ × ℕ)
unfolding reservation reserved
reserve_space size_with_header s =
    reserved s (reservation s.volume.files.max_data_file_size s.data_highwater size_with_header)

-- `release_reservation`.
unfoldable pub release_reservation : ℕ → ℕ → Store → Store
release_reservation previous_highwater reserved_end s =
    if s.data_highwater == reserved_end then record s { data_highwater = previous_highwater } else s

-- `entry.offset == 0 && entry.size == 0`.
abbrev pub is_gap : IndexEntry → Bool
is_gap entry = entry.offset == 0 && entry.size == 0

-- `if let Ok(Some(entry))` with an entry that is no gap.
abbrev pub sees_block : Result (Option IndexEntry) → Bool
sees_block (ok (some entry)) = not (is_gap entry)
sees_block (ok none) = false
sees_block (err e) = false
sees_block panic = false

-- The loop of `advance_max_contiguous_height`. Each round reads the entry of a greater height, so
-- it ends where the index file does: the fuel is the size of that file.
unfoldable pub cascade : ℕ → ℕ → Store → Store
cascade zero prev s = s
cascade (suc fuel) prev s =
    let height = wrapping_add prev 1 in
    let next = wrapping_add height 1 in
    let (r, t) = read_index_entry next s in
    let rest = cascade fuel height (record t { max_contiguous_height = next }) in
    if sees_block r then (if t.max_contiguous_height == height then rest else t) else t

-- `advance_max_contiguous_height`.
unfoldable pub advance_max_contiguous_height : ℕ → Store → Store
advance_max_contiguous_height height s =
    let prev = height - 1 in
    let fuel = suc s.volume.disk.index_file.size in
    if s.max_contiguous_height == prev
    then cascade fuel prev (record s { max_contiguous_height = height })
    else s

-- `checkpoint`.
unfoldable pub checkpoint : ℕ → M Store (Unit {0})
checkpoint saved_offset s =
    (if saved_offset == 0 && leb s.header.min_height s.height_highwater
        then fail Error.refuse_checkpoint
        else (do
          sync_if s.sync_mode
          let header : IndexFileHeader = record s.header {
            next_write_offset = saved_offset;
            max_height = s.height_highwater;
            highest_contiguous_block_height = s.max_contiguous_height;
          }
          on_volume (on_disk (index_write_all_at 0 (header_bytes header)))
          modify (λ t. record t { last_checkpoint_offset = saved_offset })))
      s
