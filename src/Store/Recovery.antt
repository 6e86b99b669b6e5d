-- ===== src/Store/Recovery.antt =====
-- Recovery of blockstore/src/store.rs, after a crash or on any open of an old store: `ScanWindow`,
-- `recover_unindexed_blocks`, `scan_contiguous_floor` and `recover`.
pub mod Chain
pub mod Indexing
pub mod Scanning
pub mod Stored
pub mod Replay
pub mod WholeBlocks
pub mod Recovers
pub mod Progress
pub mod Termination
use blockstore.Prelude.{
  ℕ, suc, zero, ◌-◌, ◌*◌, Bool, true, false, not, ◌&&◌, ◌||◌, List, [], ◌∷◌, Option, none, some, M,
  Result, ok, err, panic, Error, ◌>>=◌, ◌>>◌, pure, fail, get, modify, lift, zoom, ok_or, and_then,
  if◌then◌else◌, ltb, leb, ◌==◌, length, replicate, get_range, min, max, checked_add,
  saturating_add, lookup,
}
use blockstore.Disk.{index_read_at, index_write_all_at, data_read_exact_at, sync_all}
use blockstore.Format.{
  BlockHeader, max_block_size, block_entry_version, serialized_size, deserialize, IndexEntry,
  entry_size, zero_entry, entry_bytes, entry_of_bytes, header_bytes, overlay,
}
use blockstore.FileSet.{on_disk, split_offset, is_index, get_or_open}
use blockstore.FileSet.Names.{data_file_name}
use blockstore.Store.{
  Codec, Store, on_volume, index_entry_offset, update_index_at, update_highwater,
  advance_to_next_file, checkpoint_bytes,
}

-- `ScanWindow`: `capacity` is the length of its buffer and `bytes` the part of it that is valid.
pub record Window : Type 0 where
  pub file_idx : Option ℕ
  pub start : ℕ
  pub capacity : ℕ
  pub bytes : List ℕ

abbrev pub new_window : Window
new_window = record { file_idx = none; start = 0; capacity = 1024 * 1024; bytes = [] }

-- The state of the scan: the store, the window and `last_progress`.
pub record Scan : Type 0 where
  pub store : Store
  pub window : Window
  pub last_progress : ℕ

abbrev pub on_store : {A : Type 0} → M Store A → M Scan A
on_store = zoom (λ s. s.store) (λ t s. record s { store = t })

abbrev pub set_window : Window → Scan → Scan
set_window w s = record s { window = w }

abbrev pub set_next : ℕ → Scan → Scan
set_next next s = record s {
  store = record s.store { header = record s.store.header { next_write_offset = next } };
}

abbrev pub is_resident : Window → ℕ → ℕ → ℕ → Bool
is_resident w file_idx local_offset end =
    is_index file_idx w.file_idx
    && leb w.start local_offset
    && leb end (saturating_add w.start (length w.bytes))

-- The refill of `ScanWindow::read`.
unfoldable pub refill : ℕ → ℕ → ℕ → ℕ → M Scan (Unit {0})
refill file_idx local_offset n file_size s =
    let capacity = max s.window.capacity n in
    let want = min (file_size - local_offset) capacity in
    (do
      bytes ←
          on_store
            (on_volume (on_disk (data_read_exact_at (data_file_name file_idx) local_offset want)))
      modify (
          set_window (record {
            file_idx = some file_idx;
            start = local_offset;
            capacity = capacity;
            bytes = bytes;
          })))
      s

-- `ScanWindow::read`.
unfoldable pub window_read : ℕ → ℕ → ℕ → ℕ → M Scan (List ℕ)
window_read file_idx local_offset n file_size = do
  end ← lift (ok_or (checked_add local_offset n) Error.read_offset_overflow)
  if ltb file_size end then fail Error.read_past_end else pure tt
  s ← get
  if is_resident s.window file_idx local_offset end
      then pure tt
      else refill file_idx local_offset n file_size
  t ← get
  lift (ok_or (get_range t.window.bytes (local_offset - t.window.start) n) Error.read_past_end)

abbrev pub same_bytes : List ℕ → List ℕ → Bool
same_bytes [] [] = true
same_bytes [] (b ∷ bs) = false
same_bytes (a ∷ as') [] = false
same_bytes (a ∷ as') (b ∷ bs) = a == b && same_bytes as' bs

-- `update_index_if_changed`.
unfoldable pub is_unchanged : List ℕ → IndexEntry → Bool
is_unchanged read entry =
    let existing = entry_of_bytes (overlay read (entry_bytes zero_entry)) in
    length read == entry_size
    && (existing.offset == entry.offset
        && (existing.size == entry.size && same_bytes existing.reserved entry.reserved))

unfoldable pub update_index_if_changed : ℕ → IndexEntry → M Store (Unit {0})
unfolding index_entry_offset
update_index_if_changed height entry s =
    (do
      offset ←
          lift (ok_or (index_entry_offset s.header.min_height height) Error.invalid_block_height)
      read ← on_volume (on_disk (index_read_at offset entry_size))
      if is_unchanged read entry then pure tt else update_index_at offset entry)
      s

-- `checkpoint_recovery_progress`.
unfoldable pub checkpoint_recovery_progress : M Store (Unit {0})
checkpoint_recovery_progress = do
  on_volume (on_disk sync_all)
  modify (λ s. record s { header = record s.header { max_height = s.height_highwater } })
  s ← get
  on_volume (on_disk (index_write_all_at 0 (header_bytes s.header)))
  modify (λ t. record t { last_checkpoint_offset = t.header.next_write_offset })

-- The tail of a data file in which no header fits: the next file, if there can be one.
unfoldable pub skip_tail : Option ℕ → ℕ → M Scan Bool
skip_tail none file_idx = pure false
skip_tail (some limit) file_idx = do
  next ← lift (advance_to_next_file file_idx limit)
  modify (set_next next)
  pure true

-- What makes recovery stop at a header.
abbrev pub is_rejected : ℕ → BlockHeader → Bool
is_rejected min_height header =
    ltb header.height min_height
    || header.size == 0
    || ltb max_block_size header.size
    || not (header.version == block_entry_version)

-- A block that recovery accepts: its entry, the heights, and the progress of the scan.
unfoldable pub index_block : ℕ → BlockHeader → M Scan Bool
index_block scan header = do
  on_store (
      update_index_if_changed header.height
        (record { offset = scan; size = header.size; reserved = replicate 4 0 }))
  on_store (modify (λ s. (update_highwater header.height s).1))
  on_store
      (modify (λ s. record s { max_contiguous_height = max s.max_contiguous_height header.height }))
  next ← lift (
      ok_or (and_then (checked_add scan serialized_size) (λ p. checked_add p header.size))
        Error.next_write_offset_overflow)
  modify (set_next next)
  s ← get
  if leb checkpoint_bytes (next - s.last_progress)
      then on_store checkpoint_recovery_progress >> modify (λ t. record t { last_progress = next })
      else pure tt
  pure true

module _ (c : Codec) where
  -- Whether a payload decodes to a block with the checksum of the header.
  unfoldable pub is_intact : List ℕ → BlockHeader → Result Bool
  is_intact compressed_block header = elim (c.decompress compressed_block) [
    | ok block ↦ ok (c.xxh64 block == header.checksum)
    | err e ↦ ok false
    | panic ↦ panic
  ]

  unfoldable pub scan_payload : ℕ → ℕ → ℕ → ℕ → BlockHeader → M Scan Bool
  scan_payload scan file_idx header_end file_size header = do
    block_end_local ← lift (ok_or (checked_add header_end header.size) Error.block_end_overflow)
    if ltb file_size block_end_local then pure false else do
      compressed_block ← window_read file_idx header_end header.size file_size
      intact ← lift (is_intact compressed_block header)
      if intact then index_block scan header else pure false

  unfoldable pub scan_block : ℕ → ℕ → ℕ → ℕ → ℕ → M Scan Bool
  scan_block scan file_idx local_offset header_end file_size = do
    handle ← on_store (on_volume (get_or_open file_idx))
    bytes ← window_read file_idx local_offset serialized_size file_size
    header ← lift (deserialize bytes)
    s ← get
    if is_rejected s.store.header.min_height header
        then pure false
        else scan_payload scan file_idx header_end file_size header

  -- One round of the loop of `recover_unindexed_blocks`; false is a break.
  unfoldable pub scan_step : ℕ → List (ℕ × ℕ) → M Scan Bool
  scan_step end_offset data_files s =
      let scan = s.store.header.next_write_offset in
      let limit = s.store.volume.files.max_data_file_size in
      let (file_idx, local_offset) = split_offset limit scan in
      let header_end = saturating_add local_offset serialized_size in
      if leb end_offset scan then (ok false, s) else elim (lookup file_idx data_files) [
        | none ↦ (ok false, s)
        | some file_size ↦
            if ltb file_size header_end
            then skip_tail limit file_idx s
            else scan_block scan file_idx local_offset header_end file_size s
      ]

  -- The loop. Each round that does not break moves `next_write_offset` up, so the distance to the
  -- end is fuel enough.
  unfoldable pub scan_loop : ℕ → ℕ → List (ℕ × ℕ) → M Scan (Unit {0})
  scan_loop zero end_offset data_files = pure tt
  scan_loop (suc fuel) end_offset data_files = do
    more ← scan_step end_offset data_files
    let rest = scan_loop fuel end_offset data_files
    if more then rest else pure tt

  -- `recover_unindexed_blocks`.
  unfoldable pub recover_unindexed_blocks : ℕ → List (ℕ × ℕ) → M Store (Unit {0})
  recover_unindexed_blocks end_offset data_files s =
      let start = s.header.next_write_offset in
      let (r, t) =
        scan_loop (suc (end_offset - start)) end_offset data_files
          (record { store = s; window = new_window; last_progress = start }) in
      (r, t.store)
