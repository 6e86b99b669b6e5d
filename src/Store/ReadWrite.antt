-- ===== src/Store/ReadWrite.antt =====
-- `write_block` and `read_block` of blockstore/src/store.rs.
use blockstore.Prelude.{
  ℕ, ◌+◌, ◌-◌, ◌%◌, ◌^◌, Bool, not, ◌&&◌, ◌||◌, List, Option, none, some, M, Result, ok, err, panic,
  Error, ◌>>=◌, ◌>>◌, pure, fail, get, modify, lift, then_ok, ok_or, if◌then◌else◌, ltb, leb, ◌==◌,
  length, take, drop, replicate, wrapping_add,
}
use blockstore.Disk.{data_read_exact_at, data_write_all_at}
use blockstore.Format.{
  BlockHeader, max_block_size, block_entry_version, serialized_size, serialize, deserialize,
  IndexEntry,
}
use blockstore.FileSet.{on_disk, resolve}
use blockstore.FileSet.Names.{data_file_name}
use blockstore.Store.{
  Codec, Store, on_volume, sync_if, checkpoint_interval, checkpoint_bytes, index_entry_offset,
  read_index_entry, update_index_at, update_highwater, reserve_space, release_reservation,
  advance_max_contiguous_height, checkpoint,
}

-- What `write_block` does with the space that it has reserved: the payload, the header, and the
-- sync. `write_data` is the closure whose failure gives the space back.
unfoldable pub write_data : ℕ → List ℕ → BlockHeader → M Store (Unit {0})
write_data offset compressed_block header s =
    (do
      (handle, local_offset, file_index) ← on_volume (resolve offset)
      let name = data_file_name handle.index
      on_volume (
          on_disk
            (data_write_all_at name (wrapping_add local_offset serialized_size) compressed_block))
      on_volume (on_disk (data_write_all_at name local_offset (serialize header)))
      sync_if s.sync_mode)
      s

abbrev pub on_error : {A : Type 0} → (Store → Store) → Result A × Store → Result A × Store
on_error undo (ok a, s) = (ok a, s)
on_error undo (err e, s) = (err e, undo s)
on_error undo (panic, s) = (panic, s)

-- Whether `write_block` checkpoints: the tip rose to a multiple of the interval, or enough bytes
-- were written since the last checkpoint.
abbrev pub wants_checkpoint : ℕ → ℕ → Bool → Store → Bool
wants_checkpoint height saved_offset tip_rose s =
    tip_rose && height % checkpoint_interval == 0
    || leb checkpoint_bytes (saved_offset - s.last_checkpoint_offset)

-- The end of `write_block`: the index, the heights and the checkpoint.
unfoldable pub commit_block : ℕ → ℕ → ℕ → IndexEntry → M Store (Unit {0})
commit_block height index_offset saved_offset entry = do
  update_index_at index_offset entry
  modify (advance_max_contiguous_height height)
  s ← get
  let (tip_rose, t) = update_highwater height s
  modify (λ _. t)
  if wants_checkpoint height saved_offset tip_rose t then checkpoint saved_offset else pure tt

module _ (c : Codec) where
  abbrev pub new_header : ℕ → List ℕ → BlockHeader
  new_header height block = record {
    height = height;
    size = length (c.compress block);
    checksum = c.xxh64 block;
    version = block_entry_version;
  }

  -- `write_block`, from the compressed block on.
  unfoldable pub store_block : ℕ → List ℕ → M Store (Unit {0})
  store_block height block s =
      let compressed_block = c.compress block in
      let header = new_header height block in
      (do
        index_offset ←
            lift (ok_or (index_entry_offset s.header.min_height height) Error.invalid_block_height)
        (offset, saved_offset, previous_highwater) ←
            reserve_space (length compressed_block + serialized_size)
        (λ t.
            on_error (release_reservation previous_highwater saved_offset)
              (write_data offset compressed_block header t))
        commit_block height index_offset saved_offset
            (record { offset = offset; size = length compressed_block; reserved = replicate 4 0 }))
        s

  -- `write_block`. The length of the compressed block is unwrapped into a u32.
  unfoldable pub write_block : ℕ → List ℕ → M Store (Unit {0})
  write_block height block =
      if length block == 0
      then fail Error.block_is_empty
      else if not (ltb (length block) (2 ^ 32))
      then fail Error.block_too_large
      else if ltb (length (c.compress block)) (2 ^ 32)
      then store_block height block
      else lift panic

  -- What `read_block` makes of the bytes that an entry names.
  unfoldable pub decode_block : IndexEntry → List ℕ → Result (Option (List ℕ))
  decode_block entry buf =
      if ltb (length buf) serialized_size
      then err Error.short_block_read
      else then_ok (deserialize (take serialized_size buf)) λ header.
        if not (header.size == entry.size)
        then err Error.block_size_mismatch
        else then_ok (c.decompress (drop serialized_size buf)) λ block.
          if c.xxh64 block == header.checksum then ok (some block) else err Error.checksum_mismatch

  -- `read_block`, from the index entry on.
  unfoldable pub read_entry : IndexEntry → M Store (Option (List ℕ))
  read_entry entry =
      if entry.size == 0
      then pure none
      else if ltb max_block_size entry.size
      then fail Error.block_size_too_large
      else do
        (handle, local_offset, file_index) ← on_volume (resolve entry.offset)
        buf ← on_volume (
            on_disk (
              data_read_exact_at (data_file_name handle.index) local_offset
                (entry.size + serialized_size)))
        lift (decode_block entry buf)

  unfoldable pub read_found : Option IndexEntry → M Store (Option (List ℕ))
  read_found none = pure none
  read_found (some entry) = read_entry entry

  -- `read_block`.
  unfoldable pub read_block : ℕ → M Store (Option (List ℕ))
  unfolding read_found
  read_block height = do entry ← read_index_entry height; read_found entry
