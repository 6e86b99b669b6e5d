-- ===== src/Store/Blocks.antt =====
-- Stored blocks of blockstore/src/store.rs: what it means that the data files hold a block, and
-- that `read_block` then returns it.
use blockstore.Prelude.{
  ℕ, ◌+◌, ◌≤◌, ◌<◌, ◌≡◌, refl, sym, List, ◌++◌, some, ok, arith, length, length-append,
  take-append_left, drop-append_left, IsU64, IsU32, ◌==◌, ==_refl, ltb, take, drop, le→ltb, false,
}
use blockstore.Disk.Files.{read_exact_at}
use blockstore.Disk.Calls.{data_read_exact_at_quiet}
use blockstore.Format.{IndexEntry, max_block_size, serialized_size, serialize}
use blockstore.Format.RoundTrip.{IsBlockHeader, length-serialize, deserialize-serialize}
use blockstore.Disk.Dir.{find_node, file_or_empty}
use blockstore.FileSet.Names.{data_file_name}
use blockstore.FileSet.{Handle, Volume, resolve}
use blockstore.FileSet.Opening.{data_file, IsReady, SameFiles, get_or_open-IsReady}
use blockstore.Store.{Store, Codec, IsCodec}
use blockstore.Store.ReadWrite.{new_header, decode_block, read_entry}
use blockstore.Store.Reserve.{InOneFile}
use blockstore.Store.Places.{file_of, local_of}

-- `resolve` on a disk that does not fail.
pub resolve-IsReady :
    (offset : ℕ) (v : Volume)
    → IsReady v
    → (h : Handle) × (w : Volume) × (resolve offset v ≡ (
      ok (h, local_of v.files.max_data_file_size offset, file_of v.files.max_data_file_size offset),
      w,
    ))
      × (h.index ≡ file_of v.files.max_data_file_size offset)
      × IsReady w
      × SameFiles v w
unfolding resolve file_of local_of
resolve-IsReady offset v r =
    let (h, w, e, i, ready, same) =
      get_or_open-IsReady (file_of v.files.max_data_file_size offset) v r in
    (h, w, rw e refl, i, ready, same)

module _ (c : Codec) where
  -- The bytes of a stored block: its header, and the compressed block.
  abbrev pub block_bytes : ℕ → List ℕ → List ℕ
  block_bytes height block = serialize (new_header c height block) ++ c.compress block

  -- The entry names the bytes of the block, which stand in one file below the highwater.
  pub record Holds (s : Store) (entry : IndexEntry) (block : List ℕ) : Type 0 where
    pub height : ℕ
    pub height_fits : IsU64 height
    pub size : entry.size ≡ length (c.compress block)
    pub positive : 0 < entry.size
    pub small : entry.size ≤ max_block_size
    pub below : entry.offset + (entry.size + serialized_size) ≤ s.data_highwater
    pub one_file :
        InOneFile s.volume.files.max_data_file_size entry.offset (entry.size + serialized_size)
    pub inside :
        local_of s.volume.files.max_data_file_size entry.offset + (entry.size + serialized_size)
        ≤ (data_file (file_of s.volume.files.max_data_file_size entry.offset) s.volume).size
    pub bytes :
        read_exact_at
          (data_file (file_of s.volume.files.max_data_file_size entry.offset) s.volume)
          (local_of s.volume.files.max_data_file_size entry.offset)
          (entry.size + serialized_size)
        ≡ ok (block_bytes height block)

  -- The bytes that `write_block` writes decode to the block that it was given.
  pub decode_block-block_bytes :
      (height : ℕ) (block : List ℕ) (entry : IndexEntry)
      → IsCodec c
      → IsU64 height
      → IsU32 (length (c.compress block))
      → entry.size ≡ length (c.compress block)
      → decode_block c entry (block_bytes height block) ≡ ok (some block)
  unfolding decode_block
  decode_block-block_bytes height block entry k h n e =
      let header = new_header c height block in
      let bytes = serialize header in
      let size : serialized_size ≡ length bytes = sym (length-serialize header) in
      let front : take serialized_size (bytes ++ c.compress block) ≡ bytes =
        take-append_left bytes (c.compress block) serialized_size size in
      let back : drop serialized_size (bytes ++ c.compress block) ≡ c.compress block =
        drop-append_left bytes (c.compress block) serialized_size size in
      let long : ltb (length (bytes ++ c.compress block)) serialized_size ≡ false =
        le→ltb _ _ (omega (arith, length-append bytes (c.compress block))) in
      let fields : IsBlockHeader header = record {
        height = h;
        size = n;
        checksum = k.xxh64-IsU64 block;
        version = omega arith;
      } in
      rw
        (
          long,
          front,
          back,
          deserialize-serialize header fields,
          e,
          ==_refl (length (c.compress block)),
          k.decompress-compress block,
          ==_refl (c.xxh64 block),
        )
        refl

  -- A read through an entry that holds a block returns the block and leaves the contents of every
  -- file. The disk does not fail, the cache is in order, no directory has the name of a data file,
  -- and the crates do as they say.
  pub read_entry-Holds :
      (s : Store) (entry : IndexEntry) (block : List ℕ)
      → IsCodec c
      → IsReady s.volume
      → Holds s entry block
      → (w : Volume) × (read_entry c entry s ≡ (ok (some block), record s { volume = w }))
        × IsReady w
        × SameFiles s.volume w
  unfolding read_entry data_file
  read_entry-Holds s entry block k r h =
      let max = s.volume.files.max_data_file_size in
      let (handle, w, resolved, index, ready, same) = resolve-IsReady entry.offset s.volume r in
      let nonzero : (entry.size == 0) ≡ false = ground (arith, h.positive) in
      let bounded : ltb max_block_size entry.size ≡ false = le→ltb _ _ h.small in
      let contents : file_or_empty (find_node (data_file_name handle.index) w.disk.data_dir)
          ≡ data_file (file_of max entry.offset) s.volume =
        rw index (same.data_files (file_of max entry.offset)) in
      let decoded : decode_block c entry (block_bytes h.height block) ≡ ok (some block) =
        decode_block-block_bytes h.height block entry k h.height_fits
          (omega (arith, h.size, h.small)) h.size in
      (
        w,
        rw
            (
              nonzero,
              bounded,
              resolved,
              data_read_exact_at_quiet w.disk ready.quiet,
              contents,
              h.bytes,
              decoded,
            )
            refl,
        ready,
        same,
      )
