-- ===== src/Store/Recovery/Chain.antt =====
-- What a crash can leave for `recover_unindexed_blocks` of blockstore/src/store.rs to find: from an
-- offset on, the data files hold a chain of whole blocks, which ends at the end of the data or at
-- a block that was cut off.
use blockstore.Prelude.{
  ℕ, ◌+◌, ◌≤◌, ◌<◌, ◌^◌, ◌≡◌, ◌⊎◌, true, false, List, [], ◌∷◌, Option, none, some, ok, length,
  IsU64, lookup, elem, keys, if◌then◌else◌, ◌==◌,
}
use blockstore.Disk.Files.{bytes_from}
use blockstore.Format.{BlockHeader, max_block_size, serialized_size, deserialize}
use blockstore.FileSet.{Volume}
use blockstore.FileSet.Opening.{data_file}
use blockstore.Store.{Codec, Store, index_entry_offset, advance_to_next_file}
use blockstore.Store.Reserve.{InOneFile, InFiles}
use blockstore.Store.Places.{file_of, local_of}
use blockstore.Store.Blocks.{block_bytes, Holds}
use blockstore.Store.Entries.{entry_at}
use blockstore.Store.Refines.{IsSound}
use blockstore.Store.Recovery.{is_rejected, is_intact}

-- What opening files and writing the index leave alone.
pub record SameData (v w : Volume) : Type 0 where
  pub max_data_file_size : w.files.max_data_file_size ≡ v.files.max_data_file_size
  pub data_files : (i : ℕ) → data_file i w ≡ data_file i v

-- The store with its highwater where the scan has come to.
abbrev pub at_scan : Store → Store
at_scan s = record s { data_highwater = s.header.next_write_offset }

-- The map with the blocks of a chain put in, in their order.
abbrev pub replay : (ℕ → Option (List ℕ)) → List (ℕ × List ℕ) → ℕ → Option (List ℕ)
replay blocks [] = blocks
replay blocks ((height, block) ∷ rest) =
    replay (λ h. if h == height then some block else blocks h) rest

-- A volume `v` with the listed sizes of its data files, and the first height of the store.
module _ (c : Codec) (v : Volume) (data_files : List (ℕ × ℕ)) (min_height : ℕ) where
  abbrev max : Option ℕ
  max = v.files.max_data_file_size

  -- The file in which an offset lies is listed with its size.
  abbrev pub IsListed : ℕ → Type 0
  IsListed at = lookup (file_of max at) data_files ≡ some (data_file (file_of max at) v).size

  -- A whole block at an offset: what `write_block` wrote there.
  pub record IsStored (at height : ℕ) (block : List ℕ) : Type 0 where
    pub listed : IsListed at
    pub height_fits : IsU64 height
    pub place : (o : ℕ) × (index_entry_offset min_height height ≡ some o)
    pub positive : 0 < length (c.compress block)
    pub small : length (c.compress block) ≤ max_block_size
    pub one_file : InOneFile max at (length (c.compress block) + serialized_size)
    pub in_files : InFiles max (at + (length (c.compress block) + serialized_size))
    pub fits : at + (length (c.compress block) + serialized_size) < 2 ^ 64
    pub inside :
        local_of max at + (length (c.compress block) + serialized_size)
        ≤ (data_file (file_of max at) v).size
    pub bytes :
        bytes_from
          (data_file (file_of max at) v).byte
          (local_of max at)
          (length (c.compress block) + serialized_size)
        ≡ block_bytes c height block

  -- A block that was cut off: its header is there and is refused, or its payload ends past the
  -- file, does not decode, or has another checksum.
  pub record IsTorn (at : ℕ) (header : BlockHeader) : Type 0 where
    pub listed : IsListed at
    pub fits : local_of max at + serialized_size + header.size < 2 ^ 64
    pub inside : local_of max at + serialized_size ≤ (data_file (file_of max at) v).size
    pub read :
        deserialize
          (bytes_from (data_file (file_of max at) v).byte (local_of max at) serialized_size)
        ≡ ok header
    pub bad :
        (is_rejected min_height header ≡ true)
        ⊎ (((data_file (file_of max at) v).size < local_of max at + serialized_size + header.size)
            ⊎ (is_intact c
                  (bytes_from
                    (data_file (file_of max at) v).byte
                    (local_of max at + serialized_size)
                    header.size)
                  header
                ≡ ok false))

  -- The blocks from an offset on. A tail that is too short for a header is passed over, or in a
  -- single data file is the end.
  pub data Chain (end : ℕ) : ℕ → List (ℕ × List ℕ) → Type 0 where
    done : (at : ℕ) → end ≤ at → Chain end at []
    torn : (at : ℕ) (header : BlockHeader) → at < end → IsTorn at header → Chain end at []
    remnant :
        (at : ℕ)
        → at < end
        → max ≡ none
        → IsListed at
        → local_of max at + serialized_size < 2 ^ 64
        → (data_file (file_of max at) v).size < local_of max at + serialized_size
        → Chain end at []
    skip :
        (at limit next : ℕ) (rest : List (ℕ × List ℕ))
        → at < end
        → max ≡ some limit
        → IsListed at
        → local_of max at + serialized_size < 2 ^ 64
        → (data_file (file_of max at) v).size < local_of max at + serialized_size
        → advance_to_next_file (file_of max at) limit ≡ ok next
        → Chain end next rest
        → Chain end at rest
    stored :
        (at height : ℕ) (block : List ℕ) (rest : List (ℕ × List ℕ))
        → at < end
        → IsStored at height block
        → Chain end (at + (length (c.compress block) + serialized_size)) rest
        → Chain end at ((height, block) ∷ rest)

-- The store holds the blocks of the map and no others, but for the heights of the blocks to come,
-- of which the index may say anything.
pub record RepresentsBut (c : Codec) (pending : List (ℕ × List ℕ)) (s : Store)
    (blocks : ℕ → Option (List ℕ)) : Type 0 where
  pub sound : IsSound s
  pub absent :
      (h o : ℕ)
      → elem h (keys pending) ≡ false
      → index_entry_offset s.header.min_height h ≡ some o
      → blocks h ≡ none
      → (entry_at s.volume.disk.index_file o).size ≡ 0
  pub held :
      (h o : ℕ) (block : List ℕ)
      → elem h (keys pending) ≡ false
      → index_entry_offset s.header.min_height h ≡ some o
      → blocks h ≡ some block
      → Holds c s (entry_at s.volume.disk.index_file o) block
