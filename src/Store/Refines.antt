-- ===== src/Store/Refines.antt =====
-- `write_block` and `read_block` of blockstore/src/store.rs against what they promise: the store is
-- a map from heights to blocks, a write puts a block into the map, and a read looks it up.
use blockstore.Prelude.{
  ℕ, ◌≡◌, refl, ap, inl, inr, List, Option, none, some, ok, length, Option-cases, All, IsByte,
}
use blockstore.Disk.Files.{File, IsFile}
use blockstore.Format.{IndexEntry}
use blockstore.FileSet.{Volume}
use blockstore.FileSet.Opening.{data_file, IsReady, SameFiles, SameFiles-refl}
use blockstore.Store.{Store, Codec, IsCodec, index_entry_offset}
use blockstore.Store.ReadWrite.{read_entry, read_found, read_block}
use blockstore.Store.Reserve.{IsLimit, InFiles}
use blockstore.Store.Places.{local_of}
use blockstore.Store.Blocks.{Holds, read_entry-Holds}
use blockstore.Store.Entries.{entry_at, read_index_entry_ok}

-- A store whose disk does not fail, with its highwater in a file with a u32 index.
pub record IsSound (s : Store) : Type 0 where
  pub ready : IsReady s.volume
  pub index : IsFile s.volume.disk.index_file
  pub limit : IsLimit s.volume.files.max_data_file_size
  pub in_files : InFiles s.volume.files.max_data_file_size s.data_highwater
  pub reserved : All IsByte s.header.reserved
  pub reserved_size : length s.header.reserved ≡ 16

-- The store holds the blocks of the map and no others.
pub record Represents (c : Codec) (s : Store) (blocks : ℕ → Option (List ℕ)) : Type 0 where
  pub sound : IsSound s
  pub absent :
      (h o : ℕ)
      → index_entry_offset s.header.min_height h ≡ some o
      → blocks h ≡ none
      → (entry_at s.volume.disk.index_file o).size ≡ 0
  pub held :
      (h o : ℕ) (block : List ℕ)
      → index_entry_offset s.header.min_height h ≡ some o
      → blocks h ≡ some block
      → Holds c s (entry_at s.volume.disk.index_file o) block

-- What opening a file leaves of the map.
pub SameFiles-Holds :
    (c : Codec) (s : Store) (w : Volume) (entry : IndexEntry) (block : List ℕ)
    → SameFiles s.volume w
    → Holds c s entry block
    → Holds c (record s { volume = w }) entry block
unfolding local_of data_file
SameFiles-Holds c s w entry block same h = record {
  height = h.height;
  height_fits = h.height_fits;
  size = h.size;
  positive = h.positive;
  small = h.small;
  below = h.below;
  one_file = rw same.max_data_file_size h.one_file;
  inside = rw (same.max_data_file_size, same.data_files) h.inside;
  bytes = rw (same.max_data_file_size, same.data_files) h.bytes;
}

SameFiles-Represents :
    (c : Codec) (s : Store) (w : Volume) (blocks : ℕ → Option (List ℕ))
    → SameFiles s.volume w
    → IsReady w
    → Represents c s blocks
    → Represents c (record s { volume = w }) blocks
SameFiles-Represents c s w blocks same ready r = record {
  sound = record {
    ready = ready;
    index = rw same.index_file r.sound.index;
    limit = rw same.max_data_file_size r.sound.limit;
    in_files = rw same.max_data_file_size r.sound.in_files;
    reserved = r.sound.reserved;
    reserved_size = r.sound.reserved_size;
  };
  absent = λ h o e n. rw same.index_file (r.absent h o e n);
  held = λ h o b e m.
      let entry : entry_at w.disk.index_file o ≡ entry_at s.volume.disk.index_file o =
        ap (λ (f : File). entry_at f o) same.index_file in
      rw entry (SameFiles-Holds c s w _ b same (r.held h o b e m));
}

read_entry_empty :
    (c : Codec) (s : Store) (entry : IndexEntry)
    → entry.size ≡ 0
    → read_entry c entry s ≡ (ok none, s)
unfolding read_entry
read_entry_empty c s entry e = rw e refl

pub read_block_lem :
    (c : Codec) (s : Store) (blocks : ℕ → Option (List ℕ)) (height offset : ℕ)
    → IsCodec c
    → Represents c s blocks
    → index_entry_offset s.header.min_height height ≡ some offset
    → (w : Volume) × (read_block c height s ≡ (ok (blocks height), record s { volume = w }))
      × Represents c (record s { volume = w }) blocks
      × SameFiles s.volume w
unfolding read_block read_found
read_block_lem c s blocks height offset k r e =
    let entry = entry_at s.volume.disk.index_file offset in
    let found = read_index_entry_ok s r.sound.ready.quiet r.sound.index height offset e in
    elim (Option-cases (blocks height)) [
      | inl gone ↦ (
        s.volume,
        rw (found, read_entry_empty c s entry (r.absent height offset e gone), gone) refl,
        r,
        SameFiles-refl s.volume,
      )
      | inr (b, here) ↦
          let (w, read, ready, same) =
            read_entry-Holds c s entry b k r.sound.ready (r.held height offset b e here) in
          (w, rw (found, read, here) refl, SameFiles-Represents c s w blocks same ready r, same)
    ]

-- A read of a height with an entry gives the block that the map has there, or none, and the store
-- still holds the blocks of the map. The store is sound, which includes that its disk does not
-- fail, and the crates do as they say.
pub read_block_lookup :
    (c : Codec) (s : Store) (blocks : ℕ → Option (List ℕ)) (height offset : ℕ)
    → IsCodec c
    → Represents c s blocks
    → index_entry_offset s.header.min_height height ≡ some offset
    → (t : Store) × (read_block c height s ≡ (ok (blocks height), t)) × Represents c t blocks
read_block_lookup c s blocks height offset k r e =
    let (w, read, represents, same) = read_block_lem c s blocks height offset k r e in
    (record s { volume = w }, read, represents)
