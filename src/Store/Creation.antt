-- ===== src/Store/Creation.antt =====
-- What `open` and `Drop` of blockstore/src/store.rs leave: a new store holds no block, and the order
-- of cutting the index file and of taking its lock.
use blockstore.Prelude.{
  ◌-◌, sym, Option-cases, IsU32, is_some, length, sym, IsU32, length, ℕ, ◌<◌, ◌≡◌, refl, ◌∙◌, ap,
  inl, inr, true, false, List, ◌∷◌, Option, none, some, ok, err, Error, arith, All, IsByte, ◌==◌,
  ◌||◌, Bool-cases, unwrap_or, u64_max, replicate, length-replicate, from_le_bytes, distinct, elem,
  lookup, zero, suc, length-append, length-to_le_bytes,
}
use blockstore.Disk.{Disk, Outcome, success, failure, IsQuiet, set_index, next_outcome, try_lock}
use blockstore.Disk.Files.{
  bytes_from-patch_self, byte-write_at, size-write_at, patch, patch, byte-write_at, size-write_at,
  File, IsFile, empty_file, write_at, write_at-IsFile, bytes_from,
}
use blockstore.Disk.Calls.{try_lock_quiet, index_write_all_at_quiet}
use blockstore.Format.{
  header_size, IndexEntry, default_header, with_lowest_block_height, header_bytes, entry_of_bytes,
}
use blockstore.FileSet
use blockstore.Disk.Dir.{find_node, file, directory}
use blockstore.FileSet.Names.{
  data_file_name, parse_data_file_index, parse_data_file_index-data_file_name,
}
use blockstore.FileSet.Cache.{IsValid}
use blockstore.Store.{Codec, Store}
use blockstore.Store.Reserve.{IsLimit, InFiles}
use blockstore.Store.Entries.{entry_at, index_entry_offset_lem, entry_at-write_header}
use blockstore.Store.Commit.{header_bytes-IsByte}
use blockstore.Store.Refines.{IsSound, Represents}
use blockstore.Store.Removal.{IsCleared, IsCleared, HasNoDirectory, removed_quiet}
use blockstore.Store.Lifecycle.{
  StoreOptions, open_index, open_header, fresh_header, effective_max, unrecovered, open_store,
}

-- An open that cuts the store to nothing and is refused the lock of the index file has emptied
-- that file before. The options allow a data file, and of the calls of the system the opening of
-- the index file succeeds and the lock is refused.
pub open_cuts_before_lock :
    (c : Codec) (options : StoreOptions) (d : Disk) (n : ℕ) (os : List Outcome)
    → options.truncate ≡ true
    → 0 < options.max_data_files
    → d.outcomes ≡ success ∷ failure n ∷ os
    → (e : Disk) × (open_store c options d ≡ (err Error.lock_held, e)) × (e.index_file ≡ empty_file)
unfolding open_store open_index try_lock next_outcome
open_cuts_before_lock c options d n os t pos o =
    let some_files : (options.max_data_files == 0) ≡ false = ground arith in
    (
      record (set_index empty_file d) { index_exists = true; outcomes = os },
      rw (some_files, t, o) refl,
      refl,
    )

pub new-IsValid : (max : Option ℕ) (n : ℕ) → IsValid (FileSet.new max n).inner
unfolding FileSet.new distinct elem lookup
new-IsValid m n = record {
  positive = omega arith;
  order_distinct = refl;
  keys_distinct = refl;
  same = λ k. refl;
  count = refl;
  bounded = omega arith;
  own_file = λ k h e. cc;
}

effective_max-IsLimit : (m : Option ℕ) → IsLimit m → IsLimit (effective_max (unwrap_or m u64_max))
unfolding effective_max
effective_max-IsLimit none l = tt
effective_max-IsLimit (some limit) l = elim (Bool-cases (limit == u64_max || limit == 0)) [
  | inl single ↦ rw single tt
  | inr split ↦ rw split l
]

zeros-IsByte : (n : ℕ) → All IsByte (replicate n 0)
unfolding replicate
zeros-IsByte zero = tt
zeros-IsByte (suc n) = (omega arith, zeros-IsByte n)

start_InFiles : (m : Option ℕ) → InFiles m 0
start_InFiles none = tt
start_InFiles (some limit) = omega arith

empty_entry : (o : ℕ) → (entry_at empty_file o).size ≡ 0
unfolding entry_at bytes_from entry_of_bytes from_le_bytes
empty_entry o = refl

empty_file-IsFile : IsFile empty_file
empty_file-IsFile = record { zero_past = λ i h. refl; bytes = λ i. omega arith }

-- The index file of a new store.
abbrev new_index : StoreOptions → File
new_index options = write_at empty_file 0 (header_bytes (fresh_header options))

module _ (c : Codec) (options : StoreOptions) (e : Disk) (q : IsQuiet e) (h : HasNoDirectory e)
    (l : IsLimit options.max_data_file_size) (i : e.index_file ≡ empty_file) where
  abbrev created : Store
  created = unrecovered options (fresh_header options) (set_index (new_index options) e)

  created-IsSound : IsSound created
  unfolding unrecovered fresh_header with_lowest_block_height default_header
  created-IsSound = record {
    ready = record {
      quiet = q;
      cache =
          new-IsValid (effective_max (unwrap_or options.max_data_file_size u64_max))
            options.max_data_files;
      no_directory = h;
    };
    index =
        write_at-IsFile empty_file 0 (header_bytes (fresh_header options))
          (header_bytes-IsByte (fresh_header options) (zeros-IsByte 16)) empty_file-IsFile;
    limit = unfold FileSet.new in effective_max-IsLimit options.max_data_file_size l;
    in_files =
        unfold FileSet.new in
        start_InFiles (effective_max (unwrap_or options.max_data_file_size u64_max));
    reserved = zeros-IsByte 16;
    reserved_size = length-replicate 16 0;
  }

  created-Represents : Represents c created (λ height. none)
  unfolding unrecovered fresh_header with_lowest_block_height default_header
  created-Represents = record {
    sound = created-IsSound;
    absent = λ height o at n.
        let (low, start, fits) = (index_entry_offset_lem created.header.min_height height o).0 at in
        ap (λ (x : IndexEntry). x.size)
          (entry_at-write_header empty_file (header_bytes (fresh_header options)) o
            (unfold header_bytes in
              simp (length-append, length-to_le_bytes, length-replicate {A = ℕ} 16 0))
            (omega arith))
        ∙ empty_entry o;
    held = λ height o block at m. absurd (cc);
  }

-- What `open` makes of a disk for a new store: the index file has the header and nothing else, the
-- data files are gone, and files that are none of the store's are as before. The store has the first
-- height and the limit asked for, no height, and no data.
pub record IsNew (options : StoreOptions) (d : Disk) (s : Store) : Type 0 where
  pub min_height : s.header.min_height ≡ options.minimum_height
  pub limit :
      s.volume.files.max_data_file_size
      ≡ effective_max (unwrap_or options.max_data_file_size u64_max)
  pub saved_limit : s.header.max_data_file_size ≡ unwrap_or options.max_data_file_size u64_max
  pub highwater : s.data_highwater ≡ 0
  pub height_highwater : s.height_highwater ≡ options.minimum_height - 1
  pub contiguous : s.max_contiguous_height ≡ options.minimum_height - 1
  pub index_exists : s.volume.disk.index_exists ≡ true
  pub index_size : s.volume.disk.index_file.size ≡ header_size
  pub index_bytes : bytes_from s.volume.disk.index_file.byte 0 header_size ≡ header_bytes s.header
  pub removed : (i : ℕ) → IsU32 i → find_node (data_file_name i) s.volume.disk.data_dir ≡ none
  pub kept :
      (name : List ℕ)
      → is_some (parse_data_file_index name) ≡ false
      → find_node name s.volume.disk.data_dir ≡ find_node name d.data_dir

-- No data file is left: the directory held none under such a name but files.
cleared_name :
    (d e : Disk) (i : ℕ)
    → HasNoDirectory d
    → IsCleared d.data_dir d e
    → IsU32 i
    → find_node (data_file_name i) e.data_dir ≡ none
cleared_name d e i h cleared small = elim (Option-cases (find_node (data_file_name i) d.data_dir)) [
  | inl absent ↦ cleared.absent (data_file_name i) absent
  | inr (directory, there) ↦ absurd (h i there)
  | inr (file f, there) ↦
      cleared.gone (data_file_name i) f (rw (parse_data_file_index-data_file_name i small) refl)
        there
]

-- Opening a new store succeeds, and it holds no block. On the disk the index file then has the
-- header of the store and nothing else, there are no data files, and files that are none of the
-- store's are as before; the first height and the limit are those asked for, and there is no height
-- and no data. The options cut the store to nothing, allow a data file and have a limit that is a
-- non-zero u64, if any; the disk does not fail and has no directory under the name of a data file.
pub open_store-IsNew :
    (c : Codec) (options : StoreOptions) (d : Disk)
    → options.truncate ≡ true
    → 0 < options.max_data_files
    → IsLimit options.max_data_file_size
    → IsQuiet d
    → HasNoDirectory d
    → (s : Store) × (open_store c options d ≡ (ok s, s.volume.disk))
      × IsNew options d s
      × Represents c s (λ height. none)
unfolding open_store unrecovered fresh_header with_lowest_block_height default_header
open_store-IsNew c options d t pos l q h =
    let size_64 : length (header_bytes (fresh_header options)) ≡ header_size =
      unfold header_bytes in
      simp (length-append, length-to_le_bytes, length-replicate {A = ℕ} 16 0) in
    let some_files : (options.max_data_files == 0) ≡ false = ground arith in
    let d1 : Disk = record (set_index empty_file d) { index_exists = true } in
    let (e, removed, cleared) = removed_quiet d1 q h in
    let opened : open_index true d ≡ (ok tt, d1) =
      unfold open_index in unfold next_outcome in ground arith in
    let wrote : open_header (record options { truncate = true }) e
        ≡ (ok (fresh_header options), set_index (new_index options) e) =
      unfold open_header in
      rw (index_write_all_at_quiet e cleared.quiet, cleared.index_file) refl in
    (
      created c options e cleared.quiet cleared.no_directory l cleared.index_file,
      rw (some_files, t, opened, try_lock_quiet d1 q, removed, wrote) refl,
      record {
        min_height = refl;
        limit = unfold FileSet.new in refl;
        saved_limit = refl;
        highwater = refl;
        height_highwater = refl;
        contiguous = refl;
        index_exists = cleared.index_exists;
        index_size = omega (
          arith,
          size_64,
          size-write_at empty_file 0 (header_bytes (fresh_header options)) (omega (arith, size_64)),
        );
        index_bytes = rw (byte-write_at empty_file 0 (header_bytes (fresh_header options))) (
            ap (bytes_from (patch empty_file.byte 0 (header_bytes (fresh_header options))) 0)
              (sym size_64)
            ∙ bytes_from-patch_self empty_file.byte 0 (header_bytes (fresh_header options)));
        removed = λ i small. cleared_name d1 e i h cleared small;
        kept = cleared.kept;
      },
      created-Represents c options e cleared.quiet cleared.no_directory l cleared.index_file,
    )
