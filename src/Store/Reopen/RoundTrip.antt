-- ===== src/Store/Reopen/RoundTrip.antt =====
-- A clean end of blockstore/src/store.rs and a new start: `Drop` and then `open`.
use blockstore.Prelude.{
  ℕ, ◌+◌, ◌-◌, ◌*◌, ◌%◌, ◌≤◌, ◌<◌, ◌^◌, min, max, ◌≡◌, refl, ◌∙◌, inl, inr, true, List, [], Option,
  some, ok, arith, Option-cases, length, elem,
}
use native.Mathlib.Decide.{ℕ_discrete}
use blockstore.Disk.{Disk, IsQuiet, set_index}
use blockstore.Disk.Files.{
  File, write_at, write_at-IsFile, size-write_at, byte-write_at, bytes_from-patch_self,
}
use blockstore.Format.{entry_size, header_size, IndexFileHeader, header_bytes}
use blockstore.Format.RoundTrip.{IsHeader, length-header_bytes}
use blockstore.FileSet
use blockstore.FileSet.{Volume}
use blockstore.FileSet.Opening.{data_file}
use blockstore.FileSet.Layout.{list_on_disk, validate_layout}
use blockstore.Store.{Codec, IsCodec, Store, index_entry_offset}
use blockstore.Store.Commit.{saved_header, checkpoint_quiet, header_bytes-IsByte}
use blockstore.Store.Landing.{sync_if_quiet}
use blockstore.Store.Entries.{entry_at, index_entry_offset_lem, entry_at-write_header}
use blockstore.Store.Heights.{is_present, IsContiguous}
use blockstore.Store.Creation.{new-IsValid}
use blockstore.Store.Refines.{Represents}
use blockstore.Store.Lifecycle.{StoreOptions, open_store, unrecovered, effective_max, close}
use blockstore.Store.Recovery.Chain.{SameData, at_scan, done, RepresentsBut}
use blockstore.Store.Recovery.Stored.{SameData-Holds}
use blockstore.Store.Floor.{IsFloor}
use blockstore.Store.Reopen.{IsRecovered}
use blockstore.Store.Reopen.Opening.{HasHeader, keeping, open_store-replay}

module _ (s : Store) (q : IsQuiet s.volume.disk) (pos : 0 < s.data_highwater)
    (fields : IsHeader (saved_header s.data_highwater s)) where
  abbrev pub header : IndexFileHeader
  header = saved_header s.data_highwater s

  abbrev pub saved_index : File
  saved_index = write_at s.volume.disk.index_file 0 (header_bytes header)

  abbrev pub saved_disk : Disk
  saved_disk = set_index saved_index s.volume.disk

  pub close_lem : s.recovered ≡ true → close s ≡ saved_disk
  unfolding close
  close_lem r =
      rw (sync_if_quiet s.sync_mode s q, checkpoint_quiet s s.data_highwater q pos, r) refl

  size_64 : length (header_bytes header) ≡ header_size
  size_64 = length-header_bytes header fields

  saved-HasHeader : s.volume.disk.index_exists ≡ true → HasHeader saved_disk header
  saved-HasHeader e = record {
    exists = e;
    size = omega (
      arith,
      size_64,
      size-write_at s.volume.disk.index_file 0 (header_bytes header) (omega (arith, size_64)),
    );
    bytes =
        rw (byte-write_at s.volume.disk.index_file 0 (header_bytes header), ← size_64)
          (bytes_from-patch_self s.volume.disk.index_file.byte 0 (header_bytes header));
    fields = fields;
  }

  saved_entry :
      (h o : ℕ)
      → index_entry_offset s.header.min_height h ≡ some o
      → entry_at saved_index o ≡ entry_at s.volume.disk.index_file o
  saved_entry h o e =
      let (low, start, fits) = (index_entry_offset_lem s.header.min_height h o).0 e in
      entry_at-write_header s.volume.disk.index_file (header_bytes header) o size_64 (omega arith)

  saved_present :
      (h : ℕ)
      → is_present saved_index s.header.min_height h
        ≡ is_present s.volume.disk.index_file s.header.min_height h
  unfolding is_present
  saved_present h = elim (Option-cases (index_entry_offset s.header.min_height h)) [
    | inl e ↦ rw (is_present, e) refl
    | inr (o, e) ↦ rw (is_present, e, saved_entry h o e) refl
  ]

  saved_aligned : s.volume.disk.index_file.size % entry_size ≡ 0 → saved_index.size % entry_size ≡ 0
  saved_aligned whole =
      let grown =
        size-write_at s.volume.disk.index_file 0 (header_bytes header) (omega (arith, size_64)) in
      omega (arith, whole, size_64, grown)

  saved-IsContiguous :
      IsContiguous s.volume.disk.index_file s.header.min_height s.max_contiguous_height
      → IsContiguous saved_index s.header.min_height s.max_contiguous_height
  saved-IsContiguous k = record {
    above = k.above;
    run = λ h lo hi. saved_present h ∙ k.run h lo hi;
    gap = saved_present (s.max_contiguous_height + 1) ∙ k.gap;
  }

  module _ (c : Codec) (blocks : ℕ → Option (List ℕ)) (options : StoreOptions)
      (r : Represents c s blocks)
      (limit : effective_max s.header.max_data_file_size ≡ s.volume.files.max_data_file_size) where
    abbrev again : Store
    again = at_scan (unrecovered (keeping options) header saved_disk)

    same_data : SameData s.volume again.volume
    unfolding unrecovered FileSet.new data_file
    same_data = record { max_data_file_size = limit; data_files = λ i. refl }

    again-RepresentsBut : RepresentsBut c [] again blocks
    unfolding unrecovered FileSet.new
    again-RepresentsBut = record {
      sound = record {
        ready = record {
          quiet = q;
          cache = new-IsValid (effective_max header.max_data_file_size) options.max_data_files;
          no_directory = r.sound.ready.no_directory;
        };
        index =
            write_at-IsFile s.volume.disk.index_file 0 (header_bytes header)
              (header_bytes-IsByte header r.sound.reserved) r.sound.index;
        limit = rw limit r.sound.limit;
        in_files = rw limit r.sound.in_files;
        reserved = r.sound.reserved;
        reserved_size = r.sound.reserved_size;
      };
      absent = λ h o out e n. rw (saved_entry h o e) (r.absent h o e n);
      held = λ h o b out e here.
          rw (saved_entry h o e)
            (SameData-Holds c s again same_data (omega arith) _ b (r.held h o b e here));
    }

-- The height below which no block is missing is found again: the scan starts at it and ends there.
floor_again :
    (f g : File) (lo top m last : ℕ)
    → IsContiguous f lo m
    → ((h : ℕ) → is_present g lo h ≡ is_present f lo h)
    → m ≤ top
    → IsFloor g lo top (min (max m (lo - 1)) top) last
    → last ≡ m
floor_again f g lo top m last k same below floor = elim (ℕ_discrete last m) [
  | yes e ↦ e
  | no ne ↦
      let here =
        floor.run (m + 1) (omega (arith, k.above)) (omega (arith, k.above, floor.after, ne)) in
      let gone = same (m + 1) ∙ k.gap in absurd (cc)
]

contiguous_again :
    (before t : Store)
    → IsRecovered [] before t
    → IsContiguous before.volume.disk.index_file before.header.min_height
        before.header.highest_contiguous_block_height
    → before.header.highest_contiguous_block_height
      ≤ max t.height_highwater (before.header.min_height - 1)
    → t.max_contiguous_height ≡ before.header.highest_contiguous_block_height
unfolding is_present elem
contiguous_again before t is k below =
    let lo = before.header.min_height in
    let same : (h : ℕ)
        → is_present t.volume.disk.index_file lo h ≡ is_present before.volume.disk.index_file lo h =
      λ h. elim (Option-cases (index_entry_offset lo h)) [
        | inl e ↦ rw (is_present, e) refl
        | inr (o, e) ↦ rw (is_present, e, is.kept h o refl e) refl
      ] in
    elim is.contiguous [
      | inr (some_height, floor) ↦
          floor_again before.volume.disk.index_file t.volume.disk.index_file lo t.height_highwater
            before.header.highest_contiguous_block_height t.max_contiguous_height k same
            (omega (arith, below)) floor
      | inl (no_height, empty) ↦ omega (arith, empty, k.above, below)
    ]

-- Closing a store and opening it again gives a store that holds the same blocks, with the same
-- greatest height and the same height below which no block is missing. The store holds the blocks
-- of the map and is sound, which includes that its disk does not fail; it was made or recovered,
-- and has data; its header fits its words and has its limit; the data files are numbered without a
-- gap and end at its highwater; the index file is of whole entries and its heights are far from
-- 2^64; and its height below which no block is missing is that of the index and is no greater than
-- the greatest height, or in a store with no height than the one below its first.
pub close-open_store :
    (c : Codec) (s : Store) (blocks : ℕ → Option (List ℕ)) (options : StoreOptions)
    (data_files : List (ℕ × ℕ))
    → IsCodec c
    → Represents c s blocks
    → s.recovered ≡ true
    → s.volume.disk.index_exists ≡ true
    → 0 < s.data_highwater
    → IsHeader (saved_header s.data_highwater s)
    → effective_max s.header.max_data_file_size ≡ s.volume.files.max_data_file_size
    → 0 < options.max_data_files
    → list_on_disk (close s) ≡ (ok data_files, close s)
    → validate_layout s.volume.files.max_data_file_size data_files ≡ ok s.data_highwater
    → s.volume.disk.index_file.size % entry_size ≡ 0
    → 64 + 16 * (s.height_highwater + 1 - s.header.min_height) < 2 ^ 64
    → s.height_highwater + 1 < 2 ^ 64
    → IsContiguous s.volume.disk.index_file s.header.min_height s.max_contiguous_height
    → s.max_contiguous_height ≤ max s.height_highwater (s.header.min_height - 1)
    → (t : Store) × (open_store c (keeping options) (close s) ≡ (ok t, t.volume.disk))
      × Represents c t blocks
      × (t.height_highwater ≡ s.height_highwater)
      × (t.max_contiguous_height ≡ s.max_contiguous_height)
unfolding unrecovered
close-open_store c s blocks options data_files kd r recovered exists pos fields limit some_files
      listed valid aligned fits top_fits k below =
    let q : IsQuiet s.volume.disk = r.sound.ready.quiet in
    let closed : close s ≡ saved_disk s q pos fields = close_lem s q pos fields recovered in
    let lo = s.header.min_height in
    let (t, run, represents, high, is) =
      open_store-replay c options (saved_disk s q pos fields) (saved_header s.data_highwater s)
        blocks data_files s.data_highwater [] kd some_files (saved-HasHeader s q pos fields exists)
        (rw closed at listed) (rw limit valid) (omega arith) (done s.data_highwater (omega arith))
        (again-RepresentsBut s q pos fields c blocks options r limit)
        (saved_aligned s q pos fields aligned) fits top_fits in
    (
      t,
      rw closed run,
      represents,
      high,
      contiguous_again _ t is (saved-IsContiguous s q pos fields k) (rw high below),
    )
