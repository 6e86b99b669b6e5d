-- ===== src/Store/Durability/Crash.antt =====
-- A crash of blockstore/src/store.rs after some writes, and a new start: `write_block`, and then
-- `open` on the data file that the writes left and an index file that may have lost their entries.
use blockstore.Prelude.{
  ℕ, ◌+◌, ◌-◌, ◌*◌, ◌%◌, ◌≤◌, ◌<◌, ◌^◌, ◌≡◌, refl, sym, ◌∙◌, ap, false, List, Option, none, some,
  ok, arith, All, elem, keys, lookup,
}
use blockstore.Disk.{set_index}
use blockstore.Disk.Files.{File, IsFile}
use blockstore.Format.{entry_size, IndexEntry, IndexFileHeader}
use blockstore.FileSet
use blockstore.FileSet.{split_offset}
use blockstore.FileSet.Opening.{data_file}
use blockstore.FileSet.Layout.{list_on_disk, validate_layout}
use blockstore.Store.{Codec, IsCodec, Store, index_entry_offset}
use blockstore.Store.Places.{file_of, local_of}
use blockstore.Store.Blocks.{Holds}
use blockstore.Store.Entries.{entry_at}
use blockstore.Store.Creation.{new-IsValid}
use blockstore.Store.Refines.{Represents}
use blockstore.Store.Writes.{IsKept}
use blockstore.Store.Lifecycle.{StoreOptions, open_store, unrecovered, effective_max}
use blockstore.Store.Recovery.Chain.{at_scan, replay, RepresentsBut}
use blockstore.Store.Recovery.Recovers.{top}
use blockstore.Store.Reopen.Opening.{HasHeader, keeping, open_store-replay}
use blockstore.Store.Durability.{
  write_all, IsAccepted, extent, AreAppended, write_all_lem, trail-Chain,
}

-- A block that is held stays held where its bytes are kept.
kept-Holds :
    (c : Codec) (s t : Store) (entry : IndexEntry) (block : List ℕ)
    → s.volume.files.max_data_file_size ≡ none
    → t.volume.files.max_data_file_size ≡ none
    → s.data_highwater ≤ t.data_highwater
    → IsKept s.data_highwater (data_file 0 s.volume) (data_file 0 t.volume)
    → Holds c s entry block
    → Holds c t entry block
unfolding file_of local_of split_offset data_file
kept-Holds c s t entry block single single' grows kept h =
    let (inside, same) = kept entry.offset entry.size h.below (rw single at h.inside) in
    record {
      height = h.height;
      height_fits = h.height_fits;
      size = h.size;
      positive = h.positive;
      small = h.small;
      below = omega (arith, h.below);
      one_file = rw single' tt;
      inside = rw single' inside;
      bytes = rw single' (same ∙ (rw single at h.bytes));
    }

-- What a crash leaves: the data file as it is, and an index file with the header of the last
-- checkpoint, whose entries may be lost or wrong at the heights that were written since.
pub record IsCrash (run : List (ℕ × List ℕ)) (s u : Store) (header : IndexFileHeader) (g : File)
    : Type 0 where
  pub has_header : HasHeader (set_index g u.volume.disk) header
  pub min_height : header.min_height ≡ s.header.min_height
  pub limit : effective_max header.max_data_file_size ≡ none
  pub next_write_offset : header.next_write_offset ≡ s.data_highwater
  pub reserved : header.reserved ≡ s.header.reserved
  pub file : IsFile g
  pub whole : g.size % entry_size ≡ 0
  pub entries :
      (h o : ℕ)
      → elem h (keys run) ≡ false
      → index_entry_offset s.header.min_height h ≡ some o
      → entry_at g o ≡ entry_at s.volume.disk.index_file o

module _ (c : Codec) (s u : Store) (blocks : ℕ → Option (List ℕ)) (run : List (ℕ × List ℕ))
    (options : StoreOptions) (header : IndexFileHeader) (g : File) (r : Represents c s blocks)
    (end : Represents c u (replay blocks run)) (single : s.volume.files.max_data_file_size ≡ none)
    (appended : AreAppended c run s u) (crash : IsCrash run s u header g) where
  abbrev crashed : Store
  crashed = unrecovered (keeping options) header (set_index g u.volume.disk)

  crashed-IsKept :
      IsKept s.data_highwater (data_file 0 s.volume) (data_file 0 (at_scan crashed).volume)
  unfolding unrecovered data_file
  crashed-IsKept = appended.kept

  crashed-RepresentsBut : RepresentsBut c run (at_scan crashed) blocks
  unfolding unrecovered FileSet.new
  crashed-RepresentsBut = record {
    sound = record {
      ready = record {
        quiet = end.sound.ready.quiet;
        cache = new-IsValid (effective_max header.max_data_file_size) options.max_data_files;
        no_directory = end.sound.ready.no_directory;
      };
      index = crash.file;
      limit = rw crash.limit tt;
      in_files = rw crash.limit tt;
      reserved = rw crash.reserved r.sound.reserved;
      reserved_size = rw crash.reserved r.sound.reserved_size;
    };
    absent = λ h o out e n.
        let e' : index_entry_offset s.header.min_height h ≡ some o = rw crash.min_height at e in
        rw (crash.entries h o out e') (r.absent h o e' n);
    held = λ h o b out e here.
        let e' : index_entry_offset s.header.min_height h ≡ some o = rw crash.min_height at e in
        rw (crash.entries h o out e') (
          kept-Holds c s (at_scan crashed) _ b single crash.limit
            (omega (arith, crash.next_write_offset)) crashed-IsKept (r.held h o b e' here));
  }

-- Blocks that were written are there after a crash. After writes that follow a checkpoint, the data
-- file is as the writes left it, and the index file has the header of the checkpoint but may have
-- lost the entries of the writes. Then opening succeeds, and the store holds the blocks of the
-- checkpoint with all the blocks that were written put in, the later in the place of the earlier,
-- and its greatest height is raised to theirs. The store has one data file, which ends at its
-- highwater, and held the blocks of the map and was sound at the checkpoint, which includes that
-- its disk does not fail; `write_block` takes the blocks and they have room; the options allow a
-- data file; and the heights are far from 2^64.
pub write_all-open_store :
    (c : Codec) (s u : Store) (blocks : ℕ → Option (List ℕ)) (run : List (ℕ × List ℕ))
    (options : StoreOptions) (header : IndexFileHeader) (g : File) (data_files : List (ℕ × ℕ))
    → IsCodec c
    → Represents c s blocks
    → s.volume.files.max_data_file_size ≡ none
    → All (IsAccepted c s.header.min_height) run
    → s.data_highwater + extent c run < 2 ^ 64
    → write_all c run s ≡ (ok tt, u)
    → IsCrash run s u header g
    → 0 < options.max_data_files
    → list_on_disk (set_index g u.volume.disk) ≡ (ok data_files, set_index g u.volume.disk)
    → lookup 0 data_files ≡ some (data_file 0 u.volume).size
    → validate_layout none data_files ≡ ok (s.data_highwater + extent c run)
    → 64 + 16 * (top header.max_height run + 1 - s.header.min_height) < 2 ^ 64
    → top header.max_height run + 1 < 2 ^ 64
    → (t : Store) × (open_store c (keeping options) (set_index g u.volume.disk)
        ≡ (ok t, t.volume.disk))
      × Represents c t (replay blocks run)
      × (t.height_highwater ≡ top header.max_height run)
unfolding unrecovered FileSet.new data_file
write_all-open_store c s u blocks run options header g data_files kd r single accepted room wrote
      crash some_files listed has_size valid fits top_fits =
    let (u', wrote', end', appended') = write_all_lem c run s blocks kd r single accepted room in
    let e : u' ≡ u = ap (λ p. p.1) (sym wrote' ∙ wrote) in
    let end : Represents c u (replay blocks run) = rw e at end' in
    let appended : AreAppended c run s u = rw e at appended' in
    let found =
      trail-Chain c (unrecovered (keeping options) header (set_index g u.volume.disk)).volume
        data_files header.min_height (s.data_highwater + extent c run) run s.data_highwater kd
        crash.limit has_size (rw crash.min_height accepted) appended.trail refl room in
    let (t, run_open, represents, high, is) =
      open_store-replay c options (set_index g u.volume.disk) header blocks data_files
        (s.data_highwater + extent c run) run kd some_files crash.has_header listed
        (rw crash.limit valid) (omega (arith, crash.next_write_offset))
        (rw crash.next_write_offset found)
        (crashed-RepresentsBut c s u blocks run options header g r end single appended crash)
        crash.whole (rw crash.min_height fits) top_fits in
    (t, run_open, represents, high)
