-- ===== src/Store/Recovery/Replay.antt =====
-- The rounds of `recover_unindexed_blocks` in blockstore/src/store.rs over a chain of blocks: each
-- keeps that the store holds the blocks of the map.
use blockstore.Prelude.{
  none, ◌∷◌, [], ℕ, elem, keys, ◌%◌, ◌+◌, ◌/◌, ◌<◌, ◌^◌, ◌≡◌, refl, ◌∙◌, ap, true, false, List,
  Option, some, ok, arith,
}
use blockstore.Disk.Files.{File}
use blockstore.Format.{entry_size, serialized_size}
use blockstore.FileSet.{Volume, split_offset}
use blockstore.FileSet.Opening.{data_file}
use blockstore.Store.{index_entry_offset, Codec, advance_to_next_file}
use blockstore.Store.Reserve.{IsLimit, InFiles, next_file}
use blockstore.Store.Places.{file_of, local_of, file_some}
use blockstore.Store.Entries.{entry_at}
use blockstore.Store.Refines.{IsSound, SameFiles-Holds}
use blockstore.Store.Windows.{IsWindow}
use blockstore.Store.Recovery.{Scan, Window, scan_step, set_next}
use blockstore.Store.Recovery.Chain.{SameData, at_scan, IsListed, IsTorn, RepresentsBut}
use blockstore.Store.Recovery.Scanning.{moved, IsMoved, scan_skip, scan_torn, scan_remnant}
use blockstore.Store.Recovery.Stored.{SameData-trans, SameData-Holds}

-- What rounds over the blocks of a chain leave of the rest: the saved height to resume from, the
-- entries of other heights, and an index of whole entries.
pub record IsAlong (chain : List (ℕ × List ℕ)) (s t : Scan) : Type 0 where
  pub resume :
      t.store.header.highest_contiguous_block_height
      ≡ s.store.header.highest_contiguous_block_height
  pub aligned :
      s.store.volume.disk.index_file.size % entry_size ≡ 0
      → t.store.volume.disk.index_file.size % entry_size ≡ 0
  pub first : t.store.header.min_height ≡ s.store.header.min_height
  pub kept :
      (h o : ℕ)
      → elem h (keys chain) ≡ false
      → index_entry_offset s.store.header.min_height h ≡ some o
      → entry_at t.store.volume.disk.index_file o ≡ entry_at s.store.volume.disk.index_file o

pub IsAlong-cons :
    (height : ℕ) (block : List ℕ) (rest : List (ℕ × List ℕ)) (s t u : Scan)
    → IsAlong ((height, block) ∷ []) s t
    → IsAlong rest t u
    → IsAlong ((height, block) ∷ rest) s u
unfolding elem
IsAlong-cons height block rest s t u a b = record {
  resume = b.resume ∙ a.resume;
  aligned = λ whole. b.aligned (a.aligned whole);
  first = b.first ∙ a.first;
  kept = λ h o out e.
      b.kept h o (ground (arith, out)) (ap (λ (lo : ℕ). index_entry_offset lo h) a.first ∙ e)
      ∙ a.kept h o (ground (arith, out)) e;
}

pub IsAlong-refl : (s : Scan) → IsAlong [] s s
IsAlong-refl s = record {
  resume = refl;
  aligned = λ whole. whole;
  first = refl;
  kept = λ h o out e. refl;
}

-- The scan of a store whose data is that of the volume `v`, with blocks to come.
module _ (c : Codec) (v : Volume) (data_files : List (ℕ × ℕ)) (min_height end : ℕ) where
  pub record IsScanning (pending : List (ℕ × List ℕ)) (blocks : ℕ → Option (List ℕ)) (s : Scan)
      : Type 0 where
    pub represents : RepresentsBut c pending (at_scan s.store) blocks
    pub first : s.store.header.min_height ≡ min_height
    pub same : SameData v s.store.volume
    pub window : IsWindow s.window s.store.volume

  module _ (pending : List (ℕ × List ℕ)) (blocks : ℕ → Option (List ℕ)) (s : Scan)
      (k : IsScanning pending blocks s) where
    abbrev scan : ℕ
    scan = s.store.header.next_write_offset

    abbrev limits : Option ℕ
    limits = v.files.max_data_file_size

    abbrev i : ℕ
    i = file_of limits scan

    abbrev at : ℕ
    at = local_of limits scan

    pub split : split_offset s.store.volume.files.max_data_file_size scan ≡ (i, at)
    unfolding file_of local_of
    split = rw k.same.max_data_file_size refl

    pub sound : IsSound (at_scan s.store)
    sound = k.represents.sound

    -- Opening files and moving the window.
    pub moved-IsScanning :
        (w : Volume) (x : Window) → IsMoved s w x → IsScanning pending blocks (moved w x s)
    moved-IsScanning w x m = record {
      represents = record {
        sound = record {
          ready = m.ready;
          index = rw m.same.index_file sound.index;
          limit = rw m.same.max_data_file_size sound.limit;
          in_files = rw m.same.max_data_file_size sound.in_files;
          reserved = sound.reserved;
          reserved_size = sound.reserved_size;
        };
        absent = λ h o out e n. rw m.same.index_file (k.represents.absent h o out e n);
        held = λ h o b out e here.
            let entry : entry_at w.disk.index_file o ≡ entry_at s.store.volume.disk.index_file o =
              ap (λ (f : File). entry_at f o) m.same.index_file in
            rw entry (
              SameFiles-Holds c (at_scan s.store) w _ b m.same
                (k.represents.held h o b out e here));
      };
      first = k.first;
      same = SameData-trans v s.store.volume w k.same (record {
        max_data_file_size = m.same.max_data_file_size;
        data_files = m.same.data_files;
      });
      window = m.window;
    }

    -- The round that finds the cut.
    pub torn_round :
        (header : _)
        → scan < end
        → IsTorn c v data_files min_height scan header
        → (t : Scan) × (scan_step c end data_files s ≡ (ok false, t))
          × IsScanning pending blocks t
          × (t.store.height_highwater ≡ s.store.height_highwater)
          × IsAlong [] s t
    torn_round header before cut =
        let f = data_file i v in
        let (w, x, run, m) =
          scan_torn c end data_files s i at f before split (k.same.data_files i) cut.listed
            sound.ready k.window header cut.fits cut.inside cut.read (rw k.first cut.bad) in
        (
          moved w x s,
          run,
          moved-IsScanning w x m,
          refl,
          record {
            resume = refl;
            aligned = λ whole. rw m.same.index_file whole;
            first = refl;
            kept = λ h o out e. ap (λ (f : File). entry_at f o) m.same.index_file;
          },
        )

    -- The round at the end of the only file.
    pub remnant_round :
        scan < end
        → limits ≡ none
        → IsListed c v data_files min_height scan
        → at + serialized_size < 2 ^ 64
        → (data_file i v).size < at + serialized_size
        → scan_step c end data_files s ≡ (ok false, s)
    remnant_round before e listed fits short =
        scan_remnant c end data_files s i at (data_file i v) before split (k.same.data_files i)
          listed (k.same.max_data_file_size ∙ e) fits short

    -- The round over the tail of a file.
    pub skip_round :
        (limit next : ℕ)
        → scan < end
        → limits ≡ some limit
        → IsListed c v data_files min_height scan
        → at + serialized_size < 2 ^ 64
        → (data_file i v).size < at + serialized_size
        → advance_to_next_file i limit ≡ ok next
        → (scan_step c end data_files s ≡ (ok true, set_next next s))
          × (scan < next)
          × IsScanning pending blocks (set_next next s)
    skip_round limit next before e listed fits short goes =
        let run =
          scan_skip c end data_files s i at (data_file i v) before split (k.same.data_files i)
            listed limit next (k.same.max_data_file_size ∙ e) fits short goes in
        let pos : IsLimit (some limit) = rw (k.same.max_data_file_size, e) at sound.limit in
        let here : InFiles (some limit) scan =
          rw (k.same.max_data_file_size, e) at sound.in_files in
        let idx : i ≡ scan / limit = rw e (file_some limit scan here) in
        let (after, start, fits_next) = next_file scan limit i next pos.0 idx goes in
        (
          run,
          after,
          record {
            represents = record {
              sound = record {
                ready = sound.ready;
                index = sound.index;
                limit = sound.limit;
                in_files = rw (k.same.max_data_file_size, e) fits_next;
                reserved = sound.reserved;
                reserved_size = sound.reserved_size;
              };
              absent = k.represents.absent;
              held = λ h o b out m here.
                  SameData-Holds c (at_scan s.store) (at_scan (set_next next s).store)
                    (record { max_data_file_size = refl; data_files = λ j. refl }) (omega arith) _ b
                    (k.represents.held h o b out m here);
            };
            first = k.first;
            same = k.same;
            window = k.window;
          },
        )
