-- ===== src/Store/Recovery/WholeBlocks.antt =====
-- The round of `recover_unindexed_blocks` in blockstore/src/store.rs over a whole block: the block
-- comes into the map.
use blockstore.Prelude.{
  [], ℕ, ◌+◌, ◌<◌, max, ◌≡◌, refl, ◌∙◌, ap, inl, inr, true, false, List, ◌∷◌, Option, some, ok,
  arith, length, elem, keys, if◌then◌else◌, ◌==◌, ==_refl, Bool-cases,
}
use blockstore.Disk.Files.{File}
use blockstore.Format.{serialized_size, serialize}
use blockstore.Format.RoundTrip.{IsBlockHeader, length-serialize, deserialize-serialize}
use blockstore.FileSet.{Volume}
use blockstore.FileSet.Opening.{data_file}
use blockstore.Store.{Codec, IsCodec, index_entry_offset}
use blockstore.Store.ReadWrite.{new_header}
use blockstore.Store.Reserve.{IsLimit, InFiles}
use blockstore.Store.Places.{file_of, local_of, place_bounds}
use blockstore.Store.Entries.{entry_at, index_entry_offset_lem}
use blockstore.Store.Recovery.{Scan, Window, scan_step, is_intact, is_rejected, index_block}
use blockstore.Store.Recovery.Chain.{SameData, at_scan, IsStored, RepresentsBut}
use blockstore.Store.Recovery.Indexing.{recovered_entry, indexed, IsReindexed, index_block_quiet}
use blockstore.Store.Recovery.Scanning.{moved, IsMoved, scan_whole}
use blockstore.Store.Recovery.Stored.{
  SameData-trans, SameData-index, SameData-Holds, IsStored-Holds, parts,
}
use blockstore.Store.Recovery.Replay.{IsAlong, IsScanning, split}

module _ (c : Codec) (v : Volume) (data_files : List (ℕ × ℕ)) (min_height end : ℕ) where
  -- The entry of a block that the scan puts into the index.
  module _ (rest : List (ℕ × List ℕ)) (blocks : ℕ → Option (List ℕ)) (height : ℕ) (block : List ℕ)
      (s : Scan) (kd : IsCodec c)
      (k : IsScanning c v data_files min_height end ((height, block) ∷ rest) blocks s)
      (st : IsStored c v data_files min_height s.store.header.next_write_offset height block) where
    abbrev from : ℕ
    from = s.store.header.next_write_offset

    abbrev size : ℕ
    size = length (c.compress block)

    header-IsBlockHeader : IsBlockHeader (new_header c height block)
    header-IsBlockHeader = record {
      height = st.height_fits;
      size = omega (arith, st.small);
      checksum = kd.xxh64-IsU64 block;
      version = omega arith;
    }

    accepted : is_rejected s.store.header.min_height (new_header c height block) ≡ false
    accepted =
        let (o, place) = st.place in
        let (low, start, fits) = (index_entry_offset_lem min_height height o).0 place in
        rw k.first (ground (arith, low, st.positive, st.small))

    intact : is_intact c (c.compress block) (new_header c height block) ≡ ok true
    unfolding is_intact
    intact = rw (is_intact, kd.decompress-compress block, ==_refl (c.xxh64 block)) refl

    -- The round reads the block and goes on to index it.
    reads :
        from < end
        → (w : Volume) × (x : Window) × (scan_step c end data_files s
            ≡ index_block from (new_header c height block) (moved w x s))
          × IsMoved s w x
    reads before =
        let at = local_of v.files.max_data_file_size from in
        let f = data_file (file_of v.files.max_data_file_size from) v in
        let hd = new_header c height block in
        let limit : IsLimit v.files.max_data_file_size =
          rw k.same.max_data_file_size at k.represents.sound.limit in
        let (idx, ends) =
          place_bounds v.files.max_data_file_size from (size + serialized_size) limit st.one_file
            st.fits in
        let (front, back) =
          parts f.byte at serialized_size size (serialize hd) (c.compress block)
            (length-serialize hd) st.bytes in
        scan_whole c end data_files s (file_of v.files.max_data_file_size from) at f before
          (split c v data_files min_height end ((height, block) ∷ rest) blocks s k)
          (k.same.data_files (file_of v.files.max_data_file_size from)) st.listed
          (k.represents.sound.ready) k.window hd (omega (arith, ends)) (omega (arith, st.inside))
          (rw front (deserialize-serialize hd header-IsBlockHeader)) accepted
          (omega (arith, st.inside)) (rw back intact)

    -- What the index holds after the round.
    module _ (w : Volume) (x : Window) (m : IsMoved s w x) (g : File)
        (max_height saved progress : ℕ)
        (r : IsReindexed s.store.header.min_height height
          (recovered_entry from size)
          w.disk.index_file
          g) where
      abbrev t : Scan
      t = indexed (from + serialized_size + size) height g max_height saved progress (moved w x s)

      abbrev put : ℕ → Option (List ℕ)
      put h = if h == height then some block else blocks h

      same_data : SameData s.store.volume t.store.volume
      same_data = SameData-index s.store.volume w g m.same

      old_entry :
          (h o : ℕ)
          → (h == height) ≡ false
          → index_entry_offset s.store.header.min_height h ≡ some o
          → entry_at g o ≡ entry_at s.store.volume.disk.index_file o
      old_entry h o away e =
          r.entries h o e ∙ rw away (ap (λ (f : File). entry_at f o) m.same.index_file)

      still_out :
          (h : ℕ)
          → (h == height) ≡ false
          → elem h (keys rest) ≡ false
          → elem h (keys ((height, block) ∷ rest)) ≡ false
      unfolding elem
      still_out h away out = ground (arith, away, out)

      stands-InFiles : InFiles w.files.max_data_file_size (from + serialized_size + size)
      stands-InFiles =
          let order : from + (size + serialized_size) ≡ from + serialized_size + size =
            omega arith in
          rw (m.same.max_data_file_size, k.same.max_data_file_size, ← order) st.in_files

      indexed-RepresentsBut : RepresentsBut c rest (at_scan t.store) put
      indexed-RepresentsBut = record {
        sound = record {
          ready = record {
            quiet = m.ready.quiet;
            cache = m.ready.cache;
            no_directory = m.ready.no_directory;
          };
          index = r.file;
          limit = rw m.same.max_data_file_size k.represents.sound.limit;
          in_files = stands-InFiles;
          reserved = k.represents.sound.reserved;
          reserved_size = k.represents.sound.reserved_size;
        };
        absent = λ h o out e n. elim (Bool-cases (h == height)) [
          | inl here ↦ absurd (ground (arith, n))
          | inr away ↦
              rw (old_entry h o away e)
                (k.represents.absent h o (still_out h away out) e (ground (arith, n)))
        ];
        held = λ h o b out e there. elim (Bool-cases (h == height)) [
          | inl here ↦
              let same : block ≡ b = ground (arith, there) in
              let new : entry_at g o ≡ recovered_entry from size = r.entries h o e ∙ rw here refl in
              rw (new, ← same)
                (IsStored-Holds c v data_files min_height from height block (at_scan t.store) st
                  (SameData-trans v s.store.volume t.store.volume k.same same_data) (omega arith))
          | inr away ↦ rw (old_entry h o away e) (
              SameData-Holds c (at_scan s.store) (at_scan t.store) same_data (omega arith) _ b
                (k.represents.held h o b (still_out h away out) e (ground (arith, there))))
        ];
      }

      indexed-IsScanning : IsScanning c v data_files min_height end rest put t
      unfolding data_file
      indexed-IsScanning = record {
        represents = indexed-RepresentsBut;
        first = k.first;
        same = SameData-trans v s.store.volume t.store.volume k.same same_data;
        window = record { inside = m.window.inside; bytes = m.window.bytes };
      }

    -- The round over a whole block.
    pub stored_round :
        from < end
        → (t : Scan) × (scan_step c end data_files s ≡ (ok true, t))
          × IsScanning c v data_files min_height end rest
              (λ h. if h == height then some block else blocks h)
              t
          × (t.store.header.next_write_offset ≡ from + (size + serialized_size))
          × (t.store.height_highwater ≡ max s.store.height_highwater height)
          × IsAlong ((height, block) ∷ []) s t
    stored_round before =
        let (o, place) = st.place in
        let (w, x, run, m) = reads before in
        let sound = k.represents.sound in
        let (g, max_height, saved, progress, indexes, r) =
          index_block_quiet (moved w x s) from (new_header c height block) m.ready.quiet
            (rw m.same.index_file sound.index) header-IsBlockHeader.size st.fits o
            (ap (λ (lo : ℕ). index_entry_offset lo height) k.first ∙ place) sound.reserved
            sound.reserved_size in
        (
          t w x m g max_height saved progress r,
          run ∙ indexes,
          indexed-IsScanning w x m g max_height saved progress r,
          omega arith,
          refl,
          record {
            resume = refl;
            aligned = λ whole. r.aligned (rw m.same.index_file whole);
            first = refl;
            kept = λ h o out e.
                old_entry w x m g max_height saved progress r h o
                  (unfold elem in ground (arith, out)) e;
          },
        )
