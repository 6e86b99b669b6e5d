-- ===== src/Store/Recovery/Indexing.antt =====
-- `index_block` of the recovery in blockstore/src/store.rs, on a disk that does not fail: the entry
-- of the block is in the index, the scan stands behind the block, and the progress may be saved.
use blockstore.Prelude.{
  ℕ, ◌+◌, ◌-◌, ◌%◌, ◌<◌, ◌^◌, max, ◌≡◌, refl, ◌∙◌, inl, inr, true, ltb, leb, Bool-cases, some, ok,
  arith, length, replicate, length-replicate, IsU32, All, IsByte, length-append, length-to_le_bytes,
  lt→ltb, if◌then◌else◌, ◌==◌,
}
use blockstore.Disk.{IsQuiet}
use blockstore.Disk.Files.{File, IsFile, write_at, size-write_at, write_at-IsFile}
use blockstore.Disk.Calls.{index_write_all_at_quiet, sync_all_quiet}
use blockstore.Format.{
  BlockHeader, IndexEntry, entry_size, header_size, entry_bytes, header_bytes, serialized_size,
}
use blockstore.Format.RoundTrip.{IsEntry, length-entry_bytes}
use blockstore.Store.{Store, index_entry_offset, checkpoint_bytes}
use blockstore.Store.Entries.{
  entry_at, entry_at-write_at, entry_at-write_header, with_index, index_entry_offset_lem,
}
use blockstore.Store.Commit.{
  offsets_apart, entry_bytes-IsByte, header_bytes-IsByte, raise_highwater,
}
use blockstore.Store.Reindex.{update_cases}
use blockstore.Store.Recovery.{Scan, index_block, checkpoint_recovery_progress}

-- The entry that recovery makes.
abbrev pub recovered_entry : ℕ → ℕ → IndexEntry
recovered_entry at size = record { offset = at; size = size; reserved = replicate 4 0 }

-- The scan behind a block of a height: the new index, and what a saved progress changes.
abbrev pub indexed : ℕ → ℕ → File → ℕ → ℕ → ℕ → Scan → Scan
indexed next height index max_height saved progress s = record s {
  store = record (with_index index s.store) {
    header = record s.store.header { next_write_offset = next; max_height = max_height };
    height_highwater = max s.store.height_highwater height;
    max_contiguous_height = max s.store.max_contiguous_height height;
    last_checkpoint_offset = saved;
  };
  last_progress = progress;
}

-- The index file with the entry at the place of its height.
pub record IsReindexed (min_height height : ℕ) (entry : IndexEntry) (f g : File) : Type 0 where
  pub file : IsFile g
  pub entries :
      (h o : ℕ)
      → index_entry_offset min_height h ≡ some o
      → entry_at g o ≡ (if h == height then entry else entry_at f o)
  pub aligned : f.size % entry_size ≡ 0 → g.size % entry_size ≡ 0

progress_quiet :
    (s : Store)
    → IsQuiet s.volume.disk
    → checkpoint_recovery_progress s ≡ (
      ok tt,
      record (with_index
          (write_at s.volume.disk.index_file 0
            (header_bytes (record s.header { max_height = s.height_highwater })))
          s) {
            header = record s.header { max_height = s.height_highwater };
            last_checkpoint_offset = s.header.next_write_offset;
          },
    )
unfolding checkpoint_recovery_progress
progress_quiet s q =
    rw (sync_all_quiet s.volume.disk q, index_write_all_at_quiet s.volume.disk q) refl

module _ (s : Scan) (at : ℕ) (header : BlockHeader) (q : IsQuiet s.store.volume.disk)
    (v : IsFile s.store.volume.disk.index_file) (size : IsU32 header.size)
    (fits : at + (header.size + serialized_size) < 2 ^ 64) where
  abbrev entry : IndexEntry
  entry = recovered_entry at header.size

  entry-IsEntry : IsEntry entry
  entry-IsEntry = record { offset = omega arith; size = size; reserved = length-replicate 4 0 }

  reserved-IsByte : All IsByte entry.reserved
  unfolding replicate
  reserved-IsByte = (omega arith, (omega arith, (omega arith, (omega arith, tt))))

  abbrev next : ℕ
  next = at + serialized_size + header.size

  -- The file stays one of whole entries.
  written_whole :
      (o : ℕ)
      → index_entry_offset s.store.header.min_height header.height ≡ some o
      → s.store.volume.disk.index_file.size % entry_size ≡ 0
      → (write_at s.store.volume.disk.index_file o (entry_bytes entry)).size % entry_size ≡ 0
  written_whole o place whole =
      let (low, start, small) =
        (index_entry_offset_lem s.store.header.min_height header.height o).0 place in
      let long = length-entry_bytes entry entry-IsEntry in
      let grown =
        size-write_at s.store.volume.disk.index_file o (entry_bytes entry) (omega (arith, long)) in
      omega (arith, whole, long, grown)

  -- The write of the entry, as the index sees it.
  reindex :
      (o : ℕ)
      → index_entry_offset s.store.header.min_height header.height ≡ some o
      → (g : File) × IsReindexed s.store.header.min_height header.height entry
          s.store.volume.disk.index_file g
        × (index_block at header s ≡ (
            if leb checkpoint_bytes (next - s.last_progress)
            then (
              ok true,
              indexed next header.height
                  (write_at g 0 (
                    header_bytes (record s.store.header {
                      next_write_offset = next;
                      max_height = max s.store.height_highwater header.height;
                    })))
                  (max s.store.height_highwater header.height)
                  next
                  next
                  s,
            )
            else (
              ok true,
              indexed next header.height g s.store.header.max_height s.store.last_checkpoint_offset
                  s.last_progress s,
            )))
  unfolding index_block
  reindex o place =
      let f = s.store.volume.disk.index_file in
      let lo = s.store.header.min_height in
      let (g, run, case, entries) =
        update_cases s.store header.height o entry q v entry-IsEntry place in
      let file : IsFile g = elim case [
        | inl e ↦ rw e v
        | inr e ↦
            rw e
              (write_at-IsFile f o (entry_bytes entry) (entry_bytes-IsByte entry reserved-IsByte) v)
      ] in
      let start : ltb (at + serialized_size) (2 ^ 64) ≡ true = lt→ltb _ _ (omega arith) in
      let stop : ltb next (2 ^ 64) ≡ true = lt→ltb _ _ (omega arith) in
      (
        g,
        record {
          file = file;
          entries = λ h p e.
              let (same, apart) = offsets_apart lo header.height h o p place e in
              entries p apart ∙ entry_at-write_at f o p entry entry-IsEntry apart ∙ rw same refl;
          aligned = λ whole. elim case [
            | inl e ↦ rw e whole
            | inr e ↦ rw e (written_whole o place whole)
          ];
        },
        rw (run, raise_highwater header.height (with_index g s.store), start, stop)
            (elim (Bool-cases (leb checkpoint_bytes (next - s.last_progress))) [
              | inl save ↦
                  rw
                    (
                      save,
                      progress_quiet
                          (indexed next header.height g s.store.header.max_height
                            s.store.last_checkpoint_offset s.last_progress s).store
                          q,
                    )
                    refl
              | inr go ↦ rw go refl
            ]),
      )

  -- The scan goes on behind the block, with its entry in the index and every other as before.
  pub index_block_quiet :
      (o : ℕ)
      → index_entry_offset s.store.header.min_height header.height ≡ some o
      → All IsByte s.store.header.reserved
      → length s.store.header.reserved ≡ 16
      → (g : File) × (max_height : ℕ) × (saved : ℕ) × (progress : ℕ) × (index_block at header s
          ≡ (ok true, indexed next header.height g max_height saved progress s))
        × IsReindexed s.store.header.min_height header.height entry s.store.volume.disk.index_file g
  index_block_quiet o place reserved long =
      let lo = s.store.header.min_height in
      let (g, r, run) = reindex o place in
      elim (Bool-cases (leb checkpoint_bytes (next - s.last_progress))) [
        | inr go ↦ (
          g,
          s.store.header.max_height,
          s.store.last_checkpoint_offset,
          s.last_progress,
          run ∙ rw go refl,
          r,
        )
        | inl save ↦
            let top = max s.store.height_highwater header.height in
            let saved = record s.store.header { next_write_offset = next; max_height = top } in
            let size_64 : length (header_bytes saved) ≡ header_size =
              unfold header_bytes in simp (length-append, length-to_le_bytes, long) in
            (
              write_at g 0 (header_bytes saved),
              top,
              next,
              next,
              run ∙ rw save refl,
              record {
                file =
                    write_at-IsFile g 0 (header_bytes saved) (header_bytes-IsByte saved reserved)
                      r.file;
                entries = λ h p e.
                    let (low, start, fits) = (index_entry_offset_lem lo h p).0 e in
                    entry_at-write_header g (header_bytes saved) p
                      (unfold header_bytes in simp (length-append, length-to_le_bytes, long))
                      (omega arith)
                    ∙ r.entries h p e;
                aligned = λ whole.
                    let grown = size-write_at g 0 (header_bytes saved) (omega (arith, size_64)) in
                    omega (arith, grown, size_64, r.aligned whole);
              },
            )
      ]
