-- ===== src/Store/Commit.antt =====
-- The end of `write_block` of blockstore/src/store.rs, `commit_block`: the index entry, the heights
-- and the checkpoint.
use blockstore.Prelude.{
  ℕ, ◌+◌, ◌≤◌, ◌<◌, ◌≡◌, refl, ◌∙◌, ◌⊎◌, inl, inr, true, false, List, some, ok, arith,
  if◌then◌else◌, ◌==◌, ==_iff, ltb, Bool-cases, Option-cases, length, err, Error, All, All-append,
  IsByte, to_le_bytes, to_le_bytes-IsByte, ◌++◌, max, length-append, length-to_le_bytes,
}
use blockstore.Disk.{IsQuiet}
use blockstore.Disk.Files.{File, IsFile, write_at, write_at-IsFile}
use blockstore.Disk.Calls.{index_write_all_at_quiet}
use blockstore.Format.{
  IndexEntry, entry_size, entry_bytes, IndexFileHeader, header_bytes, header_size,
}
use blockstore.Format.RoundTrip.{IsEntry}
use blockstore.Store.{
  Store, index_entry_offset, is_gap, advance_max_contiguous_height, update_highwater, checkpoint,
}
use blockstore.Store.ReadWrite.{commit_block, wants_checkpoint}
use blockstore.Store.Entries.{
  entry_at, index_entry_offset_lem, entry_at-write_at, entry_at-write_header, with_index,
  update_index_at_quiet,
}
use blockstore.Store.Heights.{is_present, with_max, advance_keeps}
use blockstore.Store.Landing.{sync_if_quiet}

-- Entries of two heights: their places are the same or do not meet.
pub offsets_apart :
    (lo height h off o : ℕ)
    → index_entry_offset lo height ≡ some off
    → index_entry_offset lo h ≡ some o
    → ((off == o) ≡ (h == height)) × ((o ≡ off) ⊎ ((o + entry_size ≤ off) ⊎ (off + entry_size ≤ o)))
offsets_apart lo height h off o e d =
    let (low, at, fits) = (index_entry_offset_lem lo height off).0 e in
    let (low', at', fits') = (index_entry_offset_lem lo h o).0 d in (ground arith, omega arith)

-- With the entry of a height written, that height is present and the others are as before.
pub is_present-write_at :
    (f : File) (lo height off h : ℕ) (entry : IndexEntry)
    → IsEntry entry
    → is_gap entry ≡ false
    → index_entry_offset lo height ≡ some off
    → is_present (write_at f off (entry_bytes entry)) lo h
      ≡ (if h == height then true else is_present f lo h)
unfolding is_present
is_present-write_at f lo height off h entry v g e = elim (Option-cases (index_entry_offset lo h)) [
  | inl d ↦
      let ne : (h == height) ≡ false = elim (Bool-cases (h == height)) [
        | inl same ↦ absurd (cc ((==_iff h height).0 same))
        | inr apart ↦ apart
      ] in
      rw (d, ne, is_present) refl
  | inr (o, d) ↦
      let (same, apart) = offsets_apart lo height h off o e d in
      rw (d, is_present, entry_at-write_at f off o entry v apart, same)
        (elim (Bool-cases (h == height)) [ inl at ↦ rw (at, g) refl | inr away ↦ rw away refl ])
]

pub entry_bytes-IsByte :
    (entry : IndexEntry) → All IsByte entry.reserved → All IsByte (entry_bytes entry)
unfolding entry_bytes
entry_bytes-IsByte entry h =
    All-append IsByte (to_le_bytes 8 entry.offset) _ (to_le_bytes-IsByte 8 entry.offset) (
      All-append IsByte (to_le_bytes 4 entry.size) entry.reserved (to_le_bytes-IsByte 4 entry.size)
        h)

word_first : (n v : ℕ) (bs : List ℕ) → All IsByte bs → All IsByte (to_le_bytes n v ++ bs)
word_first n v bs h = All-append IsByte (to_le_bytes n v) bs (to_le_bytes-IsByte n v) h

pub header_bytes-IsByte :
    (h : IndexFileHeader) → All IsByte h.reserved → All IsByte (header_bytes h)
unfolding header_bytes
header_bytes-IsByte h b = word_first 8 h.version _ (
    word_first 8 h.max_data_file_size _ (
      word_first 8 h.min_height _ (
        word_first 8 h.max_height _ (
          word_first 8 h.next_write_offset _
            (word_first 8 h.highest_contiguous_block_height _ b)))))

-- The header that `checkpoint` writes.
abbrev pub saved_header : ℕ → Store → IndexFileHeader
saved_header saved_offset s = record s.header {
  next_write_offset = saved_offset;
  max_height = s.height_highwater;
  highest_contiguous_block_height = s.max_contiguous_height;
}

abbrev pub checkpointed : ℕ → Store → Store
checkpointed saved_offset s =
    record (with_index
      (write_at s.volume.disk.index_file 0 (header_bytes (saved_header saved_offset s))) s) {
        last_checkpoint_offset = saved_offset;
      }

-- A checkpoint past offset 0 writes the header and notes where it was made.
pub checkpoint_quiet :
    (s : Store) (saved_offset : ℕ)
    → IsQuiet s.volume.disk
    → 0 < saved_offset
    → checkpoint saved_offset s ≡ (ok tt, checkpointed saved_offset s)
unfolding checkpoint
checkpoint_quiet s saved_offset q pos =
    let nonzero : (saved_offset == 0) ≡ false = ground arith in
    rw (nonzero, sync_if_quiet s.sync_mode s q, index_write_all_at_quiet s.volume.disk q) refl

-- A checkpoint is refused, and changes nothing, when it would save offset 0 over blocks that were
-- written.
pub checkpoint_refused :
    (s : Store)
    → s.header.min_height ≤ s.height_highwater
    → checkpoint 0 s ≡ (err Error.refuse_checkpoint, s)
unfolding checkpoint
checkpoint_refused s h = ground arith

-- What the end of `write_block` leaves: `written` is the index file with the entry in it.
pub record Committed (s : Store) (written : File) (height : ℕ) (t : Store) : Type 0 where
  pub index : File
  pub contiguous : ℕ
  pub at : ℕ
  pub store : t ≡ record (with_index index s) {
    max_contiguous_height = contiguous;
    height_highwater = max s.height_highwater height;
    last_checkpoint_offset = at;
  }
  pub entries :
      (offset : ℕ) → header_size ≤ offset → entry_at index offset ≡ entry_at written offset
  pub file : IsFile index
  pub advanced :
      advance_max_contiguous_height height (with_index written s)
      ≡ with_max contiguous (with_index written s)

pub raise_highwater :
    (height : ℕ) (s : Store)
    → update_highwater height s ≡ (
      ltb s.height_highwater height,
      record s { height_highwater = max s.height_highwater height },
    )
unfolding update_highwater
raise_highwater height s = elim (Bool-cases (ltb s.height_highwater height)) [
  | inl up ↦ let e : max s.height_highwater height ≡ height = ground arith in rw (up, e) refl
  | inr same ↦
      let e : max s.height_highwater height ≡ s.height_highwater = ground arith in rw (same, e) refl
]

module _ (s : Store) (height offset saved : ℕ) (entry : IndexEntry) (q : IsQuiet s.volume.disk)
    (pos : 0 < saved) (reserved : All IsByte s.header.reserved)
    (size : length s.header.reserved ≡ 16)
    (v : IsFile (write_at s.volume.disk.index_file offset (entry_bytes entry))) where
  abbrev written_index : File
  written_index = write_at s.volume.disk.index_file offset (entry_bytes entry)

  -- The store before the last test.
  abbrev raised : ℕ → Store
  raised x = record (with_max x (with_index written_index s)) {
    height_highwater = max s.height_highwater height;
  }

  commit_steps :
      (x : ℕ)
      → advance_max_contiguous_height height (with_index written_index s)
        ≡ with_max x (with_index written_index s)
      → commit_block height offset saved entry s ≡ (
          if wants_checkpoint height saved (ltb s.height_highwater height) (raised x)
          then checkpoint saved (raised x)
          else (ok tt, raised x))
  unfolding commit_block
  commit_steps x e =
      rw
        (
          update_index_at_quiet s offset entry q,
          e,
          raise_highwater height (with_max x (with_index written_index s)),
        )
        (elim (Bool-cases
          (wants_checkpoint height saved (ltb s.height_highwater height) (raised x))) [
            | inl want ↦ rw want refl
            | inr no_need ↦ rw no_need refl
          ])

  -- On a disk that does not fail the commit succeeds.
  pub commit_block_quiet :
      (t : Store) × (commit_block height offset saved entry s ≡ (ok tt, t))
      × Committed s written_index height t
  commit_block_quiet =
      let (x, e) = advance_keeps (with_index written_index s) q v height in
      elim (Bool-cases (wants_checkpoint height saved (ltb s.height_highwater height) (raised x))) [
        | inl want ↦ (
          checkpointed saved (raised x),
          commit_steps x e ∙ rw want (checkpoint_quiet (raised x) saved q pos),
          record {
            index = (checkpointed saved (raised x)).volume.disk.index_file;
            contiguous = x;
            at = saved;
            store = refl;
            entries = λ o le.
                entry_at-write_header written_index (header_bytes (saved_header saved (raised x))) o
                  (unfold header_bytes in simp (length-append, length-to_le_bytes, size)) le;
            file =
                write_at-IsFile written_index 0 (header_bytes (saved_header saved (raised x)))
                  (header_bytes-IsByte (saved_header saved (raised x)) reserved) v;
            advanced = e;
          },
        )
        | inr no_need ↦ (
          raised x,
          commit_steps x e ∙ rw no_need refl,
          record {
            index = written_index;
            contiguous = x;
            at = s.last_checkpoint_offset;
            store = refl;
            entries = λ o le. refl;
            file = v;
            advanced = e;
          },
        )
      ]
