-- ===== src/Store/Recovery/Scanning.antt =====
-- One round of the loop of `recover_unindexed_blocks` in blockstore/src/store.rs, on a disk that
-- does not fail: what it reads of a data file, and what it then does.
use blockstore.Prelude.{
  none, ℕ, ◌+◌, ◌≤◌, ◌<◌, ◌^◌, ◌≡◌, refl, ◌∙◌, inl, inr, true, false, List, some, ok, arith,
  saturating_add, ◌⊎◌, ltb, leb, lookup, lt→ltb, le→ltb, if◌then◌else◌, Bool-cases,
}
use blockstore.Disk.Files.{File, bytes_from}
use blockstore.Format.{BlockHeader, serialized_size, deserialize}
use blockstore.FileSet.{Volume, split_offset}
use blockstore.FileSet.Opening.{data_file, IsReady, SameFiles, get_or_open-IsReady}
use blockstore.Store.{Codec, advance_to_next_file}
use blockstore.Store.Windows.{IsWindow, window_read-bytes_from}
use blockstore.Store.Recovery.{
  Scan, Window, window_read, scan_step, scan_block, scan_payload, is_rejected, is_intact,
  index_block, set_next, skip_tail,
}

-- The scan with files opened and its window moved.
abbrev pub moved : Volume → Window → Scan → Scan
moved w x s = record s { store = record s.store { volume = w }; window = x }

-- What reading leaves of the scan.
pub record IsMoved (s : Scan) (w : Volume) (x : Window) : Type 0 where
  pub ready : IsReady w
  pub same : SameFiles s.store.volume w
  pub window : IsWindow x w

SameFiles-IsWindow : (v w : Volume) (x : Window) → SameFiles v w → IsWindow x v → IsWindow x w
SameFiles-IsWindow v w x same k = record {
  inside = λ i e. rw (same.data_files i) (k.inside i e);
  bytes = λ i e. rw (same.data_files i) (k.bytes i e);
}

-- A read at a place of the file of contents `f`.
read_moved :
    (s : Scan) (i at n : ℕ) (f : File) (w : Volume) (x : Window)
    → IsMoved s w x
    → data_file i s.store.volume ≡ f
    → at + n < 2 ^ 64
    → at + n ≤ f.size
    → (y : Window) × (window_read i at n f.size (moved w x s)
        ≡ (ok (bytes_from f.byte at n), moved w y s))
      × IsMoved s w y
read_moved s i at n f w x m e fits inside =
    let now : data_file i w ≡ f = m.same.data_files i ∙ e in
    let (y, run, k) =
      window_read-bytes_from (moved w x s) i at n m.ready.quiet m.window fits (rw now inside) in
    (y, rw now at run, record { ready = m.ready; same = m.same; window = k })

-- The scan stands at `at` of data file `i`, whose contents are `f`, before the end.
module _ (c : Codec) (end : ℕ) (data_files : List (ℕ × ℕ)) (s : Scan) (i at : ℕ) (f : File)
    (before : s.store.header.next_write_offset < end)
    (split : split_offset s.store.volume.files.max_data_file_size s.store.header.next_write_offset
      ≡ (i, at))
    (contents : data_file i s.store.volume ≡ f) (listed : lookup i data_files ≡ some f.size) where
  abbrev scan : ℕ
  scan = s.store.header.next_write_offset

  goes_on : leb end scan ≡ false
  goes_on = ground arith

  scan_at :
      at + serialized_size < 2 ^ 64
      → scan_step c end data_files s ≡ (
          if ltb f.size (at + serialized_size)
          then skip_tail s.store.volume.files.max_data_file_size i s
          else scan_block c scan i at (at + serialized_size) f.size s)
  unfolding scan_step
  scan_at fits =
      let sat : saturating_add at serialized_size ≡ at + serialized_size = omega arith in
      rw (goes_on, split, listed, split, sat) refl

  -- No header fits: the scan goes to the next file.
  pub scan_skip :
      (limit next : ℕ)
      → s.store.volume.files.max_data_file_size ≡ some limit
      → at + serialized_size < 2 ^ 64
      → f.size < at + serialized_size
      → advance_to_next_file i limit ≡ ok next
      → scan_step c end data_files s ≡ (ok true, set_next next s)
  unfolding skip_tail
  scan_skip limit next e fits short goes =
      let over : ltb f.size (at + serialized_size) ≡ true = lt→ltb _ _ short in
      scan_at fits ∙ rw (over, e, goes) refl

  -- No header fits, and there is no next file: the scan ends.
  pub scan_remnant :
      s.store.volume.files.max_data_file_size ≡ none
      → at + serialized_size < 2 ^ 64
      → f.size < at + serialized_size
      → scan_step c end data_files s ≡ (ok false, s)
  unfolding skip_tail
  scan_remnant e fits short =
      let over : ltb f.size (at + serialized_size) ≡ true = lt→ltb _ _ short in
      scan_at fits ∙ rw (over, e) refl

  module _ (ready : IsReady s.store.volume) (window : IsWindow s.window s.store.volume)
      (header : BlockHeader) (fits : at + serialized_size + header.size < 2 ^ 64)
      (inside : at + serialized_size ≤ f.size)
      (read : deserialize (bytes_from f.byte at serialized_size) ≡ ok header) where
    -- The header is read.
    scan_header :
        (w : Volume) × (x : Window) × (scan_step c end data_files s ≡ (
          if is_rejected s.store.header.min_height header
          then (ok false, moved w x s)
          else scan_payload c scan i (at + serialized_size) f.size header (moved w x s)))
        × IsMoved s w x
    unfolding scan_block
    scan_header =
        let (h, w, opened, index, ready, same) = get_or_open-IsReady i s.store.volume ready in
        let m : IsMoved s w s.window = record {
          ready = ready;
          same = same;
          window = SameFiles-IsWindow s.store.volume w s.window same window;
        } in
        let (x, run, m') =
          read_moved s i at serialized_size f w s.window m contents (omega arith) inside in
        let long : ltb f.size (at + serialized_size) ≡ false = le→ltb _ _ inside in
        let step : scan_block c scan i at (at + serialized_size) f.size s ≡ (
            if is_rejected s.store.header.min_height header
            then (ok false, moved w x s)
            else scan_payload c scan i (at + serialized_size) f.size header (moved w x s)) =
          rw (opened, run, read)
            (elim (Bool-cases (is_rejected s.store.header.min_height header)) [
              | inl refused ↦ rw refused refl
              | inr fine ↦ rw fine refl
            ]) in
        (w, x, scan_at (omega arith) ∙ rw long step, m')

    adds : ltb (at + serialized_size + header.size) (2 ^ 64) ≡ true
    adds = lt→ltb _ _ fits

    -- A header that is refused, or a payload that is cut off or damaged: the scan ends.
    pub scan_torn :
        (is_rejected s.store.header.min_height header ≡ true)
          ⊎ ((f.size < at + serialized_size + header.size)
              ⊎ (is_intact c (bytes_from f.byte (at + serialized_size) header.size) header
                  ≡ ok false))
        → (w : Volume) × (x : Window) × (scan_step c end data_files s ≡ (ok false, moved w x s))
          × IsMoved s w x
    unfolding scan_payload
    scan_torn bad =
        let (w, x, run, m) = scan_header in
        elim (Bool-cases (is_rejected s.store.header.min_height header)) [
          | inl refused ↦ (w, x, run ∙ rw refused refl, m)
          | inr fine ↦ elim bad [
            | inl refused ↦ absurd (cc)
            | inr (inl short) ↦
                let over : ltb f.size (at + serialized_size + header.size) ≡ true =
                  lt→ltb _ _ short in
                (w, x, run ∙ rw (fine, adds, over) refl, m)
            | inr (inr damaged) ↦
                elim (Bool-cases (ltb f.size (at + serialized_size + header.size))) [
                  | inl over ↦ (w, x, run ∙ rw (fine, adds, over) refl, m)
                  | inr whole ↦
                      let (y, read_payload, m') =
                        read_moved s i (at + serialized_size) header.size f w x m contents fits
                          (ground (arith, whole)) in
                      (w, y, run ∙ rw (fine, adds, whole, read_payload, damaged) refl, m')
                ]
          ]
        ]

    -- A whole block: the scan puts it into the index.
    pub scan_whole :
        is_rejected s.store.header.min_height header ≡ false
        → at + serialized_size + header.size ≤ f.size
        → is_intact c (bytes_from f.byte (at + serialized_size) header.size) header ≡ ok true
        → (w : Volume) × (x : Window) × (scan_step c end data_files s
            ≡ index_block scan header (moved w x s))
          × IsMoved s w x
    unfolding scan_payload
    scan_whole fine whole intact =
        let (w, x, run, m) = scan_header in
        let (y, read_payload, m') =
          read_moved s i (at + serialized_size) header.size f w x m contents fits whole in
        (w, y, run ∙ rw (fine, adds, le→ltb _ _ whole, read_payload, intact) refl, m')
