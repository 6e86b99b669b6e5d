-- ===== src/Store/Integrity.antt =====
-- What `read_block` of blockstore/src/store.rs checks: a block that it gives is what the entry, the
-- header and the checksum say, whatever is on the disk.
use blockstore.Prelude.{
  ℕ, ◌+◌, ◌≤◌, ◌<◌, ◌≡◌, ◌≢◌, refl, sym, ◌∙◌, ap, inl, inr, true, false, List, Option, none, some,
  Result, Error, ok, err, panic, arith, length, take, drop, ltb, ◌==◌, Bool-cases, Result-cases,
  Ensures-value,
}
use blockstore.Disk.{next_outcome, index_read_at, Disk, data_read_exact_at}
use blockstore.Disk.Dir.{find_node, file_or_empty}
use blockstore.Disk.Files.{read_exact_at}
use blockstore.Format.{IndexEntry, BlockHeader, max_block_size, serialized_size, deserialize}
use blockstore.FileSet.{Handle, Volume, get_or_open, resolve}
use blockstore.FileSet.Names.{data_file_name}
use blockstore.FileSet.Cache.{IsValid}
use blockstore.FileSet.Opening.{data_file, get_or_open-IsValid, get_or_open_limit}
use blockstore.Store.{Codec, Store, read_index_entry}
use blockstore.Store.ReadWrite.{decode_block, read_entry, read_found, read_block}
use blockstore.Store.Places.{file_of, local_of}

-- A block that was checked: the bytes that the entry names begin with a header of the entry's size,
-- and behind it decode to the block, which has the checksum of the header.
pub record IsChecked (c : Codec) (entry : IndexEntry) (block : List ℕ) (v : Volume) : Type 0 where
  pub positive : 0 < entry.size
  pub small : entry.size ≤ max_block_size
  pub bytes : List ℕ
  pub read :
      read_exact_at
        (data_file (file_of v.files.max_data_file_size entry.offset) v)
        (local_of v.files.max_data_file_size entry.offset)
        (entry.size + serialized_size)
      ≡ ok bytes
  pub header : BlockHeader
  pub starts : deserialize (take serialized_size bytes) ≡ ok header
  pub size : header.size ≡ entry.size
  pub decodes : c.decompress (drop serialized_size bytes) ≡ ok block
  pub checksum : c.xxh64 block ≡ header.checksum

-- What a read may answer by an entry: nothing when its size is 0, else a block that was checked.
abbrev pub IsAnswer : Codec → IndexEntry → Option (List ℕ) → Volume → Type 0
IsAnswer c entry none v = entry.size ≡ 0
IsAnswer c entry (some block) v = IsChecked c entry block v

data_read_ok :
    (name : List ℕ) (offset n : ℕ) (d : Disk) (bytes : List ℕ)
    → (data_read_exact_at name offset n d).0 ≡ ok bytes
    → read_exact_at
        (file_or_empty (find_node name (data_read_exact_at name offset n d).1.data_dir))
        offset
        n
      ≡ ok bytes
unfolding data_read_exact_at next_outcome
data_read_ok name offset n d bytes h = ground (arith, h)

-- What is read of a data file stands in it after the read.
read_here :
    (i j offset n : ℕ) (w : Volume) (bytes : List ℕ)
    → j ≡ i
    → (data_read_exact_at (data_file_name j) offset n w.disk).0 ≡ ok bytes
    → read_exact_at
        (data_file i
          (record w { disk = (data_read_exact_at (data_file_name j) offset n w.disk).1 }))
        offset
        n
      ≡ ok bytes
unfolding data_file
read_here i j offset n w bytes e r =
    let d = (data_read_exact_at (data_file_name j) offset n w.disk).1 in
    ap (λ (x : ℕ). read_exact_at (file_or_empty (find_node (data_file_name x) d.data_dir)) offset n)
      (sym e)
    ∙ data_read_ok (data_file_name j) offset n w.disk bytes r

decoded :
    (c : Codec) (entry : IndexEntry) (bytes block : List ℕ)
    → decode_block c entry bytes ≡ ok (some block)
    → (header : BlockHeader) × (deserialize (take serialized_size bytes) ≡ ok header)
      × (header.size ≡ entry.size)
      × (c.decompress (drop serialized_size bytes) ≡ ok block)
      × (c.xxh64 block ≡ header.checksum)
unfolding decode_block
decoded c entry bytes block h = elim (Bool-cases (ltb (length bytes) serialized_size)) [
  | inl short ↦ absurd (ground (arith, short, h))
  | inr long ↦ elim (Result-cases (deserialize (take serialized_size bytes))) [
    | inr (inl (x, e)) ↦ absurd (ground (arith, long, e, h))
    | inr (inr e) ↦ absurd (ground (arith, long, e, h))
    | inl (header, starts) ↦ elim (Bool-cases (header.size == entry.size)) [
      | inr apart ↦ absurd (ground (arith, long, starts, apart, h))
      | inl same ↦ elim (Result-cases (c.decompress (drop serialized_size bytes))) [
        | inr (inl (x, e)) ↦ absurd (ground (arith, long, starts, same, e, h))
        | inr (inr e) ↦ absurd (ground (arith, long, starts, same, e, h))
        | inl (b, e) ↦ elim (Bool-cases (c.xxh64 b == header.checksum)) [
          | inr wrong ↦ absurd (ground (arith, long, starts, same, e, wrong, h))
          | inl right ↦
              let found : ok (some b) ≡ ok (some block) = rw (long, starts, same, e, right) at h in
              let b_is : b ≡ block = cc found in
              (
                header,
                starts,
                ground (arith, same),
                e ∙ ap ok b_is,
                rw (← b_is) (ground (arith, right)),
              )
        ]
      ]
    ]
  ]
]

-- The parts of a read by an entry of some size.
module _ (c : Codec) (entry : IndexEntry) (s : Store) (some_size : (entry.size == 0) ≡ false)
    (small : ltb max_block_size entry.size ≡ false) where
  abbrev index : ℕ
  index = file_of s.volume.files.max_data_file_size entry.offset

  abbrev opened : Volume
  opened = (get_or_open index s.volume).1

  abbrev data_read : ℕ → Result (List ℕ) × Disk
  data_read i =
      data_read_exact_at (data_file_name i)
        (local_of s.volume.files.max_data_file_size entry.offset) (entry.size + serialized_size)
        opened.disk

  open_fails :
      (x : Error) → (get_or_open index s.volume).0 ≡ err x → (read_entry c entry s).0 ≡ err x
  unfolding read_entry resolve file_of
  open_fails x e = rw (some_size, small, e) refl

  open_panics : (get_or_open index s.volume).0 ≡ panic → (read_entry c entry s).0 ≡ panic
  unfolding read_entry resolve file_of
  open_panics e = rw (some_size, small, e) refl

  module _ (h : Handle) (e : (get_or_open index s.volume).0 ≡ ok h) where
    read_fails : (x : Error) → (data_read h.index).0 ≡ err x → (read_entry c entry s).0 ≡ err x
    unfolding read_entry resolve file_of local_of
    read_fails x r = rw (some_size, small, e, r) refl

    read_panics : (data_read h.index).0 ≡ panic → (read_entry c entry s).0 ≡ panic
    unfolding read_entry resolve file_of local_of
    read_panics r = rw (some_size, small, e, r) refl

    read_decodes :
        (bytes : List ℕ)
        → (data_read h.index).0 ≡ ok bytes
        → read_entry c entry s ≡ (
          decode_block c entry bytes,
          record s { volume = record opened { disk = (data_read h.index).1 } },
        )
    unfolding read_entry resolve file_of local_of
    read_decodes bytes r = rw (some_size, small, e, r) refl

no_none : (c : Codec) (entry : IndexEntry) (bytes : List ℕ) → decode_block c entry bytes ≢ ok none
unfolding decode_block
no_none c entry bytes e = ground (arith, e)

-- What the decoding of the bytes read answers.
decoded-IsAnswer :
    (c : Codec) (entry : IndexEntry) (bytes : List ℕ) (found : Option (List ℕ)) (v : Volume)
    → 0 < entry.size
    → entry.size ≤ max_block_size
    → read_exact_at
        (data_file (file_of v.files.max_data_file_size entry.offset) v)
        (local_of v.files.max_data_file_size entry.offset)
        (entry.size + serialized_size)
      ≡ ok bytes
    → decode_block c entry bytes ≡ ok found
    → IsAnswer c entry found v
decoded-IsAnswer c entry bytes none v pos small read e = absurd (no_none c entry bytes e)
decoded-IsAnswer c entry bytes (some block) v pos small read e =
    let (header, starts, size, decodes, checksum) = decoded c entry bytes block e in
    record {
      positive = pos;
      small = small;
      bytes = bytes;
      read = read;
      header = header;
      starts = starts;
      size = size;
      decodes = decodes;
      checksum = checksum;
    }

empty_answer :
    (c : Codec) (entry : IndexEntry) (s : Store)
    → (entry.size == 0) ≡ true
    → read_entry c entry s ≡ (ok none, s)
unfolding read_entry
empty_answer c entry s e = rw e refl

too_large :
    (c : Codec) (entry : IndexEntry) (s : Store)
    → (entry.size == 0) ≡ false
    → ltb max_block_size entry.size ≡ true
    → (read_entry c entry s).0 ≡ err Error.block_size_too_large
unfolding read_entry
too_large c entry s some_size large = rw (some_size, large) refl

-- An answer by an entry, with a cache in order.
answered :
    (c : Codec) (entry : IndexEntry) (s t : Store) (found : Option (List ℕ))
    → IsValid s.volume.files.inner
    → read_entry c entry s ≡ (ok found, t)
    → IsAnswer c entry found t.volume
answered c entry s t found k run = elim (Bool-cases (entry.size == 0)) [
  | inl empty ↦
      let same : none ≡ found = cc (empty_answer c entry s empty, run) in
      rw (← same) (ground (arith, empty))
  | inr some_size ↦ elim (Bool-cases (ltb max_block_size entry.size)) [
    | inl large ↦ absurd (cc (too_large c entry s some_size large, run))
    | inr small ↦
        let i = file_of s.volume.files.max_data_file_size entry.offset in
        let g = get_or_open i s.volume in
        elim (Result-cases g.0) [
          | inr (inl (x, e)) ↦ absurd (cc (open_fails c entry s some_size small x e, run))
          | inr (inr e) ↦ absurd (cc (open_panics c entry s some_size small e, run))
          | inl (h, e) ↦
              let (valid, at) =
                Ensures-value (λ (h : Handle) (w : Volume). IsValid w.files.inner × (h.index ≡ i))
                  (λ (w : Volume). IsValid w.files.inner) g.0 g.1 h
                  (get_or_open-IsValid i s.volume k) e in
              let d = data_read c entry s some_size small h.index in
              elim (Result-cases d.0) [
                | inr (inl (x, r)) ↦ absurd (cc (read_fails c entry s some_size small h e x r, run))
                | inr (inr r) ↦ absurd (cc (read_panics c entry s some_size small h e r, run))
                | inl (bytes, r) ↦
                    let result = sym (read_decodes c entry s some_size small h e bytes r) ∙ run in
                    let after : record s { volume = record g.1 { disk = d.1 } } ≡ t =
                      ap (λ p. p.1) result in
                    let read =
                      read_here i h.index (local_of s.volume.files.max_data_file_size entry.offset)
                        (entry.size + serialized_size) g.1 bytes at r in
                    rw (← after) (
                      decoded-IsAnswer c entry bytes found (record g.1 { disk = d.1 })
                        (ground (arith, some_size)) (ground (arith, small))
                        (rw (get_or_open_limit i s.volume) read) (ap (λ p. p.0) result))
              ]
        ]
  ]
]

-- An entry is read, or nothing is.
entry_read :
    (height : ℕ) (s : Store)
    → ((read_index_entry height s).0 ≢ ok none)
      × ((read_index_entry height s).1.volume.files ≡ s.volume.files)
unfolding read_index_entry next_outcome index_read_at
entry_read height s = ground arith

-- A block that `read_block` gives was checked, whatever the disk holds and whichever calls fail: by
-- the entry that the index has for the height, the data file has, at the place of the entry, a
-- header of the entry's size, and behind it bytes that decode to the block, which has the checksum
-- of the header; the size is not 0 and is 1 GiB at most. It gives no block and no error only by an
-- entry of size 0. The cache of the handles is in order.
pub read_block-IsAnswer :
    (c : Codec) (height : ℕ) (s t : Store) (found : Option (List ℕ))
    → IsValid s.volume.files.inner
    → read_block c height s ≡ (ok found, t)
    → (entry : IndexEntry) × ((read_index_entry height s).0 ≡ ok (some entry))
      × IsAnswer c entry found t.volume
unfolding read_block read_found
read_block-IsAnswer c height s t found k run =
    let (some_entry, same) = entry_read height s in
    let r = read_index_entry height s in
    elim (Result-cases r.0) [
      | inr (inl (x, e)) ↦ absurd (cc (fails c height s x e, run))
      | inr (inr e) ↦ absurd (cc (panics c height s e, run))
      | inl (none, e) ↦ absurd (some_entry e)
      | inl (some entry, e) ↦ (
        entry,
        e,
        answered c entry r.1 t found (rw same k) (sym (reads c height s entry e) ∙ run),
      )
    ]
  where
    fails :
        (c : Codec) (height : ℕ) (s : Store) (x : Error)
        → (read_index_entry height s).0 ≡ err x
        → (read_block c height s).0 ≡ err x
    fails c height s x e = rw e refl

    panics :
        (c : Codec) (height : ℕ) (s : Store)
        → (read_index_entry height s).0 ≡ panic
        → (read_block c height s).0 ≡ panic
    panics c height s e = rw e refl

    reads :
        (c : Codec) (height : ℕ) (s : Store) (entry : IndexEntry)
        → (read_index_entry height s).0 ≡ ok (some entry)
        → read_block c height s ≡ read_entry c entry (read_index_entry height s).1
    reads c height s entry e = rw e refl
