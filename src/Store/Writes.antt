-- ===== src/Store/Writes.antt =====
-- `write_block` of blockstore/src/store.rs on a disk that does not fail: it puts the block into the
-- map from heights to blocks that the store stands for.
use blockstore.Prelude.{
  [], ℕ, ◌+◌, ◌≤◌, ◌<◌, ◌^◌, ◌≡◌, refl, sym, ◌∙◌, ap, inl, inr, true, false, List, Option, none,
  some, ok, arith, length, IsU64, if◌then◌else◌, ◌==◌, ltb, lt→ltb, Bool-cases, All, IsByte,
  replicate, length-replicate,
}
use blockstore.Disk.Files.{read_exact_at, File, IsFile, write_at, write_at-IsFile}
use blockstore.Format.{IndexEntry, header_size, entry_bytes, max_block_size, serialized_size}
use blockstore.Format.RoundTrip.{IsEntry}
use blockstore.FileSet.Opening.{data_file, IsReady}
use blockstore.Store.{Store, Codec, IsCodec, index_entry_offset}
use blockstore.Store.ReadWrite.{new_header, store_block, write_block}
use blockstore.Store.Places.{file_of, local_of}
use blockstore.FileSet.{split_offset}
use blockstore.Store.Reserve.{IsLimit, InOneFile, InFiles, reserve_space_ok}
use blockstore.Store.Room.{HasRoom, reserve_space_room}
use blockstore.Store.Blocks.{block_bytes, Holds}
use blockstore.Store.Entries.{entry_at, index_entry_offset_lem, entry_at-write_at}
use blockstore.Store.Landing.{write_data-IsReady}
use blockstore.Store.Commit.{commit_block_quiet, entry_bytes-IsByte, offsets_apart}
use blockstore.Store.Kept.{old_file, new_bytes, HasLanded, new_Holds, old_Holds}
use blockstore.Store.Refines.{IsSound, Represents}

zeros-IsByte : All IsByte (replicate 4 0)
unfolding replicate
zeros-IsByte = (omega arith, (omega arith, (omega arith, (omega arith, tt))))

module _ (c : Codec) (s : Store) (height : ℕ) (block : List ℕ) (place : ℕ) where
  abbrev size : ℕ
  size = length (c.compress block) + serialized_size

  abbrev limit : Option ℕ
  limit = s.volume.files.max_data_file_size

  abbrev new_entry : ℕ → IndexEntry
  new_entry offset = record {
    offset = offset;
    size = length (c.compress block);
    reserved = replicate 4 0;
  }

  -- What a write leaves.
  record Wrote (t : Store) : Type 0 where
    offset : ℕ
    after : s.data_highwater ≤ offset
    single : limit ≡ none → offset ≡ s.data_highwater
    one_file : InOneFile limit offset size
    fits : offset + size < 2 ^ 64
    highwater : t.data_highwater ≡ offset + size
    in_files : InFiles limit (offset + size)
    landed : HasLanded s.volume t.volume offset (c.compress block) (new_header c height block)
    ready : IsReady t.volume
    file : IsFile t.volume.disk.index_file
    min_height : t.header.min_height ≡ s.header.min_height
    reserved : t.header.reserved ≡ s.header.reserved
    max_data_file_size : t.volume.files.max_data_file_size ≡ limit
    entries :
        (o : ℕ)
        → header_size ≤ o
        → entry_at t.volume.disk.index_file o
          ≡ entry_at (write_at s.volume.disk.index_file place (entry_bytes (new_entry offset))) o

  module _ (sound : IsSound s) (at : index_entry_offset s.header.min_height height ≡ some place)
      (room : HasRoom limit s.data_highwater size) where
    store_block_ok : (t : Store) × (store_block c height block s ≡ (ok tt, t)) × Wrote t
    unfolding store_block data_file
    store_block_ok =
        let (offset, end, reserved, in_files) = reserve_space_room size s sound.limit room in
        let s1 : Store = record s { data_highwater = end } in
        let (where_to, ends, small, before, moved) =
          reserve_space_ok size s s1 offset end s.data_highwater sound.limit sound.in_files
            reserved in
        let fits : offset + size < 2 ^ 64 = omega arith in
        let (w, wrote, ready, index, same_max, files) =
          write_data-IsReady s1 offset (c.compress block) (new_header c height block) sound.ready
            sound.limit where_to.one_file fits in
        let s2 : Store = record s1 { volume = w } in
        let entry = new_entry offset in
        let file : IsFile (write_at w.disk.index_file place (entry_bytes entry)) = rw index (
          write_at-IsFile s.volume.disk.index_file place (entry_bytes entry)
            (entry_bytes-IsByte entry zeros-IsByte) sound.index) in
        let (t, done, committed) =
          commit_block_quiet s2 height place end entry ready.quiet (omega arith) sound.reserved
            sound.reserved_size file in
        (
          t,
          rw (at, reserved, wrote, done) refl,
          rw committed.store (record {
            offset = offset;
            after = where_to.after;
            single = where_to.single;
            one_file = where_to.one_file;
            fits = fits;
            highwater = ends;
            in_files = rw (← ends) in_files;
            landed = record { max_data_file_size = same_max; contents = files };
            ready = record {
              quiet = ready.quiet;
              cache = ready.cache;
              no_directory = ready.no_directory;
            };
            file = committed.file;
            min_height = refl;
            reserved = refl;
            max_data_file_size = same_max;
            entries = λ o le.
                committed.entries o le
                ∙ ap (λ (f : File). entry_at (write_at f place (entry_bytes entry)) o) index;
          }),
        )

    module _ (blocks : ℕ → Option (List ℕ)) (r : Represents c s blocks) (h64 : IsU64 height)
        (nonempty : 0 < length (c.compress block))
        (small : length (c.compress block) ≤ max_block_size) (t : Store) (w : Wrote t) where
      new_entry-IsEntry : IsEntry (new_entry w.offset)
      new_entry-IsEntry = record {
        offset = omega (arith, w.fits);
        size = omega arith;
        reserved = length-replicate 4 0;
      }

      wrote_entry :
          (h o : ℕ)
          → index_entry_offset s.header.min_height h ≡ some o
          → entry_at t.volume.disk.index_file o
            ≡ (if h == height then new_entry w.offset else entry_at s.volume.disk.index_file o)
      wrote_entry h o e =
          let (low, start, fits) = (index_entry_offset_lem s.header.min_height h o).0 e in
          let (same, apart) = offsets_apart s.header.min_height height h place o at e in
          w.entries o (omega arith)
          ∙ entry_at-write_at s.volume.disk.index_file place o (new_entry w.offset)
              new_entry-IsEntry apart
          ∙ rw same refl

      at_height :
          (h : ℕ)
          → (h == height) ≡ true
          → (if h == height then some block else blocks h) ≡ some block
      at_height h e = rw e refl

      wrote_held :
          (h o : ℕ) (b : List ℕ)
          → index_entry_offset s.header.min_height h ≡ some o
          → (if h == height then some block else blocks h) ≡ some b
          → Holds c t (entry_at t.volume.disk.index_file o) b
      wrote_held h o b e m = elim (Bool-cases (h == height)) [
        | inl here ↦
            let same : block ≡ b = ground (arith, m) in
            let entry : entry_at t.volume.disk.index_file o ≡ new_entry w.offset =
              wrote_entry h o e ∙ rw here refl in
            rw (entry, ← same)
              (new_Holds c s t w.offset height block w.landed sound.limit w.one_file w.fits nonempty
                (new_entry w.offset) refl refl h64 small (omega (arith, w.highwater)))
        | inr away ↦
            let old : blocks h ≡ some b = ground (arith, m) in
            let entry : entry_at t.volume.disk.index_file o ≡ entry_at s.volume.disk.index_file o =
              wrote_entry h o e ∙ rw away refl in
            rw entry (
              old_Holds c s t w.offset height block w.landed sound.limit w.one_file w.fits nonempty
                (entry_at s.volume.disk.index_file o) b w.after
                (omega (arith, w.highwater, w.after)) (r.held h o b e old))
      ]

      wrote_absent :
          (h o : ℕ)
          → index_entry_offset s.header.min_height h ≡ some o
          → (if h == height then some block else blocks h) ≡ none
          → (entry_at t.volume.disk.index_file o).size ≡ 0
      wrote_absent h o e m = elim (Bool-cases (h == height)) [
        | inl here ↦ absurd (ground (arith, m))
        | inr away ↦
            let gone : blocks h ≡ none = ground (arith, m) in
            let entry : entry_at t.volume.disk.index_file o ≡ entry_at s.volume.disk.index_file o =
              wrote_entry h o e ∙ rw away refl in
            rw entry (r.absent h o e gone)
      ]

      same_place :
          (h o : ℕ)
          → index_entry_offset t.header.min_height h ≡ some o
          → index_entry_offset s.header.min_height h ≡ some o
      same_place h o e = ap (λ (m : ℕ). index_entry_offset m h) (sym w.min_height) ∙ e

      wrote-Represents : Represents c t (λ h. if h == height then some block else blocks h)
      wrote-Represents = record {
        sound = record {
          ready = w.ready;
          index = w.file;
          limit = rw w.max_data_file_size sound.limit;
          in_files = in_files_after;
          reserved = rw w.reserved sound.reserved;
          reserved_size = rw w.reserved sound.reserved_size;
        };
        absent = λ h o e m. wrote_absent h o (same_place h o e) m;
        held = λ h o b e m. wrote_held h o b (same_place h o e) m;
      }
        where
          in_files_after : InFiles t.volume.files.max_data_file_size t.data_highwater
          in_files_after = rw (w.max_data_file_size, w.highwater) w.in_files

-- The blocks below a height of a file are in another file as well.
abbrev pub IsKept : ℕ → File → File → Type 0
IsKept top f g =
    (at size : ℕ)
    → at + (size + serialized_size) ≤ top
    → at + (size + serialized_size) ≤ f.size
    → (at + (size + serialized_size) ≤ g.size)
      × (read_exact_at g at (size + serialized_size) ≡ read_exact_at f at (size + serialized_size))

-- What a write leaves in a store of one data file: the highwater, the block, and what was below.
pub record IsAppended (c : Codec) (height : ℕ) (block : List ℕ) (s t : Store) : Type 0 where
  pub highwater :
      t.data_highwater ≡ s.data_highwater + (length (c.compress block) + serialized_size)
  pub inside :
      s.data_highwater + (length (c.compress block) + serialized_size) ≤ (data_file 0 t.volume).size
  pub bytes :
      read_exact_at
        (data_file 0 t.volume)
        s.data_highwater
        (length (c.compress block) + serialized_size)
      ≡ ok (block_bytes c height block)
  pub kept : IsKept s.data_highwater (data_file 0 s.volume) (data_file 0 t.volume)

-- What a write leaves besides: the first height and the limit.
pub record IsWritten (c : Codec) (height : ℕ) (block : List ℕ) (s t : Store) : Type 0 where
  pub min_height : t.header.min_height ≡ s.header.min_height
  pub limit : t.volume.files.max_data_file_size ≡ s.volume.files.max_data_file_size
  pub single : s.volume.files.max_data_file_size ≡ none → IsAppended c height block s t

wrote-IsAppended :
    (c : Codec) (s t : Store) (height place : ℕ) (block : List ℕ)
    → IsLimit s.volume.files.max_data_file_size
    → 0 < length (c.compress block)
    → Wrote c s height block place t
    → s.volume.files.max_data_file_size ≡ none
    → IsAppended c height block s t
unfolding file_of local_of split_offset data_file
wrote-IsAppended c s t height place block l pos w e =
    let n = length (c.compress block) + serialized_size in
    let (inside, bytes) = new_bytes c s t w.offset height block w.landed l w.one_file w.fits pos in
    record {
      highwater = omega (arith, w.highwater, w.single e);
      inside = rw (e, w.single e) at inside;
      bytes = rw (e, w.single e) at bytes;
      kept = λ at size below inside_f. rw e at (
          old_file c s t w.offset height block w.landed l w.one_file w.fits pos
            (record { offset = at; size = size; reserved = [] }) (rw e tt) (omega (arith, w.after))
            (rw e inside_f));
    }

pub write_block_lem :
    (c : Codec) (s : Store) (blocks : ℕ → Option (List ℕ)) (height place : ℕ) (block : List ℕ)
    → IsCodec c
    → Represents c s blocks
    → IsU64 height
    → 0 < length block
    → length block < 2 ^ 32
    → length (c.compress block) ≤ max_block_size
    → index_entry_offset s.header.min_height height ≡ some place
    → HasRoom s.volume.files.max_data_file_size s.data_highwater
        (length (c.compress block) + serialized_size)
    → (t : Store) × (write_block c height block s ≡ (ok tt, t))
      × Represents c t (λ h. if h == height then some block else blocks h)
      × IsWritten c height block s t
unfolding write_block
write_block_lem c s blocks height place block k r h64 pos short small at room =
    let (t, done, w) = store_block_ok c s height block place r.sound at room in
    let some_bytes : (length block == 0) ≡ false = ground arith in
    let packs : ltb (length (c.compress block)) (2 ^ 32) ≡ true = lt→ltb _ _ (omega arith) in
    let packed = k.compress_nonempty block pos in
    (
      t,
      rw (some_bytes, lt→ltb (length block) (2 ^ 32) short, packs) done,
      wrote-Represents c s height block place r.sound at room blocks r h64 packed small t w,
      record {
        min_height = w.min_height;
        limit = w.max_data_file_size;
        single = wrote-IsAppended c s t height place block r.sound.limit packed w;
      },
    )

-- `write_block` succeeds and puts the block into the map: after it the store holds the new block
-- at its height, in the place of an older one if there is one, and every other block as before.
-- The store is sound, which includes that its disk does not fail, the block is not empty and has
-- under 2^32 bytes, the crates do as they say and compress it to 1 GiB at most, the height is a
-- u64 with an entry, and there is room for the block.
pub write_block_insert :
    (c : Codec) (s : Store) (blocks : ℕ → Option (List ℕ)) (height place : ℕ) (block : List ℕ)
    → IsCodec c
    → Represents c s blocks
    → IsU64 height
    → 0 < length block
    → length block < 2 ^ 32
    → length (c.compress block) ≤ max_block_size
    → index_entry_offset s.header.min_height height ≡ some place
    → HasRoom s.volume.files.max_data_file_size s.data_highwater
        (length (c.compress block) + serialized_size)
    → (t : Store) × (write_block c height block s ≡ (ok tt, t))
      × Represents c t (λ h. if h == height then some block else blocks h)
write_block_insert c s blocks height place block k r h64 pos short small at room =
    let (t, done, represents, written) =
      write_block_lem c s blocks height place block k r h64 pos short small at room in
    (t, done, represents)
