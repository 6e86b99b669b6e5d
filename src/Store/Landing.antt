-- ===== src/Store/Landing.antt =====
-- `write_data`, the part of `write_block` of blockstore/src/store.rs that can give its space back:
-- on a disk that does not fail the two writes put the block's bytes in its place.
use blockstore.Prelude.{
  ℕ, ◌+◌, ◌≤◌, ◌<◌, ◌^◌, ◌≡◌, refl, sym, ap, ◌∙◌, ◌⊎◌, inl, inr, List, ◌++◌, ok, arith, length,
  IsU32, true, false, if◌then◌else◌, ◌==◌, ==_refl, ==_iff, Bool-cases, bytes_eq, bytes_eq→eq,
  bytes_eq_refl, wrapping_add,
}
use mathlib.Core.Path.{ap₂}
use blockstore.Disk.{IsQuiet, set_data}
use blockstore.Disk.Files.{
  File, write_at, read_exact_at, read_exact_at_ok, bytes_from, bytes_from_add, byte-write_at,
  size-write_at, size-write_at-le, bytes_from-patch_self, bytes_from-patch_apart,
  read_exact_at-write_at_apart,
}
use blockstore.Disk.Dir.{find_node-put_file}
use blockstore.Disk.Calls.{data_write_all_at_quiet, sync_all_quiet}
use blockstore.Format.{BlockHeader, serialized_size, serialize}
use blockstore.Format.RoundTrip.{length-serialize}
use blockstore.FileSet.{Volume}
use blockstore.FileSet.Names.{data_file_name, data_file_name_injective}
use blockstore.FileSet.Opening.{data_file, IsReady, SameFiles, no_directory-put_file}
use blockstore.Store.{Store, SyncMode, async, sync, sync_if}
use blockstore.Store.ReadWrite.{write_data}
use blockstore.Store.Reserve.{InOneFile, IsLimit}
use blockstore.Store.Places.{file_of, local_of, place_bounds}
use blockstore.Store.Blocks.{resolve-IsReady}

-- A volume with new contents behind the name of a data file.
abbrev pub put_data : ℕ → File → Volume → Volume
put_data i f v = record v { disk = set_data (data_file_name i) f v.disk }

names_differ : (i j : ℕ) → bytes_eq (data_file_name i) (data_file_name j) ≡ false → (i == j) ≡ false
names_differ i j h = elim (Bool-cases (i == j)) [
  | inl e ↦
      let same : bytes_eq (data_file_name i) (data_file_name j) ≡ true =
        rw ((==_iff i j).0 e) (bytes_eq_refl (data_file_name j)) in
      cc
  | inr e ↦ e
]

pub data_file-put_data :
    (i j : ℕ) (f : File) (v : Volume)
    → IsU32 i
    → IsU32 j
    → data_file j (put_data i f v) ≡ (if i == j then f else data_file j v)
unfolding data_file
data_file-put_data i j f v hi hj =
    elim (Bool-cases (bytes_eq (data_file_name i) (data_file_name j))) [
      | inl same ↦
          let e : i ≡ j = data_file_name_injective i j hi hj (bytes_eq→eq _ _ same) in
          rw (find_node-put_file, same, e, ==_refl j) refl
      | inr apart ↦
          let e : (i == j) ≡ false = names_differ i j apart in
          rw (find_node-put_file, apart, e) refl
    ]

pub put_data-IsReady : (i : ℕ) (f : File) (v : Volume) → IsReady v → IsReady (put_data i f v)
put_data-IsReady i f v r = record {
  quiet = r.quiet;
  cache = r.cache;
  no_directory = λ j.
      no_directory-put_file (data_file_name i) (data_file_name j) f v.disk.data_dir
        (r.no_directory j);
}

pub sync_if_quiet :
    (mode : SyncMode) (s : Store) → IsQuiet s.volume.disk → sync_if mode s ≡ (ok tt, s)
sync_if_quiet async s q = refl
sync_if_quiet sync s q = rw (sync_all_quiet s.volume.disk q) refl

-- The payload behind the header, in the order of the writes.
abbrev pub landed_file : File → ℕ → List ℕ → BlockHeader → File
landed_file f local_offset compressed_block header =
    write_at (write_at f (local_offset + serialized_size) compressed_block) local_offset
      (serialize header)

-- Two writes to one file of a volume.
module _ (i at : ℕ) (bs : List ℕ) (header : BlockHeader) (u v : Volume) (same : SameFiles u v)
    (hi : IsU32 i) where
  f1 : File
  f1 = write_at (data_file i v) (at + serialized_size) bs

  two_writes :
      (j : ℕ)
      → IsU32 j
      → data_file j (
          put_data i
            (write_at (data_file i (put_data i f1 v)) at (serialize header))
            (put_data i f1 v))
        ≡ (if i == j then landed_file (data_file i u) at bs header else data_file j u)
  unfolding f1
  two_writes j hj =
      let first : data_file i (put_data i f1 v) ≡ f1 =
        data_file-put_data i i f1 v hi hi ∙ rw (==_refl i) refl in
      elim (Bool-cases (i == j)) [
        | inl e ↦
            rw (data_file-put_data i j _ (put_data i f1 v) hi hj, e, first, same.data_files i) refl
        | inr e ↦
            rw
              (
                data_file-put_data i j _ (put_data i f1 v) hi hj,
                e,
                data_file-put_data i j f1 v hi hj,
                e,
              )
              (same.data_files j)
      ]

module _ (s : Store) (offset : ℕ) (compressed_block : List ℕ) (header : BlockHeader) where
  -- On a disk that does not fail, with a cache in order and no directory under the name of a data
  -- file, `write_data` succeeds, and of the contents it changes one file, in which it puts the
  -- payload and the header at the place of the block. The block stands in one file with a u32
  -- index and ends below 2^64.
  pub write_data-IsReady :
      IsReady s.volume
      → IsLimit s.volume.files.max_data_file_size
      → InOneFile s.volume.files.max_data_file_size offset
          (length compressed_block + serialized_size)
      → offset + (length compressed_block + serialized_size) < 2 ^ 64
      → (w : Volume) × (write_data offset compressed_block header s
          ≡ (ok tt, record s { volume = w }))
        × IsReady w
        × (w.disk.index_file ≡ s.volume.disk.index_file)
        × (w.files.max_data_file_size ≡ s.volume.files.max_data_file_size)
        × ((j : ℕ)
            → IsU32 j
            → data_file j w ≡ (
                if file_of s.volume.files.max_data_file_size offset == j
                then landed_file
                    (data_file (file_of s.volume.files.max_data_file_size offset) s.volume)
                    (local_of s.volume.files.max_data_file_size offset)
                    compressed_block
                    header
                else data_file j s.volume))
  unfolding write_data data_file f1
  write_data-IsReady r l f b =
      let max = s.volume.files.max_data_file_size in
      let (handle, v, resolved, index, ready, same) = resolve-IsReady offset s.volume r in
      let (idx_fits, end_fits) =
        place_bounds max offset (length compressed_block + serialized_size) l f b in
      let i = file_of max offset in
      let at = local_of max offset in
      let no_wrap : wrapping_add at serialized_size ≡ at + serialized_size = omega arith in
      let f1 = write_at (data_file i v) (at + serialized_size) compressed_block in
      let v1 = put_data i f1 v in
      let f2 = write_at (data_file i v1) at (serialize header) in
      let v2 = put_data i f2 v1 in
      let ready1 = put_data-IsReady i f1 v ready in
      let ready2 = put_data-IsReady i f2 v1 ready1 in
      (
        v2,
        rw
            (
              resolved,
              index,
              no_wrap,
              data_write_all_at_quiet v.disk ready.quiet,
              data_write_all_at_quiet v1.disk ready1.quiet,
              sync_if_quiet s.sync_mode (record s { volume = v2 }) ready2.quiet,
            )
            refl,
        ready2,
        same.index_file,
        same.max_data_file_size,
        λ j hj. two_writes i at compressed_block header s.volume v same idx_fits j hj,
      )

written_back :
    (f : File) (offset : ℕ) (bs : List ℕ) (n : ℕ)
    → n ≡ length bs
    → bytes_from (write_at f offset bs).byte offset n ≡ bs
written_back f offset bs n e =
    rw (byte-write_at f offset bs, e) (bytes_from-patch_self f.byte offset bs)

-- The bytes of the landed block read back, and those of a block apart from it are as before.
module _ (f : File) (at : ℕ) (bs : List ℕ) (header : BlockHeader) where
  pub bytes-landed :
      bytes_from (landed_file f at bs header).byte at (serialized_size + length bs)
      ≡ serialize header ++ bs
  bytes-landed =
      let g = write_at f (at + serialized_size) bs in
      let head : bytes_from (landed_file f at bs header).byte at serialized_size
          ≡ serialize header =
        written_back g at (serialize header) serialized_size (sym (length-serialize header)) in
      let apart : bytes_from (landed_file f at bs header).byte (at + serialized_size) (length bs)
          ≡ bytes_from g.byte (at + serialized_size) (length bs) =
        rw (byte-write_at g at (serialize header)) (
          bytes_from-patch_apart g.byte at (serialize header) (at + serialized_size) (length bs)
            (inr (omega (arith, length-serialize header)))) in
      let tail = written_back f (at + serialized_size) bs (length bs) refl in
      bytes_from_add (landed_file f at bs header).byte at serialized_size (length bs)
      ∙ ap₂ ◌++◌ head (apart ∙ tail)

  pub size-landed :
      0 < length bs → at + (length bs + serialized_size) ≤ (landed_file f at bs header).size
  size-landed pos = omega (
    arith,
    size-write_at f (at + serialized_size) bs pos,
    size-write_at-le (write_at f (at + serialized_size) bs) at (serialize header),
  )

  pub read-landed_self :
      0 < length bs
      → read_exact_at (landed_file f at bs header) at (length bs + serialized_size)
        ≡ ok (serialize header ++ bs)
  read-landed_self pos =
      let e : length bs + serialized_size ≡ serialized_size + length bs = omega arith in
      read_exact_at_ok (landed_file f at bs header) at (length bs + serialized_size)
        (size-landed pos)
      ∙ ap ok (ap (bytes_from (landed_file f at bs header).byte at) e ∙ bytes-landed)

  pub size-landed-le : f.size ≤ (landed_file f at bs header).size
  size-landed-le = omega (
    arith,
    size-write_at-le f (at + serialized_size) bs,
    size-write_at-le (write_at f (at + serialized_size) bs) at (serialize header),
  )

  pub read-landed_apart :
      (other n : ℕ)
      → other + n ≤ f.size
      → (other + n ≤ at) ⊎ (at + (length bs + serialized_size) ≤ other)
      → read_exact_at (landed_file f at bs header) other n ≡ read_exact_at f other n
  read-landed_apart other n fits apart =
      let g = write_at f (at + serialized_size) bs in
      read_exact_at-write_at_apart g at (serialize header) other n
        (omega (arith, size-write_at-le f (at + serialized_size) bs))
        (omega (arith, length-serialize header))
      ∙ read_exact_at-write_at_apart f (at + serialized_size) bs other n fits (omega arith)
