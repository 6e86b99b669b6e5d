-- ===== src/Store/Recovery/Stored.antt =====
-- What stays of the stored blocks while the recovery of blockstore/src/store.rs opens files and
-- writes the index.
use blockstore.Prelude.{
  ℕ, ◌+◌, ◌≤◌, ◌≡◌, refl, sym, ◌∙◌, ap, List, ◌++◌, ok, arith, length, take, drop, take-append_left,
  drop-append_left,
}
use blockstore.Disk.{set_index}
use blockstore.Disk.Files.{File, bytes_from, length-bytes_from, bytes_from_add, read_exact_at_ok}
use blockstore.Format.{IndexEntry, serialized_size}
use blockstore.FileSet.{Volume}
use blockstore.FileSet.Opening.{data_file, SameFiles}
use blockstore.Store.{Codec, Store}
use blockstore.Store.Places.{local_of}
use blockstore.Store.Blocks.{Holds}
use blockstore.Store.Recovery.Chain.{SameData, IsStored}
use blockstore.Store.Recovery.Indexing.{recovered_entry}

pub SameData-trans : (u v w : Volume) → SameData u v → SameData v w → SameData u w
SameData-trans u v w a b = record {
  max_data_file_size = b.max_data_file_size ∙ a.max_data_file_size;
  data_files = λ i. b.data_files i ∙ a.data_files i;
}

-- A volume with the data of another and a new index.
pub SameData-index :
    (u v : Volume) (g : File) → SameFiles u v → SameData u (record v { disk = set_index g v.disk })
unfolding data_file
SameData-index u v g same = record {
  max_data_file_size = same.max_data_file_size;
  data_files = same.data_files;
}

pub SameData-Holds :
    (c : Codec) (s t : Store)
    → SameData s.volume t.volume
    → s.data_highwater ≤ t.data_highwater
    → (entry : IndexEntry) (block : List ℕ) → Holds c s entry block
    → Holds c t entry block
unfolding local_of data_file
SameData-Holds c s t same le entry block h = record {
  height = h.height;
  height_fits = h.height_fits;
  size = h.size;
  positive = h.positive;
  small = h.small;
  below = omega (arith, h.below);
  one_file = rw same.max_data_file_size h.one_file;
  inside = rw (same.max_data_file_size, same.data_files) h.inside;
  bytes = rw (same.max_data_file_size, same.data_files) h.bytes;
}

-- What the entry of a stored block names.
pub IsStored-Holds :
    (c : Codec) (v : Volume) (files : List (ℕ × ℕ)) (lo at height : ℕ) (block : List ℕ) (t : Store)
    → IsStored c v files lo at height block
    → SameData v t.volume
    → at + (length (c.compress block) + serialized_size) ≤ t.data_highwater
    → Holds c t (recovered_entry at (length (c.compress block))) block
unfolding local_of data_file
IsStored-Holds c v files lo at height block t st same below = record {
  height = height;
  height_fits = st.height_fits;
  size = refl;
  positive = st.positive;
  small = st.small;
  below = below;
  one_file = rw same.max_data_file_size st.one_file;
  inside = rw (same.max_data_file_size, same.data_files) st.inside;
  bytes =
      rw (same.max_data_file_size, same.data_files)
        (read_exact_at_ok _ _ _ st.inside ∙ ap ok st.bytes);
}

-- The parts of the bytes of a block.
pub parts :
    (f : ℕ → ℕ) (at n m : ℕ) (xs ys : List ℕ)
    → length xs ≡ n
    → bytes_from f at (m + n) ≡ xs ++ ys
    → (bytes_from f at n ≡ xs) × (bytes_from f (at + n) m ≡ ys)
parts f at n m xs ys size e =
    let whole : m + n ≡ n + m = omega arith in
    let split : bytes_from f at n ++ bytes_from f (at + n) m ≡ xs ++ ys =
      sym (bytes_from_add f at n m) ∙ ap (bytes_from f at) (sym whole) ∙ e in
    let front = sym (length-bytes_from f at n) in
    (
      sym (take-append_left (bytes_from f at n) (bytes_from f (at + n) m) n front)
          ∙ ap (take n) split
          ∙ take-append_left xs ys n (sym size),
      sym (drop-append_left (bytes_from f at n) (bytes_from f (at + n) m) n front)
          ∙ ap (drop n) split
          ∙ drop-append_left xs ys n (sym size),
    )
