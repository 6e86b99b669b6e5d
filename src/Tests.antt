-- ===== src/Tests.antt =====
-- Concrete stores on which the code runs and the theorems are applied.
mod Sets
mod Stores
mod Caches
mod Openings
mod Crashes
mod Restarts
mod Tools
mod Parts
mod Durability
use blockstore.Prelude.{
  ℕ, ◌%◌, ◌^◌, ◌≡◌, ◌≢◌, refl, List, [], ◌∷◌, Option, some, ok, true, length, elem, arith, lookup,
  distinct,
}
use blockstore.Disk.{Disk}
use blockstore.Disk.Dir.{find_node}
use blockstore.Disk.Files.{File, IsFile, empty_file}
use blockstore.Format.{IndexFileHeader}
use blockstore.FileSet.{Handle, Inner, FileSet, Volume}
use blockstore.FileSet.Cache.{IsValid}
use blockstore.FileSet.Opening.{IsReady}
use blockstore.Store.{Codec, IsCodec, Store, async}
use native.Mathlib.Nat.{mod-lt}

-- Blocks are kept as they are.
abbrev pub codec : Codec
codec = record {
  compress = λ block. block;
  decompress = λ frame. ok frame;
  xxh64 = λ block. length block % 2 ^ 64;
}

pub codec-IsCodec : IsCodec codec
codec-IsCodec = record {
  decompress-compress = λ block. refl;
  compress_nonempty = λ block h. h;
  xxh64-IsU64 = λ block. mod-lt (length block) (omega arith);
}

abbrev pub handle : ℕ → Handle
handle i = record { id = i; index = i }

-- A full cache of two handles; file 3 was used last.
abbrev pub two_handles : Inner
two_handles = record {
  capacity = 2;
  order = 5 ∷ 3 ∷ [];
  handles = (3, handle 3) ∷ (5, handle 5) ∷ [];
}

abbrev pub no_handles : Inner
no_handles = record { capacity = 2; order = []; handles = [] }

pub no_handles-IsValid : IsValid no_handles
unfolding distinct lookup elem
no_handles-IsValid = record {
  positive = omega arith;
  order_distinct = refl;
  keys_distinct = refl;
  same = λ k. refl;
  count = refl;
  bounded = omega arith;
  own_file = λ k h e. cc;
}

-- No files yet, and data files of 100 bytes.
abbrev pub fresh_disk : Disk
fresh_disk = record { index_exists = true; index_file = empty_file; data_dir = []; outcomes = [] }

abbrev pub fresh_volume : Volume
fresh_volume = record {
  disk = fresh_disk;
  files = record { max_data_file_size = some 100; inner = no_handles };
  next_handle = 0;
}

pub fresh_volume-IsReady : IsReady fresh_volume
unfolding find_node
fresh_volume-IsReady = record { quiet = refl; cache = no_handles-IsValid; no_directory = λ i e. cc }

pub empty_file-IsFile : IsFile empty_file
empty_file-IsFile = record { zero_past = λ i h. refl; bytes = λ i. omega arith }

abbrev pub header : IndexFileHeader
header = record {
  version = 1;
  max_data_file_size = 100;
  min_height = 1;
  max_height = 0;
  next_write_offset = 0;
  highest_contiguous_block_height = 0;
  reserved = 0 ∷ 0 ∷ 0 ∷ 0 ∷ 0 ∷ 0 ∷ 0 ∷ 0 ∷ 0 ∷ 0 ∷ 0 ∷ 0 ∷ 0 ∷ 0 ∷ 0 ∷ 0 ∷ [];
}

abbrev pub fresh : Store
fresh = record {
  volume = fresh_volume;
  data_highwater = 0;
  header = header;
  sync_mode = async;
  max_contiguous_height = 0;
  height_highwater = 0;
  last_checkpoint_offset = 0;
  recovered = true;
}
