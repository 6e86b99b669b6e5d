-- ===== src/Store/Lifecycle.antt =====
-- Opening and closing a store: `StoreOptions`, `open`, `recover`, `scan_contiguous_floor`,
-- `remove_existing_data_files` and `Drop` of blockstore/src/store.rs.
use blockstore.Prelude.{
  ℕ, suc, zero, ◌+◌, ◌-◌, ◌*◌, ◌/◌, ◌%◌, Bool, true, false, not, List, [], ◌∷◌, Option, none, some,
  M, Result, ok, err, panic, Error, ◌>>=◌, ◌>>◌, pure, fail, get, modify, lift, ok_or, and_then,
  if◌then◌else◌, ltb, leb, ◌==◌, length, take, drop, min, max, u64_max, unwrap_or, ◌||◌, ◌^◌,
  checked_add, checked_mul, checked_sub, is_some, bytes_eq,
}
use blockstore.Disk.{
  Disk, next_outcome, answer, system_call, index_read_at, index_write_all_at, try_lock, set_index,
}
use blockstore.Disk.Dir.{DirEntry, file, directory}
use blockstore.Disk.Files.{empty_file}
use blockstore.Format.{
  entry_size, entry_of_bytes, header_size, IndexFileHeader, default_header,
  with_lowest_block_height, header_bytes, header_of_bytes, overlay,
}
use blockstore.FileSet
use blockstore.FileSet.{FileSet, on_disk}
use blockstore.FileSet.Names.{parse_data_file_index}
use blockstore.FileSet.Layout.{list_on_disk, validate_layout}
use blockstore.Store.{Codec, Store, SyncMode, async, sync_if, on_volume, is_gap, checkpoint}
use blockstore.Store.Recovery.{recover_unindexed_blocks}

-- The entries of a chunk: the last height present, and whether the scan ends there.
unfoldable pub scan_entries : ℕ → ℕ → ℕ → List ℕ → ℕ → Result (Bool × ℕ)
scan_entries upper_bound height last_present bytes zero = ok (false, last_present)
scan_entries upper_bound height last_present bytes (suc n) =
    let rest = scan_entries upper_bound (height + 1) height (drop entry_size bytes) n in
    if not (ltb height (2 ^ 64))
    then err Error.index_offset_overflow
    else if ltb upper_bound height
    then ok (true, last_present)
    else if is_gap (entry_of_bytes (take entry_size bytes))
    then ok (true, last_present)
    else rest

abbrev pub chunk_entries : ℕ
chunk_entries = 4096

unfoldable pub chunk_offset : ℕ → ℕ → Result ℕ
chunk_offset min_height height_cursor =
    ok_or
      (and_then (checked_sub height_cursor min_height)
        λ relative. and_then (checked_mul relative entry_size) λ o. checked_add o header_size)
      Error.index_offset_overflow

-- The loop of `scan_contiguous_floor`. A round that goes on has read a full chunk, so the size of the
-- index file is fuel enough.
unfoldable pub floor_loop : ℕ → ℕ → ℕ → ℕ → ℕ → M Store ℕ
floor_loop zero min_height upper_bound height_cursor last_present = pure last_present
floor_loop (suc fuel) min_height upper_bound height_cursor last_present = do
  file_offset ← lift (chunk_offset min_height height_cursor)
  bytes ← on_volume (on_disk (index_read_at file_offset (chunk_entries * entry_size)))
  let n = length bytes
  let entries_read = n / entry_size
  if not (n % entry_size == 0) then fail Error.partial_index_entry else pure tt
  (ends, present) ← lift (scan_entries upper_bound height_cursor last_present bytes entries_read)
  let next = height_cursor + entries_read
  let rest = floor_loop fuel min_height upper_bound next present
  if n == 0 || ends
      then pure present
      else if not (ltb next (2 ^ 64))
      then fail Error.index_offset_overflow
      else if ltb entries_read chunk_entries
      then pure present
      else rest

-- `scan_contiguous_floor`.
unfoldable pub scan_contiguous_floor : ℕ → M Store ℕ
scan_contiguous_floor resume_floor s =
    let min_height = s.header.min_height in
    let upper_bound = s.height_highwater in
    let floor_if_empty = min_height - 1 in
    let start_floor = min (max resume_floor floor_if_empty) upper_bound in
    (if ltb upper_bound min_height
        then pure floor_if_empty
        else if leb upper_bound start_floor
        then pure start_floor
        else if not (ltb (start_floor + 1) (2 ^ 64))
        then fail Error.index_offset_overflow
        else floor_loop (suc s.volume.disk.index_file.size) min_height upper_bound (start_floor + 1)
            start_floor)
      s

-- `recover`.
unfoldable pub recover : Codec → M Store (Unit {0})
recover c s =
    (do
      data_files ← on_volume (on_disk list_on_disk)
      calculated ← lift (validate_layout s.volume.files.max_data_file_size data_files)
      if ltb calculated s.header.next_write_offset then fail Error.header_past_data else pure tt
      modify (λ t. record t { height_highwater = t.header.max_height })
      if ltb s.header.next_write_offset calculated
          then recover_unindexed_blocks c calculated data_files
          else pure tt
      t ← get
      contiguous_floor ← scan_contiguous_floor t.header.highest_contiguous_block_height
      modify (λ u. record u {
        max_contiguous_height = contiguous_floor;
        data_highwater = u.header.next_write_offset;
        recovered = true;
      }))
      s

-- `StoreOptions`, without the size of a cache that the store does not read.
pub record StoreOptions : Type 0 where
  pub truncate : Bool
  pub sync : SyncMode
  pub minimum_height : ℕ
  pub max_data_file_size : Option ℕ
  pub max_data_files : ℕ

-- The default of `StoreOptions`.
abbrev pub default_options : StoreOptions
default_options = record {
  truncate = false;
  sync = async;
  minimum_height = 1;
  max_data_file_size = none;
  max_data_files = 10;
}

-- `OpenOptions::open` on the index file: a missing file is made, and an old one is cut to nothing,
-- if the options say so.
unfoldable pub open_index : Bool → M Disk (Unit {0})
open_index truncate = do
  o ← next_outcome
  lift (answer o (ok tt))
  d ← get
  if truncate
      then modify (λ e. record (set_index empty_file e) { index_exists = true })
      else if d.index_exists
      then pure tt
      else fail Error.io

-- `fs::remove_file`.
abbrev pub without : List ℕ → List DirEntry → List DirEntry
without name [] = []
without name (e ∷ es) = if bytes_eq name e.name then without name es else e ∷ without name es

abbrev pub remove_file : List ℕ → M Disk (Unit {0})
remove_file name = do system_call; modify (λ d. record d { data_dir = without name d.data_dir })

-- The loop of `remove_existing_data_files`.
unfoldable pub remove_entries : List DirEntry → M Disk (Unit {0})
remove_entries [] = pure tt
remove_entries (e ∷ es) = do
  system_call
  system_call
  elim e.node [
    | directory ↦ pure tt
    | file f ↦ if is_some (parse_data_file_index e.name) then remove_file e.name else pure tt
  ]
  remove_entries es

-- `remove_existing_data_files`.
unfoldable pub remove_existing_data_files : M Disk (Unit {0})
remove_existing_data_files = do system_call; d ← get; remove_entries d.data_dir

-- The header that `open` writes to a new store, or reads.
unfoldable pub fresh_header : StoreOptions → IndexFileHeader
fresh_header options = record (with_lowest_block_height default_header options.minimum_height) {
  max_data_file_size = unwrap_or options.max_data_file_size u64_max;
}

unfoldable pub open_header : StoreOptions → M Disk IndexFileHeader
open_header options =
    if options.truncate
    then index_write_all_at 0 (header_bytes (fresh_header options)) >> pure (fresh_header options)
    else index_read_at 0 header_size >>= λ bytes.
        pure (header_of_bytes (overlay bytes (header_bytes default_header)))

unfoldable pub effective_max : ℕ → Option ℕ
effective_max max_data_file_size =
    if max_data_file_size == u64_max || max_data_file_size == 0
    then none
    else some max_data_file_size

-- The store before recovery.
unfoldable pub unrecovered : StoreOptions → IndexFileHeader → Disk → Store
unrecovered options header d = record {
  volume = record {
    disk = d;
    files = FileSet.new (effective_max header.max_data_file_size) options.max_data_files;
    next_handle = 0;
  };
  data_highwater = header.next_write_offset;
  header = header;
  sync_mode = options.sync;
  max_contiguous_height = options.minimum_height - 1;
  height_highwater = options.minimum_height - 1;
  last_checkpoint_offset = header.next_write_offset;
  recovered = options.truncate;
}

-- `Drop`: the results of the sync and of the checkpoint are ignored.
unfoldable pub close : Store → Disk
close s =
    let t = (sync_if s.sync_mode s).1 in
    if s.recovered then (checkpoint t.data_highwater t).1.volume.disk else t.volume.disk

-- A store whose recovery failed is dropped.
unfoldable pub recovered_or_closed : Result (Unit {0}) × Store → Result Store × Disk
recovered_or_closed (ok u, s) = (ok s, s.volume.disk)
recovered_or_closed (err e, s) = (err e, close s)
recovered_or_closed (panic, s) = (panic, close s)

-- `Store::open`.
unfoldable pub open_store : Codec → StoreOptions → M Disk Store
open_store c options = if options.max_data_files == 0 then fail Error.max_data_files_is_zero else do
  open_index options.truncate
  try_lock
  if options.truncate then remove_existing_data_files else pure tt
  header ← open_header options
  d ← get
  let s = unrecovered options header d
  if options.truncate then pure s else (λ e. recovered_or_closed (recover c s))

-- `Store::new`.
unfoldable pub new_store : Codec → Bool → SyncMode → ℕ → M Disk Store
new_store c truncate mode minimum_height =
    open_store c
      (record default_options { truncate = truncate; sync = mode; minimum_height = minimum_height })
