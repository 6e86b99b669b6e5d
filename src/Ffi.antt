-- ===== src/Ffi.antt =====
-- The C interface of blockstore-ffi/src/lib.rs and value/results.rs: the handle, the results and
-- the calls on a handle. A handle behind a pointer is an `Option`, with none for null.
use blockstore.Prelude.{
  ℕ, ◌≡◌, refl, Bool, List, Option, none, some, Result, ok, err, panic, Error, M, ◌==◌,
  if◌then◌else◌,
}
use blockstore.Disk.{Disk}
use blockstore.Store.{Codec, IsCodec, Store, SyncMode, index_entry_offset}
use blockstore.Store.ReadWrite.{read_block, write_block}
use blockstore.Store.Lifecycle.{StoreOptions, default_options, open_store}
use blockstore.Store.Refines.{Represents, read_block_lookup}
use blockstore.Cached.{
  BlockCache, IsBlockCache, CachedStore, IsCoherent, read_cached, write_cached, read_cached_lookup,
}

-- What a message tells: an error, or a panic that was caught.
pub data Message : Type 0 where
  error : Error → Message
  caught_panic : Message

pub data VoidResult : Type 0 where
  null_handle_pointer : VoidResult
  done : VoidResult
  failed : Message → VoidResult

pub data BlockResult : Type 0 where
  null_handle_pointer : BlockResult
  not_found : BlockResult
  found : List ℕ → BlockResult
  failed : Message → BlockResult

-- The conversions of value/results.rs.
abbrev pub void_result : Result (Unit {0}) → VoidResult
void_result (ok u) = VoidResult.done
void_result (err e) = VoidResult.failed (Message.error e)
void_result panic = VoidResult.failed Message.caught_panic

abbrev pub block_of : Option (List ℕ) → BlockResult
block_of none = BlockResult.not_found
block_of (some block) = BlockResult.found block

abbrev pub block_result : Result (Option (List ℕ)) → BlockResult
block_result (ok block) = block_of block
block_result (err e) = BlockResult.failed (Message.error e)
block_result panic = BlockResult.failed Message.caught_panic

-- `Store(Inner)`.
pub data Handle (C : Type 0) : Type 0 where
  uncached : Store → Handle C
  cached : CachedStore C → Handle C

-- `StoreArgs`, without the path.
pub record StoreArgs : Type 0 where
  pub cache_size : ℕ
  pub max_data_file_size : ℕ
  pub minimum_height : ℕ
  pub max_data_files : ℕ
  pub truncate : Bool
  pub sync : SyncMode

-- `NonZeroU64::new`.
abbrev pub nonzero : ℕ → Option ℕ
nonzero n = if n == 0 then none else some n

-- The options of `bs_open_store`.
unfoldable pub options_of : StoreArgs → StoreOptions
options_of args = record {
  truncate = args.truncate;
  sync = args.sync;
  minimum_height = args.minimum_height;
  max_data_file_size = nonzero args.max_data_file_size;
  max_data_files =
      if args.max_data_files == 0 then default_options.max_data_files else args.max_data_files;
}

module _ {C : Type 0} (c : Codec) (k : BlockCache C) where
  -- `forward!` on `read_block` and `write_block`.
  unfoldable pub forward_read : ℕ → M (Handle C) (Option (List ℕ))
  forward_read height (Handle.uncached s) =
      let (r, t) = read_block c height s in (r, Handle.uncached t)
  forward_read height (Handle.cached s) =
      let (r, t) = read_cached c k height s in (r, Handle.cached t)

  unfoldable pub forward_write : ℕ → List ℕ → M (Handle C) (Unit {0})
  forward_write height block (Handle.uncached s) =
      let (r, t) = write_block c height block s in (r, Handle.uncached t)
  forward_write height block (Handle.cached s) =
      let (r, t) = write_cached c k height block s in (r, Handle.cached t)

  -- `bs_read_block` and `bs_write_block`.
  unfoldable pub bs_read_block : ℕ → Option (Handle C) → BlockResult × Option (Handle C)
  bs_read_block height none = (BlockResult.null_handle_pointer, none)
  bs_read_block height (some s) = let (r, t) = forward_read height s in (block_result r, some t)

  unfoldable pub bs_write_block : ℕ → List ℕ → Option (Handle C) → VoidResult × Option (Handle C)
  bs_write_block height block none = (VoidResult.null_handle_pointer, none)
  bs_write_block height block (some s) =
      let (r, t) = forward_write height block s in (void_result r, some t)

  -- `bs_open_store`: a cache of the given size, or none for 0.
  unfoldable pub bs_open_store : (ℕ → C) → StoreArgs → M Disk (Handle C)
  bs_open_store new_cache args d =
      let (r, e) = open_store c (options_of args) d in
      elim r [
        | ok s ↦ elim (nonzero args.cache_size) [
          | none ↦ (ok (Handle.uncached s), e)
          | some n ↦ (ok (Handle.cached (record { inner = s; cache = new_cache n })), e)
        ]
        | err x ↦ (err x, e)
        | panic ↦ (panic, e)
      ]

  abbrev pub inner_store : Handle C → Store
  inner_store (Handle.uncached s) = s
  inner_store (Handle.cached s) = s.inner

  -- The heights of `bs_max_contiguous_height`, `bs_height_highwater` and `bs_min_block_height`.
  abbrev pub height_or_zero : (Store → ℕ) → Option (Handle C) → ℕ
  height_or_zero f none = 0
  height_or_zero f (some s) = f (inner_store s)

  -- A handle of either kind that holds the blocks of the map.
  abbrev pub Shows : Handle C → (ℕ → Option (List ℕ)) → Type 0
  Shows (Handle.uncached s) blocks = Represents c s blocks
  Shows (Handle.cached s) blocks = IsCoherent c k s blocks

  -- `bs_read_block` on a handle of either kind gives the block that the map has at the height, or
  -- says that there is none, and the handle still shows the map. The height has an entry, the
  -- store of the handle is sound, its cache holds blocks of the map only, and the crates do as
  -- they say.
  pub bs_read_block_lookup :
      (s : Handle C) (blocks : ℕ → Option (List ℕ)) (height offset : ℕ)
      → IsCodec c
      → IsBlockCache C k
      → Shows s blocks
      → index_entry_offset (inner_store s).header.min_height height ≡ some offset
      → (t : Handle C) × (bs_read_block height (some s) ≡ (block_of (blocks height), some t))
        × Shows t blocks
  unfolding bs_read_block forward_read
  bs_read_block_lookup (Handle.uncached s) blocks height offset codec law r at =
      let (t, read, still) = read_block_lookup c s blocks height offset codec r at in
      (Handle.uncached t, rw read refl, still)
  bs_read_block_lookup (Handle.cached s) blocks height offset codec law r at =
      let (t, read, still) = read_cached_lookup c k law codec s blocks r height offset at in
      (Handle.cached t, rw read refl, still)
