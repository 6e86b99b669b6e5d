-- ===== src/Cli/CopyCommand.antt =====
-- The command `Copy` of blockstore-cli/src/main.rs, from the disk of an earlier store to a new store.
use blockstore.Prelude.{
  u64_max, ℕ, ◌+◌, ◌-◌, ◌*◌, ◌%◌, ◌≤◌, ◌<◌, ◌^◌, ◌≡◌, refl, ◌∙◌, List, Option, none, ok, arith,
  length, All, unwrap_or, some, ap, false, true,
}
use blockstore.Disk.{Disk, IsQuiet}
use blockstore.Format.{entry_size, IndexFileHeader}
use blockstore.FileSet.Layout.{list_on_disk, validate_layout}
use blockstore.Store.{Codec, IsCodec, Store, async}
use blockstore.Store.Refines.{Represents}
use blockstore.Store.Recovery.Chain.{at_scan, replay, Chain, RepresentsBut}
use blockstore.Store.Recovery.Recovers.{top}
use blockstore.Store.Lifecycle.{
  StoreOptions, default_options, unrecovered, effective_max, new_store, close,
}
use blockstore.Store.Reopen.Opening.{HasHeader, keeping, open_store-replay}
use blockstore.Store.Removal.{HasNoDirectory}
use blockstore.Store.Creation.{open_store-IsNew}
use blockstore.Cli.{suc, copy_loop, false, true, copy_command}
use blockstore.Cli.Copying.{IsRunOf, IsWritable, total, put_all, copy_loop_run}

-- The options of the new store.
abbrev target_options : ℕ → StoreOptions
target_options first = record default_options {
  truncate = true;
  sync = async;
  minimum_height = first;
}

no_limit : effective_max u64_max ≡ none
unfolding effective_max
no_limit = refl

-- What a copy takes: the run of blocks from a height on, which `write_block` takes and for which
-- there are places and room.
pub record IsCopied (c : Codec) (min_height first : ℕ) (blocks : ℕ → Option (List ℕ))
    (run : List (List ℕ)) : Type 0 where
  pub run_of : IsRunOf blocks first run
  pub writable : All (IsWritable c) run
  pub low : min_height ≤ first
  pub places : 64 + 16 * (first + length run - min_height) < 2 ^ 64
  pub heights : first + length run < 2 ^ 64
  pub room : total c run < 2 ^ 64

-- The parts of the command.
copy_steps :
    (c : Codec) (start_block : Option ℕ) (d d' e e' : Disk) (m n : ℕ) (s t s' t' : Store)
    → new_store c false async 1 d ≡ (ok s, d')
    → s.header.min_height ≡ m
    → new_store c true async (unwrap_or start_block m) e ≡ (ok t, e')
    → copy_loop c (suc s.volume.disk.index_file.size) (unwrap_or start_block m) (s, t)
      ≡ (ok n, (s', t'))
    → copy_command c start_block (d, e) ≡ (ok n, (close s', close t'))
unfolding copy_command
copy_steps c none d d' e e' m n s t s' t' opened lowest created copy =
    let created' = ap (λ h. new_store c true async h e) lowest ∙ created in
    let copy' = ap (λ h. copy_loop c (suc s.volume.disk.index_file.size) h (s, t)) lowest ∙ copy in
    rw (opened, created', copy') refl
copy_steps c (some first) d d' e e' m n s t s' t' opened lowest created copy =
    rw (opened, created, copy) refl

-- `Copy` ends, and the new store holds the run of blocks that the disk of the earlier store has from
-- the first height on, up to the first missing block, and no other blocks, when it is dropped. The
-- first height is the one asked for or else the first of the earlier store. On the first disk the
-- index header is there; the data files are numbered without a gap and do not end before the last
-- checkpoint; the index file is of whole entries and its heights are far from 2^64; at the
-- checkpoint the store, but for the heights of the blocks that follow, held the blocks of the map
-- and was sound, which includes that the disk does not fail. The second disk does not fail and has
-- no directory under the name of a data file; `write_block` takes the blocks of the run, which
-- have places and room; and the crates do as they say.
pub copy_command_run :
    (c : Codec) (start_block : Option ℕ) (d e : Disk) (header : IndexFileHeader)
    (blocks : ℕ → Option (List ℕ)) (data_files : List (ℕ × ℕ)) (end : ℕ) (chain : List (ℕ × List ℕ))
    (run : List (List ℕ))
    → IsCodec c
    → HasHeader d header
    → list_on_disk d ≡ (ok data_files, d)
    → validate_layout (effective_max header.max_data_file_size) data_files ≡ ok end
    → header.next_write_offset ≤ end
    → Chain c
        (unrecovered (keeping default_options) header d).volume
        data_files
        header.min_height
        end
        header.next_write_offset
        chain
    → RepresentsBut c chain (at_scan (unrecovered (keeping default_options) header d)) blocks
    → d.index_file.size % entry_size ≡ 0
    → 64 + 16 * (top header.max_height chain + 1 - header.min_height) < 2 ^ 64
    → top header.max_height chain + 1 < 2 ^ 64
    → IsQuiet e
    → HasNoDirectory e
    → IsCopied c header.min_height
        (unwrap_or start_block header.min_height)
        (replay blocks chain)
        run
    → (s : Store) × (t : Store) × (copy_command c start_block (d, e)
        ≡ (ok (unwrap_or start_block header.min_height + length run), (close s, close t)))
      × Represents c s (replay blocks chain)
      × Represents c t (put_all (λ h. none) (unwrap_or start_block header.min_height) run)
unfolding new_store unrecovered
copy_command_run c start_block d e header blocks data_files end chain run kd h listed valid behind
      found r aligned fits top_fits q no_directory copied =
    let first = unwrap_or start_block header.min_height in
    let (s, opened, source, high, is) =
      open_store-replay c default_options d header blocks data_files end chain kd (omega arith) h
        listed valid behind found r aligned fits top_fits in
    let (t, created, new, target) =
      open_store-IsNew c (target_options first) e refl (omega arith) tt q no_directory in
    let (s', t', copy, source', target') =
      copy_loop_run c (replay blocks chain) (λ h. none) first run s t kd source
        (record {
          low = omega (arith, is.min_height, copied.low);
          places = omega (arith, is.min_height, copied.places);
        })
        copied.run_of target
        (record {
          single = new.limit ∙ no_limit;
          low = omega (arith, new.min_height);
          places = omega (arith, new.min_height, copied.low, copied.places);
          heights = copied.heights;
          room = omega (arith, new.highwater, copied.room);
          writable = copied.writable;
        }) in
    (
      s',
      t',
      copy_steps c start_block d s.volume.disk e t.volume.disk header.min_height
          (first + length run) s t s' t' opened is.min_height created copy,
      source',
      target',
    )
