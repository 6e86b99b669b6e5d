-- ===== src/Store/Reopen.antt =====
-- `recover` and `open` of blockstore/src/store.rs on the disk of an earlier store: the store that
-- comes back holds the blocks of the last checkpoint and those that follow it in the data files.
pub mod Opening
pub mod RoundTrip
use blockstore.Prelude.{
  ℕ, ◌+◌, ◌-◌, ◌*◌, ◌%◌, ◌≤◌, ◌<◌, ◌^◌, min, max, ◌≡◌, refl, sym, ◌∙◌, ap, inl, inr, true, false,
  List, [], ◌∷◌, Option, ok, arith, ltb, Bool-cases, if◌then◌else◌, elem, keys, some, pure,
}
use blockstore.Disk.{Disk, IsQuiet}
use blockstore.Disk.Files.{File, read_at, bytes_from}
use blockstore.Disk.Calls.{index_read_at_quiet, try_lock_quiet}
use blockstore.Format.{
  entry_size, header_size, IndexFileHeader, default_header, header_bytes, overlay,
}
use blockstore.Format.RoundTrip.{IsHeader, length-header_bytes, header_of_bytes-header_bytes}
use blockstore.FileSet.{Volume}
use blockstore.FileSet.Opening.{data_file}
use blockstore.FileSet.Layout.{list_on_disk, validate_layout}
use blockstore.Store.{Codec, IsCodec, Store, index_entry_offset}
use blockstore.Store.Entries.{entry_at}
use blockstore.Store.Refines.{Represents}
use blockstore.Store.Recovery.{Scan, recover_unindexed_blocks}
use blockstore.Store.Recovery.Chain.{SameData, at_scan, replay, Chain, RepresentsBut}
use blockstore.Store.Recovery.Stored.{SameData-Holds}
use blockstore.Store.Recovery.Replay.{IsScanning, IsAlong}
use blockstore.Store.Recovery.Recovers.{
  top, scan_of, recover_unindexed_blocks_lem, recover_unindexed_blocks_done,
}
use blockstore.Store.Floor.{IsFloorFrom}
use blockstore.Store.Floor.Rounds.{scan_contiguous_floor_lem}
use blockstore.Store.Lifecycle.{
  scan_contiguous_floor, recover, StoreOptions, open_header, open_index, open_store, unrecovered,
}

-- What recovery leaves: the entries of the heights whose blocks it did not find, and the height
-- below which no block is missing, counted on from the saved one.
pub record IsRecovered (chain : List (ℕ × List ℕ)) (before after : Store) : Type 0 where
  pub recovered : after.recovered ≡ true
  pub highwater : after.data_highwater ≡ after.header.next_write_offset
  pub min_height : after.header.min_height ≡ before.header.min_height
  pub kept :
      (h o : ℕ)
      → elem h (keys chain) ≡ false
      → index_entry_offset before.header.min_height h ≡ some o
      → entry_at after.volume.disk.index_file o ≡ entry_at before.volume.disk.index_file o
  pub contiguous :
      IsFloorFrom after.volume.disk.index_file before.header.min_height after.height_highwater
        before.header.highest_contiguous_block_height after.max_contiguous_height

-- The store that recovery starts from, and the one that it returns.
abbrev raised : Store → Store
raised s = record s { height_highwater = s.header.max_height }

abbrev ready : ℕ → Store → Store
ready m s = record s {
  max_contiguous_height = m;
  data_highwater = s.header.next_write_offset;
  recovered = true;
}

pub SameData-refl : (v : Volume) → SameData v v
SameData-refl v = record { max_data_file_size = refl; data_files = λ i. refl }

ready-Represents :
    (c : Codec) (m : ℕ) (t : Store) (blocks : ℕ → Option (List ℕ))
    → RepresentsBut c [] (at_scan t) blocks
    → Represents c (ready m t) blocks
unfolding elem
ready-Represents c m t blocks r = record {
  sound = record {
    ready = r.sound.ready;
    index = r.sound.index;
    limit = r.sound.limit;
    in_files = r.sound.in_files;
    reserved = r.sound.reserved;
    reserved_size = r.sound.reserved_size;
  };
  absent = λ h o. r.absent h o refl;
  held = λ h o b e here.
      SameData-Holds c (at_scan t) (ready m t) (SameData-refl t.volume) (omega arith) _ b
        (r.held h o b refl e here);
}

ready-IsRecovered :
    (chain : List (ℕ × List ℕ)) (s t : Store) (m first resume : ℕ)
    → t.header.min_height ≡ s.header.min_height
    → t.header.highest_contiguous_block_height ≡ s.header.highest_contiguous_block_height
    → ((h o : ℕ)
        → elem h (keys chain) ≡ false
        → index_entry_offset s.header.min_height h ≡ some o
        → entry_at t.volume.disk.index_file o ≡ entry_at s.volume.disk.index_file o)
    → first ≡ t.header.min_height
    → resume ≡ t.header.highest_contiguous_block_height
    → IsFloorFrom t.volume.disk.index_file first t.height_highwater resume m
    → IsRecovered chain s (ready m t)
ready-IsRecovered chain s t m first resume lo at kept e d contiguous =
    let e' : first ≡ s.header.min_height = e ∙ lo in
    let d' : resume ≡ s.header.highest_contiguous_block_height = d ∙ at in
    record {
      recovered = refl;
      highwater = refl;
      min_height = lo;
      kept = kept;
      contiguous = rw (← e', ← d') contiguous;
    }

module _ (c : Codec) (s : Store) (blocks : ℕ → Option (List ℕ)) (data_files : List (ℕ × ℕ))
    (end : ℕ) (chain : List (ℕ × List ℕ)) (kd : IsCodec c)
    (listed : list_on_disk s.volume.disk ≡ (ok data_files, s.volume.disk))
    (valid : validate_layout s.volume.files.max_data_file_size data_files ≡ ok end)
    (behind : s.header.next_write_offset ≤ end)
    (found : Chain c s.volume data_files s.header.min_height end s.header.next_write_offset chain)
    (r : RepresentsBut c chain (at_scan s) blocks)
    (aligned : s.volume.disk.index_file.size % entry_size ≡ 0)
    (fits : 64 + 16 * (top s.header.max_height chain + 1 - s.header.min_height) < 2 ^ 64)
    (top_fits : top s.header.max_height chain + 1 < 2 ^ 64) where
  raised-RepresentsBut : RepresentsBut c chain (at_scan (raised s)) blocks
  raised-RepresentsBut = record {
    sound = record {
      ready = r.sound.ready;
      index = r.sound.index;
      limit = r.sound.limit;
      in_files = r.sound.in_files;
      reserved = r.sound.reserved;
      reserved_size = r.sound.reserved_size;
    };
    absent = r.absent;
    held = λ h o b out e here.
        SameData-Holds c (at_scan s) (at_scan (raised s)) (SameData-refl s.volume) (omega arith) _ b
          (r.held h o b out e here);
  }

  scanned :
      (t : Scan) × ((if ltb (raised s).header.next_write_offset end
            then recover_unindexed_blocks c end data_files
            else pure tt)
          (raised s)
        ≡ (ok tt, t.store))
      × IsScanning c s.volume data_files s.header.min_height end [] (replay blocks chain) t
      × (t.store.height_highwater ≡ top s.header.max_height chain)
      × IsAlong chain (scan_of (raised s)) t
  scanned =
      let (t, run, k, high, along) =
        recover_unindexed_blocks_lem c (raised s) blocks data_files end chain kd found
          raised-RepresentsBut in
      elim (Bool-cases (ltb s.header.next_write_offset end)) [
        | inl more ↦ (t, rw more run, k, high, along)
        | inr no_more ↦
            let none_new =
              recover_unindexed_blocks_done c (raised s) data_files end (ground (arith, no_more)) in
            (t, rw no_more (sym none_new ∙ run), k, high, along)
      ]

  -- Recovery on the disk of an earlier store.
  pub recover_lem :
      (t : Store) × (recover c s ≡ (ok tt, t))
      × Represents c t (replay blocks chain)
      × (t.height_highwater ≡ top s.header.max_height chain)
      × IsRecovered chain s t
  unfolding recover
  recover_lem =
      let (t, run, k, high, along) = scanned in
      let sound = k.represents.sound in
      let (m, floor, contiguous) =
        scan_contiguous_floor_lem t.store t.store.header.highest_contiguous_block_height
          sound.ready.quiet sound.index (along.aligned aligned) (rw (k.first, high) fits)
          (rw high top_fits) in
      let old : ltb end s.header.next_write_offset ≡ false = ground arith in
      (
        ready m t.store,
        rw (listed, valid, old, run, floor) refl,
        ready-Represents c m t.store (replay blocks chain) k.represents,
        high,
        ready-IsRecovered chain s t.store m t.store.header.min_height
            t.store.header.highest_contiguous_block_height k.first along.resume along.kept refl refl
            contiguous,
      )
