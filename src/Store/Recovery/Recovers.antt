-- ===== src/Store/Recovery/Recovers.antt =====
-- `recover_unindexed_blocks` of blockstore/src/store.rs after a crash: the blocks that the data
-- files hold behind the last checkpoint come back into the map.
use blockstore.Prelude.{
  ℕ, suc, zero, ◌-◌, ◌≤◌, ◌<◌, max, ◌≡◌, refl, ◌∙◌, ap, true, false, List, [], ◌∷◌, Option, ok,
  arith, leb, elem,
}
use blockstore.FileSet.{Volume}
use blockstore.Store.{Codec, IsCodec, Store}
use blockstore.Store.Refines.{Represents}
use blockstore.Store.Recovery.{
  Scan, new_window, scan_step, scan_loop, recover_unindexed_blocks, set_next,
}
use blockstore.Store.Recovery.Chain.{
  at_scan, replay, Chain, done, torn, remnant, skip, stored, RepresentsBut,
}
use blockstore.Store.Recovery.Replay.{
  IsScanning, IsAlong, IsAlong-refl, IsAlong-cons, torn_round, skip_round, remnant_round,
}
use blockstore.Store.Recovery.WholeBlocks.{stored_round}

-- The greatest of a height and the heights of a chain.
abbrev pub top : ℕ → List (ℕ × List ℕ) → ℕ
top height [] = height
top height ((other, block) ∷ rest) = top (max height other) rest

module _ (c : Codec) (v : Volume) (data_files : List (ℕ × ℕ)) (min_height end : ℕ)
    (kd : IsCodec c) where
  -- What the loop makes of a scan with the blocks of a chain to come.
  abbrev Replays : List (ℕ × List ℕ) → (ℕ → Option (List ℕ)) → ℕ → Scan → Type 0
  Replays chain blocks fuel s =
      (t : Scan) × (scan_loop c fuel end data_files s ≡ (ok tt, t))
      × IsScanning c v data_files min_height end [] (replay blocks chain) t
      × (t.store.height_highwater ≡ top s.store.height_highwater chain)
      × IsAlong chain s t

  step_done :
      (s : Scan)
      → end ≤ s.store.header.next_write_offset
      → scan_step c end data_files s ≡ (ok false, s)
  unfolding scan_step
  step_done s past =
      let over : leb end s.store.header.next_write_offset ≡ true = ground arith in rw over refl

  replay_loop :
      (fuel : ℕ) {from : ℕ} {chain : List (ℕ × List ℕ)}
      → Chain c v data_files min_height end from chain
      → (blocks : ℕ → Option (List ℕ)) (s : Scan) → s.store.header.next_write_offset ≡ from
      → end - from < fuel
      → IsScanning c v data_files min_height end chain blocks s
      → Replays chain blocks fuel s
  unfolding scan_loop
  replay_loop (suc fuel) (done at past) blocks s here enough k =
      (s, rw (step_done s (rw here past)) refl, k, refl, IsAlong-refl s)
  replay_loop (suc fuel) (torn at header before cut) blocks s here enough k =
      let (t, run, k', high, along) =
        torn_round c v data_files min_height end [] blocks s k header (rw here before)
          (rw here cut) in
      (t, rw run refl, k', high, along)
  replay_loop (suc fuel) (remnant at before e listed fits short) blocks s here enough k =
      let run =
        remnant_round c v data_files min_height end [] blocks s k (rw here before) e
          (rw here listed) (rw here fits) (rw here short) in
      (s, rw run refl, k, refl, IsAlong-refl s)
  replay_loop (suc fuel) (skip at limit next rest before e listed fits short goes chain) blocks s
        here enough k =
      let (run, after, k') =
        skip_round c v data_files min_height end rest blocks s k limit next (rw here before) e
          (rw here listed) (rw here fits) (rw here short) (rw here goes) in
      let (t, loop, done', high, along) =
        replay_loop fuel chain blocks (set_next next s) refl (omega (arith, here)) k' in
      (
        t,
        rw run loop,
        done',
        high,
        record {
          resume = along.resume;
          aligned = along.aligned;
          first = along.first;
          kept = along.kept;
        },
      )
  replay_loop (suc fuel) (stored at height block rest before st chain) blocks s here enough k =
      let (t, run, k', next, high, along) =
        stored_round c v data_files min_height end rest blocks height block s kd k (rw here st)
          (rw here before) in
      let (u, loop, done', high', along') =
        replay_loop fuel chain _ t (omega (arith, next, here)) (omega arith) k' in
      (
        u,
        rw run loop,
        done',
        high' ∙ ap (λ (h : ℕ). top h rest) high,
        IsAlong-cons height block rest s t u along along',
      )
  replay_loop zero x blocks s here enough k = absurd (omega arith)

-- The scan that recovery starts.
abbrev pub scan_of : Store → Scan
scan_of s = record { store = s; window = new_window; last_progress = s.header.next_write_offset }

pub recover_unindexed_blocks_lem :
    (c : Codec) (s : Store) (blocks : ℕ → Option (List ℕ)) (data_files : List (ℕ × ℕ)) (end : ℕ)
    (chain : List (ℕ × List ℕ))
    → IsCodec c
    → Chain c s.volume data_files s.header.min_height end s.header.next_write_offset chain
    → RepresentsBut c chain (at_scan s) blocks
    → (t : Scan) × (recover_unindexed_blocks c end data_files s ≡ (ok tt, t.store))
      × IsScanning c s.volume data_files s.header.min_height end [] (replay blocks chain) t
      × (t.store.height_highwater ≡ top s.height_highwater chain)
      × IsAlong chain (scan_of s) t
unfolding recover_unindexed_blocks
recover_unindexed_blocks_lem c s blocks data_files end chain kd found r =
    let scanning : IsScanning c s.volume data_files s.header.min_height end chain blocks
        (scan_of s) =
      record {
        represents = r;
        first = refl;
        same = record { max_data_file_size = refl; data_files = λ i. refl };
        window = record { inside = λ i e. absurd (cc); bytes = λ i e. absurd (cc) };
      } in
    let (t, run, k, high, along) =
      replay_loop c s.volume data_files s.header.min_height end kd
        (suc (end - s.header.next_write_offset)) found blocks (scan_of s) refl (omega arith)
        scanning in
    (t, rw run refl, k, high, along)

-- Recovery after a crash: `recover_unindexed_blocks` succeeds, and once its scan's end is the new
-- highwater, the store holds the blocks that it held at the last checkpoint, with the whole blocks
-- that follow in the data files put in, the later in the place of the earlier, up to the end of
-- the data or to a block that was cut off; and the greatest height is raised to theirs. Before, the
-- store held the blocks of the checkpoint, but the index might say anything of the heights of the
-- blocks that follow. The store is sound, which includes that its disk does not fail, the data
-- files are listed with their sizes, and the crates do as they say.
pub recover_unindexed_blocks-replay :
    (c : Codec) (s : Store) (blocks : ℕ → Option (List ℕ)) (data_files : List (ℕ × ℕ)) (end : ℕ)
    (chain : List (ℕ × List ℕ))
    → IsCodec c
    → Chain c s.volume data_files s.header.min_height end s.header.next_write_offset chain
    → RepresentsBut c chain (at_scan s) blocks
    → (t : Store) × (recover_unindexed_blocks c end data_files s ≡ (ok tt, t))
      × Represents c (at_scan t) (replay blocks chain)
      × (t.height_highwater ≡ top s.height_highwater chain)
recover_unindexed_blocks-replay c s blocks data_files end chain kd found r =
    let (t, run, k, high, along) =
      recover_unindexed_blocks_lem c s blocks data_files end chain kd found r in
    (
      t.store,
      run,
      record {
        sound = k.represents.sound;
        absent = λ h o. k.represents.absent h o (unfold elem in refl);
        held = λ h o b. k.represents.held h o b (unfold elem in refl);
      },
      high,
    )

-- With no data behind the last checkpoint, nothing is done.
pub recover_unindexed_blocks_done :
    (c : Codec) (s : Store) (data_files : List (ℕ × ℕ)) (end : ℕ)
    → end ≤ s.header.next_write_offset
    → recover_unindexed_blocks c end data_files s ≡ (ok tt, s)
unfolding recover_unindexed_blocks scan_loop scan_step
recover_unindexed_blocks_done c s data_files end past =
    let over : leb end s.header.next_write_offset ≡ true = ground arith in rw over refl
