-- ===== src/Store/Floor/Rounds.antt =====
-- `scan_contiguous_floor` of blockstore/src/store.rs: its loop over the chunks of the index, and the
-- height that it gives.
use blockstore.Prelude.{
  ℕ, suc, zero, ◌+◌, ◌-◌, ◌*◌, ◌/◌, ◌%◌, ◌≤◌, ◌<◌, ◌^◌, min, max, ◌≡◌, refl, sym, ◌∙◌, ap, ◌⊎◌, inl,
  inr, Bool, true, false, ◌||◌, List, ok, arith, length, ltb, leb, ◌==◌, if◌then◌else◌, Bool-cases,
}
use blockstore.Disk.{IsQuiet}
use blockstore.Disk.Files.{File, IsFile, read_at, bytes_from, length-bytes_from}
use blockstore.Disk.Calls.{index_read_at_quiet}
use blockstore.Format.{entry_size}
use blockstore.Store.{Store}
use blockstore.Store.Heights.{absent_past_end}
use blockstore.Store.Lifecycle.{
  scan_entries, chunk_entries, chunk_offset, floor_loop, scan_contiguous_floor,
}
use blockstore.Store.Floor.{IsFloorFrom, IsFloor, scan_entries_lem}

leq_or_lt : (a b : ℕ) → (a ≤ b) ⊎ (b < a)
leq_or_lt a b = omega arith

module _ (s : Store) (q : IsQuiet s.volume.disk) (v : IsFile s.volume.disk.index_file)
    (aligned : s.volume.disk.index_file.size % entry_size ≡ 0) (min_height upper_bound : ℕ)
    (fits : 64 + 16 * (upper_bound + 1 - min_height) < 2 ^ 64)
    (top : upper_bound + 1 < 2 ^ 64) where
  abbrev index : File
  index = s.volume.disk.index_file

  -- A round that has read `n` whole entries.
  floor_round :
      (fuel cursor last at n present : ℕ) (ends : Bool) (bytes : List ℕ)
      → chunk_offset min_height cursor ≡ ok at
      → read_at index at (chunk_entries * entry_size) ≡ bytes
      → length bytes ≡ 16 * n
      → scan_entries upper_bound cursor last bytes n ≡ ok (ends, present)
      → (ends ≡ false → cursor + n < 2 ^ 64)
      → floor_loop (suc fuel) min_height upper_bound cursor last s ≡ (
          if n == 0 || ends
          then (ok present, s)
          else if ltb n chunk_entries
          then (ok present, s)
          else floor_loop fuel min_height upper_bound (cursor + n) present s)
  unfolding floor_loop
  floor_round fuel cursor last at n present ends bytes offset read long scanned small =
      let entries : 16 * n / entry_size ≡ n = omega arith in
      let whole : (16 * n % entry_size == 0) ≡ true = ground arith in
      let empty : (16 * n == 0) ≡ (n == 0) = ground arith in
      let read_all = index_read_at_quiet s.volume.disk q in
      elim (Bool-cases (n == 0 || ends)) [
        | inl over ↦ rw (offset, read_all, read, long, whole, entries, scanned, empty, over) refl
        | inr goes ↦
            let fits_next : ltb (cursor + n) (2 ^ 64) ≡ true = ground (arith, goes, small) in
            elim (Bool-cases (ltb n chunk_entries)) [
              | inl short ↦
                  rw
                    (
                      offset, read_all, read, long, whole, entries, scanned, empty, goes, fits_next,
                      short,
                    )
                    refl
              | inr full ↦
                  rw
                    (
                      offset, read_all, read, long, whole, entries, scanned, empty, goes, fits_next,
                      full,
                    )
                    refl
            ]
      ]

  floor_loop_lem :
      (fuel cursor last : ℕ)
      → cursor ≡ last + 1
      → min_height ≤ cursor
      → last ≤ upper_bound
      → index.size < 64 + 16 * (cursor - min_height) + fuel
      → (m : ℕ) × (floor_loop fuel min_height upper_bound cursor last s ≡ (ok m, s))
        × IsFloor index min_height upper_bound last m
  unfolding floor_loop
  floor_loop_lem zero cursor last e low high enough = (
    last,
    refl,
    record {
      after = omega arith;
      below = high;
      run = λ h lo hi. absurd (omega arith);
      stops = inr (rw (← e) (absent_past_end index min_height cursor v (omega arith)));
    },
  )
  floor_loop_lem (suc fuel) cursor last e low high enough =
      let at = 64 + 16 * (cursor - min_height) in
      let len = min (chunk_entries * entry_size) (index.size - at) in
      let n = len / entry_size in
      let offset : chunk_offset min_height cursor ≡ ok at = unfold chunk_offset in ground arith in
      let whole : len % entry_size ≡ 0 = omega (arith, aligned) in
      let exact : 16 * n ≡ len = omega arith in
      let read : read_at index at (chunk_entries * entry_size) ≡ bytes_from index.byte at len =
        unfold read_at in refl in
      let size = length-bytes_from index.byte at len in
      let (ends, present, scanned, k) =
        scan_entries_lem index min_height upper_bound fits top n cursor last e low high in
      let shown : scan_entries upper_bound cursor last (bytes_from index.byte at len) n
          ≡ ok (ends, present) =
        ap (λ (x : ℕ). scan_entries upper_bound cursor last (bytes_from index.byte at x) n)
          (sym exact)
        ∙ scanned in
      let round =
        floor_round fuel cursor last at n present ends (bytes_from index.byte at len) offset read
          (size ∙ sym exact) shown (λ b. omega (arith, k.whole b, k.below)) in
      let past : (ends ≡ false)
          → index.size ≤ 64 + 16 * (cursor + n - min_height)
          → IsFloor index min_height upper_bound last present =
        λ b short. record {
          after = k.after;
          below = k.below;
          run = k.run;
          stops =
              inr (
                absent_past_end index min_height (present + 1) v (omega (arith, k.whole b, short)));
        } in
      elim (Bool-cases ends) [
        | inl over ↦ (
          present,
          round ∙ rw over (elim (Bool-cases (n == 0)) [ inl e ↦ rw e refl | inr e ↦ rw e refl ]),
          record { after = k.after; below = k.below; run = k.run; stops = k.stops over },
        )
        | inr goes ↦ elim (Bool-cases (n == 0)) [
          | inl none_read ↦
              (present, round ∙ rw none_read refl, past goes (ground (arith, none_read)))
          | inr some_read ↦ elim (Bool-cases (ltb n chunk_entries)) [
            | inl short ↦ (
              present,
              round ∙ rw (some_read, goes, short) refl,
              past goes (ground (arith, short, exact)),
            )
            | inr full ↦
                let n_full : n ≡ chunk_entries = ground (arith, full) in
                let (m, run, r) =
                  floor_loop_lem fuel (cursor + n) present (omega (arith, k.whole goes))
                    (omega arith) k.below (omega (arith, n_full)) in
                (
                  m,
                  round ∙ rw (some_read, goes, full) run,
                  record {
                    after = omega (arith, k.after, r.after);
                    below = r.below;
                    run = λ h lo hi. elim (leq_or_lt h present) [
                      | inl old ↦ k.run h lo old
                      | inr new ↦ r.run h new hi
                    ];
                    stops = r.stops;
                  },
                )
          ]
        ]
      ]

-- `scan_contiguous_floor` gives the last height of the run of blocks that starts at the height it is
-- to resume from: all heights after the start are present, and the run ends at the greatest height
-- of the store or where the next height is missing. A store with no height gives the one below its
-- first. The disk does not fail, the index file is of whole entries, and those of the heights up
-- to the one behind the greatest have u64 offsets.
pub scan_contiguous_floor_lem :
    (s : Store) (resume_floor : ℕ)
    → IsQuiet s.volume.disk
    → IsFile s.volume.disk.index_file
    → s.volume.disk.index_file.size % entry_size ≡ 0
    → 64 + 16 * (s.height_highwater + 1 - s.header.min_height) < 2 ^ 64
    → s.height_highwater + 1 < 2 ^ 64
    → (m : ℕ) × (scan_contiguous_floor resume_floor s ≡ (ok m, s))
      × IsFloorFrom s.volume.disk.index_file s.header.min_height s.height_highwater resume_floor m
unfolding scan_contiguous_floor
scan_contiguous_floor_lem s resume_floor q v aligned fits top =
    let lo = s.header.min_height in
    let ub = s.height_highwater in
    let start = min (max resume_floor (lo - 1)) ub in
    elim (Bool-cases (ltb ub lo)) [
      | inl no_height ↦ (lo - 1, rw no_height refl, inl (ground (arith, no_height), refl))
      | inr some_height ↦ elim (Bool-cases (leb ub start)) [
        | inl at_top ↦ (
          start,
          rw (some_height, at_top) refl,
          inr (
            ground (arith, some_height),
            record {
              after = omega arith;
              below = omega arith;
              run = λ h lo hi. absurd (omega arith);
              stops = inl (ground (arith, at_top));
            },
          ),
        )
        | inr below ↦
            let low : lo ≤ ub = ground (arith, some_height) in
            let next_fits : ltb (start + 1) (2 ^ 64) ≡ true = ground (arith, below) in
            let (m, run, k) =
              floor_loop_lem s q v aligned lo ub fits top (suc s.volume.disk.index_file.size)
                (start + 1) start refl (omega arith) (omega arith) (omega arith) in
            (m, rw (some_height, below, next_fits) run, inr (low, k))
      ]
    ]
