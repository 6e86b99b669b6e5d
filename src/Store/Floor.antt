-- ===== src/Store/Floor.antt =====
-- `scan_contiguous_floor` of blockstore/src/store.rs: what the entries of a chunk of the index show
-- of the height below which no block is missing.
pub mod Rounds
use blockstore.Prelude.{
  ℕ, suc, zero, ◌+◌, ◌-◌, ◌*◌, ◌/◌, ◌%◌, ◌≤◌, ◌<◌, ◌^◌, min, max, ◌≡◌, refl, sym, ◌∙◌, ap, ◌⊎◌, inl,
  inr, Bool, true, false, not, ◌||◌, List, none, some, ok, arith, length, take, drop, ltb, leb,
  ◌==◌, if◌then◌else◌, Bool-cases, take-append_left, drop-append_left, ◌++◌,
}
use blockstore.Disk.{IsQuiet}
use blockstore.Disk.Files.{File, IsFile, read_at, bytes_from, length-bytes_from, bytes_from_add}
use blockstore.Disk.Calls.{index_read_at_quiet}
use blockstore.Format.{entry_size, entry_of_bytes}
use blockstore.Store.{Store, is_gap, index_entry_offset}
use blockstore.Store.Entries.{entry_at, index_entry_offset_lem}
use blockstore.Store.Heights.{is_present, absent_past_end}
use native.Mathlib.Decide.{ℕ_discrete}
use blockstore.Store.Lifecycle.{
  scan_entries, chunk_entries, chunk_offset, floor_loop, scan_contiguous_floor,
}

first_bytes : (f : ℕ → ℕ) (at n m : ℕ) → take n (bytes_from f at (n + m)) ≡ bytes_from f at n
first_bytes f at n m =
    ap (take n) (bytes_from_add f at n m)
    ∙ take-append_left (bytes_from f at n) (bytes_from f (at + n) m) n
        (sym (length-bytes_from f at n))

later_bytes : (f : ℕ → ℕ) (at n m : ℕ) → drop n (bytes_from f at (n + m)) ≡ bytes_from f (at + n) m
later_bytes f at n m =
    ap (drop n) (bytes_from_add f at n m)
    ∙ drop-append_left (bytes_from f at n) (bytes_from f (at + n) m) n
        (sym (length-bytes_from f at n))

-- All heights after the first, up to the last, are present.
abbrev pub IsRun : File → ℕ → ℕ → ℕ → Type 0
IsRun f min_height first last = (h : ℕ) → first < h → h ≤ last → is_present f min_height h ≡ true

-- The last height of a run from a start, of heights up to the greatest.
pub record IsFloor (f : File) (min_height upper_bound first last : ℕ) : Type 0 where
  pub after : first ≤ last
  pub below : last ≤ upper_bound
  pub run : IsRun f min_height first last
  pub stops : (last ≡ upper_bound) ⊎ (is_present f min_height (last + 1) ≡ false)

-- The last height of the run from the one to resume at, within the heights of the store, or, where
-- it has no height, the one below its first.
abbrev pub IsFloorFrom : File → ℕ → ℕ → ℕ → ℕ → Type 0
IsFloorFrom f min_height upper_bound resume last =
    ((upper_bound < min_height) × (last ≡ min_height - 1))
    ⊎ ((min_height ≤ upper_bound)
        × IsFloor f min_height upper_bound (min (max resume (min_height - 1)) upper_bound) last)

-- An index file, the first height of its store, and the greatest height to look at.
module _ (f : File) (min_height upper_bound : ℕ)
    (fits : 64 + 16 * (upper_bound + 1 - min_height) < 2 ^ 64)
    (top : upper_bound + 1 < 2 ^ 64) where
  abbrev place : ℕ → ℕ
  place height = 64 + 16 * (height - min_height)

  -- Of heights with an entry, presence is what the entry says.
  is_present_at :
      (height : ℕ)
      → min_height ≤ height
      → height ≤ upper_bound
      → is_present f min_height height ≡ not (is_gap (entry_at f (place height)))
  unfolding is_present
  is_present_at height low high =
      let e : index_entry_offset min_height height ≡ some (place height) =
        (index_entry_offset_lem min_height height (place height)).1 (low, refl, omega arith) in
      rw (e, is_present) refl

  -- What the entries of a chunk show.
  pub record Scanned (last height n : ℕ) (ends : Bool) (present : ℕ) : Type 0 where
    pub after : last ≤ present
    pub below : present ≤ upper_bound
    pub run : IsRun f min_height last present
    pub stops :
        ends ≡ true → (present ≡ upper_bound) ⊎ (is_present f min_height (present + 1) ≡ false)
    pub whole : ends ≡ false → present + 1 ≡ height + n

  pub scan_entries_lem :
      (n height last : ℕ)
      → height ≡ last + 1
      → min_height ≤ height
      → last ≤ upper_bound
      → (ends : Bool) × (present : ℕ) × (scan_entries upper_bound height last
            (bytes_from f.byte (place height) (16 * n))
            n
          ≡ ok (ends, present))
        × Scanned last height n ends present
  unfolding scan_entries entry_at
  scan_entries_lem zero height last e low high = (
    false,
    last,
    refl,
    record {
      after = omega arith;
      below = high;
      run = λ h lo hi. absurd (omega arith);
      stops = λ b. absurd (cc);
      whole = λ b. omega arith;
    },
  )
  scan_entries_lem (suc n) height last e low high =
      let bytes = bytes_from f.byte (place height) (16 * suc n) in
      let small : ltb height (2 ^ 64) ≡ true = ground arith in
      let order : 16 * suc n ≡ entry_size + 16 * n = omega arith in
      let along : place height + entry_size ≡ place (height + 1) = omega arith in
      let split : bytes ≡ bytes_from f.byte (place height) (entry_size + 16 * n) =
        ap (bytes_from f.byte (place height)) order in
      let first : take entry_size bytes ≡ bytes_from f.byte (place height) entry_size =
        ap (take entry_size) split ∙ first_bytes f.byte (place height) entry_size (16 * n) in
      let rest : drop entry_size bytes ≡ bytes_from f.byte (place (height + 1)) (16 * n) =
        ap (drop entry_size) split
        ∙ later_bytes f.byte (place height) entry_size (16 * n)
        ∙ ap (λ (o : ℕ). bytes_from f.byte o (16 * n)) along in
      elim (Bool-cases (ltb upper_bound height)) [
        | inl past ↦ (
          true,
          last,
          rw (small, past) refl,
          record {
            after = omega arith;
            below = high;
            run = λ h lo hi. absurd (omega arith);
            stops = λ b. inl (ground (arith, past));
            whole = λ b. absurd (cc);
          },
        )
        | inr within ↦
            let shown = is_present_at height low (ground (arith, within)) in
            elim (Bool-cases (is_gap (entry_at f (place height)))) [
              | inl gap ↦ (
                true,
                last,
                rw (small, within, first, gap) refl,
                record {
                  after = omega arith;
                  below = high;
                  run = λ h lo hi. absurd (omega arith);
                  stops = λ b. inr (rw (← e) (shown ∙ rw gap refl));
                  whole = λ b. absurd (cc);
                },
              )
              | inr here ↦
                  let (ends, present, scanned, k) =
                    scan_entries_lem n (height + 1) height refl (omega arith)
                      (ground (arith, within)) in
                  (
                    ends,
                    present,
                    rw (small, within, first, here, rest) scanned,
                    record {
                      after = omega (arith, k.after);
                      below = k.below;
                      run = λ h lo hi. elim (ℕ_discrete h height) [
                        | yes at ↦ rw at (shown ∙ rw here refl)
                        | no past ↦ k.run h (omega (arith, past)) hi
                      ];
                      stops = k.stops;
                      whole = λ b. omega (arith, k.whole b);
                    },
                  )
            ]
      ]
