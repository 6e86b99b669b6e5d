-- ===== src/Store/Heights.antt =====
-- `advance_max_contiguous_height` of blockstore/src/store.rs: the height below which no block is
-- missing.
use blockstore.Prelude.{
  ℕ, suc, zero, ◌+◌, ◌-◌, ◌*◌, ◌≤◌, ◌<◌, ◌^◌, ◌≡◌, refl, ◌∙◌, ◌⊎◌, inl, inr, Bool, true, false, not,
  none, some, arith, if◌then◌else◌, ◌==◌, ==_refl, Bool-cases, Option-cases, wrapping_add,
  replicate, from_le_bytes,
}
use blockstore.Disk.{IsQuiet}
use blockstore.Disk.Files.{File, IsFile, bytes_from}
use blockstore.Format.{entry_size, entry_of_bytes}
use blockstore.Store.{
  Store, sees_block, index_entry_offset, read_index_entry, is_gap, cascade,
  advance_max_contiguous_height,
}
use blockstore.Store.Entries.{
  entry_at, bytes_from_padded, read_index_entry_ok, read_index_entry-none, index_entry_offset_lem,
}

-- A height has a block: its entry is in range and is not zero.
unfoldable pub is_present : File → ℕ → ℕ → Bool
is_present f min_height height = elim (index_entry_offset min_height height) [
  | none ↦ false
  | some offset ↦ not (is_gap (entry_at f offset))
]

abbrev pub with_max : ℕ → Store → Store
with_max height s = record s { max_contiguous_height = height }

eq_or_lt : {a b : ℕ} → a < b → (a + 1 ≡ b) ⊎ (a + 1 < b)
eq_or_lt h = omega arith

lt_or_le : (a b : ℕ) → (a < b) ⊎ (b ≤ a)
lt_or_le a b = omega arith

zero_is_gap : is_gap (entry_of_bytes (replicate 16 0)) ≡ true
unfolding entry_of_bytes from_le_bytes replicate
zero_is_gap = refl

-- No height is present whose entry lies past the end of the index file.
pub absent_past_end :
    (f : File) (min_height height : ℕ)
    → IsFile f
    → f.size ≤ 64 + 16 * (height - min_height)
    → is_present f min_height height ≡ false
unfolding is_present entry_at bytes_from
absent_past_end f min_height height v h =
    elim (Option-cases (index_entry_offset min_height height)) [
      | inl e ↦ rw (e, is_present) refl
      | inr (o, e) ↦
          let (low, at, fits) = (index_entry_offset_lem min_height height o).0 e in
          let zeros : bytes_from f.byte o entry_size ≡ replicate 16 0 =
            bytes_from_padded f.byte o 0 16 16 refl (λ i lo hi. v.zero_past i (omega arith)) in
          rw (e, is_present, zeros, zero_is_gap) refl
    ]

module _ (s : Store) (q : IsQuiet s.volume.disk) (f : IsFile s.volume.disk.index_file) where
  abbrev present : ℕ → Bool
  present = is_present s.volume.disk.index_file s.header.min_height

  read_present :
      (m height : ℕ)
      → (sees_block (read_index_entry height (with_max m s)).0 ≡ present height)
        × ((read_index_entry height (with_max m s)).1 ≡ with_max m s)
  unfolding is_present
  read_present m height = elim (Option-cases (index_entry_offset s.header.min_height height)) [
    | inl e ↦ rw (read_index_entry-none (with_max m s) height e, e, is_present) (refl, refl)
    | inr (o, e) ↦
        rw (read_index_entry_ok (with_max m s) q f height o e, e, is_present) (refl, refl)
  ]

  -- The loop goes on exactly while the next height is present.
  go_on :
      (fuel prev height next : ℕ)
      → height ≡ wrapping_add prev 1
      → next ≡ wrapping_add height 1
      → present next ≡ true
      → cascade (suc fuel) prev (with_max height s) ≡ cascade fuel height (with_max next s)
  unfolding cascade
  go_on fuel prev height next eh en p =
      let (sees, same) = read_present height next in
      rw (← eh, ← en, sees, same, p, ==_refl height) refl

  stop :
      (fuel prev height next : ℕ)
      → height ≡ wrapping_add prev 1
      → next ≡ wrapping_add height 1
      → present next ≡ false
      → cascade (suc fuel) prev (with_max height s) ≡ with_max height s
  unfolding cascade
  stop fuel prev height next eh en p =
      let (sees, same) = read_present height next in rw (← eh, ← en, sees, same, p) refl

  -- Whatever it reads, the loop changes nothing but the height.
  cascade_keeps : (fuel prev m : ℕ) → (x : ℕ) × (cascade fuel prev (with_max m s) ≡ with_max x s)
  unfolding cascade
  cascade_keeps zero prev m = (m, refl)
  cascade_keeps (suc fuel) prev m =
      let height = wrapping_add prev 1 in
      let next = wrapping_add height 1 in
      let (sees, same) = read_present m next in
      let (x, e) = cascade_keeps fuel height next in
      elim (Bool-cases (present next)) [
        | inr gone ↦ (m, rw (sees, same, gone) refl)
        | inl here ↦ elim (Bool-cases (m == height)) [
          | inl at ↦ (x, rw (sees, same, here, at) e)
          | inr off ↦ (m, rw (sees, same, here, off) refl)
        ]
      ]

  pub advance_keeps :
      (height : ℕ) → (x : ℕ) × (advance_max_contiguous_height height s ≡ with_max x s)
  unfolding advance_max_contiguous_height
  advance_keeps height = elim (Bool-cases (s.max_contiguous_height == height - 1)) [
    | inl e ↦
        let (x, run) = cascade_keeps (suc s.volume.disk.index_file.size) (height - 1) height in
        (x, rw e run)
    | inr e ↦ (s.max_contiguous_height, rw e refl)
  ]

  -- The loop stops at the last height of a run of present heights, and changes nothing else.
  cascade_lem :
      (fuel prev height : ℕ)
      → height ≡ prev + 1
      → s.header.min_height ≤ height
      → s.volume.disk.index_file.size ≤ 64 + 16 * (height + 1 - s.header.min_height) + fuel
      → height + fuel + 2 < 2 ^ 64
      → (x : ℕ) × (cascade fuel prev (with_max height s) ≡ with_max x s)
        × (height ≤ x)
        × ((h : ℕ) → height < h → h ≤ x → present h ≡ true)
        × (present (x + 1) ≡ false)
  cascade_lem zero prev height e low enough fits = (
    height,
    unfold cascade in refl,
    omega arith,
    λ h lo hi. absurd (omega arith),
    absent_past_end s.volume.disk.index_file s.header.min_height (height + 1) f (omega arith),
  )
  cascade_lem (suc fuel) prev height e low enough fits = elim (Bool-cases (present (height + 1))) [
    | inr gone ↦ (
      height,
      stop fuel prev height (height + 1) (omega arith) (omega arith) gone,
      omega arith,
      λ h lo hi. absurd (omega arith),
      gone,
    )
    | inl here ↦
        let (x, run, le, all, end) =
          cascade_lem fuel height (height + 1) refl (omega arith) (omega arith) (omega arith) in
        (
          x,
          go_on fuel prev height (height + 1) (omega arith) (omega arith) here ∙ run,
          omega arith,
          λ h lo hi. elim (eq_or_lt lo) [ inl same ↦ rw (← same) here | inr more ↦ all h more hi ],
          end,
        )
  ]

-- `m` is the height of the last block before the first gap, or just below the first height.
pub record IsContiguous (f : File) (min_height m : ℕ) : Type 0 where
  pub above : min_height ≤ m + 1
  pub run : (h : ℕ) → min_height ≤ h → h ≤ m → is_present f min_height h ≡ true
  pub gap : is_present f min_height (m + 1) ≡ false

-- With the entry of one height written, the height below which no block is missing is found anew:
-- the loop goes on over the blocks that were written out of order, and nothing but that height
-- changes. The first height is not 0, the disk does not fail, and the heights are far from 2^64.
pub advance-IsContiguous :
    (s : Store) (before : File) (height : ℕ)
    → IsQuiet s.volume.disk
    → IsFile s.volume.disk.index_file
    → 0 < s.header.min_height
    → s.header.min_height ≤ height
    → height + s.volume.disk.index_file.size + 4 < 2 ^ 64
    → ((h : ℕ)
        → is_present s.volume.disk.index_file s.header.min_height h
          ≡ (if h == height then true else is_present before s.header.min_height h))
    → IsContiguous before s.header.min_height s.max_contiguous_height
    → (x : ℕ) × (advance_max_contiguous_height height s ≡ with_max x s)
      × IsContiguous s.volume.disk.index_file s.header.min_height x
unfolding advance_max_contiguous_height
advance-IsContiguous s before height q f pos low fits written c =
    let m = s.max_contiguous_height in
    let after = s.volume.disk.index_file in
    let lo = s.header.min_height in
    elim (Bool-cases (m == height - 1)) [
      | inl e ↦
          let m_eq : m + 1 ≡ height = ground arith in
          let (x, run, le, all, end) =
            cascade_lem s q f (suc after.size) (height - 1) height (omega arith) low (omega arith)
              (omega arith) in
          (
            x,
            rw e run,
            record {
              above = omega arith;
              run = λ h l u. elim (lt_or_le height h) [
                | inl past ↦ all h past u
                | inr old ↦ rw (written h) (ground (arith, c.run h l))
              ];
              gap = end;
            },
          )
      | inr e ↦ (
        m,
        rw e refl,
        record {
          above = c.above;
          run = λ h l u. rw (written h) (ground (arith, c.run h l u));
          gap = rw (written (m + 1)) (ground (arith, c.gap));
        },
      )
    ]

-- In a store whose first height is 0 and whose `max_contiguous_height` is 0, the write of block 1
-- raises that height to 1 or more, whatever the index says of block 0. The disk does not fail and
-- the index file is far from 2^64 bytes.
pub advance_skips_zero :
    (s : Store)
    → IsQuiet s.volume.disk
    → IsFile s.volume.disk.index_file
    → s.header.min_height ≡ 0
    → s.max_contiguous_height ≡ 0
    → s.volume.disk.index_file.size + 4 < 2 ^ 64
    → 1 ≤ (advance_max_contiguous_height 1 s).max_contiguous_height
unfolding advance_max_contiguous_height
advance_skips_zero s q f low m fits =
    let (x, run, le, all, end) =
      cascade_lem s q f (suc s.volume.disk.index_file.size) 0 1 (omega arith) (omega arith)
        (omega arith) (omega arith) in
    rw (m, run) le
