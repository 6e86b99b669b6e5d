-- ===== src/Store/Room.antt =====
-- When `reserve_space` of blockstore/src/store.rs succeeds.
use blockstore.Prelude.{
  ℕ, ◌+◌, ◌*◌, ◌/◌, ◌%◌, ◌≤◌, ◌<◌, ◌^◌, ◌≡◌, refl, Option, none, some, ok, arith, Bool-cases, inl,
  inr, leb, ltb, false, true,
}
use blockstore.Store.{
  Store, write_offset, advance_to_next_file, reservation, reserve_space, exceeds, reserved,
}
use blockstore.Store.Reserve.{IsLimit, InFiles, reserve_space_eq}
use native.Mathlib.Nat.{div-add-mod', mod-lt, div-lt_iff_lt-mul}

-- Room for a block: in one file the highwater stays a u64, and with a limit the block is no larger
-- than a file and two more files have u32 indices and u64 offsets.
abbrev pub HasRoom : Option ℕ → ℕ → ℕ → Type 0
HasRoom none current size = current + size < 2 ^ 64
HasRoom (some limit) current size =
    (size ≤ limit) × (current / limit + 2 < 2 ^ 32) × ((current / limit + 2) * limit < 2 ^ 64)

in_files :
    (limit end q : ℕ) → 0 < limit → end ≤ (q + 2) * limit → q + 2 < 2 ^ 32 → end / limit < 2 ^ 32
in_files limit end q pos le small =
    let lt : end < (q + 3) * limit = omega arith in
    omega (arith, (div-lt_iff_lt-mul {k = limit} {x = end} {y = q + 3} pos).1 lt)

module _ (limit current size : ℕ) (pos : 0 < limit) (room : HasRoom (some limit) current size) where
  whole : current / limit * limit + current % limit ≡ current
  whole = div-add-mod' current limit

  end_within : current % limit + size < 2 ^ 64
  end_within = omega (arith, mod-lt current pos, room.0, room.2)

  -- The block goes here, or to the start of the next file.
  write_offset_room :
      (offset : ℕ) × (write_offset (some limit) current size ≡ ok offset)
      × (offset + size ≤ (current / limit + 2) * limit)
  unfolding write_offset advance_to_next_file
  write_offset_room = elim (Bool-cases (leb (current % limit + size) limit)) [
    | inl fits ↦ (current, ground (arith, end_within), ground (arith, whole))
    | inr skips ↦
        let q = current / limit in
        let index : q + 1 < 2 ^ 32 = omega (arith, room.1) in
        let bound : (q + 1) * limit < 2 ^ 64 = omega (arith, room.2) in
        ((q + 1) * limit, ground (arith, end_within), omega (arith, room.0))
  ]

-- With room for the block the reservation succeeds, and the highwater stays in a file with a u32
-- index.
pub reservation_room :
    (max : Option ℕ) (current size : ℕ)
    → IsLimit max
    → HasRoom max current size
    → (offset : ℕ) × (end : ℕ) × (reservation max current size ≡ ok (offset, end)) × InFiles max end
unfolding reservation exceeds
reservation_room none current size l room =
    (current, current + size, unfold write_offset in ground arith, tt)
reservation_room (some limit) current size l room =
    let (offset, e, le) = write_offset_room limit current size l.0 room in
    let within : ltb limit size ≡ false = ground (arith, room.0) in
    let adds : ltb (offset + size) (2 ^ 64) ≡ true = ground (arith, room.2) in
    (
      offset,
      offset + size,
      rw (within, e, adds) refl,
      in_files limit (offset + size) (current / limit) l.0 le room.1,
    )

-- With room for the block a reservation succeeds and moves the highwater and nothing else, and the
-- new highwater stands in a file with a u32 index. The size limit is a non-zero u64.
pub reserve_space_room :
    (size : ℕ) (s : Store)
    → IsLimit s.volume.files.max_data_file_size
    → HasRoom s.volume.files.max_data_file_size s.data_highwater size
    → (offset : ℕ) × (end : ℕ) × (reserve_space size s
        ≡ (ok (offset, end, s.data_highwater), record s { data_highwater = end }))
      × InFiles s.volume.files.max_data_file_size end
unfolding reserved
reserve_space_room size s l room =
    let (offset, end, e, f) =
      reservation_room s.volume.files.max_data_file_size s.data_highwater size l room in
    (offset, end, reserve_space_eq size s _ e, f)
