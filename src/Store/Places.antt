-- ===== src/Store/Places.antt =====
-- Where the bytes of a block stand: `split_offset` of blockstore/src/file_set.rs on the offsets
-- that `reserve_space` gives.
use blockstore.Prelude.{
  ℕ, ◌+◌, ◌*◌, ◌/◌, ◌%◌, ◌≤◌, ◌<◌, ◌^◌, ◌≡◌, ◌≢◌, refl, ap, ◌⊎◌, inl, inr, Option, none, some,
  arith, IsU32, u32_max, lt→ltb, ok,
}
use blockstore.FileSet.{split_offset}
use blockstore.Store.{write_offset}
use blockstore.Store.Reserve.{InOneFile, IsLimit}
use native.Mathlib.Decide.{ℕ_discrete}
use native.Mathlib.Nat.{div-add-mod, mul-mod_left, mul-div_left}

unfoldable pub file_of : Option ℕ → ℕ → ℕ
file_of max offset = (split_offset max offset).0

unfoldable pub local_of : Option ℕ → ℕ → ℕ
local_of max offset = (split_offset max offset).1

pub file_some :
    (limit offset : ℕ) → offset / limit < 2 ^ 32 → file_of (some limit) offset ≡ offset / limit
unfolding file_of split_offset
file_some limit offset h = rw (lt→ltb (offset / limit) (2 ^ 32) h)

local_some : (limit offset : ℕ) → local_of (some limit) offset ≡ offset % limit
unfolding local_of split_offset
local_some limit offset = refl

local_none : (offset : ℕ) → local_of none offset ≡ offset
unfolding local_of split_offset
local_none offset = refl

file_none : (offset : ℕ) → file_of none offset ≡ 0
unfolding file_of split_offset
file_none offset = refl

-- The file index is a u32, and the end of the block in the file is a u64.
pub place_bounds :
    (max : Option ℕ) (offset size : ℕ)
    → IsLimit max
    → InOneFile max offset size
    → offset + size < 2 ^ 64
    → IsU32 (file_of max offset) × (local_of max offset + size < 2 ^ 64)
place_bounds none offset size l f h = rw (file_none, local_none) (omega arith, h)
place_bounds (some limit) offset size l f h =
    rw (file_some limit offset f.1, local_some) (f.1, omega (arith, l.1, f.0))

-- Blocks whose global ranges do not meet do not meet in any file, where each of the two stands in
-- one file with a u32 index.
pub places_apart :
    (max : Option ℕ) (o n p m : ℕ)
    → InOneFile max o n
    → InOneFile max p m
    → o + n ≤ p
    → (file_of max o ≢ file_of max p) ⊎ (local_of max o + n ≤ local_of max p)
places_apart none o n p m f g h = inr (rw (local_none o, local_none p) h)
places_apart (some limit) o n p m f g h =
    rw (file_some limit o f.1, file_some limit p g.1, local_some limit o, local_some limit p)
      (elim (ℕ_discrete (o / limit) (p / limit)) [
        | no e ↦ inl e
        | yes e ↦
            inr
              (omega (arith, div-add-mod o limit, div-add-mod p limit, ap (λ (t : ℕ). limit * t) e))
      ])

-- A highwater at the end of the last file with a u32 index: a block that fits a file is given this
-- offset without an error, and it is split like the start of that last file. The limit is not 0
-- and is below 2^32.
pub exact_fill_overlaps :
    (limit size : ℕ)
    → 0 < limit
    → size ≤ limit
    → limit < 2 ^ 32
    → (write_offset (some limit) (2 ^ 32 * limit) size ≡ ok (2 ^ 32 * limit))
      × (split_offset (some limit) (2 ^ 32 * limit) ≡ split_offset (some limit) (u32_max * limit))
unfolding write_offset split_offset
exact_fill_overlaps limit size pos fits small =
    let zero_rem : 2 ^ 32 * limit % limit ≡ 0 = mul-mod_left (2 ^ 32) limit in
    let rem : u32_max * limit % limit ≡ 0 = mul-mod_left u32_max limit in
    let idx : 2 ^ 32 * limit / limit ≡ 2 ^ 32 = mul-div_left (2 ^ 32) pos in
    let last : u32_max * limit / limit ≡ u32_max = mul-div_left u32_max pos in
    (rw zero_rem (ground arith), rw (zero_rem, rem, idx, last) refl)
