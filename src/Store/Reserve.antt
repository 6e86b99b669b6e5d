-- ===== src/Store/Reserve.antt =====
-- `reserve_space` of blockstore/src/store.rs: where a block goes.
use blockstore.Prelude.{
  ℕ, ◌+◌, ◌*◌, ◌/◌, ◌%◌, ◌≤◌, ◌<◌, ◌^◌, ◌≡◌, ◌≢◌, inl, inr, refl, Bool-cases, Option, none, some,
  Result, ok, err, panic, Error, arith, ltb, leb, Result-cases, false, IsU64,
}
use blockstore.Store.{
  Store, exceeds, advance_to_next_file, write_offset, reservation, reserved, reserve_space,
}
use native.Mathlib.Nat.{div-add-mod, mod-lt, mul_comm, mul-mod_left, mul-div_left}

-- The block stands in one file, and the index of the file is a u32.
abbrev pub InOneFile : Option ℕ → ℕ → ℕ → Type 0
InOneFile none offset size = Unit {0}
InOneFile (some limit) offset size =
    (offset % limit + size ≤ limit) × (offset / limit < 2 ^ 32) × (0 < limit)

-- `max_data_file_size` is a non-zero u64.
abbrev pub IsLimit : Option ℕ → Type 0
IsLimit none = Unit {0}
IsLimit (some limit) = (0 < limit) × (limit < 2 ^ 64)

pub record IsReserved (max : Option ℕ) (current size offset : ℕ) : Type 0 where
  pub after : current ≤ offset
  pub one_file : InOneFile max offset size
  pub single : max ≡ none → offset ≡ current

pub next_file :
    (current limit idx next : ℕ)
    → 0 < limit
    → idx ≡ current / limit
    → advance_to_next_file idx limit ≡ ok next
    → (current < next) × (next % limit ≡ 0) × (next / limit < 2 ^ 32)
unfolding advance_to_next_file
next_file current limit idx next pos e h =
    let here : next ≡ (idx + 1) * limit = ground arith in
    let small : idx + 1 < 2 ^ 32 = ground arith in
    let index : next / limit ≡ idx + 1 = rw here (mul-div_left (idx + 1) pos) in
    (
      rw (here, e)
          (omega (
            arith,
            div-add-mod current limit,
            mod-lt current pos,
            mul_comm limit (current / limit),
          )),
      rw here (mul-mod_left (idx + 1) limit),
      omega (arith, index),
    )

-- The file in which the highwater stands has a u32 index.
abbrev pub InFiles : Option ℕ → ℕ → Type 0
InFiles none current = Unit {0}
InFiles (some limit) current = current / limit < 2 ^ 32

write_offset_ok :
    (max : Option ℕ) (current size offset : ℕ)
    → IsLimit max
    → InFiles max current
    → exceeds max size ≡ false
    → write_offset max current size ≡ ok offset
    → IsReserved max current size offset
unfolding write_offset exceeds
write_offset_ok none current size offset l f x h = record {
  after = ground arith;
  one_file = tt;
  single = λ e. ground arith;
}
write_offset_ok (some limit) current size offset l f x h =
    elim (Bool-cases (ltb (current % limit + size) (2 ^ 64))) [
      | inr wraps ↦ absurd (ground arith)
      | inl adds ↦ elim (Bool-cases (leb (current % limit + size) limit)) [
        | inl fits ↦
            let here : offset ≡ current = ground arith in
            record {
              after = omega arith;
              one_file = rw here (ground arith, f, l.0);
              single = λ e. absurd (cc);
            }
        | inr skips ↦
            let advanced : advance_to_next_file (current / limit) limit ≡ ok offset =
              ground arith in
            let (later, start, index) =
              next_file current limit (current / limit) offset l.0 refl advanced in
            record {
              after = omega arith;
              one_file = (rw start (ground arith), index, l.0);
              single = λ e. absurd (cc);
            }
      ]
    ]

reservation_ok :
    (max : Option ℕ) (current size offset end : ℕ)
    → IsLimit max
    → InFiles max current
    → reservation max current size ≡ ok (offset, end)
    → IsReserved max current size offset × (end ≡ offset + size) × IsU64 end
unfolding reservation
reservation_ok max current size offset end l f h = elim (Bool-cases (exceeds max size)) [
  | inl x ↦ absurd (ground arith)
  | inr x ↦
      let w : write_offset max current size ≡ ok offset = ground arith in
      (write_offset_ok max current size offset l f x w, ground arith, ground arith)
]

pub never_panics : (max : Option ℕ) (current size : ℕ) → reservation max current size ≢ panic
unfolding reservation write_offset advance_to_next_file
never_panics none current size h = ground arith
never_panics (some limit) current size h = ground arith

pub reserve_space_eq :
    (size : ℕ) (s : Store) (r : Result (ℕ × ℕ))
    → reservation s.volume.files.max_data_file_size s.data_highwater size ≡ r
    → reserve_space size s ≡ reserved s r
unfolding reserve_space
reserve_space_eq size s r e = rw e

-- A reservation that succeeds moves the highwater to the end of the block and nothing else. The
-- block begins at the old highwater or past it and stands in one file with a u32 index. The size
-- limit is a non-zero u64, and the old highwater stands in a file with a u32 index.
pub reserve_space_ok :
    (size : ℕ) (s t : Store) (offset end previous : ℕ)
    → IsLimit s.volume.files.max_data_file_size
    → InFiles s.volume.files.max_data_file_size s.data_highwater
    → reserve_space size s ≡ (ok (offset, end, previous), t)
    → IsReserved s.volume.files.max_data_file_size s.data_highwater size offset
      × (end ≡ offset + size)
      × IsU64 end
      × (previous ≡ s.data_highwater)
      × (t ≡ record s { data_highwater = end })
unfolding reserved
reserve_space_ok size s t offset end previous l f h =
    let max = s.volume.files.max_data_file_size in
    let current = s.data_highwater in
    elim (Result-cases (reservation max current size)) [
      | inl ((o, n), e) ↦
          let r : reserve_space size s ≡ (ok (o, n, current), record s { data_highwater = n }) =
            reserve_space_eq size s _ e in
          let eo : o ≡ offset = cc in
          let en : n ≡ end = cc in
          let (a, b, c) = reservation_ok max current size offset end l f (rw (eo, en) at e) in
          (a, b, c, cc, cc)
      | inr (inl (e, b)) ↦ absurd (cc (reserve_space_eq size s (err e) b))
      | inr (inr b) ↦ absurd (cc (reserve_space_eq size s panic b))
    ]

-- A reservation that fails changes nothing, and none panics.
pub reserve_space_err :
    (size : ℕ) (s : Store)
    → ((e : Error) → (reserve_space size s).0 ≡ err e → (reserve_space size s).1 ≡ s)
      × ((reserve_space size s).0 ≢ panic)
unfolding reserved
reserve_space_err size s =
    elim (Result-cases (reservation s.volume.files.max_data_file_size s.data_highwater size)) [
      | inl ((o, n), e) ↦ rw (reserve_space_eq size s (ok (o, n)) e) (λ x h. absurd (cc), λ h. cc)
      | inr (inl (e, b)) ↦ rw (reserve_space_eq size s (err e) b) (λ x h. refl, λ h. cc)
      | inr (inr b) ↦
          absurd (never_panics s.volume.files.max_data_file_size s.data_highwater size b)
    ]

write_offset_after :
    (max : Option ℕ) (current size offset : ℕ)
    → IsLimit max
    → write_offset max current size ≡ ok offset
    → current ≤ offset
unfolding write_offset
write_offset_after none current size offset l h = ground arith
write_offset_after (some limit) current size offset l h =
    ground (arith, next_file current limit (current / limit) offset l.0 refl)

reservation_after :
    (max : Option ℕ) (current size offset end : ℕ)
    → IsLimit max
    → reservation max current size ≡ ok (offset, end)
    → (current ≤ offset) × (end ≡ offset + size)
unfolding reservation
reservation_after max current size offset end l h =
    ground (arith, write_offset_after max current size offset l)

-- Wherever the highwater stands, a block never begins before it.
pub reserve_space_after :
    (size : ℕ) (s t : Store) (offset end previous : ℕ)
    → IsLimit s.volume.files.max_data_file_size
    → reserve_space size s ≡ (ok (offset, end, previous), t)
    → (s.data_highwater ≤ offset)
      × (end ≡ offset + size)
      × (previous ≡ s.data_highwater)
      × (t ≡ record s { data_highwater = end })
unfolding reserved
reserve_space_after size s t offset end previous l h =
    let max = s.volume.files.max_data_file_size in
    let current = s.data_highwater in
    elim (Result-cases (reservation max current size)) [
      | inl ((o, n), e) ↦
          let r : reserve_space size s ≡ (ok (o, n, current), record s { data_highwater = n }) =
            reserve_space_eq size s _ e in
          let eo : o ≡ offset = cc in
          let en : n ≡ end = cc in
          let (a, b) = reservation_after max current size offset end l (rw (eo, en) at e) in
          (a, b, cc, cc)
      | inr (inl (e, b)) ↦ absurd (cc (reserve_space_eq size s (err e) b))
      | inr (inr b) ↦ absurd (cc (reserve_space_eq size s panic b))
    ]
