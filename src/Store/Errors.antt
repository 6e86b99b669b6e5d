-- ===== src/Store/Errors.antt =====
-- The errors of `write_block` of blockstore/src/store.rs. The disk may fail any call.
use blockstore.Prelude.{
  ℕ, ◌+◌, ◌^◌, ◌≡◌, refl, ◌∙◌, ap, ◌⊎◌, inl, inr, true, List, some, Result, ok, err, panic, Error,
  length, ◌==◌, ==_iff, ltb, Bool-cases, Option-cases, Result-cases, Ensures, replicate,
}
use blockstore.Format.{serialized_size}
use blockstore.Store.{
  Store, Codec, index_entry_offset, reservation, reserved, reserve_space, release_reservation,
}
use blockstore.Store.ReadWrite.{new_header, write_data, commit_block, store_block, write_block}
use blockstore.Store.Reserve.{reserve_space_eq, never_panics}
use blockstore.Store.Failure.{IsUndone, write_data-Ensures}

IsUndone-refl : (s : Store) → IsUndone s s
IsUndone-refl s = record { volume = s.volume; rest = refl; index_file = refl }

same_IsUndone :
    (s t : Store) (e x : Error)
    → ◌≡◌ {A = Result (Unit {0}) × Store} (err x, s) (err e, t)
    → IsUndone s t
same_IsUndone s t e x h = let same : s ≡ t = cc in rw (← same) (IsUndone-refl s)

failed_state :
    (P : Store → Type 0) (r : Result (Unit {0}) × Store) (e : Error)
    → Ensures (λ u x. P x) P r
    → r.0 ≡ err e
    → P r.1
failed_state P (ok a, s) e h k = h
failed_state P (err x, s) e h k = h
failed_state P (panic, s) e h k = h

-- A reservation that is given back at once leaves the highwater where it was.
release_IsUndone :
    (s x : Store) (end : ℕ)
    → IsUndone (record s { data_highwater = end }) x
    → IsUndone s (release_reservation s.data_highwater end x)
unfolding release_reservation
release_IsUndone s x end u =
    let stands : x.data_highwater ≡ end = ap (λ (y : Store). y.data_highwater) u.rest in
    let last : (x.data_highwater == end) ≡ true = (==_iff x.data_highwater end).1 stands in
    rw last (record {
      volume = u.volume;
      rest = ap (λ (y : Store). record y { data_highwater = s.data_highwater }) u.rest;
      index_file = u.index_file;
    })

-- The data was written in full, and the error is that of the index or of the checkpoint.
pub record IsCommitError (c : Codec) (s : Store) (height : ℕ) (block : List ℕ) (e : Error)
    (t : Store) : Type 0 where
  pub place : ℕ
  pub offset : ℕ
  pub end : ℕ
  pub after : Store
  pub has_place : index_entry_offset s.header.min_height height ≡ some place
  pub reserved :
      reserve_space (length (c.compress block) + serialized_size) s
      ≡ (ok (offset, end, s.data_highwater), record s { data_highwater = end })
  pub wrote :
      write_data offset
        (c.compress block)
        (new_header c height block)
        (record s { data_highwater = end })
      ≡ (ok tt, after)
  pub failed :
      commit_block height place end
        (record { offset = offset; size = length (c.compress block); reserved = replicate 4 0 })
        after
      ≡ (err e, t)

module _ (c : Codec) (s : Store) (height : ℕ) (block : List ℕ) (e : Error) (t : Store) where
  reserved_err :
      (place offset end : ℕ)
      → index_entry_offset s.header.min_height height ≡ some place
      → reserve_space (length (c.compress block) + serialized_size) s
        ≡ (ok (offset, end, s.data_highwater), record s { data_highwater = end })
      → store_block c height block s ≡ (err e, t)
      → IsUndone s t ⊎ IsCommitError c s height block e t
  unfolding store_block release_reservation
  reserved_err place offset end p r h =
      let s1 : Store = record s { data_highwater = end } in
      let run = write_data offset (c.compress block) (new_header c height block) s1 in
      let kept = write_data-Ensures s1 offset (c.compress block) (new_header c height block) in
      elim (Result-cases run.0) [
        | inl (u, k) ↦ inr (record {
          place = place;
          offset = offset;
          end = end;
          after = run.1;
          has_place = p;
          reserved = r;
          wrote = rw k refl;
          failed = rw (p, r, k) at h;
        })
        | inr (inl (x, k)) ↦
            let u = failed_state (IsUndone s1) run x kept k in
            let undone = release_IsUndone s run.1 end u in
            let left : ◌≡◌ {A = Result (Unit {0}) × Store}
                (err x, release_reservation s.data_highwater end run.1) (err e, t) =
              rw (p, r, k, release_reservation) at h in
            let same : release_reservation s.data_highwater end run.1 ≡ t = cc in
            inl (rw (← same) undone)
        | inr (inr k) ↦ absurd (
            let stuck : ◌≡◌ {A = Result (Unit {0})} panic (err e) =
              rw (p, r, k) at (ap (λ (y : Result (Unit {0}) × Store). y.0) h) in
            cc)
      ]

  store_block_err :
      store_block c height block s ≡ (err e, t) → IsUndone s t ⊎ IsCommitError c s height block e t
  unfolding store_block
  store_block_err h =
      let size = length (c.compress block) + serialized_size in
      elim (Option-cases (index_entry_offset s.header.min_height height)) [
        | inl gone ↦ inl (same_IsUndone s t e Error.invalid_block_height (rw gone at h))
        | inr (place, p) ↦
            elim (Result-cases
              (reservation s.volume.files.max_data_file_size s.data_highwater size)) [
                | inl ((offset, end), r) ↦
                    reserved_err place offset end p
                      (reserve_space_eq size s _ r ∙ unfold reserved in refl) h
                | inr (inl (x, r)) ↦
                    let failed : reserve_space size s ≡ (err x, s) =
                      reserve_space_eq size s _ r ∙ unfold reserved in refl in
                    inl (same_IsUndone s t e x (rw (p, failed) at h))
                | inr (inr r) ↦
                    absurd (never_panics s.volume.files.max_data_file_size s.data_highwater size r)
              ]
      ]

  -- When `write_block` fails, either nothing of the store has changed but the volume, and in it not
  -- the index file, so that the space is given back and no height, entry or checkpoint moved; or
  -- the data was written in full behind a reservation that stays, and the error is that of the index
  -- write or of the checkpoint. The disk may fail any call.
  pub write_block_err :
      write_block c height block s ≡ (err e, t) → IsUndone s t ⊎ IsCommitError c s height block e t
  unfolding write_block
  write_block_err h = elim (Bool-cases (length block == 0)) [
    | inl empty ↦ inl (same_IsUndone s t e Error.block_is_empty (rw empty at h))
    | inr some_bytes ↦ elim (Bool-cases (ltb (length block) (2 ^ 32))) [
      | inr long ↦ inl (same_IsUndone s t e Error.block_too_large (rw (some_bytes, long) at h))
      | inl short ↦ elim (Bool-cases (ltb (length (c.compress block)) (2 ^ 32))) [
        | inl packs ↦ store_block_err (rw (some_bytes, short, packs) at h)
        | inr wide ↦ absurd (
            let stuck : ◌≡◌ {A = Result (Unit {0})} panic (err e) =
              rw (some_bytes, short, wide) at (ap (λ (y : Result (Unit {0}) × Store). y.0) h) in
            cc)
      ]
    ]
  ]
