-- ===== src/Store/Recovery/Progress.antt =====
-- The rounds of `recover_unindexed_blocks` in blockstore/src/store.rs: whatever the disk does, each
-- one that does not break moves the scan up.
use blockstore.Prelude.{
  saturating_add, u32_max, leb, ltb, Error, checked_add, ok_or, lift, replicate, ℕ, ◌/◌, ◌<◌, ◌^◌,
  ◌≡◌, refl, ◌∙◌, inl, inr, Bool, true, false, List, Option, none, some, Result, ok, err, panic,
  arith, lookup, Option-cases, Bool-cases, Result-cases, Ensures, bind-Ensures,
}
use blockstore.Format.{deserialize, BlockHeader, IndexEntry, serialized_size}
use blockstore.FileSet.{Handle, get_or_open, split_offset}
use blockstore.FileSet.Opening.{get_or_open_limit}
use blockstore.Store.{
  on_volume, update_highwater, Codec, Store, update_index_at, advance_to_next_file,
}
use blockstore.Store.Reserve.{IsLimit, next_file}
use blockstore.Store.Recovery.{
  is_rejected, is_intact, on_store, Scan, window_read, refill, update_index_if_changed,
  checkpoint_recovery_progress, index_block, scan_payload, scan_block, skip_tail, scan_step,
}

-- The scan stands where it stood, with the same limit.
abbrev IsStill : Scan → Scan → Type 0
IsStill s t =
    (t.store.header.next_write_offset ≡ s.store.header.next_write_offset)
    × (t.store.volume.files.max_data_file_size ≡ s.store.volume.files.max_data_file_size)

IsStill-trans : (s t u : Scan) → IsStill s t → IsStill t u → IsStill s u
IsStill-trans s t u a b = (b.0 ∙ a.0, b.1 ∙ a.1)

window_read-IsStill : (s : Scan) (i at n size : ℕ) → IsStill s (window_read i at n size s).1
unfolding window_read refill
window_read-IsStill s i at n size = ground arith

update_still :
    (s : Store) (height : ℕ) (entry : IndexEntry)
    → ((update_index_if_changed height entry s).1.header ≡ s.header)
      × ((update_index_if_changed height entry s).1.volume.files ≡ s.volume.files)
unfolding update_index_if_changed update_index_at
update_still s height entry = ground arith

progress_still :
    (s : Store)
    → ((checkpoint_recovery_progress s).1.header.next_write_offset ≡ s.header.next_write_offset)
      × ((checkpoint_recovery_progress s).1.volume.files ≡ s.volume.files)
unfolding checkpoint_recovery_progress
progress_still s = ground arith

-- A property of the state that is left, wanted only where the code goes on.
if_ok :
    {S A : Type 0} (P : S → Type 0) (r : Result A) (s : S)
    → P s
    → Ensures (λ (a : A) t. P t) (λ t. Unit {0}) (r, s)
if_ok P (ok a) s h = h
if_ok P (err e) s h = tt
if_ok P panic s h = tt

-- The next file starts above the offset.
next_above :
    (limit scan next : ℕ)
    → 0 < limit
    → advance_to_next_file (split_offset (some limit) scan).0 limit ≡ ok next
    → scan < next
unfolding split_offset
next_above limit scan next pos e = elim (Bool-cases (ltb (scan / limit) (2 ^ 32))) [
  | inl small ↦
      let idx : (split_offset (some limit) scan).0 ≡ scan / limit = rw small refl in
      (next_file scan limit (scan / limit) next pos refl (rw idx at e)).0
  | inr large ↦
      let idx : (split_offset (some limit) scan).0 ≡ u32_max = rw large refl in
      let past : advance_to_next_file u32_max limit ≡ err Error.data_offset_overflow =
        unfold advance_to_next_file in refl in
      let last = rw idx at e in absurd (cc)
]

-- A round that goes on has moved the scan up.
module _ (c : Codec) (end : ℕ) (data_files : List (ℕ × ℕ)) (s : Scan) where
  abbrev pub IsOn : Bool → Scan → Type 0
  IsOn more t =
      (more ≡ true → s.store.header.next_write_offset < t.store.header.next_write_offset)
      × (t.store.volume.files.max_data_file_size ≡ s.store.volume.files.max_data_file_size)

  index_block-IsOn :
      (t : Scan) (header : BlockHeader)
      → IsStill s t
      → Ensures IsOn (λ u. Unit {0}) (index_block s.store.header.next_write_offset header t)
  unfolding index_block update_highwater checkpoint_recovery_progress
  index_block-IsOn t header k =
      let Q = λ (more : Bool) (x : Scan). IsOn more x in
      let entry : IndexEntry = record {
        offset = s.store.header.next_write_offset;
        size = header.size;
        reserved = replicate 4 0;
      } in
      let update = update_index_if_changed header.height entry in
      let still = update_still t.store header.height entry in
      bind-Ensures Q (λ (x : Scan). Unit {0}) (λ (u : Unit {0}) (x : Scan). IsStill s x)
        (on_store update) _ t
        (if_ok (IsStill s) (update t.store).0 (record t { store = (update t.store).1 })
          (ground (arith, still, k)))
        (λ u x h. ground (arith, h))

  skip_tail-IsOn :
      IsLimit s.store.volume.files.max_data_file_size
      → Ensures IsOn
          (λ u. Unit {0})
          (skip_tail s.store.volume.files.max_data_file_size
            (split_offset s.store.volume.files.max_data_file_size
              s.store.header.next_write_offset).0
            s)
  unfolding skip_tail
  skip_tail-IsOn = skips s.store.volume.files.max_data_file_size
    where
      skips :
          (limit : Option ℕ)
          → IsLimit limit
          → Ensures IsOn
              (λ u. Unit {0})
              (skip_tail limit (split_offset limit s.store.header.next_write_offset).0 s)
      skips none l = (λ e. absurd (cc), refl)
      skips (some limit) l =
          elim (Result-cases (
            advance_to_next_file (split_offset (some limit) s.store.header.next_write_offset).0
              limit)) [
                | inl (next, e) ↦
                    rw e (λ on. next_above limit s.store.header.next_write_offset next l.0 e, refl)
                | inr (inl (x, e)) ↦ rw e tt
                | inr (inr e) ↦ rw e tt
              ]

  scan_payload-IsOn :
      (t : Scan) (i header_end size : ℕ) (header : BlockHeader)
      → IsStill s t
      → Ensures IsOn
          (λ u. Unit {0})
          (scan_payload c s.store.header.next_write_offset i header_end size header t)
  unfolding scan_payload
  scan_payload-IsOn t i header_end size header k =
      let Q = λ (more : Bool) (x : Scan). IsOn more x in
      let N = λ (x : Scan). Unit {0} in
      bind-Ensures Q N (λ (o : ℕ) (x : Scan). IsStill s x)
        (lift (ok_or (checked_add header_end header.size) Error.block_end_overflow)) _ t
        (if_ok (IsStill s) _ t k)
        λ block_end x h. elim (Bool-cases (ltb size block_end)) [
          | inl over ↦ rw over (λ e. absurd (cc), h.1)
          | inr fits ↦ rw fits (
              bind-Ensures Q N (λ (bytes : List ℕ) (y : Scan). IsStill s y)
                (window_read i header_end header.size size) _ x
                (if_ok (IsStill s) (window_read i header_end header.size size x).0
                  (window_read i header_end header.size size x).1
                  (IsStill-trans s x (window_read i header_end header.size size x).1 h
                    (window_read-IsStill x i header_end header.size size)))
                λ bytes y k'. elim (Result-cases (is_intact c bytes header)) [
                  | inl (true, e) ↦ rw e (index_block-IsOn y header k')
                  | inl (false, e) ↦ rw e (λ on. absurd (cc), k'.1)
                  | inr (inl (x', e)) ↦ rw e tt
                  | inr (inr e) ↦ rw e tt
                ])
        ]

  scan_block-IsOn :
      (i at header_end size : ℕ)
      → Ensures IsOn
          (λ u. Unit {0})
          (scan_block c s.store.header.next_write_offset i at header_end size s)
  unfolding scan_block
  scan_block-IsOn i at header_end size =
      let Q = λ (more : Bool) (x : Scan). IsOn more x in
      let N = λ (x : Scan). Unit {0} in
      let Still = λ (x : Scan). IsStill s x in
      bind-Ensures Q N (λ (h : Handle) (x : Scan). IsStill s x)
        (on_store (on_volume (get_or_open i))) _ s
        (if_ok Still (get_or_open i s.store.volume).0 _ (refl, get_or_open_limit i s.store.volume))
        λ h x k.
          let read = window_read i at serialized_size size in
          bind-Ensures Q N (λ (bytes : List ℕ) (y : Scan). IsStill s y) read _ x
            (if_ok Still (read x).0 (read x).1
              (IsStill-trans s x (read x).1 k (window_read-IsStill x i at serialized_size size)))
            λ bytes y k'. elim (Result-cases (deserialize bytes)) [
              | inr (inl (e, p)) ↦ rw p tt
              | inr (inr p) ↦ rw p tt
              | inl (header, p) ↦
                  rw p (elim (Bool-cases (is_rejected y.store.header.min_height header)) [
                    | inl refused ↦ rw refused (λ e. absurd (cc), k'.1)
                    | inr fine ↦ rw fine (scan_payload-IsOn y i header_end size header k')
                  ])
            ]

  pub scan_step-IsOn :
      IsLimit s.store.volume.files.max_data_file_size
      → Ensures IsOn (λ u. Unit {0}) (scan_step c end data_files s)
  unfolding scan_step
  scan_step-IsOn l =
      let scan = s.store.header.next_write_offset in
      let (i, at) = split_offset s.store.volume.files.max_data_file_size scan in
      elim (Bool-cases (leb end scan)) [
        | inl over ↦ rw over (λ e. absurd (cc), refl)
        | inr within ↦ elim (Option-cases (lookup i data_files)) [
          | inl gone ↦ rw (within, gone) (λ e. absurd (cc), refl)
          | inr (size, e) ↦ elim (Bool-cases (ltb size (saturating_add at serialized_size))) [
            | inl short ↦ rw (within, e, short) (skip_tail-IsOn l)
            | inr long ↦
                rw (within, e, long) (scan_block-IsOn i at (saturating_add at serialized_size) size)
          ]
        ]
      ]
