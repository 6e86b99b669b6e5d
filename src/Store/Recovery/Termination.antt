-- ===== src/Store/Recovery/Termination.antt =====
-- The loop of `recover_unindexed_blocks` in blockstore/src/store.rs ends.
use blockstore.Prelude.{
  leb, ℕ, suc, zero, ◌-◌, ◌<◌, ◌≡◌, refl, inl, inr, Bool, true, false, List, Result, Error, ok, err,
  panic, arith, Bool-cases, Result-cases, Ensures-value,
}
use blockstore.Store.{Codec, Store}
use blockstore.Store.Reserve.{IsLimit}
use blockstore.Store.Recovery.{Scan, scan_step, scan_loop, recover_unindexed_blocks}
use blockstore.Store.Recovery.Progress.{IsOn, scan_step-IsOn}
use blockstore.Store.Recovery.Recovers.{scan_of}

module _ (c : Codec) (end : ℕ) (data_files : List (ℕ × ℕ)) where
  -- The loop as the source has it, without fuel: it goes from a scan on until a round breaks, fails or
  -- panics, with this result and this scan. A loop that does not end has no such run.
  pub data Ends : Scan → Result (Unit {0}) → Scan → Type 0 where
    breaks : {s t : Scan} → scan_step c end data_files s ≡ (ok false, t) → Ends s (ok tt) t
    fails : {s t : Scan} {e : Error} → scan_step c end data_files s ≡ (err e, t) → Ends s (err e) t
    panics : {s t : Scan} → scan_step c end data_files s ≡ (panic, t) → Ends s panic t
    goes_on :
        {s t u : Scan} {r : Result (Unit {0})}
        → scan_step c end data_files s ≡ (ok true, t)
        → Ends t r u
        → Ends s r u

-- With more fuel than the distance to the end, the loop on fuel is the loop without.
scan_loop-Ends :
    (c : Codec) (end : ℕ) (data_files : List (ℕ × ℕ)) (fuel : ℕ) (s : Scan)
    → IsLimit s.store.volume.files.max_data_file_size
    → end - s.store.header.next_write_offset < fuel
    → Ends c end data_files s
        (scan_loop c fuel end data_files s).0
        (scan_loop c fuel end data_files s).1
unfolding scan_loop
scan_loop-Ends c end data_files zero s l h = absurd (omega arith)
scan_loop-Ends c end data_files (suc fuel) s l h =
    let step = scan_step c end data_files s in
    let t = step.1 in
    let again = scan_loop-Ends c end data_files fuel t in
    let on = scan_step-IsOn c end data_files s l in
    elim (Bool-cases (leb end s.store.header.next_write_offset)) [
      | inl over ↦
          let stops : scan_step c end data_files s ≡ (ok false, s) =
            unfold scan_step in rw over refl in
          rw stops (breaks stops)
      | inr within ↦ elim (Result-cases step.0) [
        | inl (false, e) ↦
            let stops : scan_step c end data_files s ≡ (ok false, t) = rw e refl in
            rw e (breaks stops)
        | inr (inl (x, e)) ↦
            let stops : scan_step c end data_files s ≡ (err x, t) = rw e refl in rw e (fails stops)
        | inr (inr e) ↦
            let stops : scan_step c end data_files s ≡ (panic, t) = rw e refl in rw e (panics stops)
        | inl (true, e) ↦
            let (up, limit) =
              Ensures-value (λ (b : Bool) (x : Scan). IsOn c end data_files s b x)
                (λ (x : Scan). Unit {0}) step.0 t true on e in
            let goes : scan_step c end data_files s ≡ (ok true, t) = rw e refl in
            rw e (goes_on goes (again (rw limit l) (ground (arith, up refl, within, h))))
      ]
    ]

-- The loop of `recover_unindexed_blocks` ends, whatever the disk does: after finitely many rounds
-- that move on, one breaks, fails or panics, and the function returns its result and the store
-- that it left. The limit of the data files is a non-zero u64, if there is one.
pub recover_unindexed_blocks-Ends :
    (c : Codec) (end : ℕ) (data_files : List (ℕ × ℕ)) (s : Store)
    → IsLimit s.volume.files.max_data_file_size
    → (r : Result (Unit {0})) × (t : Scan) × (recover_unindexed_blocks c end data_files s
        ≡ (r, t.store))
      × Ends c end data_files (scan_of s) r t
unfolding recover_unindexed_blocks
recover_unindexed_blocks-Ends c end data_files s l =
    let run = scan_loop c (suc (end - s.header.next_write_offset)) end data_files (scan_of s) in
    (
      run.0,
      run.1,
      refl,
      scan_loop-Ends c end data_files (suc (end - s.header.next_write_offset)) (scan_of s) l
          (omega arith),
    )
