-- ===== src/Disk/Calls.antt =====
-- What each call of the system does when it succeeds, and what a failing write leaves.
use blockstore.Prelude.{ℕ, ◌≡◌, List, ok, arith, none, some}
use blockstore.Disk.Files.{File, read_at, read_exact_at, write_at, empty_file}
use blockstore.Disk.Dir.{file, find_node, file_or_empty}
use blockstore.Disk.{
  Disk, success, system_call, next_outcome, set_index, set_data, index_read_at, index_write_all_at,
  sync_all, data_read_exact_at, data_write_all_at, open_data_file, try_lock, IsQuiet,
}

next_outcome_quiet : (d : Disk) → IsQuiet d → next_outcome d ≡ (ok success, d)
unfolding next_outcome
next_outcome_quiet d q = ground arith

module _ (d : Disk) (q : IsQuiet d) where
  pub index_read_at_quiet :
      (offset n : ℕ) → index_read_at offset n d ≡ (ok (read_at d.index_file offset n), d)
  unfolding index_read_at
  index_read_at_quiet offset n = ground (arith, next_outcome_quiet d q)

  pub index_write_all_at_quiet :
      (offset : ℕ) (bs : List ℕ)
      → index_write_all_at offset bs d ≡ (ok tt, set_index (write_at d.index_file offset bs) d)
  unfolding index_write_all_at
  index_write_all_at_quiet offset bs = ground (arith, next_outcome_quiet d q)

  pub system_call_quiet : system_call d ≡ (ok tt, d)
  unfolding system_call
  system_call_quiet = ground (arith, next_outcome_quiet d q)

  pub sync_all_quiet : sync_all d ≡ (ok tt, d)
  unfolding sync_all
  sync_all_quiet = ground (arith, next_outcome_quiet d q)

  pub data_read_exact_at_quiet :
      (name : List ℕ) (offset n : ℕ)
      → data_read_exact_at name offset n d
        ≡ (read_exact_at (file_or_empty (find_node name d.data_dir)) offset n, d)
  unfolding data_read_exact_at
  data_read_exact_at_quiet name offset n = ground (arith, next_outcome_quiet d q)

  pub data_write_all_at_quiet :
      (name : List ℕ) (offset : ℕ) (bs : List ℕ)
      → data_write_all_at name offset bs d
        ≡ (ok tt, set_data name (write_at (file_or_empty (find_node name d.data_dir)) offset bs) d)
  unfolding data_write_all_at
  data_write_all_at_quiet name offset bs = ground (arith, next_outcome_quiet d q)

  pub open_data_file_old :
      (name : List ℕ) (f : File)
      → find_node name d.data_dir ≡ some (file f)
      → open_data_file name d ≡ (ok tt, d)
  unfolding open_data_file
  open_data_file_old name f e = ground (arith, next_outcome_quiet d q)

  pub open_data_file_new :
      (name : List ℕ)
      → find_node name d.data_dir ≡ none
      → open_data_file name d ≡ (ok tt, set_data name empty_file d)
  unfolding open_data_file
  open_data_file_new name e = ground (arith, next_outcome_quiet d q)

  pub try_lock_quiet : try_lock d ≡ (ok tt, d)
  unfolding try_lock
  try_lock_quiet = ground (arith, next_outcome_quiet d q)
