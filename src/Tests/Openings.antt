-- ===== src/Tests/Openings.antt =====
-- Opening, closing and recovery on concrete inputs.
use blockstore.Prelude.{◌+◌, ◌≤◌, ◌≡◌, refl, ap, true, [], ◌∷◌, none, some, ok, err, Error, arith}
use blockstore.Disk.{set_index, Disk, success, failure}
use blockstore.Disk.Files.{File, empty_file, bytes_from}
use blockstore.FileSet.Opening.{data_file}
use blockstore.Store.{Store}
use blockstore.Store.ReadWrite.{new_header}
use blockstore.Store.Landing.{data_file-put_data, size-landed}
use blockstore.Store.Refines.{Represents}
use blockstore.Store.Lifecycle.{StoreOptions, open_store, default_options}
use blockstore.Store.Creation.{IsNew, open_store-IsNew, open_cuts_before_lock}
use blockstore.Store.Recovery.{Scan, Window, new_window, window_read, set_window}
use blockstore.Store.Windows.{IsWindow, window_read-bytes_from}
use blockstore.Tests.Stores.{one-IsReady}
use blockstore.Tests.{codec, fresh_disk, fresh_volume}
use blockstore.Tests.Stores.{block, one_index, one, one_volume, one_file}

abbrev options : StoreOptions
options = record default_options { truncate = true; max_data_file_size = some 100 }

-- The disk of a store with one block, which is cut to nothing.
abbrev old_disk : Disk
old_disk = set_index one_index one_volume.disk

open_store-IsNew_example :
    (s : Store) × (open_store codec options old_disk ≡ (ok s, s.volume.disk))
    × IsNew options old_disk s
    × Represents codec s (λ height. none)
open_store-IsNew_example =
    open_store-IsNew codec options old_disk refl (omega arith) (omega arith, omega arith) refl
      one-IsReady.no_directory

-- The lock is held elsewhere, and the index file has the entry of one block.
abbrev shared_disk : Disk
shared_disk = record fresh_disk { index_file = one_index; outcomes = success ∷ failure 0 ∷ [] }

open_cuts_before_lock_example :
    (e : Disk) × (open_store codec options shared_disk ≡ (err Error.lock_held, e))
    × (e.index_file ≡ empty_file)
open_cuts_before_lock_example =
    open_cuts_before_lock codec options shared_disk 0 [] refl (omega arith) refl

abbrev start : Scan
start = record { store = one; window = new_window; last_progress = 0 }

new_window-IsWindow : IsWindow new_window one.volume
new_window-IsWindow = record { inside = λ i e. absurd (cc); bytes = λ i e. absurd (cc) }

block_inside : 0 + 22 ≤ (data_file 0 one.volume).size
unfolding data_file
block_inside =
    let f : data_file 0 one_volume ≡ one_file =
      data_file-put_data 0 0 one_file fresh_volume (omega arith) (omega arith) in
    omega (
      arith,
      ap (λ (x : File). x.size) f,
      size-landed empty_file 0 block (new_header codec 1 block) (omega arith),
    )

window_read-bytes_from_example :
    (w : Window) × (window_read 0 0 22 (data_file 0 one.volume).size start
      ≡ (ok (bytes_from (data_file 0 one.volume).byte 0 22), set_window w start))
    × IsWindow w one.volume
window_read-bytes_from_example =
    window_read-bytes_from start 0 0 22 refl new_window-IsWindow (omega arith) block_inside
