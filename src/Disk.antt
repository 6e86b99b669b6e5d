-- ===== src/Disk.antt =====
-- The file system as blockstore/src uses it: the index file, the data directory, and the calls of
-- `std::fs` that the crate makes. The environment decides each call: `outcomes` lists what the next
-- calls do, and a call past the end of the list succeeds. A failed write may have put down the
-- first bytes of its buffer, which is how a torn write or a full disk shows.
pub mod Files
pub mod Dir
pub mod Calls
use blockstore.Prelude.{
  ℕ, ◌≡◌, Bool, List, [], ◌∷◌, Option, none, some, M, ok, err, Result, Error, ◌>>=◌, ◌>>◌, get,
  modify, pure, fail, lift, take,
}
use Files.{File, empty_file, read_at, read_exact_at, write_at}
use Dir.{DirEntry, Node, file, directory, find_node, put_file, file_or_empty}

-- What the environment lets a call do. `failure n`: an error, after `n` bytes of a write.
pub data Outcome : Type 0 where
  success : Outcome
  failure : ℕ → Outcome

pub record Disk : Type 0 where
  pub index_exists : Bool
  pub index_file : File
  pub data_dir : List DirEntry
  pub outcomes : List Outcome

take_outcome : List Outcome → Outcome × List Outcome
take_outcome [] = (success, [])
take_outcome (o ∷ os) = (o, os)

-- Every call of the system takes one outcome.
unfoldable pub next_outcome : M Disk Outcome
unfolding take_outcome
next_outcome d = let (o, os) = take_outcome d.outcomes in (ok o, record d { outcomes = os })

abbrev pub set_index : File → Disk → Disk
set_index f d = record d { index_file = f }

abbrev pub set_data : List ℕ → File → Disk → Disk
set_data name f d = record d { data_dir = put_file name f d.data_dir }

-- The result of a call under an outcome, and the bytes of a write that land under it.
abbrev pub answer : {A : Type 0} → Outcome → Result A → Result A
answer success r = r
answer (failure n) r = err Error.io

abbrev pub landed : Outcome → List ℕ → List ℕ
landed success bs = bs
landed (failure n) bs = take n bs

abbrev pub locked : Outcome → Result (Unit {0})
locked success = ok tt
locked (failure n) = err Error.lock_held

-- Calls on the index file: `read_at` and `write_all_at`.
unfoldable pub index_read_at : ℕ → ℕ → M Disk (List ℕ)
unfolding next_outcome
index_read_at offset n = do
  o ← next_outcome
  d ← get
  lift (answer o (ok (read_at d.index_file offset n)))

unfoldable pub index_write_all_at : ℕ → List ℕ → M Disk (Unit {0})
unfolding next_outcome
index_write_all_at offset bs = do
  o ← next_outcome
  modify (λ d. set_index (write_at d.index_file offset (landed o bs)) d)
  lift (answer o (ok tt))

-- A call that changes nothing that the model keeps, such as a step of `read_dir`.
unfoldable pub system_call : M Disk (Unit {0})
unfolding next_outcome
system_call = do o ← next_outcome; lift (answer o (ok tt))

-- `sync_all`, of either file.
unfoldable pub sync_all : M Disk (Unit {0})
unfolding system_call
sync_all = system_call

-- The same calls on the data file of a name, behind an open handle.
unfoldable pub data_read_exact_at : List ℕ → ℕ → ℕ → M Disk (List ℕ)
unfolding next_outcome
data_read_exact_at name offset n = do
  o ← next_outcome
  d ← get
  lift (answer o (read_exact_at (file_or_empty (find_node name d.data_dir)) offset n))

unfoldable pub data_write_all_at : List ℕ → ℕ → List ℕ → M Disk (Unit {0})
unfolding next_outcome
data_write_all_at name offset bs = do
  o ← next_outcome
  modify (λ d.
      set_data name (write_at (file_or_empty (find_node name d.data_dir)) offset (landed o bs)) d)
  lift (answer o (ok tt))

-- `OpenOptions::open` with `create`: a missing file is made, a directory is refused.
unfoldable pub opened : List ℕ → Option Node → M Disk (Unit {0})
opened name none = modify (set_data name empty_file)
opened name (some (file f)) = pure tt
opened name (some directory) = fail Error.io

unfoldable pub open_data_file : List ℕ → M Disk (Unit {0})
unfolding next_outcome opened
open_data_file name = do
  o ← next_outcome
  lift (answer o (ok tt))
  d ← get
  opened name (find_node name d.data_dir)

-- No call fails from here on.
abbrev pub IsQuiet : Disk → Type 0
IsQuiet d = d.outcomes ≡ []

-- `try_lock`: a failure means that another process holds the lock.
unfoldable pub try_lock : M Disk (Unit {0})
unfolding next_outcome
try_lock = do o ← next_outcome; lift (locked o)
