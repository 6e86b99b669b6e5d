-- ===== src/Cli.antt =====
-- The command line tool of blockstore-cli/src/main.rs: `path_resolver`, and the commands `Get` and
-- `Copy`. A `Disk` is the index and data directory of a store; what is printed is not modelled.
pub mod Keys
pub mod KeyOrder
pub mod Import
pub mod Importing
pub mod Copying
pub mod CopyCommand
pub mod Getting
use blockstore.Prelude.{
  ℕ, suc, zero, ◌+◌, Bool, true, false, List, Option, none, some, M, Result, ok, err, panic, Error,
  ◌>>=◌, ◌>>◌, pure, lift, zoom, ok_or, unwrap_or, checked_add,
}
use blockstore.Disk.{Disk}
use blockstore.Store.{Codec, Store, async}
use blockstore.Store.ReadWrite.{read_block, write_block}
use blockstore.Store.Lifecycle.{new_store, close}

-- `Option::or`.
abbrev pub or_else : {A : Type 0} → Option A → Option A → Option A
or_else (some a) b = some a
or_else none b = b

-- `path_resolver`, of paths as bytes: the index path and the data path.
unfoldable pub path_resolver :
    Option (List ℕ) → Option (List ℕ) → Option (List ℕ) → Result (List ℕ × List ℕ)
path_resolver db_path index_path data_path = elim (or_else index_path db_path) [
  | none ↦ err Error.no_index_path
  | some index ↦ elim (or_else data_path db_path) [
    | none ↦ err Error.no_data_path
    | some data_dir ↦ ok (index, data_dir)
  ]
]

-- What is done with a store that is dropped at the end.
abbrev pub using_store : {A : Type 0} → M Store A → Result Store × Disk → Result A × Disk
using_store m (ok s, d) = let (r, t) = m s in (r, close t)
using_store m (err e, d) = (err e, d)
using_store m (panic, d) = (panic, d)

-- `Option::expect`.
abbrev pub expect : {A : Type 0} → Option A → Result A
expect none = panic
expect (some a) = ok a

module _ (c : Codec) where
  -- `Commands::Get`: the block of a height.
  unfoldable pub get_command : ℕ → M Disk (List ℕ)
  get_command height d =
      using_store (do block ← read_block c height; lift (expect block))
        (new_store c false async height d)

  -- The two stores of `Commands::Copy`.
  abbrev pub on_source : {A : Type 0} → M Store A → M (Store × Store) A
  on_source = zoom (λ p. p.0) (λ s p. (s, p.1))

  abbrev pub on_target : {A : Type 0} → M Store A → M (Store × Store) A
  on_target = zoom (λ p. p.1) (λ s p. (p.0, s))

  -- The loop of `Commands::Copy`, which gives the height at which it ended. Each round that goes on
  -- has read an entry of a greater height from the index of the source, so the size of that file
  -- is fuel enough.
  unfoldable pub copy_loop : ℕ → ℕ → M (Store × Store) ℕ
  copy_loop zero height = pure height
  copy_loop (suc fuel) height = do
    found ← on_source (read_block c height)
    elim found [
      | none ↦ pure height
      | some block ↦ do
        on_target (write_block c height block)
        next ← lift (ok_or (checked_add height 1) Error.overflow)
        copy_loop fuel next
    ]

  -- Both stores are dropped at the end.
  abbrev pub closed : {A : Type 0} → Result A × (Store × Store) → Result A × (Disk × Disk)
  closed (r, (s, t)) = (r, (close s, close t))

  abbrev pub copy_between : Option ℕ → ℕ → Store → Result Store × Disk → Result ℕ × (Disk × Disk)
  copy_between start_block first source (ok target, e) = closed (
      copy_loop (suc source.volume.disk.index_file.size) (unwrap_or start_block first)
        (source, target))
  copy_between start_block first source (err x, e) = (err x, (close source, e))
  copy_between start_block first source (panic, e) = (panic, (close source, e))

  abbrev pub copy_from : Option ℕ → Disk → Result Store × Disk → Result ℕ × (Disk × Disk)
  copy_from start_block e (ok source, d) =
      let first = unwrap_or start_block source.header.min_height in
      copy_between start_block first source (new_store c true async first e)
  copy_from start_block e (err x, d) = (err x, (d, e))
  copy_from start_block e (panic, d) = (panic, (d, e))

  -- `Commands::Copy`, from the disk of one store to the disk of another.
  unfoldable pub copy_command : Option ℕ → M (Disk × Disk) ℕ
  copy_command start_block (d, e) = copy_from start_block e (new_store c false async 1 d)
