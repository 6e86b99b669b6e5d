-- ===== src/Cli/Import.antt =====
-- The import of blockstore-cli/src/import.rs: blocks put together from the rows of a LevelDB, and
-- written to a new store. The rows that LevelDB gives from a key on, and the list encoding of the
-- rlp crate, are parameters. What is printed is not modelled.
use blockstore.Prelude.{
  ℕ, Bool, true, false, not, ◌||◌, List, [], ◌∷◌, Option, none, some, M, Result, ok, err, Error,
  ◌>>=◌, ◌>>◌, pure, fail, lift, ok_or, if◌then◌else◌, ◌==◌, checked_add, then_ok, bytes_eq,
}
use blockstore.Disk.{Disk}
use blockstore.Store.{Codec, Store, SyncMode, async, sync}
use blockstore.Store.ReadWrite.{write_block}
use blockstore.Store.Lifecycle.{new_store}
use blockstore.Cli.{using_store, expect}
use blockstore.Cli.Keys.{LevelDbKey, height, is_header, is_body, is_receipts, from_u8, as_slice}

-- A row of the database, with its key read.
abbrev pub Row : Type 0
Row = LevelDbKey × List ℕ

-- `Option<BlockHeight>` by `!=`.
abbrev pub same_height : Option ℕ → Option ℕ → Bool
same_height none none = true
same_height none (some b) = false
same_height (some a) none = false
same_height (some a) (some b) = a == b

-- `Iterator::filter` of the header rows.
unfoldable pub header_rows : List Row → List Row
header_rows [] = []
header_rows (r ∷ rs) = if is_header r.0 then r ∷ header_rows rs else header_rows rs

-- `Iterator::zip`.
abbrev pub zip : {A B : Type 0} → List A → List B → List (A × B)
zip [] bs = []
zip (a ∷ as') [] = []
zip (a ∷ as') (b ∷ bs) = (a, b) ∷ zip as' bs

-- "sync" and "async".
abbrev pub sync_name : List ℕ
sync_name = 115 ∷ 121 ∷ 110 ∷ 99 ∷ []

abbrev pub async_name : List ℕ
async_name = 97 ∷ sync_name

-- The argument `sync` of the import.
unfoldable pub sync_mode_of : List ℕ → Result SyncMode
sync_mode_of name =
    if bytes_eq name sync_name
    then ok sync
    else if bytes_eq name async_name
    then ok async
    else err Error.invalid_sync_mode

-- A database that is open: its rows from the bytes of a key on, as LevelDB orders them.
abbrev pub Database : Type 0
Database = List ℕ → List (List ℕ × List ℕ)

abbrev pub read_keys : List (List ℕ × List ℕ) → List Row
read_keys [] = []
read_keys ((key, value) ∷ rows) = (from_u8 key, value) ∷ read_keys rows

-- `db.iter(..).from(&start)`.
unfoldable pub rows_from : Database → LevelDbKey → Result (List Row)
rows_from db start = then_ok (as_slice start) (λ bytes. ok (read_keys (db bytes)))

module _ (c : Codec) (encode_list : List (List ℕ) → List ℕ) where
  -- The end of a round: the block is written and counted.
  unfoldable pub write_row : Option ℕ → List ℕ → ℕ → M Store ℕ
  write_row block_height block count = do
    h ← lift (expect block_height)
    write_block c h block
    lift (ok_or (checked_add count 1) Error.overflow)

  -- The loop over bodies and headers.
  unfoldable pub import_blocks : List (Row × Row) → ℕ → M Store ℕ
  import_blocks [] count = pure count
  import_blocks (((body_key, body_value), (header_key, header_value)) ∷ rows) count =
      if not (is_body body_key) || not (is_header header_key)
      then pure count
      else if not (same_height (height body_key) (height header_key))
      then fail Error.different_heights
      else do
        counted ← write_row (height body_key) (encode_list (header_value ∷ body_value ∷ [])) count
        import_blocks rows counted

  -- The loop over bodies, headers and receipts.
  unfoldable pub import_with_receipts : List ((Row × Row) × Row) → ℕ → M Store ℕ
  import_with_receipts [] count = pure count
  import_with_receipts
        ((((body_key, body_value), (header_key, header_value)), (receipts_key, receipts_value))
          ∷ rows)
        count =
      if not (is_body body_key) || (not (is_header header_key) || not (is_receipts receipts_key))
      then pure count
      else if not (same_height (height body_key) (height header_key))
          || not (same_height (height body_key) (height receipts_key))
      then fail Error.different_heights_with_receipts
      else do
        counted ←
            write_row (height body_key)
              (encode_list (header_value ∷ body_value ∷ receipts_value ∷ [])) count
        import_with_receipts rows counted

  abbrev pub start_key : Option ℕ → LevelDbKey → (ℕ → LevelDbKey) → LevelDbKey
  start_key none first at = first
  start_key (some h) first at = at h

  -- The rows of `import`, and the loop that they go through.
  unfoldable pub import_rows : Database → Option ℕ → Bool → M Store ℕ
  import_rows db start_block include_receipts = do
    headers ← lift (rows_from db (start_key start_block LevelDbKey.header_start LevelDbKey.header))
    bodies ← lift (rows_from db (start_key start_block LevelDbKey.body_start LevelDbKey.body))
    if include_receipts
        then (do
          receipts ←
              lift
                (rows_from db (start_key start_block LevelDbKey.receipts_start LevelDbKey.receipts))
          import_with_receipts (zip (zip bodies (header_rows headers)) receipts) 0)
        else import_blocks (zip bodies (header_rows headers)) 0

  -- `import`, which gives the number of blocks that it wrote.
  unfoldable pub import_command : Result Database → List ℕ → ℕ → Option ℕ → Bool → M Disk ℕ
  import_command opened name min_height start_block include_receipts = do
    db ← lift opened
    mode ← lift (sync_mode_of name)
    (λ d.
        using_store (import_rows db start_block include_receipts)
          (new_store c true mode min_height d))
