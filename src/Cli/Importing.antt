-- ===== src/Cli/Importing.antt =====
-- The loops of blockstore-cli/src/import.rs: the blocks of rows with equal heights come into the
-- store, and the first rows with different heights end the import.
use blockstore.Prelude.{
  ℕ, ◌+◌, ◌<◌, ◌^◌, ◌≡◌, ◌≢◌, ap, Bool-cases, inl, inr, ==_iff, refl, ◌∙◌, List, [], ◌∷◌, ◌++◌,
  Option, some, ok, err, Error, arith, length, ◌==◌, ==_refl, ltb, lt→ltb, true,
}
use blockstore.Store.{Codec, IsCodec, Store}
use blockstore.Store.ReadWrite.{write_block}
use blockstore.Store.Refines.{Represents}
use blockstore.Cli.Copying.{put_all, HasRoomFor, write_first}
use blockstore.Cli.Keys.{LevelDbKey, height, is_body, is_header, is_receipts}
use blockstore.Cli.Import.{Row, write_row, import_blocks, import_with_receipts}

-- The rows of bodies and headers from a height on.
abbrev pub rows_of : ℕ → List (List ℕ × List ℕ) → List (Row × Row)
rows_of h [] = []
rows_of h ((header_value, body_value) ∷ rest) =
    ((LevelDbKey.body h, body_value), (LevelDbKey.header h, header_value)) ∷ rows_of (h + 1) rest

abbrev pub blocks_of : (List (List ℕ) → List ℕ) → List (List ℕ × List ℕ) → List (List ℕ)
blocks_of encode_list [] = []
blocks_of encode_list ((header_value, body_value) ∷ rest) =
    encode_list (header_value ∷ body_value ∷ []) ∷ blocks_of encode_list rest

-- The rows of bodies, headers and receipts from a height on.
abbrev pub triples_of : ℕ → List (List ℕ × List ℕ × List ℕ) → List ((Row × Row) × Row)
triples_of h [] = []
triples_of h ((header_value, body_value, receipts_value) ∷ rest) =
    (
      ((LevelDbKey.body h, body_value), (LevelDbKey.header h, header_value)),
      (LevelDbKey.receipts h, receipts_value),
    )
    ∷ triples_of (h + 1) rest

abbrev pub full_blocks_of :
    (List (List ℕ) → List ℕ) → List (List ℕ × List ℕ × List ℕ) → List (List ℕ)
full_blocks_of encode_list [] = []
full_blocks_of encode_list ((header_value, body_value, receipts_value) ∷ rest) =
    encode_list (header_value ∷ body_value ∷ receipts_value ∷ []) ∷ full_blocks_of encode_list rest

module _ (c : Codec) (encode_list : List (List ℕ) → List ℕ) (kd : IsCodec c) where
  write_row_lem :
      (h count : ℕ) (block : List ℕ) (t u : Store)
      → write_block c h block t ≡ (ok tt, u)
      → count + 1 < 2 ^ 64
      → write_row c encode_list (some h) block count t ≡ (ok (count + 1), u)
  unfolding write_row
  write_row_lem h count block t u wrote fits =
      let adds : ltb (count + 1) (2 ^ 64) ≡ true = lt→ltb _ _ fits in rw (wrote, adds) refl

  -- A round over rows with one height.
  import_round :
      (h count : ℕ) (header_value body_value : List ℕ) (rows : List (Row × Row)) (t u : Store)
      → write_block c h (encode_list (header_value ∷ body_value ∷ [])) t ≡ (ok tt, u)
      → count + 1 < 2 ^ 64
      → import_blocks c encode_list
          (((LevelDbKey.body h, body_value), (LevelDbKey.header h, header_value)) ∷ rows)
          count
          t
        ≡ import_blocks c encode_list rows (count + 1) u
  unfolding import_blocks is_body is_header height
  import_round h count header_value body_value rows t u wrote fits =
      let same = ==_refl h in
      let row =
        write_row_lem h count (encode_list (header_value ∷ body_value ∷ [])) t u wrote fits in
      rw (same, row) refl

  -- Rows of bodies and headers with equal heights, from a height on: their blocks, which the rlp
  -- crate makes of the header and the body, come into the store one by one, and are counted; the
  -- import then goes on with the rows that follow, if any. The store is sound, which includes
  -- that its disk does not fail, has one data file, and places and room for the blocks, which
  -- `write_block` takes, the crates do as they say, and the count stays a u64.
  pub import_blocks_run :
      (h count : ℕ) (pairs : List (List ℕ × List ℕ)) (rows : List (Row × Row))
      (blocks : ℕ → Option (List ℕ)) (t : Store)
      → Represents c t blocks
      → HasRoomFor c t h (blocks_of encode_list pairs)
      → count + length pairs < 2 ^ 64
      → (u : Store) × (import_blocks c encode_list (rows_of h pairs ++ rows) count t
          ≡ import_blocks c encode_list rows (count + length pairs) u)
        × Represents c u (put_all blocks h (blocks_of encode_list pairs))
  import_blocks_run h count [] rows blocks t r room fits =
      (t, ap (λ (n : ℕ). import_blocks c encode_list rows n t) (omega arith), r)
  import_blocks_run h count ((header_value, body_value) ∷ rest) rows blocks t r room fits =
      let (u, wrote, r', room') =
        write_first c t blocks h (encode_list (header_value ∷ body_value ∷ []))
          (blocks_of encode_list rest) kd r room in
      let (w, run, r2) =
        import_blocks_run (h + 1) (count + 1) rest rows _ u r' room' (omega arith) in
      (
        w,
        import_round h count header_value body_value (rows_of (h + 1) rest ++ rows) t u wrote
              (omega arith)
            ∙ run
            ∙ ap (λ (n : ℕ). import_blocks c encode_list rows n w) (omega arith),
        r2,
      )

  -- A header of another height than the body beside it ends the import with an error, whatever
  -- rows follow; the blocks of the rows before are in the store. The store is sound, which
  -- includes that its disk does not fail, has one data file, and places and room for those
  -- blocks, which `write_block` takes, the crates do as they say, and their count stays a u64.
  pub import_blocks_mismatch :
      (h count a b : ℕ) (pairs : List (List ℕ × List ℕ)) (body_value header_value : List ℕ)
      (rows : List (Row × Row)) (blocks : ℕ → Option (List ℕ)) (t : Store)
      → Represents c t blocks
      → HasRoomFor c t h (blocks_of encode_list pairs)
      → count + length pairs < 2 ^ 64
      → a ≢ b
      → (u : Store) × (import_blocks c encode_list
            (rows_of h pairs
              ++ ((LevelDbKey.body a, body_value), (LevelDbKey.header b, header_value)) ∷ rows)
            count
            t
          ≡ (err Error.different_heights, u))
        × Represents c u (put_all blocks h (blocks_of encode_list pairs))
  unfolding import_blocks is_body is_header height
  import_blocks_mismatch h count a b pairs body_value header_value rows blocks t r room fits ne =
      let more = ((LevelDbKey.body a, body_value), (LevelDbKey.header b, header_value)) ∷ rows in
      let (u, run, r') = import_blocks_run h count pairs more blocks t r room fits in
      elim (Bool-cases (a == b)) [
        | inl e ↦ absurd (ne ((==_iff a b).0 e))
        | inr apart ↦ (u, run ∙ rw apart refl, r')
      ]

  receipts_round :
      (h count : ℕ) (header_value body_value receipts_value : List ℕ)
      (rows : List ((Row × Row) × Row)) (t u : Store)
      → write_block c h (encode_list (header_value ∷ body_value ∷ receipts_value ∷ [])) t
        ≡ (ok tt, u)
      → count + 1 < 2 ^ 64
      → import_with_receipts c encode_list
          ((
            ((LevelDbKey.body h, body_value), (LevelDbKey.header h, header_value)),
            (LevelDbKey.receipts h, receipts_value),
          )
            ∷ rows)
          count
          t
        ≡ import_with_receipts c encode_list rows (count + 1) u
  unfolding import_with_receipts is_body is_header is_receipts height
  receipts_round h count header_value body_value receipts_value rows t u wrote fits =
      let same = ==_refl h in
      let row =
        write_row_lem h count (encode_list (header_value ∷ body_value ∷ receipts_value ∷ [])) t u
          wrote fits in
      rw (same, row) refl

  -- Rows of bodies, headers and receipts with equal heights, from a height on: their blocks,
  -- which the rlp crate makes of the header, the body and the receipts, come into the store one
  -- by one, and are counted; the import then goes on with the rows that follow, if any. The store
  -- is sound, which includes that its disk does not fail, has one data file, and places and room
  -- for the blocks, which `write_block` takes, the crates do as they say, and the count stays a
  -- u64.
  pub import_with_receipts_run :
      (h count : ℕ) (triples : List (List ℕ × List ℕ × List ℕ)) (rows : List ((Row × Row) × Row))
      (blocks : ℕ → Option (List ℕ)) (t : Store)
      → Represents c t blocks
      → HasRoomFor c t h (full_blocks_of encode_list triples)
      → count + length triples < 2 ^ 64
      → (u : Store) × (import_with_receipts c encode_list (triples_of h triples ++ rows) count t
          ≡ import_with_receipts c encode_list rows (count + length triples) u)
        × Represents c u (put_all blocks h (full_blocks_of encode_list triples))
  import_with_receipts_run h count [] rows blocks t r room fits =
      (t, ap (λ (n : ℕ). import_with_receipts c encode_list rows n t) (omega arith), r)
  import_with_receipts_run h count ((header_value, body_value, receipts_value) ∷ rest) rows blocks t
        r room fits =
      let (u, wrote, r', room') =
        write_first c t blocks h (encode_list (header_value ∷ body_value ∷ receipts_value ∷ []))
          (full_blocks_of encode_list rest) kd r room in
      let (w, run, r2) =
        import_with_receipts_run (h + 1) (count + 1) rest rows _ u r' room' (omega arith) in
      (
        w,
        receipts_round h count header_value body_value receipts_value
              (triples_of (h + 1) rest ++ rows) t u wrote (omega arith)
            ∙ run
            ∙ ap (λ (n : ℕ). import_with_receipts c encode_list rows n w) (omega arith),
        r2,
      )
