-- ===== src/Tests/Tools.antt =====
-- The command line tool on concrete inputs.
use blockstore.Prelude.{
  ℕ, ◌≤◌, ◌≡◌, refl, List, [], ◌∷◌, ◌++◌, Option, none, ok, err, Error, arith, length, leb,
}
use blockstore.FileSet.{Volume}
use blockstore.Store.{Store}
use blockstore.Store.Refines.{Represents}
use blockstore.Cli.Keys.{
  LevelDbKey, from_u8, as_slice, to_be_bytes, body_byte, header_byte, receipts_byte,
}
use blockstore.Cli.KeyOrder.{from_u8_row, bytes_le, as_slice_order}
use blockstore.Cli.Copying.{IsWritable, HasRoomFor, put_all}
use blockstore.Cli.Import.{import_blocks, import_with_receipts}
use blockstore.Cli.Importing.{
  rows_of, triples_of, import_blocks_run, import_blocks_mismatch, import_with_receipts_run,
}
use blockstore.Tests.{codec, codec-IsCodec, fresh, fresh_volume, no_handles}
use blockstore.Tests.Stores.{fresh-IsSound, empty_entry}

-- A new store of one data file.
abbrev single_volume : Volume
single_volume = record fresh_volume {
  files = record { max_data_file_size = none; inner = no_handles };
}

abbrev pub single : Store
single = record fresh { volume = single_volume }

abbrev pub no_blocks : ℕ → Option (List ℕ)
no_blocks h = none

pub single-Represents : Represents codec single no_blocks
single-Represents = record {
  sound = record {
    ready = record {
      quiet = fresh-IsSound.ready.quiet;
      cache = fresh-IsSound.ready.cache;
      no_directory = fresh-IsSound.ready.no_directory;
    };
    index = fresh-IsSound.index;
    limit = tt;
    in_files = tt;
    reserved = fresh-IsSound.reserved;
    reserved_size = refl;
  };
  absent = λ h o e n. empty_entry o;
  held = λ h o b e m. absurd (cc);
}

writable : (x y : ℕ) (xs : List ℕ) → length xs ≤ 1 → IsWritable codec (x ∷ y ∷ xs)
writable x y xs h = record { positive = omega arith; short = omega arith; small = omega arith }

single_room :
    (x y : ℕ) (xs : List ℕ) → length xs ≤ 1 → HasRoomFor codec single 1 ((x ∷ y ∷ xs) ∷ [])
single_room x y xs h = record {
  single = refl;
  low = omega arith;
  places = omega arith;
  heights = omega arith;
  room = omega arith;
  writable = (writable x y xs h, tt);
}

-- A list encoded as the bytes of its parts.
abbrev encode_list : List (List ℕ) → List ℕ
encode_list [] = []
encode_list (x ∷ xs) = x ++ encode_list xs

abbrev pairs : List (List ℕ × List ℕ)
pairs = (1 ∷ [], 2 ∷ []) ∷ []

abbrev triples : List (List ℕ × List ℕ × List ℕ)
triples = (1 ∷ [], 2 ∷ [], 3 ∷ []) ∷ []

import_blocks_run_example :
    (u : Store) × (import_blocks codec encode_list (rows_of 1 pairs ++ []) 0 single
      ≡ import_blocks codec encode_list [] 1 u)
    × Represents codec u (put_all no_blocks 1 ((1 ∷ 2 ∷ []) ∷ []))
import_blocks_run_example =
    import_blocks_run codec encode_list codec-IsCodec 1 0 pairs [] no_blocks single
      single-Represents (single_room 1 2 [] (omega arith)) (omega arith)

import_blocks_mismatch_example :
    (u : Store) × (import_blocks codec encode_list
        (rows_of 1 pairs ++ ((LevelDbKey.body 2, []), (LevelDbKey.header 3, [])) ∷ [])
        0
        single
      ≡ (err Error.different_heights, u))
    × Represents codec u (put_all no_blocks 1 ((1 ∷ 2 ∷ []) ∷ []))
import_blocks_mismatch_example =
    import_blocks_mismatch codec encode_list codec-IsCodec 1 0 2 3 pairs [] [] [] no_blocks single
      single-Represents (single_room 1 2 [] (omega arith)) (omega arith) (λ e. absurd (omega arith))

import_with_receipts_run_example :
    (u : Store) × (import_with_receipts codec encode_list (triples_of 1 triples ++ []) 0 single
      ≡ import_with_receipts codec encode_list [] 1 u)
    × Represents codec u (put_all no_blocks 1 ((1 ∷ 2 ∷ 3 ∷ []) ∷ []))
import_with_receipts_run_example =
    import_with_receipts_run codec encode_list codec-IsCodec 1 0 triples [] no_blocks single
      single-Represents (single_room 1 2 (3 ∷ []) (omega arith)) (omega arith)

from_u8_row_example :
    (from_u8 (body_byte ∷ to_be_bytes 8 7 ++ []) ≡ LevelDbKey.body 7)
    × (from_u8 (receipts_byte ∷ to_be_bytes 8 7 ++ []) ≡ LevelDbKey.receipts 7)
    × (from_u8 (header_byte ∷ to_be_bytes 8 7 ++ []) ≡ LevelDbKey.no_key)
from_u8_row_example = from_u8_row 7 (omega arith) []

as_slice_order_example :
    (as_slice (LevelDbKey.body 3) ≡ ok (body_byte ∷ to_be_bytes 8 3))
    × (bytes_le (body_byte ∷ to_be_bytes 8 3) (body_byte ∷ to_be_bytes 8 300 ++ []) ≡ leb 3 300)
    × (as_slice (LevelDbKey.header 3) ≡ ok (header_byte ∷ to_be_bytes 8 3))
    × (bytes_le (header_byte ∷ to_be_bytes 8 3) (header_byte ∷ to_be_bytes 8 300 ++ []) ≡ leb 3 300)
    × (as_slice (LevelDbKey.receipts 3) ≡ ok (receipts_byte ∷ to_be_bytes 8 3))
    × (bytes_le (receipts_byte ∷ to_be_bytes 8 3) (receipts_byte ∷ to_be_bytes 8 300 ++ [])
        ≡ leb 3 300)
as_slice_order_example = as_slice_order 3 300 [] (omega arith) (omega arith)
