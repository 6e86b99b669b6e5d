-- ===== src/Cli/Keys.antt =====
-- The keys of the LevelDB rows that blockstore-cli/src/import.rs reads: `LevelDBKey`.
use blockstore.Prelude.{
  ℕ, suc, zero, ◌+◌, ◌*◌, ◌/◌, ◌%◌, Bool, true, false, List, [], ◌∷◌, ◌++◌, Option, none, some,
  Result, ok, panic, if◌then◌else◌, ◌==◌, length, get_range,
}

-- `LevelDBKey`, with `no_key` for its `None`.
pub data LevelDbKey : Type 0 where
  body header header_hash receipts : ℕ → LevelDbKey
  body_start header_start receipts_start no_key : LevelDbKey

unfoldable pub height : LevelDbKey → Option ℕ
height (LevelDbKey.body h) = some h
height (LevelDbKey.header h) = some h
height (LevelDbKey.header_hash h) = some h
height (LevelDbKey.receipts h) = some h
height LevelDbKey.body_start = none
height LevelDbKey.header_start = none
height LevelDbKey.receipts_start = none
height LevelDbKey.no_key = none

unfoldable pub is_header : LevelDbKey → Bool
is_header (LevelDbKey.header h) = true
is_header _ = false

unfoldable pub is_body : LevelDbKey → Bool
is_body (LevelDbKey.body h) = true
is_body _ = false

unfoldable pub is_receipts : LevelDbKey → Bool
is_receipts (LevelDbKey.receipts h) = true
is_receipts _ = false

-- The `n` bytes of a word, highest first (`to_be_bytes`), and back (`from_be_bytes`).
unfoldable pub to_be_bytes : ℕ → ℕ → List ℕ
to_be_bytes zero v = []
to_be_bytes (suc n) v = to_be_bytes n (v / 256) ++ (v % 256) ∷ []

unfoldable pub from_be_bytes_onto : ℕ → List ℕ → ℕ
from_be_bytes_onto v [] = v
from_be_bytes_onto v (b ∷ bs) = from_be_bytes_onto (v * 256 + b) bs

unfoldable pub from_be_bytes : List ℕ → ℕ
unfolding from_be_bytes_onto
from_be_bytes bs = from_be_bytes_onto 0 bs

-- `b'b'`, `b'h'` and `b'r'`.
abbrev pub body_byte : ℕ
body_byte = 98

abbrev pub header_byte : ℕ
header_byte = 104

abbrev pub receipts_byte : ℕ
receipts_byte = 114

-- The key of a row whose first byte and height are read.
unfoldable pub key_of : ℕ → List ℕ → ℕ → LevelDbKey
key_of first blockid_bytes size =
    let h = from_be_bytes blockid_bytes in
    if first == body_byte
    then LevelDbKey.body h
    else if first == header_byte
    then (if size == 1 + 8 + 32
        then LevelDbKey.header h
        else if size == 1 + 8 + 1
        then LevelDbKey.header_hash h
        else LevelDbKey.no_key)
    else if first == receipts_byte
    then LevelDbKey.receipts h
    else LevelDbKey.no_key

-- `from_u8`.
unfoldable pub from_u8 : List ℕ → LevelDbKey
unfolding key_of
from_u8 [] = LevelDbKey.no_key
from_u8 (first ∷ rest) = elim (get_range (first ∷ rest) 1 8) [
  | none ↦ LevelDbKey.no_key
  | some blockid_bytes ↦ key_of first blockid_bytes (length (first ∷ rest))
]

-- The bytes that `as_slice` passes on. There are none of `None`.
unfoldable pub as_slice : LevelDbKey → Result (List ℕ)
as_slice (LevelDbKey.body h) = ok (body_byte ∷ to_be_bytes 8 h)
as_slice (LevelDbKey.header h) = ok (header_byte ∷ to_be_bytes 8 h)
as_slice (LevelDbKey.header_hash h) = ok (header_byte ∷ to_be_bytes 8 h)
as_slice (LevelDbKey.receipts h) = ok (receipts_byte ∷ to_be_bytes 8 h)
as_slice LevelDbKey.body_start = ok (body_byte ∷ [])
as_slice LevelDbKey.header_start = ok (header_byte ∷ [])
as_slice LevelDbKey.receipts_start = ok (receipts_byte ∷ [])
as_slice LevelDbKey.no_key = panic
