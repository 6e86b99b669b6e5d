-- ===== src/Format.antt =====
-- The on-disk formats of blockstore/src/store.rs: the 22 bytes in front of each block, the 16 bytes
-- of an index entry and the 64 bytes of the index header. `bytemuck` copies the memory of a
-- `repr(C)` record, which is its fields in order on the little-endian machines that lib.rs admits.
pub mod RoundTrip
use blockstore.Prelude.{
  ℕ, ◌+◌, ◌^◌, List, [], ◌∷◌, ◌++◌, Result, ok, err, Error, Option, none, some, if◌then◌else◌, ◌==◌,
  length, take, drop, replicate, get_range, ok_or, then_ok, to_le_bytes, from_le_bytes, u64_max,
  not,
}

-- `BlockHeader` and its constants.
pub record BlockHeader : Type 0 where
  pub height : ℕ
  pub size : ℕ
  pub checksum : ℕ
  pub version : ℕ

abbrev pub max_block_size : ℕ
max_block_size = 2 ^ 30

abbrev pub block_entry_version : ℕ
block_entry_version = 1

abbrev pub serialized_size : ℕ
serialized_size = 8 + 4 + 8 + 2

unfoldable pub serialize : BlockHeader → List ℕ
serialize h =
    to_le_bytes 8 h.height
    ++ (to_le_bytes 4 h.size ++ (to_le_bytes 8 h.checksum ++ to_le_bytes 2 h.version))

-- The nested function `take` of `deserialize`.
take_field : List ℕ → ℕ → ℕ → Result (List ℕ)
take_field buf offset n = ok_or (get_range buf offset n) Error.invalid_header_field

unfoldable pub deserialize : List ℕ → Result BlockHeader
unfolding take_field
deserialize buf =
    if not (length buf == serialized_size)
    then err Error.invalid_header_size
    else then_ok (take_field buf 0 8) λ height. then_ok (take_field buf 8 4) λ size.
      then_ok (take_field buf 12 8) λ checksum. then_ok (take_field buf 20 2) λ version.
        ok (record {
          height = from_le_bytes height;
          size = from_le_bytes size;
          checksum = from_le_bytes checksum;
          version = from_le_bytes version;
        })

-- `IndexEntry`.
pub record IndexEntry : Type 0 where
  pub offset : ℕ
  pub size : ℕ
  pub reserved : List ℕ

abbrev pub entry_size : ℕ
entry_size = 16

abbrev pub zero_entry : IndexEntry
zero_entry = record { offset = 0; size = 0; reserved = 0 ∷ 0 ∷ 0 ∷ 0 ∷ [] }

unfoldable pub entry_bytes : IndexEntry → List ℕ
entry_bytes e = to_le_bytes 8 e.offset ++ (to_le_bytes 4 e.size ++ e.reserved)

unfoldable pub entry_of_bytes : List ℕ → IndexEntry
entry_of_bytes bs = record {
  offset = from_le_bytes (take 8 bs);
  size = from_le_bytes (take 4 (drop 8 bs));
  reserved = take 4 (drop 12 bs);
}

-- `IndexFileHeader`, its default and `with_lowest_block_height`.
pub record IndexFileHeader : Type 0 where
  pub version : ℕ
  pub max_data_file_size : ℕ
  pub min_height : ℕ
  pub max_height : ℕ
  pub next_write_offset : ℕ
  pub highest_contiguous_block_height : ℕ
  pub reserved : List ℕ

abbrev pub header_size : ℕ
header_size = 64

abbrev pub index_file_version : ℕ
index_file_version = 1

unfoldable pub default_header : IndexFileHeader
default_header = record {
  version = index_file_version;
  max_data_file_size = u64_max;
  min_height = 1;
  max_height = 0;
  next_write_offset = 0;
  highest_contiguous_block_height = 0;
  reserved = replicate 16 0;
}

unfoldable pub with_lowest_block_height : IndexFileHeader → ℕ → IndexFileHeader
with_lowest_block_height h lowest_block_height = record h { min_height = lowest_block_height }

unfoldable pub header_bytes : IndexFileHeader → List ℕ
header_bytes h =
    to_le_bytes 8 h.version
    ++ (to_le_bytes 8 h.max_data_file_size
        ++ (to_le_bytes 8 h.min_height
            ++ (to_le_bytes 8 h.max_height
                ++ (to_le_bytes 8 h.next_write_offset
                    ++ (to_le_bytes 8 h.highest_contiguous_block_height ++ h.reserved)))))

unfoldable pub header_of_bytes : List ℕ → IndexFileHeader
header_of_bytes bs = record {
  version = from_le_bytes (take 8 bs);
  max_data_file_size = from_le_bytes (take 8 (drop 8 bs));
  min_height = from_le_bytes (take 8 (drop 16 bs));
  max_height = from_le_bytes (take 8 (drop 24 bs));
  next_write_offset = from_le_bytes (take 8 (drop 32 bs));
  highest_contiguous_block_height = from_le_bytes (take 8 (drop 40 bs));
  reserved = take 16 (drop 48 bs);
}

-- A read of fewer bytes than a record has leaves the rest of the record as it was.
unfoldable pub overlay : List ℕ → List ℕ → List ℕ
overlay read old = read ++ drop (length read) old
