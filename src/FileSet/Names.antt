-- ===== src/FileSet/Names.antt =====
-- The names of data files: `data_file_name` and `parse_data_file_index` of
-- blockstore/src/file_set.rs.
use blockstore.Prelude.{
  ℕ, ◌≡◌, refl, List, ◌++◌, Option, some, IsU32, codes, strip_prefix, strip_suffix,
  strip_prefix-append, strip_suffix-append, parse_u32, decimal, parse_u32-decimal, and_then,
}

abbrev pub data_file_prefix : List ℕ
data_file_prefix = codes "blockdb_"

abbrev pub data_file_suffix : List ℕ
data_file_suffix = codes ".dat"

-- A u32 has ten decimal digits at most.
unfoldable pub data_file_name : ℕ → List ℕ
data_file_name index = data_file_prefix ++ (decimal 9 index ++ data_file_suffix)

unfoldable pub parse_data_file_index : List ℕ → Option ℕ
parse_data_file_index name =
    and_then (strip_prefix data_file_prefix name)
      λ rest. and_then (strip_suffix data_file_suffix rest) parse_u32

-- The name of the data file of a u32 index parses back to the index.
pub parse_data_file_index-data_file_name :
    (index : ℕ) → IsU32 index → parse_data_file_index (data_file_name index) ≡ some index
unfolding data_file_name parse_data_file_index
parse_data_file_index-data_file_name index h =
    rw
      (
        strip_prefix-append data_file_prefix (decimal 9 index ++ data_file_suffix),
        strip_suffix-append (decimal 9 index) data_file_suffix,
        parse_u32-decimal index h,
      )
      refl

-- Two u32 indices with the same file name are the same.
pub data_file_name_injective :
    (i j : ℕ) → IsU32 i → IsU32 j → data_file_name i ≡ data_file_name j → i ≡ j
data_file_name_injective i j hi hj e =
    cc (parse_data_file_index-data_file_name i hi, parse_data_file_index-data_file_name j hj)
