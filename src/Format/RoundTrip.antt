-- ===== src/Format/RoundTrip.antt =====
-- What is written reads back, for the three formats.
use blockstore.Prelude.{
  ℕ, suc, zero, ◌+◌, ◌^◌, ◌<◌, ◌≡◌, refl, ap, List, [], ◌∷◌, ◌++◌, ok, arith, length, take, drop,
  take-append_left, drop-append_left, length-append, to_le_bytes, from_le_bytes, length-to_le_bytes,
  from_le_bytes-to_le_bytes, IsU64, IsU32,
}
use blockstore.Format.{
  BlockHeader, serialized_size, serialize, deserialize, IndexEntry, entry_size, entry_bytes,
  entry_of_bytes, IndexFileHeader, header_size, header_bytes, header_of_bytes,
}
use mathlib.Core.List.{append-nil}
use native.Mathlib.Nat.{zero-add, add-zero, suc-add}

-- The fields of a concatenation.
field_here :
    (n v : ℕ) (rest : List ℕ) → v < 256 ^ n → from_le_bytes (take n (to_le_bytes n v ++ rest)) ≡ v
field_here n v rest h =
    rw
      (
        take-append_left (to_le_bytes n v) rest n (omega (arith, length-to_le_bytes n v)),
        from_le_bytes-to_le_bytes n v h,
      )
      refl

field_last : (n v : ℕ) → v < 256 ^ n → from_le_bytes (take n (to_le_bytes n v)) ≡ v
field_last n v h =
    let e : from_le_bytes (take n (to_le_bytes n v ++ [])) ≡ v = field_here n v [] h in
    rw append-nil at e

drop_add : (xs : List ℕ) (m n : ℕ) → drop (m + n) xs ≡ drop n (drop m xs)
drop_add xs zero n = rw zero-add
drop_add [] (suc m) zero = rw add-zero
drop_add [] (suc m) (suc n) = rw suc-add
drop_add (x ∷ xs) (suc m) n = rw suc-add (drop_add xs m n)

-- A reader at position `m` that has a field of `n` bytes before it: the field's value, and what
-- stands behind the field.
module _ (bs : List ℕ) (m n v : ℕ) (rest : List ℕ)
    (at_m : drop m bs ≡ to_le_bytes n v ++ rest) where
  read_field : v < 256 ^ n → from_le_bytes (take n (drop m bs)) ≡ v
  read_field h = rw at_m (field_here n v rest h)

  skip_field : (p : ℕ) → p ≡ m + n → drop p bs ≡ rest
  skip_field p e =
      rw (e, drop_add bs m n, at_m)
        (drop-append_left (to_le_bytes n v) rest n (omega (arith, length-to_le_bytes n v)))

-- A header's fields fit their words.
pub record IsBlockHeader (h : BlockHeader) : Type 0 where
  pub height : IsU64 h.height
  pub size : IsU32 h.size
  pub checksum : IsU64 h.checksum
  pub version : h.version < 2 ^ 16

pub length-serialize : (h : BlockHeader) → length (serialize h) ≡ serialized_size
unfolding serialize
length-serialize h = simp (length-append, length-to_le_bytes)

-- Every block header whose fields fit reads back from its bytes.
pub deserialize-serialize : (h : BlockHeader) → IsBlockHeader h → deserialize (serialize h) ≡ ok h
unfolding deserialize serialize
deserialize-serialize h v = rw (length-serialize h) (
    let r3 = to_le_bytes 2 h.version in
    let r2 = to_le_bytes 8 h.checksum ++ r3 in
    let r1 = to_le_bytes 4 h.size ++ r2 in
    let bs = to_le_bytes 8 h.height ++ r1 in
    let d1 = skip_field bs 0 8 h.height r1 refl 8 (omega arith) in
    let d2 = skip_field bs 8 4 h.size r2 d1 12 (omega arith) in
    let d3 = skip_field bs 12 8 h.checksum r3 d2 20 (omega arith) in
    let e0 = field_here 8 h.height r1 (omega arith) in
    let e1 = read_field bs 8 4 h.size r2 d1 (omega arith) in
    let e2 = read_field bs 12 8 h.checksum r3 d2 (omega arith) in
    let e3 : from_le_bytes (take 2 (drop 20 bs)) ≡ h.version =
      rw d3 (field_last 2 h.version (omega arith)) in
    cc)

take_all : (xs : List ℕ) (n : ℕ) → n ≡ length xs → take n xs ≡ xs
take_all [] zero h = refl
take_all [] (suc n) h = refl
take_all (x ∷ xs) zero h = absurd (omega arith)
take_all (x ∷ xs) (suc n) h = ap (◌∷◌ x) (take_all xs n (omega arith))

-- An entry's fields fit their words.
pub record IsEntry (e : IndexEntry) : Type 0 where
  pub offset : IsU64 e.offset
  pub size : IsU32 e.size
  pub reserved : length e.reserved ≡ 4

pub length-entry_bytes : (e : IndexEntry) → IsEntry e → length (entry_bytes e) ≡ entry_size
unfolding entry_bytes
length-entry_bytes e v = simp (length-append, length-to_le_bytes, v.reserved)

-- Every index entry reads back from its 16 bytes.
pub entry_of_bytes-entry_bytes : (e : IndexEntry) → IsEntry e → entry_of_bytes (entry_bytes e) ≡ e
unfolding entry_of_bytes entry_bytes
entry_of_bytes-entry_bytes e v =
    let r1 = to_le_bytes 4 e.size ++ e.reserved in
    let bs = to_le_bytes 8 e.offset ++ r1 in
    let d1 = skip_field bs 0 8 e.offset r1 refl 8 (omega arith) in
    let d2 = skip_field bs 8 4 e.size e.reserved d1 12 (omega arith) in
    let e0 = field_here 8 e.offset r1 (omega arith) in
    let e1 = read_field bs 8 4 e.size e.reserved d1 (omega arith) in
    let e2 : take 4 (drop 12 bs) ≡ e.reserved = rw d2 (take_all e.reserved 4 (omega arith)) in cc

-- An index header's fields fit their words.
pub record IsHeader (h : IndexFileHeader) : Type 0 where
  pub version : IsU64 h.version
  pub max_data_file_size : IsU64 h.max_data_file_size
  pub min_height : IsU64 h.min_height
  pub max_height : IsU64 h.max_height
  pub next_write_offset : IsU64 h.next_write_offset
  pub highest_contiguous_block_height : IsU64 h.highest_contiguous_block_height
  pub reserved : length h.reserved ≡ 16

pub length-header_bytes : (h : IndexFileHeader) → IsHeader h → length (header_bytes h) ≡ header_size
unfolding header_bytes
length-header_bytes h v = simp (length-append, length-to_le_bytes, v.reserved)

-- Every index header whose fields fit reads back from its bytes.
pub header_of_bytes-header_bytes :
    (h : IndexFileHeader) → IsHeader h → header_of_bytes (header_bytes h) ≡ h
unfolding header_of_bytes header_bytes
header_of_bytes-header_bytes h v =
    let r5 = to_le_bytes 8 h.highest_contiguous_block_height ++ h.reserved in
    let r4 = to_le_bytes 8 h.next_write_offset ++ r5 in
    let r3 = to_le_bytes 8 h.max_height ++ r4 in
    let r2 = to_le_bytes 8 h.min_height ++ r3 in
    let r1 = to_le_bytes 8 h.max_data_file_size ++ r2 in
    let bs = to_le_bytes 8 h.version ++ r1 in
    let d1 = skip_field bs 0 8 h.version r1 refl 8 (omega arith) in
    let d2 = skip_field bs 8 8 h.max_data_file_size r2 d1 16 (omega arith) in
    let d3 = skip_field bs 16 8 h.min_height r3 d2 24 (omega arith) in
    let d4 = skip_field bs 24 8 h.max_height r4 d3 32 (omega arith) in
    let d5 = skip_field bs 32 8 h.next_write_offset r5 d4 40 (omega arith) in
    let d6 = skip_field bs 40 8 h.highest_contiguous_block_height h.reserved d5 48 (omega arith) in
    let e0 = field_here 8 h.version r1 (omega arith) in
    let e1 = read_field bs 8 8 h.max_data_file_size r2 d1 (omega arith) in
    let e2 = read_field bs 16 8 h.min_height r3 d2 (omega arith) in
    let e3 = read_field bs 24 8 h.max_height r4 d3 (omega arith) in
    let e4 = read_field bs 32 8 h.next_write_offset r5 d4 (omega arith) in
    let e5 = read_field bs 40 8 h.highest_contiguous_block_height h.reserved d5 (omega arith) in
    let e6 : take 16 (drop 48 bs) ≡ h.reserved = rw d6 (take_all h.reserved 16 (omega arith)) in cc
