-- ===== src/Cli/KeyOrder.antt =====
-- The keys of blockstore-cli/src/import.rs: a row's key reads back, and the order of the bytes, in
-- which LevelDB goes through its rows, is that of the heights.
use blockstore.Prelude.{
  ℕ, suc, zero, ◌+◌, ◌*◌, ◌/◌, ◌%◌, ◌^◌, ◌<◌, ◌≡◌, refl, ◌∙◌, ap, sym, inl, inr, Bool, true, false,
  List, [], ◌∷◌, ◌++◌, some, ok, if◌then◌else◌, ◌==◌, ==_refl, ltb, leb, length, arith, IsU64, All,
  IsByte, All-append, Bool-cases, length-append, get_range, take-append_left,
}
use blockstore.Cli.Keys.{
  LevelDbKey, to_be_bytes, from_be_bytes, from_be_bytes_onto, from_u8, key_of, as_slice, body_byte,
  header_byte, receipts_byte,
}

length-to_be_bytes : (n v : ℕ) → length (to_be_bytes n v) ≡ n
unfolding to_be_bytes
length-to_be_bytes zero v = refl
length-to_be_bytes (suc n) v = omega (
  arith,
  length-append (to_be_bytes n (v / 256)) ((v % 256) ∷ []),
  length-to_be_bytes n (v / 256),
)

to_be_bytes-IsByte : (n v : ℕ) → All IsByte (to_be_bytes n v)
unfolding to_be_bytes
to_be_bytes-IsByte zero v = tt
to_be_bytes-IsByte (suc n) v =
    All-append IsByte (to_be_bytes n (v / 256)) _ (to_be_bytes-IsByte n (v / 256)) (omega arith, tt)

onto-append :
    (v b : ℕ) (xs : List ℕ)
    → from_be_bytes_onto v (xs ++ b ∷ []) ≡ from_be_bytes_onto v xs * 256 + b
unfolding from_be_bytes_onto
onto-append v b [] = refl
onto-append v b (x ∷ xs) = onto-append (v * 256 + x) b xs

-- A word that fits reads back from its bytes.
from_be_bytes-to_be_bytes : (n v : ℕ) → v < 256 ^ n → from_be_bytes (to_be_bytes n v) ≡ v
unfolding to_be_bytes from_be_bytes from_be_bytes_onto
from_be_bytes-to_be_bytes zero v h = omega arith
from_be_bytes-to_be_bytes (suc n) v h = omega (
  arith,
  onto-append 0 (v % 256) (to_be_bytes n (v / 256)),
  from_be_bytes-to_be_bytes n (v / 256) (omega arith),
)

range_after : (x : ℕ) (xs rest : List ℕ) → length xs ≡ 8 → get_range (x ∷ xs ++ rest) 1 8 ≡ some xs
range_after x xs rest e =
    let fits : leb (1 + 8) (length (x ∷ xs ++ rest)) ≡ true =
      ground (arith, e, length-append xs rest) in
    rw fits (ap some (take-append_left xs rest 8 (sym e)))

module _ (h : ℕ) (fits : IsU64 h) where
  read_key :
      (first : ℕ) (rest : List ℕ)
      → from_u8 (first ∷ to_be_bytes 8 h ++ rest)
        ≡ key_of first (to_be_bytes 8 h) (length (first ∷ to_be_bytes 8 h ++ rest))
  unfolding from_u8
  read_key first rest =
      rw (from_u8, range_after first (to_be_bytes 8 h) rest (length-to_be_bytes 8 h)) refl

  -- The key of a row is read with its kind and its height: a body and receipts whatever follows the
  -- height, a header where a hash of 32 bytes follows, and a header hash where one byte does; a
  -- header's key with any other length is none. The height is a u64.
  pub from_u8_row :
      (rest : List ℕ)
      → (from_u8 (body_byte ∷ to_be_bytes 8 h ++ rest) ≡ LevelDbKey.body h)
        × (from_u8 (receipts_byte ∷ to_be_bytes 8 h ++ rest) ≡ LevelDbKey.receipts h)
        × (from_u8 (header_byte ∷ to_be_bytes 8 h ++ rest) ≡ (
            if length rest == 32
            then LevelDbKey.header h
            else if length rest == 1
            then LevelDbKey.header_hash h
            else LevelDbKey.no_key))
  unfolding key_of
  from_u8_row rest =
      let back : from_be_bytes (to_be_bytes 8 h) ≡ h =
        from_be_bytes-to_be_bytes 8 h (omega (arith, fits)) in
      let size : length (header_byte ∷ to_be_bytes 8 h ++ rest) ≡ 9 + length rest =
        omega (arith, length-append (to_be_bytes 8 h) rest, length-to_be_bytes 8 h) in
      let long : (9 + length rest == 41) ≡ (length rest == 32) = ground arith in
      let short : (9 + length rest == 10) ≡ (length rest == 1) = ground arith in
      (
        read_key body_byte rest ∙ rw back refl,
        read_key receipts_byte rest ∙ rw back refl,
        read_key header_byte rest ∙ rw (back, size, long, short) refl,
      )

ltb_irrefl : (x : ℕ) → ltb x x ≡ false
ltb_irrefl x = ground arith

-- The order of bytes: the first difference decides, and a prefix comes first.
abbrev pub bytes_le : List ℕ → List ℕ → Bool
bytes_le [] ys = true
bytes_le (x ∷ xs) [] = false
bytes_le (x ∷ xs) (y ∷ ys) = if ltb x y then true else if x == y then bytes_le xs ys else false

-- Of bytes that begin with a smaller word, the word stays smaller.
onto_lt :
    (a b : ℕ) (xs ys : List ℕ)
    → length xs ≡ length ys
    → All IsByte xs
    → a < b
    → from_be_bytes_onto a xs < from_be_bytes_onto b ys
unfolding from_be_bytes_onto
onto_lt a b [] [] e h lt = lt
onto_lt a b [] (y ∷ ys) e h lt = absurd (omega arith)
onto_lt a b (x ∷ xs) [] e h lt = absurd (omega arith)
onto_lt a b (x ∷ xs) (y ∷ ys) e h lt =
    onto_lt (a * 256 + x) (b * 256 + y) xs ys (omega arith) h.1 (omega (arith, h.0, lt))

onto_order :
    (v : ℕ) (xs ys rest : List ℕ)
    → length xs ≡ length ys
    → All IsByte xs
    → All IsByte ys
    → bytes_le xs (ys ++ rest) ≡ leb (from_be_bytes_onto v xs) (from_be_bytes_onto v ys)
unfolding from_be_bytes_onto
onto_order v [] [] rest e h k = ground arith
onto_order v [] (y ∷ ys) rest e h k = absurd (omega arith)
onto_order v (x ∷ xs) [] rest e h k = absurd (omega arith)
onto_order v (x ∷ xs) (y ∷ ys) rest e h k = elim (Bool-cases (ltb x y)) [
  | inl lt ↦
      let up = onto_lt (v * 256 + x) (v * 256 + y) xs ys (omega arith) h.1 (ground (arith, lt)) in
      ground (arith, lt, up)
  | inr ge ↦ elim (Bool-cases (x == y)) [
    | inl same ↦
        let xy : x ≡ y = ground (arith, same) in
        let rest_order = onto_order (v * 256 + y) xs ys rest (omega arith) h.1 k.1 in
        rw (xy, ltb_irrefl y, ==_refl y) rest_order
    | inr apart ↦
        let down =
          onto_lt (v * 256 + y) (v * 256 + x) ys xs (omega arith) k.1 (ground (arith, ge, apart)) in
        ground (arith, ge, apart, down)
  ]
]

-- The key from which an import starts at a height comes, in the order of the bytes, before the keys
-- of that kind of that height or more, and of no other. The heights are u64, and a row's key goes
-- on with bytes behind the height.
pub as_slice_order :
    (a b : ℕ) (rest : List ℕ)
    → IsU64 a
    → IsU64 b
    → (as_slice (LevelDbKey.body a) ≡ ok (body_byte ∷ to_be_bytes 8 a))
      × (bytes_le (body_byte ∷ to_be_bytes 8 a) (body_byte ∷ to_be_bytes 8 b ++ rest) ≡ leb a b)
      × (as_slice (LevelDbKey.header a) ≡ ok (header_byte ∷ to_be_bytes 8 a))
      × (bytes_le (header_byte ∷ to_be_bytes 8 a) (header_byte ∷ to_be_bytes 8 b ++ rest) ≡ leb a b)
      × (as_slice (LevelDbKey.receipts a) ≡ ok (receipts_byte ∷ to_be_bytes 8 a))
      × (bytes_le (receipts_byte ∷ to_be_bytes 8 a) (receipts_byte ∷ to_be_bytes 8 b ++ rest)
          ≡ leb a b)
unfolding as_slice from_be_bytes
as_slice_order a b rest ha hb =
    let order : bytes_le (to_be_bytes 8 a) (to_be_bytes 8 b ++ rest) ≡ leb a b =
      onto_order 0 (to_be_bytes 8 a) (to_be_bytes 8 b) rest
        (length-to_be_bytes 8 a ∙ sym (length-to_be_bytes 8 b)) (to_be_bytes-IsByte 8 a)
        (to_be_bytes-IsByte 8 b)
      ∙ rw
          (
            from_be_bytes-to_be_bytes 8 a (omega (arith, ha)),
            from_be_bytes-to_be_bytes 8 b (omega (arith, hb)),
          )
          refl in
    (refl, order, refl, order, refl, order)
