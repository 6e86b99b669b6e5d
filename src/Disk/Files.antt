-- ===== src/Disk/Files.antt =====
-- Regular files and positional reads and writes, as `std::os::unix::fs::FileExt` gives them to
-- blockstore/src/store.rs. A file has a size and a byte at every offset; past its size a file that
-- the system keeps reads as zeros once it is extended, which is `IsFile`.
use blockstore.Prelude.{
  ℕ, zero, suc, ◌+◌, ◌-◌, ◌≤◌, ◌<◌, min, max, ◌≡◌, refl, sym, ap, arith, List, [], ◌∷◌, ltb, leb,
  if◌then◌else◌, length, get_or, Result, ok, err, Error, IsByte, All, ◌⊎◌, ◌++◌,
}
use mathlib.Core.Path.{fun_ext}
use native.Mathlib.Nat.{zero-add, add-zero, suc-add}

pub record File : Type 0 where
  pub size : ℕ
  pub byte : ℕ → ℕ

abbrev pub empty_file : File
empty_file = record { size = 0; byte = λ _. 0 }

-- The bytes past the end are zero, so that a hole left by a later write reads as zeros.
pub record IsFile (f : File) : Type 0 where
  pub zero_past : (i : ℕ) → f.size ≤ i → f.byte i ≡ 0
  pub bytes : (i : ℕ) → IsByte (f.byte i)

-- The `n` bytes from an offset on.
unfoldable pub bytes_from : (ℕ → ℕ) → ℕ → ℕ → List ℕ
bytes_from f offset zero = []
bytes_from f offset (suc n) = f offset ∷ bytes_from f (offset + 1) n

-- `read_at` into a buffer of `n` bytes: the bytes read, fewer at the end of the file.
unfoldable pub read_at : File → ℕ → ℕ → List ℕ
read_at f offset n = bytes_from f.byte offset (min n (f.size - offset))

-- `read_exact_at`: all `n` bytes or an error.
unfoldable pub read_exact_at : File → ℕ → ℕ → Result (List ℕ)
read_exact_at f offset n =
    if leb n (f.size - offset) then ok (bytes_from f.byte offset n) else err Error.unexpected_eof

unfoldable pub patch : (ℕ → ℕ) → ℕ → List ℕ → ℕ → ℕ
patch f offset bs i = if ltb i offset then f i else get_or bs (i - offset) (f i)

-- A write extends the file if it must, and an empty write does nothing.
unfoldable pub write_at : File → ℕ → List ℕ → File
write_at f offset [] = f
write_at f offset (b ∷ bs) = record {
  size = max f.size (offset + length (b ∷ bs));
  byte = patch f.byte offset (b ∷ bs);
}

pub length-bytes_from : (f : ℕ → ℕ) (offset n : ℕ) → length (bytes_from f offset n) ≡ n
unfolding bytes_from
length-bytes_from f offset zero = refl
length-bytes_from f offset (suc n) = ap suc (length-bytes_from f (offset + 1) n)

-- Functions that agree on a range have the same bytes there.
pub bytes_from_agree :
    (f g : ℕ → ℕ) (offset n : ℕ)
    → ((i : ℕ) → offset ≤ i → i < offset + n → f i ≡ g i)
    → bytes_from f offset n ≡ bytes_from g offset n
unfolding bytes_from
bytes_from_agree f g offset zero h = refl
bytes_from_agree f g offset (suc n) h =
    let head : f offset ≡ g offset = h offset (omega arith) (omega arith) in
    let rest : bytes_from f (offset + 1) n ≡ bytes_from g (offset + 1) n =
      bytes_from_agree f g (offset + 1) n (λ i lo hi. h i (omega arith) (omega arith)) in
    cc

get_or_past : (bs : List ℕ) (i d : ℕ) → length bs ≤ i → get_or bs i d ≡ d
get_or_past [] i d h = refl
get_or_past (b ∷ bs) zero d h = absurd (omega arith)
get_or_past (b ∷ bs) (suc i) d h = get_or_past bs i d (omega arith)

pub patch_outside :
    (f : ℕ → ℕ) (offset : ℕ) (bs : List ℕ) (i : ℕ)
    → (offset ≤ i → offset + length bs ≤ i)
    → patch f offset bs i ≡ f i
unfolding patch
patch_outside f offset bs i h = ground (arith, get_or_past bs (i - offset) (f i))

get_or_default : (bs : List ℕ) (i d e : ℕ) → i < length bs → get_or bs i d ≡ get_or bs i e
get_or_default [] i d e h = absurd (omega arith)
get_or_default (b ∷ bs) zero d e h = refl
get_or_default (b ∷ bs) (suc i) d e h = get_or_default bs i d e (omega arith)

get_or-patch :
    (f : ℕ → ℕ) (offset : ℕ) (bs : List ℕ) (i : ℕ)
    → patch f offset bs (offset + i) ≡ get_or bs i (f (offset + i))
unfolding patch
get_or-patch f offset bs i = let e : offset + i - offset ≡ i = omega arith in ground (arith, e)

bytes_from_list :
    (f : ℕ → ℕ) (bs : List ℕ) (offset : ℕ)
    → ((i : ℕ) → i < length bs → f (offset + i) ≡ get_or bs i (f (offset + i)))
    → bytes_from f offset (length bs) ≡ bs
unfolding bytes_from
bytes_from_list f [] offset h = refl
bytes_from_list f (b ∷ bs) offset h =
    let head : f offset ≡ b = rw add-zero at (h 0 (omega arith)) in
    let rest : bytes_from f (offset + 1) (length bs) ≡ bs =
      bytes_from_list f bs (offset + 1) (λ i lt.
        let e : offset + 1 + i ≡ offset + suc i = omega arith in rw e (h (suc i) (omega arith))) in
    cc

-- What was written is read back.
pub bytes_from-patch_self :
    (f : ℕ → ℕ) (offset : ℕ) (bs : List ℕ) → bytes_from (patch f offset bs) offset (length bs) ≡ bs
bytes_from-patch_self f offset bs =
    bytes_from_list (patch f offset bs) bs offset
      (λ i lt. rw get_or-patch (get_or_default bs i _ _ lt))

-- A write leaves the bytes of every range that it does not meet.
pub bytes_from-patch_apart :
    (f : ℕ → ℕ) (offset : ℕ) (bs : List ℕ) (at n : ℕ)
    → (at + n ≤ offset) ⊎ (offset + length bs ≤ at)
    → bytes_from (patch f offset bs) at n ≡ bytes_from f at n
bytes_from-patch_apart f offset bs at n apart =
    bytes_from_agree (patch f offset bs) f at n
      (λ i lo hi. patch_outside f offset bs i (λ h. omega arith))

-- A range is read in two parts.
pub bytes_from_add :
    (f : ℕ → ℕ) (offset m n : ℕ)
    → bytes_from f offset (m + n) ≡ bytes_from f offset m ++ bytes_from f (offset + m) n
unfolding bytes_from
bytes_from_add f offset zero n = simp (zero-add, add-zero)
bytes_from_add f offset (suc m) n =
    let e : offset + 1 + m ≡ offset + suc m = omega arith in
    rw (suc-add, bytes_from_add f (offset + 1) m n, e)

pub byte-write_at :
    (f : File) (offset : ℕ) (bs : List ℕ) → (write_at f offset bs).byte ≡ patch f.byte offset bs
unfolding write_at
byte-write_at f offset [] = fun_ext (λ i. sym (patch_outside f.byte offset [] i (λ h. omega arith)))
byte-write_at f offset (b ∷ bs) = refl

-- A write of at least one byte ends inside the file, and no write shrinks it.
pub size-write_at :
    (f : File) (offset : ℕ) (bs : List ℕ)
    → 0 < length bs
    → (write_at f offset bs).size ≡ max f.size (offset + length bs)
unfolding write_at
size-write_at f offset [] h = absurd (omega arith)
size-write_at f offset (b ∷ bs) h = refl

pub size-write_at-le : (f : File) (offset : ℕ) (bs : List ℕ) → f.size ≤ (write_at f offset bs).size
unfolding write_at
size-write_at-le f offset [] = omega arith
size-write_at-le f offset (b ∷ bs) = omega arith

pub read_exact_at_ok :
    (f : File) (offset n : ℕ)
    → offset + n ≤ f.size
    → read_exact_at f offset n ≡ ok (bytes_from f.byte offset n)
unfolding read_exact_at
read_exact_at_ok f offset n h = ground arith

-- `read_exact_at` reads back a write.
pub read_exact_at-write_at_self :
    (f : File) (offset : ℕ) (bs : List ℕ)
    → 0 < length bs
    → read_exact_at (write_at f offset bs) offset (length bs) ≡ ok bs
read_exact_at-write_at_self f offset bs h = rw (
  read_exact_at_ok (write_at f offset bs) offset (length bs)
      (omega (arith, size-write_at f offset bs h)),
  byte-write_at f offset bs,
  bytes_from-patch_self f.byte offset bs,
)

-- A write changes no range apart from it.
pub read_exact_at-write_at_apart :
    (f : File) (offset : ℕ) (bs : List ℕ) (at n : ℕ)
    → at + n ≤ f.size
    → (at + n ≤ offset) ⊎ (offset + length bs ≤ at)
    → read_exact_at (write_at f offset bs) at n ≡ read_exact_at f at n
read_exact_at-write_at_apart f offset bs at n fits apart = rw (
  read_exact_at_ok (write_at f offset bs) at n (omega (arith, size-write_at-le f offset bs)),
  read_exact_at_ok f at n fits,
  byte-write_at f offset bs,
  bytes_from-patch_apart f.byte offset bs at n apart,
)

get_or-IsByte : (bs : List ℕ) (i d : ℕ) → All IsByte bs → IsByte d → IsByte (get_or bs i d)
get_or-IsByte [] i d h hd = hd
get_or-IsByte (b ∷ bs) zero d h hd = h.0
get_or-IsByte (b ∷ bs) (suc i) d h hd = get_or-IsByte bs i d h.1 hd

patch-IsByte :
    (f : ℕ → ℕ) (offset : ℕ) (bs : List ℕ) (i : ℕ)
    → All IsByte bs
    → IsByte (f i)
    → IsByte (patch f offset bs i)
unfolding patch
patch-IsByte f offset bs i h hf = ground (arith, get_or-IsByte bs (i - offset) (f i) h)

pub write_at-IsFile :
    (f : File) (offset : ℕ) (bs : List ℕ) → All IsByte bs → IsFile f → IsFile (write_at f offset bs)
write_at-IsFile f offset [] h v = unfold write_at in v
write_at-IsFile f offset (b ∷ bs) h v = record {
  zero_past = λ i past.
      let wide : max f.size (offset + length (b ∷ bs)) ≤ i =
        omega (arith, size-write_at f offset (b ∷ bs) (omega arith)) in
      rw
        (
          byte-write_at f offset (b ∷ bs),
          patch_outside f.byte offset (b ∷ bs) i (λ lo. omega arith),
        )
        (v.zero_past i (omega arith));
  bytes = λ i.
      rw (byte-write_at f offset (b ∷ bs)) (patch-IsByte f.byte offset (b ∷ bs) i h (v.bytes i));
}
