-- ===== src/Store/Entries.antt =====
-- The index of blockstore/src/store.rs: `index_entry_offset`, `read_index_entry` and
-- `update_index_at` on an index file.
use blockstore.Prelude.{
  ℕ, suc, zero, ◌+◌, ◌-◌, ◌*◌, ◌≤◌, ◌<◌, ◌^◌, min, ◌≡◌, ◌↔◌, refl, sym, ◌∙◌, ap, ◌⊎◌, inl, inr,
  false, List, ◌∷◌, ◌++◌, none, some, ok, err, Error, arith, length, drop, replicate, if◌then◌else◌,
  ◌==◌, ==_refl, to_le_bytes,
}
use blockstore.Disk.{IsQuiet, set_index}
use blockstore.Disk.Files.{
  File, IsFile, read_at, write_at, bytes_from, length-bytes_from, bytes_from_add, byte-write_at,
  bytes_from-patch_self, bytes_from-patch_apart, bytes_from_agree,
}
use blockstore.Disk.Calls.{index_read_at_quiet, index_write_all_at_quiet}
use blockstore.Format.{
  IndexEntry, entry_size, header_size, zero_entry, entry_bytes, entry_of_bytes, overlay,
}
use blockstore.Format.RoundTrip.{IsEntry, length-entry_bytes, entry_of_bytes-entry_bytes}
use blockstore.Store.{Store, index_entry_offset, read_index_entry, update_index_at}

-- A height has an entry exactly when it is not below the first height and its entry's offset is a
-- u64; the offset is 64 + 16 * (height - min_height).
pub index_entry_offset_lem :
    (min_height height offset : ℕ)
    → (index_entry_offset min_height height ≡ some offset)
      ↔ ((min_height ≤ height) × (offset ≡ 64 + 16 * (height - min_height)) × (offset < 2 ^ 64))
unfolding index_entry_offset
index_entry_offset_lem min_height height offset = (λ h. ground arith, λ h. ground arith)

-- The entry that the index file holds at an offset; past its end it holds zeros.
unfoldable pub entry_at : File → ℕ → IndexEntry
entry_at f offset = entry_of_bytes (bytes_from f.byte offset entry_size)

entry_bytes_zero : entry_bytes zero_entry ≡ replicate 16 0
unfolding entry_bytes replicate to_le_bytes
entry_bytes_zero = refl

bytes_from_zero : (offset n : ℕ) → bytes_from (λ _. 0) offset n ≡ replicate n 0
unfolding bytes_from replicate
bytes_from_zero offset zero = refl
bytes_from_zero offset (suc n) = ap (◌∷◌ 0) (bytes_from_zero (offset + 1) n)

drop-replicate : (m n k : ℕ) → m + n ≡ k → drop {A = ℕ} m (replicate k 0) ≡ replicate n 0
unfolding replicate
drop-replicate zero n k h = let e : k ≡ n = omega arith in rw e
drop-replicate (suc m) n zero h = absurd (omega arith)
drop-replicate (suc m) n (suc k) h = drop-replicate m n k (omega arith)

pub bytes_from_padded :
    (f : ℕ → ℕ) (offset m rest k : ℕ)
    → m + rest ≡ k
    → ((i : ℕ) → offset + m ≤ i → i < offset + m + rest → f i ≡ 0)
    → bytes_from f offset k ≡ bytes_from f offset m ++ replicate rest 0
bytes_from_padded f offset m rest k e h = rw (← e) (
    bytes_from_add f offset m rest
    ∙ ap (◌++◌ (bytes_from f offset m))
        (bytes_from_agree f (λ _. 0) (offset + m) rest h ∙ bytes_from_zero (offset + m) rest))

-- A read that meets the end of the file fills the entry up with zeros, as the file would.
pub overlay-read_at :
    (f : File) (offset : ℕ)
    → IsFile f
    → overlay (read_at f offset entry_size) (entry_bytes zero_entry)
      ≡ bytes_from f.byte offset entry_size
unfolding overlay read_at
overlay-read_at f offset v =
    let m = min entry_size (f.size - offset) in
    let rest = entry_size - m in
    let whole : m + rest ≡ entry_size = omega arith in
    let padded =
      bytes_from_padded f.byte offset m rest entry_size whole
        (λ i lo hi. v.zero_past i (omega arith)) in
    rw (length-bytes_from, entry_bytes_zero, drop-replicate m rest entry_size whole) (sym padded)

module _ (s : Store) (q : IsQuiet s.volume.disk) (f : IsFile s.volume.disk.index_file) where
  -- Reading the entry of a height that has one.
  pub read_index_entry_ok :
      (height offset : ℕ)
      → index_entry_offset s.header.min_height height ≡ some offset
      → read_index_entry height s ≡ (ok (some (entry_at s.volume.disk.index_file offset)), s)
  unfolding read_index_entry entry_at
  read_index_entry_ok height offset e =
      rw (e, index_read_at_quiet s.volume.disk q, overlay-read_at s.volume.disk.index_file offset f)
        refl

pub read_index_entry-none :
    (s : Store) (height : ℕ)
    → index_entry_offset s.header.min_height height ≡ none
    → read_index_entry height s ≡ (err Error.invalid_block_height, s)
unfolding read_index_entry
read_index_entry-none s height e = rw e

abbrev pub with_index : File → Store → Store
with_index f s = record s { volume = record s.volume { disk = set_index f s.volume.disk } }

pub update_index_at_quiet :
    (s : Store) (offset : ℕ) (entry : IndexEntry)
    → IsQuiet s.volume.disk
    → update_index_at offset entry s
      ≡ (ok tt, with_index (write_at s.volume.disk.index_file offset (entry_bytes entry)) s)
unfolding update_index_at
update_index_at_quiet s offset entry q = rw (index_write_all_at_quiet s.volume.disk q)

-- An entry reads back after it is written to a file, and an entry at another place is as before.
-- The entry fits its bytes, and the two places are the same or do not meet.
pub entry_at-write_at :
    (f : File) (offset other : ℕ) (entry : IndexEntry)
    → IsEntry entry
    → (other ≡ offset) ⊎ ((other + entry_size ≤ offset) ⊎ (offset + entry_size ≤ other))
    → entry_at (write_at f offset (entry_bytes entry)) other
      ≡ (if offset == other then entry else entry_at f other)
unfolding entry_at
entry_at-write_at f offset other entry v (inl e) =
    let size : length (entry_bytes entry) ≡ entry_size = length-entry_bytes entry v in
    let self : bytes_from (write_at f offset (entry_bytes entry)).byte offset entry_size
        ≡ entry_bytes entry =
      rw (byte-write_at f offset (entry_bytes entry), ← size)
        (bytes_from-patch_self f.byte offset (entry_bytes entry)) in
    rw (e, ==_refl offset, self, entry_at) (entry_of_bytes-entry_bytes entry v)
entry_at-write_at f offset other entry v (inr apart) =
    let size : length (entry_bytes entry) ≡ entry_size = length-entry_bytes entry v in
    let ne : (offset == other) ≡ false = ground arith in
    rw (ne, byte-write_at f offset (entry_bytes entry), entry_at)
      (ap entry_of_bytes
        (bytes_from-patch_apart f.byte offset (entry_bytes entry) other entry_size (omega arith)))

-- Writing the header leaves every entry.
pub entry_at-write_header :
    (f : File) (bs : List ℕ) (offset : ℕ)
    → length bs ≡ header_size
    → header_size ≤ offset
    → entry_at (write_at f 0 bs) offset ≡ entry_at f offset
unfolding entry_at
entry_at-write_header f bs offset e le =
    rw (byte-write_at f 0 bs)
      (ap entry_of_bytes (bytes_from-patch_apart f.byte 0 bs offset entry_size (inr (omega arith))))
