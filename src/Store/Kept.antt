-- ===== src/Store/Kept.antt =====
-- What a write of blockstore/src/store.rs does to stored blocks: the new block is held, and every
-- block below it in the data is held as before.
use blockstore.Prelude.{
  ok, ℕ, ◌+◌, ◌≤◌, ◌<◌, ◌^◌, ◌≡◌, refl, sym, ◌∙◌, ap, inl, inr, List, Option, arith, length, IsU64,
  IsU32, if◌then◌else◌, ◌==◌, ==_refl, ==_iff, Bool-cases,
}
use blockstore.Disk.Files.{read_exact_at}
use blockstore.Format.{BlockHeader, IndexEntry, max_block_size, serialized_size}
use blockstore.FileSet.{Volume}
use blockstore.FileSet.Opening.{data_file}
use blockstore.Store.{Store, Codec}
use blockstore.Store.ReadWrite.{new_header}
use blockstore.Store.Reserve.{InOneFile, IsLimit}
use blockstore.Store.Places.{file_of, local_of, place_bounds, places_apart}
use blockstore.Store.Blocks.{block_bytes, Holds}
use blockstore.Store.Landing.{
  landed_file, size-landed, size-landed-le, read-landed_self, read-landed_apart,
}

-- The volume `w` is `v` with a block at an offset.
pub record HasLanded (v w : Volume) (offset : ℕ) (bs : List ℕ) (header : BlockHeader) : Type 0 where
  pub max_data_file_size : w.files.max_data_file_size ≡ v.files.max_data_file_size
  pub contents :
      (j : ℕ)
      → IsU32 j
      → data_file j w ≡ (
          if file_of v.files.max_data_file_size offset == j
          then landed_file
              (data_file (file_of v.files.max_data_file_size offset) v)
              (local_of v.files.max_data_file_size offset)
              bs
              header
          else data_file j v)

module _ (c : Codec) (s t : Store) (offset height : ℕ) (block : List ℕ)
    (landed : HasLanded s.volume t.volume offset (c.compress block) (new_header c height block))
    (limit : IsLimit s.volume.files.max_data_file_size) where
  abbrev max : Option ℕ
  max = s.volume.files.max_data_file_size

  abbrev bs : List ℕ
  bs = c.compress block

  abbrev header : BlockHeader
  header = new_header c height block

  module _ (one_file : InOneFile max offset (length bs + serialized_size))
      (fits : offset + (length bs + serialized_size) < 2 ^ 64) (pos : 0 < length bs) where
    landed_here :
        data_file (file_of max offset) t.volume
        ≡ landed_file (data_file (file_of max offset) s.volume) (local_of max offset) bs header
    landed_here =
        let (small, end) =
          place_bounds max offset (length bs + serialized_size) limit one_file fits in
        rw (landed.contents (file_of max offset) small, ==_refl (file_of max offset)) refl

    -- The bytes of the new block are in its place.
    pub new_bytes :
        (local_of max offset + (length bs + serialized_size)
          ≤ (data_file (file_of max offset) t.volume).size)
        × (read_exact_at
              (data_file (file_of max offset) t.volume)
              (local_of max offset)
              (length bs + serialized_size)
            ≡ ok (block_bytes c height block))
    new_bytes = rw landed_here (
      size-landed (data_file (file_of max offset) s.volume) (local_of max offset) bs header pos,
      read-landed_self (data_file (file_of max offset) s.volume) (local_of max offset) bs header
          pos,
    )

    -- The entry of the new block holds it.
    pub new_Holds :
        (entry : IndexEntry)
        → entry.offset ≡ offset
        → entry.size ≡ length bs
        → IsU64 height
        → length bs ≤ max_block_size
        → offset + (length bs + serialized_size) ≤ t.data_highwater
        → Holds c t entry block
    unfolding local_of data_file
    new_Holds entry eo es h small below =
        let m = landed.max_data_file_size in
        record {
          height = height;
          height_fits = h;
          size = es;
          positive = rw es pos;
          small = rw es small;
          below = rw (eo, es) below;
          one_file = rw (eo, es, m) one_file;
          inside =
              rw (eo, es, m, landed_here)
                (size-landed (data_file (file_of max offset) s.volume) (local_of max offset) bs
                  header pos);
          bytes =
              rw (eo, es, m, landed_here)
                (read-landed_self (data_file (file_of max offset) s.volume) (local_of max offset) bs
                  header pos);
        }

    -- What a read of an older block sees.
    pub old_file :
        (entry : IndexEntry)
        → InOneFile max entry.offset (entry.size + serialized_size)
        → entry.offset + (entry.size + serialized_size) ≤ offset
        → local_of max entry.offset + (entry.size + serialized_size)
          ≤ (data_file (file_of max entry.offset) s.volume).size
        → (local_of max entry.offset + (entry.size + serialized_size)
            ≤ (data_file (file_of max entry.offset) t.volume).size)
          × (read_exact_at
                (data_file (file_of max entry.offset) t.volume)
                (local_of max entry.offset)
                (entry.size + serialized_size)
              ≡ read_exact_at
                  (data_file (file_of max entry.offset) s.volume)
                  (local_of max entry.offset)
                  (entry.size + serialized_size))
    old_file entry f before inside =
        let n = entry.size + serialized_size in
        let i = file_of max entry.offset in
        let k = file_of max offset in
        let (small, end) = place_bounds max entry.offset n limit f (omega arith) in
        elim (Bool-cases (k == i)) [
          | inr away ↦ rw (landed.contents i small, away) (inside, refl)
          | inl at ↦
              let e : k ≡ i = (==_iff k i).0 at in
              let apart : local_of max entry.offset + n ≤ local_of max offset =
                elim (places_apart max entry.offset n offset (length bs + serialized_size) f
                  one_file before) [ inl ne ↦ absurd (ne (sym e)) | inr le ↦ le ] in
              let g = data_file k s.volume in
              let fits_g : local_of max entry.offset + n ≤ g.size = rw e inside in
              rw (landed.contents i small, at)
                (
                  omega (arith, fits_g, size-landed-le g (local_of max offset) bs header),
                  read-landed_apart g (local_of max offset) bs header (local_of max entry.offset) n
                        fits_g (inl apart)
                      ∙ ap
                          (λ (j : ℕ).
                            read_exact_at (data_file j s.volume) (local_of max entry.offset) n)
                          e,
                )
        ]

    -- A block that was held below the old highwater still is.
    pub old_Holds :
        (entry : IndexEntry) (old : List ℕ)
        → s.data_highwater ≤ offset
        → s.data_highwater ≤ t.data_highwater
        → Holds c s entry old
        → Holds c t entry old
    unfolding data_file
    old_Holds entry old after grows h =
        let m = landed.max_data_file_size in
        let (inside, bytes) = old_file entry h.one_file (omega (arith, h.below)) h.inside in
        record {
          height = h.height;
          height_fits = h.height_fits;
          size = h.size;
          positive = h.positive;
          small = h.small;
          below = omega (arith, h.below);
          one_file = rw m h.one_file;
          inside = rw m inside;
          bytes = rw m (bytes ∙ h.bytes);
        }
