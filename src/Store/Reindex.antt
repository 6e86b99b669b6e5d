-- ===== src/Store/Reindex.antt =====
-- `update_index_if_changed` of blockstore/src/store.rs against `update_index_at`: the write that it
-- saves would have changed no entry.
use blockstore.Prelude.{
  ℕ, ◌+◌, ◌≤◌, ◌≡◌, refl, ◌⊎◌, inl, inr, true, ◌&&◌, List, [], ◌∷◌, some, ok, arith, ◌==◌, ==_iff,
  Bool-cases,
}
use blockstore.Disk.{IsQuiet}
use blockstore.Disk.Files.{File, IsFile, read_at, write_at}
use blockstore.Disk.Calls.{index_read_at_quiet}
use blockstore.Format.{IndexEntry, entry_size, entry_bytes}
use blockstore.Format.RoundTrip.{IsEntry}
use blockstore.Store.{Store, index_entry_offset}
use blockstore.Store.Entries.{
  entry_at, overlay-read_at, entry_at-write_at, with_index, update_index_at_quiet,
}
use blockstore.Store.Recovery.{same_bytes, is_unchanged, update_index_if_changed}

same_bytes→eq : (xs ys : List ℕ) → same_bytes xs ys ≡ true → xs ≡ ys
same_bytes→eq [] [] h = refl
same_bytes→eq [] (y ∷ ys) h = cc
same_bytes→eq (x ∷ xs) [] h = cc
same_bytes→eq (x ∷ xs) (y ∷ ys) h = ground (arith, same_bytes→eq xs ys)

entry_eq :
    (x e : IndexEntry)
    → (x.offset == e.offset && (x.size == e.size && same_bytes x.reserved e.reserved)) ≡ true
    → x ≡ e
entry_eq x e h =
    let o : x.offset ≡ e.offset = ground arith in
    let z : x.size ≡ e.size = ground arith in
    let b : same_bytes x.reserved e.reserved ≡ true = ground arith in
    let r = same_bytes→eq x.reserved e.reserved b in cc (o, z, r)

unchanged_entry :
    (f : File) (offset : ℕ) (entry : IndexEntry)
    → IsFile f
    → is_unchanged (read_at f offset entry_size) entry ≡ true
    → entry_at f offset ≡ entry
unfolding is_unchanged entry_at
unchanged_entry f offset entry v h =
    let e = rw (overlay-read_at f offset v) at h in
    entry_eq (entry_at f offset) entry (ground arith)

-- What it does: nothing, where the entry stands there already, or the write.
pub update_cases :
    (s : Store) (height offset : ℕ) (entry : IndexEntry)
    → IsQuiet s.volume.disk
    → IsFile s.volume.disk.index_file
    → IsEntry entry
    → index_entry_offset s.header.min_height height ≡ some offset
    → (g : File) × (update_index_if_changed height entry s ≡ (ok tt, with_index g s))
      × ((g ≡ s.volume.disk.index_file)
          ⊎ (g ≡ write_at s.volume.disk.index_file offset (entry_bytes entry)))
      × ((o : ℕ)
          → (o ≡ offset) ⊎ ((o + entry_size ≤ offset) ⊎ (offset + entry_size ≤ o))
          → entry_at g o
            ≡ entry_at (write_at s.volume.disk.index_file offset (entry_bytes entry)) o)
unfolding update_index_if_changed
update_cases s height offset entry q v e at =
    let f = s.volume.disk.index_file in
    elim (Bool-cases (is_unchanged (read_at f offset entry_size) entry)) [
      | inr changed ↦ (
        write_at f offset (entry_bytes entry),
        rw
            (
              at,
              index_read_at_quiet s.volume.disk q,
              changed,
              update_index_at_quiet s offset entry q,
            )
            refl,
        inr refl,
        λ o apart. refl,
      )
      | inl same ↦ (
        f,
        rw (at, index_read_at_quiet s.volume.disk q, same) refl,
        inl refl,
        λ o apart.
            let kept = unchanged_entry f offset entry v same in
            rw (entry_at-write_at f offset o entry e apart) (elim (Bool-cases (offset == o)) [
              | inr ne ↦ rw ne refl
              | inl eq ↦ rw (eq, ← kept, (==_iff offset o).0 eq) refl
            ]),
      )
    ]
