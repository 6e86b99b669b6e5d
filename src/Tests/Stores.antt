-- ===== src/Tests/Stores.antt =====
-- The store on concrete inputs.
use blockstore.Prelude.{
  ℕ, ◌+◌, ◌≤◌, ◌≡◌, ◌≢◌, refl, ◌∙◌, ap, ◌⊎◌, inl, inr, List, [], ◌∷◌, Option, none, some, ok, err,
  panic, Error, arith, if◌then◌else◌, ◌==◌, Bool-cases, IsU64, All, IsByte, replicate,
  length-replicate, from_le_bytes,
}
use blockstore.Disk.Files.{
  File, IsFile, empty_file, write_at, write_at-IsFile, size-write_at, bytes_from,
}
use blockstore.Format.{IndexEntry, entry_bytes, entry_of_bytes}
use blockstore.Format.RoundTrip.{IsEntry, length-entry_bytes}
use blockstore.FileSet.{Volume, split_offset}
use blockstore.FileSet.Opening.{data_file, IsReady}
use blockstore.Store.{
  Store, index_entry_offset, write_offset, reservation, exceeds, reserved, reserve_space,
  checkpoint,
}
use blockstore.Store.ReadWrite.{new_header, store_block, write_block, read_block}
use blockstore.Store.Reserve.{IsReserved, reserve_space_ok, reserve_space_err, InFiles}
use blockstore.Store.Room.{reserve_space_room}
use blockstore.Store.Places.{file_of, local_of}
use blockstore.Store.Blocks.{Holds}
use blockstore.Store.Entries.{entry_at, with_index, entry_at-write_at}
use blockstore.Store.Landing.{
  landed_file, put_data, put_data-IsReady, data_file-put_data, read-landed_self, size-landed,
}
use blockstore.Store.Commit.{checkpoint_refused, entry_bytes-IsByte, offsets_apart}
use blockstore.Store.Writers.{Pool, here, next, reserve, IsDisjoint, new_region, Reach-IsDisjoint}
use blockstore.Store.Refines.{IsSound, Represents, read_block_lookup}
use blockstore.Store.Writes.{write_block_insert}
use blockstore.Store.Failure.{IsUndone}
use blockstore.Store.Errors.{IsCommitError, write_block_err}
use blockstore.Store.Integrity.{IsChecked, read_block-IsAnswer}
use blockstore.Store.{read_index_entry}
use blockstore.Prelude.{sym}
use blockstore.Tests.{
  codec, codec-IsCodec, fresh, fresh_volume, fresh_volume-IsReady, empty_file-IsFile, header,
}

abbrev pub block : List ℕ
block = 1 ∷ 2 ∷ 3 ∷ []

abbrev pub first_entry : IndexEntry
first_entry = record { offset = 0; size = 3; reserved = replicate 4 0 }

pub first_entry-IsEntry : IsEntry first_entry
first_entry-IsEntry = record {
  offset = omega arith;
  size = omega arith;
  reserved = length-replicate 4 0;
}

-- The index file and the store with one block, of height 1.
abbrev pub one_index : File
one_index = write_at empty_file 64 (entry_bytes first_entry)

pub one_index-IsFile : IsFile one_index
one_index-IsFile =
    write_at-IsFile empty_file 64 (entry_bytes first_entry)
      (entry_bytes-IsByte first_entry
        (unfold replicate in (omega arith, (omega arith, (omega arith, (omega arith, tt))))))
      empty_file-IsFile

pub size-one_index : one_index.size ≤ 80
size-one_index = omega (
  arith,
  length-entry_bytes first_entry first_entry-IsEntry,
  size-write_at empty_file 64 (entry_bytes first_entry),
)

abbrev pub one_file : File
one_file = landed_file empty_file 0 block (new_header codec 1 block)

abbrev pub one_volume : Volume
one_volume = put_data 0 one_file fresh_volume

abbrev pub one : Store
one = with_index one_index (record fresh { volume = one_volume; data_highwater = 25 })

pub one-IsReady : IsReady one.volume
one-IsReady =
    let r = put_data-IsReady 0 one_file fresh_volume fresh_volume-IsReady in
    record { quiet = r.quiet; cache = r.cache; no_directory = r.no_directory }

pub one_place : index_entry_offset 1 1 ≡ some 64
unfolding index_entry_offset
one_place = refl

first_Holds : Holds codec one first_entry block
unfolding file_of local_of split_offset data_file
first_Holds =
    let f : data_file 0 one_volume ≡ one_file =
      data_file-put_data 0 0 one_file fresh_volume (omega arith) (omega arith) in
    record {
      height = 1;
      height_fits = omega arith;
      size = refl;
      positive = omega arith;
      small = omega arith;
      below = omega arith;
      one_file = (omega arith, omega arith, omega arith);
      inside = rw f (size-landed empty_file 0 block (new_header codec 1 block) (omega arith));
      bytes = rw f (read-landed_self empty_file 0 block (new_header codec 1 block) (omega arith));
    }

abbrev pub one_block : ℕ → Option (List ℕ)
one_block h = if h == 1 then some block else none

one_entry :
    (h o : ℕ)
    → index_entry_offset 1 h ≡ some o
    → entry_at one_index o ≡ (if h == 1 then first_entry else entry_at empty_file o)
one_entry h o e =
    let (same, apart) = offsets_apart 1 1 h 64 o one_place e in
    entry_at-write_at empty_file 64 o first_entry first_entry-IsEntry apart ∙ rw same refl

pub empty_entry : (o : ℕ) → (entry_at empty_file o).size ≡ 0
unfolding entry_at bytes_from entry_of_bytes from_le_bytes
empty_entry o = refl

pub fresh-IsSound : IsSound fresh
fresh-IsSound = record {
  ready = fresh_volume-IsReady;
  index = empty_file-IsFile;
  limit = (omega arith, omega arith);
  in_files = omega arith;
  reserved = header_zeros;
  reserved_size = refl;
}
  where
    z : IsByte 0
    z = omega arith

    header_zeros : All IsByte header.reserved
    header_zeros =
        (z, (z, (z, (z, (z, (z, (z, (z, (z, (z, (z, (z, (z, (z, (z, (z, tt))))))))))))))))

fresh-Represents : Represents codec fresh (λ h. none)
fresh-Represents = record {
  sound = fresh-IsSound;
  absent = λ h o e n. empty_entry o;
  held = λ h o b e m. absurd (cc);
}

pub one-Represents : Represents codec one one_block
one-Represents = record {
  sound = record {
    ready = one-IsReady;
    index = one_index-IsFile;
    limit = (omega arith, omega arith);
    in_files = omega arith;
    reserved = fresh-IsSound.reserved;
    reserved_size = refl;
  };
  absent = λ h o e n. elim (Bool-cases (h == 1)) [
    | inl at ↦ absurd (ground (arith, n))
    | inr away ↦
        let old : entry_at one_index o ≡ entry_at empty_file o = one_entry h o e ∙ rw away refl in
        ap (λ (x : IndexEntry). x.size) old ∙ empty_entry o
  ];
  held = λ h o b e m. elim (Bool-cases (h == 1)) [
    | inl at ↦
        let same : block ≡ b = ground (arith, m) in
        let new : entry_at one_index o ≡ first_entry = one_entry h o e ∙ rw at refl in
        rw (new, ← same) first_Holds
    | inr away ↦ absurd (ground (arith, m))
  ];
}

write_block_insert_example :
    (t : Store) × (write_block codec 2 (7 ∷ 8 ∷ []) one ≡ (ok tt, t))
    × Represents codec t (λ h. if h == 2 then some (7 ∷ 8 ∷ []) else one_block h)
write_block_insert_example =
    write_block_insert codec one one_block 2 80 (7 ∷ 8 ∷ []) codec-IsCodec one-Represents
      (omega arith) (omega arith) (omega arith) (omega arith) (unfold index_entry_offset in refl)
      (omega arith, omega arith, omega arith)

read_block_lookup_example :
    (t : Store) × (read_block codec 1 one ≡ (ok (one_block 1), t)) × Represents codec t one_block
read_block_lookup_example =
    read_block_lookup codec one one_block 1 64 codec-IsCodec one-Represents one_place

-- The store after the read of its block.
abbrev read_one : Store
read_one = (read_block codec 1 one).1

read_one_ok : read_block codec 1 one ≡ (ok (some block), read_one)
read_one_ok =
    let (t, e, represents) =
      read_block_lookup codec one one_block 1 64 codec-IsCodec one-Represents one_place in
    e ∙ ap (λ p. (ok (some block), p.1)) (sym e)

read_block-IsAnswer_example :
    (entry : IndexEntry) × ((read_index_entry 1 one).0 ≡ ok (some entry))
    × IsChecked codec entry block read_one.volume
read_block-IsAnswer_example =
    read_block-IsAnswer codec 1 one read_one (some block) one-IsReady.cache read_one_ok

write_block_err_example :
    IsUndone one one ⊎ IsCommitError codec one 0 block Error.invalid_block_height one
write_block_err_example =
    write_block_err codec one 0 block Error.invalid_block_height one
      (unfold write_block in unfold store_block in unfold index_entry_offset in refl)

checkpoint_refused_example :
    checkpoint 0 (record one { height_highwater = 1 })
    ≡ (err Error.refuse_checkpoint, record one { height_highwater = 1 })
checkpoint_refused_example = checkpoint_refused (record one { height_highwater = 1 }) (omega arith)

reserve_run : reserve_space 30 fresh ≡ (ok (0, 30, 0), record fresh { data_highwater = 30 })
unfolding reserve_space reservation exceeds write_offset reserved
reserve_run = refl

reserve_space_ok_example :
    IsReserved (some 100) 0 30 0
    × (30 ≡ 0 + 30)
    × IsU64 30
    × (◌≡◌ {A = ℕ} 0 0)
    × (record fresh { data_highwater = 30 } ≡ record fresh { data_highwater = 30 })
reserve_space_ok_example =
    reserve_space_ok 30 fresh (record fresh { data_highwater = 30 }) 0 30 0
      (omega arith, omega arith) (omega arith) reserve_run

reserve_space_err_example :
    ((e : Error) → (reserve_space 101 fresh).0 ≡ err e → (reserve_space 101 fresh).1 ≡ fresh)
    × ((reserve_space 101 fresh).0 ≢ panic)
reserve_space_err_example = reserve_space_err 101 fresh

reserve_space_room_example :
    (offset : ℕ) × (end : ℕ) × (reserve_space 30 fresh
      ≡ (ok (offset, end, 0), record fresh { data_highwater = end }))
    × InFiles (some 100) end
reserve_space_room_example =
    reserve_space_room 30 fresh (omega arith, omega arith) (omega arith, omega arith, omega arith)

abbrev fresh_pool : Pool
fresh_pool = record { store = fresh; regions = [] }

fresh_pool-IsDisjoint : IsDisjoint fresh_pool
fresh_pool-IsDisjoint = record { limit = (omega arith, omega arith); below = tt; apart = tt }

Reach-IsDisjoint_example :
    IsDisjoint
      (record { store = record fresh { data_highwater = 30 }; regions = new_region 0 0 30 ∷ [] })
Reach-IsDisjoint_example = Reach-IsDisjoint fresh_pool-IsDisjoint (
    next here (
      reserve fresh_pool 30 0 30 0 (record fresh { data_highwater = 30 }) (omega arith)
        reserve_run))
