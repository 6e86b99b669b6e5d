-- ===== src/Cli/Copying.antt =====
-- The loop of `Copy` in blockstore-cli/src/main.rs: the run of blocks from a height on comes into the
-- target.
use blockstore.Prelude.{
  ℕ, suc, zero, ◌+◌, ◌-◌, ◌*◌, ◌≤◌, ◌<◌, ◌^◌, ◌≡◌, refl, ◌∙◌, ◌⊎◌, inl, inr, true, List, [], ◌∷◌,
  Option, none, some, ok, arith, length, All, if◌then◌else◌, ◌==◌, ltb, lt→ltb, replicate,
  from_le_bytes,
}
use blockstore.Disk.Files.{File, IsFile, bytes_from}
use blockstore.Format.{serialized_size, max_block_size, entry_size, entry_of_bytes}
use blockstore.Store.{Codec, IsCodec, Store, index_entry_offset}
use blockstore.Store.ReadWrite.{read_block, write_block}
use blockstore.Store.Room.{HasRoom}
use blockstore.Store.Entries.{entry_at, index_entry_offset_lem, bytes_from_padded}
use blockstore.Store.Refines.{Represents, read_block_lem}
use blockstore.Store.Writes.{write_block_lem}
use blockstore.Cli.{Result, copy_loop}

-- The blocks of a map from a height on, up to the first height that has none.
abbrev pub IsRunOf : (ℕ → Option (List ℕ)) → ℕ → List (List ℕ) → Type 0
IsRunOf blocks height [] = blocks height ≡ none
IsRunOf blocks height (b ∷ bs) = (blocks height ≡ some b) × IsRunOf blocks (height + 1) bs

-- The map with blocks put in from a height on.
abbrev pub put_all : (ℕ → Option (List ℕ)) → ℕ → List (List ℕ) → ℕ → Option (List ℕ)
put_all blocks height [] = blocks
put_all blocks height (b ∷ bs) =
    put_all (λ h. if h == height then some b else blocks h) (height + 1) bs

-- The bytes that blocks take in the data files.
abbrev pub total : Codec → List (List ℕ) → ℕ
total c [] = 0
total c (b ∷ bs) = length (c.compress b) + serialized_size + total c bs

-- A block that `write_block` takes.
pub record IsWritable (c : Codec) (block : List ℕ) : Type 0 where
  pub positive : 0 < length block
  pub short : length block < 2 ^ 32
  pub small : length (c.compress block) ≤ max_block_size

-- A store of one data file with room for blocks from a height on.
pub record HasRoomFor (c : Codec) (s : Store) (height : ℕ) (blocks : List (List ℕ)) : Type 0 where
  pub single : s.volume.files.max_data_file_size ≡ none
  pub low : s.header.min_height ≤ height
  pub places : 64 + 16 * (height + length blocks - s.header.min_height) < 2 ^ 64
  pub heights : height + length blocks < 2 ^ 64
  pub room : s.data_highwater + total c blocks < 2 ^ 64
  pub writable : All (IsWritable c) blocks

has_place :
    (min_height height : ℕ)
    → min_height ≤ height
    → 64 + 16 * (height - min_height) < 2 ^ 64
    → index_entry_offset min_height height ≡ some (64 + 16 * (height - min_height))
has_place min_height height low fits =
    (index_entry_offset_lem min_height height _).1 (low, refl, fits)

-- The write of the first block of a run.
pub write_first :
    (c : Codec) (t : Store) (other : ℕ → Option (List ℕ)) (height : ℕ) (block : List ℕ)
    (rest : List (List ℕ))
    → IsCodec c
    → Represents c t other
    → HasRoomFor c t height (block ∷ rest)
    → (u : Store) × (write_block c height block t ≡ (ok tt, u))
      × Represents c u (λ h. if h == height then some block else other h)
      × HasRoomFor c u (height + 1) rest
write_first c t other height block rest kd r room =
    let w = room.writable.0 in
    let fits : HasRoom t.volume.files.max_data_file_size t.data_highwater
        (length (c.compress block) + serialized_size) =
      rw room.single (omega (arith, room.room)) in
    let (u, run, represents, written) =
      write_block_lem c t other height (64 + 16 * (height - t.header.min_height)) block kd r
        (omega (arith, room.heights)) w.positive w.short w.small
        (has_place t.header.min_height height room.low (omega (arith, room.places))) fits in
    (
      u,
      run,
      represents,
      record {
        single = written.limit ∙ room.single;
        low = omega (arith, written.min_height, room.low);
        places = omega (arith, written.min_height, room.places);
        heights = omega (arith, room.heights);
        room = omega (arith, (written.single room.single).highwater, room.room);
        writable = room.writable.1;
      },
    )

leq_or_lt : (a b : ℕ) → (a ≤ b) ⊎ (b < a)
leq_or_lt a b = omega arith

no_size : (entry_of_bytes (replicate 16 0)).size ≡ 0
unfolding entry_of_bytes from_le_bytes replicate
no_size = refl

-- The entry of a block lies within the index file.
entry_inside : (f : File) (o : ℕ) → IsFile f → 0 < (entry_at f o).size → o < f.size
unfolding entry_at bytes_from
entry_inside f o v pos = elim (leq_or_lt f.size o) [
  | inr inside ↦ inside
  | inl past ↦
      let zeros : bytes_from f.byte o entry_size ≡ replicate 16 0 =
        bytes_from_padded f.byte o 0 16 16 refl (λ i lo hi. v.zero_past i (omega arith)) in
      let gone : (entry_at f o).size ≡ 0 = unfold entry_at in rw zeros no_size in
      absurd (omega (arith, pos, gone))
]

-- The blocks of a store are the source of a copy from a height on.
pub record IsSource (s : Store) (height : ℕ) (run : List (List ℕ)) : Type 0 where
  pub low : s.header.min_height ≤ height
  pub places : 64 + 16 * (height + length run - s.header.min_height) < 2 ^ 64

ends_at : {P : Type 0} {a b : ℕ} (p : P) → a ≡ b → ◌≡◌ {A = Result ℕ × P} (ok a, p) (ok b, p)
ends_at p e = rw e refl

-- The rounds of the loop.
module _ (c : Codec) (fuel height : ℕ) (s s' t : Store) where
  round_end :
      read_block c height s ≡ (ok none, s')
      → copy_loop c (suc fuel) height (s, t) ≡ (ok height, (s', t))
  unfolding copy_loop
  round_end read = rw read refl

  round_on :
      (t' : Store) (block : List ℕ)
      → read_block c height s ≡ (ok (some block), s')
      → write_block c height block t ≡ (ok tt, t')
      → height + 1 < 2 ^ 64
      → copy_loop c (suc fuel) height (s, t) ≡ copy_loop c fuel (height + 1) (s', t')
  unfolding copy_loop
  round_on t' block read wrote fits =
      let next : ltb (height + 1) (2 ^ 64) ≡ true = lt→ltb _ _ fits in rw (read, wrote, next) refl

module _ (c : Codec) (blocks : ℕ → Option (List ℕ)) (kd : IsCodec c) where
  -- A run is no longer than the index.
  run_inside :
      (s : Store) (height : ℕ) (block : List ℕ) (rest : List (List ℕ))
      → Represents c s blocks
      → IsSource s height (block ∷ rest)
      → IsRunOf blocks height (block ∷ rest)
      → 64 + 16 * (height - s.header.min_height) + 16 * length rest < s.volume.disk.index_file.size
  run_inside s height block [] r at (here, end) =
      let place = has_place s.header.min_height height at.low (omega (arith, at.places)) in
      let held = r.held height _ block place here in
      omega (arith, entry_inside s.volume.disk.index_file _ r.sound.index held.positive)
  run_inside s height block (b ∷ bs) r at (here, more) = omega (
    arith,
    at.low,
    run_inside s (height + 1) b bs r
        (record { low = omega (arith, at.low); places = omega (arith, at.places) }) more,
  )

  copies :
      (fuel height : ℕ) (run : List (List ℕ)) (other : ℕ → Option (List ℕ)) (s t : Store)
      → length run < fuel
      → Represents c s blocks
      → IsSource s height run
      → IsRunOf blocks height run
      → Represents c t other
      → HasRoomFor c t height run
      → (s' : Store) × (t' : Store) × (copy_loop c fuel height (s, t)
          ≡ (ok (height + length run), (s', t')))
        × Represents c s' blocks
        × Represents c t' (put_all other height run)
  copies zero height run other s t enough r at is u room = absurd (omega arith)
  copies (suc fuel) height [] other s t enough r at is u room =
      let place = has_place s.header.min_height height at.low (omega (arith, at.places)) in
      let (w, read, r', same) = read_block_lem c s blocks height _ kd r place in
      (
        record s { volume = w },
        t,
        round_end c fuel height s (record s { volume = w }) t (rw is at read)
            ∙ ends_at (record s { volume = w }, t) (omega arith),
        r',
        u,
      )
  copies (suc fuel) height (block ∷ rest) other s t enough r at (here, more) u room =
      let place = has_place s.header.min_height height at.low (omega (arith, at.places)) in
      let (w, read, r', same) = read_block_lem c s blocks height _ kd r place in
      let (t1, wrote, u', room') = write_first c t other height block rest kd u room in
      let (s2, t2, run, r2, u2) =
        copies fuel (height + 1) rest _ (record s { volume = w }) t1 (omega arith) r'
          (record { low = omega (arith, at.low); places = omega (arith, at.places) }) more u'
          room' in
      (
        s2,
        t2,
        round_on c fuel height s (record s { volume = w }) t t1 block (rw here at read) wrote
              (omega (arith, room.heights))
            ∙ run
            ∙ ends_at (s2, t2) (omega arith),
        r2,
        u2,
      )

-- A copy ends, and brings the run of blocks from the height on into the target: the target then
-- holds them, in the place of older blocks of their heights, and every other block as before, and
-- the source holds what it held. The two stores are sound, which includes that their disks do not
-- fail; the crates do as they say; the run is what the source has from the height up to the first
-- missing block, and `write_block` takes its blocks; both stores have places for the heights up to
-- the end of the run; and the target has one data file with room for the run.
pub copy_loop_run :
    (c : Codec) (blocks other : ℕ → Option (List ℕ)) (height : ℕ) (run : List (List ℕ))
    (s t : Store)
    → IsCodec c
    → Represents c s blocks
    → IsSource s height run
    → IsRunOf blocks height run
    → Represents c t other
    → HasRoomFor c t height run
    → (s' : Store) × (t' : Store) × (copy_loop c (suc s.volume.disk.index_file.size) height (s, t)
        ≡ (ok (height + length run), (s', t')))
      × Represents c s' blocks
      × Represents c t' (put_all other height run)
copy_loop_run c blocks other height [] s t kd r at is u room =
    copies c blocks kd (suc s.volume.disk.index_file.size) height [] other s t (omega arith) r at is
      u room
copy_loop_run c blocks other height (b ∷ bs) s t kd r at is u room =
    copies c blocks kd (suc s.volume.disk.index_file.size) height (b ∷ bs) other s t
      (omega (arith, run_inside c blocks kd s height b bs r at is)) r at is u room
