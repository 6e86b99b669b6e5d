-- ===== src/Store/Durability.antt =====
-- Blocks that `write_block` of blockstore/src/store.rs wrote after the last checkpoint, in a store of
-- one data file: where they stand, and what a crash leaves of them.
pub mod Crash
use blockstore.Prelude.{
  ℕ, ◌+◌, ◌≤◌, ◌<◌, ◌^◌, ◌≡◌, refl, sym, ◌∙◌, List, [], ◌∷◌, Option, none, some, M, ok, ◌>>◌, pure,
  arith, length, All, IsU64, if◌then◌else◌, ◌==◌, lookup,
}
use blockstore.Disk.Files.{File, read_exact_at, read_exact_at_ok, bytes_from}
use blockstore.Format.{max_block_size, serialized_size}
use blockstore.FileSet.{Volume, split_offset}
use blockstore.FileSet.Opening.{data_file}
use blockstore.Store.{Codec, IsCodec, Store, index_entry_offset}
use blockstore.Store.ReadWrite.{write_block}
use blockstore.Store.Room.{HasRoom}
use blockstore.Store.Places.{file_of, local_of}
use blockstore.Store.Blocks.{block_bytes}
use blockstore.Store.Refines.{Represents}
use blockstore.Store.Writes.{IsKept, write_block_lem}
use blockstore.Store.Recovery.Chain.{Chain, done, stored, replay}

-- Blocks written one after another.
abbrev pub write_all : Codec → List (ℕ × List ℕ) → M Store (Unit {0})
write_all c [] = pure tt
write_all c ((height, block) ∷ rest) = write_block c height block >> write_all c rest

-- A block that `write_block` takes.
pub record IsAccepted (c : Codec) (min_height : ℕ) (written : ℕ × List ℕ) : Type 0 where
  pub height_fits : IsU64 written.0
  pub place : (o : ℕ) × (index_entry_offset min_height written.0 ≡ some o)
  pub positive : 0 < length written.1
  pub short : length written.1 < 2 ^ 32
  pub small : length (c.compress written.1) ≤ max_block_size

-- The bytes that blocks take in the data file.
abbrev pub extent : Codec → List (ℕ × List ℕ) → ℕ
extent c [] = 0
extent c ((height, block) ∷ rest) = length (c.compress block) + serialized_size + extent c rest

-- Blocks that stand in a file one behind the other, from an offset on.
abbrev pub IsTrail : Codec → File → ℕ → List (ℕ × List ℕ) → Type 0
IsTrail c f at [] = Unit {0}
IsTrail c f at ((height, block) ∷ rest) =
    (at + (length (c.compress block) + serialized_size) ≤ f.size)
    × (read_exact_at f at (length (c.compress block) + serialized_size)
        ≡ ok (block_bytes c height block))
    × IsTrail c f (at + (length (c.compress block) + serialized_size)) rest

-- What the writes leave.
pub record AreAppended (c : Codec) (run : List (ℕ × List ℕ)) (s u : Store) : Type 0 where
  pub min_height : u.header.min_height ≡ s.header.min_height
  pub limit : u.volume.files.max_data_file_size ≡ s.volume.files.max_data_file_size
  pub highwater : u.data_highwater ≡ s.data_highwater + extent c run
  pub kept : IsKept s.data_highwater (data_file 0 s.volume) (data_file 0 u.volume)
  pub trail : IsTrail c (data_file 0 u.volume) s.data_highwater run

IsKept-trans :
    (low high : ℕ) (f g h : File) → low ≤ high → IsKept low f g → IsKept high g h → IsKept low f h
IsKept-trans low high f g h le first second at size below inside =
    let (inside_g, same) = first at size below inside in
    let (inside_h, same') = second at size (omega arith) inside_g in (inside_h, same' ∙ same)

pub write_all_lem :
    (c : Codec) (run : List (ℕ × List ℕ)) (s : Store) (blocks : ℕ → Option (List ℕ))
    → IsCodec c
    → Represents c s blocks
    → s.volume.files.max_data_file_size ≡ none
    → All (IsAccepted c s.header.min_height) run
    → s.data_highwater + extent c run < 2 ^ 64
    → (u : Store) × (write_all c run s ≡ (ok tt, u))
      × Represents c u (replay blocks run)
      × AreAppended c run s u
write_all_lem c [] s blocks kd r single accepted room = (
  s,
  refl,
  r,
  record {
    min_height = refl;
    limit = refl;
    highwater = omega arith;
    kept = λ at size below inside. (inside, refl);
    trail = tt;
  },
)
write_all_lem c ((height, block) ∷ rest) s blocks kd r single (a, accepted) room =
    let (o, at) = a.place in
    let fits : HasRoom s.volume.files.max_data_file_size s.data_highwater
        (length (c.compress block) + serialized_size) =
      rw single (omega (arith, room)) in
    let (t, wrote, represents, written) =
      write_block_lem c s blocks height o block kd r a.height_fits a.positive a.short a.small at
        fits in
    let one = written.single single in
    let (u, wrote_rest, end, after) =
      write_all_lem c rest t (λ h. if h == height then some block else blocks h) kd represents
        (written.limit ∙ single) (rw written.min_height accepted)
        (omega (arith, one.highwater, room)) in
    let (inside, same) =
      after.kept s.data_highwater (length (c.compress block)) (omega (arith, one.highwater))
        one.inside in
    (
      u,
      rw (wrote, wrote_rest) refl,
      end,
      record {
        min_height = after.min_height ∙ written.min_height;
        limit = after.limit ∙ written.limit;
        highwater = omega (arith, after.highwater, one.highwater);
        kept =
            IsKept-trans s.data_highwater t.data_highwater (data_file 0 s.volume)
              (data_file 0 t.volume) (data_file 0 u.volume) (omega (arith, one.highwater)) one.kept
              after.kept;
        trail = (inside, same ∙ one.bytes, rw one.highwater at after.trail);
      },
    )

-- The blocks of a trail are what recovery looks for.
pub trail-Chain :
    (c : Codec) (v : Volume) (data_files : List (ℕ × ℕ)) (min_height end : ℕ)
    (run : List (ℕ × List ℕ)) (at : ℕ)
    → IsCodec c
    → v.files.max_data_file_size ≡ none
    → lookup 0 data_files ≡ some (data_file 0 v).size
    → All (IsAccepted c min_height) run
    → IsTrail c (data_file 0 v) at run
    → at + extent c run ≡ end
    → end < 2 ^ 64
    → Chain c v data_files min_height end at run
unfolding file_of local_of split_offset data_file
trail-Chain c v data_files min_height end [] at kd single listed accepted trail to fits =
    done at (omega (arith, to))
trail-Chain c v data_files min_height end ((height, block) ∷ rest) at kd single listed (a, accepted)
      (inside, read, trail) to fits =
    let n = length (c.compress block) + serialized_size in
    let bytes : bytes_from (data_file 0 v).byte at n ≡ block_bytes c height block =
      let same = sym (read_exact_at_ok (data_file 0 v) at n inside) ∙ read in cc in
    stored at height block rest (omega (arith, to))
      (record {
        listed = rw single listed;
        height_fits = a.height_fits;
        place = a.place;
        positive = kd.compress_nonempty block a.positive;
        small = a.small;
        one_file = rw single tt;
        in_files = rw single tt;
        fits = omega (arith, to);
        inside = rw single inside;
        bytes = rw single bytes;
      })
      (trail-Chain c v data_files min_height end rest (at + n) kd single listed accepted trail
        (omega (arith, to)) fits)
