-- ===== src/Store/Failure.antt =====
-- `write_block` of blockstore/src/store.rs when a call of the system fails: what the store is left
-- with. The disk may fail any call.
use blockstore.Prelude.{
  ℕ, ◌≡◌, refl, ◌∙◌, ap, inl, inr, List, Option, none, some, M, arith, Option-cases, lookup,
  Ensures, bind-Ensures, Ensures-same, wrapping_add,
}
use blockstore.Disk.{
  Disk, next_outcome, open_data_file, opened, try_lock, sync_all, system_call, data_write_all_at,
}
use blockstore.Disk.Dir.{Node, file, directory}
use blockstore.Format.{BlockHeader, serialized_size, serialize}
use blockstore.FileSet.{Volume, on_disk, open_and_cache, get_or_open, resolve, split_offset}
use blockstore.FileSet.Opening.{get_or_open_hit, get_or_open_miss}
use blockstore.FileSet.Names.{data_file_name}
use blockstore.Store.{Store, SyncMode, async, sync, sync_if, on_volume}
use blockstore.Store.ReadWrite.{write_data}

-- The calls on data files leave the index file.
module _ (d : Disk) where
  abbrev KeepsIndex : Disk → Type 0
  KeepsIndex t = t.index_file ≡ d.index_file

  opened_index :
      (name : List ℕ) (n : Option Node) (t : Disk) → KeepsIndex t → KeepsIndex (opened name n t).1
  unfolding opened
  opened_index name none t h = h
  opened_index name (some (file f)) t h = h
  opened_index name (some directory) t h = h

  open_data_file_index : (name : List ℕ) → KeepsIndex (open_data_file name d).1
  unfolding open_data_file next_outcome opened
  open_data_file_index name = ground arith

  try_lock_index : KeepsIndex (try_lock d).1
  unfolding try_lock next_outcome
  try_lock_index = ground arith

  pub sync_all_index : KeepsIndex (sync_all d).1
  unfolding sync_all system_call next_outcome
  sync_all_index = ground arith

  data_write_all_at_index :
      (name : List ℕ) (offset : ℕ) (bs : List ℕ) → KeepsIndex (data_write_all_at name offset bs d).1
  unfolding data_write_all_at next_outcome
  data_write_all_at_index name offset bs = ground arith

module _ (v : Volume) where
  abbrev VolumeKeepsIndex : Volume → Type 0
  VolumeKeepsIndex w = w.disk.index_file ≡ v.disk.index_file

  open_and_cache_index : (index : ℕ) → VolumeKeepsIndex (open_and_cache index v).1
  unfolding open_and_cache
  open_and_cache_index index =
      let d1 = (open_data_file (data_file_name index) v.disk).1 in
      ground (arith, open_data_file_index v.disk (data_file_name index), try_lock_index d1)

  get_or_open_index : (index : ℕ) → VolumeKeepsIndex (get_or_open index v).1
  get_or_open_index index = elim (Option-cases (lookup index v.files.inner.handles)) [
    | inl gone ↦ rw (get_or_open_miss index v gone) (open_and_cache_index index)
    | inr (h, e) ↦ rw (get_or_open_hit index v h e) refl
  ]

  resolve_index : (offset : ℕ) → VolumeKeepsIndex (resolve offset v).1
  unfolding resolve
  resolve_index offset =
      ground (arith, get_or_open_index (split_offset v.files.max_data_file_size offset).0)

-- Only the volume differs, and in it not the index file.
pub record IsUndone (s t : Store) : Type 0 where
  pub volume : Volume
  pub rest : t ≡ record s { volume = volume }
  pub index_file : volume.disk.index_file ≡ s.volume.disk.index_file

module _ (s : Store) where
  abbrev Only : Store → Type 0
  Only t = IsUndone s t

  volume_step :
      {A : Type 0} (m : M Volume A) (t : Store)
      → ((v : Volume) → (m v).1.disk.index_file ≡ v.disk.index_file)
      → Only t
      → Ensures (λ (a : A) x. Only x) Only (on_volume m t)
  volume_step m t k h =
      Ensures-same Only (m t.volume).0 (record t { volume = (m t.volume).1 })
        (record {
          volume = (m t.volume).1;
          rest = ap (λ (x : Store). record x { volume = (m t.volume).1 }) h.rest;
          index_file =
              k t.volume ∙ ap (λ (x : Store). x.volume.disk.index_file) h.rest ∙ h.index_file;
        })

  sync_step : (mode : SyncMode) (t : Store) → Only t → Ensures (λ u x. Only x) Only (sync_if mode t)
  sync_step async t h = h
  sync_step sync t h = volume_step (on_disk sync_all) t (λ v. sync_all_index v.disk) h

  -- Whatever fails, the writes of the data change the volume only, and not the index file.
  pub write_data-Ensures :
      (offset : ℕ) (bs : List ℕ) (header : BlockHeader)
      → Ensures (λ u x. Only x) Only (write_data offset bs header s)
  unfolding write_data
  write_data-Ensures offset bs header =
      let Any = λ (u : Unit {0}) (x : Store). Only x in
      bind-Ensures Any Only (λ r x. Only x) (on_volume (resolve offset)) _ s
        (volume_step (resolve offset) s (λ v. resolve_index v offset)
          (record { volume = s.volume; rest = refl; index_file = refl }))
        λ r t h.
          let name = data_file_name r.0.index in
          let payload = data_write_all_at name (wrapping_add r.1 serialized_size) bs in
          bind-Ensures Any Only (λ u x. Only x) (on_volume (on_disk payload)) _ t
            (volume_step (on_disk payload) t (λ v. data_write_all_at_index v.disk name _ bs) h)
            λ u x k.
              let head = data_write_all_at name r.1 (serialize header) in
              bind-Ensures Any Only (λ u x. Only x) (on_volume (on_disk head)) _ x
                (volume_step (on_disk head) x
                  (λ v. data_write_all_at_index v.disk name _ (serialize header)) k)
                λ u' y l. sync_step s.sync_mode y l
