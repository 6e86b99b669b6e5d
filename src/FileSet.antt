-- ===== src/FileSet.antt =====
-- `FileSet` of blockstore/src/file_set.rs: the data files behind a bounded cache of open handles.
-- A `Volume` is the disk with the set, since opening a file changes both. An `Arc<File>` is a
-- `Handle`: the index of its file and a number that tells one opening from the next.
pub mod Names
pub mod Cache
pub mod Insertion
pub mod Opening
pub mod Layout
use blockstore.Prelude.{
  ℕ, suc, zero, ◌+◌, ◌-◌, ◌*◌, ◌/◌, ◌%◌, ◌≡◌, Bool, true, false, not, ◌&&◌, List, [], ◌∷◌, ◌++◌,
  Option, none, some, M, Result, ok, err, Error, continue, ◌>>=◌, ◌>>◌, pure, fail, get, modify,
  lift, zoom, if◌then◌else◌, ltb, leb, ◌==◌, length, max, lookup, insert, delete, is_some,
  retain_ne, try_u32, u32_max, checked_add, checked_mul, and_then, ok_or, unwrap_or,
}
use blockstore.Disk.{Disk, try_lock, open_data_file}
use Names.{data_file_name}

pub record Handle : Type 0 where
  pub id : ℕ
  pub index : ℕ

-- `Inner`: `order` holds the cached indices, the least recently used first.
pub record Inner : Type 0 where
  pub capacity : ℕ
  pub order : List ℕ
  pub handles : List (ℕ × Handle)

pub record FileSet : Type 0 where
  pub max_data_file_size : Option ℕ
  pub inner : Inner

-- `FileSet::new`.
unfoldable pub new : Option ℕ → ℕ → FileSet
new max_data_file_size max_data_files = record {
  max_data_file_size = max_data_file_size;
  inner = record { capacity = max max_data_files 1; order = []; handles = [] };
}

-- `Vec` by position: `first`, `last`, `position` and `remove`.
abbrev pub first : List ℕ → Option ℕ
first [] = none
first (x ∷ xs) = some x

abbrev pub last : List ℕ → Option ℕ
last [] = none
last (x ∷ []) = some x
last (x ∷ y ∷ xs) = last (y ∷ xs)

unfoldable pub position : ℕ → List ℕ → Option ℕ
position k [] = none
position k (x ∷ xs) = if x == k then some 0 else and_then (position k xs) (λ n. some (suc n))

unfoldable pub remove_at : ℕ → List ℕ → List ℕ
remove_at n [] = []
remove_at zero (x ∷ xs) = xs
remove_at (suc n) (x ∷ xs) = x ∷ remove_at n xs

-- `Option<u32>` against `Some(&index)`.
unfoldable pub is_index : ℕ → Option ℕ → Bool
is_index k none = false
is_index k (some i) = i == k

-- `Inner::touch`.
unfoldable pub touch : ℕ → Inner → Inner
unfolding is_index position remove_at
touch index c = if is_index index (last c.order) then c else elim (position index c.order) [
  | none ↦ c
  | some pos ↦ record c { order = remove_at pos c.order ++ index ∷ [] }
]

-- The least recently used index, where `insert` must give it up.
unfoldable pub eviction : ℕ → ℕ → Inner → Option ℕ
eviction index occupied c =
    if ltb c.capacity occupied
    then and_then (first c.order) (λ lru. if lru == index then none else some lru)
    else none

-- `Inner::insert`.
unfoldable pub insert_handle : ℕ → Handle → Inner → Inner
unfolding eviction remove_at
insert_handle index handle c =
    let handles = insert index handle c.handles in
    if is_some (lookup index c.handles)
    then record c { order = retain_ne index c.order ++ index ∷ []; handles = handles }
    else elim (eviction index (length handles) c) [
      | none ↦ record c { order = c.order ++ index ∷ []; handles = handles }
      | some lru ↦ record c {
        order = remove_at 0 c.order ++ index ∷ [];
        handles = delete lru handles;
      }
    ]

-- `Inner::remove`.
unfoldable pub remove : ℕ → Inner → Inner
remove index c = record c { order = retain_ne index c.order; handles = delete index c.handles }

-- `FileSet::split_offset`.
unfoldable pub split_offset : Option ℕ → ℕ → ℕ × ℕ
split_offset none global_offset = (0, global_offset)
split_offset (some limit) global_offset =
    (unwrap_or (try_u32 (global_offset / limit)) u32_max, global_offset % limit)

pub record Volume : Type 0 where
  pub disk : Disk
  pub files : FileSet
  pub next_handle : ℕ

abbrev pub on_disk : {A : Type 0} → M Disk A → M Volume A
on_disk = zoom (λ v. v.disk) (λ d v. record v { disk = d })

abbrev pub set_inner : Inner → Volume → Volume
set_inner c v = record v { files = record v.files { inner = c } }

-- A cached handle, which becomes the most recently used.
unfoldable pub cached : ℕ → Volume → Option Handle × Volume
cached index v = elim (lookup index v.files.inner.handles) [
  | none ↦ (none, v)
  | some h ↦ (some h, set_inner (touch index v.files.inner) v)
]

-- The end of `get_or_open`: the file is opened, locked and cached.
unfoldable pub open_and_cache : ℕ → M Volume Handle
open_and_cache index = do
  on_disk (open_data_file (data_file_name index))
  on_disk try_lock
  v ← get
  let handle : Handle = record { id = v.next_handle; index = index }
  modify (λ w. record (set_inner (insert_handle index handle w.files.inner) w) {
    next_handle = suc w.next_handle;
  })
  pure handle

-- The part of `get_or_open` under the mutex, which looks the index up once more.
unfoldable pub open_under_lock : ℕ → M Volume Handle
unfolding open_and_cache
open_under_lock index v = elim (lookup index v.files.inner.handles) [
  | some existing ↦ (ok existing, set_inner (touch index v.files.inner) v)
  | none ↦ open_and_cache index v
]

-- `FileSet::get_or_open`: the handle found without the file system, or an opened file.
unfoldable pub found_or_open : ℕ → Option Handle × Volume → Result Handle × Volume
found_or_open index (some handle, v) = (ok handle, v)
found_or_open index (none, v) = open_under_lock index v

unfoldable pub get_or_open : ℕ → M Volume Handle
unfolding cached open_under_lock found_or_open
get_or_open index v = found_or_open index (cached index v)

-- `FileSet::resolve`.
unfoldable pub resolve : ℕ → M Volume (Handle × ℕ × ℕ)
unfolding get_or_open split_offset
resolve global_offset v =
    let (idx, local) = split_offset v.files.max_data_file_size global_offset in
    (do handle ← get_or_open idx; pure (handle, local, idx)) v

-- `FileSet::evict`.
unfoldable pub evict : ℕ → Volume → Volume
evict index v = set_inner (remove index v.files.inner) v
