-- ===== src/FileSet/Opening.antt =====
-- `get_or_open` and `resolve` of blockstore/src/file_set.rs on a disk: the handle that they give is
-- of the file asked for, and a data file that is missing is made, empty.
use blockstore.Prelude.{
  ℕ, suc, ◌≡◌, ◌≢◌, inl, inr, refl, List, Option, none, some, ok, arith, lookup, Option-cases,
  bytes_eq, bytes_eq→eq, Ensures, bind-Ensures, zoom-Ensures, Bool-cases,
}
use blockstore.Disk.{Disk, IsQuiet, set_data, open_data_file, try_lock}
use blockstore.Disk.Files.{File, empty_file}
use blockstore.Disk.Dir.{
  Node, file, directory, DirEntry, find_node, put_file, find_node-put_file, file_or_empty,
}
use blockstore.Disk.Calls.{open_data_file_old, open_data_file_new, try_lock_quiet}
use blockstore.FileSet.Names.{data_file_name}
use blockstore.FileSet.{
  Handle, Volume, touch, insert_handle, cached, open_and_cache, open_under_lock, set_inner,
  get_or_open, on_disk,
}
use blockstore.FileSet.Cache.{IsValid, touch-IsValid}
use blockstore.FileSet.Insertion.{insert_handle-IsValid}

-- The contents behind the name of a data file; a missing file counts as empty.
unfoldable pub data_file : ℕ → Volume → File
data_file i v = file_or_empty (find_node (data_file_name i) v.disk.data_dir)

-- No call fails, the cache is in order and no directory has a data file's name.
pub record IsReady (v : Volume) : Type 0 where
  pub quiet : IsQuiet v.disk
  pub cache : IsValid v.files.inner
  pub no_directory : (i : ℕ) → find_node (data_file_name i) v.disk.data_dir ≢ some directory

-- What opening a file leaves alone.
pub record SameFiles (v w : Volume) : Type 0 where
  pub index_file : w.disk.index_file ≡ v.disk.index_file
  pub max_data_file_size : w.files.max_data_file_size ≡ v.files.max_data_file_size
  pub data_files : (i : ℕ) → data_file i w ≡ data_file i v

pub SameFiles-refl : (v : Volume) → SameFiles v v
SameFiles-refl v = record { index_file = refl; max_data_file_size = refl; data_files = λ i. refl }

module _ (index : ℕ) (v : Volume) where
  pub get_or_open_hit :
      (h : Handle)
      → lookup index v.files.inner.handles ≡ some h
      → get_or_open index v ≡ (ok h, set_inner (touch index v.files.inner) v)
  unfolding get_or_open
  get_or_open_hit h e = ground arith

  pub get_or_open_miss :
      lookup index v.files.inner.handles ≡ none → get_or_open index v ≡ open_and_cache index v
  unfolding get_or_open
  get_or_open_miss e =
      let looked : cached index v ≡ (none, v) = rw (e, cached) in
      let opened : open_under_lock index v ≡ open_and_cache index v = rw (e, open_under_lock) in
      rw (looked, get_or_open) opened

-- Whatever opening the file and taking its lock do, the cache stays in order.
open_and_cache-Ensures :
    (index : ℕ) (v : Volume)
    → IsValid v.files.inner
    → Ensures
        (λ (h : Handle) w. IsValid w.files.inner × (h.index ≡ index))
        (λ w. IsValid w.files.inner)
        (open_and_cache index v)
unfolding open_and_cache
open_and_cache-Ensures index v k =
    let Q = λ (h : Handle) (w : Volume). IsValid w.files.inner × (h.index ≡ index) in
    let E = λ (w : Volume). IsValid w.files.inner in
    let cached = λ (u : Unit {0}) (w : Volume). IsValid w.files.inner in
    bind-Ensures Q E cached (on_disk (open_data_file (data_file_name index))) _ v
      (zoom-Ensures (λ (w : Volume). w.disk) (λ d w. record w { disk = d }) E
        (open_data_file (data_file_name index)) v (λ t. k))
      (λ u w kw.
        bind-Ensures Q E cached (on_disk try_lock) _ w
          (zoom-Ensures (λ (w : Volume). w.disk) (λ d w. record w { disk = d }) E try_lock w
            (λ t. kw))
          (λ u' x kx. (insert_handle-IsValid index _ x.files.inner refl kx, refl)))

-- Whatever the disk does, an attempt to open a file leaves a cache in order in order, and a
-- success gives a handle of the file asked for.
pub get_or_open-IsValid :
    (index : ℕ) (v : Volume)
    → IsValid v.files.inner
    → Ensures
        (λ (h : Handle) w. IsValid w.files.inner × (h.index ≡ index))
        (λ w. IsValid w.files.inner)
        (get_or_open index v)
get_or_open-IsValid index v k = elim (Option-cases (lookup index v.files.inner.handles)) [
  | inr (h, e) ↦
      rw (get_or_open_hit index v h e) (touch-IsValid index v.files.inner k, k.own_file index h e)
  | inl e ↦ rw (get_or_open_miss index v e) (open_and_cache-Ensures index v k)
]

-- The limit of the files does not change.
open_and_cache_limit :
    (index : ℕ) (v : Volume)
    → (open_and_cache index v).1.files.max_data_file_size ≡ v.files.max_data_file_size
unfolding open_and_cache
open_and_cache_limit index v = ground arith

pub get_or_open_limit :
    (index : ℕ) (v : Volume)
    → (get_or_open index v).1.files.max_data_file_size ≡ v.files.max_data_file_size
get_or_open_limit index v = elim (Option-cases (lookup index v.files.inner.handles)) [
  | inl gone ↦ rw (get_or_open_miss index v gone) (open_and_cache_limit index v)
  | inr (h, e) ↦ rw (get_or_open_hit index v h e) refl
]

-- An empty file made under a free name leaves the contents behind every name.
empty_file_same :
    (name other : List ℕ) (es : List DirEntry)
    → find_node name es ≡ none
    → file_or_empty (find_node other (put_file name empty_file es))
      ≡ file_or_empty (find_node other es)
empty_file_same name other es e =
    rw (find_node-put_file name other empty_file es) (elim (Bool-cases (bytes_eq name other)) [
      | inl same ↦ rw (same, ← bytes_eq→eq name other same, e) refl
      | inr apart ↦ rw apart refl
    ])

pub no_directory-put_file :
    (name other : List ℕ) (f : File) (es : List DirEntry)
    → find_node other es ≢ some directory
    → find_node other (put_file name f es) ≢ some directory
no_directory-put_file name other f es h =
    rw (find_node-put_file name other f es) (elim (Bool-cases (bytes_eq name other)) [
      | inl same ↦ rw same (λ e. cc)
      | inr apart ↦ rw apart h
    ])

-- A call that makes the file, if it is missing, and changes nothing else.
module _ (index : ℕ) (v : Volume) (r : IsReady v) where
  made : Disk → Volume
  made d = record v { disk = d }

  open_data_file-IsReady :
      (d : Disk) × (open_data_file (data_file_name index) v.disk ≡ (ok tt, d))
      × IsReady (made d)
      × SameFiles v (made d)
  unfolding made data_file
  open_data_file-IsReady = node_cases (find_node (data_file_name index) v.disk.data_dir) refl
    where
      node_cases :
          (n : Option Node)
          → find_node (data_file_name index) v.disk.data_dir ≡ n
          → (d : Disk) × (open_data_file (data_file_name index) v.disk ≡ (ok tt, d))
            × IsReady (made d)
            × SameFiles v (made d)
      node_cases (some (file f)) e = (
        v.disk,
        open_data_file_old v.disk r.quiet (data_file_name index) f e,
        r,
        SameFiles-refl v,
      )
      node_cases (some directory) e = absurd (r.no_directory index e)
      node_cases none e = (
        set_data (data_file_name index) empty_file v.disk,
        open_data_file_new v.disk r.quiet (data_file_name index) e,
        record {
          quiet = r.quiet;
          cache = r.cache;
          no_directory = λ i.
              no_directory-put_file (data_file_name index) (data_file_name i) empty_file
                v.disk.data_dir (r.no_directory i);
        },
        record {
          index_file = refl;
          max_data_file_size = refl;
          data_files =
              λ i. empty_file_same (data_file_name index) (data_file_name i) v.disk.data_dir e;
        },
      )

open_and_cache-IsReady :
    (index : ℕ) (v : Volume)
    → IsReady v
    → (h : Handle) × (w : Volume) × (open_and_cache index v ≡ (ok h, w))
      × (h.index ≡ index)
      × IsReady w
      × SameFiles v w
unfolding open_and_cache made data_file
open_and_cache-IsReady index v r =
    let (d, opened, ready, same) = open_data_file-IsReady index v r in
    let handle : Handle = record { id = v.next_handle; index = index } in
    (
      handle,
      record {
        disk = d;
        files = record v.files { inner = insert_handle index handle v.files.inner };
        next_handle = suc v.next_handle;
      },
      rw (opened, try_lock_quiet d ready.quiet) refl,
      refl,
      record {
        quiet = ready.quiet;
        cache = insert_handle-IsValid index handle v.files.inner refl r.cache;
        no_directory = ready.no_directory;
      },
      record {
        index_file = same.index_file;
        max_data_file_size = refl;
        data_files = same.data_files;
      },
    )

-- On a disk that does not fail, with a cache in order and no directory under the name of a data
-- file, get_or_open succeeds with a handle of the file asked for, keeps those conditions and
-- leaves the contents of every file.
pub get_or_open-IsReady :
    (index : ℕ) (v : Volume)
    → IsReady v
    → (h : Handle) × (w : Volume) × (get_or_open index v ≡ (ok h, w))
      × (h.index ≡ index)
      × IsReady w
      × SameFiles v w
unfolding data_file
get_or_open-IsReady index v r = elim (Option-cases (lookup index v.files.inner.handles)) [
  | inr (h, e) ↦ (
    h,
    set_inner (touch index v.files.inner) v,
    get_or_open_hit index v h e,
    r.cache.own_file index h e,
    record {
      quiet = r.quiet;
      cache = touch-IsValid index v.files.inner r.cache;
      no_directory = r.no_directory;
    },
    record { index_file = refl; max_data_file_size = refl; data_files = λ i. refl },
  )
  | inl e ↦ rw (get_or_open_miss index v e) (open_and_cache-IsReady index v r)
]
