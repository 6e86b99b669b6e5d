-- ===== src/Store/Removal.antt =====
-- `remove_existing_data_files` of blockstore/src/store.rs on a disk that does not fail.
use blockstore.Prelude.{
  ◌⊎◌, ℕ, ◌≡◌, ◌≢◌, refl, ◌∙◌, inl, inr, true, false, List, [], ◌∷◌, none, some, ok, arith,
  if◌then◌else◌, Bool-cases, is_some, bytes_eq, bytes_eq→eq, bytes_eq_refl,
}
use blockstore.Disk.{Disk, IsQuiet}
use blockstore.Disk.Dir.{DirEntry, Node, file, directory, find_node}
use blockstore.Disk.Files.{File}
use blockstore.Disk.Calls.{system_call_quiet}
use blockstore.FileSet.Names.{data_file_name, parse_data_file_index}
use blockstore.Store.Lifecycle.{without, remove_entries, remove_existing_data_files}

find_node-without :
    (name other : List ℕ) (es : List DirEntry)
    → find_node other (without name es) ≡ (if bytes_eq name other then none else find_node other es)
unfolding find_node
find_node-without name other [] = ground arith
find_node-without name other (e ∷ es) = ground (
  arith,
  find_node-without name other es,
  bytes_eq→eq name e.name,
  bytes_eq→eq e.name other,
  bytes_eq→eq name other,
  bytes_eq_refl name,
)

abbrev pub HasNoDirectory : Disk → Type 0
HasNoDirectory d = (i : ℕ) → find_node (data_file_name i) d.data_dir ≢ some directory

-- What the removal of old data files leaves of a disk that does not fail.
pub record IsCleared (es : List DirEntry) (d e : Disk) : Type 0 where
  pub quiet : IsQuiet e
  pub no_directory : HasNoDirectory e
  pub index_file : e.index_file ≡ d.index_file
  pub index_exists : e.index_exists ≡ d.index_exists
  pub absent : (name : List ℕ) → find_node name d.data_dir ≡ none → find_node name e.data_dir ≡ none
  pub gone :
      (name : List ℕ) (f : File)
      → is_some (parse_data_file_index name) ≡ true
      → find_node name es ≡ some (file f)
      → find_node name e.data_dir ≡ none
  pub kept :
      (name : List ℕ)
      → is_some (parse_data_file_index name) ≡ false
      → find_node name e.data_dir ≡ find_node name d.data_dir

without-HasNoDirectory :
    (name : List ℕ) (es : List DirEntry)
    → ((i : ℕ) → find_node (data_file_name i) es ≢ some directory)
    → (i : ℕ) → find_node (data_file_name i) (without name es) ≢ some directory
without-HasNoDirectory name es h i =
    rw (find_node-without name (data_file_name i) es)
      (elim (Bool-cases (bytes_eq name (data_file_name i))) [
        | inl same ↦ rw same (λ e. cc)
        | inr apart ↦ rw apart (h i)
      ])

without-absent :
    (name other : List ℕ) (es : List DirEntry)
    → find_node other es ≡ none
    → find_node other (without name es) ≡ none
without-absent name other es e = rw (find_node-without name other es) (ground (arith, e))

-- The removal of a data file leaves the files with other names.
without-other :
    (name other : List ℕ) (es : List DirEntry)
    → is_some (parse_data_file_index name) ≡ true
    → is_some (parse_data_file_index other) ≡ false
    → find_node other (without name es) ≡ find_node other es
without-other name other es ours not_ours = elim (Bool-cases (bytes_eq name other)) [
  | inl same ↦ let e = bytes_eq→eq name other same in absurd (cc (e, ours, not_ours))
  | inr apart ↦ find_node-without name other es ∙ rw apart refl
]

-- A file that is found is the first entry or is behind it.
found_file :
    (x : DirEntry) (es : List DirEntry) (name : List ℕ) (f : File)
    → find_node name (x ∷ es) ≡ some (file f)
    → ((x.name ≡ name) × (x.node ≡ file f)) ⊎ (find_node name es ≡ some (file f))
unfolding find_node
found_file x es name f there = elim (Bool-cases (bytes_eq x.name name)) [
  | inl same ↦
      let node : some x.node ≡ some (file f) = ground (arith, same, there) in
      inl (bytes_eq→eq x.name name same, cc)
  | inr apart ↦ inr (ground (arith, apart, there))
]

removes_ours :
    (x : DirEntry) (es : List DirEntry) (f : File) (d : Disk)
    → IsQuiet d
    → x.node ≡ file f
    → is_some (parse_data_file_index x.name) ≡ true
    → remove_entries (x ∷ es) d
      ≡ remove_entries es (record d { data_dir = without x.name d.data_dir })
unfolding remove_entries
removes_ours x es f d q k ours = ground (arith, system_call_quiet d q)

skips_other :
    (x : DirEntry) (es : List DirEntry) (f : File) (d : Disk)
    → IsQuiet d
    → x.node ≡ file f
    → is_some (parse_data_file_index x.name) ≡ false
    → remove_entries (x ∷ es) d ≡ remove_entries es d
unfolding remove_entries
skips_other x es f d q k other = ground (arith, system_call_quiet d q)

abbrev Removes : List DirEntry → Type 0
Removes es =
    (d : Disk)
    → IsQuiet d
    → HasNoDirectory d
    → (e : Disk) × (remove_entries es d ≡ (ok tt, e)) × IsCleared es d e

remove_entry :
    (x : DirEntry) (es : List DirEntry) (n : Node) → x.node ≡ n → Removes es → Removes (x ∷ es)
unfolding remove_entries
remove_entry x es directory k rest d q h =
    let (e, run, cleared) = rest d q h in
    let skips : remove_entries (x ∷ es) d ≡ remove_entries es d =
      ground (arith, system_call_quiet d q) in
    (
      e,
      skips ∙ run,
      record {
        quiet = cleared.quiet;
        no_directory = cleared.no_directory;
        index_file = cleared.index_file;
        index_exists = cleared.index_exists;
        absent = cleared.absent;
        gone = λ name f ours there. elim (found_file x es name f there) [
          | inl (same, node) ↦ absurd (cc (k, node))
          | inr later ↦ cleared.gone name f ours later
        ];
        kept = cleared.kept;
      },
    )
remove_entry x es (file f) k rest d q h =
    elim (Bool-cases (is_some (parse_data_file_index x.name))) [
      | inr other ↦
          let (e, run, cleared) = rest d q h in
          (
            e,
            skips_other x es f d q k other ∙ run,
            record {
              quiet = cleared.quiet;
              no_directory = cleared.no_directory;
              index_file = cleared.index_file;
              index_exists = cleared.index_exists;
              absent = cleared.absent;
              gone = λ name g named there. elim (found_file x es name g there) [
                | inl (same, node) ↦ absurd (cc (same, named, other))
                | inr later ↦ cleared.gone name g named later
              ];
              kept = cleared.kept;
            },
          )
      | inl ours ↦
          let d1 : Disk = record d { data_dir = without x.name d.data_dir } in
          let (e, run, cleared) = rest d1 q (without-HasNoDirectory x.name d.data_dir h) in
          (
            e,
            removes_ours x es f d q k ours ∙ run,
            record {
              quiet = cleared.quiet;
              no_directory = cleared.no_directory;
              index_file = cleared.index_file;
              index_exists = cleared.index_exists;
              absent = λ name none_there.
                  cleared.absent name (without-absent x.name name d.data_dir none_there);
              gone = λ name g named there. elim (found_file x es name g there) [
                | inl (same, node) ↦
                    cleared.absent name (
                      find_node-without x.name name d.data_dir ∙ rw (same, bytes_eq_refl name) refl)
                | inr later ↦ cleared.gone name g named later
              ];
              kept = λ name other.
                  cleared.kept name other ∙ without-other x.name name d.data_dir ours other;
            },
          )
    ]

remove_entries_quiet : (es : List DirEntry) → Removes es
unfolding remove_entries find_node
remove_entries_quiet [] d q h = (
  d,
  refl,
  record {
    quiet = q;
    no_directory = h;
    index_file = refl;
    index_exists = refl;
    absent = λ name e. e;
    gone = λ name f ours there. absurd (cc);
    kept = λ name other. refl;
  },
)
remove_entries_quiet (x ∷ es) d q h = remove_entry x es x.node refl (remove_entries_quiet es) d q h

pub removed_quiet :
    (d : Disk)
    → IsQuiet d
    → HasNoDirectory d
    → (e : Disk) × (remove_existing_data_files d ≡ (ok tt, e)) × IsCleared d.data_dir d e
unfolding remove_existing_data_files
removed_quiet d q h =
    let (e, run, cleared) = remove_entries_quiet d.data_dir d q h in
    (e, rw (system_call_quiet d q) run, cleared)
