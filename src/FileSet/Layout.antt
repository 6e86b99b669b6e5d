-- ===== src/FileSet/Layout.antt =====
-- `list_on_disk` and `validate_layout` of blockstore/src/file_set.rs: which data files there are,
-- whether they are numbered without a gap, and where the data ends.
use blockstore.Prelude.{
  ℕ, suc, zero, ◌+◌, ◌*◌, ◌≤◌, ◌<◌, ◌^◌, max, ◌≡◌, ◌≢◌, ◌⊎◌, ◌↔◌, inl, inr, refl, true, false, List,
  [], ◌∷◌, Option, none, some, M, Result, ok, err, Error, ◌>>=◌, ◌>>◌, pure, get, then_ok, ok_or,
  and_then, if◌then◌else◌, ltb, lookup, insert, is_some, checked_add, checked_mul, arith,
  Bool-cases, Option-cases, panic,
}
use blockstore.Disk.{Disk, system_call}
use blockstore.Disk.Dir.{DirEntry, file, directory}
use blockstore.FileSet.Names.{parse_data_file_index}

-- The loop of `list_on_disk` over the entries of the directory.
unfoldable pub list_entries : List DirEntry → List (ℕ × ℕ) → M Disk (List (ℕ × ℕ))
list_entries [] out = pure out
list_entries (e ∷ es) out = do
  system_call
  system_call
  elim e.node [
    | directory ↦ list_entries es out
    | file f ↦ elim (parse_data_file_index e.name) [
      | none ↦ list_entries es out
      | some idx ↦ system_call >> list_entries es (insert idx f.size out)
    ]
  ]

-- `index -> size` of the data files. The entries other than data files do not count.
unfoldable pub list_on_disk : M Disk (List (ℕ × ℕ))
unfolding list_entries
list_on_disk = do system_call; d ← get; list_entries d.data_dir []

-- The last key of a map, or 0 of an empty one.
unfoldable pub max_key : List (ℕ × ℕ) → ℕ
max_key [] = 0
max_key ((k, v) ∷ m) = max k (max_key m)

-- `for i in index..index + n`: every index has a file.
unfoldable pub check_indices : List (ℕ × ℕ) → ℕ → ℕ → Result (Unit {0})
check_indices files index zero = ok tt
check_indices files index (suc n) =
    let rest = check_indices files (index + 1) n in
    if is_some (lookup index files) then rest else err (Error.missing_data_file index)

unfoldable pub layout_end : Option ℕ → ℕ → List (ℕ × ℕ) → Result ℕ
layout_end none max_idx files =
    if ltb 0 max_idx
    then err Error.multiple_data_files
    else elim (lookup 0 files) [ some size ↦ ok size | none ↦ panic ]
layout_end (some limit) max_idx files = elim (lookup max_idx files) [
  | none ↦ panic
  | some last_size ↦
      ok_or (and_then (checked_mul max_idx limit) (λ t. checked_add t last_size))
        Error.total_size_overflow
]

-- `FileSet::validate_layout`.
unfoldable pub validate_layout : Option ℕ → List (ℕ × ℕ) → Result ℕ
unfolding check_indices layout_end
validate_layout max_data_file_size [] = ok 0
validate_layout max_data_file_size (f ∷ fs) =
    let files = f ∷ fs in
    let max_idx = max_key files in
    then_ok (check_indices files 0 (max_idx + 1)) λ _. layout_end max_data_file_size max_idx files

eq_or_lt : {a b : ℕ} → a ≤ b → (a ≡ b) ⊎ (a < b)
eq_or_lt h = omega arith

check_indices_ok :
    (files : List (ℕ × ℕ)) (index n i : ℕ)
    → check_indices files index n ≡ ok tt
    → index ≤ i
    → i < index + n
    → is_some (lookup i files) ≡ true
unfolding check_indices
check_indices_ok files index zero i h lo hi = absurd (omega arith)
check_indices_ok files index (suc n) i h lo hi = elim (Bool-cases (is_some (lookup index files))) [
  | inl here ↦ elim (eq_or_lt lo) [
    | inl e ↦ rw (← e) here
    | inr lt ↦ check_indices_ok files (index + 1) n i (ground arith) (omega arith) (omega arith)
  ]
  | inr gone ↦ absurd (ground arith)
]

check_indices_all :
    (files : List (ℕ × ℕ)) (index n : ℕ)
    → ((i : ℕ) → index ≤ i → i < index + n → is_some (lookup i files) ≡ true)
    → check_indices files index n ≡ ok tt
unfolding check_indices
check_indices_all files index zero h = refl
check_indices_all files index (suc n) h =
    rw (h index (omega arith) (omega arith))
      (check_indices_all files (index + 1) n (λ i lo hi. h i (omega arith) (omega arith)))

check_indices_cases :
    (files : List (ℕ × ℕ)) (index n : ℕ)
    → (check_indices files index n ≡ ok tt)
      ⊎ ((i : ℕ) × (check_indices files index n ≡ err (Error.missing_data_file i))
          × (i < index + n)
          × (is_some (lookup i files) ≡ false))
unfolding check_indices
check_indices_cases files index zero = inl refl
check_indices_cases files index (suc n) = elim (Bool-cases (is_some (lookup index files))) [
  | inl here ↦ rw here (elim (check_indices_cases files (index + 1) n) [
    | inl e ↦ inl e
    | inr (i, e, lt, gone) ↦ inr (i, e, omega arith, gone)
  ])
  | inr gone ↦ rw gone (inr (index, refl, omega arith, gone))
]

layout_end_safe :
    (m : Option ℕ) (files : List (ℕ × ℕ))
    → is_some (lookup 0 files) ≡ true
    → is_some (lookup (max_key files) files) ≡ true
    → (layout_end m (max_key files) files ≢ panic)
      × ((i : ℕ) → layout_end m (max_key files) files ≢ err (Error.missing_data_file i))
unfolding layout_end
layout_end_safe none files h0 h1 = (λ e. ground arith, λ i e. ground arith)
layout_end_safe (some limit) files h0 h1 = (λ e. ground arith, λ i e. ground arith)

-- Where the data ends, by the splitting mode.
abbrev pub EndsAt : Option ℕ → List (ℕ × ℕ) → ℕ → Type 0
EndsAt none files total = (max_key files ≡ 0) × (lookup 0 files ≡ some total)
EndsAt (some limit) files total =
    (last_size : ℕ) × (lookup (max_key files) files ≡ some last_size)
    × (total ≡ max_key files * limit + last_size)
    × (total < 2 ^ 64)

abbrev pub HasAllIndices : List (ℕ × ℕ) → Type 0
HasAllIndices files = (i : ℕ) → i ≤ max_key files → is_some (lookup i files) ≡ true

layout_end_ok :
    (m : Option ℕ) (files : List (ℕ × ℕ)) (total : ℕ)
    → (layout_end m (max_key files) files ≡ ok total) ↔ EndsAt m files total
unfolding layout_end
layout_end_ok none files total = (λ h. ground arith, λ h. ground arith)
layout_end_ok (some limit) files total = (
  λ h. elim (Option-cases (lookup (max_key files) files)) [
    | inl gone ↦ absurd (ground arith)
    | inr (s, e) ↦ (s, e, ground arith, ground arith)
  ],
  λ (s, e, t, small). rw (e, layout_end) (ground arith),
)

-- A non-empty set of data files is accepted, with the data ending at `total`, exactly when no
-- index up to the last is missing and the sizes and the splitting mode give `total`.
pub validate_layout_ok :
    (m : Option ℕ) (f : ℕ × ℕ) (fs : List (ℕ × ℕ)) (total : ℕ)
    → (validate_layout m (f ∷ fs) ≡ ok total) ↔ (HasAllIndices (f ∷ fs) × EndsAt m (f ∷ fs) total)
unfolding validate_layout
validate_layout_ok m f fs total =
    let files = f ∷ fs in
    elim (check_indices_cases files 0 (max_key files + 1)) [
      | inl all ↦ rw all (
        λ h. (
          λ i le. check_indices_ok files 0 (max_key files + 1) i all (omega arith) (omega arith),
          (layout_end_ok m files total).0 h,
        ),
        λ h. (layout_end_ok m files total).1 h.1,
      )
      | inr (i, e, lt, gone) ↦ rw e (λ h. cc, λ h. cc (h.0 i (omega arith), gone))
    ]

-- The expectations in the code, that the last file and file 0 are there, never panic, and a file
-- that is reported missing is missing and has an index no greater than the last.
pub validate_layout_safe :
    (m : Option ℕ) (files : List (ℕ × ℕ))
    → (validate_layout m files ≢ panic)
      × ((i : ℕ)
          → validate_layout m files ≡ err (Error.missing_data_file i)
          → (lookup i files ≡ none) × (i ≤ max_key files))
unfolding validate_layout
validate_layout_safe m [] = (λ h. cc, λ i h. absurd (cc))
validate_layout_safe m (f ∷ fs) =
    let files = f ∷ fs in
    elim (check_indices_cases files 0 (max_key files + 1)) [
      | inl all ↦
          let present = λ (i : ℕ) (le : i ≤ max_key files).
            check_indices_ok files 0 (max_key files + 1) i all (omega arith) (omega arith) in
          let (calm, found) =
            layout_end_safe m files (present 0 (omega arith))
              (present (max_key files) (omega arith)) in
          rw all (calm, λ i h. absurd (found i h))
      | inr (j, e, lt, gone) ↦ rw e (
        λ h. cc,
        λ i h. let same : j ≡ i = ground arith in rw (← same) (ground arith, omega arith),
      )
    ]
