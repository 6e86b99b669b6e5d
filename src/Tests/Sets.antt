-- ===== src/Tests/Sets.antt =====
-- Data files, their names and the cache of handles on concrete inputs.
use blockstore.Prelude.{
  ℕ, ◌≤◌, ◌≡◌, ◌≢◌, ◌↔◌, refl, [], ◌∷◌, none, some, ok, err, panic, Error, arith, if◌then◌else◌,
  ◌==◌, distinct, elem, lookup, Ensures, insert,
}
use blockstore.FileSet.{Handle, touch, insert_handle, get_or_open, is_index}
use blockstore.FileSet.Names.{
  data_file_name, parse_data_file_index, parse_data_file_index-data_file_name,
}
use blockstore.FileSet.Cache.{IsValid}
use blockstore.FileSet.Insertion.{insert_handle-IsValid, victim, lookup-insert_handle_new}
use blockstore.FileSet.Layout.{
  validate_layout, max_key, HasAllIndices, EndsAt, validate_layout_ok, validate_layout_safe,
}
use blockstore.FileSet.Opening.{get_or_open-IsValid}
use blockstore.Tests.{handle, two_handles, no_handles-IsValid, fresh_volume}

two_handles-IsValid : IsValid two_handles
unfolding distinct lookup elem
two_handles-IsValid = record {
  positive = omega arith;
  order_distinct = refl;
  keys_distinct = refl;
  same = λ k. ground arith;
  count = refl;
  bounded = omega arith;
  own_file = λ k h e. ground arith;
}

-- A handle that is used again moves behind the other, and a new one displaces the other.
touch_run : (touch 5 two_handles).order ≡ 3 ∷ 5 ∷ []
unfolding touch
touch_run = refl

insert_run : (insert_handle 7 (handle 7) (touch 5 two_handles)).order ≡ 5 ∷ 7 ∷ []
unfolding insert_handle touch lookup insert
insert_run = refl

parse_data_file_index-data_file_name_example : parse_data_file_index (data_file_name 42) ≡ some 42
parse_data_file_index-data_file_name_example = parse_data_file_index-data_file_name 42 (omega arith)

insert_handle-IsValid_example : IsValid (insert_handle 7 (handle 7) two_handles)
insert_handle-IsValid_example =
    insert_handle-IsValid 7 (handle 7) two_handles refl two_handles-IsValid

lookup-insert_handle_new_example : lookup 3 (insert_handle 7 (handle 7) two_handles).handles ≡ (
    if 7 == 3
    then some (handle 7)
    else if is_index 3 (victim two_handles)
    then none
    else lookup 3 two_handles.handles)
unfolding elem
lookup-insert_handle_new_example =
    lookup-insert_handle_new 7 3 (handle 7) two_handles two_handles-IsValid refl

validate_layout_run :
    (validate_layout (some 100) ((0, 90) ∷ (1, 30) ∷ []) ≡ ok 130)
    × (validate_layout (some 100) ((0, 90) ∷ (2, 30) ∷ []) ≡ err (Error.missing_data_file 1))
    × (validate_layout none ((0, 90) ∷ (1, 30) ∷ []) ≡ err Error.multiple_data_files)
unfolding validate_layout max_key lookup
validate_layout_run = (refl, refl, refl)

validate_layout_ok_example :
    (validate_layout (some 100) ((0, 90) ∷ (1, 30) ∷ []) ≡ ok 130)
    ↔ (HasAllIndices ((0, 90) ∷ (1, 30) ∷ []) × EndsAt (some 100) ((0, 90) ∷ (1, 30) ∷ []) 130)
validate_layout_ok_example = validate_layout_ok (some 100) (0, 90) ((1, 30) ∷ []) 130

validate_layout_safe_example :
    (validate_layout (some 100) ((0, 90) ∷ (2, 30) ∷ []) ≢ panic)
    × ((i : ℕ)
        → validate_layout (some 100) ((0, 90) ∷ (2, 30) ∷ []) ≡ err (Error.missing_data_file i)
        → (lookup {V = ℕ} i ((0, 90) ∷ (2, 30) ∷ []) ≡ none)
          × (i ≤ max_key ((0, 90) ∷ (2, 30) ∷ [])))
validate_layout_safe_example = validate_layout_safe (some 100) ((0, 90) ∷ (2, 30) ∷ [])

get_or_open-IsValid_example :
    Ensures
      (λ (h : Handle) w. IsValid w.files.inner × (h.index ≡ 4))
      (λ w. IsValid w.files.inner)
      (get_or_open 4 fresh_volume)
get_or_open-IsValid_example = get_or_open-IsValid 4 fresh_volume no_handles-IsValid
