-- ===== src/FileSet/Insertion.antt =====
-- Insertion into the cache of open handles, `Inner::insert` of blockstore/src/file_set.rs: it keeps
-- the invariant, and a full cache gives up its least recently used handle.
use blockstore.Prelude.{
  ℕ, suc, ◌≤◌, ◌<◌, ◌≡◌, ◌⊎◌, refl, sym, ◌∙◌, ap, retain_ne_head, true, false, List, [], ◌∷◌, ◌++◌,
  Option, none, some, arith, if◌then◌else◌, ltb, ◌==◌, le→ltb, length, length-append, lookup,
  insert, delete, is_some, retain_ne, elem, distinct, keys, elem-keys, keys-insert, elem-append,
  elem_single, distinct-append, lookup-insert, lookup-delete, Bool-cases, inl, inr, length-insert,
}
use blockstore.FileSet.{Handle, Inner, is_index, first, remove_at, eviction, insert_handle, remove}
use blockstore.FileSet.Cache.{IsValid, distinct-move, elem-move, length-move, remove-IsValid}

-- A full cache gives up the first of the order, and one with room gives up nothing.
eviction_cases :
    (index : ℕ) (c : Inner) (order : List ℕ)
    → c.order ≡ order
    → elem index order ≡ false
    → 0 < c.capacity
    → length order ≤ c.capacity
    → ((eviction index (suc (length order)) c ≡ none) × (suc (length order) ≤ c.capacity))
      ⊎ ((lru : ℕ) × (rest : List ℕ) × (order ≡ lru ∷ rest)
          × (eviction index (suc (length order)) c ≡ some lru)
          × (c.capacity ≤ length order))
unfolding eviction elem
eviction_cases index c [] e absent p b = inl (ground arith, omega arith)
eviction_cases index c (x ∷ xs) e absent p b =
    elim (Bool-cases (ltb c.capacity (suc (length (x ∷ xs))))) [
      | inl full ↦ inr (x, xs, refl, ground arith, ground arith)
      | inr room ↦ inl (ground arith, ground arith)
    ]

module _ (index : ℕ) (handle : Handle) (c : Inner) (v : IsValid c)
    (own : handle.index ≡ index) where
  insert_old-IsValid :
      is_some (lookup index c.handles) ≡ true → IsValid (insert_handle index handle c)
  unfolding insert_handle
  insert_old-IsValid old =
      let kept_length : length (retain_ne index c.order ++ index ∷ []) ≡ length c.order =
        length-move index c.order v.order_distinct (v.same index ∙ old) in
      rw old (record {
        positive = v.positive;
        order_distinct = distinct-move index c.order v.order_distinct;
        keys_distinct =
            ground (
              arith,
              v.keys_distinct,
              keys-insert index handle c.handles,
              elem-keys index c.handles,
            );
        same = λ k. ground (
          arith,
          elem-move index c.order v.order_distinct k,
          lookup-insert index k handle c.handles,
          v.same k,
        );
        count = ground (arith, v.count, kept_length, length-insert index handle c.handles);
        bounded = omega (arith, v.bounded, kept_length);
        own_file = λ k h e. ground (arith, v.own_file k h, lookup-insert index k handle c.handles);
      })

  -- The cache with a new entry, before one is given up.
  abbrev pushed : ℕ → Inner
  pushed capacity = record {
    capacity = capacity;
    order = c.order ++ index ∷ [];
    handles = insert index handle c.handles;
  }

  module _ (absent : is_some (lookup index c.handles) ≡ false) where
    not_ordered : elem index c.order ≡ false
    not_ordered = v.same index ∙ absent

    length-pushed : length (c.order ++ index ∷ []) ≡ suc (length c.order)
    length-pushed = omega (arith, length-append c.order (index ∷ []))

    pushed-IsValid : (capacity : ℕ) → suc (length c.order) ≤ capacity → IsValid (pushed capacity)
    pushed-IsValid capacity room = record {
      positive = omega arith;
      order_distinct = distinct-append c.order index v.order_distinct not_ordered;
      keys_distinct = ground (
        arith,
        v.keys_distinct,
        keys-insert index handle c.handles,
        elem-keys index c.handles,
        distinct-append (keys c.handles) index,
      );
      same = λ k. ground (
        arith,
        elem-append k c.order (index ∷ []),
        elem_single k index,
        lookup-insert index k handle c.handles,
        v.same k,
      );
      count = ground (arith, v.count, length-pushed, length-insert index handle c.handles);
      bounded = omega (arith, length-pushed);
      own_file = λ k h e. ground (arith, v.own_file k h, lookup-insert index k handle c.handles);
    }

    length-inserted : length (insert index handle c.handles) ≡ suc (length c.order)
    length-inserted = ground (arith, v.count, length-insert index handle c.handles)

    insert_evicting-IsValid :
        (lru : ℕ) (rest : List ℕ)
        → c.order ≡ lru ∷ rest
        → IsValid (remove lru (pushed (suc c.capacity)))
        → IsValid (record {
          capacity = c.capacity;
          order = rest ++ index ∷ [];
          handles = delete lru (insert index handle c.handles);
        })
    unfolding remove
    insert_evicting-IsValid lru rest e w =
        let all_distinct : distinct (c.order ++ index ∷ []) ≡ true =
          (pushed-IsValid (suc c.capacity) (omega (arith, v.bounded))).order_distinct in
        let r : retain_ne lru (c.order ++ index ∷ []) ≡ rest ++ index ∷ [] =
          rw e (retain_ne_head lru (rest ++ index ∷ []) (rw e at all_distinct)) in
        record {
          positive = v.positive;
          order_distinct = rw (← r) w.order_distinct;
          keys_distinct = w.keys_distinct;
          same = λ k. rw (← r) (w.same k);
          count = rw (← r) w.count;
          bounded = omega (arith, length-append rest (index ∷ []), ap length e, v.bounded);
          own_file = w.own_file;
        }

    insert_new-IsValid : IsValid (insert_handle index handle c)
    unfolding insert_handle remove_at
    insert_new-IsValid =
        rw (absent, length-inserted)
          (elim (eviction_cases index c c.order refl not_ordered v.positive v.bounded) [
            | inl (e, room) ↦ rw e (pushed-IsValid c.capacity room)
            | inr (lru, rest, o, e, full) ↦
                rw (e, o, remove_at)
                  (insert_evicting-IsValid lru rest o (
                    remove-IsValid lru (pushed (suc c.capacity))
                      (pushed-IsValid (suc c.capacity) (omega (arith, v.bounded)))))
          ])

-- The insertion of a handle under the index of its file keeps the invariant of the cache, the
-- bound on its handles included.
pub insert_handle-IsValid :
    (index : ℕ) (handle : Handle) (c : Inner)
    → handle.index ≡ index
    → IsValid c
    → IsValid (insert_handle index handle c)
insert_handle-IsValid index handle c own v = elim (Bool-cases (is_some (lookup index c.handles))) [
  | inl old ↦ insert_old-IsValid index handle c v own old
  | inr absent ↦ insert_new-IsValid index handle c v own absent
]

-- The index that a new one displaces: the least recently used of a full cache.
unfoldable pub victim : Inner → Option ℕ
victim c = if ltb (length c.order) c.capacity then none else first c.order

elem_first : (x k : ℕ) (xs : List ℕ) → elem k (x ∷ xs) ≡ false → (x == k) ≡ false
unfolding elem
elem_first x k xs h = ground arith

-- In a cache in order, a new index joins with its handle, a full cache loses its least recently
-- used index, and every other index keeps its handle.
pub lookup-insert_handle_new :
    (index k : ℕ) (handle : Handle) (c : Inner)
    → IsValid c
    → elem index c.order ≡ false
    → lookup k (insert_handle index handle c).handles ≡ (
        if index == k
        then some handle
        else if is_index k (victim c)
        then none
        else lookup k c.handles)
unfolding insert_handle victim is_index
lookup-insert_handle_new index k handle c v absent =
    let missing : is_some (lookup index c.handles) ≡ false = sym (v.same index) ∙ absent in
    let size : length (insert index handle c.handles) ≡ suc (length c.order) =
      ground (arith, v.count, length-insert index handle c.handles) in
    rw (missing, size)
      (elim (eviction_cases index c c.order refl absent v.positive v.bounded) [
        | inl (e, room) ↦ rw e (ground (arith, lookup-insert index k handle c.handles))
        | inr (lru, rest, o, e, full) ↦ rw e (
            rw (le→ltb (length c.order) c.capacity full, o, lookup-delete, lookup-insert)
              (ground (arith, elem_first lru index rest (rw o at absent))))
      ])
