-- ===== src/FileSet/Cache.antt =====
-- The cache of open handles, `Inner` of blockstore/src/file_set.rs: its invariant, and what each
-- operation does to the order of use.
use blockstore.Prelude.{
  ℕ, ◌≤◌, ◌<◌, ◌≡◌, refl, true, false, ◌||◌, List, [], ◌∷◌, ◌++◌, Option, none, some, arith,
  if◌then◌else◌, ◌==◌, ==_iff, ==_refl, length, length-append, lookup, is_some, retain_ne, elem,
  distinct, keys, keys-delete, elem-append, elem_single, elem-retain_ne, distinct-retain_ne,
  distinct-append, retain_ne_absent, length-retain_ne, length-retain_ne_if, length-delete,
  lookup-delete, Option-cases, Bool-cases, inl, inr,
}
use blockstore.FileSet.{Handle, Inner, is_index, last, position, remove_at, touch, remove}

-- Every cached index stands once in the order and has the handle of its file, and at most
-- `capacity` handles are cached.
pub record IsValid (c : Inner) : Type 0 where
  pub positive : 0 < c.capacity
  pub order_distinct : distinct c.order ≡ true
  pub keys_distinct : distinct (keys c.handles) ≡ true
  pub same : (k : ℕ) → elem k c.order ≡ is_some (lookup k c.handles)
  pub count : length c.handles ≡ length c.order
  pub bounded : length c.order ≤ c.capacity
  pub own_file : (k : ℕ) (h : Handle) → lookup k c.handles ≡ some h → h.index ≡ k

remove_at-position :
    (k : ℕ) (xs : List ℕ) (n : ℕ)
    → distinct xs ≡ true
    → position k xs ≡ some n
    → (remove_at n xs ≡ retain_ne k xs) × (elem k xs ≡ true)
unfolding position remove_at retain_ne elem distinct
remove_at-position k [] n d h = cc
remove_at-position k (x ∷ xs) n d h = elim (Option-cases (position k xs)) [
  | inl e ↦ ground (arith, retain_ne_absent k xs)
  | inr (m, e) ↦ ground (arith, remove_at-position k xs m, retain_ne_absent k xs)
]

position-none : (k : ℕ) (xs : List ℕ) → position k xs ≡ none → elem k xs ≡ false
unfolding position elem
position-none k [] h = refl
position-none k (x ∷ xs) h = ground (arith, position-none k xs)

last_retain :
    (k : ℕ) (xs : List ℕ)
    → distinct xs ≡ true
    → last xs ≡ some k
    → (retain_ne k xs ++ k ∷ [] ≡ xs) × (elem k xs ≡ true)
unfolding retain_ne elem distinct
last_retain k [] d h = cc
last_retain k (x ∷ []) d h = ground arith
last_retain k (x ∷ y ∷ xs) d h = ground (arith, last_retain k (y ∷ xs))

is_index-last : (k : ℕ) (o : Option ℕ) → is_index k o ≡ true → o ≡ some k
unfolding is_index
is_index-last k none h = cc
is_index-last k (some i) h = ground arith

-- In an order without repetitions a touched index moves to the end, if it is there, and the others
-- keep their order.
order-touch :
    (index : ℕ) (c : Inner)
    → distinct c.order ≡ true
    → (touch index c).order
      ≡ (if elem index c.order then retain_ne index c.order ++ index ∷ [] else c.order)
unfolding touch
order-touch index c d = elim (Bool-cases (is_index index (last c.order))) [
  | inl e ↦ ground (arith, e, is_index-last index (last c.order), last_retain index c.order)
  | inr e ↦ elim (Option-cases (position index c.order)) [
    | inl p ↦ ground (arith, position-none index c.order)
    | inr (n, p) ↦ ground (arith, remove_at-position index c.order n)
  ]
]

handles-touch : (index : ℕ) (c : Inner) → (touch index c).handles ≡ c.handles
unfolding touch
handles-touch index c = ground arith

capacity-touch : (index : ℕ) (c : Inner) → (touch index c).capacity ≡ c.capacity
unfolding touch
capacity-touch index c = ground arith

-- An index that is moved to the end keeps the order distinct and its elements.
module _ (i : ℕ) (xs : List ℕ) (d : distinct xs ≡ true) where
  pub distinct-move : distinct (retain_ne i xs ++ i ∷ []) ≡ true
  distinct-move = ground (
    arith,
    distinct-append (retain_ne i xs) i,
    distinct-retain_ne i xs d,
    elem-retain_ne i i xs,
    ==_refl i,
  )

  pub elem-move : (k : ℕ) → elem k (retain_ne i xs ++ i ∷ []) ≡ (i == k || elem k xs)
  elem-move k =
      ground
        (arith, elem-append k (retain_ne i xs) (i ∷ []), elem_single k i, elem-retain_ne k i xs)

  pub length-move : elem i xs ≡ true → length (retain_ne i xs ++ i ∷ []) ≡ length xs
  length-move h = omega (arith, length-append (retain_ne i xs) (i ∷ []), length-retain_ne i xs d h)

elem_eq : (i k : ℕ) (xs : List ℕ) → elem i xs ≡ true → (i == k) ≡ true → elem k xs ≡ true
elem_eq i k xs h e = rw ((==_iff i k).0 e) at h

-- A hit keeps the invariant of the cache.
pub touch-IsValid : (index : ℕ) (c : Inner) → IsValid c → IsValid (touch index c)
touch-IsValid index c v = elim (Bool-cases (elem index c.order)) [
  | inl here ↦
      let o : (touch index c).order ≡ retain_ne index c.order ++ index ∷ [] =
        rw here at (order-touch index c v.order_distinct) in
      record {
        positive = omega (arith, v.positive, capacity-touch index c);
        order_distinct = rw o (distinct-move index c.order v.order_distinct);
        keys_distinct = rw (handles-touch index c) v.keys_distinct;
        same = λ k.
            rw (o, handles-touch index c)
              (ground (
                arith,
                elem-move index c.order v.order_distinct k,
                v.same k,
                elem_eq index k c.order here,
              ));
        count =
            rw (o, handles-touch index c)
              (omega (arith, length-move index c.order v.order_distinct here, v.count));
        bounded =
            rw (o, capacity-touch index c)
              (omega (arith, length-move index c.order v.order_distinct here, v.bounded));
        own_file = rw (handles-touch index c) v.own_file;
      }
  | inr gone ↦
      let o : (touch index c).order ≡ c.order = rw gone at (order-touch index c v.order_distinct) in
      record {
        positive = omega (arith, v.positive, capacity-touch index c);
        order_distinct = rw o v.order_distinct;
        keys_distinct = rw (handles-touch index c) v.keys_distinct;
        same = rw (o, handles-touch index c) v.same;
        count = rw (o, handles-touch index c) v.count;
        bounded = rw (o, capacity-touch index c) v.bounded;
        own_file = rw (handles-touch index c) v.own_file;
      }
]

-- The removal of an index keeps the invariant of the cache.
pub remove-IsValid : (index : ℕ) (c : Inner) → IsValid c → IsValid (remove index c)
unfolding remove
remove-IsValid index c v = record {
  positive = v.positive;
  order_distinct = distinct-retain_ne index c.order v.order_distinct;
  keys_distinct = rw keys-delete (distinct-retain_ne index (keys c.handles) v.keys_distinct);
  same = λ k.
      ground (arith, v.same k, elem-retain_ne k index c.order, lookup-delete index k c.handles);
  count = ground (
    arith,
    v.same index,
    v.count,
    length-delete index c.handles v.keys_distinct,
    length-retain_ne_if index c.order v.order_distinct,
  );
  bounded = ground (arith, length-retain_ne_if index c.order v.order_distinct);
  own_file = λ k h e. ground (arith, v.own_file k h, lookup-delete index k c.handles);
}
