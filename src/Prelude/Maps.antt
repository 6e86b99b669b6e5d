-- ===== src/Prelude/Maps.antt =====
-- Maps from numbers as association lists, and lists of distinct numbers.
use Prim.Native.Nat.{ℕ, suc, ◌+◌}
use mathlib.Core.Path.{◌≡◌, refl}
use mathlib.Core.Bool.{Bool, true, false, not, ◌&&◌, ◌||◌}
use mathlib.Core.Option.{Option, none, some}
use mathlib.Core.List.{List, [], ◌∷◌, ◌++◌, map}
use native.Mathlib.Omega.{arith}
use blockstore.Prelude.Tests.{◌==◌, ==_refl, if◌then◌else◌}
use blockstore.Prelude.Lists.{length}

abbrev pub is_some {ℓ} : {A : Type ℓ} → Option A → Bool
is_some none = false
is_some (some a) = true

module _ {V : Type 0} where
  -- `remove` of a map.
  unfoldable pub delete : ℕ → List (ℕ × V) → List (ℕ × V)
  delete key [] = []
  delete key ((other, held) ∷ rest) =
      if other == key then delete key rest else (other, held) ∷ delete key rest

  unfoldable pub lookup : ℕ → List (ℕ × V) → Option V
  lookup key [] = none
  lookup key ((other, held) ∷ rest) = if other == key then some held else lookup key rest

  pub lookup-delete :
      (gone key : ℕ) (entries : List (ℕ × V))
      → lookup key (delete gone entries) ≡ (if gone == key then none else lookup key entries)
  unfolding lookup delete
  lookup-delete gone key [] = ground arith
  lookup-delete gone key ((other, held) ∷ rest) = ground (arith, lookup-delete gone key rest)

  -- `insert` of a map: a new value under an old key, or a new entry.
  unfoldable pub insert : ℕ → V → List (ℕ × V) → List (ℕ × V)
  insert key value [] = (key, value) ∷ []
  insert key value ((other, held) ∷ rest) =
      if other == key then (key, value) ∷ rest else (other, held) ∷ insert key value rest

  pub lookup-insert :
      (new key : ℕ) (value : V) (entries : List (ℕ × V))
      → lookup key (insert new value entries)
        ≡ (if new == key then some value else lookup key entries)
  unfolding lookup insert
  lookup-insert new key value [] = refl
  lookup-insert new key value ((other, held) ∷ rest) =
      ground (arith, lookup-insert new key value rest)

  pub length-insert :
      (k : ℕ) (v : V) (m : List (ℕ × V))
      → length (insert k v m) ≡ (if is_some (lookup k m) then length m else suc (length m))
  unfolding lookup insert
  length-insert k v [] = refl
  length-insert k v ((i, w) ∷ m) = ground (arith, length-insert k v m)

-- Membership in a list of numbers, and what `Vec::retain` keeps.
unfoldable pub elem : ℕ → List ℕ → Bool
elem k [] = false
elem k (x ∷ xs) = x == k || elem k xs

unfoldable pub retain_ne : ℕ → List ℕ → List ℕ
retain_ne k [] = []
retain_ne k (x ∷ xs) = if x == k then retain_ne k xs else x ∷ retain_ne k xs

-- No number stands twice.
unfoldable pub distinct : List ℕ → Bool
unfolding elem
distinct [] = true
distinct (x ∷ xs) = not (elem x xs) && distinct xs

pub elem-append : (k : ℕ) (xs ys : List ℕ) → elem k (xs ++ ys) ≡ (elem k xs || elem k ys)
unfolding elem
elem-append k [] ys = refl
elem-append k (x ∷ xs) ys = ground (arith, elem-append k xs ys)

pub elem_single : (k i : ℕ) → elem k (i ∷ []) ≡ (i == k)
unfolding elem
elem_single k i = ground arith

pub elem-retain_ne : (k i : ℕ) (xs : List ℕ) → elem k (retain_ne i xs) ≡ (not (i == k) && elem k xs)
unfolding elem retain_ne
elem-retain_ne k i [] = ground arith
elem-retain_ne k i (x ∷ xs) = ground (arith, elem-retain_ne k i xs)

pub distinct-retain_ne :
    (i : ℕ) (xs : List ℕ) → distinct xs ≡ true → distinct (retain_ne i xs) ≡ true
unfolding distinct retain_ne
distinct-retain_ne i [] h = refl
distinct-retain_ne i (x ∷ xs) h = ground (arith, distinct-retain_ne i xs, elem-retain_ne x i xs)

pub distinct-append :
    (xs : List ℕ) (i : ℕ) → distinct xs ≡ true → elem i xs ≡ false → distinct (xs ++ i ∷ []) ≡ true
unfolding distinct elem
distinct-append [] i h k = refl
distinct-append (x ∷ xs) i h k =
    ground (arith, distinct-append xs i, elem-append x xs (i ∷ []), elem_single x i)

-- Without the number nothing changes, and of distinct numbers one at most goes.
pub retain_ne_absent : (i : ℕ) (xs : List ℕ) → elem i xs ≡ false → retain_ne i xs ≡ xs
unfolding elem retain_ne
retain_ne_absent i [] h = refl
retain_ne_absent i (x ∷ xs) h = ground (arith, retain_ne_absent i xs)

pub length-retain_ne :
    (i : ℕ) (xs : List ℕ)
    → distinct xs ≡ true
    → elem i xs ≡ true
    → suc (length (retain_ne i xs)) ≡ length xs
unfolding elem retain_ne distinct
length-retain_ne i [] h k = cc
length-retain_ne i (x ∷ xs) h k = ground (arith, length-retain_ne i xs, retain_ne_absent i xs)

pub retain_ne_head : (x : ℕ) (xs : List ℕ) → distinct (x ∷ xs) ≡ true → retain_ne x (x ∷ xs) ≡ xs
unfolding retain_ne distinct
retain_ne_head x xs d = ground (arith, retain_ne_absent x xs, ==_refl x)

pub length-retain_ne_if :
    (i : ℕ) (xs : List ℕ)
    → distinct xs ≡ true
    → length (retain_ne i xs) + (if elem i xs then 1 else 0) ≡ length xs
length-retain_ne_if i xs d = ground (arith, length-retain_ne i xs d, retain_ne_absent i xs)

module _ {V : Type 0} where
  abbrev pub keys : List (ℕ × V) → List ℕ
  keys = map (λ e. e.0)

  pub elem-keys : (k : ℕ) (m : List (ℕ × V)) → elem k (keys m) ≡ is_some (lookup k m)
  unfolding elem lookup
  elem-keys k [] = refl
  elem-keys k ((i, w) ∷ m) = ground (arith, elem-keys k m)

  pub keys-delete : (k : ℕ) (m : List (ℕ × V)) → keys (delete k m) ≡ retain_ne k (keys m)
  unfolding retain_ne delete
  keys-delete k [] = refl
  keys-delete k ((i, w) ∷ m) = ground (arith, keys-delete k m)

  pub keys-insert :
      (k : ℕ) (v : V) (m : List (ℕ × V))
      → keys (insert k v m) ≡ (if elem k (keys m) then keys m else keys m ++ k ∷ [])
  unfolding elem insert
  keys-insert k v [] = refl
  keys-insert k v ((i, w) ∷ m) = ground (arith, keys-insert k v m)

  pub length-keys : (m : List (ℕ × V)) → length (keys m) ≡ length m
  length-keys [] = refl
  length-keys ((i, w) ∷ m) = omega (arith, length-keys m)

  pub length-delete :
      (k : ℕ) (m : List (ℕ × V))
      → distinct (keys m) ≡ true
      → length (delete k m) + (if is_some (lookup k m) then 1 else 0) ≡ length m
  length-delete k m d = ground (
    arith,
    elem-keys k m,
    keys-delete k m,
    length-keys m,
    length-keys (delete k m),
    length-retain_ne_if k (keys m) d,
  )
