-- ===== src/Store/Writers.antt =====
-- Concurrent writers of blockstore/src/store.rs. `reserve_space` and `release_reservation` each
-- run under the mutex of `data_highwater`, so writers interleave between those calls: a writer
-- reserves a region, and later its block lands there or its write fails and it releases the region.
use blockstore.Prelude.{
  ℕ, ◌≤◌, ◌<◌, ◌≡◌, ◌⊎◌, inl, inr, Bool, true, false, List, [], ◌∷◌, ok, arith, All, ◌==◌,
  Bool-cases,
}
use blockstore.Store.{Store, reserve_space, release_reservation}
use blockstore.Store.Reserve.{IsLimit, reserve_space_after}

-- A reservation: the highwater before it, the block's range, and whether the block has landed.
pub record Region : Type 0 where
  pub previous : ℕ
  pub offset : ℕ
  pub end : ℕ
  pub landed : Bool

abbrev pub new_region : ℕ → ℕ → ℕ → Region
new_region previous offset end = record {
  previous = previous;
  offset = offset;
  end = end;
  landed = false;
}

pub record Pool : Type 0 where
  pub store : Store
  pub regions : List Region

-- `r` is one of the regions `rs`, and `rest` are the others.
pub data Pick (r : Region) : List Region → List Region → Type 0 where
  first : {rs : List Region} → Pick r (r ∷ rs) rs
  later : {q : Region} {rs rest : List Region} → Pick r rs rest → Pick r (q ∷ rs) (q ∷ rest)

pub data Step : Pool → Pool → Type 0 where
  reserve :
      (p : Pool) (size offset end previous : ℕ) (t : Store)
      → 0 < size
      → reserve_space size p.store ≡ (ok (offset, end, previous), t)
      → Step p (record { store = t; regions = new_region previous offset end ∷ p.regions })
  land :
      (p : Pool) (r : Region) (rest : List Region)
      → Pick r p.regions rest
      → Step p (record p { regions = record r { landed = true } ∷ rest })
  release :
      (p : Pool) (r : Region) (rest : List Region)
      → r.landed ≡ false
      → Pick r p.regions rest
      → Step p (record { store = release_reservation r.previous r.end p.store; regions = rest })

pub data Reach (p : Pool) : Pool → Type 0 where
  here : Reach p p
  next : {q r : Pool} → Reach p q → Step q r → Reach p r

-- Two regions do not meet, the bytes skipped before a block included.
abbrev pub Apart : Region → Region → Type 0
Apart q r = (q.end ≤ r.previous) ⊎ (r.end ≤ q.previous)

-- A region is not empty and ends at the highwater or before it.
abbrev pub IsBelow : ℕ → Region → Type 0
IsBelow highwater r = (r.previous ≤ r.offset) × (r.offset < r.end) × (r.end ≤ highwater)

abbrev pub AllApart : List Region → Type 0
AllApart [] = Unit {0}
AllApart (r ∷ rs) = All (Apart r) rs × AllApart rs

pub record IsDisjoint (p : Pool) : Type 0 where
  pub limit : IsLimit p.store.volume.files.max_data_file_size
  pub below : All (IsBelow p.store.data_highwater) p.regions
  pub apart : AllApart p.regions

Apart-sym : (q r : Region) → Apart q r → Apart r q
Apart-sym q r h = omega arith

pick_all :
    (P : Region → Type 0) {r : Region} {rs rest : List Region}
    → Pick r rs rest
    → All P rs
    → P r × All P rest
pick_all P first h = h
pick_all P (later k) h = let (a, b) = pick_all P k h.1 in (a, (h.0, b))

pick-Apart :
    {r : Region} {rs rest : List Region}
    → Pick r rs rest
    → AllApart rs
    → All (Apart r) rest × AllApart rest
pick-Apart first h = h
pick-Apart {r} (later {q = q} k) h =
    let (a, b) = pick-Apart k h.1 in
    let (c, d) = pick_all (Apart q) k h.0 in ((Apart-sym q r c, a), (d, b))

IsBelow-weaken :
    (low high : ℕ) (rs : List Region) → low ≤ high → All (IsBelow low) rs → All (IsBelow high) rs
IsBelow-weaken low high [] le h = tt
IsBelow-weaken low high (r ∷ rs) le h =
    ((h.0.0, h.0.1, omega arith), IsBelow-weaken low high rs le h.1)

-- A region that begins at the highwater is apart from all before it.
fresh-Apart :
    (highwater : ℕ) (r : Region) (rs : List Region)
    → highwater ≤ r.previous
    → All (IsBelow highwater) rs
    → All (Apart r) rs
fresh-Apart highwater r [] le h = tt
fresh-Apart highwater r (q ∷ qs) le h = (omega arith, fresh-Apart highwater r qs le h.1)

-- With the last region rolled back the others end where it began.
roll_back :
    (r : Region) (highwater : ℕ) (rs : List Region)
    → r.end ≡ highwater
    → All (Apart r) rs
    → All (IsBelow highwater) rs
    → All (IsBelow r.previous) rs
roll_back r highwater [] e a b = tt
roll_back r highwater (q ∷ qs) e a b =
    ((b.0.0, b.0.1, omega arith), roll_back r highwater qs e a.1 b.1)

released :
    (r : Region) (s : Store) (rs : List Region)
    → IsLimit s.volume.files.max_data_file_size
    → All (Apart r) rs
    → All (IsBelow s.data_highwater) rs
    → AllApart rs
    → IsDisjoint (record { store = release_reservation r.previous r.end s; regions = rs })
unfolding release_reservation
released r s rs l a b d = elim (Bool-cases (s.data_highwater == r.end)) [
  | inl last ↦
      rw last (record {
        limit = l;
        below = roll_back r s.data_highwater rs (ground arith) a b;
        apart = d;
      })
  | inr passed ↦ rw passed (record { limit = l; below = b; apart = d })
]

reserved_region :
    (p : Pool) (size offset end previous : ℕ) (t : Store)
    → 0 < size
    → reserve_space size p.store ≡ (ok (offset, end, previous), t)
    → IsDisjoint p
    → IsDisjoint (record { store = t; regions = new_region previous offset end ∷ p.regions })
reserved_region p size offset end previous t pos e d =
    let s = p.store in
    let (after, ends, before, left) = reserve_space_after size s t offset end previous d.limit e in
    rw left (record {
      limit = d.limit;
      below = (
        (omega arith, omega arith, omega arith),
        IsBelow-weaken s.data_highwater end p.regions (omega arith) d.below,
      );
      apart = (
        fresh-Apart s.data_highwater (new_region previous offset end) p.regions (omega arith)
            d.below,
        d.apart,
      );
    })

Step-IsDisjoint : {p q : Pool} → Step p q → IsDisjoint p → IsDisjoint q
Step-IsDisjoint (reserve p size offset end previous t pos e) d =
    reserved_region p size offset end previous t pos e d
Step-IsDisjoint (land p r rest k) d =
    let (b, bs) = pick_all (IsBelow p.store.data_highwater) k d.below in
    let (a, as') = pick-Apart k d.apart in
    record { limit = d.limit; below = (b, bs); apart = (a, as') }
Step-IsDisjoint (release p r rest w k) d =
    let (b, bs) = pick_all (IsBelow p.store.data_highwater) k d.below in
    let (a, as') = pick-Apart k d.apart in released r p.store rest d.limit a bs as'

-- Whatever the order in which writers reserve, land and fail, the regions of the blocks in flight
-- and of those that landed never meet, and all end at the highwater or before it, if that held at
-- first.
pub Reach-IsDisjoint : {p q : Pool} → IsDisjoint p → Reach p q → IsDisjoint q
Reach-IsDisjoint d here = d
Reach-IsDisjoint d (next r s) = Step-IsDisjoint s (Reach-IsDisjoint d r)
