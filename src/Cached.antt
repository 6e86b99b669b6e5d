-- ===== src/Cached.antt =====
-- `CachedStore` of blockstore/src/cached_store.rs: a cache of blocks in front of a store. The cache
-- is the `LruCache` of the lru-mem crate, a parameter here.
use blockstore.Prelude.{
  ℕ, ◌+◌, ◌≤◌, ◌<◌, ◌^◌, ◌≡◌, refl, sym, ◌∙◌, ◌⊎◌, inl, inr, Bool, true, false, List, Option, none,
  some, M, Result, ok, err, panic, length, IsU64, if◌then◌else◌, ◌==◌, ==_iff, Bool-cases,
  Option-cases,
}
use blockstore.Format.{max_block_size, serialized_size}
use blockstore.Store.{Codec, IsCodec, Store, index_entry_offset}
use blockstore.Store.ReadWrite.{read_block, write_block}
use blockstore.Store.Room.{HasRoom}
use blockstore.Store.Refines.{Represents, read_block_lookup}
use blockstore.Store.Writes.{write_block_insert}

-- A cache of blocks by height: `get` moves the recency, `insert` says whether it took the block, and
-- `peek` is what the cache holds.
pub record BlockCache (C : Type 0) : Type 0 where
  pub get : ℕ → C → Option (List ℕ) × C
  pub insert : ℕ → List ℕ → C → Bool × C
  pub peek : ℕ → C → Option (List ℕ)

-- What the crate documents: `get` gives what the cache holds and removes nothing; an insertion that
-- succeeds holds the block at its height, and whether or not it succeeds every other block is held
-- as before or is evicted.
pub record IsBlockCache (C : Type 0) (k : BlockCache C) : Type 0 where
  pub get-peek : (h : ℕ) (c : C) → (k.get h c).0 ≡ k.peek h c
  pub peek-get : (h j : ℕ) (c : C) → k.peek j (k.get h c).1 ≡ k.peek j c
  pub peek-insert :
      (h : ℕ) (b : List ℕ) (c : C)
      → (k.insert h b c).0 ≡ true
      → k.peek h (k.insert h b c).1 ≡ some b
  pub peek-insert_other :
      (h j : ℕ) (b : List ℕ) (c : C)
      → (k.peek j (k.insert h b c).1 ≡ k.peek j c)
        ⊎ ((k.peek j (k.insert h b c).1 ≡ none) ⊎ (j ≡ h))
  pub peek-insert_refused :
      (h : ℕ) (b : List ℕ) (c : C)
      → (k.insert h b c).0 ≡ false
      → (k.peek h (k.insert h b c).1 ≡ k.peek h c) ⊎ (k.peek h (k.insert h b c).1 ≡ none)

pub record CachedStore (C : Type 0) : Type 0 where
  pub inner : Store
  pub cache : C

module _ {C : Type 0} (c : Codec) (k : BlockCache C) where
  abbrev with_cache : C → CachedStore C → CachedStore C
  with_cache d s = record s { cache = d }

  -- After a read of the store: a block that was found goes into the cache, if it fits.
  unfoldable pub populate :
      ℕ → Result (Option (List ℕ)) × CachedStore C → Result (Option (List ℕ)) × CachedStore C
  populate height (ok (some b), s) = (ok (some b), with_cache (k.insert height b s.cache).1 s)
  populate height (ok none, s) = (ok none, s)
  populate height (err e, s) = (err e, s)
  populate height (panic, s) = (panic, s)

  -- `CachedStore::read_block`.
  unfoldable pub read_cached : ℕ → M (CachedStore C) (Option (List ℕ))
  unfolding populate
  read_cached height s =
      let (hit, d) = k.get height s.cache in
      elim hit [
        | some b ↦ (ok (some b), with_cache d s)
        | none ↦
            let (r, t) = read_block c height s.inner in
            populate height (r, record { inner = t; cache = d })
      ]

  -- After a write of the store: the block goes into the cache, if it fits and the write succeeded.
  unfoldable pub populate_written :
      ℕ → List ℕ → Result (Unit {0}) × CachedStore C → Result (Unit {0}) × CachedStore C
  populate_written height block (ok u, s) = (ok u, with_cache (k.insert height block s.cache).1 s)
  populate_written height block (err e, s) = (err e, s)
  populate_written height block (panic, s) = (panic, s)

  -- `CachedStore::write_block`.
  unfoldable pub write_cached : ℕ → List ℕ → M (CachedStore C) (Unit {0})
  unfolding populate_written
  write_cached height block s =
      let (r, t) = write_block c height block s.inner in
      populate_written height block (r, record { inner = t; cache = s.cache })

  -- The store holds the blocks of the map, and the cache holds none but those.
  pub record IsCoherent (s : CachedStore C) (blocks : ℕ → Option (List ℕ)) : Type 0 where
    pub store : Represents c s.inner blocks
    pub cached : (h : ℕ) (b : List ℕ) → k.peek h s.cache ≡ some b → blocks h ≡ some b

  module _ (law : IsBlockCache C k) (d : C) (blocks : ℕ → Option (List ℕ))
      (cached : (h : ℕ) (b : List ℕ) → k.peek h d ≡ some b → blocks h ≡ some b) where
    -- The block of the map goes into the cache.
    insert_cached :
        (height : ℕ) (new : List ℕ)
        → blocks height ≡ some new
        → (h : ℕ) (b : List ℕ) → k.peek h (k.insert height new d).1 ≡ some b
        → blocks h ≡ some b
    insert_cached height new e h b p = elim (law.peek-insert_other height h new d) [
      | inl same ↦ cached h b (sym same ∙ p)
      | inr (inl gone) ↦ absurd (cc (gone, p))
      | inr (inr at) ↦ elim (Bool-cases (k.insert height new d).0) [
        | inl taken ↦
            let held : k.peek height (k.insert height new d).1 ≡ some new =
              law.peek-insert height new d taken in
            cc (held, p, at, e)
        | inr refused ↦ elim (law.peek-insert_refused height new d refused) [
          | inl same ↦ let old : k.peek h d ≡ some b = cc (same, p, at) in cached h b old
          | inr gone ↦ absurd (cc (gone, p, at))
        ]
      ]
    ]

    -- A new block that the cache takes.
    insert_new :
        (height : ℕ) (new : List ℕ)
        → (k.insert height new d).0 ≡ true
        → (h : ℕ) (b : List ℕ) → k.peek h (k.insert height new d).1 ≡ some b
        → (if h == height then some new else blocks h) ≡ some b
    insert_new height new taken h b p = elim (Bool-cases (h == height)) [
      | inl at ↦
          let same : h ≡ height = (==_iff h height).0 at in
          let held : k.peek height (k.insert height new d).1 ≡ some new =
            law.peek-insert height new d taken in
          rw at (cc (held, p, same))
      | inr away ↦ rw away (elim (law.peek-insert_other height h new d) [
        | inl same ↦ cached h b (sym same ∙ p)
        | inr (inl gone) ↦ absurd (cc (gone, p))
        | inr (inr at) ↦
            let yes : (h == height) ≡ true = (==_iff h height).1 at in absurd (cc (yes, away))
      ])
    ]

  module _ (law : IsBlockCache C k) (codec : IsCodec c) (s : CachedStore C)
      (blocks : ℕ → Option (List ℕ)) (r : IsCoherent s blocks) where
    after_get :
        (height h : ℕ) (b : List ℕ) → k.peek h (k.get height s.cache).1 ≡ some b → blocks h ≡ some b
    after_get height h b p = r.cached h b (sym (law.peek-get height h s.cache) ∙ p)

    read_miss :
        (height : ℕ)
        → (k.get height s.cache).0 ≡ none
        → read_cached height s
          ≡ populate height (
            (read_block c height s.inner).0,
            record { inner = (read_block c height s.inner).1; cache = (k.get height s.cache).1 },
          )
    unfolding read_cached
    read_miss height miss = rw (miss, read_cached) refl

    -- A cached read of a height with an entry gives the block that the map has there, or none,
    -- whether or not the cache holds it, and the cache still holds blocks of the map only. The
    -- store is sound, the cache held blocks of the map only, and the crates do as they say.
    pub read_cached_lookup :
        (height offset : ℕ)
        → index_entry_offset s.inner.header.min_height height ≡ some offset
        → (t : CachedStore C) × (read_cached height s ≡ (ok (blocks height), t))
          × IsCoherent t blocks
    unfolding read_cached populate
    read_cached_lookup height offset at = elim (Option-cases (k.get height s.cache).0) [
      | inr (b, hit) ↦
          let known : blocks height ≡ some b =
            r.cached height b (sym (law.get-peek height s.cache) ∙ hit) in
          (
            with_cache (k.get height s.cache).1 s,
            rw (hit, known, read_cached) refl,
            record { store = r.store; cached = after_get height },
          )
      | inl miss ↦
          let (t, read, still) =
            read_block_lookup c s.inner blocks height offset codec r.store at in
          elim (Option-cases (blocks height)) [
            | inl gone ↦ (
              record { inner = t; cache = (k.get height s.cache).1 },
              read_miss height miss ∙ rw (read, gone) refl,
              record { store = still; cached = after_get height },
            )
            | inr (b, here) ↦ (
              record { inner = t; cache = (k.insert height b (k.get height s.cache).1).1 },
              read_miss height miss ∙ rw (read, here) refl,
              record {
                store = still;
                cached =
                    insert_cached law (k.get height s.cache).1 blocks (after_get height) height b
                      here;
              },
            )
          ]
    ]

    -- A cached write succeeds and puts the block into the map and into the cache, which then holds
    -- blocks of the new map only. The cache held blocks of the old map only and takes the new
    -- block; the other conditions are those of `write_block`: the store is sound, the block is not
    -- empty and has under 2^32 bytes, it compresses to 1 GiB at most, the height is a u64 with an
    -- entry, there is room, and the crates do as they say.
    pub write_cached_insert :
        (height place : ℕ) (block : List ℕ)
        → IsU64 height
        → 0 < length block
        → length block < 2 ^ 32
        → length (c.compress block) ≤ max_block_size
        → index_entry_offset s.inner.header.min_height height ≡ some place
        → HasRoom s.inner.volume.files.max_data_file_size s.inner.data_highwater
            (length (c.compress block) + serialized_size)
        → (k.insert height block s.cache).0 ≡ true
        → (t : CachedStore C) × (write_cached height block s ≡ (ok tt, t))
          × IsCoherent t (λ h. if h == height then some block else blocks h)
          × (k.peek height t.cache ≡ some block)
    unfolding write_cached
    write_cached_insert height place block h64 pos short small at room taken =
        let (t, wrote, now) =
          write_block_insert c s.inner blocks height place block codec r.store h64 pos short small
            at room in
        (
          record { inner = t; cache = (k.insert height block s.cache).1 },
          rw wrote refl,
          record {
            store = now;
            cached = insert_new law s.cache blocks r.cached height block taken;
          },
          law.peek-insert height block s.cache taken,
        )
