-- ===== src/Tests/Caches.antt =====
-- The cached store on a cache of one block that takes blocks of up to four bytes.
use blockstore.Prelude.{
  ℕ, ◌≡◌, refl, ◌⊎◌, inl, inr, true, false, List, [], ◌∷◌, Option, none, some, ok, arith, length,
  ltb, ◌==◌, ==_refl, if◌then◌else◌, Bool-cases,
}
use blockstore.Store.{index_entry_offset}
use blockstore.Cached.{
  BlockCache, IsBlockCache, CachedStore, IsCoherent, read_cached, write_cached, read_cached_lookup,
  write_cached_insert,
}
use blockstore.Ffi.{Handle, BlockResult, block_of, bs_read_block, Shows, bs_read_block_lookup}
use blockstore.Tests.{codec, codec-IsCodec}
use blockstore.Tests.Stores.{one, one_block, one_place, one-Represents}

abbrev Slot : Type 0
Slot = Option (ℕ × List ℕ)

abbrev held_at : ℕ → Slot → Option (List ℕ)
held_at h none = none
held_at h (some (j, b)) = if j == h then some b else none

abbrev slot : BlockCache Slot
slot = record {
  get = λ h c. (held_at h c, c);
  insert = λ h b c. if ltb (length b) 5 then (true, some (h, b)) else (false, c);
  peek = held_at;
}

slot-IsBlockCache : IsBlockCache Slot slot
slot-IsBlockCache = record {
  get-peek = λ h c. refl;
  peek-get = λ h j c. refl;
  peek-insert = λ h b c e. ground (arith, ==_refl h);
  peek-insert_other = λ h j b c. other h j b c;
  peek-insert_refused = λ h b c e. inl (ground arith);
}
  where
    other :
        (h j : ℕ) (b : List ℕ) (c : Slot)
        → (held_at j (slot.insert h b c).1 ≡ held_at j c)
          ⊎ ((held_at j (slot.insert h b c).1 ≡ none) ⊎ (j ≡ h))
    other h j b c = elim (Bool-cases (ltb (length b) 5)) [
      | inr wide ↦ inl (rw wide refl)
      | inl fits ↦ elim (Bool-cases (h == j)) [
        | inl same ↦ inr (inr (ground (arith, same)))
        | inr apart ↦ inr (inl (rw (fits, apart) refl))
      ]
    ]

abbrev cold : CachedStore Slot
cold = record { inner = one; cache = none }

cold-IsCoherent : IsCoherent codec slot cold one_block
cold-IsCoherent = record { store = one-Represents; cached = λ h b e. absurd (cc) }

read_cached_lookup_example :
    (t : CachedStore Slot) × (read_cached codec slot 1 cold ≡ (ok (one_block 1), t))
    × IsCoherent codec slot t one_block
read_cached_lookup_example =
    read_cached_lookup codec slot slot-IsBlockCache codec-IsCodec cold one_block cold-IsCoherent 1
      64 one_place

write_cached_insert_example :
    (t : CachedStore Slot) × (write_cached codec slot 2 (7 ∷ 8 ∷ []) cold ≡ (ok tt, t))
    × IsCoherent codec slot t (λ h. if h == 2 then some (7 ∷ 8 ∷ []) else one_block h)
    × (held_at 2 t.cache ≡ some (7 ∷ 8 ∷ []))
write_cached_insert_example =
    write_cached_insert codec slot slot-IsBlockCache codec-IsCodec cold one_block cold-IsCoherent 2
      80 (7 ∷ 8 ∷ []) (omega arith) (omega arith) (omega arith) (omega arith)
      (unfold index_entry_offset in refl) (omega arith, omega arith, omega arith) refl

bs_read_block_null : (bs_read_block codec slot 1 none).0 ≡ BlockResult.null_handle_pointer
unfolding bs_read_block
bs_read_block_null = refl

bs_read_block_lookup_example :
    (t : Handle Slot) × (bs_read_block codec slot 1 (some (Handle.cached cold))
      ≡ (block_of (one_block 1), some t))
    × Shows codec slot t one_block
bs_read_block_lookup_example =
    bs_read_block_lookup codec slot (Handle.cached cold) one_block 1 64 codec-IsCodec
      slot-IsBlockCache cold-IsCoherent one_place
