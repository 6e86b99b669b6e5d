-- ===== src/Store/Windows.antt =====
-- `ScanWindow::read` of blockstore/src/store.rs against a plain read of the data file.
use blockstore.Prelude.{
  ℕ, ◌+◌, ◌-◌, ◌≤◌, ◌<◌, ◌^◌, min, max, ◌≡◌, refl, sym, ◌∙◌, ap, inl, inr, true, false, List, ◌++◌,
  Option, none, some, ok, arith, length, take, drop, get_range, leb, ltb, Bool-cases,
  take-append_left, drop-append_left,
}
use blockstore.Disk.{IsQuiet}
use blockstore.Disk.Files.{File, bytes_from, length-bytes_from, bytes_from_add, read_exact_at_ok}
use blockstore.Disk.Calls.{data_read_exact_at_quiet}
use blockstore.FileSet.{Volume, is_index}
use blockstore.FileSet.Opening.{data_file}
use blockstore.Store.Recovery.{Window, Scan, is_resident, refill, window_read, set_window}

-- The window holds bytes of the data file that it names.
pub record IsWindow (w : Window) (v : Volume) : Type 0 where
  pub inside : (i : ℕ) → w.file_idx ≡ some i → w.start + length w.bytes ≤ (data_file i v).size
  pub bytes :
      (i : ℕ)
      → w.file_idx ≡ some i
      → w.bytes ≡ bytes_from (data_file i v).byte w.start (length w.bytes)

slice :
    (f : ℕ → ℕ) (start m k n : ℕ)
    → k + n ≤ m
    → take n (drop k (bytes_from f start m)) ≡ bytes_from f (start + k) n
slice f start m k n le =
    let rest = m - (k + n) in
    let whole : k + (n + rest) ≡ m = omega arith in
    let front = bytes_from f start k in
    let tail : bytes_from f (start + k) (n + rest)
        ≡ bytes_from f (start + k) n ++ bytes_from f (start + k + n) rest =
      bytes_from_add f (start + k) n rest in
    let split : bytes_from f start m ≡ front ++ bytes_from f (start + k) (n + rest) =
      ap (bytes_from f start) (sym whole) ∙ bytes_from_add f start k (n + rest) in
    rw
      (
        split,
        drop-append_left front (bytes_from f (start + k) (n + rest)) k
            (sym (length-bytes_from f start k)),
        tail,
      )
      (take-append_left (bytes_from f (start + k) n) (bytes_from f (start + k + n) rest) n
        (sym (length-bytes_from f (start + k) n)))

is_index-some : (k : ℕ) (o : Option ℕ) → is_index k o ≡ true → o ≡ some k
unfolding is_index
is_index-some k none h = cc
is_index-some k (some i) h = ground arith

range_of :
    (f : ℕ → ℕ) (bs : List ℕ) (start at n : ℕ)
    → bs ≡ bytes_from f start (length bs)
    → start ≤ at
    → at + n ≤ start + length bs
    → get_range bs (at - start) n ≡ some (bytes_from f at n)
range_of f bs start at n e lo hi =
    let fits : leb (at - start + n) (length bs) ≡ true = ground arith in
    let here : start + (at - start) ≡ at = omega arith in
    let s : take n (drop (at - start) (bytes_from f start (length bs))) ≡ bytes_from f at n =
      slice f start (length bs) (at - start) n (omega arith)
      ∙ ap (λ (x : ℕ). bytes_from f x n) here in
    rw fits (ap some (ap (λ (x : List ℕ). take n (drop (at - start) x)) e ∙ s))

module _ (s : Scan) (file_idx at n : ℕ) (q : IsQuiet s.store.volume.disk)
    (k : IsWindow s.window s.store.volume) (fits : at + n < 2 ^ 64)
    (inside : at + n ≤ (data_file file_idx s.store.volume).size) where
  abbrev contents : File
  contents = data_file file_idx s.store.volume

  resident_read :
      is_resident s.window file_idx at (at + n) ≡ true
      → window_read file_idx at n contents.size s ≡ (ok (bytes_from contents.byte at n), s)
  unfolding window_read
  resident_read r =
      let named : s.window.file_idx ≡ some file_idx =
        is_index-some file_idx s.window.file_idx (ground (arith, r)) in
      let low : s.window.start ≤ at = ground (arith, r) in
      let high : at + n ≤ s.window.start + length s.window.bytes = ground (arith, r) in
      let range =
        range_of contents.byte s.window.bytes s.window.start at n (k.bytes file_idx named) low
          high in
      let adds : ltb (at + n) (2 ^ 64) ≡ true = ground arith in
      let within : ltb contents.size (at + n) ≡ false = ground arith in
      rw (adds, within, r, range) refl

  abbrev want : ℕ
  want = min (contents.size - at) (max s.window.capacity n)

  abbrev refilled : Window
  refilled = record {
    file_idx = some file_idx;
    start = at;
    capacity = max s.window.capacity n;
    bytes = bytes_from contents.byte at want;
  }

  refill_lem : refill file_idx at n contents.size s ≡ (ok tt, set_window refilled s)
  unfolding refill data_file
  refill_lem =
      rw
        (
          data_read_exact_at_quiet s.store.volume.disk q,
          read_exact_at_ok contents at want (omega arith),
        )
        refl

  refilled-IsWindow : IsWindow refilled s.store.volume
  refilled-IsWindow = record {
    inside = λ i e. let same : file_idx ≡ i = cc in rw (← same, length-bytes_from) (omega arith);
    bytes = λ i e. let same : file_idx ≡ i = cc in rw (← same, length-bytes_from) refl;
  }

  refill_read :
      is_resident s.window file_idx at (at + n) ≡ false
      → window_read file_idx at n contents.size s
        ≡ (ok (bytes_from contents.byte at n), set_window refilled s)
  unfolding window_read
  refill_read r =
      let range =
        range_of contents.byte refilled.bytes at at n
          (ap (bytes_from contents.byte at) (sym (length-bytes_from contents.byte at want)))
          (omega arith) (omega (arith, length-bytes_from contents.byte at want)) in
      let adds : ltb (at + n) (2 ^ 64) ≡ true = ground arith in
      let within : ltb contents.size (at + n) ≡ false = ground arith in
      rw (adds, within, r, refill_lem, range) refl

  -- A read within the file gives the bytes of the file, whether or not the window holds them, and
  -- leaves the store and a window that holds bytes of the file that it names. The window held such
  -- bytes before, the end of the read is a u64, and the disk does not fail.
  pub window_read-bytes_from :
      (w : Window) × (window_read file_idx at n (data_file file_idx s.store.volume).size s
        ≡ (ok (bytes_from (data_file file_idx s.store.volume).byte at n), set_window w s))
      × IsWindow w s.store.volume
  window_read-bytes_from = elim (Bool-cases (is_resident s.window file_idx at (at + n))) [
    | inl r ↦ (s.window, resident_read r, k)
    | inr r ↦ (refilled, refill_read r, refilled-IsWindow)
  ]
