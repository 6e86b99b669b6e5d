-- ===== src/Prelude/Results.antt =====
-- Outcomes of fallible, stateful code: `Result` with the errors of the crate, and the monad `M` of
-- functions on a state, which keeps the state's changes when a step fails, as `?` does.
use Prim.Native.Nat.{ℕ}
use mathlib.Core.Path.{◌≡◌, refl}
use mathlib.Core.Logic.{◌⊎◌, inl, inr}
use mathlib.Core.Option.{Option, none, some}

-- One constructor for each `Error::new` of the crate, `io` for an error of the system, and one for
-- each message of the command line tool, whose `Box<dyn Error>` holds any of them.
pub data Error : Type 0 where
  io : Error
  unexpected_eof : Error
  lock_held : Error
  invalid_header_size : Error
  invalid_header_field : Error
  read_past_end : Error
  read_offset_overflow : Error
  data_offset_overflow : Error
  missing_data_file : ℕ → Error
  multiple_data_files : Error
  total_size_overflow : Error
  max_data_files_is_zero : Error
  header_past_data : Error
  index_offset_overflow : Error
  partial_index_entry : Error
  block_end_overflow : Error
  next_write_offset_overflow : Error
  block_is_empty : Error
  block_too_large : Error
  invalid_block_height : Error
  block_exceeds_file_size : Error
  file_index_overflow : Error
  highwater_overflow : Error
  refuse_checkpoint : Error
  block_size_too_large : Error
  short_block_read : Error
  block_size_mismatch : Error
  decompress_failed : Error
  checksum_mismatch : Error
  no_index_path : Error
  no_data_path : Error
  invalid_sync_mode : Error
  overflow : Error
  different_heights : Error
  different_heights_with_receipts : Error

pub data Result {ℓ} (A : Type ℓ) : Type ℓ where
  ok : A → Result A
  err : Error → Result A
  panic : Result A

-- Code on a state: the result, and the state that it leaves behind.
abbrev pub M : Type 0 → Type 0 → Type 0
M S A = S → Result A × S

abbrev pub continue : {S A B : Type 0} → Result A → (A → M S B) → M S B
continue (ok a) f s = f a s
continue (err e) f s = (err e, s)
continue panic f s = (panic, s)

infixl 5 ◌>>=◌ ◌>>◌
abbrev pub ◌>>=◌ : {S A B : Type 0} → M S A → (A → M S B) → M S B
◌>>=◌ m f s = let (r, s') = m s in continue r f s'

abbrev pub ◌>>◌ : {S A B : Type 0} → M S A → M S B → M S B
m >> k = m >>= λ _. k

abbrev pub pure : {S A : Type 0} → A → M S A
pure a s = (ok a, s)

abbrev pub fail : {S A : Type 0} → Error → M S A
fail e s = (err e, s)

abbrev pub get : {S : Type 0} → M S S
get s = (ok s, s)

abbrev pub modify : {S : Type 0} → (S → S) → M S (Unit {0})
modify f s = (ok tt, f s)

abbrev pub lift : {S A : Type 0} → Result A → M S A
lift r s = (r, s)

-- Runs code on a part of the state.
abbrev pub zoom : {S T A : Type 0} → (S → T) → (T → S → S) → M T A → M S A
zoom part put m s = let (r, t) = m (part s) in (r, put t s)

-- `Option::ok_or`.
abbrev pub ok_or : {A : Type 0} → Option A → Error → Result A
ok_or none e = err e
ok_or (some a) e = ok a

abbrev pub then_ok : {A B : Type 0} → Result A → (A → Result B) → Result B
then_ok (ok a) f = f a
then_ok (err e) f = err e
then_ok panic f = panic

-- `Option::and_then`.
abbrev pub and_then : {A B : Type 0} → Option A → (A → Option B) → Option B
and_then none f = none
and_then (some a) f = f a

-- `unwrap_or`.
abbrev pub unwrap_or : {A : Type 0} → Option A → A → A
unwrap_or none a = a
unwrap_or (some b) a = b

pub Result-cases :
    {A : Type 0} (r : Result A) → ((a : A) × (r ≡ ok a)) ⊎ ((e : Error) × (r ≡ err e)) ⊎ (r ≡ panic)
Result-cases (ok a) = inl (a, refl)
Result-cases (err e) = inr (inl (e, refl))
Result-cases panic = inr (inr refl)
