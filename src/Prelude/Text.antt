-- ===== src/Prelude/Text.antt =====
-- Texts as lists of bytes: equality, `strip_prefix` and `strip_suffix`, decimal numbers as
-- `format!` writes them and `str::parse::<u32>` reads them.
use Prim.Native.Nat.{ℕ, zero, suc, ◌+◌, ◌-◌, ◌*◌, ◌/◌, ◌%◌, ◌^◌, ◌≤◌, ◌<◌}
use Prim.Native.Char.{code}
use Prim.Native.String.{String}
use mathlib.Core.Path.{◌≡◌, refl}
use mathlib.Core.Logic.{inl, inr}
use mathlib.Core.Bool.{Bool, true, false, ◌&&◌}
use mathlib.Core.List.{List, [], ◌∷◌, ◌++◌}
use mathlib.Core.Option
use mathlib.Core.Option.{Option, none, some}
use native.Mathlib.Nat.{pow-suc}
use native.Mathlib.Omega.{arith}
use blockstore.Prelude.Tests.{
  ltb, leb, ◌==◌, if◌then◌else◌, ==_refl, Option-cases, Bool-cases, ltb→lt,
}
use blockstore.Prelude.Lists.{length, length-append}
use blockstore.Prelude.Results.{and_then}

-- The bytes of an ASCII text.
abbrev pub codes : String → List ℕ
codes String.[] = []
codes (String.◌∷◌ c s) = code c ∷ codes s

unfoldable pub bytes_eq : List ℕ → List ℕ → Bool
bytes_eq [] [] = true
bytes_eq [] (b ∷ bs) = false
bytes_eq (a ∷ as') [] = false
bytes_eq (a ∷ as') (b ∷ bs) = a == b && bytes_eq as' bs

pub bytes_eq→eq : (a b : List ℕ) → bytes_eq a b ≡ true → a ≡ b
unfolding bytes_eq
bytes_eq→eq [] [] h = refl
bytes_eq→eq [] (b ∷ bs) h = cc
bytes_eq→eq (a ∷ as') [] h = cc
bytes_eq→eq (a ∷ as') (b ∷ bs) h = ground (arith, bytes_eq→eq as' bs)

pub bytes_eq_refl : (a : List ℕ) → bytes_eq a a ≡ true
unfolding bytes_eq
bytes_eq_refl [] = refl
bytes_eq_refl (a ∷ as') = ground (arith, ==_refl a, bytes_eq_refl as')

unfoldable pub strip_prefix : List ℕ → List ℕ → Option (List ℕ)
strip_prefix [] s = some s
strip_prefix (p ∷ ps) [] = none
strip_prefix (p ∷ ps) (c ∷ cs) = if p == c then strip_prefix ps cs else none

unfoldable pub strip_suffix : List ℕ → List ℕ → Option (List ℕ)
unfolding bytes_eq
strip_suffix suffix [] = if bytes_eq [] suffix then some [] else none
strip_suffix suffix (c ∷ cs) =
    if bytes_eq (c ∷ cs) suffix then some [] else Option.map (◌∷◌ c) (strip_suffix suffix cs)

pub strip_prefix-append : (p s : List ℕ) → strip_prefix p (p ++ s) ≡ some s
unfolding strip_prefix
strip_prefix-append [] s = refl
strip_prefix-append (p ∷ ps) s = ground (arith, ==_refl p, strip_prefix-append ps s)

bytes_ne : (a b : List ℕ) → length b < length a → bytes_eq a b ≡ false
unfolding bytes_eq
bytes_ne [] b h = absurd (omega arith)
bytes_ne (a ∷ as') [] h = refl
bytes_ne (a ∷ as') (b ∷ bs) h = ground (arith, bytes_ne as' bs)

pub strip_suffix-append : (s suffix : List ℕ) → strip_suffix suffix (s ++ suffix) ≡ some s
unfolding strip_suffix
strip_suffix-append [] [] = refl
strip_suffix-append [] (b ∷ bs) = ground (arith, bytes_eq_refl (b ∷ bs))
strip_suffix-append (c ∷ cs) suffix =
    rw (bytes_ne (c ∷ (cs ++ suffix)) suffix (omega (arith, length-append cs suffix)))
      (rw (strip_suffix-append cs suffix))

-- One digit of `u32::from_str`: the sum so far times ten plus the digit, with overflow checked.
unfoldable pub parse_digit : ℕ → ℕ → Option ℕ
parse_digit acc c =
    if leb b'0' c && leb c b'9'
    then (if ltb (acc * 10 + (c - b'0')) (2 ^ 32) then some (acc * 10 + (c - b'0')) else none)
    else none

unfoldable pub parse_digits : List ℕ → ℕ → Option ℕ
unfolding parse_digit
parse_digits [] acc = some acc
parse_digits (c ∷ cs) acc = and_then (parse_digit acc c) (parse_digits cs)

-- `str::parse::<u32>`: digits behind an optional plus sign, at least one of them.
unfoldable pub parse_u32 : List ℕ → Option ℕ
unfolding parse_digits
parse_u32 [] = none
parse_u32 (c ∷ []) = parse_digits (c ∷ []) 0
parse_u32 (c ∷ d ∷ cs) = if c == b'+' then parse_digits (d ∷ cs) 0 else parse_digits (c ∷ d ∷ cs) 0

-- The decimal digits of a number of at most `n + 1` digits, as `format!("{}")` writes them.
unfoldable pub decimal : ℕ → ℕ → List ℕ
decimal zero v = (b'0' + v) ∷ []
decimal (suc n) v =
    let front = decimal n (v / 10) in
    if ltb v 10 then (b'0' + v) ∷ [] else front ++ (b'0' + v % 10) ∷ []

parse_digits-append :
    (xs ys : List ℕ) (acc : ℕ)
    → parse_digits (xs ++ ys) acc ≡ and_then (parse_digits xs acc) (parse_digits ys)
unfolding parse_digits
parse_digits-append [] ys acc = refl
parse_digits-append (x ∷ xs) ys acc = elim (Option-cases (parse_digit acc x)) [
  | inl e ↦ rw e
  | inr (a, e) ↦ rw e (parse_digits-append xs ys a)
]

parse_digits_one : (v : ℕ) → v < 10 → parse_digits ((b'0' + v) ∷ []) 0 ≡ some v
unfolding parse_digits
parse_digits_one v h = ground arith

parse_digit_last : (v : ℕ) → v < 2 ^ 32 → parse_digits ((b'0' + v % 10) ∷ []) (v / 10) ≡ some v
unfolding parse_digits
parse_digit_last v h = ground arith

parse_digits-decimal :
    (n v : ℕ) → v < 10 ^ suc n → v < 2 ^ 32 → parse_digits (decimal n v) 0 ≡ some v
unfolding parse_digits decimal
parse_digits-decimal zero v h k = ground arith
parse_digits-decimal (suc n) v h k = elim (Bool-cases (ltb v 10)) [
  | inl e ↦ rw e (parse_digits_one v (ltb→lt v 10 e))
  | inr e ↦
      rw
        (
          e,
          parse_digits-append (decimal n (v / 10)) ((b'0' + v % 10) ∷ []) 0,
          parse_digits-decimal n (v / 10) (omega (arith, pow-suc 10 (suc n))) (omega arith),
        )
        (parse_digit_last v k)
]

-- A text that begins with a digit.
abbrev Digits : List ℕ → Type 0
Digits [] = ⊥
Digits (c ∷ cs) = b'0' ≤ c

Digits-append : (xs ys : List ℕ) → Digits xs → Digits (xs ++ ys)
Digits-append [] ys h = elim h [ ]
Digits-append (x ∷ xs) ys h = h

decimal_first : (n v : ℕ) → Digits (decimal n v)
unfolding decimal
decimal_first zero v = omega arith
decimal_first (suc n) v = elim (Bool-cases (ltb v 10)) [
  | inl e ↦ rw e (omega arith)
  | inr e ↦
      rw e (Digits-append (decimal n (v / 10)) ((b'0' + v % 10) ∷ []) (decimal_first n (v / 10)))
]

parse_u32-Digits : (s : List ℕ) → Digits s → parse_u32 s ≡ parse_digits s 0
unfolding parse_u32
parse_u32-Digits [] h = elim h [ ]
parse_u32-Digits (c ∷ []) h = refl
parse_u32-Digits (c ∷ d ∷ cs) h = ground arith

-- Every u32 reads back from its decimal text.
pub parse_u32-decimal : (v : ℕ) → v < 2 ^ 32 → parse_u32 (decimal 9 v) ≡ some v
parse_u32-decimal v h =
    rw (parse_u32-Digits (decimal 9 v) (decimal_first 9 v))
      (parse_digits-decimal 9 v (omega arith) h)
