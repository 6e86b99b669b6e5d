-- ===== src/Prelude/Contracts.antt =====
-- What code on a state ensures: a property of its value and state when it succeeds, and of its
-- state when it fails or panics.
use mathlib.Core.Path.{◌≡◌}
use blockstore.Prelude.Results.{Result, ok, err, panic, M, continue, ◌>>=◌, zoom}

abbrev pub Ensures : {S A : Type 0} → (A → S → Type 0) → (S → Type 0) → Result A × S → Type 0
Ensures Q E (ok a, s) = Q a s
Ensures Q E (err e, s) = E s
Ensures Q E (panic, s) = E s

module _ {S A B : Type 0} (Q : B → S → Type 0) (E : S → Type 0) where
  pub continue-Ensures :
      (P : A → S → Type 0) (r : Result A) (f : A → M S B) (s : S)
      → Ensures P E (r, s)
      → ((a : A) (t : S) → P a t → Ensures Q E (f a t))
      → Ensures Q E (continue r f s)
  continue-Ensures P (ok a) f s h k = k a s h
  continue-Ensures P (err e) f s h k = h
  continue-Ensures P panic f s h k = h

  -- The rule for a step and the rest.
  pub bind-Ensures :
      (P : A → S → Type 0) (m : M S A) (f : A → M S B) (s : S)
      → Ensures P E (m s)
      → ((a : A) (t : S) → P a t → Ensures Q E (f a t))
      → Ensures Q E ((m >>= f) s)
  bind-Ensures P m f s h k = continue-Ensures P (m s).0 f (m s).1 h k

module _ {S A : Type 0} where
  pub Ensures-weaken :
      (Q Q' : A → S → Type 0) (E E' : S → Type 0) (r : Result A) (s : S)
      → ((a : A) (t : S) → Q a t → Q' a t)
      → ((t : S) → E t → E' t)
      → Ensures Q E (r, s)
      → Ensures Q' E' (r, s)
  Ensures-weaken Q Q' E E' (ok a) s f g h = f a s h
  Ensures-weaken Q Q' E E' (err e) s f g h = g s h
  Ensures-weaken Q Q' E E' panic s f g h = g s h

  -- A property of the state that holds on every path holds of the state that is left.
  pub Ensures-state :
      (Q : A → S → Type 0) (P : S → Type 0) (r : Result A) (s : S)
      → ((a : A) (t : S) → Q a t → P t)
      → Ensures Q P (r, s)
      → P s
  Ensures-state Q P (ok a) s f h = f a s h
  Ensures-state Q P (err e) s f h = h
  Ensures-state Q P panic s f h = h

  pub Ensures-value :
      (Q : A → S → Type 0) (E : S → Type 0) (r : Result A) (s : S) (a : A)
      → Ensures Q E (r, s)
      → r ≡ ok a
      → Q a s
  Ensures-value Q E (ok b) s a h e = let p : b ≡ a = cc e in rw p at h
  Ensures-value Q E (err x) s a h e = absurd (cc)
  Ensures-value Q E panic s a h e = absurd (cc)

-- Code on a part of the state: nothing is known of the part that it leaves.
pub zoom-Ensures :
    {S T A : Type 0} (part : S → T) (put : T → S → S) (P : S → Type 0) (m : M T A) (s : S)
    → ((t : T) → P (put t s))
    → Ensures (λ a t. P t) P (zoom part put m s)
zoom-Ensures {A = A} part put P m s h = zoomed (m (part s)).0
  where
    zoomed : (r : Result A) → Ensures (λ (a : A) t. P t) P (r, put (m (part s)).1 s)
    zoomed (ok a) = h _
    zoomed (err e) = h _
    zoomed panic = h _

-- A property of the state alone, whatever the result.
pub Ensures-same :
    {S A : Type 0} (P : S → Type 0) (r : Result A) (s : S)
    → P s
    → Ensures (λ (a : A) t. P t) P (r, s)
Ensures-same P (ok a) s h = h
Ensures-same P (err e) s h = h
Ensures-same P panic s h = h
