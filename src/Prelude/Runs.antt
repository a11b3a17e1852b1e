-- ===== src/Prelude/Runs.antt =====
-- The outcome of code that may fail an `assert`, read out of range, or go on looping.
use mathlib.Core.Path.{◌≡◌}
use mathlib.Core.Bool.{Bool, true, false}
use mathlib.Core.Option.{Option, none, some}

pub data Run {ℓ} (A : Type ℓ) : Type ℓ where
  done : A → Run A
  -- a failed `assert`, or a use of a null pointer
  aborted : Run A
  -- the fuel of a loop ran out
  looping : Run A

infixl 5 ◌>>=◌ ◌>>◌
abbrev pub ◌>>=◌ {ℓ κ} : {A : Type ℓ} {B : Type κ} → Run A → (A → Run B) → Run B
done a >>= f = f a
aborted >>= f = aborted
looping >>= f = looping

abbrev pub ◌>>◌ {ℓ} : {B : Type ℓ} → Run (Unit {0}) → Run B → Run B
m >> k = m >>= λ _. k

-- `assert(b)`
abbrev pub assert : Bool → Run (Unit {0})
assert true = done tt
assert false = aborted

-- A pointer that is null, or an iterator at the end, is followed.
abbrev pub follow {ℓ} : {A : Type ℓ} → Option A → Run A
follow none = aborted
follow (some a) = done a

-- A run that ends as the test says: done, with this of what it leaves, or aborted.
abbrev pub Ends : {A : Type 0} → Bool → Run A → (A → Type 0) → Type 0
Ends {A = A} true r P = (a : A) × (r ≡ done a) × P a
Ends false r P = r ≡ aborted
