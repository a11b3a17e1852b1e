-- ===== src/Prelude/Decimal.antt =====
-- Numbers in decimal, as `%d` prints them and `stoi` reads them.
use Prim.Native.Nat.{ℕ, zero, suc, ◌+◌, ◌-◌, ◌*◌, ◌/◌, ◌%◌, ◌^◌, ◌<◌, ◌≤◌}
use mathlib.Core.Path.{◌≡◌, sym, ap, ◌∙◌}
use mathlib.Core.Logic.{inl, inr}
use mathlib.Core.Bool.{Bool, true, ◌&&◌}
use mathlib.Core.List.{[], ◌∷◌}
use native.Mathlib.Omega.{arith, pow_step}
use winterfell.Prelude.Tests.{ltb, leb, if◌then◌else◌, Bool-cases}
use winterfell.Prelude.Lists.{length}
use winterfell.Prelude.ByteStrings.{Bytes}

-- The decimal digits that `%d` and `%zd` print, put before the given bytes.
unfoldable pub decimal_onto : ℕ → ℕ → Bytes → Bytes
decimal_onto zero n later = later
decimal_onto (suc fuel) n later =
    let digit = b'0' + n % 10 in
    let more = decimal_onto fuel (n / 10) (digit ∷ later) in
    if ltb n 10 then digit ∷ later else more

-- A number has at most as many digits as its value and one.
unfoldable pub decimal : ℕ → Bytes
decimal n = decimal_onto (suc n) n []

abbrev pub is_digit : ℕ → Bool
is_digit c = leb b'0' c && leb c b'9'

-- The number that digits stand for, behind those that stand for `n`.
unfoldable pub read_digits : ℕ → Bytes → ℕ
read_digits n [] = n
read_digits n (c ∷ cs) = read_digits (n * 10 + (c - b'0')) cs

abbrev pub AllDigits : Bytes → Type 0
AllDigits [] = Unit
AllDigits (c ∷ cs) = (is_digit c ≡ true) × AllDigits cs

read-decimal_onto :
    (fuel n : ℕ) (later : Bytes)
    → n < fuel
    → read_digits 0 (decimal_onto fuel n later) ≡ read_digits n later
unfolding decimal_onto read_digits
read-decimal_onto zero n later h = absurd (omega arith)
read-decimal_onto (suc fuel) n later h = elim (Bool-cases (ltb n 10)) [
  | inl e ↦ rw e (ap (λ k. read_digits k later) (ground arith))
  | inr e ↦ rw e (
      read-decimal_onto fuel (n / 10) ((b'0' + n % 10) ∷ later) (ground arith)
      ∙ ap (λ k. read_digits k later) (omega arith))
]

-- Digits are read back.
pub read-decimal : (n : ℕ) → read_digits 0 (decimal n) ≡ n
unfolding decimal read_digits
read-decimal n = read-decimal_onto (suc n) n [] (omega arith)

pub decimal_inj : (m n : ℕ) → decimal m ≡ decimal n → m ≡ n
decimal_inj m n e = sym (read-decimal m) ∙ ap (read_digits 0) e ∙ read-decimal n

decimal_onto-AllDigits :
    (fuel n : ℕ) (later : Bytes) → AllDigits later → AllDigits (decimal_onto fuel n later)
unfolding decimal_onto
decimal_onto-AllDigits zero n later h = h
decimal_onto-AllDigits (suc fuel) n later h =
    let digit : is_digit (b'0' + n % 10) ≡ true = ground arith in
    elim (Bool-cases (ltb n 10)) [
      | inl e ↦ rw e (digit, h)
      | inr e ↦ rw e (decimal_onto-AllDigits fuel (n / 10) ((b'0' + n % 10) ∷ later) (digit, h))
    ]

pub decimal-AllDigits : (n : ℕ) → AllDigits (decimal n)
unfolding decimal
decimal-AllDigits n = decimal_onto-AllDigits (suc n) n [] tt

-- A number below 10 ^ (k + 1) has at most k + 1 digits, and any has one.
length-decimal_onto :
    (fuel k n : ℕ) (later : Bytes)
    → n < 10 ^ suc k
    → length (decimal_onto fuel n later) ≤ suc k + length later
unfolding decimal_onto
length-decimal_onto zero k n later h = omega arith
length-decimal_onto (suc fuel) zero n later h = ground arith
length-decimal_onto (suc fuel) (suc k) n later h = elim (Bool-cases (ltb n 10)) [
  | inl e ↦ rw e (omega arith)
  | inr e ↦ rw e (
      omega (
        arith,
        length-decimal_onto fuel k (n / 10) ((b'0' + n % 10) ∷ later)
            (omega (arith, pow_step 10 (suc k))),
      ))
]

longer : (fuel n : ℕ) (later : Bytes) → length later ≤ length (decimal_onto fuel n later)
unfolding decimal_onto
longer zero n later = omega arith
longer (suc fuel) n later = ground (arith, longer fuel (n / 10) ((b'0' + n % 10) ∷ later))

pub length-decimal : (k n : ℕ) → n < 10 ^ suc k → length (decimal n) ≤ suc k
unfolding decimal
length-decimal k n h = omega (arith, length-decimal_onto (suc n) k n [] h)

pub decimal_nonempty : (n : ℕ) → 0 < length (decimal n)
unfolding decimal decimal_onto
decimal_nonempty n = ground (arith, longer n (n / 10) ((b'0' + n % 10) ∷ []))
