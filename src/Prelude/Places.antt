-- ===== src/Prelude/Places.antt =====
-- Functions on the numbers changed at one place, and the case split that goes with them.
use Prim.Native.Nat.{ℕ}
use mathlib.Core.Path.{fun_ext, sym, ◌∙◌, ◌≡◌, refl, ap}
use mathlib.Core.Logic.{◌≢◌, ◌⊎◌, inl, inr}
use mathlib.Core.Option.{Option, none, some}
use native.Mathlib.Omega.{arith}
use winterfell.Prelude.Tests.{◌==◌, ==_refl, Bool-cases, if◌then◌else◌}

abbrev pub set_at {ℓ} : {A : Type ℓ} → ℕ → A → (ℕ → A) → ℕ → A
set_at k v f j = if j == k then v else f j

module _ {ℓ} {A : Type ℓ} (k : ℕ) (v : A) (f : ℕ → A) where
  pub set_at_here : set_at k v f k ≡ v
  set_at_here = rw (==_refl k) refl

  pub set_at_there : (j : ℕ) → j ≢ k → set_at k v f j ≡ f j
  set_at_there j ne = ground arith

pub ℕ-cases : (j k : ℕ) → (j ≡ k) ⊎ (j ≢ k)
ℕ-cases j k = elim (Bool-cases (j == k)) [ inl e ↦ inl (ground arith) | inr e ↦ inr (ground arith) ]

module _ {ℓ} {A : Type ℓ} where
  -- What an option holds, or the first argument.
  abbrev held : A → Option A → A
  held d none = d
  held d (some a) = a

  pub some_inj : {a b : A} → some a ≡ some b → a ≡ b
  some_inj {a} e = ap (held a) e

  pub none_ne : {a : A} → none ≢ some a
  none_ne = cc

module _ {ℓ} {A : Type ℓ} (i : ℕ) (x : A) (f : ℕ → A) where
  pub set_at_again : (y : A) → set_at i x (set_at i y f) ≡ set_at i x f
  set_at_again y = fun_ext λ k. ground arith

  pub set_at_swap : (j : ℕ) (y : A) → i ≢ j → set_at i x (set_at j y f) ≡ set_at j y (set_at i x f)
  set_at_swap j y ne = fun_ext λ k. ground arith

  pub set_at_same : f i ≡ x → set_at i x f ≡ f
  set_at_same e = fun_ext λ k. elim (ℕ-cases k i) [
    | inl d ↦ ap (set_at i x f) d ∙ set_at_here i x f ∙ sym e ∙ ap f (sym d)
    | inr ne ↦ set_at_there i x f k ne
  ]
