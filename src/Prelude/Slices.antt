-- ===== src/Prelude/Slices.antt =====
-- Laws of `take`, `drop` and of copying into a list.
use Prim.Native.Nat.{ℕ, zero, suc, ◌+◌, ◌-◌, ◌≤◌}
use mathlib.Core.Path.{◌≡◌, refl, sym, ap, ap₂, ◌∙◌}
use mathlib.Core.List.{List, [], ◌∷◌, ◌++◌}
use native.Mathlib.Omega.{arith}
use winterfell.Prelude.Lists.{length, take, drop, length-take, length-drop}

module _ {ℓ} {A : Type ℓ} where
  -- `std::copy(xs, xs + n, ys + i)`: bytes past the end of the target are not written.
  abbrev pub copy_at : ℕ → List A → List A → List A
  copy_at i xs [] = []
  copy_at zero [] (y ∷ ys) = y ∷ ys
  copy_at zero (x ∷ xs) (y ∷ ys) = x ∷ copy_at zero xs ys
  copy_at (suc i) xs (y ∷ ys) = y ∷ copy_at i xs ys

  -- The elements from index `i` up to, and without, index `j`.
  abbrev pub slice : List A → ℕ → ℕ → List A
  slice xs i j = take (j - i) (drop i xs)

  pub length-copy_at : (i : ℕ) (xs ys : List A) → length (copy_at i xs ys) ≡ length ys
  length-copy_at i xs [] = refl
  length-copy_at zero [] (y ∷ ys) = refl
  length-copy_at zero (x ∷ xs) (y ∷ ys) = ap suc (length-copy_at zero xs ys)
  length-copy_at (suc i) xs (y ∷ ys) = ap suc (length-copy_at i xs ys)

  pub take-length : (xs : List A) → take (length xs) xs ≡ xs
  take-length [] = refl
  take-length (x ∷ xs) = ap (◌∷◌ x) (take-length xs)

  pub take-nil : (n : ℕ) → take {A = A} n [] ≡ []
  take-nil zero = refl
  take-nil (suc n) = refl

  pub drop-nil : (n : ℕ) → drop {A = A} n [] ≡ []
  drop-nil zero = refl
  drop-nil (suc n) = refl

  pub take-append : (xs ys : List A) → take (length xs) (xs ++ ys) ≡ xs
  take-append [] ys = refl
  take-append (x ∷ xs) ys = ap (◌∷◌ x) (take-append xs ys)

  pub drop-append : (xs ys : List A) → drop (length xs) (xs ++ ys) ≡ ys
  drop-append [] ys = refl
  drop-append (x ∷ xs) ys = drop-append xs ys

  pub take-append_le : (n : ℕ) (xs ys : List A) → n ≤ length xs → take n (xs ++ ys) ≡ take n xs
  take-append_le zero xs ys h = refl
  take-append_le (suc n) [] ys h = elim h [ ]
  take-append_le (suc n) (x ∷ xs) ys h = ap (◌∷◌ x) (take-append_le n xs ys (omega arith))

  pub drop-append_le :
      (n : ℕ) (xs ys : List A) → n ≤ length xs → drop n (xs ++ ys) ≡ drop n xs ++ ys
  drop-append_le zero xs ys h = refl
  drop-append_le (suc n) [] ys h = elim h [ ]
  drop-append_le (suc n) (x ∷ xs) ys h = drop-append_le n xs ys (omega arith)

  pub drop-drop : (m n : ℕ) (xs : List A) → drop m (drop n xs) ≡ drop (n + m) xs
  drop-drop m zero xs = ap (λ k. drop k xs) (omega arith)
  drop-drop m (suc n) [] = ground (arith, drop-nil m, drop-nil (suc n + m))
  drop-drop m (suc n) (x ∷ xs) =
      let e : suc (n + m) ≡ suc n + m = omega arith in
      drop-drop m n xs ∙ ap (λ k. drop k (x ∷ xs)) e

  -- What a copy leaves alone, and what it writes.
  pub take-copy_at : (i : ℕ) (xs ys : List A) → take i (copy_at i xs ys) ≡ take i ys
  take-copy_at zero xs ys = refl
  take-copy_at (suc i) xs [] = refl
  take-copy_at (suc i) xs (y ∷ ys) = ap (◌∷◌ y) (take-copy_at i xs ys)

  pub read-copy_at :
      (i : ℕ) (xs ys : List A)
      → i + length xs ≤ length ys
      → take (length xs) (drop i (copy_at i xs ys)) ≡ xs
  read-copy_at zero [] ys h = refl
  read-copy_at zero (x ∷ xs) [] h = absurd (omega arith)
  read-copy_at zero (x ∷ xs) (y ∷ ys) h = ap (◌∷◌ x) (read-copy_at zero xs ys (omega arith))
  read-copy_at (suc i) xs [] h = absurd (omega arith)
  read-copy_at (suc i) xs (y ∷ ys) h = read-copy_at i xs ys (omega arith)

module _ {ℓ} {A : Type ℓ} where
  pub drop-take : (n m : ℕ) (xs : List A) → drop n (take m xs) ≡ take (m - n) (drop n xs)
  drop-take zero m xs = ap (λ k. take k xs) (omega arith)
  drop-take (suc n) zero xs =
      let e : 0 ≡ 0 - suc n = omega arith in ap (λ k. take k (drop (suc n) xs)) e
  drop-take (suc n) (suc m) [] = sym (take-nil (suc m - suc n))
  drop-take (suc n) (suc m) (x ∷ xs) =
      let e : m - n ≡ suc m - suc n = omega arith in
      drop-take n m xs ∙ ap (λ k. take k (drop n xs)) e

  pub take-take_le : (m n : ℕ) (xs : List A) → m ≤ n → take m (take n xs) ≡ take m xs
  take-take_le zero n xs h = refl
  take-take_le (suc m) zero xs h = elim h [ ]
  take-take_le (suc m) (suc n) [] h = refl
  take-take_le (suc m) (suc n) (x ∷ xs) h = ap (◌∷◌ x) (take-take_le m n xs (omega arith))

  pub take_ge : (n : ℕ) (xs : List A) → length xs ≤ n → take n xs ≡ xs
  take_ge n [] h = take-nil n
  take_ge zero (x ∷ xs) h = elim h [ ]
  take_ge (suc n) (x ∷ xs) h = ap (◌∷◌ x) (take_ge n xs (omega arith))

  pub drop-copy_at :
      (r w : ℕ) (xs ys : List A) → r ≤ w → drop r (copy_at w xs ys) ≡ copy_at (w - r) xs (drop r ys)
  drop-copy_at zero w xs ys h = ap (λ k. copy_at k xs ys) (omega arith)
  drop-copy_at (suc r) zero xs ys h = elim h [ ]
  drop-copy_at (suc r) (suc w) xs [] h = refl
  drop-copy_at (suc r) (suc w) xs (y ∷ ys) h =
      let e : w - r ≡ suc w - suc r = omega arith in
      drop-copy_at r w xs ys (omega arith) ∙ ap (λ k. copy_at k xs (drop r ys)) e

  take-copy_at_end :
      (k w : ℕ) (xs ys : List A)
      → k ≡ w + length xs
      → k ≤ length ys
      → take k (copy_at w xs ys) ≡ take w ys ++ xs
  take-copy_at_end k zero xs ys e h =
      let e' : k ≡ length xs = omega arith in
      ap (λ j. take j (copy_at zero xs ys)) e' ∙ read-copy_at zero xs ys (omega arith)
  take-copy_at_end zero (suc w) xs ys e h = absurd (omega arith)
  take-copy_at_end (suc k) (suc w) xs [] e h = elim h [ ]
  take-copy_at_end (suc k) (suc w) xs (y ∷ ys) e h =
      ap (◌∷◌ y) (take-copy_at_end k w xs ys (omega arith) (omega arith))

  pub length-slice : (xs : List A) (i j : ℕ) → j ≤ length xs → length (slice xs i j) ≡ j - i
  length-slice xs i j h = omega (arith, length-take (j - i) (drop i xs), length-drop i xs)

  -- Copying to the end of a slice extends it.
  pub slice-copy_at :
      (xs ys : List A) (r w : ℕ)
      → r ≤ w
      → w + length xs ≤ length ys
      → slice (copy_at w xs ys) r (w + length xs) ≡ slice ys r w ++ xs
  slice-copy_at xs ys r w h fits =
      ap (take (w + length xs - r)) (drop-copy_at r w xs ys h)
      ∙ take-copy_at_end (w + length xs - r) (w - r) xs (drop r ys) (omega arith)
          (omega (arith, length-drop r ys))

  -- Skipping the front of a slice.
  pub slice-skip : (xs : List A) (r w n : ℕ) → slice xs (r + n) w ≡ drop n (slice xs r w)
  slice-skip xs r w n =
      sym (drop-take n (w - r) (drop r xs) ∙ ap₂ take (omega arith) (drop-drop n r xs))

module _ {ℓ} {A : Type ℓ} where
  pub take-append_ge :
      (n : ℕ) (xs ys : List A) → length xs ≤ n → take n (xs ++ ys) ≡ xs ++ take (n - length xs) ys
  take-append_ge n [] ys h = ap (λ k. take k ys) (omega arith)
  take-append_ge zero (x ∷ xs) ys h = elim h [ ]
  take-append_ge (suc n) (x ∷ xs) ys h =
      let e : n - length xs ≡ suc n - suc (length xs) = omega arith in
      ap (◌∷◌ x) (take-append_ge n xs ys (omega arith) ∙ ap (λ k. xs ++ take k ys) e)

  copy_at_zero :
      (xs ys : List A) → length xs ≤ length ys → copy_at 0 xs ys ≡ xs ++ drop (length xs) ys
  copy_at_zero [] [] h = refl
  copy_at_zero [] (y ∷ ys) h = refl
  copy_at_zero (x ∷ xs) [] h = elim h [ ]
  copy_at_zero (x ∷ xs) (y ∷ ys) h = ap (◌∷◌ x) (copy_at_zero xs ys (omega arith))

  drop-copy_at_self :
      (i : ℕ) (xs ys : List A)
      → i + length xs ≤ length ys
      → drop i (copy_at i xs ys) ≡ xs ++ drop (i + length xs) ys
  drop-copy_at_self i xs ys h =
      let e : i - i ≡ 0 = omega arith in
      drop-copy_at i i xs ys (omega arith)
      ∙ ap (λ k. copy_at k xs (drop i ys)) e
      ∙ copy_at_zero xs (drop i ys) (omega (arith, length-drop i ys))
      ∙ ap (◌++◌ xs) (drop-drop (length xs) i ys)

  -- Copying just in front of a slice extends it there.
  pub slice-copy_at_front :
      (xs ys : List A) (i r w : ℕ)
      → i + length xs ≡ r
      → r ≤ w
      → w ≤ length ys
      → slice (copy_at i xs ys) i w ≡ xs ++ slice ys r w
  slice-copy_at_front xs ys i r w e h k =
      ap (take (w - i)) (drop-copy_at_self i xs ys (omega arith))
      ∙ take-append_ge (w - i) xs (drop (i + length xs) ys) (omega arith)
      ∙ ap (◌++◌ xs) (ap₂ take (omega arith) (ap (λ j. drop j ys) e))
