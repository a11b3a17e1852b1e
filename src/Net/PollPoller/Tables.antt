-- ===== src/Net/PollPoller/Tables.antt =====
-- The tables of winterfell/net/poller/wf_poll_poller.cc: the array of entries, the map from descriptors to
-- channels, and the channels' places in the array.
use winterfell.Prelude.{
  ℕ, zero, suc, ◌-◌, ◌<◌, ◌≡◌, ◌≢◌, refl, sym, ◌∙◌, ◌⊎◌, inl, inr, true, false, Bool-cases, List,
  [], ◌∷◌, ◌++◌, Option, some, length, length-set, length-take, take, get_elem?, set,
  get_elem?-set_self, get_elem?-set_ne, ◌==◌, ==_refl, if◌then◌else◌, arith,
}
use winterfell.Prelude.Int.{ℤ, pos, negsuc, pos_part, neg_part, eq_of_parts}
use winterfell.Net.PollPoller.{PollFd, Pointer, same_fd, put}

pub same_fd→eq : (a b : ℤ) → same_fd a b ≡ true → a ≡ b
same_fd→eq a b h = eq_of_parts a b (ground arith)

pub same_fd_refl : (a : ℤ) → same_fd a a ≡ true
same_fd_refl a = rw (==_refl (pos_part a), ==_refl (neg_part a)) refl

pub same_fd_ne : (a b : ℤ) → a ≢ b → same_fd a b ≡ false
same_fd_ne a b h = elim (Bool-cases (same_fd a b)) [
  | inl e ↦ absurd (h (same_fd→eq a b e))
  | inr e ↦ e
]

pub fd_cases : (a b : ℤ) → (a ≡ b) ⊎ (a ≢ b)
fd_cases a b = elim (Bool-cases (same_fd a b)) [
  | inl e ↦ inl (same_fd→eq a b e)
  | inr e ↦ inr (λ h. ground (arith, same_fd_refl b))
]

pub put_at : (key : ℤ) (v : Option Pointer) (m : ℤ → Option Pointer) → put key v m key ≡ v
put_at key v m = rw (same_fd_refl key) refl

pub put_off :
    (key k : ℤ) (v : Option Pointer) (m : ℤ → Option Pointer) → k ≢ key → put key v m k ≡ m k
put_off key k v m h = rw (same_fd_ne k key h) refl

-- The places with this one changed.
abbrev pub place : Pointer → ℤ → (Pointer → ℤ) → Pointer → ℤ
place p i idx q = if q == p then i else idx q

pub place_at : (p : Pointer) (i : ℤ) (idx : Pointer → ℤ) → place p i idx p ≡ i
place_at p i idx = rw (==_refl p) refl

pub place_off : (p q : Pointer) (i : ℤ) (idx : Pointer → ℤ) → q ≢ p → place p i idx q ≡ idx q
place_off p q i idx h = ground arith

module _ {ℓ} {A : Type ℓ} where
  pub elem_bound : (xs : List A) (i : ℕ) {x : A} → get_elem? xs i ≡ some x → i < length xs
  elem_bound [] i h = cc
  elem_bound (y ∷ xs) zero h = omega arith
  elem_bound (y ∷ xs) (suc i) h = omega (arith, elem_bound xs i h)

  pub elem_there : (xs : List A) (i : ℕ) → i < length xs → (x : A) × (get_elem? xs i ≡ some x)
  elem_there [] i h = absurd (omega arith)
  elem_there (y ∷ xs) zero h = (y, refl)
  elem_there (y ∷ xs) (suc i) h = elem_there xs i (omega arith)

  pub elem-append_front :
      (xs ys : List A) (i : ℕ) → i < length xs → get_elem? (xs ++ ys) i ≡ get_elem? xs i
  elem-append_front [] ys i h = absurd (omega arith)
  elem-append_front (x ∷ xs) ys zero h = refl
  elem-append_front (x ∷ xs) ys (suc i) h = elem-append_front xs ys i (omega arith)

  pub elem-append_last : (xs : List A) (y : A) → get_elem? (xs ++ y ∷ []) (length xs) ≡ some y
  elem-append_last [] y = refl
  elem-append_last (x ∷ xs) y = elem-append_last xs y

  pub elem-take : (xs : List A) (n i : ℕ) → i < n → get_elem? (take n xs) i ≡ get_elem? xs i
  elem-take xs zero i h = absurd (omega arith)
  elem-take [] (suc n) i h = refl
  elem-take (x ∷ xs) (suc n) zero h = refl
  elem-take (x ∷ xs) (suc n) (suc i) h = elem-take xs n i (omega arith)

  -- The last element goes, and x stands at i.
  abbrev pub swap_out : List A → ℕ → A → A → List A
  swap_out xs i x y =
      take (length (set (set xs i x) (length xs - 1) y) - 1) (set (set xs i x) (length xs - 1) y)

  module _ (xs : List A) (i : ℕ) (x y : A) where
    length-moved : length (set (set xs i x) (length xs - 1) y) ≡ length xs
    length-moved = length-set (set xs i x) (length xs - 1) y ∙ length-set xs i x

    elem-swap_out :
        (j : ℕ) → j < length xs - 1 → get_elem? (swap_out xs i x y) j ≡ get_elem? (set xs i x) j
    elem-swap_out j lt =
        elem-take _ (length (set (set xs i x) (length xs - 1) y) - 1) j
          (omega (arith, length-moved))
        ∙ get_elem?-set_ne (set xs i x) y (omega arith)

    pub length-swap_out : length (swap_out xs i x y) ≡ length xs - 1
    length-swap_out = omega (
      arith,
      length-moved,
      length-take (length (set (set xs i x) (length xs - 1) y) - 1)
          (set (set xs i x) (length xs - 1) y),
    )

    pub swap_out_at : i < length xs - 1 → get_elem? (swap_out xs i x y) i ≡ some x
    swap_out_at lt = elem-swap_out i lt ∙ get_elem?-set_self xs i x (omega arith)

    pub swap_out_off :
        (j : ℕ) → j < length xs - 1 → j ≢ i → get_elem? (swap_out xs i x y) j ≡ get_elem? xs j
    swap_out_off j lt ne = elem-swap_out j lt ∙ get_elem?-set_ne xs x (λ e. ne (sym e))

-- An entry polls for this descriptor, or is switched off.
abbrev pub Watches : PollFd → ℤ → Type 0
Watches x fd = (x.fd ≡ fd) ⊎ (x.fd ≡ negsuc 0)

-- The tables agree: a channel stands in the map under its descriptor; each channel of the map has a
-- place, with an entry for its descriptor; each place belongs to a channel of the map, and to one only.
pub record IsConsistent (fd : Pointer → ℤ) (entries : List PollFd) (m : ℤ → Option Pointer)
    (idx : Pointer → ℤ) : Type 0 where
  pub keyed : (k : ℤ) (p : Pointer) → m k ≡ some p → k ≡ fd p
  pub placed :
      (p : Pointer)
      → m (fd p) ≡ some p
      → (i : ℕ) × (x : PollFd) × (idx p ≡ pos i) × (get_elem? entries i ≡ some x) × Watches x (fd p)
  pub owned : (i : ℕ) → i < length entries → (p : Pointer) × (m (fd p) ≡ some p) × (idx p ≡ pos i)
  pub unique : (p q : Pointer) → m (fd p) ≡ some p → m (fd q) ≡ some q → idx p ≡ idx q → p ≡ q
