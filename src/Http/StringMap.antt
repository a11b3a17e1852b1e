-- ===== src/Http/StringMap.antt =====
-- What the HTTP layer uses of `std::map<string, string>`: entries in the order of their keys,
-- assignment through `operator[]`, and `find`.
use winterfell.Prelude.{
  ◌≡◌, subst, List, [], ◌∷◌, Option, some, none, Bytes, bytes_eq, bytes_eq_refl, bytes_eq→eq,
  compare_bytes, compare_bytes_refl, compare_bytes-eq, Ordering, if◌then◌else◌, arith, Bool-cases,
  inl, inr, true, false,
}

abbrev pub StringMap : Type 0
StringMap = List (Bytes × Bytes)

-- `m[key] = value`
unfoldable pub assign : Bytes → Bytes → StringMap → StringMap
assign key value [] = (key, value) ∷ []
assign key value ((k, v) ∷ m) =
    let rest = assign key value m in
    elim (compare_bytes key k) [
      | Ordering.lt ↦ (key, value) ∷ (k, v) ∷ m
      | Ordering.eq ↦ (k, value) ∷ m
      | Ordering.gt ↦ (k, v) ∷ rest
    ]

-- `m.find(key)`
unfoldable pub find : Bytes → StringMap → Option Bytes
find key [] = none
find key ((k, v) ∷ m) =
    let rest = find key m in elim (compare_bytes key k) [ Ordering.eq ↦ some v | _ ↦ rest ]

-- Two keys are equal, by both tests, or different, by both.
data KeyCase (a b : Bytes) : Type 0 where
  same : a ≡ b → bytes_eq a b ≡ true → compare_bytes b a ≡ Ordering.eq → KeyCase a b
  other : (a ≡ b → ⊥) → bytes_eq a b ≡ false → (compare_bytes b a ≡ Ordering.eq → ⊥) → KeyCase a b

key_case : (a b : Bytes) → KeyCase a b
key_case a b = elim (Bool-cases (bytes_eq a b)) [
  | inl e ↦
      let p = bytes_eq→eq a b e in
      same p e (subst (λ c. compare_bytes c a ≡ Ordering.eq) p (compare_bytes_refl a))
  | inr e ↦
      other (λ p. ground (arith, bytes_eq_refl a)) e (λ q. different e (compare_bytes-eq b a q))
]
  where
    different : bytes_eq a b ≡ false → b ≡ a → ⊥
    different e p = ground (arith, bytes_eq_refl a)

-- An assignment is seen at its key, and nowhere else.
pub find-assign :
    (key j value : Bytes) (m : StringMap)
    → find j (assign key value m) ≡ (if bytes_eq key j then some value else find j m)
unfolding find assign
find-assign key j value [] = elim (key_case key j) [
  | same p e q ↦ ground arith
  | other p e q ↦ ground arith
]
find-assign key j value ((k, v) ∷ m) = elim (key_case key j) [
  | same p e q ↦ ground (arith, find-assign key j value m)
  | other p e q ↦ ground (arith, find-assign key j value m, compare_bytes-eq key k)
]
