-- ===== src/Buffer/Search.antt =====
-- `Buffer::findCRLF` of winterfell/net/wf_buffer.h: the first "\r\n" of the content.
use winterfell.Prelude.{
  ℕ, zero, suc, ◌+◌, ◌≤◌, ◌<◌, ◌≡◌, refl, [], ◌∷◌, ◌++◌, ◌&&◌, ◌⊎◌, ◌≢◌, inl, inr, Bool-cases, some,
  none, length, get_elem?, Bytes, ◌==◌, arith,
}
use winterfell.Buffer.{Buffer, peek, search_crlf, find_crlf}
use winterfell.Buffer.Content.{IsValid, length-peek}

-- There is a CRLF at this offset.
abbrev pub CrlfAt : Bytes → ℕ → Type 0
CrlfAt xs i = (get_elem? xs i ≡ some 13) × (get_elem? xs (suc i) ≡ some 10)

-- What `std::search` returns: the first match, or the end if there is none.
pub data Search (xs : Bytes) (r : ℕ) : Type 0 where
  found : r < length xs → CrlfAt xs r → ((j : ℕ) → j < r → ¬ CrlfAt xs j) → Search xs r
  missing : r ≡ length xs → ((j : ℕ) → ¬ CrlfAt xs j) → Search xs r

Search-cons :
    (x y : ℕ) (xs : Bytes)
    → ¬ CrlfAt (x ∷ y ∷ xs) 0
    → (r : ℕ) → Search (y ∷ xs) r
    → Search (x ∷ y ∷ xs) (suc r)
Search-cons x y xs h r (found lt at before) = found (omega arith) at earlier
  where
    earlier : (j : ℕ) → j < suc r → ¬ CrlfAt (x ∷ y ∷ xs) j
    earlier zero k c = h c
    earlier (suc j) k c = before j (omega arith) c
Search-cons x y xs h r (missing e all) = missing (omega arith) nowhere
  where
    nowhere : (j : ℕ) → ¬ CrlfAt (x ∷ y ∷ xs) j
    nowhere zero c = h c
    nowhere (suc j) c = all j c

pub search_crlf-Search : (xs : Bytes) → Search xs (search_crlf xs)
unfolding search_crlf
search_crlf-Search [] = missing refl (λ j c. cc (c.0))
search_crlf-Search (x ∷ []) = missing refl nowhere
  where
    nowhere : (j : ℕ) → ¬ CrlfAt (x ∷ []) j
    nowhere zero c = cc (c.1)
    nowhere (suc j) c = cc (c.0)
search_crlf-Search (x ∷ y ∷ xs) = elim (Bool-cases ((x == 13) && (y == 10))) [
  | inl e ↦ rw e (found (omega arith) (ground arith) (λ j k. elim k [ ]))
  | inr e ↦ rw e (Search-cons x y xs (λ c. ground arith) _ (search_crlf-Search (y ∷ xs)))
]

-- On a valid buffer `findCRLF` returns the offset of the first CRLF of the content, and NULL exactly
-- when the content has none.
pub find_crlf_lem :
    (b : Buffer)
    → IsValid b
    → ((i : ℕ) × (find_crlf b ≡ some i)
        × CrlfAt (peek b) i
        × ((j : ℕ) → j < i → ¬ CrlfAt (peek b) j))
      ⊎ ((find_crlf b ≡ none) × ((j : ℕ) → ¬ CrlfAt (peek b) j))
unfolding find_crlf
find_crlf_lem b v = elim (search_crlf-Search (peek b)) [
  | found lt at before ↦ inl (search_crlf (peek b), ground (arith, length-peek b v), at, before)
  | missing e all ↦ inr (ground (arith, length-peek b v), all)
]

-- More bytes behind a match do not move it.
pub search_crlf-append :
    (xs ys : Bytes) → search_crlf xs < length xs → search_crlf (xs ++ ys) ≡ search_crlf xs
unfolding search_crlf
search_crlf-append [] ys h = elim h [ ]
search_crlf-append (x ∷ []) ys h = absurd (omega arith)
search_crlf-append (x ∷ y ∷ xs) ys h = ground (arith, search_crlf-append (y ∷ xs) ys)

pub search_crlf-le : (xs : Bytes) → search_crlf xs ≤ length xs
search_crlf-le xs = elim (search_crlf-Search xs) [
  | found h a b ↦ omega arith
  | missing e a ↦ omega arith
]

-- A match leaves room for the two bytes.
pub search_crlf-room : (xs : Bytes) → search_crlf xs < length xs → search_crlf xs + 2 ≤ length xs
unfolding search_crlf
search_crlf-room [] h = elim h [ ]
search_crlf-room (x ∷ []) h = absurd (omega arith)
search_crlf-room (x ∷ y ∷ xs) h = ground (arith, search_crlf-room (y ∷ xs))

-- No carriage return.
abbrev pub NoCr : Bytes → Type 0
NoCr [] = Unit
NoCr (x ∷ xs) = (x ≢ 13) × NoCr xs

pub search_crlf-line :
    (line rest : Bytes) → NoCr line → search_crlf (line ++ 13 ∷ 10 ∷ rest) ≡ length line
unfolding search_crlf
search_crlf-line [] rest h = refl
search_crlf-line (x ∷ []) rest h = ground arith
search_crlf-line (x ∷ y ∷ line) rest h = ground (arith, search_crlf-line (y ∷ line) rest h.1)
