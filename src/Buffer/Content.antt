-- ===== src/Buffer/Content.antt =====
-- The bytes that a buffer holds, and what each operation of winterfell/net/wf_buffer.cc does to
-- them.
use winterfell.Prelude.{
  ℕ, ◌+◌, ◌-◌, ◌≤◌, ◌<◌, ◌≡◌, refl, ap, ◌∙◌, sym, [], ◌++◌, false, inl, inr, Bool-cases, length,
  take, drop, replicate, copy_at, slice, Bytes, done, aborted, ltb, arith, length-append,
  length-copy_at, length-slice, slice-copy_at, slice-skip, read-copy_at, take-append_le,
  drop-append_le, drop-take, take-take_le, length-take, length-replicate, length-drop,
  slice-copy_at_front,
}
use winterfell.Buffer.{
  Buffer, empty, peek, readable_bytes, writable_bytes, prependable_bytes, cheap_prepend, retrieve,
  retrieve_all, resize, make_space, append, prepend,
}

-- The invariant of the class: 0 <= readerIndex_ <= writerIndex_ <= buffer_.size(), and the storage
-- has the bytes that `retrieveAll` keeps free in front.
pub record IsValid (b : Buffer) : Type 0 where
  pub ordered : b.reader_index ≤ b.writer_index
  pub inside : b.writer_index ≤ length b.storage
  pub headed : cheap_prepend ≤ length b.storage

pub length-peek : (b : Buffer) → IsValid b → length (peek b) ≡ readable_bytes b
length-peek b v = length-slice b.storage b.reader_index b.writer_index v.inside

pub empty-IsValid : IsValid empty
unfolding empty
empty-IsValid = omega (arith, length-replicate {A = ℕ} 1032 0)

pub length-resize : (n : ℕ) (xs : Bytes) → length (resize n xs) ≡ n
length-resize n xs = omega (
  arith,
  length-take n (xs ++ replicate (n - length xs) 0),
  length-append xs (replicate (n - length xs) 0),
  length-replicate {A = ℕ} (n - length xs) 0,
)

slice-resize :
    (n r w : ℕ) (xs : Bytes)
    → r ≤ w
    → w ≤ n
    → w ≤ length xs
    → slice (resize n xs) r w ≡ slice xs r w
slice-resize n r w xs h k i =
    ap (take (w - r)) (drop-take r n padded)
    ∙ take-take_le (w - r) (n - r) (drop r padded) (omega arith)
    ∙ ap (take (w - r)) (drop-append_le r xs (replicate (n - length xs) 0) (omega arith))
    ∙ take-append_le (w - r) (drop r xs) (replicate (n - length xs) 0)
        (omega (arith, length-drop r xs))
  where
    padded : Bytes
    padded = xs ++ replicate (n - length xs) 0

-- What `makeSpace` promises.
record Roomy (len : ℕ) (b c : Buffer) : Type 0 where
  valid : IsValid c
  kept : peek c ≡ peek b
  room : c.writer_index + len ≤ length c.storage

grown-Roomy :
    (len : ℕ) (b : Buffer)
    → IsValid b
    → writable_bytes b < len
    → Roomy len b (record b { storage = resize (b.writer_index + len) b.storage })
grown-Roomy len b v h = record {
  valid = record {
    ordered = v.ordered;
    inside = omega (arith, size);
    headed = omega (arith, size, v.headed);
  };
  kept = slice-resize (b.writer_index + len) r w b.storage v.ordered (omega arith) v.inside;
  room = omega (arith, size);
}
  where
    open b use {reader_index as r, writer_index as w}

    size : length (resize (w + len) b.storage) ≡ w + len
    size = length-resize (w + len) b.storage

compacted-Roomy :
    (len : ℕ) (b : Buffer)
    → IsValid b
    → len + 8 ≤ writable_bytes b + prependable_bytes b
    → Roomy len b (record b {
      storage = copy_at cheap_prepend (peek b) b.storage;
      reader_index = cheap_prepend;
      writer_index = cheap_prepend + readable_bytes b;
    })
compacted-Roomy len b v h = record {
  valid = record {
    ordered = omega arith;
    inside = omega (arith, size);
    headed = omega (arith, size, v.headed);
  };
  kept = moved;
  room = omega (arith, size);
}
  where
    size : length (copy_at 8 (peek b) b.storage) ≡ length b.storage
    size = length-copy_at 8 (peek b) b.storage

    span : (8 + readable_bytes b) - 8 ≡ length (peek b)
    span = omega (arith, length-peek b v)

    moved : slice (copy_at 8 (peek b) b.storage) 8 (8 + readable_bytes b) ≡ peek b
    moved =
        ap (λ k. take k (drop 8 (copy_at 8 (peek b) b.storage))) span
        ∙ read-copy_at 8 (peek b) b.storage (omega (arith, length-peek b v, v.inside, v.ordered))

make_space-Roomy :
    (len : ℕ) (b : Buffer) → IsValid b → writable_bytes b < len → Roomy len b (make_space len b)
unfolding make_space
make_space-Roomy len b v h = ground (arith, grown-Roomy len b v h, compacted-Roomy len b v)

-- Written at the end of a buffer with room, bytes are appended to its content.
written :
    (xs : Bytes) {b c : Buffer}
    → Roomy (length xs) b c
    → let d = record c {
      storage = copy_at c.writer_index xs c.storage;
      writer_index = c.writer_index + length xs;
    } in
      IsValid d × (peek d ≡ peek b ++ xs)
written xs {b} {c} h = (
  record {
    ordered = omega (arith, h.valid);
    inside = omega (arith, h.room, length-copy_at c.writer_index xs c.storage);
    headed = omega (arith, h.valid.headed, length-copy_at c.writer_index xs c.storage);
  },
  slice-copy_at xs c.storage c.reader_index c.writer_index h.valid.ordered h.room
      ∙ ap (λ k. k ++ xs) h.kept,
)

-- `append` keeps the invariant and appends exactly the given bytes, whether the storage has room,
-- is compacted or grows.
pub append_lem :
    (xs : Bytes) (b : Buffer)
    → IsValid b
    → IsValid (append xs b) × (peek (append xs b) ≡ peek b ++ xs)
unfolding append
append_lem xs b v = elim (Bool-cases (ltb (writable_bytes b) (length xs))) [
  | inl full ↦ rw full (written xs (make_space-Roomy (length xs) b v (ground arith)))
  | inr fits ↦ rw fits (written xs (roomy fits))
]
  where
    roomy : ltb (writable_bytes b) (length xs) ≡ false → Roomy (length xs) b b
    roomy e = record { valid = v; kept = refl; room = ground arith }

pub retrieve_lem :
    (n : ℕ) (b : Buffer)
    → IsValid b
    → n ≤ readable_bytes b
    → let c = record b { reader_index = b.reader_index + n } in
      (retrieve n b ≡ done c) × IsValid c × (peek c ≡ drop n (peek b))
unfolding retrieve
retrieve_lem n b v h = (
  ground arith,
  record { ordered = omega (arith, v.ordered); inside = v.inside; headed = v.headed },
  slice-skip b.storage b.reader_index b.writer_index n,
)

pub retrieve_all_lem :
    (b : Buffer) → IsValid b → IsValid (retrieve_all b) × (peek (retrieve_all b) ≡ [])
unfolding retrieve_all
retrieve_all_lem b v =
    (record { ordered = omega arith; inside = v.headed; headed = v.headed }, refl)

-- `string(peek(), n)` within the readable bytes.
pub front-peek :
    (n : ℕ) (b : Buffer)
    → n ≤ readable_bytes b
    → take n (drop b.reader_index b.storage) ≡ take n (peek b)
front-peek n b h = sym (take-take_le n (readable_bytes b) (drop b.reader_index b.storage) h)

-- With room in front, `prepend` puts the bytes before the content; without, the assert fails.
pub prepend_lem :
    (xs : Bytes) (b : Buffer)
    → IsValid b
    → (length xs ≤ prependable_bytes b
        → (c : Buffer) × (prepend xs b ≡ done c) × IsValid c × (peek c ≡ xs ++ peek b))
      × (prependable_bytes b < length xs → prepend xs b ≡ aborted)
unfolding prepend
prepend_lem xs b v = ((λ h. (after, ground arith, valid h, front h)), λ h. ground arith)
  where
    open b use {reader_index as r, writer_index as w}

    after : Buffer
    after = record b {
      storage = copy_at (r - length xs) xs b.storage;
      reader_index = r - length xs;
    }

    valid : length xs ≤ r → IsValid after
    valid h = record {
      ordered = omega (arith, v.ordered);
      inside = omega (arith, v.inside, length-copy_at (r - length xs) xs b.storage);
      headed = omega (arith, v.headed, length-copy_at (r - length xs) xs b.storage);
    }

    front : length xs ≤ r → peek after ≡ xs ++ peek b
    front h = slice-copy_at_front xs b.storage (r - length xs) r w (omega arith) v.ordered v.inside
