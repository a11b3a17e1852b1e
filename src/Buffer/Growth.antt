-- ===== src/Buffer/Growth.antt =====
-- How much storage a buffer of winterfell/net/wf_buffer.cc takes.
use winterfell.Prelude.{
  both, ℕ, ◌+◌, ◌*◌, ◌≤◌, ◌<◌, ◌≡◌, ap, ◌∙◌, inl, inr, Bool, true, ◌&&◌, Bool-cases, List, [], ◌∷◌,
  length, take, drop, copy_at, Bytes, Run, done, aborted, looping, ◌>>=◌, ltb, leb, arith,
  length-copy_at, length-append, length-drop,
}
use winterfell.Buffer.{
  Buffer, cheap_prepend, peek, readable_bytes, writable_bytes, prependable_bytes, make_space,
  append, read_fd, ReadResult, failed, received, retrieve, retrieve_all, retrieve_as_string,
  retrieve_as_string_n,
}
use winterfell.Buffer.Content.{IsValid, length-peek, length-resize}
use winterfell.Buffer.Queue.{
  appends, reads, retrieves, retrieves_until, retrieves_all, takes_all, takes, until-eq-retrieve,
  arrived, Op, step, run, queue_step, Shows, same, fails, loops, step-Shows,
}

-- The storage is no more than twice this content and eight bytes.
abbrev pub Fits : ℕ → Buffer → Type 0
Fits content b = length b.storage ≤ 2 * content + 8

make_space-Fits :
    (content len : ℕ) (b : Buffer)
    → IsValid b
    → Fits content b
    → readable_bytes b + len ≤ content
    → Fits content (make_space len b)
unfolding make_space
make_space-Fits content len b v f h =
    elim (Bool-cases (ltb (writable_bytes b + prependable_bytes b) (len + cheap_prepend))) [
      | inl short ↦
          let short' : writable_bytes b + prependable_bytes b < len + cheap_prepend =
            ground arith in
          rw short
            (omega (arith, length-resize (b.writer_index + len) b.storage, v.ordered, v.inside))
      | inr wide ↦ rw wide (omega (arith, length-copy_at cheap_prepend (peek b) b.storage))
    ]

append-Fits :
    (content : ℕ) (xs : Bytes) (b : Buffer)
    → IsValid b
    → Fits content b
    → readable_bytes b + length xs ≤ content
    → Fits content (append xs b)
unfolding append
append-Fits content xs b v f h = elim (Bool-cases (ltb (writable_bytes b) (length xs))) [
  | inl full ↦ rw full (
      omega (
        arith,
        make_space-Fits content (length xs) b v f h,
        length-copy_at (make_space (length xs) b).writer_index xs
            (make_space (length xs) b).storage,
      ))
  | inr fits ↦ rw fits (omega (arith, length-copy_at b.writer_index xs b.storage))
]

read_fd-Fits :
    (content : ℕ) (r : ReadResult) (b : Buffer)
    → IsValid b
    → Fits content b
    → readable_bytes b + length (arrived r) ≤ content
    → Fits content (read_fd r b).1
unfolding read_fd
read_fd-Fits content (failed e) b v f h = f
read_fd-Fits content (received xs) b v f h =
    elim (Bool-cases (leb (length xs) (writable_bytes b))) [
      | inl fits ↦
          rw fits
            (omega (arith, length-copy_at b.writer_index (take (writable_bytes b) xs) b.storage))
      | inr more ↦
          let size = length-copy_at b.writer_index (take (writable_bytes b) xs) b.storage in
          let more' : writable_bytes b < length xs = ground arith in
          rw more (
            append-Fits content (drop (writable_bytes b) xs)
              (record b {
                storage = copy_at b.writer_index (take (writable_bytes b) xs) b.storage;
                writer_index =
                    length (copy_at b.writer_index (take (writable_bytes b) xs) b.storage);
              })
              (record {
                ordered = omega (arith, v.ordered, v.inside, size);
                inside = omega arith;
                headed = omega (arith, v.headed, size);
              })
              (omega (arith, size))
              (omega (arith, size, v.ordered, v.inside, length-drop (writable_bytes b) xs)))
    ]

-- What a call leaves, if it returns.
abbrev pub Leaves : (Buffer → Type 0) → {A : Type 0} → Run (A × Buffer) → Type 0
Leaves P (done (a, b)) = P b
Leaves P aborted = Unit
Leaves P looping = Unit

-- A test of what a call leaves in the queue, if it returns.
abbrev pub if_done : (Bytes → Bool) → Run (Bytes × Bytes) → Bool
if_done p (done (s, q)) = p q
if_done p aborted = true
if_done p looping = true

-- The queue's content stays within a size, as long as the calls return.
abbrev pub stays_within : ℕ → List Op → Bytes → Bool
stays_within content [] q = leb (length q) content
stays_within content (op ∷ ops) q =
    leb (length q) content && if_done (stays_within content ops) (queue_step op q)

stays_now :
    (content : ℕ) (ops : List Op) (q : Bytes)
    → stays_within content ops q ≡ true
    → length q ≤ content
stays_now content [] q h = ground arith
stays_now content (op ∷ ops) q h =
    let now =
      (both (leb (length q) content) (if_done (stays_within content ops) (queue_step op q)) h).0 in
    ground arith

retrieve-Fits :
    {A : Type 0} (a : A) (content n : ℕ) (b : Buffer)
    → Fits content b
    → Leaves (Fits content) (retrieve n b >>= λ c. done (a, c))
unfolding retrieve
retrieve-Fits a content n b f = elim (Bool-cases (leb n (readable_bytes b))) [
  | inl e ↦ rw e f
  | inr e ↦ rw e tt
]

step-Fits :
    (content : ℕ) (op : Op) (ops : List Op) (b : Buffer)
    → IsValid b
    → Fits content b
    → if_done (stays_within content ops) (queue_step op (peek b)) ≡ true
    → Leaves (Fits content) (step op b)
unfolding queue_step step retrieve retrieve_all retrieve_as_string retrieve_as_string_n
step-Fits content (appends xs) ops b v f h =
    append-Fits content xs b v f
      (omega (arith, stays_now content ops _ h, length-append (peek b) xs, length-peek b v))
step-Fits content (reads r) ops b v f h =
    read_fd-Fits content r b v f (
      omega (arith, stays_now content ops _ h, length-append (peek b) (arrived r), length-peek b v))
step-Fits content (retrieves n) ops b v f h = retrieve-Fits [] content n b f
step-Fits content (retrieves_until n) ops b v f h =
    rw (until-eq-retrieve n b v) (retrieve-Fits [] content n b f)
step-Fits content retrieves_all ops b v f h = f
step-Fits content takes_all ops b v f h = f
step-Fits content (takes n) ops b v f h = elim (Bool-cases (leb n (readable_bytes b))) [
  | inl e ↦ rw e f
  | inr e ↦ rw e tt
]

Leaves-then :
    {A B : Type 0} (P : Buffer → Type 0) (m : Run (A × Buffer)) (f : A → B)
    → Leaves P m
    → Leaves P (m >>= λ (a, c). done (f a, c))
Leaves-then P (done (a, c)) f h = h
Leaves-then P aborted f h = h
Leaves-then P looping f h = h

after_step :
    (content : ℕ) (ops : List Op) (m : Run (Bytes × Buffer)) (n : Run (Bytes × Bytes))
    → ((c : Buffer)
        → IsValid c
        → Fits content c
        → stays_within content ops (peek c) ≡ true
        → Leaves (Fits content) (run ops c))
    → Shows m n
    → Leaves (Fits content) m
    → if_done (stays_within content ops) n ≡ true
    → Leaves (Fits content) (m >>= λ (s, c). run ops c >>= λ (ss, d). done (s ∷ ss, d))
after_step content ops _ _ rest (same {a = a} {b = c} v e) f h =
    Leaves-then (Fits content) (run ops c) (λ (ss : List Bytes). a ∷ ss)
      (rest c v f (ap (stays_within content ops) e ∙ h))
after_step content ops _ _ rest fails f h = tt
after_step content ops _ _ rest loops f h = tt

-- Any sequence of calls on a valid buffer, when the content of the queue that it shows never exceeds a size:
-- if the storage was at most twice this size and eight bytes, it is so at the end.
pub run-Fits :
    (content : ℕ) (ops : List Op) (b : Buffer)
    → IsValid b
    → Fits content b
    → stays_within content ops (peek b) ≡ true
    → Leaves (Fits content) (run ops b)
unfolding run
run-Fits content [] b v f h = f
run-Fits content (op ∷ ops) b v f h =
    let next : if_done (stays_within content ops) (queue_step op (peek b)) ≡ true =
      (both (leb (length (peek b)) content) _ h).1 in
    after_step content ops (step op b) (queue_step op (peek b)) (run-Fits content ops)
      (step-Shows op b v) (step-Fits content op ops b v f next) next
