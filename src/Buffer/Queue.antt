-- ===== src/Buffer/Queue.antt =====
-- What a buffer promises its clients: a queue of bytes. Every sequence of the operations of
-- winterfell/net/wf_buffer.cc, but for `prepend`, is compared with the same on a plain byte string.
use winterfell.Prelude.{
  subst, ℕ, ◌+◌, ◌≤◌, ◌<◌, ◌≡◌, refl, ap, ◌∙◌, sym, List, [], ◌∷◌, ◌++◌, inl, inr, Bool, true,
  false, Bool-cases, length, take, drop, copy_at, Bytes, Run, done, aborted, looping, ◌>>=◌, leb,
  if◌then◌else◌, arith, length-copy_at, length-take, slice-copy_at, take-append-drop, append_assoc,
  append-nil, take_ge,
}
use winterfell.Buffer.{
  Buffer, peek, readable_bytes, writable_bytes, retrieve, retrieve_all, retrieve_until,
  retrieve_as_string, retrieve_as_string_n, append, read_fd, received, failed, ReadResult,
}
use winterfell.Buffer.Content.{
  IsValid, length-peek, append_lem, retrieve_lem, retrieve_all_lem, front-peek,
}

abbrev pub arrived : ReadResult → Bytes
arrived (failed e) = []
arrived (received xs) = xs

-- Bytes copied to the end of a valid buffer, as far as they fit.
filled_lem :
    (xs : Bytes) (b : Buffer)
    → IsValid b
    → length xs ≤ writable_bytes b
    → let c = record b {
      storage = copy_at b.writer_index xs b.storage;
      writer_index = b.writer_index + length xs;
    } in
      IsValid c × (peek c ≡ peek b ++ xs)
filled_lem xs b v h = (
  record {
    ordered = omega (arith, v.ordered);
    inside = omega (arith, v.inside, length-copy_at b.writer_index xs b.storage);
    headed = omega (arith, v.headed, length-copy_at b.writer_index xs b.storage);
  },
  slice-copy_at xs b.storage b.reader_index b.writer_index v.ordered (omega (arith, v.inside)),
)

-- `readFd` appends all that `readv` delivered, also what went to the extra buffer, and on a failure
-- changes nothing.
pub read_fd_lem :
    (r : ReadResult) (b : Buffer)
    → IsValid b
    → IsValid (read_fd r b).1 × (peek (read_fd r b).1 ≡ peek b ++ arrived r)
unfolding read_fd
read_fd_lem (failed e) b v = (v, sym (append-nil (peek b)))
read_fd_lem (received xs) b v = elim (Bool-cases (leb (length xs) (writable_bytes b))) [
  | inl fits ↦
      rw fits (rw (take_ge (writable_bytes b) xs (ground arith)) (filled_lem xs b v (ground arith)))
  | inr more ↦ rw more (overflow (ground arith))
]
  where
    writable : ℕ
    writable = writable_bytes b

    filled : Buffer
    filled = record b {
      storage = copy_at b.writer_index (take writable xs) b.storage;
      writer_index = length (copy_at b.writer_index (take writable xs) b.storage);
    }

    size : writable < length xs → b.writer_index + length (take writable xs) ≡ filled.writer_index
    size h = omega (
      arith,
      v.inside,
      length-take writable xs,
      length-copy_at b.writer_index (take writable xs) b.storage,
    )

    filled_ok : writable < length xs → IsValid filled × (peek filled ≡ peek b ++ take writable xs)
    filled_ok h =
        rw (size h) at (filled_lem (take writable xs) b v (omega (arith, length-take writable xs)))

    overflow :
        writable < length xs
        → let c = append (drop writable xs) filled in IsValid c × (peek c ≡ peek b ++ xs)
    overflow h =
        let (ok, kept) = filled_ok h in
        let (ok', more) = append_lem (drop writable xs) filled ok in
        (
          ok',
          more
              ∙ ap (λ k. k ++ drop writable xs) kept
              ∙ append_assoc (peek b) (take writable xs) (drop writable xs)
              ∙ ap (◌++◌ (peek b)) (take-append-drop writable xs),
        )

-- The calls of a client.
pub data Op : Type 0 where
  appends : Bytes → Op
  reads : ReadResult → Op
  retrieves : ℕ → Op
  retrieves_until : ℕ → Op
  retrieves_all : Op
  takes_all : Op
  takes : ℕ → Op

-- The string that the call returns, if it returns one, and the buffer after it.
unfoldable pub step : Op → Buffer → Run (Bytes × Buffer)
step (appends xs) b = done ([], append xs b)
step (reads r) b = done ([], (read_fd r b).1)
step (retrieves n) b = retrieve n b >>= λ c. done ([], c)
step (retrieves_until n) b = retrieve_until n b >>= λ c. done ([], c)
step retrieves_all b = done ([], retrieve_all b)
step takes_all b = done (retrieve_as_string b)
step (takes n) b = retrieve_as_string_n n b

-- The same calls on a queue of bytes. To ask for more than there is fails.
unfoldable pub queue_step : Op → Bytes → Run (Bytes × Bytes)
queue_step (appends xs) q = done ([], q ++ xs)
queue_step (reads r) q = done ([], q ++ arrived r)
queue_step (retrieves n) q = if leb n (length q) then done ([], drop n q) else aborted
queue_step (retrieves_until n) q = if leb n (length q) then done ([], drop n q) else aborted
queue_step retrieves_all q = done ([], [])
queue_step takes_all q = done (q, [])
queue_step (takes n) q = if leb n (length q) then done (take n q, drop n q) else aborted

-- The strings that a sequence of calls returns, and the state after it.
unfoldable pub run : List Op → Buffer → Run (List Bytes × Buffer)
run [] b = done ([], b)
run (op ∷ ops) b = step op b >>= λ (s, c). run ops c >>= λ (ss, d). done (s ∷ ss, d)

unfoldable pub queue_run : List Op → Bytes → Run (List Bytes × Bytes)
queue_run [] q = done ([], q)
queue_run (op ∷ ops) q =
    queue_step op q >>= λ (s, c). queue_run ops c >>= λ (ss, d). done (s ∷ ss, d)

-- A run of the buffer shows what a run of the queue shows: the same strings and a valid buffer with
-- the same bytes, or a failure or an endless
-- loop of both.
pub data Shows {A : Type 0} : Run (A × Buffer) → Run (A × Bytes) → Type 0 where
  same :
      {a : A} {b : Buffer} {q : Bytes} → IsValid b → peek b ≡ q → Shows (done (a, b)) (done (a, q))
  fails : Shows aborted aborted
  loops : Shows looping looping

retrieve-Shows :
    {A : Type 0} (n : ℕ) (a : A) (b : Buffer)
    → IsValid b
    → Shows
        (retrieve n b >>= λ c. done (a, c))
        (if leb n (length (peek b)) then done (a, drop n (peek b)) else aborted)
unfolding retrieve
retrieve-Shows n a b v = rw (length-peek b v) (elim (Bool-cases (leb n (readable_bytes b))) [
  | inl h ↦ rw h (same (retrieve_lem n b v (ground arith)).1 (retrieve_lem n b v (ground arith)).2)
  | inr h ↦ rw h fails
])

-- The second assert of `retrieveUntil` says what the assert of `retrieve` says.
pub until-eq-retrieve : (n : ℕ) (b : Buffer) → IsValid b → retrieve_until n b ≡ retrieve n b
unfolding retrieve_until retrieve
until-eq-retrieve n b v = ground arith

all_taken : (b : Buffer) → IsValid b → Shows (done (retrieve_as_string b)) (done (peek b, []))
unfolding retrieve_as_string
all_taken b v = same (retrieve_all_lem b v).0 (retrieve_all_lem b v).1

front_taken :
    (n : ℕ) (b : Buffer)
    → IsValid b
    → Shows
        (retrieve_as_string_n n b)
        (if leb n (length (peek b)) then done (take n (peek b), drop n (peek b)) else aborted)
unfolding retrieve_as_string_n retrieve
front_taken n b v = rw (length-peek b v) (elim (Bool-cases (leb n (readable_bytes b))) [
  | inl h ↦ rw h (
      rw (front-peek n b (ground arith))
        (same (retrieve_lem n b v (ground arith)).1 (retrieve_lem n b v (ground arith)).2))
  | inr h ↦ rw h fails
])

-- Each call does to the content of a valid buffer what it does to a queue.
pub step-Shows : (op : Op) (b : Buffer) → IsValid b → Shows (step op b) (queue_step op (peek b))
unfolding step queue_step
step-Shows (appends xs) b v = same (append_lem xs b v).0 (append_lem xs b v).1
step-Shows (reads r) b v = same (read_fd_lem r b v).0 (read_fd_lem r b v).1
step-Shows (retrieves n) b v = retrieve-Shows n [] b v
step-Shows (retrieves_until n) b v = rw (until-eq-retrieve n b v) (retrieve-Shows n [] b v)
step-Shows retrieves_all b v = same (retrieve_all_lem b v).0 (retrieve_all_lem b v).1
step-Shows takes_all b v = all_taken b v
step-Shows (takes n) b v = front_taken n b v

pub bind-Shows :
    {A B : Type 0} {m : Run (A × Buffer)} {n : Run (A × Bytes)} (f : A × Buffer → Run (B × Buffer))
    (g : A × Bytes → Run (B × Bytes))
    → Shows m n
    → ((a : A) (b : Buffer) → IsValid b → Shows (f (a, b)) (g (a, peek b)))
    → Shows (m >>= f) (n >>= g)
bind-Shows f g (same {a = a} {b = b} v e) h = subst (λ q. Shows (f (a, b)) (g (a, q))) e (h a b v)
bind-Shows f g fails h = fails
bind-Shows f g loops h = loops

-- After the same run of something else.
pub after-Shows :
    {A B : Type 0} (m : Run A) {f : A → Run (B × Buffer)} {g : A → Run (B × Bytes)}
    → ((a : A) → Shows (f a) (g a))
    → Shows (m >>= f) (m >>= g)
after-Shows (done a) h = h a
after-Shows aborted h = fails
after-Shows looping h = loops

pub if-Shows :
    {A : Type 0} (t : Bool) {m m' : Run (A × Buffer)} {n n' : Run (A × Bytes)}
    → Shows m n
    → Shows m' n'
    → Shows (if t then m else m') (if t then n else n')
if-Shows true h k = h
if-Shows false h k = k

-- Any sequence of calls of `append`, `readFd`, `retrieve`, `retrieveUntil`, `retrieveAll` and
-- `retrieveAsString` on a valid buffer returns the strings that a plain queue of bytes returns, and
-- leaves a valid buffer that holds the queue's bytes; it fails an assert exactly when the queue is
-- asked for more than it holds.
pub run-Shows :
    (ops : List Op) (b : Buffer) → IsValid b → Shows (run ops b) (queue_run ops (peek b))
unfolding run queue_run
run-Shows [] b v = same v refl
run-Shows (op ∷ ops) b v =
    bind-Shows (λ (s, c). run ops c >>= λ (ss, d). done (s ∷ ss, d))
      (λ (s, c). queue_run ops c >>= λ (ss, d). done (s ∷ ss, d)) (step-Shows op b v)
      λ s c w.
        bind-Shows (λ (ss, d). done (s ∷ ss, d)) (λ (ss, d). done (s ∷ ss, d)) (run-Shows ops c w)
          λ ss d u. same u refl

-- A run that returns on the queue returns the same on the buffer.
pub Shows-done :
    {A : Type 0} {m : Run (A × Buffer)} {n : Run (A × Bytes)} {a : A} {q : Bytes}
    → Shows m n
    → n ≡ done (a, q)
    → (b : Buffer) × (m ≡ done (a, b)) × IsValid b × (peek b ≡ q)
Shows-done (same {a = a} {b = b} v e) h = (b, ground arith, v, ground arith)
Shows-done fails h = cc
Shows-done loops h = cc
