-- ===== src/Http/Context/Progress.antt =====
-- The loop of `parseRequest` ends: each round but the last takes a line.
use winterfell.Prelude.{
  ℕ, zero, suc, ◌+◌, ◌≤◌, ◌<◌, ◌≡◌, ◌≢◌, refl, Bool, true, false, ◌⊎◌, inl, inr, Bool-cases, Option,
  some, none, length, take, drop, Bytes, Run, done, aborted, looping, ◌>>=◌, ◌==◌, if◌then◌else◌,
  arith, length-drop,
}
use winterfell.Base.Timestamp.{Timestamp}
use winterfell.Buffer.{Buffer, peek}
use winterfell.Buffer.Content.{IsValid}
use winterfell.Buffer.Search.{search_crlf-room, search_crlf-le}
use winterfell.Buffer.Queue.{Shows, same, fails, loops}
use winterfell.Http.Request.{Request, set_method}
use winterfell.Http.Context.{
  State, expect_request_line, expect_headers, expect_body, got_all, Context, buffer_source,
  process_request_line, after_request_line, take_request_line, take_header_line, index_of, round_in,
  parse_loop, parse_request,
}
use winterfell.Http.Context.Lines.{bytes_source, crlf_of, skip_bytes, parse_request-Shows}

-- The states in which the parser reads its input.
abbrev pub IsParsing : State → Type 0
IsParsing expect_request_line = Unit
IsParsing expect_headers = Unit
IsParsing _ = ⊥

-- A CRLF that was found leaves room for itself.
pub crlf_of-room : (xs : Bytes) {i : ℕ} → crlf_of xs ≡ some i → i + 2 ≤ length xs
unfolding crlf_of
crlf_of-room xs h = ground (arith, search_crlf-room xs, search_crlf-le xs)

-- What a round may do to the bytes: take some and go on, or stop, or fail.
pub data Progress (xs : Bytes) : Run ((Bool × Bool × Context) × Bytes) → Type 0 where
  goes :
      {ok : Bool} {c : Context} {rest : Bytes}
      → IsParsing c.state
      → length rest < length xs
      → Progress xs (done ((true, ok, c), rest))
  stops : {ok : Bool} {c : Context} {rest : Bytes} → Progress xs (done ((false, ok, c), rest))
  aborts : Progress xs aborted

pub process_request_line-ends : (r : Request) (line : Bytes) → process_request_line r line ≢ looping
unfolding process_request_line set_method
process_request_line-ends r line h = ground arith

pub skip_bytes-crlf :
    (xs : Bytes) {i : ℕ} → crlf_of xs ≡ some i → skip_bytes (i + 2) xs ≡ done (drop (i + 2) xs)
unfolding skip_bytes
skip_bytes-crlf xs h = ground (arith, crlf_of-room xs h)

pub shorter : (xs : Bytes) {i : ℕ} → crlf_of xs ≡ some i → length (drop (i + 2) xs) < length xs
shorter xs {i} h = omega (arith, crlf_of-room xs h, length-drop (i + 2) xs)

module _ (t : Timestamp) (ok : Bool) (c : Context) (xs : Bytes) where
  after_request_line-Progress :
      (i : ℕ)
      → crlf_of xs ≡ some i
      → (m : Run (Bool × Request)) → m ≢ looping
      → Progress xs (m >>= after_request_line bytes_source t c xs i)
  unfolding after_request_line
  after_request_line-Progress i h (done (false, r)) n = stops
  after_request_line-Progress i h (done (true, r)) n =
      rw (skip_bytes-crlf xs h) (goes tt (shorter xs h))
  after_request_line-Progress i h aborted n = aborts
  after_request_line-Progress i h looping n = absurd (n refl)

  request_line-Progress :
      (crlf : Option ℕ)
      → crlf_of xs ≡ crlf
      → Progress xs (take_request_line bytes_source t ok c xs crlf)
  unfolding take_request_line
  request_line-Progress none h = stops
  request_line-Progress (some i) h =
      after_request_line-Progress i h (process_request_line c.request (take i xs))
        (process_request_line-ends c.request (take i xs))

  header_line-Progress :
      (crlf : Option ℕ)
      → IsParsing c.state
      → crlf_of xs ≡ crlf
      → Progress xs (take_header_line bytes_source t ok c xs crlf)
  unfolding take_header_line
  header_line-Progress none p h = stops
  header_line-Progress (some i) p h =
      rw (skip_bytes-crlf xs h) (elim (Bool-cases (index_of b':' (take i xs) == i)) [
        | inl e ↦ rw e stops
        | inr e ↦ rw e (goes p (shorter xs h))
      ])

  round-Progress :
      (s : State) → c.state ≡ s → IsParsing s → Progress xs (round_in bytes_source t s ok c xs)
  unfolding round_in
  round-Progress expect_request_line e p = request_line-Progress (crlf_of xs) refl
  round-Progress expect_headers e p = header_line-Progress (crlf_of xs) (rw e tt) refl
  round-Progress expect_body e p = elim p [ ]
  round-Progress got_all e p = elim p [ ]

-- One more round, over any fuel.
abbrev pub again : Timestamp → ℕ → (Bool × Bool × Context) × Bytes → Run ((Bool × Context) × Bytes)
again t fuel ((more, ok, c), rest) =
    let later = parse_loop bytes_source t fuel ok c rest in
    if more then later else done ((ok, c), rest)

module _ (t : Timestamp) where
  again-ends :
      (fuel : ℕ) (xs : Bytes)
      → ((ok : Bool) (c : Context) (rest : Bytes)
          → IsParsing c.state
          → length rest < fuel
          → parse_loop bytes_source t fuel ok c rest ≢ looping)
      → length xs < suc fuel
      → {m : Run ((Bool × Bool × Context) × Bytes)} → Progress xs m
      → (m >>= again t fuel) ≢ looping
  again-ends fuel xs ih h (goes {ok = ok} {c = c} {rest = rest} p k) = ih ok c rest p (omega arith)
  again-ends fuel xs ih h stops = λ e. cc
  again-ends fuel xs ih h aborts = λ e. cc

  -- With more fuel than bytes the loop does not stop for want of fuel.
  pub loop-ends :
      (fuel : ℕ) (ok : Bool) (c : Context) (xs : Bytes)
      → IsParsing c.state
      → length xs < fuel
      → parse_loop bytes_source t fuel ok c xs ≢ looping
  unfolding parse_loop
  loop-ends zero ok c xs p h = elim h [ ]
  loop-ends (suc fuel) ok c xs p h =
      again-ends fuel xs (loop-ends fuel) h (round-Progress t ok c xs c.state refl p)

  again-fuel :
      (f g : ℕ) (xs : Bytes)
      → ((ok : Bool) (c : Context) (rest : Bytes)
          → IsParsing c.state
          → length rest < f
          → length rest < g
          → parse_loop bytes_source t f ok c rest ≡ parse_loop bytes_source t g ok c rest)
      → length xs < suc f
      → length xs < suc g
      → {m : Run ((Bool × Bool × Context) × Bytes)} → Progress xs m
      → (m >>= again t f) ≡ (m >>= again t g)
  again-fuel f g xs ih h k (goes {ok = ok} {c = c} {rest = rest} p l) =
      ih ok c rest p (omega arith) (omega arith)
  again-fuel f g xs ih h k stops = refl
  again-fuel f g xs ih h k aborts = refl

  -- Nor does the fuel matter then.
  pub loop-fuel :
      (f g : ℕ) (ok : Bool) (c : Context) (xs : Bytes)
      → IsParsing c.state
      → length xs < f
      → length xs < g
      → parse_loop bytes_source t f ok c xs ≡ parse_loop bytes_source t g ok c xs
  unfolding parse_loop
  loop-fuel zero g ok c xs p h k = elim h [ ]
  loop-fuel (suc f) zero ok c xs p h k = elim k [ ]
  loop-fuel (suc f) (suc g) ok c xs p h k =
      again-fuel f g xs (loop-fuel f g) h k (round-Progress t ok c xs c.state refl p)

  Shows-ends :
      {A : Type 0} {m : Run (A × Buffer)} {n : Run (A × Bytes)}
      → Shows m n
      → n ≢ looping
      → m ≢ looping
  Shows-ends (same v e) h = λ k. cc
  Shows-ends fails h = λ k. cc
  Shows-ends loops h = λ k. h refl

  -- On a valid buffer, from the states that read the request line or the headers, `parseRequest`
  -- ends: the rounds that the model allows, one more than there are readable bytes, are enough.
  pub parse_request-ends :
      (c : Context) (b : Buffer)
      → IsValid b
      → IsParsing c.state
      → parse_request buffer_source t c b ≢ looping
  unfolding parse_request
  parse_request-ends c b v p =
      Shows-ends (parse_request-Shows t c b v)
        (loop-ends (suc (length (peek b))) true c (peek b) p (omega arith))

  -- Called again on a context that has its request, `parseRequest` never returns, whatever the
  -- number of rounds.
  pub loop-got_all :
      (fuel : ℕ) (ok : Bool) (c : Context) (b : Buffer)
      → (c.state ≡ got_all) ⊎ (c.state ≡ expect_body)
      → parse_loop buffer_source t fuel ok c b ≡ looping
  unfolding parse_loop round_in
  loop-got_all zero ok c b h = refl
  loop-got_all (suc fuel) ok c b h = ground (arith, loop-got_all fuel ok c b h)
