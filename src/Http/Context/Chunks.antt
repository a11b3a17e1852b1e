-- ===== src/Http/Context/Chunks.antt =====
-- `parseRequest` over input that arrives in pieces.
use winterfell.Prelude.{
  ℕ, zero, suc, ◌+◌, ◌≤◌, ◌<◌, ◌≡◌, ◌≢◌, refl, sym, ap, ◌∙◌, Bool, true, false, ◌&&◌, inl, inr,
  Bool-cases, Option-cases, some, none, ◌++◌, length, take, drop, Bytes, Run, done, aborted,
  looping, ◌>>=◌, ◌==◌, if◌then◌else◌, arith, length-append, take-append_le, drop-append_le,
}
use winterfell.Base.Timestamp.{Timestamp}
use winterfell.Buffer.Search.{search_crlf-append, search_crlf-le}
use winterfell.Http.Request.{Request}
use winterfell.Http.Context.{
  State, expect_request_line, expect_headers, expect_body, got_all, Context, process_request_line,
  after_request_line, take_request_line, take_header_line, index_of, round_in, parse_loop,
  parse_request,
}
use winterfell.Http.Context.Lines.{bytes_source, crlf_of, skip_bytes}
use winterfell.Http.Context.Progress.{
  IsParsing, crlf_of-room, skip_bytes-crlf, shorter, process_request_line-ends, again, loop-fuel,
}

abbrev pub is_parsing : State → Bool
is_parsing expect_request_line = true
is_parsing expect_headers = true
is_parsing _ = false

is_parsing-IsParsing : (s : State) → IsParsing s → is_parsing s ≡ true
is_parsing-IsParsing expect_request_line p = refl
is_parsing-IsParsing expect_headers p = refl
is_parsing-IsParsing expect_body p = elim p [ ]
is_parsing-IsParsing got_all p = elim p [ ]

-- More bytes arrive behind those that a call left: the parser is called again if it has neither
-- refused the request nor read it whole.
abbrev pub resume : Timestamp → Bytes → (Bool × Context) × Bytes → Run ((Bool × Context) × Bytes)
resume t ys ((ok, c), rest) =
    if ok && is_parsing c.state
    then parse_request bytes_source t c (rest ++ ys)
    else done ((ok, c), rest ++ ys)

pub crlf_of-append : (xs ys : Bytes) {i : ℕ} → crlf_of xs ≡ some i → crlf_of (xs ++ ys) ≡ some i
unfolding crlf_of
crlf_of-append xs ys h =
    ground (arith, search_crlf-append xs ys, search_crlf-le xs, length-append xs ys)

-- A round on a piece that has a line, and the round on the piece with more behind it.
data Extends (xs ys : Bytes)
    : Run ((Bool × Bool × Context) × Bytes) → Run ((Bool × Bool × Context) × Bytes) → Type 0 where
  goes :
      {c : Context} {rest : Bytes}
      → IsParsing c.state
      → length rest < length xs
      → Extends xs ys (done ((true, true, c), rest)) (done ((true, true, c), rest ++ ys))
  stops :
      {ok : Bool} {c : Context} {rest : Bytes}
      → (ok && is_parsing c.state) ≡ false
      → Extends xs ys (done ((false, ok, c), rest)) (done ((false, ok, c), rest ++ ys))
  aborts : Extends xs ys aborted aborted

module _ (t : Timestamp) (c : Context) (xs ys : Bytes) {i : ℕ} (h : crlf_of xs ≡ some i) where
  fits : i + 2 ≤ length xs
  fits = crlf_of-room xs h

  rest_append : drop (i + 2) (xs ++ ys) ≡ drop (i + 2) xs ++ ys
  rest_append = drop-append_le (i + 2) xs ys fits

  line_append : take i (xs ++ ys) ≡ take i xs
  line_append = take-append_le i xs ys (omega (arith, fits))

  skip_append : skip_bytes (i + 2) (xs ++ ys) ≡ done (drop (i + 2) xs ++ ys)
  skip_append = skip_bytes-crlf (xs ++ ys) (crlf_of-append xs ys h) ∙ ap done rest_append

  after_request_line-Extends :
      (m : Run (Bool × Request))
      → m ≢ looping
      → Extends xs ys
          (m >>= after_request_line bytes_source t c xs i)
          (m >>= after_request_line bytes_source t c (xs ++ ys) i)
  unfolding after_request_line
  after_request_line-Extends (done (false, r)) n = stops refl
  after_request_line-Extends (done (true, r)) n =
      rw (skip_bytes-crlf xs h, skip_append) (goes tt (shorter xs h))
  after_request_line-Extends aborted n = aborts
  after_request_line-Extends looping n = absurd (n refl)

  request_line-Extends :
      Extends xs ys
        (take_request_line bytes_source t true c xs (some i))
        (take_request_line bytes_source t true c (xs ++ ys) (some i))
  unfolding take_request_line
  request_line-Extends = rw line_append (
      after_request_line-Extends (process_request_line c.request (take i xs))
        (process_request_line-ends c.request (take i xs)))

  header_line-Extends :
      IsParsing c.state
      → Extends xs ys
          (take_header_line bytes_source t true c xs (some i))
          (take_header_line bytes_source t true c (xs ++ ys) (some i))
  unfolding take_header_line
  header_line-Extends p =
      rw (line_append, skip_bytes-crlf xs h, skip_append)
        (elim (Bool-cases (index_of b':' (take i xs) == i)) [
          | inl e ↦ rw e (stops refl)
          | inr e ↦ rw e (goes p (shorter xs h))
        ])

  round-Extends :
      (s : State)
      → c.state ≡ s
      → IsParsing s
      → Extends xs ys
          (round_in bytes_source t s true c xs)
          (round_in bytes_source t s true c (xs ++ ys))
  unfolding round_in
  round-Extends expect_request_line e p = rw (h, crlf_of-append xs ys h) request_line-Extends
  round-Extends expect_headers e p = rw (h, crlf_of-append xs ys h) (header_line-Extends (rw e tt))
  round-Extends expect_body e p = elim p [ ]
  round-Extends got_all e p = elim p [ ]

module _ (t : Timestamp) where
  -- A piece without a line is left as it is.
  round_waits :
      (s : State) (c : Context) (xs : Bytes)
      → IsParsing s
      → crlf_of xs ≡ none
      → round_in bytes_source t s true c xs ≡ done ((false, true, c), xs)
  unfolding round_in take_request_line take_header_line
  round_waits expect_request_line c xs p h = rw h
  round_waits expect_headers c xs p h = rw h
  round_waits expect_body c xs p h = elim p [ ]
  round_waits got_all c xs p h = elim p [ ]

  loop_waits :
      (f : ℕ) (c : Context) (xs : Bytes)
      → IsParsing c.state
      → crlf_of xs ≡ none
      → parse_loop bytes_source t (suc f) true c xs ≡ done ((true, c), xs)
  unfolding parse_loop
  loop_waits f c xs p h = rw (round_waits c.state c xs p h)

  waits-chunks :
      (f g : ℕ) (c : Context) (xs ys : Bytes)
      → IsParsing c.state
      → crlf_of xs ≡ none
      → length (xs ++ ys) < g
      → parse_loop bytes_source t g true c (xs ++ ys)
        ≡ (parse_loop bytes_source t (suc f) true c xs >>= resume t ys)
  unfolding parse_request
  waits-chunks f g c xs ys p h k =
      rw (loop_waits f c xs p h, is_parsing-IsParsing c.state p)
        (loop-fuel t g (suc (length (xs ++ ys))) true c (xs ++ ys) p k (omega arith))

  again-Extends :
      (f g : ℕ) (xs ys : Bytes)
      → ((c : Context) (rest : Bytes)
          → IsParsing c.state
          → length rest < f
          → length (rest ++ ys) < g
          → parse_loop bytes_source t g true c (rest ++ ys)
            ≡ (parse_loop bytes_source t f true c rest >>= resume t ys))
      → length xs < suc f
      → length (xs ++ ys) < suc g
      → {m n : Run ((Bool × Bool × Context) × Bytes)} → Extends xs ys m n
      → (n >>= again t g) ≡ (m >>= again t f >>= resume t ys)
  again-Extends f g xs ys ih h k (goes {c = c} {rest = rest} p l) =
      ih c rest p (omega arith) (omega (arith, length-append rest ys, length-append xs ys))
  again-Extends f g xs ys ih h k (stops e) = rw e
  again-Extends f g xs ys ih h k aborts = refl

  loop-chunks :
      (f g : ℕ) (c : Context) (xs ys : Bytes)
      → IsParsing c.state
      → length xs < f
      → length (xs ++ ys) < g
      → parse_loop bytes_source t g true c (xs ++ ys)
        ≡ (parse_loop bytes_source t f true c xs >>= resume t ys)
  unfolding parse_loop
  loop-chunks zero g c xs ys p h k = elim h [ ]
  loop-chunks (suc f) zero c xs ys p h k = elim k [ ]
  loop-chunks (suc f) (suc g) c xs ys p h k = elim (Option-cases (crlf_of xs)) [
    | inl e ↦ waits-chunks f (suc g) c xs ys p e k
    | inr (i, e) ↦
        again-Extends f g xs ys (λ c' rest. loop-chunks f g c' rest ys) h k
          (round-Extends t c xs ys e c.state refl p)
  ]

  request_loop :
      (c : Context) (xs : Bytes)
      → parse_request bytes_source t c xs ≡ parse_loop bytes_source t (suc (length xs)) true c xs
  unfolding parse_request
  request_loop c xs = refl

  -- In the states that read the request line or the headers, the parser gives the same result,
  -- context and left bytes when the input arrives in two pieces as when it arrives at once, wherever
  -- it is cut, all calls being given one time of receipt; a refusal or a complete request found in
  -- the first piece stands, and the second piece is left behind it.
  pub parse_request-chunks :
      (c : Context) (xs ys : Bytes)
      → IsParsing c.state
      → parse_request bytes_source t c (xs ++ ys)
        ≡ (parse_request bytes_source t c xs >>= resume t ys)
  parse_request-chunks c xs ys p =
      request_loop c (xs ++ ys)
      ∙ loop-chunks (suc (length xs)) (suc (length (xs ++ ys))) c xs ys p (omega arith)
          (omega arith)
      ∙ ap (λ m. m >>= resume t ys) (sym (request_loop c xs))
