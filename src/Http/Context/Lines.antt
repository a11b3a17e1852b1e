-- ===== src/Http/Context/Lines.antt =====
-- The parser on a plain byte string, and that it does the same on a buffer with those bytes.
use winterfell.Prelude.{
  ℕ, zero, suc, ◌+◌, ◌≤◌, ◌≡◌, refl, Bool, true, false, inl, inr, Bool-cases, Option, some, none,
  length, take, drop, Bytes, Run, done, aborted, ◌>>=◌, ◌==◌, leb, if◌then◌else◌, arith,
}
use winterfell.Base.Timestamp.{Timestamp}
use winterfell.Buffer.{
  Buffer, peek, readable_bytes, find_crlf, search_crlf, retrieve, retrieve_until,
}
use winterfell.Buffer.Content.{IsValid, length-peek, retrieve_lem}
use winterfell.Buffer.Queue.{
  Shows, same, fails, loops, bind-Shows, after-Shows, if-Shows, until-eq-retrieve,
}
use winterfell.Http.Request.{Request, set_receive_time}
use winterfell.Http.Context.{
  State, expect_request_line, expect_headers, expect_body, got_all, Context, Source, buffer_source,
  process_request_line, after_request_line, take_request_line, take_header_line, index_of, round_in,
  parse_loop, parse_request,
}

-- The offset of the first CRLF of a byte string.
unfoldable pub crlf_of : Bytes → Option ℕ
crlf_of xs = if search_crlf xs == length xs then none else some (search_crlf xs)

unfoldable pub skip_bytes : ℕ → Bytes → Run Bytes
skip_bytes n xs = if leb n (length xs) then done (drop n xs) else aborted

abbrev pub bytes_source : Source Bytes
bytes_source = record { size = length; crlf = crlf_of; front = take; skip = skip_bytes }

crlf-peek : (b : Buffer) → IsValid b → find_crlf b ≡ crlf_of (peek b)
unfolding find_crlf crlf_of
crlf-peek b v = rw (length-peek b v)

-- `retrieveUntil`, followed by any use of what is left.
skip-Shows :
    {A : Type 0} (n : ℕ) (b : Buffer) (f : Buffer → Run (A × Buffer)) (g : Bytes → Run (A × Bytes))
    → IsValid b
    → ((c : Buffer) → IsValid c → Shows (f c) (g (peek c)))
    → Shows (retrieve_until n b >>= f) (skip_bytes n (peek b) >>= g)
unfolding skip_bytes retrieve
skip-Shows n b f g v h = elim (Bool-cases (leb n (readable_bytes b))) [
  | inl k ↦ within (ground arith)
  | inr k ↦ rw (skip_aborts k, retrieve_aborts k) fails
]
  where
    size : length (peek b) ≡ readable_bytes b
    size = length-peek b v

    skip_aborts : leb n (readable_bytes b) ≡ false → skip_bytes n (peek b) ≡ aborted
    skip_aborts k = rw (size, k)

    retrieve_aborts : leb n (readable_bytes b) ≡ false → retrieve_until n b ≡ aborted
    retrieve_aborts k = rw (until-eq-retrieve n b v, k)

    within : n ≤ readable_bytes b → Shows (retrieve_until n b >>= f) (skip_bytes n (peek b) >>= g)
    within k =
        let (run, valid, rest) = retrieve_lem n b v k in
        let kept : skip_bytes n (peek b) ≡ done (drop n (peek b)) = ground (arith, size) in
        rw (until-eq-retrieve n b v, run, kept, ← rest) (h _ valid)

module _ (t : Timestamp) where
  after_request_line-Shows :
      (c : Context) (b : Buffer) (crlf : ℕ)
      → IsValid b
      → (result : Bool × Request)
      → Shows
          (after_request_line buffer_source t c b crlf result)
          (after_request_line bytes_source t c (peek b) crlf result)
  unfolding after_request_line
  after_request_line-Shows c b crlf v (false, r) = same v refl
  after_request_line-Shows c b crlf v (true, r) =
      skip-Shows (crlf + 2) b (λ d. done (done_line r, d)) (λ d. done (done_line r, d)) v
        λ d w. same w refl
    where
      done_line : Request → Bool × Bool × Context
      done_line r =
          (true, true, record c { state = expect_headers; request = set_receive_time t r })

  request_line-Shows :
      (ok : Bool) (c : Context) (b : Buffer) (crlf : Option ℕ)
      → IsValid b
      → Shows
          (take_request_line buffer_source t ok c b crlf)
          (take_request_line bytes_source t ok c (peek b) crlf)
  unfolding take_request_line
  request_line-Shows ok c b none v = same v refl
  request_line-Shows ok c b (some crlf) v =
      after-Shows (process_request_line c.request (take crlf (peek b)))
        (after_request_line-Shows c b crlf v)

  header_line-Shows :
      (ok : Bool) (c : Context) (b : Buffer) (crlf : Option ℕ)
      → IsValid b
      → Shows
          (take_header_line buffer_source t ok c b crlf)
          (take_header_line bytes_source t ok c (peek b) crlf)
  unfolding take_header_line
  header_line-Shows ok c b none v = same v refl
  header_line-Shows ok c b (some crlf) v = skip-Shows (crlf + 2) b _ _ v λ d w.
      elim (Bool-cases (index_of b':' (take crlf (peek b)) == crlf)) [
        | inl e ↦ rw e (same w refl)
        | inr e ↦ rw e (same w refl)
      ]

  round-Shows :
      (s : State) (ok : Bool) (c : Context) (b : Buffer)
      → IsValid b
      → Shows (round_in buffer_source t s ok c b) (round_in bytes_source t s ok c (peek b))
  unfolding round_in
  round-Shows expect_request_line ok c b v =
      rw (crlf-peek b v) (request_line-Shows ok c b (crlf_of (peek b)) v)
  round-Shows expect_headers ok c b v =
      rw (crlf-peek b v) (header_line-Shows ok c b (crlf_of (peek b)) v)
  round-Shows expect_body ok c b v = same v refl
  round-Shows got_all ok c b v = same v refl

  loop-Shows :
      (fuel : ℕ) (ok : Bool) (c : Context) (b : Buffer)
      → IsValid b
      → Shows
          (parse_loop buffer_source t fuel ok c b)
          (parse_loop bytes_source t fuel ok c (peek b))
  unfolding parse_loop
  loop-Shows zero ok c b v = loops
  loop-Shows (suc fuel) ok c b v =
      bind-Shows _ _ (round-Shows c.state ok c b v)
        λ (more, ok', c') d w. if-Shows more (loop-Shows fuel ok' c' d w) (same w refl)

  -- `parseRequest` on a valid buffer does what it does on the bytes that the buffer holds: it returns
  -- the same, leaves the context the same, and leaves a valid buffer with the bytes that are left; it
  -- fails an assert, or never ends, exactly when the run on the bytes does.
  pub parse_request-Shows :
      (c : Context) (b : Buffer)
      → IsValid b
      → Shows (parse_request buffer_source t c b) (parse_request bytes_source t c (peek b))
  unfolding parse_request
  parse_request-Shows c b v = rw (length-peek b v) (loop-Shows (suc (readable_bytes b)) true c b v)
