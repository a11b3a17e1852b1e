-- ===== src/Http/Context/Refused.antt =====
-- What `parseRequest` of winterfell/net/http/wf_http_context.cc does after it refused a request line.
use winterfell.Prelude.{
  ℕ, ◌≡◌, ◌≢◌, false, some, ◌++◌, length, take, Bytes, done, aborted, ◌==◌, arith, take-append_le,
}
use winterfell.Base.Timestamp.{Timestamp}
use winterfell.Http.Request.{Request, fresh, invalid, set_method}
use winterfell.Http.Context.{
  Context, initial, expect_request_line, index_of, process_request_line, after_request_line,
  take_request_line, round_in, parse_loop, parse_request,
}
use winterfell.Http.Context.Lines.{bytes_source, crlf_of}
use winterfell.Http.Context.Progress.{crlf_of-room}
use winterfell.Http.Context.Chunks.{crlf_of-append}

-- The context that a refused request line leaves.
abbrev pub refused : Request → Context
refused r = record { state = expect_request_line; request = r }

spaced :
    (line : Bytes) (r : Request)
    → process_request_line fresh line ≡ done (false, r)
    → r.method ≢ invalid
    → (index_of 32 line == length line) ≡ false
unfolding process_request_line set_method
spaced line r h n = ground arith

line_aborts :
    (line : Bytes) (r : Request)
    → (index_of 32 line == length line) ≡ false
    → r.method ≢ invalid
    → process_request_line r line ≡ aborted
unfolding process_request_line set_method
line_aborts line r h n = ground arith

module _ (t : Timestamp) (xs : Bytes) {i : ℕ} {r : Request} (h : crlf_of xs ≡ some i) where
  -- A fresh context that finds a request line with a known method, and refuses it for its version,
  -- keeps the method and the line: the call says so, and the next call, whatever has arrived since,
  -- fails the assert of `setMethod` that no method is set.
  pub refused-again :
      process_request_line fresh (take i xs) ≡ done (false, r)
      → r.method ≢ invalid
      → (parse_request bytes_source t initial xs ≡ done ((false, refused r), xs))
        × ((ys : Bytes) → parse_request bytes_source t (refused r) (xs ++ ys) ≡ aborted)
  unfolding parse_request parse_loop round_in take_request_line after_request_line
  refused-again p n = (rw (h, p), λ ys. rw (crlf_of-append xs ys h, line ys, stuck))
    where
      line : (ys : Bytes) → take i (xs ++ ys) ≡ take i xs
      line ys = take-append_le i xs ys (omega (arith, crlf_of-room xs h))

      stuck : process_request_line r (take i xs) ≡ aborted
      stuck = line_aborts (take i xs) r (spaced (take i xs) r p n) n
