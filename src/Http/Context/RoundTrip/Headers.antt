-- ===== src/Http/Context/RoundTrip/Headers.antt =====
-- Reading back the headers, and the whole request.
use winterfell.Prelude.{
  ℕ, zero, suc, ◌+◌, ◌<◌, ◌≡◌, refl, sym, ap, ◌∙◌, true, false, some, List, [], ◌∷◌, ◌++◌, length,
  drop, Bytes, done, ◌==◌, arith, length-append, take-append, drop-append, drop-drop,
}
use winterfell.Base.Timestamp.{Timestamp}
use winterfell.Buffer.Search.{NoCr, search_crlf-line}
use winterfell.Http.Request.{
  Request, fresh, invalid, method_string, Version, Method, set_receive_time, http10, http11,
  unknown, get, post, head, put, delete,
}
use winterfell.Http.StringMap.{assign}
use winterfell.Http.Context.{
  Context, initial, expect_request_line, expect_headers, got_all, index_of, take_header_line,
  take_request_line, after_request_line, round_in, parse_loop, parse_request,
}
use winterfell.Http.Context.Lines.{bytes_source, crlf_of, skip_bytes}
use winterfell.Http.Context.Progress.{skip_bytes-crlf}
use winterfell.Http.Context.RoundTrip.{
  Without, Message, version_string, request_line, header_line, print_headers, print_message,
  HeadersOk, IsWellFormed, IsTrimmed, collect,
}
use winterfell.Http.Context.RoundTrip.Line.{
  index_of-first, add_header_lem, with_line, process_request_line_lem,
}

NoCr-append : (xs ys : Bytes) → NoCr xs → NoCr ys → NoCr (xs ++ ys)
NoCr-append [] ys h k = k
NoCr-append (x ∷ xs) ys h k = (h.0, NoCr-append xs ys h.1 k)

crlf_of-line :
    (line rest : Bytes) → NoCr line → crlf_of (line ++ 13 ∷ 10 ∷ rest) ≡ some (length line)
unfolding crlf_of
crlf_of-line line rest h =
    ground (arith, search_crlf-line line rest h, length-append line (13 ∷ 10 ∷ rest))

skip_line :
    (line rest : Bytes)
    → NoCr line
    → skip_bytes (length line + 2) (line ++ 13 ∷ 10 ∷ rest) ≡ done rest
skip_line line rest h =
    skip_bytes-crlf (line ++ 13 ∷ 10 ∷ rest) (crlf_of-line line rest h)
    ∙ ap done (
        sym (drop-drop 2 (length line) (line ++ 13 ∷ 10 ∷ rest))
        ∙ ap (drop 2) (drop-append line (13 ∷ 10 ∷ rest)))

module _ (t : Timestamp) where
  header_round :
      (field value rest : Bytes) (c : Context)
      → Without b':' field
      → NoCr field
      → NoCr value
      → IsTrimmed value
      → round_in bytes_source t expect_headers true c (header_line (field, value) ++ 13 ∷ 10 ∷ rest)
        ≡ done (
          (
            true,
            true,
            record c {
              request = record (c.request) { headers = assign field value c.request.headers };
            },
          ),
          rest,
        )
  unfolding round_in take_header_line
  header_round field value rest c h k l trimmed = rw (
    crlf_of-line line rest plain,
    take-append line (13 ∷ 10 ∷ rest),
    skip_line line rest plain,
    index_of-first b':' field (32 ∷ value) h,
    apart,
    add_header_lem field value c.request h trimmed,
  )
    where
      line : Bytes
      line = header_line (field, value)

      plain : NoCr line
      plain = NoCr-append field (b':' ∷ 32 ∷ value) k (omega arith, (omega arith, l))

      apart : (length field == length line) ≡ false
      apart = ground (arith, length-append field (b':' ∷ 32 ∷ value))

  last_round :
      (rest : Bytes) (c : Context)
      → round_in bytes_source t expect_headers true c (13 ∷ 10 ∷ rest)
        ≡ done ((false, true, record c { state = got_all }), rest)
  unfolding round_in take_header_line index_of
  last_round rest c = rw (crlf_of-line [] rest tt, skip_line [] rest tt)

  headers_loop :
      (hs : List (Bytes × Bytes)) (rest : Bytes) (r : Request) (fuel : ℕ)
      → HeadersOk hs
      → length (print_headers hs rest) < fuel
      → parse_loop bytes_source t fuel true
          (record { state = expect_headers; request = r })
          (print_headers hs rest)
        ≡ done (
          (true, record { state = got_all; request = record r { headers = collect r.headers hs } }),
          rest,
        )
  unfolding parse_loop
  headers_loop hs rest r zero h k = elim k [ ]
  headers_loop [] rest r (suc fuel) h k =
      rw (last_round rest (record { state = expect_headers; request = r }))
  headers_loop ((field, value) ∷ hs) rest r (suc fuel) h k =
      rw
        (header_round field value (print_headers hs rest)
          (record { state = expect_headers; request = r }) h.0 h.1 h.2 h.3)
        (headers_loop hs rest (record r { headers = assign field value r.headers }) fuel h.4
          (omega
            (arith, length-append (header_line (field, value)) (13 ∷ 10 ∷ print_headers hs rest))))

  request_line_round :
      (m : Message) (rest : Bytes)
      → IsWellFormed m
      → NoCr (request_line m)
      → round_in bytes_source t expect_request_line true initial (request_line m ++ 13 ∷ 10 ∷ rest)
        ≡ done (
          (
            true,
            true,
            record { state = expect_headers; request = set_receive_time t (with_line m fresh) },
          ),
          rest,
        )
  unfolding round_in take_request_line after_request_line
  request_line_round m rest w plain = rw (
    crlf_of-line line rest plain,
    take-append line (13 ∷ 10 ∷ rest),
    process_request_line_lem m fresh w refl refl,
    skip_line line rest plain,
  )
    where
      line : Bytes
      line = request_line m

  method_string-NoCr : (m : Method) → NoCr (method_string m)
  unfolding method_string
  method_string-NoCr invalid = omega arith
  method_string-NoCr get = omega arith
  method_string-NoCr post = omega arith
  method_string-NoCr head = omega arith
  method_string-NoCr put = omega arith
  method_string-NoCr delete = omega arith

  version_string-NoCr : (v : Version) → NoCr (version_string v)
  version_string-NoCr unknown = omega arith
  version_string-NoCr http10 = omega arith
  version_string-NoCr http11 = omega arith

  request_line-NoCr : (m : Message) → IsWellFormed m → NoCr (request_line m)
  request_line-NoCr m w = NoCr-append (method_string m.method) _ (method_string-NoCr m.method) (
    omega arith,
    NoCr-append (m.path ++ m.query) _ (NoCr-append m.path m.query w.path_plain.2 w.query_plain.1)
        (omega arith, version_string-NoCr m.version),
  )

  -- A well-formed request, followed by any other bytes, is read back by a fresh context: the call
  -- succeeds with the whole request taken, its method, path, query, version and headers as they were
  -- sent and the time of receipt, and leaves exactly the bytes behind the request.
  pub parse_request-print_message :
      (m : Message) (rest : Bytes)
      → IsWellFormed m
      → parse_request bytes_source t initial (print_message m rest)
        ≡ done (
          (
            true,
            record {
              state = got_all;
              request = record {
                method = m.method;
                version = m.version;
                path = m.path;
                query = m.query;
                receive_time = t;
                headers = collect [] m.headers;
              };
            },
          ),
          rest,
        )
  unfolding parse_request parse_loop
  parse_request-print_message m rest w =
      rw (request_line_round m (print_headers m.headers rest) w (request_line-NoCr m w)) (
        headers_loop m.headers rest (set_receive_time t (with_line m fresh))
          (length (print_message m rest)) w.headers_ok
          (omega (arith, length-append (request_line m) (13 ∷ 10 ∷ print_headers m.headers rest))))
