-- ===== src/Http/Context/RoundTrip/Line.antt =====
-- Reading back a request line and a header line.
use winterfell.Prelude.{
  ℕ, zero, suc, ◌+◌, ◌≡◌, ◌≢◌, refl, sym, ap, ◌∙◌, true, false, ◌⊎◌, inl, inr, [], ◌∷◌, ◌++◌,
  length, take, drop, Bytes, done, ◌==◌, arith, length-append, take-append, drop-append, drop-drop,
  append-nil, take-length,
}
use winterfell.Http.Request.{
  Request, Method, invalid, get, post, head, put, delete, Version, unknown, http10, http11,
  method_string, is_space, parse_method, set_method, is_valid, skip_spaces, trim_end, add_header,
  set_version,
}
use winterfell.Http.StringMap.{assign}
use winterfell.Http.Context.{index_of, set_target, set_protocol, process_request_line}
use winterfell.Http.Context.RoundTrip.{
  Without, Message, version_string, request_line, IsTrimmed, IsWellFormed,
}

pub index_of-first : (c : ℕ) (xs ys : Bytes) → Without c xs → index_of c (xs ++ c ∷ ys) ≡ length xs
unfolding index_of
index_of-first c [] ys h = ground arith
index_of-first c (x ∷ xs) ys h = ground (arith, index_of-first c xs ys h.1)

index_of-none : (c : ℕ) (xs : Bytes) → Without c xs → index_of c xs ≡ length xs
unfolding index_of
index_of-none c [] h = refl
index_of-none c (x ∷ xs) h = ground (arith, index_of-none c xs h.1)

pub Without-append : (c : ℕ) (xs ys : Bytes) → Without c xs → Without c ys → Without c (xs ++ ys)
Without-append c [] ys h k = k
Without-append c (x ∷ xs) ys h k = (h.0, Without-append c xs ys h.1 k)

parse_method-string : (m : Method) → m ≢ invalid → parse_method (method_string m) ≡ m
unfolding parse_method method_string
parse_method-string invalid h = absurd (h refl)
parse_method-string get h = refl
parse_method-string post h = refl
parse_method-string head h = refl
parse_method-string put h = refl
parse_method-string delete h = refl

method_string-Without : (m : Method) → Without 32 (method_string m)
unfolding method_string
method_string-Without invalid = omega arith
method_string-Without get = omega arith
method_string-Without post = omega arith
method_string-Without head = omega arith
method_string-Without put = omega arith
method_string-Without delete = omega arith

set_protocol_lem :
    (v : Version) (r : Request)
    → v ≢ unknown
    → set_protocol (version_string v) r ≡ (true, set_version v r)
unfolding set_protocol
set_protocol_lem unknown r h = absurd (h refl)
set_protocol_lem http10 r h = refl
set_protocol_lem http11 r h = refl

set_target_lem :
    (path query : Bytes) (r : Request)
    → Without b'?' path
    → (query ≡ []) ⊎ ((q : Bytes) × (query ≡ b'?' ∷ q))
    → r.query ≡ []
    → set_target (path ++ query) r ≡ record r { path = path; query = query }
unfolding set_target
set_target_lem path query r h (inl e) k = ground (arith, append-nil path, index_of-none b'?' path h)
set_target_lem path query r h (inr (q, e)) k = rw e (
    ground (
      arith,
      index_of-first b'?' path q h,
      take-append path (b'?' ∷ q),
      drop-append path (b'?' ∷ q),
      length-append path (b'?' ∷ q),
    ))

-- The bytes behind the first separator.
pub drop-separator : (xs ys : Bytes) (c : ℕ) → drop (length xs + 1) (xs ++ c ∷ ys) ≡ ys
drop-separator xs ys c =
    sym (drop-drop 1 (length xs) (xs ++ c ∷ ys)) ∙ ap (drop 1) (drop-append xs (c ∷ ys))

skip_spaces_lem : (v : Bytes) → IsTrimmed v → skip_spaces (32 ∷ v) ≡ v
unfolding skip_spaces is_space
skip_spaces_lem [] h = refl
skip_spaces_lem (x ∷ v) (inl e) = cc
skip_spaces_lem (x ∷ v) (inr (h, k)) = rw h

trim_end_lem : (v : Bytes) (n : ℕ) → length v ≡ n → IsTrimmed v → trim_end n v ≡ v
unfolding trim_end
trim_end_lem [] zero e h = refl
trim_end_lem [] (suc n) e h = absurd (omega arith)
trim_end_lem (x ∷ v) zero e h = absurd (omega arith)
trim_end_lem (x ∷ v) (suc n) e (inl z) = cc
trim_end_lem (x ∷ v) (suc n) e (inr (h, k)) =
    rw (k n e) (ap (λ j. take j (x ∷ v)) (sym e) ∙ take-length (x ∷ v))

-- `addHeader` on a header line: the field, and the value without the space before it.
pub add_header_lem :
    (field value : Bytes) (r : Request)
    → Without b':' field
    → IsTrimmed value
    → add_header (field ++ b':' ∷ 32 ∷ value) (length field) r
      ≡ record r { headers = assign field value r.headers }
unfolding add_header
add_header_lem field value r h k = rw (
  take-append field (b':' ∷ 32 ∷ value),
  drop-separator field (32 ∷ value) b':',
  skip_spaces_lem value k,
  trim_end_lem value (length value) refl k,
)

-- What `parseRequest` makes of the request line.
abbrev pub with_line : Message → Request → Request
with_line m r = record r { method = m.method; version = m.version; path = m.path; query = m.query }

pub process_request_line_lem :
    (m : Message) (r : Request)
    → IsWellFormed m
    → r.method ≡ invalid
    → r.query ≡ []
    → process_request_line r (request_line m) ≡ done (true, with_line m r)
unfolding process_request_line set_method
process_request_line_lem m r w e k = rw (
  first,
  drop-separator name tail 32,
  second,
  drop-separator target version 32,
  take-append name (32 ∷ tail),
  take-append target (32 ∷ version),
  spaced,
  e,
  parse_method-string m.method w.method_known,
  valid m.method w.method_known,
  spaced_again,
  set_target_lem m.path m.query (record r { method = m.method }) w.path_plain.1 w.query_marked k,
  set_protocol_lem m.version (record r { method = m.method; path = m.path; query = m.query })
      w.version_known,
)
  where
    name : Bytes
    name = method_string m.method

    target : Bytes
    target = m.path ++ m.query

    version : Bytes
    version = version_string m.version

    tail : Bytes
    tail = target ++ 32 ∷ version

    first : index_of 32 (request_line m) ≡ length name
    first = index_of-first 32 name tail (method_string-Without m.method)

    second : index_of 32 tail ≡ length target
    second =
        index_of-first 32 target version
          (Without-append 32 m.path m.query w.path_plain.0 w.query_plain.0)

    spaced : (length name == length (request_line m)) ≡ false
    spaced = ground (arith, length-append name (32 ∷ tail))

    spaced_again : (length target == length tail) ≡ false
    spaced_again = ground (arith, length-append target (32 ∷ version))

    valid : (a : Method) → a ≢ invalid → is_valid a ≡ true
    valid invalid h = absurd (h refl)
    valid _ h = refl
