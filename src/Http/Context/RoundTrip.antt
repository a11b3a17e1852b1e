-- ===== src/Http/Context/RoundTrip.antt =====
-- A request written out as HTTP wants it, and read back by `parseRequest`.
pub mod Line
pub mod Headers
use winterfell.Prelude.{
  ℕ, zero, suc, ◌+◌, ◌≤◌, ◌<◌, ◌≡◌, ◌≢◌, refl, sym, ap, ◌∙◌, Bool, true, false, ◌⊎◌, inl, inr, some,
  none, List, [], ◌∷◌, ◌++◌, length, take, drop, get_or, Bytes, codes, Run, done, ◌>>=◌, arith,
  length-append, take-append, drop-append, drop-drop, append_assoc,
}
use winterfell.Base.Timestamp.{Timestamp}
use winterfell.Buffer.Search.{NoCr}
use winterfell.Http.Request.{
  Request, Method, invalid, Version, unknown, http10, http11, method_string, is_space,
}
use winterfell.Http.StringMap.{StringMap, assign}

-- No byte of the string is `c`.
abbrev pub Without : ℕ → Bytes → Type 0
Without c [] = Unit
Without c (x ∷ xs) = (x ≢ c) × Without c xs

-- What a client sends. The query starts with its question mark, if there is one.
pub record Message : Type 0 where
  pub method : Method
  pub path : Bytes
  pub query : Bytes
  pub version : Version
  pub headers : List (Bytes × Bytes)

abbrev pub version_string : Version → Bytes
version_string http11 = codes "HTTP/1.1"
version_string _ = codes "HTTP/1.0"

abbrev pub request_line : Message → Bytes
request_line m =
    method_string m.method ++ 32 ∷ ((m.path ++ m.query) ++ 32 ∷ version_string m.version)

abbrev pub header_line : Bytes × Bytes → Bytes
header_line (field, value) = field ++ b':' ∷ 32 ∷ value

-- The headers, the empty line, and what follows the request.
abbrev pub print_headers : List (Bytes × Bytes) → Bytes → Bytes
print_headers [] rest = 13 ∷ 10 ∷ rest
print_headers (h ∷ hs) rest = header_line h ++ 13 ∷ 10 ∷ print_headers hs rest

abbrev pub print_message : Message → Bytes → Bytes
print_message m rest = request_line m ++ 13 ∷ 10 ∷ print_headers m.headers rest

-- A value that has no space at either end.
abbrev pub IsTrimmed : Bytes → Type 0
IsTrimmed v =
    (v ≡ [])
    ⊎ ((is_space (get_or v 0 0) ≡ false)
        × ((n : ℕ) → length v ≡ suc n → is_space (get_or v n 0) ≡ false))

abbrev pub HeadersOk : List (Bytes × Bytes) → Type 0
HeadersOk [] = Unit
HeadersOk ((field, value) ∷ hs) =
    Without b':' field × NoCr field × NoCr value × IsTrimmed value × HeadersOk hs

-- What can be written on a request line and on header lines.
pub record IsWellFormed (m : Message) : Type 0 where
  pub method_known : m.method ≢ invalid
  pub version_known : m.version ≢ unknown
  pub path_plain : Without 32 m.path × Without b'?' m.path × NoCr m.path
  pub query_plain : Without 32 m.query × NoCr m.query
  pub query_marked : (m.query ≡ []) ⊎ ((q : Bytes) × (m.query ≡ b'?' ∷ q))
  pub headers_ok : HeadersOk m.headers

-- The headers of the request: assigned in the order in which they arrive.
abbrev pub collect : StringMap → List (Bytes × Bytes) → StringMap
collect m [] = m
collect m ((field, value) ∷ hs) = collect (assign field value m) hs
