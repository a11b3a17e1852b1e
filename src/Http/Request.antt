-- ===== src/Http/Request.antt =====
-- The class `HttpRequest` of winterfell/net/http/wf_http_request.h. A pair of pointers is the string
-- of the bytes between them.
use winterfell.Prelude.{
  ℕ, zero, suc, ◌+◌, Bool, true, false, ◌&&◌, ◌||◌, some, none, [], ◌∷◌, length, take, drop, get_or,
  Bytes, bytes_eq, codes, Run, done, ◌>>◌, assert, leb, ◌==◌, if◌then◌else◌,
}
use winterfell.Base.Timestamp.{Timestamp, zero_time}
use winterfell.Http.StringMap.{StringMap, assign, find}

pub data Method : Type 0 where
  invalid get post head put delete : Method

pub data Version : Type 0 where
  unknown http10 http11 : Version

pub record Request : Type 0 where
  pub method : Method
  pub version : Version
  pub path : Bytes
  pub query : Bytes
  pub receive_time : Timestamp
  pub headers : StringMap

-- The default constructor.
abbrev pub fresh : Request
fresh = record {
  method = invalid;
  version = unknown;
  path = [];
  query = [];
  receive_time = zero_time;
  headers = [];
}

-- The ladder of comparisons in `setMethod`.
unfoldable pub parse_method : Bytes → Method
parse_method m =
    if bytes_eq m (codes "GET")
    then get
    else if bytes_eq m (codes "POST")
    then post
    else if bytes_eq m (codes "HEAD")
    then head
    else if bytes_eq m (codes "PUT")
    then put
    else if bytes_eq m (codes "DELETE")
    then delete
    else invalid

abbrev pub is_invalid : Method → Bool
is_invalid invalid = true
is_invalid _ = false

abbrev pub is_valid : Method → Bool
is_valid invalid = false
is_valid _ = true

-- `setMethod`: what it returns, and the request after it. It asserts that no method was set.
unfoldable pub set_method : Bytes → Request → Run (Bool × Request)
set_method m r = do
  assert (is_invalid r.method)
  done (is_valid (parse_method m), record r { method = parse_method m })

unfoldable pub method_string : Method → Bytes
method_string get = codes "GET"
method_string post = codes "POST"
method_string head = codes "HEAD"
method_string put = codes "PUT"
method_string delete = codes "DELETE"
method_string invalid = codes "UNKNOWN"

abbrev pub set_version : Version → Request → Request
set_version v r = record r { version = v }

abbrev pub set_path : Bytes → Request → Request
set_path p r = record r { path = p }

abbrev pub set_query : Bytes → Request → Request
set_query q r = record r { query = q }

abbrev pub set_receive_time : Timestamp → Request → Request
set_receive_time t r = record r { receive_time = t }

-- `isspace` of the C locale
unfoldable pub is_space : ℕ → Bool
is_space c = c == 32 || (leb 9 c && leb c 13)

-- `while (colon < end && isspace(*colon)) ++colon`
unfoldable pub skip_spaces : Bytes → Bytes
skip_spaces [] = []
skip_spaces (c ∷ cs) = let rest = skip_spaces cs in if is_space c then rest else c ∷ cs

-- The loop that shortens `value` while its last byte is a space; its size is the number.
unfoldable pub trim_end : ℕ → Bytes → Bytes
trim_end zero value = []
trim_end (suc n) value =
    let shorter = trim_end n value in
    if is_space (get_or value n 0) then shorter else take (suc n) value

-- `addHeader(start, colon, end)`: the line from `start` to `end`, and the offset of the colon.
unfoldable pub add_header : Bytes → ℕ → Request → Request
add_header line colon r =
    let field = take colon line in
    let value = skip_spaces (drop (colon + 1) line) in
    record r { headers = assign field (trim_end (length value) value) r.headers }

unfoldable pub get_header : Bytes → Request → Bytes
get_header field r = elim (find field r.headers) [ none ↦ [] | some value ↦ value ]

unfoldable pub swap : Request → Request → Request × Request
swap r that = (that, r)
