-- ===== src/Http/Response.antt =====
-- The class `HttpResponse` of winterfell/net/http/wf_http_response.h and
-- winterfell/net/http/wf_http_response.cc.
pub mod Render
use winterfell.Prelude.{
  ℕ, zero, suc, ◌+◌, ◌/◌, ◌%◌, Bool, true, false, List, [], ◌∷◌, ◌++◌, length, take, Bytes, codes,
  decimal, ltb, if◌then◌else◌,
}
use winterfell.Buffer.{Buffer, append}
use winterfell.Http.StringMap.{StringMap, assign}

pub record Response : Type 0 where
  pub headers : StringMap
  pub status_code : ℕ
  pub status_message : Bytes
  pub close_connection : Bool
  pub body : Bytes

-- `HttpStatusCode`
abbrev pub unknown_status : ℕ
unknown_status = 0

abbrev pub not_found : ℕ
not_found = 404

-- The constructor.
abbrev pub fresh_response : Bool → Response
fresh_response close = record {
  headers = [];
  status_code = unknown_status;
  status_message = [];
  close_connection = close;
  body = [];
}

unfoldable pub add_header : Bytes → Bytes → Response → Response
add_header key value r = record r { headers = assign key value r.headers }

unfoldable pub set_content_type : Bytes → Response → Response
unfolding add_header
set_content_type content_type r = add_header (codes "Content-Type") content_type r

-- `snprintf(buf, sizeof buf, …)` with the 32 bytes of `buf`.
unfoldable pub printed : Bytes → Bytes
printed text = take 31 text

abbrev pub crlf : Bytes
crlf = 13 ∷ 10 ∷ []

-- The loop over the headers.
unfoldable pub append_headers : StringMap → Buffer → Buffer
append_headers [] output = output
append_headers ((key, value) ∷ m) output =
    append_headers m (append crlf (append value (append (codes ": ") (append key output))))

-- The connection headers: without "close" the length of the body is told.
unfoldable pub append_connection : Response → Buffer → Buffer
append_connection r output =
    if r.close_connection
    then append (codes "Connection: close" ++ crlf) output
    else append (codes "Connection: Keep-Alive" ++ crlf)
        (append (printed (codes "Content-Length: " ++ decimal (length r.body) ++ crlf)) output)

unfoldable pub append_to_buffer : Response → Buffer → Buffer
append_to_buffer r output =
    let status =
      append (printed (codes "HTTP/1.1 " ++ decimal r.status_code ++ codes " ")) output in
    let line = append crlf (append r.status_message status) in
    let headed = append_headers r.headers (append_connection r line) in
    append r.body (append crlf headed)
