-- ===== src/Http/Response/Render.antt =====
-- What `appendToBuffer` of winterfell/net/http/wf_http_response.cc writes, as one byte string.
use winterfell.Prelude.{
  ◌≡◌, sym, subst, ap, ◌∙◌, [], ◌∷◌, ◌++◌, length, Bytes, codes, decimal, append_assoc, append-nil,
  if◌then◌else◌, Bool-cases, inl, inr,
}
use winterfell.Buffer.{Buffer, peek, append}
use winterfell.Buffer.Content.{IsValid, append_lem}
use winterfell.Http.StringMap.{StringMap}
use winterfell.Http.Response.{
  Response, printed, crlf, append_headers, append_connection, append_to_buffer,
}

abbrev pub header_lines : StringMap → Bytes
header_lines [] = []
header_lines ((key, value) ∷ m) = key ++ (codes ": " ++ (value ++ (crlf ++ header_lines m)))

abbrev pub connection_lines : Response → Bytes
connection_lines r =
    if r.close_connection
    then codes "Connection: close" ++ crlf
    else printed (codes "Content-Length: " ++ decimal (length r.body) ++ crlf)
      ++ (codes "Connection: Keep-Alive" ++ crlf)

-- The status line, the connection headers, the other headers, an empty line, the body.
abbrev pub render : Response → Bytes
render r =
    printed (codes "HTTP/1.1 " ++ decimal r.status_code ++ codes " ")
    ++ (r.status_message
        ++ (crlf ++ (connection_lines r ++ (header_lines r.headers ++ (crlf ++ r.body)))))

-- This buffer is valid, and holds what that one held and then these bytes.
record Wrote (xs : Bytes) (b c : Buffer) : Type 0 where
  valid : IsValid c
  bytes : peek c ≡ peek b ++ xs

Wrote-append : (xs ys : Bytes) {b c : Buffer} → Wrote xs b c → Wrote (xs ++ ys) b (append ys c)
Wrote-append xs ys {b} {c} h =
    let (v, e) = append_lem ys c h.valid in
    record { valid = v; bytes = e ∙ ap (λ k. k ++ ys) h.bytes ∙ append_assoc (peek b) xs ys }

Wrote-eq : {xs ys : Bytes} {b c : Buffer} → Wrote xs b c → xs ≡ ys → Wrote ys b c
Wrote-eq {b = b} {c = c} h e = subst (λ k. Wrote k b c) e h

Wrote-first : (xs : Bytes) (b : Buffer) → IsValid b → Wrote xs b (append xs b)
Wrote-first xs b v = record { valid = (append_lem xs b v).0; bytes = (append_lem xs b v).1 }

headers-Wrote :
    (m : StringMap) (xs : Bytes) {b c : Buffer}
    → Wrote xs b c
    → Wrote (xs ++ header_lines m) b (append_headers m c)
unfolding append_headers
headers-Wrote [] xs h = Wrote-eq h (sym (append-nil xs))
headers-Wrote ((key, value) ∷ m) xs h =
    Wrote-eq
      (headers-Wrote m ((((xs ++ key) ++ codes ": ") ++ value) ++ crlf) (
        Wrote-append _ crlf
          (Wrote-append _ value (Wrote-append _ (codes ": ") (Wrote-append xs key h)))))
      (simp append_assoc)

connection-Wrote :
    (r : Response) (xs : Bytes) {b c : Buffer}
    → Wrote xs b c
    → Wrote (xs ++ connection_lines r) b (append_connection r c)
unfolding append_connection
connection-Wrote r xs h = elim (Bool-cases r.close_connection) [
  | inl e ↦ rw e (Wrote-append xs _ h)
  | inr e ↦ rw e (Wrote-eq (Wrote-append _ _ (Wrote-append xs _ h)) (append_assoc xs _ _))
]

-- On a valid buffer `appendToBuffer` appends exactly the status line, the connection headers, the
-- other headers in the order of the map, an empty line and the body, and leaves the buffer valid,
-- however often its storage is moved or grown on the way.
pub append_to_buffer_lem :
    (r : Response) (b : Buffer)
    → IsValid b
    → IsValid (append_to_buffer r b) × (peek (append_to_buffer r b) ≡ peek b ++ render r)
unfolding append_to_buffer
append_to_buffer_lem r b v =
    let status = codes "HTTP/1.1 " ++ decimal r.status_code ++ codes " " in
    let line = Wrote-append _ r.status_message (Wrote-first (printed status) b v) in
    let connected = connection-Wrote r _ (Wrote-append _ crlf line) in
    let all = Wrote-append _ r.body (Wrote-append _ crlf (headers-Wrote r.headers _ connected)) in
    (all.valid, all.bytes ∙ ap (◌++◌ (peek b)) (simp append_assoc))
