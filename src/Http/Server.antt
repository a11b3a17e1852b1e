-- ===== src/Http/Server.antt =====
-- The class `HttpServer` of winterfell/net/http/wf_http_server.h and
-- winterfell/net/http/wf_http_server.cc. What a callback asks of its connection is returned as a list
-- of calls; the user's callback fills in the response.
pub mod Answer
pub mod Pieces
use winterfell.Prelude.{
  ◌≡◌, Bool, true, false, ◌&&◌, ◌||◌, not, List, [], ◌∷◌, ◌++◌, Bytes, codes, bytes_eq, Run, done,
  ◌>>=◌, if◌then◌else◌,
}
use winterfell.Base.Timestamp.{Timestamp}
use winterfell.Buffer.{Buffer, empty, retrieve_as_string}
use winterfell.Http.Request.{Request, Version, http10, get_header}
use winterfell.Http.Context.{Context, buffer_source, parse_request, get_all, reset}
use winterfell.Http.Response.{Response, fresh_response, not_found, crlf, append_to_buffer}

-- A call on the connection.
pub data Call : Type 0 where
  send : Bytes → Call
  shutdown : Call

abbrev pub HttpCallback : Type 0
HttpCallback = Request → Response → Response

-- `detail::defaultHttpCallback`
unfoldable pub default_http_callback : HttpCallback
default_http_callback req resp = record resp {
  status_code = not_found;
  status_message = codes "Not Found";
  close_connection = true;
}

abbrev pub is_http10 : Version → Bool
is_http10 http10 = true
is_http10 _ = false

-- Whether the client wants the connection closed.
unfoldable pub wants_close : Request → Bool
wants_close req =
    let connection = get_header (codes "Connection") req in
    bytes_eq connection (codes "close")
    || (is_http10 req.version && not (bytes_eq connection (codes "Keep-Alive")))

abbrev pub bad_request : Bytes
bad_request = codes "HTTP/1.1 400 Bad Request" ++ crlf ++ crlf

module _ (callback : HttpCallback) where
  -- The response that `onRequest` sends.
  unfoldable pub response_to : Request → Response
  response_to req = callback req (fresh_response (wants_close req))

  unfoldable pub on_request : Request → List Call
  on_request req =
      let response = response_to req in
      let message = (retrieve_as_string (append_to_buffer response empty)).0 in
      send message ∷ (if response.close_connection then shutdown ∷ [] else [])

  -- The calls, the connection's context and its input buffer after `onMessage`.
  unfoldable pub on_message : Timestamp → Context → Buffer → Run ((List Call × Context) × Buffer)
  on_message t context buf = parse_request buffer_source t context buf >>= λ ((ok, parsed), left).
      let refusal = if ok then [] else send bad_request ∷ shutdown ∷ [] in
      done (
        if get_all parsed
        then ((refusal ++ on_request parsed.request, reset parsed), left)
        else ((refusal, parsed), left))
