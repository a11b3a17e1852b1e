-- ===== src/Http/Server/Answer.antt =====
-- What `HttpServer` of winterfell/net/http/wf_http_server.cc does with a request.
use winterfell.Prelude.{◌≡◌, refl, ap, ◌∙◌, List, [], ◌∷◌, Bytes, done, if◌then◌else◌}
use winterfell.Base.Timestamp.{Timestamp}
use winterfell.Buffer.{Buffer, empty, peek, retrieve_as_string}
use winterfell.Buffer.Content.{IsValid, empty-IsValid}
use winterfell.Buffer.Queue.{Shows-done}
use winterfell.Http.Request.{Request}
use winterfell.Http.Context.{initial, parse_request, get_all, reset}
use winterfell.Http.Context.Lines.{bytes_source, parse_request-Shows}
use winterfell.Http.Context.RoundTrip.{Message, IsWellFormed, print_message, collect}
use winterfell.Http.Context.RoundTrip.Headers.{parse_request-print_message}
use winterfell.Http.Response.{Response}
use winterfell.Http.Response.Render.{render, append_to_buffer_lem}
use winterfell.Http.Server.{Call, send, shutdown, HttpCallback, response_to, on_request, on_message}

-- The request that the parser makes of a message received at a time.
abbrev pub received_as : Timestamp → Message → Request
received_as t m = record {
  method = m.method;
  version = m.version;
  path = m.path;
  query = m.query;
  receive_time = t;
  headers = collect [] m.headers;
}

-- One response is sent, and the connection is shut down if the response says so.
abbrev pub answer : Response → List Call
answer response = send (render response) ∷ (if response.close_connection then shutdown ∷ [] else [])

pub peek-empty : peek empty ≡ []
unfolding empty
peek-empty = refl

pub on_request-answer :
    (cb : HttpCallback) (req : Request) → on_request cb req ≡ answer (response_to cb req)
unfolding on_request retrieve_as_string
on_request-answer cb req =
    rw ((append_to_buffer_lem (response_to cb req) empty empty-IsValid).1, peek-empty)

-- When a fresh context finds a well-formed request at the front of its input, `onMessage` sends
-- exactly one response, that of the user's callback to the request as it was sent, shuts the
-- connection down exactly if the response says so, leaves a fresh context, and leaves all the bytes
-- behind the request in the input: a second request among them is not answered by this call.
pub on_message-answer :
    (cb : HttpCallback) (t : Timestamp) (m : Message) (rest : Bytes) (b : Buffer)
    → IsWellFormed m
    → IsValid b
    → peek b ≡ print_message m rest
    → (left : Buffer) × (on_message cb t initial b
        ≡ done ((answer (response_to cb (received_as t m)), initial), left))
      × IsValid left
      × (peek left ≡ rest)
unfolding on_message get_all reset
on_message-answer cb t m rest b w v e =
    let (left, run, valid, kept) =
      Shows-done (parse_request-Shows t initial b v)
        (ap (parse_request bytes_source t initial) e ∙ parse_request-print_message t m rest w) in
    (left, rw (run, on_request-answer cb (received_as t m)), valid, kept)
