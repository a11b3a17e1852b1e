-- ===== src/Tests/Requests.antt =====
-- The theorems on the HTTP layer at a concrete request.
use winterfell.Prelude.{
  drop, ℕ, zero, suc, ◌≡◌, ◌≢◌, refl, [], ◌∷◌, ◌++◌, inr, true, false, get_or, Bytes, codes,
  decimal, decimal_onto, done, aborted, looping, arith, ◌>>=◌,
}
use winterfell.Prelude.Int.{pos}
use winterfell.Base.Timestamp.{Timestamp}
use winterfell.Buffer.{Buffer, empty, peek, append, search_crlf}
use winterfell.Buffer.Content.{IsValid, empty-IsValid, append_lem}
use winterfell.Buffer.Queue.{Shows}
use winterfell.Http.Request.{
  method_string, Request, fresh, get, http11, is_space, set_method, parse_method,
}
use winterfell.Http.Context.{
  Context, initial, got_all, buffer_source, parse_request, process_request_line, index_of,
  set_target, set_protocol,
}
use winterfell.Http.Context.Lines.{bytes_source, crlf_of, parse_request-Shows}
use winterfell.Http.Context.Progress.{parse_request-ends}
use winterfell.Http.Context.Chunks.{resume, parse_request-chunks}
use winterfell.Http.Context.Refused.{refused, refused-again}
use winterfell.Http.Context.RoundTrip.{Message, IsWellFormed, IsTrimmed, print_message}
use winterfell.Http.Context.RoundTrip.Headers.{parse_request-print_message}
use winterfell.Http.Response.{append_to_buffer, fresh_response}
use winterfell.Http.Response.Render.{render, append_to_buffer_lem}
use winterfell.Http.Server.{default_http_callback, response_to, on_message}
use winterfell.Http.Server.Answer.{received_as, answer, on_message-answer}
use winterfell.Http.Server.Pieces.{serve, serve-pieces}

abbrev noon : Timestamp
noon = record { micro_seconds = pos 5 }

abbrev ls : Message
ls = record {
  method = get;
  path = codes "/a";
  query = codes "?ls";
  version = http11;
  headers = (codes "Host", codes "x") ∷ [];
}

abbrev two_requests : Bytes
two_requests = print_message ls (codes "GET")

x-IsTrimmed : IsTrimmed (codes "x")
unfolding is_space
x-IsTrimmed = inr (refl, only)
  where
    only : (n : ℕ) → 1 ≡ suc n → is_space (get_or (codes "x") n 0) ≡ false
    only zero e = refl
    only (suc n) e = absurd (omega arith)

ls-IsWellFormed : IsWellFormed ls
ls-IsWellFormed = record {
  method_known = λ e. cc;
  version_known = λ e. cc;
  path_plain = omega arith;
  query_plain = omega arith;
  query_marked = inr (codes "ls", refl);
  headers_ok = (omega arith, omega arith, omega arith, x-IsTrimmed, tt);
}

abbrev arrived_buffer : Buffer
arrived_buffer = append two_requests empty

arrived-IsValid : IsValid arrived_buffer
arrived-IsValid = (append_lem two_requests empty empty-IsValid).0

peek-empty_bytes : peek empty ≡ []
unfolding empty
peek-empty_bytes = refl

arrived-peek : peek arrived_buffer ≡ two_requests
arrived-peek = rw ((append_lem two_requests empty empty-IsValid).1, peek-empty_bytes)

on_message-answer_example :
    (left : Buffer) × (on_message default_http_callback noon initial arrived_buffer
      ≡ done ((answer (response_to default_http_callback (received_as noon ls)), initial), left))
    × IsValid left
    × (peek left ≡ codes "GET")
on_message-answer_example =
    on_message-answer default_http_callback noon ls (codes "GET") arrived_buffer ls-IsWellFormed
      arrived-IsValid arrived-peek

parse_request-print_message_example :
    parse_request bytes_source noon initial two_requests
    ≡ done ((true, record { state = got_all; request = received_as noon ls }), codes "GET")
parse_request-print_message_example =
    parse_request-print_message noon ls (codes "GET") ls-IsWellFormed

parse_request-chunks_example :
    parse_request bytes_source noon initial (codes "GET /a" ++ codes "?ls H")
    ≡ (parse_request bytes_source noon initial (codes "GET /a") >>= resume noon (codes "?ls H"))
parse_request-chunks_example = parse_request-chunks noon initial (codes "GET /a") (codes "?ls H") tt

parse_request-Shows_example :
    Shows
      (parse_request buffer_source noon initial arrived_buffer)
      (parse_request bytes_source noon initial (peek arrived_buffer))
parse_request-Shows_example = parse_request-Shows noon initial arrived_buffer arrived-IsValid

parse_request-ends_example : parse_request buffer_source noon initial arrived_buffer ≢ looping
parse_request-ends_example = parse_request-ends noon initial arrived_buffer arrived-IsValid tt

-- A context that has its request.
abbrev complete : Context
complete = record { state = got_all; request = fresh }

-- "GET / HTTP/2.0", and the request that the context keeps.
abbrev wrong_version : Bytes
wrong_version = codes "GET / HTTP/2.0" ++ 13 ∷ 10 ∷ []

abbrev kept_request : Request
kept_request = record fresh { method = get; path = codes "/" }

refused-again_example :
    (parse_request bytes_source noon initial wrong_version
      ≡ done ((false, refused kept_request), wrong_version))
    × ((ys : Bytes)
        → parse_request bytes_source noon (refused kept_request) (wrong_version ++ ys) ≡ aborted)
unfolding crlf_of search_crlf process_request_line index_of set_method parse_method set_target
    set_protocol
refused-again_example =
    refused-again noon wrong_version {i = 14} {r = kept_request} refl refl (λ e. cc)

append_to_buffer_lem_example :
    IsValid (append_to_buffer (fresh_response true) empty)
    × (peek (append_to_buffer (fresh_response true) empty)
        ≡ peek empty ++ render (fresh_response true))
append_to_buffer_lem_example = append_to_buffer_lem (fresh_response true) empty empty-IsValid

decimal_404 : decimal 404 ≡ codes "404"
unfolding decimal decimal_onto
decimal_404 = refl

-- The first request of the two arrives in three pieces, the last with the rest behind it.
abbrev last_piece : Bytes
last_piece = drop 11 two_requests

serve-pieces_example :
    ((c : Context) × (b : Buffer) × (serve default_http_callback noon
          (codes "GET /a" ∷ codes "?ls H" ∷ [])
          initial
          empty
        ≡ done (([], c), b)))
    × ((b : Buffer) × (serve default_http_callback noon
            (codes "GET /a" ∷ codes "?ls H" ∷ last_piece ∷ [])
            initial
            empty
          ≡ done ((answer (response_to default_http_callback (received_as noon ls)), initial), b))
        × IsValid b
        × (peek b ≡ codes "GET"))
unfolding method_string
serve-pieces_example =
    serve-pieces default_http_callback noon ls (codes "GET /a" ∷ codes "?ls H" ∷ []) last_piece
      (codes "GET") ls-IsWellFormed refl (omega arith)
