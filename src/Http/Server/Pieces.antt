-- ===== src/Http/Server/Pieces.antt =====
-- `HttpServer` of winterfell/net/http/wf_http_server.cc when a request arrives in pieces: each piece goes to the
-- input buffer, and then `onMessage` is called.
use winterfell.Prelude.{
  ◌≤◌, ◌<◌, ◌≡◌, refl, sym, ap, ◌∙◌, inl, inr, Bool, true, false, ◌&&◌, both, Bool-cases, List, [],
  ◌∷◌, ◌++◌, length, Bytes, Run, done, aborted, looping, ◌>>=◌, arith, length-append, append_assoc,
  append-nil,
}
use winterfell.Base.Timestamp.{Timestamp}
use winterfell.Buffer.{Buffer, empty, peek, read_fd, received}
use winterfell.Buffer.Content.{IsValid, empty-IsValid}
use winterfell.Buffer.Queue.{Shows-done, read_fd_lem}
use winterfell.Http.Context.{
  State, expect_request_line, expect_headers, expect_body, got_all, Context, initial, parse_request,
  get_all, reset,
}
use winterfell.Http.Context.Lines.{bytes_source, parse_request-Shows}
use winterfell.Http.Context.Progress.{IsParsing}
use winterfell.Http.Context.Chunks.{is_parsing, resume, parse_request-chunks}
use winterfell.Http.Context.RoundTrip.{Message, IsWellFormed, print_message}
use winterfell.Http.Context.RoundTrip.Headers.{parse_request-print_message}
use winterfell.Http.Request.{Request}
use winterfell.Http.Server.{Call, HttpCallback, response_to, on_message}
use winterfell.Http.Server.Answer.{peek-empty, on_request-answer, answer, received_as}

IsParsing-is_parsing : (s : State) → is_parsing s ≡ true → IsParsing s
IsParsing-is_parsing expect_request_line e = tt
IsParsing-is_parsing expect_headers e = tt
IsParsing-is_parsing expect_body e = cc
IsParsing-is_parsing got_all e = cc

-- What a parse leaves.
abbrev rest_of : Run ((Bool × Context) × Bytes) → Bytes
rest_of (done (a, q)) = q
rest_of aborted = []
rest_of looping = []

module _ (t : Timestamp) (y : Bytes) (ok : Bool) (c : Context) (q : Bytes) where
  resume_on :
      (ok && is_parsing c.state) ≡ true
      → resume t y ((ok, c), q) ≡ parse_request bytes_source t c (q ++ y)
  resume_on b = rw b refl

  resume_off : (ok && is_parsing c.state) ≡ false → resume t y ((ok, c), q) ≡ done ((ok, c), q ++ y)
  resume_off b = rw b refl

module _ (t : Timestamp) (c : Context) (p : IsParsing c.state) where
  -- Bytes that lack some of the request: the call succeeds and waits, and the rest of the bytes gives the result.
  pub halfway :
      (q y rest : Bytes) (final : Context)
      → parse_request bytes_source t c (q ++ y) ≡ done ((true, final), rest)
      → length rest < length y
      → (c' : Context) × (q' : Bytes) × (parse_request bytes_source t c q ≡ done ((true, c'), q'))
        × IsParsing c'.state
        × (parse_request bytes_source t c' (q' ++ y) ≡ done ((true, final), rest))
  halfway q y rest final e lt =
      go (parse_request bytes_source t c q) refl (sym (parse_request-chunks t c q y p) ∙ e)
    where
      go :
          (r : Run ((Bool × Context) × Bytes))
          → parse_request bytes_source t c q ≡ r
          → (r >>= resume t y) ≡ done ((true, final), rest)
          → (c' : Context) × (q' : Bytes) × (parse_request bytes_source t c q
              ≡ done ((true, c'), q'))
            × IsParsing c'.state
            × (parse_request bytes_source t c' (q' ++ y) ≡ done ((true, final), rest))
      go (done ((ok, c'), q')) h e = elim (Bool-cases (ok && is_parsing c'.state)) [
        | inl b ↦
            let (o, s) = both ok (is_parsing c'.state) b in
            (
              c',
              q',
              h ∙ ap (λ k. done ((k, c'), q')) o,
              IsParsing-is_parsing c'.state s,
              sym (resume_on t y ok c' q' b) ∙ e,
            )
        | inr b ↦ absurd (
            omega (
              arith,
              lt,
              ap (λ (r : Run ((Bool × Context) × Bytes)). length (rest_of r))
                  (sym (resume_off t y ok c' q' b) ∙ e),
              length-append q' y,
            ))
      ]
      go aborted h e = cc
      go looping h e = cc

IsParsing-get_all : (c : Context) → IsParsing c.state → get_all c ≡ false
unfolding get_all
IsParsing-get_all c p = go c.state p
  where
    go : (s : State) → IsParsing s → elim s [ got_all ↦ true | _ ↦ false ] ≡ false
    go expect_request_line p = refl
    go expect_headers p = refl
    go expect_body p = elim p [ ]
    go got_all p = elim p [ ]

module _ (cb : HttpCallback) (t : Timestamp) where
  -- Each piece is read into the input buffer, and `onMessage` called: the calls on the connection, in order, and what is left.
  unfoldable pub serve : List Bytes → Context → Buffer → Run ((List Call × Context) × Buffer)
  serve [] c b = done (([], c), b)
  serve (piece ∷ pieces) c b =
      on_message cb t c ((read_fd (received piece) b).1) >>= λ ((calls, c'), b').
      serve pieces c' b' >>= λ ((more, c''), b''). done ((calls ++ more, c''), b'')

  -- A message that completes nothing is answered by nothing.
  waits :
      (c c' : Context) (b : Buffer) (q' : Bytes)
      → IsValid b
      → parse_request bytes_source t c (peek b) ≡ done ((true, c'), q')
      → IsParsing c'.state
      → (b' : Buffer) × (on_message cb t c b ≡ done (([], c'), b')) × IsValid b' × (peek b' ≡ q')
  unfolding on_message
  waits c c' b q' v e p =
      let (b', run, valid, kept) = Shows-done (parse_request-Shows t c b v) e in
      (b', rw (run, IsParsing-get_all c' p) refl, valid, kept)

  abbrev whole : Request → Context
  whole req = record { state = got_all; request = req }

  -- A message that completes a request is answered once.
  completes :
      (c : Context) (req : Request) (b : Buffer) (rest : Bytes)
      → IsValid b
      → parse_request bytes_source t c (peek b) ≡ done ((true, whole req), rest)
      → (b' : Buffer) × (on_message cb t c b ≡ done ((answer (response_to cb req), initial), b'))
        × IsValid b'
        × (peek b' ≡ rest)
  unfolding on_message get_all reset
  completes c req b rest v e =
      let (b', run, valid, kept) = Shows-done (parse_request-Shows t c b v) e in
      (b', rw (run, on_request-answer cb req) refl, valid, kept)

  abbrev pub concat : List Bytes → Bytes → Bytes
  concat [] last = last
  concat (p ∷ ps) last = p ++ concat ps last

  length-concat : (pieces : List Bytes) (last : Bytes) → length last ≤ length (concat pieces last)
  length-concat [] last = omega arith
  length-concat (x ∷ xs) last =
      omega (arith, length-concat xs last, length-append x (concat xs last))

  -- One piece that lacks some of the request.
  one_waits :
      (x y : Bytes) (c : Context) (b : Buffer) (req : Request) (rest : Bytes)
      → IsParsing c.state
      → IsValid b
      → length rest < length y
      → parse_request bytes_source t c (peek b ++ (x ++ y)) ≡ done ((true, whole req), rest)
      → (c' : Context) × (b' : Buffer) × (on_message cb t c ((read_fd (received x) b).1)
          ≡ done (([], c'), b'))
        × IsParsing c'.state
        × IsValid b'
        × (parse_request bytes_source t c' (peek b' ++ y) ≡ done ((true, whole req), rest))
  one_waits x y c b req rest p v lt e =
      let (v', shown) = read_fd_lem (received x) b v in
      let read = (read_fd (received x) b).1 in
      let (c', q', run, p', rest_run) =
        halfway t c p (peek read) y rest (whole req)
          (ap (λ k. parse_request bytes_source t c (k ++ y)) shown
            ∙ ap (parse_request bytes_source t c) (append_assoc (peek b) x y)
            ∙ e)
          lt in
      let (b', said, valid, kept) = waits c c' read q' v' run p' in
      (c', b', said, p', valid, ap (λ k. parse_request bytes_source t c' (k ++ y)) kept ∙ rest_run)

  serve_from :
      (pieces : List Bytes) (last : Bytes) (c : Context) (b : Buffer) (req : Request) (rest : Bytes)
      → IsParsing c.state
      → IsValid b
      → length rest < length last
      → parse_request bytes_source t c (peek b ++ concat pieces last)
        ≡ done ((true, whole req), rest)
      → (b' : Buffer) × (serve (pieces ++ last ∷ []) c b
          ≡ done ((answer (response_to cb req), initial), b'))
        × IsValid b'
        × (peek b' ≡ rest)
  unfolding serve
  serve_from [] last c b req rest p v lt e =
      let (v', shown) = read_fd_lem (received last) b v in
      let (b', run, valid, kept) =
        completes c req (read_fd (received last) b).1 rest v'
          (ap (parse_request bytes_source t c) shown ∙ e) in
      (b', rw (run, append-nil (answer (response_to cb req))) refl, valid, kept)
  serve_from (x ∷ xs) last c b req rest p v lt e =
      let (c', b', said, p', valid, later) =
        one_waits x (concat xs last) c b req rest p v (omega (arith, length-concat xs last)) e in
      let (b'', served, valid', kept') = serve_from xs last c' b' req rest p' valid lt later in
      (b'', rw (said, served) refl, valid', kept')

  -- The pieces but the last are answered by nothing.
  serve_waits :
      (pieces : List Bytes) (last : Bytes) (c : Context) (b : Buffer) (req : Request) (rest : Bytes)
      → IsParsing c.state
      → IsValid b
      → length rest < length last
      → parse_request bytes_source t c (peek b ++ concat pieces last)
        ≡ done ((true, whole req), rest)
      → (c' : Context) × (b' : Buffer) × (serve pieces c b ≡ done (([], c'), b'))
  unfolding serve
  serve_waits [] last c b req rest p v lt e = (c, b, refl)
  serve_waits (x ∷ xs) last c b req rest p v lt e =
      let (c', b', said, p', valid, later) =
        one_waits x (concat xs last) c b req rest p v (omega (arith, length-concat xs last)) e in
      let (c'', b'', served) = serve_waits xs last c' b' req rest p' valid lt later in
      (c'', b'', rw (said, served) refl)

  -- A well-formed request arrives in any pieces, all read at one time, at an empty input and a fresh context, with other
  -- bytes behind it, and the last piece begins before its end: nothing is sent before the last piece; then
  -- exactly one response is sent, that of the user's callback to the request as it was sent, and the connection is shut
  -- down exactly if the response says so. The context is fresh again, and the bytes behind the request are left.
  pub serve-pieces :
      (m : Message) (pieces : List Bytes) (last rest : Bytes)
      → IsWellFormed m
      → concat pieces last ≡ print_message m rest
      → length rest < length last
      → ((c : Context) × (b : Buffer) × (serve pieces initial empty ≡ done (([], c), b)))
        × ((b : Buffer) × (serve (pieces ++ last ∷ []) initial empty
              ≡ done ((answer (response_to cb (received_as t m)), initial), b))
            × IsValid b
            × (peek b ≡ rest))
  serve-pieces m pieces last rest w e lt =
      let parsed =
        ap (λ k. parse_request bytes_source t initial (k ++ concat pieces last)) peek-empty
        ∙ ap (parse_request bytes_source t initial) e
        ∙ parse_request-print_message t m rest w in
      (
        serve_waits pieces last initial empty (received_as t m) rest tt empty-IsValid lt parsed,
        serve_from pieces last initial empty (received_as t m) rest tt empty-IsValid lt parsed,
      )
