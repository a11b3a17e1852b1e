-- ===== src/Http/Context.antt =====
-- The class `HttpContext` of winterfell/net/http/wf_http_context.h and
-- winterfell/net/http/wf_http_context.cc: the state machine that parses requests.
pub mod Lines
pub mod Progress
pub mod Chunks
pub mod RoundTrip
pub mod Refused
use winterfell.Prelude.{
  ℕ, zero, suc, ◌+◌, ◌≡◌, refl, Bool, true, false, not, ◌&&◌, Option, some, none, List, [], ◌∷◌,
  length, take, drop, get_or, Bytes, bytes_eq, codes, Run, done, aborted, looping, ◌>>=◌, ◌==◌,
  if◌then◌else◌,
}
use winterfell.Base.Timestamp.{Timestamp}
use winterfell.Buffer.{Buffer, peek, readable_bytes, find_crlf, retrieve_until}
use winterfell.Http.Request.{
  Request, fresh, http10, http11, set_method, set_path, set_query, set_version, set_receive_time,
  add_header,
}

pub data State : Type 0 where
  expect_request_line expect_headers expect_body got_all : State

pub record Context : Type 0 where
  pub state : State
  pub request : Request

-- The default constructor, and what `reset` leaves.
abbrev pub initial : Context
initial = record { state = expect_request_line; request = fresh }

unfoldable pub get_all : Context → Bool
get_all c = elim c.state [ got_all ↦ true | _ ↦ false ]

unfoldable pub reset : Context → Context
reset c = record c { state = expect_request_line; request = fresh }

-- `std::find`: the offset of the first such byte, or of the end.
unfoldable pub index_of : ℕ → Bytes → ℕ
index_of c [] = 0
index_of c (x ∷ xs) = let rest = index_of c xs in if x == c then 0 else suc rest

-- `setPath` and `setQuery` on the bytes between the two spaces. The query keeps its question mark.
unfoldable pub set_target : Bytes → Request → Request
set_target target r =
    let question = index_of b'?' target in
    if not (question == length target)
    then set_query (drop question target) (set_path (take question target) r)
    else set_path target r

-- The test of the last eight bytes of the line, and the version.
unfoldable pub set_protocol : Bytes → Request → Bool × Request
set_protocol protocol r =
    let last = get_or protocol 7 0 in
    if (length protocol == 8) && bytes_eq (take 7 protocol) (codes "HTTP/1.")
    then (if last == b'1'
        then (true, set_version http11 r)
        else if last == b'0'
        then (true, set_version http10 r)
        else (false, r))
    else (false, r)

-- `processRequestLine`, on the bytes of the line. Where a space is missing, the source steps one
-- past the end, and the test of the length fails: so does it for the empty rest here.
unfoldable pub process_request_line : Request → Bytes → Run (Bool × Request)
process_request_line r line =
    let space = index_of 32 line in
    let rest = drop (space + 1) line in
    let space2 = index_of 32 rest in
    if not (space == length line)
    then (set_method (take space line) r >>= λ (known, named).
        if known
        then (let target =
              if not (space2 == length rest) then set_target (take space2 rest) named else named in
            done (set_protocol (drop (space2 + 1) rest) target))
        else done (false, named))
    else done (false, r)

-- What the parser uses of its input: the offset of the first CRLF, a number of bytes from the front,
-- and `retrieveUntil`.
pub record Source (Q : Type 0) : Type 0 where
  pub size : Q → ℕ
  pub crlf : Q → Option ℕ
  pub front : ℕ → Q → Bytes
  pub skip : ℕ → Q → Run Q

-- The input in the program: a buffer.
abbrev pub buffer_source : Source Buffer
buffer_source = record {
  size = readable_bytes;
  crlf = find_crlf;
  front = λ n b. take n (peek b);
  skip = retrieve_until;
}

module _ {Q : Type 0} (input : Source Q) (t : Timestamp) where
  -- `processRequestLine` returned, on a line of this length.
  unfoldable pub after_request_line :
      Context → Q → ℕ → Bool × Request → Run ((Bool × Bool × Context) × Q)
  after_request_line c b crlf (false, r) = done ((false, false, record c { request = r }), b)
  after_request_line c b crlf (true, r) = input.skip (crlf + 2) b >>= λ b'.
      done ((true, true, record c { state = expect_headers; request = set_receive_time t r }), b')

  -- The request line ends at this offset, if it has arrived.
  unfoldable pub take_request_line :
      Bool → Context → Q → Option ℕ → Run ((Bool × Bool × Context) × Q)
  take_request_line ok c b none = done ((false, ok, c), b)
  take_request_line ok c b (some crlf) =
      process_request_line c.request (input.front crlf b) >>= after_request_line c b crlf

  -- A header line ends at this offset, if it has arrived. A line without a colon ends the headers.
  unfoldable pub take_header_line :
      Bool → Context → Q → Option ℕ → Run ((Bool × Bool × Context) × Q)
  take_header_line ok c b none = done ((false, ok, c), b)
  take_header_line ok c b (some crlf) =
      let line = input.front crlf b in
      let colon = index_of b':' line in
      input.skip (crlf + 2) b >>= λ b'.
      if not (colon == crlf)
      then done ((true, ok, record c { request = add_header line colon c.request }), b')
      else done ((false, ok, record c { state = got_all }), b')

  -- A round of the loop: it leaves `hasMore`, `ok` and the context, and the input. In the last two
  -- states it does nothing, and `hasMore` stays set.
  unfoldable pub round_in : State → Bool → Context → Q → Run ((Bool × Bool × Context) × Q)
  round_in expect_request_line ok c b = take_request_line ok c b (input.crlf b)
  round_in expect_headers ok c b = take_header_line ok c b (input.crlf b)
  round_in expect_body ok c b = done ((true, ok, c), b)
  round_in got_all ok c b = done ((true, ok, c), b)

  -- `while (hasMore)`
  unfoldable pub parse_loop : ℕ → Bool → Context → Q → Run ((Bool × Context) × Q)
  parse_loop zero ok c b = looping
  parse_loop (suc fuel) ok c b = round_in c.state ok c b >>= λ ((has_more, ok', c'), b').
      let rest = parse_loop fuel ok' c' b' in if has_more then rest else done ((ok', c'), b')

  -- Each round but the last consumes a line, so the number of bytes bounds the rounds.
  unfoldable pub parse_request : Context → Q → Run ((Bool × Context) × Q)
  parse_request c b = parse_loop (suc (input.size b)) true c b
