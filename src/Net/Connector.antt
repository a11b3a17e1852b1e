-- ===== src/Net/Connector.antt =====
-- The class `Connector` of winterfell/net/wf_connector.h and winterfell/net/wf_connector.cc: connecting
-- to a server, with retries. The operations run in the loop's thread and return the requests that
-- they make, in order; what the system calls return is an argument.
pub mod Attempts
pub mod Safety
use winterfell.Prelude.{
  ℕ, ◌*◌, Bool, true, false, List, [], ◌∷◌, ◌++◌, Option, some, none, Run, done, aborted, looping,
  ◌>>=◌, ◌>>◌, assert, follow, min, ◌==◌, if◌then◌else◌,
}
use winterfell.Net.Channel.{Channel, fresh_channel, enable_writing, disable_all}

pub data State : Type 0 where
  disconnected connecting connected : State

abbrev pub is_state : State → State → Bool
is_state disconnected disconnected = true
is_state connecting connecting = true
is_state connected connected = true
is_state s t = false

abbrev pub max_retry_delay : ℕ
max_retry_delay = 30_000

abbrev pub init_retry_delay : ℕ
init_retry_delay = 500

pub record Connector : Type 0 where
  -- `connect_`
  pub wanted : Bool
  pub state : State
  pub channel : Option Channel
  pub retry_delay : ℕ

-- What an operation asks of the loop, of the system, or of the owner.
pub data Effect : Type 0 where
  -- run `startInLoop`, now if in the loop's thread
  run_start queue_stop queue_reset : Effect
  -- run `startInLoop` after this many milliseconds
  start_after : ℕ → Effect
  close_socket new_connection : ℕ → Effect
  -- `enableWriting` and `disableAll` update the poller, `remove` takes the descriptor out of it
  polls removed : Channel → Effect

-- An operation's result: the requests and the new state.
abbrev pub Step : Type 0
Step = Run (List Effect × Connector)

-- More requests, before those that the rest makes.
abbrev pub tell : List Effect → Step → Step
tell es (done (fs, c)) = done (es ++ fs, c)
tell es aborted = aborted
tell es looping = looping

-- The constructor.
abbrev pub fresh_connector : Connector
fresh_connector = record {
  wanted = false;
  state = disconnected;
  channel = none;
  retry_delay = init_retry_delay;
}

unfoldable pub start : Connector → Step
start c = done (run_start ∷ [], record c { wanted = true })

unfoldable pub stop : Connector → Step
stop c = done (queue_stop ∷ [], record c { wanted = false })

unfoldable pub retry : ℕ → Connector → Step
retry sock c =
    if c.wanted
    then done (
      close_socket sock ∷ start_after c.retry_delay ∷ [],
      record c { state = disconnected; retry_delay = min (c.retry_delay * 2) max_retry_delay },
    )
    else done (close_socket sock ∷ [], record c { state = disconnected })

-- `removeAndResetChannel`: a null channel must not be followed. The caller goes on with the socket.
unfoldable pub remove_and_reset_channel : Connector → (ℕ → Connector → Step) → Step
remove_and_reset_channel c k = do
  ch ← follow c.channel
  let off = disable_all ch
  tell (polls off ∷ removed off ∷ queue_reset ∷ []) (k off.fd (record c { channel = some off }))

unfoldable pub reset_channel : Connector → Step
reset_channel c = done ([], record c { channel = none })

unfoldable pub stop_in_loop : Connector → Step
stop_in_loop c =
    if is_state c.state connecting
    then remove_and_reset_channel (record c { state = disconnected }) retry
    else done ([], c)

-- The error numbers that `connect` tells apart; `other` stands for the rest.
pub data ConnectResult : Type 0 where
  success in_progress interrupted already_connected : ConnectResult
  again address_in_use address_not_available refused unreachable other : ConnectResult

unfoldable pub begin_connecting : ℕ → Connector → Step
begin_connecting sock c = elim c.channel [
  | none ↦
      let ch = enable_writing (fresh_channel sock) in
      done (polls ch ∷ [], record c { state = connecting; channel = some ch })
  | some ch ↦ aborted
]

-- `connect`, with the new socket.
unfoldable pub connect : ℕ → ConnectResult → Connector → Step
connect sock success c = begin_connecting sock c
connect sock in_progress c = begin_connecting sock c
connect sock interrupted c = begin_connecting sock c
connect sock already_connected c = begin_connecting sock c
connect sock again c = retry sock c
connect sock address_in_use c = retry sock c
connect sock address_not_available c = retry sock c
connect sock refused c = retry sock c
connect sock unreachable c = retry sock c
connect sock other c = done (close_socket sock ∷ [], c)

unfoldable pub start_in_loop : ℕ → ConnectResult → Connector → Step
start_in_loop sock r c =
    assert (is_state c.state disconnected) >> (if c.wanted then connect sock r c else done ([], c))

unfoldable pub restart : ℕ → ConnectResult → Connector → Step
restart sock r c =
    start_in_loop sock r
      (record c { wanted = true; state = disconnected; retry_delay = init_retry_delay })

-- `handlewrite`, with the pending error of the socket.
unfoldable pub handle_write : ℕ → Connector → Step
handle_write err c =
    if is_state c.state connecting
    then remove_and_reset_channel c (λ sock d.
      if err == 0
      then done (
        (if d.wanted then new_connection sock else close_socket sock) ∷ [],
        record d { state = connected },
      )
      else retry sock d)
    else assert (is_state c.state disconnected) >> done ([], c)

unfoldable pub handle_error : Connector → Step
handle_error c =
    if is_state c.state connecting then remove_and_reset_channel c retry else done ([], c)
