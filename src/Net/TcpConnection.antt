-- ===== src/Net/TcpConnection.antt =====
-- The class `TcpConnection` of winterfell/net/wf_tcp_connection.h and
-- winterfell/net/wf_tcp_connection.cc, as it runs in the thread of its loop, but
-- for the part of `shutdown` that another thread does. What a method asks of
-- the socket, the poller and the callbacks is returned as a list of effects; what `::write` and
-- `readv` do is an argument.
pub mod Output
pub mod History
pub mod Flush
pub mod Wire
pub mod Closing
use winterfell.Prelude.{
  ℕ, ◌+◌, ◌-◌, ◌≡◌, Bool, true, false, not, ◌&&◌, ◌||◌, List, [], ◌∷◌, ◌++◌, length, take, drop,
  Bytes, Run, done, aborted, ◌>>=◌, ◌>>◌, assert, ltb, ◌==◌, if◌then◌else◌,
}
use winterfell.Buffer.{
  Buffer, empty, peek, readable_bytes, append, retrieve, read_fd, ReadResult, failed, received,
}
use winterfell.Net.Channel.{
  Channel, fresh_channel, enable_reading, enable_writing, disable_writing, disable_all, is_writing,
}

-- `StateE`
pub data State : Type 0 where
  connecting connected disconnecting disconnected : State

pub record Connection : Type 0 where
  pub state : State
  pub channel : Channel
  pub input : Buffer
  pub output : Buffer
  -- whether `writeCompleteCallback_` is set
  pub notifies : Bool

pub data Effect : Type 0 where
  -- bytes that the socket took
  sent : Bytes → Effect
  -- `Channel::update` with this mask
  polls : ℕ → Effect
  -- `writeCompleteCallback_`, queued in the loop
  completed : Effect
  -- `Socket::shutdownWrite`
  shut_write : Effect
  -- `connectionCallback_`, `messageCallback_`, `closeCallback_`
  established messages closes : Effect
  -- `EventLoop::removeChannel`
  removes : Effect

-- `::write` returned a count, or -1 with this errno.
pub data WriteResult : Type 0 where
  wrote : ℕ → WriteResult
  write_failed : ℕ → WriteResult

-- The constructor. The three callbacks of the channel that it sets, and the read callback.
unfoldable pub fresh_connection : ℕ → Bool → Connection
fresh_connection fd notifies = record {
  state = connecting;
  channel = record (fresh_channel fd) {
    has_read = true;
    has_write = true;
    has_error = true;
    has_close = true;
  };
  input = empty;
  output = empty;
  notifies = notifies;
}

abbrev pub with_channel : (Channel → Channel) → Connection → Connection
with_channel f c = record c { channel = f c.channel }

-- `channel_->enableWriting()` and the like: the mask changes, and the poller hears of it.
abbrev pub polling : (Channel → Channel) → Connection → List Effect × Connection
polling f c = (polls ((f c.channel).events) ∷ [], with_channel f c)

-- Queue the callback, if it is set.
abbrev pub notify : Connection → List Effect
notify c = if c.notifies then completed ∷ [] else []

abbrev pub is_connected : State → Bool
is_connected connected = true
is_connected _ = false

abbrev pub is_disconnecting : State → Bool
is_disconnecting disconnecting = true
is_disconnecting _ = false

-- `enableReadInLoop`
unfoldable pub enable_read_in_loop : Connection → List Effect × Connection
enable_read_in_loop c = polling enable_reading c

unfoldable pub shutdown_in_loop : Connection → List Effect
shutdown_in_loop c = if not (is_writing c.channel) then shut_write ∷ [] else []

-- `sendInLoop`, after a write that took `n` bytes of the message.
unfoldable pub after_write : ℕ → Bytes → Connection → List Effect × Connection
after_write n message c =
    if ltb n (length message)
    then (let kept = record c { output = append (drop n message) c.output } in
        if not (is_writing c.channel) then polling enable_writing kept else ([], kept))
    else (notify c, c)

unfoldable pub send_in_loop : WriteResult → Bytes → Connection → List Effect × Connection
send_in_loop w message c =
    if not (is_writing c.channel) && (readable_bytes c.output == 0)
    then elim w [
      | wrote n ↦
          let (effects, c') = after_write n message c in (sent (take n message) ∷ effects, c')
      | write_failed e ↦ ([], c)
    ]
    else ([], c)

unfoldable pub send : WriteResult → Bytes → Connection → List Effect × Connection
send w message c = if is_connected c.state then send_in_loop w message c else ([], c)

unfoldable pub shutdown : Connection → List Effect × Connection
shutdown c =
    if is_connected c.state
    then (shutdown_in_loop c, record c { state = disconnecting })
    else ([], c)

-- `shutdown` in another thread, up to `runInLoop`, which queues `shutdownInLoop`. A `send` there queues `sendInLoop`.
unfoldable pub mark_disconnecting : Connection → Connection
mark_disconnecting c = if is_connected c.state then record c { state = disconnecting } else c

-- `handleWrite`, once all that was kept has been written.
unfoldable pub drained : Connection → List Effect × Connection
drained c =
    let c' = with_channel disable_writing c in
    (
      polls (c'.channel.events)
          ∷ (notify c ++ (if is_disconnecting c.state then shutdown_in_loop c' else [])),
      c',
    )

-- `handleWrite`, after a write that took `n` bytes of the output buffer.
unfoldable pub after_flush : ℕ → Connection → Run (List Effect × Connection)
after_flush n c = retrieve n c.output >>= λ output.
    let c' = record c { output = output } in
    let (effects, c'') = if readable_bytes output == 0 then drained c' else ([], c') in
    done (sent (take n (peek c.output)) ∷ effects, c'')

unfoldable pub handle_write : WriteResult → Connection → Run (List Effect × Connection)
handle_write w c =
    if is_writing c.channel
    then elim w [
      | wrote n ↦ if ltb 0 n then after_flush n c else done ([], c)
      | write_failed e ↦ done ([], c)
    ]
    else done ([], c)

unfoldable pub handle_close : Connection → Run (List Effect × Connection)
handle_close c = do
  assert (is_connected c.state || is_disconnecting c.state)
  let (effects, c') = polling disable_all c
  done (effects ++ closes ∷ [], c')

-- `readv` returns the number of bytes, 0 at the end of the stream, or -1.
unfoldable pub handle_read : ReadResult → Connection → Run (List Effect × Connection)
handle_read (failed e) c = done ([], c)
handle_read (received []) c = handle_close c
handle_read (received (x ∷ xs)) c =
    done (messages ∷ [], record c { input = (read_fd (received (x ∷ xs)) c.input).1 })

unfoldable pub connect_established : Connection → List Effect × Connection
connect_established c =
    let (effects, c') = polling enable_reading (record c { state = connected }) in
    (effects ++ established ∷ [], c')

unfoldable pub connect_destroyed : Connection → Run (List Effect × Connection)
connect_destroyed c = do
  assert (is_connected c.state || is_disconnecting c.state)
  let (effects, c') = polling disable_all (record c { state = disconnected })
  done (effects ++ removes ∷ [], c')
