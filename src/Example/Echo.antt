-- ===== src/Example/Echo.antt =====
-- The callbacks of the echo servers, example/echo/server.cc and example/echo_rate/server.cc, on a connection. What
-- `::write` does is an argument, and so are the readings of the clock.
pub mod Line
pub mod Returned
use winterfell.Prelude.{
  Bool, true, false, not, List, [], ◌∷◌, ◌++◌, Bytes, Option, some, none, Run, done, ◌>>=◌, ◌>>◌,
  assert, if◌then◌else◌,
}
use winterfell.Prelude.Int.{ℤ, pos, ltb_ℤ}
use winterfell.Base.Timestamp.{Timestamp}
use winterfell.Base.Rate.{Doubles, Limiter, Reservation, reserve_n, delay}
use winterfell.Buffer.{ReadResult, failed, received, retrieve_as_string}
use winterfell.Net.TcpConnection.{
  Connection, Effect, WriteResult, is_connected, send, handle_read, handle_write,
  connect_established,
}

-- `onConnect`, which `connectEstablished` calls last.
unfoldable pub on_connect : Connection → Run Connection
on_connect c = assert (is_connected c.state) >> done c

unfoldable pub establish : Connection → Run (List Effect × Connection)
establish c = let (fx, c') = connect_established c in on_connect c' >>= λ c''. done (fx, c'')

-- `onMessage`
unfoldable pub on_message : WriteResult → Connection → Run (List Effect × Connection)
on_message w c = do
  assert (is_connected c.state)
  let (msg, input) = retrieve_as_string c.input
  done (send w msg (record c { input = input }))

-- What the loop does with the connection: its socket can be read, or written.
pub data Event : Type 0 where
  reads : ReadResult → WriteResult → Event
  flushes : WriteResult → Event

unfoldable pub step : Event → Connection → Run (List Effect × Connection)
step (reads (failed e) w) c = handle_read (failed e) c
step (reads (received []) w) c = handle_read (received []) c
step (reads (received (x ∷ xs)) w) c = handle_read (received (x ∷ xs)) c >>= λ (fx, c').
    on_message w c' >>= λ (fx', c''). done (fx ++ fx', c'')
step (flushes w) c = handle_write w c

unfoldable pub run : List Event → Connection → Run (List Effect × Connection)
run [] c = done ([], c)
run (e ∷ es) c = step e c >>= λ (fx, c'). run es c' >>= λ (fx', c''). done (fx ++ fx', c'')
