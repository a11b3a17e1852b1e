-- ===== src/Net/TcpServer/World.antt =====
-- A server of winterfell/net/wf_tcp_server.cc with its connections (winterfell/net/wf_tcp_connection.cc), whose only
-- owner is the server's map. A step is what one loop does between two points at which another may come in.
pub mod Roll
pub mod Follows
pub mod Steps
pub mod Lives
use winterfell.Prelude.{
  ℕ, zero, suc, Bool, true, false, not, List, ◌∷◌, ◌&&◌, ◌||◌, Option, some, none, [], Run, done,
  aborted, ◌>>=◌, ◌>>◌, assert, set_at, ◌==◌, if◌then◌else◌,
}
use winterfell.Buffer.{received}
use winterfell.Net.TcpConnection.{
  Connection, fresh_connection, is_connected, enable_read_in_loop, shutdown, handle_read,
  connect_established, connect_destroyed,
}
use winterfell.Net.TcpServer.{Server, new_connection, remove_connection, conn_name}

-- The connections are told apart by their numbers.
pub record World : Type 0 where
  pub server : Server
  pub connection : ℕ → Connection

pub data Event : Type 0 where
  -- a connection with this descriptor is accepted
  arrives : ℕ → Event
  -- `enableReadInLoop` and `connectEstablished`, in the loop of the connection; `shutdown`
  enables establishes shuts : ℕ → Event
  -- the loop, by its number, reads the end of the stream from this connection
  ends : ℕ → ℕ → Event

-- `readFd` returned 0: `handleClose` calls `removeConnection`, whose `runInLoop` calls `connectDestroyed` at once, since
-- the thread is that of the loop.
unfoldable pub close : ℕ → ℕ → World → Run World
close loop id w = do
  (fx, c) ← handle_read (received []) (w.connection id)
  (order, s) ← remove_connection loop id w.server
  (fx', c') ← connect_destroyed c
  done (record { server = s; connection = set_at id c' w.connection })

abbrev pub with_connection : ℕ → Connection → World → World
with_connection id c w = record w { connection = set_at id c w.connection }

unfoldable pub step : Event → World → Run World
step (arrives fd) w = new_connection w.server >>= λ (order, s). done (record {
  server = s;
  connection = set_at w.server.next_conn_id (fresh_connection fd false) w.connection;
})
step (enables id) w = done (with_connection id (enable_read_in_loop (w.connection id)).1 w)
step (establishes id) w = done (with_connection id (connect_established (w.connection id)).1 w)
step (shuts id) w = done (with_connection id (shutdown (w.connection id)).1 w)
step (ends loop id) w = close loop id w

abbrev pub in_map : Option ℕ → Bool
in_map none = false
in_map (some id) = true

-- `connections_.clear()` deletes the connections with numbers below this one; each destructor asserts that the
-- connection is not connected.
unfoldable pub delete_below : ℕ → World → Run (Unit {0})
delete_below zero w = done tt
delete_below (suc id) w =
    let rest = delete_below id w in
    assert (
      not (
        in_map (w.server.connections (conn_name w.server.name id))
        && is_connected (w.connection id).state))
    >> rest

unfoldable pub run : List Event → World → Run World
run [] w = done w
run (e ∷ es) w = step e w >>= run es

-- The destructor.
unfoldable pub destroy : World → Run (Unit {0})
destroy w = delete_below w.server.next_conn_id w
