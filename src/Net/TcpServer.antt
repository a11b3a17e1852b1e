-- ===== src/Net/TcpServer.antt =====
-- The class `TcpServer` of winterfell/net/wf_tcp_server.h and winterfell/net/wf_tcp_server.cc. A connection is
-- known by its number; the map from names to connections is a function.
pub mod Names
pub mod Registry
pub mod World
use winterfell.Prelude.{
  ℕ, ◌+◌, ◌-◌, Bool, true, false, not, List, [], ◌∷◌, ◌++◌, Option, some, none, take, Bytes,
  bytes_eq, codes, decimal, Run, done, aborted, ◌>>=◌, ◌>>◌, assert, ◌==◌, if◌then◌else◌,
}
use winterfell.Prelude.Int.{ℤ}
use winterfell.Net.Acceptor.{Acceptor, set_new_connection_callback, start_listening}
use winterfell.Net.SubLoops.{SubLoops, fresh_sub_loops, set_thread_num, get_next_loop}
use winterfell.Net.SubLoops

abbrev pub ConnectionMap : Type 0
ConnectionMap = Bytes → Option ℕ

pub record Server : Type 0 where
  pub name : Bytes
  pub acceptor : Acceptor
  pub started : Bool
  pub next_conn_id : ℕ
  pub connections : ConnectionMap
  pub sub_loops : SubLoops ℕ

-- What the server asks a loop to do with a connection.
pub data Effect : Type 0 where
  -- `connectEstablished` and `connectDestroyed`, in this loop
  establishes destroys : ℕ → ℕ → Effect

-- The constructor, which leaves `started_` as it is.
abbrev pub fresh_server : Bytes → Acceptor → Bool → Server
fresh_server name acceptor garbage = record {
  name = name;
  acceptor = set_new_connection_callback acceptor;
  started = garbage;
  next_conn_id = 1;
  connections = λ k. none;
  sub_loops = fresh_sub_loops;
}

-- `connections_[key] = …` and `connections_.erase(key)`
abbrev pub put : Bytes → Option ℕ → ConnectionMap → ConnectionMap
put key value m k = if bytes_eq k key then value else m k

-- The name of a connection: `#%d` goes through a buffer of 32 bytes.
unfoldable pub conn_name : Bytes → ℕ → Bytes
conn_name name id = name ++ take 31 (b'#' ∷ decimal id)

-- `newConnectionCallback`
unfoldable pub new_connection : Server → Run (Effect × Server)
new_connection s = do
  let id = s.next_conn_id
  (loop, sub_loops) ← get_next_loop s.sub_loops
  done (
    establishes loop id,
    record s {
      next_conn_id = id + 1;
      connections = put (conn_name s.name id) (some id) s.connections;
      sub_loops = sub_loops;
    },
  )

-- How many entries `erase` removes.
abbrev pub count_erased : Option ℕ → ℕ
count_erased none = 0
count_erased (some id) = 1

-- `removeConnection` of the connection of this number and loop.
unfoldable pub remove_connection : ℕ → ℕ → Server → Run (Effect × Server)
remove_connection loop id s = do
  let key = conn_name s.name id
  assert (count_erased (s.connections key) == 1)
  done (destroys loop id, record s { connections = put key none s.connections })

-- `start`, with what `listen` returns if it is called.
unfoldable pub start : ℤ → Server → Run Server
start listen_ret s = do
  acceptor ←
      if not s.acceptor.listening then start_listening listen_ret s.acceptor else done s.acceptor
  sub_loops ← SubLoops.start s.sub_loops
  done (record s { started = true; acceptor = acceptor; sub_loops = sub_loops })

-- `setThreadNum`
unfoldable pub set_threads : ℕ → Server → Server
set_threads n s = record s { sub_loops = set_thread_num n s.sub_loops }
