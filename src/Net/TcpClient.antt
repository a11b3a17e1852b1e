-- ===== src/Net/TcpClient.antt =====
-- The class `TcpClient` of winterfell/net/wf_tcp_client.h and winterfell/net/wf_tcp_client.cc. A connection is
-- known by its number `nextConnId_`; each method returns what it asks of the connector, the loop and
-- the connection.
pub mod Lifetimes
use winterfell.Prelude.{
  ℕ, suc, ◌+◌, Bool, true, false, ◌&&◌, ◌==◌, List, [], ◌∷◌, ◌++◌, Option, some, none, Run, done,
  aborted, ◌>>=◌, ◌>>◌, assert, if◌then◌else◌,
}

pub record Client : Type 0 where
  pub retry : Bool
  pub wanted : Bool
  pub next_conn_id : ℕ
  pub connection : Option ℕ

pub data Effect : Type 0 where
  -- `start`, `stop` and `restart` of the connector
  starts stops restarts : Effect
  -- `shutdown` and `connectEstablished` of a connection, and `connectDestroyed`, queued in the loop
  shuts establishes destroys : ℕ → Effect
  -- the connection is given a close callback that queues `connectDestroyed`, and not the client's
  detaches : ℕ → Effect

-- The constructor.
abbrev pub fresh_client : Client
fresh_client = record { retry = false; wanted = true; next_conn_id = 1; connection = none }

unfoldable pub enable_retry : Client → Client
enable_retry c = record c { retry = true }

unfoldable pub connect : Client → List Effect × Client
connect c = (starts ∷ [], record c { wanted = true })

unfoldable pub disconnect : Client → List Effect × Client
disconnect c =
    (elim c.connection [ none ↦ [] | some k ↦ shuts k ∷ [] ], record c { wanted = false })

unfoldable pub stop : Client → List Effect × Client
stop c = (stops ∷ [], record c { wanted = false })

unfoldable pub new_connection : Client → List Effect × Client
new_connection c = (
  establishes c.next_conn_id ∷ [],
  record c { next_conn_id = c.next_conn_id + 1; connection = some c.next_conn_id },
)

abbrev pub holds : ℕ → Option ℕ → Bool
holds k none = false
holds k (some j) = k == j

unfoldable pub remove_connection : ℕ → Client → Run (List Effect × Client)
remove_connection k c =
    assert (holds k c.connection)
    >> done (
      destroys k ∷ (if c.retry && c.wanted then restarts ∷ [] else []),
      record c { connection = none },
    )

-- The destructor.
unfoldable pub destroy : Client → List Effect
destroy c = elim c.connection [ none ↦ stops ∷ [] | some k ↦ detaches k ∷ [] ]
