-- ===== src/Tests/Clients.antt =====
-- The theorem on clients at a concrete history.
use winterfell.Prelude.{◌≡◌, refl, [], ◌∷◌, ◌++◌, some, true, false}
use winterfell.Net.TcpClient.{Client, destroy, fresh_client, new_connection, remove_connection}
use winterfell.Net.TcpClient.Lifetimes.{
  History, start, next, connected, closed, step, held, ends_of, History-keeps,
}

-- After a connection that came and went, and another one.
abbrev second_time : Client
second_time = record { retry = false; wanted = true; next_conn_id = 3; connection = some 2 }

came_and_went : History fresh_client (1 ∷ 2 ∷ []) (1 ∷ []) second_time
unfolding step new_connection remove_connection
came_and_went = next connected (next (closed 1) (next connected start refl refl) tt refl) refl refl

History-keeps_example :
    (1 ∷ held second_time.connection ≡ held fresh_client.connection ++ 1 ∷ 2 ∷ [])
    × (destroy second_time ≡ ends_of (held second_time.connection))
History-keeps_example = History-keeps came_and_went
