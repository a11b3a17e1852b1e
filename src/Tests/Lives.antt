-- ===== src/Tests/Lives.antt =====
-- A server and its connections, at a concrete run.
use winterfell.Prelude.{◌≡◌, ◌^◌, refl, false, List, [], ◌∷◌, aborted, arith}
use winterfell.Net.TcpConnection.{fresh_connection}
use winterfell.Net.TcpServer.World.{World, Event, arrives, enables, establishes, shuts, ends, run}
use winterfell.Net.TcpServer.World.Roll.{Roll, absent, roll_run}
use winterfell.Net.TcpServer.World.Follows.{Follows, Meets}
use winterfell.Net.TcpServer.World.Lives.{live, live_lem}
use winterfell.Tests.Servers.{server, server-Refines}

-- Two are accepted. The first is established, shut down, and closed by its peer; the second only established.
abbrev first_world : World
first_world = record { server = server; connection = λ k. fresh_connection 0 false }

abbrev empty_roll : Roll
empty_roll = record { next = 1; status = λ k. absent }

first_world-Follows : Follows first_world empty_roll
first_world-Follows = record { book = server-Refines; states = λ k. tt; later = λ k h. refl }

abbrev two_lives : List Event
two_lives =
    arrives 5
    ∷ enables 1
    ∷ arrives 6
    ∷ establishes 1
    ∷ shuts 1
    ∷ ends 12 1
    ∷ enables 2
    ∷ establishes 2
    ∷ []

live_lem_example :
    Meets (2 ^ 31) (run two_lives first_world) (roll_run two_lives empty_roll)
    × (live two_lives first_world ≡ aborted)
live_lem_example =
    live_lem two_lives first_world empty_roll first_world-Follows
      (refl, (refl, (refl, (refl, (refl, (refl, (refl, (refl, tt)))))))) (omega arith)
