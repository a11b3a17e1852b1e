-- ===== src/Tests/Echoes.antt =====
-- An echo connection at a concrete run: a greeting of which the socket takes two bytes, the rest, another greeting.
use winterfell.Prelude.{refl, ◌≡◌, ℕ, List, [], ◌∷◌, arith}
use winterfell.Buffer.{empty, received}
use winterfell.Buffer.Content.{empty-IsValid}
use winterfell.Net.TcpConnection.{wrote, fresh_connection, connect_established}
use winterfell.Example.Echo.{Event, reads, flushes, run}
use winterfell.Example.Echo.Line.{Shows, Answers, all_echoed, all_kept}
use winterfell.Example.Echo.Returned.{run-Answers}
use winterfell.Example.EchoRate
use winterfell.Example.EchoRate.{Readings}
use winterfell.Example.EchoRate.Same.{events, replies, run-replies}
use winterfell.Tests.Rates.{whole, at_second, limiter}
use winterfell.Tests.Connections.{opened, opened-IsSound, opened_state, greeting}

opened-Shows : Shows [] opened
unfolding connect_established fresh_connection empty
opened-Shows = record {
  sound = opened-IsSound;
  is_up = opened_state;
  input_valid = empty-IsValid;
  input_empty = refl;
  output_kept = refl;
}

abbrev two_greetings : List Event
two_greetings =
    reads (received greeting) (wrote 2)
    ∷ flushes (wrote 3)
    ∷ reads (received greeting) (wrote 5)
    ∷ []

run-Answers_example :
    Answers (all_echoed two_greetings []) (all_kept two_greetings []) (run two_greetings opened)
run-Answers_example =
    run-Answers two_greetings opened [] opened-Shows (omega arith, (omega arith, (omega arith, tt)))

abbrev at : ℕ → Readings
at n = record {
  reserved = at_second n;
  advanced = at_second n;
  asked = at_second n;
  slept = at_second n;
}

abbrev timed_greetings : List (Readings × Event)
timed_greetings = (at 8, reads (received greeting) (wrote 2)) ∷ (at 9, flushes (wrote 3)) ∷ []

run-replies_example :
    replies whole (EchoRate.run whole timed_greetings limiter opened)
    ≡ run (events timed_greetings) opened
run-replies_example = run-replies whole timed_greetings limiter opened refl
