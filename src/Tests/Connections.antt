-- ===== src/Tests/Connections.antt =====
-- The theorems on connections and channels at a concrete connection.
use winterfell.Prelude.{
  sym, subst, drop, List, ◌≡◌, refl, true, Bytes, codes, [], ◌∷◌, ◌++◌, done, arith,
}
use winterfell.Buffer.{empty, peek, readable_bytes}
use winterfell.Buffer.Content.{empty-IsValid}
use winterfell.Net.Channel.{Channel, fresh_channel, enable_reading, is_writing}
use winterfell.Net.TcpConnection.{
  Connection, connected, disconnecting, sent, polls, shut_write, WriteResult, wrote, write_failed,
  notify, fresh_connection, connect_established, send, shutdown, handle_write,
}
use winterfell.Net.TcpConnection.Output.{IsSound, sent_bytes}
use winterfell.Net.TcpConnection.History.{
  sends, History, start, next, step, accepted, History-accounted,
}
use winterfell.Net.TcpConnection.Closing.{
  shutdown_waits, Sends, wire_after, left_after, AllFit, shut_and_write,
}
use winterfell.Net.TcpConnection.Wire.{end_if_none}

abbrev listening : Channel
listening = record (fresh_channel 5) { events = 3 }

abbrev pub opened : Connection
opened = (connect_established (fresh_connection 9 true)).1

pub opened-IsSound : IsSound opened
unfolding connect_established fresh_connection empty enable_reading is_writing
opened-IsSound = record { output_valid = empty-IsValid; mask_valid = omega arith; polled = refl }

abbrev pub greeting : Bytes
greeting = codes "hello"

-- The connection after a greeting of which the socket took two bytes.
abbrev after_greeting : Connection
after_greeting = (send (wrote 2) greeting opened).1

greeting_runs :
    step (sends (wrote 2) greeting) opened
    ≡ done ((send (wrote 2) greeting opened).0, after_greeting)
unfolding step
greeting_runs = refl

greeted :
    History opened
      ([] ++ accepted (sends (wrote 2) greeting) opened)
      ([] ++ sent_bytes ((send (wrote 2) greeting opened).0))
      after_greeting
greeted = next (sends (wrote 2) greeting) start (omega arith) greeting_runs

History-accounted_example :
    IsSound after_greeting
    × (sent_bytes ((send (wrote 2) greeting opened).0) ++ peek after_greeting.output
        ≡ peek opened.output ++ accepted (sends (wrote 2) greeting) opened)
History-accounted_example = History-accounted opened-IsSound greeted

pub opened_state : opened.state ≡ connected
unfolding connect_established
opened_state = refl

after_state : after_greeting.state ≡ connected
unfolding send connect_established winterfell.Net.TcpConnection.send_in_loop fresh_connection
    is_writing empty winterfell.Net.TcpConnection.after_write enable_reading
after_state = refl

idle : readable_bytes opened.output ≡ 0
unfolding connect_established fresh_connection empty
idle = refl

-- The three bytes that are kept go in two writes, with a refused one between them.
abbrev three_writes : List WriteResult
three_writes = wrote 2 ∷ write_failed 11 ∷ wrote 1 ∷ []

three-AllFit : AllFit three_writes (drop 2 greeting)
three-AllFit = (omega arith, (tt, (omega arith, tt)))

kept_greeting : peek after_greeting.output ≡ drop 2 greeting
unfolding send connect_established winterfell.Net.TcpConnection.send_in_loop fresh_connection
    is_writing empty winterfell.Net.TcpConnection.after_write enable_reading
    winterfell.Buffer.append
kept_greeting = refl

shutdown_waits_example :
    Sends
      (end_if_none (peek after_greeting.output)
        ++ wire_after three_writes (peek after_greeting.output))
      (left_after three_writes (peek after_greeting.output))
      (shut_and_write three_writes after_greeting)
shutdown_waits_example =
    shutdown_waits after_greeting (History-accounted_example.0) three_writes after_state
      (subst (AllFit three_writes) (sym kept_greeting) three-AllFit)
