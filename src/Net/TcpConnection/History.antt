-- ===== src/Net/TcpConnection/History.antt =====
-- Histories of a connection of winterfell/net/wf_tcp_connection.cc: any sequence of calls by the user,
-- in any thread, and of events by the loop, with any answers of the socket.
use winterfell.Prelude.{
  ℕ, ◌≤◌, ◌≡◌, refl, sym, ap, subst, ◌∙◌, Bool, not, ◌&&◌, ◌||◌, inl, inr, Bool-cases, List, [],
  ◌∷◌, ◌++◌, length, Bytes, Run, done, ◌==◌, if◌then◌else◌, arith, append_assoc, append-nil,
}
use winterfell.Buffer.{empty, peek, readable_bytes, ReadResult, failed, received}
use winterfell.Buffer.Content.{empty-IsValid}
use winterfell.Net.Channel.{is_writing}
use winterfell.Net.TcpConnection.{
  Connection, connected, disconnecting, disconnected, Effect, WriteResult, wrote, write_failed,
  fresh_connection, is_connected, is_disconnecting, enable_read_in_loop, shutdown_in_loop,
  send_in_loop, mark_disconnecting, send, shutdown, handle_write, handle_close, handle_read,
  connect_established, connect_destroyed,
}
use winterfell.Net.TcpConnection.Output.{
  IsSound, sent_bytes, Accounts, returns, aborts, send_in_loop-Accounts, handle_write-Accounts,
  enable_reading-IsSound, disable_all-IsSound, state-IsSound,
}

pub data Event : Type 0 where
  sends : WriteResult → Bytes → Event
  shuts establishes enables destroys : Event
  writable : WriteResult → Event
  readable : ReadResult → Event
  hangs_up : Event
  -- a shutdown in another thread marks the state; the loop runs what other threads queued
  marks queued_shut : Event
  queued_send : WriteResult → Bytes → Event

unfoldable pub step : Event → Connection → Run (List Effect × Connection)
step (sends w message) c = done (send w message c)
step shuts c = done (shutdown c)
step establishes c = done (connect_established c)
step enables c = done (enable_read_in_loop c)
step destroys c = connect_destroyed c
step (writable w) c = handle_write w c
step (readable r) c = handle_read r c
step hangs_up c = handle_close c
step marks c = done ([], mark_disconnecting c)
step queued_shut c = done (shutdown_in_loop c, c)
step (queued_send w message) c = done (send_in_loop w message c)

-- The socket takes no more than it is offered.
abbrev pub IsPossible : Event → Connection → Type 0
IsPossible (sends (wrote n) message) c = n ≤ length message
IsPossible (queued_send (wrote n) message) c = n ≤ length message
IsPossible (writable (wrote n)) c = n ≤ readable_bytes c.output
IsPossible _ c = Unit

-- The bytes that the connection takes over from its user: a message is taken whole if it is sent
-- while connected, or the loop comes to it if another thread sent it, with nothing kept, and the socket does not
-- refuse it; otherwise it is dropped.
abbrev pub accepted : Event → Connection → Bytes
accepted (sends (wrote n) message) c =
    if is_connected c.state && (not (is_writing c.channel) && (readable_bytes c.output == 0))
    then message
    else []
accepted (queued_send (wrote n) message) c =
    if not (is_writing c.channel) && (readable_bytes c.output == 0) then message else []
accepted _ c = []

send-Accounts :
    (w : WriteResult) (message : Bytes) (c : Connection) (s : IsSound c)
    → IsPossible (sends w message) c
    → Accounts (peek c.output ++ accepted (sends w message) c) (done (send w message c))
unfolding send
send-Accounts (wrote n) message c s h = elim (Bool-cases (is_connected c.state)) [
  | inl e ↦ rw e (send_in_loop-Accounts c s (wrote n) message (λ m p. ground arith))
  | inr e ↦ rw e (returns s (sym (append-nil (peek c.output))))
]
send-Accounts (write_failed f) message c s h = elim (Bool-cases (is_connected c.state)) [
  | inl e ↦ rw e (send_in_loop-Accounts c s (write_failed f) message (λ m p. cc))
  | inr e ↦ rw e (returns s (sym (append-nil (peek c.output))))
]

module _ (c : Connection) (s : IsSound c) where
  kept_all : peek c.output ≡ peek c.output ++ []
  kept_all = sym (append-nil (peek c.output))

  shut_sends : sent_bytes (shutdown_in_loop c) ≡ []
  unfolding shutdown_in_loop
  shut_sends = ground arith

  shutdown-Accounts : Accounts (peek c.output ++ []) (done (shutdown c))
  unfolding shutdown
  shutdown-Accounts = elim (Bool-cases (is_connected c.state)) [
    | inl e ↦ rw e (returns (state-IsSound c s disconnecting) (rw shut_sends kept_all))
    | inr e ↦ rw e (returns s kept_all)
  ]

  mark-Accounts : Accounts (peek c.output ++ []) (done ([], mark_disconnecting c))
  unfolding mark_disconnecting
  mark-Accounts = elim (Bool-cases (is_connected c.state)) [
    | inl e ↦ rw e (returns (state-IsSound c s disconnecting) kept_all)
    | inr e ↦ rw e (returns s kept_all)
  ]

  queued_shut-Accounts : Accounts (peek c.output ++ []) (done (shutdown_in_loop c, c))
  queued_shut-Accounts = returns s (rw shut_sends kept_all)

  close-Accounts : Accounts (peek c.output ++ []) (handle_close c)
  unfolding handle_close
  close-Accounts = elim (Bool-cases (is_connected c.state || is_disconnecting c.state)) [
    | inl e ↦ rw e (returns (disable_all-IsSound c s c.state) kept_all)
    | inr e ↦ rw e aborts
  ]

  destroy-Accounts : Accounts (peek c.output ++ []) (connect_destroyed c)
  unfolding connect_destroyed
  destroy-Accounts = elim (Bool-cases (is_connected c.state || is_disconnecting c.state)) [
    | inl e ↦ rw e (returns (disable_all-IsSound c s disconnected) kept_all)
    | inr e ↦ rw e aborts
  ]

  establish-Accounts : Accounts (peek c.output ++ []) (done (connect_established c))
  unfolding connect_established
  establish-Accounts = returns (enable_reading-IsSound c s connected) kept_all

  enable-Accounts : Accounts (peek c.output ++ []) (done (enable_read_in_loop c))
  unfolding enable_read_in_loop
  enable-Accounts = returns (enable_reading-IsSound c s c.state) kept_all

  read-Accounts : (r : ReadResult) → Accounts (peek c.output ++ []) (handle_read r c)
  unfolding handle_read
  read-Accounts (failed e) = returns s kept_all
  read-Accounts (received []) = close-Accounts
  read-Accounts (received (x ∷ xs)) =
      returns
        (record { output_valid = s.output_valid; mask_valid = s.mask_valid; polled = s.polled })
        kept_all

write-Accounts :
    (w : WriteResult) (c : Connection) (s : IsSound c)
    → IsPossible (writable w) c
    → Accounts (peek c.output ++ []) (handle_write w c)
write-Accounts (wrote n) c s h =
    rw append-nil (handle_write-Accounts c s (wrote n) (λ m p. ground arith))
write-Accounts (write_failed e) c s h =
    rw append-nil (handle_write-Accounts c s (write_failed e) (λ m p. cc))

step-Accounts :
    (e : Event) (c : Connection)
    → IsSound c
    → IsPossible e c
    → Accounts (peek c.output ++ accepted e c) (step e c)
unfolding step
step-Accounts (sends w message) c s h = send-Accounts w message c s h
step-Accounts shuts c s h = shutdown-Accounts c s
step-Accounts establishes c s h = establish-Accounts c s
step-Accounts enables c s h = enable-Accounts c s
step-Accounts destroys c s h = destroy-Accounts c s
step-Accounts (writable w) c s h = write-Accounts w c s h
step-Accounts (readable r) c s h = read-Accounts c s r
step-Accounts hangs_up c s h = close-Accounts c s
step-Accounts marks c s h = mark-Accounts c s
step-Accounts queued_shut c s h = queued_shut-Accounts c s
step-Accounts (queued_send (wrote n) message) c s h =
    send_in_loop-Accounts c s (wrote n) message (λ m p. ground arith)
step-Accounts (queued_send (write_failed f) message) c s h =
    send_in_loop-Accounts c s (write_failed f) message (λ m p. cc)

-- A history: the bytes accepted on the way, the bytes that the socket took, and the end.
pub data History : Connection → Bytes → Bytes → Connection → Type 0 where
  start : {c : Connection} → History c [] [] c
  next :
      {c d e : Connection} {taken out : Bytes} {fx : List Effect} (event : Event)
      → History c taken out d
      → IsPossible event d
      → step event d ≡ done (fx, e)
      → History c (taken ++ accepted event d) (out ++ sent_bytes fx) e

fresh-IsSound : (fd : ℕ) (notifies : Bool) → IsSound (fresh_connection fd notifies)
unfolding fresh_connection empty is_writing
fresh-IsSound fd notifies = record {
  output_valid = empty-IsValid;
  mask_valid = omega arith;
  polled = refl;
}

abbrev pub Kept : Bytes → Run (List Effect × Connection) → Type 0
Kept total (done (fx, c)) = IsSound c × (sent_bytes fx ++ peek c.output ≡ total)
Kept total _ = Unit

pub Accounts-Kept :
    {total : Bytes} {m : Run (List Effect × Connection)} → Accounts total m → Kept total m
Accounts-Kept (returns s e) = (s, e)
Accounts-Kept aborts = tt

-- Over any history of a sound connection, with calls in any thread and any answers of the socket, the
-- bytes that the socket took followed by those still kept are those kept at the start followed by the
-- messages accepted, in order, none changed and none twice; and the connection stays sound: it polls
-- for writing exactly while it keeps bytes. A message that the loop comes to while others are kept, or
-- that the socket refuses, is not among the accepted ones.
pub History-accounted :
    {c d : Connection} {taken out : Bytes}
    → IsSound c
    → History c taken out d
    → IsSound d × (out ++ peek d.output ≡ peek c.output ++ taken)
History-accounted {c = c} s start = (s, sym (append-nil (peek c.output)))
History-accounted {c = c} s
      (next {d = d} {e = e} {taken = taken} {out = out} {fx = fx} event h fits run) =
    let (sound, total) = History-accounted s h in
    let (sound', more) =
      subst (Kept (peek d.output ++ accepted event d)) run
        (Accounts-Kept (step-Accounts event d sound fits)) in
    (
      sound',
      append_assoc out (sent_bytes fx) (peek e.output)
          ∙ ap (◌++◌ out) more
          ∙ sym (append_assoc out (peek d.output) (accepted event d))
          ∙ ap (λ k. k ++ accepted event d) total
          ∙ append_assoc (peek c.output) taken (accepted event d),
    )
