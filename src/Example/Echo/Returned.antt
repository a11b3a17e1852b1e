-- ===== src/Example/Echo/Returned.antt =====
-- What comes back from an echo connection (example/echo/server.cc) over any reads and writes.
use winterfell.Prelude.{
  ℕ, ◌≡◌, refl, sym, ap, subst, ◌∙◌, List, [], ◌∷◌, ◌++◌, Bytes, Run, done, aborted, looping, ◌>>=◌,
  append_assoc,
}
use winterfell.Buffer.{peek, failed, received, read_fd, retrieve_all, retrieve_as_string}
use winterfell.Buffer.Content.{retrieve_all_lem}
use winterfell.Buffer.Queue.{read_fd_lem}
use winterfell.Net.TcpConnection.{
  Connection, Effect, sent, polls, completed, shut_write, established, messages, closes, removes,
  WriteResult, is_connected, send, handle_write, handle_read,
}
use winterfell.Net.TcpConnection.Output.{sent_bytes}
use winterfell.Example.Echo.{on_message, Event, reads, flushes, step, run}
use winterfell.Net.TcpConnection.Flush.{taken, left, Fits, Flushes, handle_write-Flushes}
use winterfell.Example.Echo.Line.{
  Shows, Answers, echoed, kept_next, all_echoed, all_kept, IsPossible, AllPossible, send-idle,
  send-busy,
}

module _ (c : Connection) where
  flushed :
      (w : WriteResult) (kept : Bytes) (m : Run (List Effect × Connection))
      → Shows kept c
      → Flushes c w m
      → Answers (taken w kept) (left w kept) m
  flushed w kept (done (fx, d)) s (sound, out, rest, state, input) = (
    record {
      sound = sound;
      is_up = state ∙ s.is_up;
      input_valid = rw input s.input_valid;
      input_empty = rw input s.input_empty;
      output_kept = rest ∙ ap (left w) s.output_kept;
    },
    out ∙ ap (taken w) s.output_kept,
  )
  flushed w kept aborted s h = absurd h
  flushed w kept looping s h = absurd h

  flush-Answers :
      (w : WriteResult) (kept : Bytes)
      → Shows kept c
      → Fits w kept
      → Answers (taken w kept) (left w kept) (handle_write w c)
  flush-Answers w kept s h =
      flushed w kept (handle_write w c) s
        (handle_write-Flushes c s.sound w (subst (Fits w) (sym s.output_kept) h))

  -- The input after the message callback has taken what `readFd` put there.
  emptied : Bytes → Connection
  emptied xs = record c { input = retrieve_all ((read_fd (received xs) c.input).1) }

  emptied-Shows : (xs : Bytes) (kept : Bytes) → Shows kept c → Shows kept (emptied xs)
  unfolding emptied
  emptied-Shows xs kept s =
      let (valid, none_left) =
        retrieve_all_lem _ (read_fd_lem (received xs) c.input s.input_valid).0 in
      record {
        sound = record {
          output_valid = s.sound.output_valid;
          mask_valid = s.sound.mask_valid;
          polled = s.sound.polled;
        };
        is_up = s.is_up;
        input_valid = valid;
        input_empty = none_left;
        output_kept = s.output_kept;
      }

  send-Answers :
      (x : ℕ) (xs : Bytes) (w : WriteResult) (kept : Bytes)
      → Shows kept c
      → Fits w (x ∷ xs)
      → Answers
          (echoed (reads (received (x ∷ xs)) w) kept)
          (kept_next (reads (received (x ∷ xs)) w) kept)
          (done (send w (x ∷ xs) (emptied (x ∷ xs))))
  send-Answers x xs w [] s h =
      send-idle (emptied (x ∷ xs)) w (x ∷ xs) (emptied-Shows (x ∷ xs) [] s) h
  send-Answers x xs w (k ∷ ks) s h =
      send-busy (emptied (x ∷ xs)) w (x ∷ xs) k ks (emptied-Shows (x ∷ xs) (k ∷ ks) s)

  message-Answers :
      (x : ℕ) (xs : Bytes) (w : WriteResult) (kept : Bytes)
      → Shows kept c
      → Fits w (x ∷ xs)
      → Answers
          (echoed (reads (received (x ∷ xs)) w) kept)
          (kept_next (reads (received (x ∷ xs)) w) kept)
          (step (reads (received (x ∷ xs)) w) c)
  unfolding step handle_read on_message retrieve_as_string emptied
  message-Answers x xs w kept s h =
      let arrives : peek (read_fd (received (x ∷ xs)) c.input).1 ≡ x ∷ xs =
        (read_fd_lem (received (x ∷ xs)) c.input s.input_valid).1
        ∙ ap (λ k. k ++ x ∷ xs) s.input_empty in
      rw (ap is_connected s.is_up, arrives) (send-Answers x xs w kept s h)

  step-Answers :
      (e : Event) (kept : Bytes)
      → Shows kept c
      → IsPossible e kept
      → Answers (echoed e kept) (kept_next e kept) (step e c)
  unfolding step handle_read
  step-Answers (reads (failed e) w) kept s h = (s, refl)
  step-Answers (reads (received []) w) kept s h = absurd h
  step-Answers (reads (received (x ∷ xs)) w) kept s h = message-Answers x xs w kept s h
  step-Answers (flushes w) kept s h = flush-Answers w kept s h

sent_bytes-append : (fx gx : List Effect) → sent_bytes (fx ++ gx) ≡ sent_bytes fx ++ sent_bytes gx
sent_bytes-append [] gx = refl
sent_bytes-append (sent xs ∷ fx) gx =
    ap (◌++◌ xs) (sent_bytes-append fx gx) ∙ sym (append_assoc xs (sent_bytes fx) (sent_bytes gx))
sent_bytes-append (polls mask ∷ fx) gx = sent_bytes-append fx gx
sent_bytes-append (completed ∷ fx) gx = sent_bytes-append fx gx
sent_bytes-append (shut_write ∷ fx) gx = sent_bytes-append fx gx
sent_bytes-append (established ∷ fx) gx = sent_bytes-append fx gx
sent_bytes-append (messages ∷ fx) gx = sent_bytes-append fx gx
sent_bytes-append (closes ∷ fx) gx = sent_bytes-append fx gx
sent_bytes-append (removes ∷ fx) gx = sent_bytes-append fx gx

-- The first step returns, and then the others do.
then-Answers :
    (m : Run (List Effect × Connection)) (k : Connection → Run (List Effect × Connection))
    (out kept out' kept' : Bytes)
    → Answers out kept m
    → ((d : Connection) → Shows kept d → Answers out' kept' (k d))
    → Answers (out ++ out') kept' (m >>= λ (fx, d). k d >>= λ (fx', e). done (fx ++ fx', e))
then-Answers (done (fx, d)) k out kept out' kept' (s, h) go = appended (k d) (go d s)
  where
    appended :
        (n : Run (List Effect × Connection))
        → Answers out' kept' n
        → Answers (out ++ out') kept' (n >>= λ (fx', e). done (fx ++ fx', e))
    appended (done (fx', e)) (s', h') =
        (s', sent_bytes-append fx fx' ∙ ap (λ f. f ++ sent_bytes fx') h ∙ ap (◌++◌ out) h')
    appended aborted h' = absurd h'
    appended looping h' = absurd h'
then-Answers aborted k out kept out' kept' h go = absurd h
then-Answers looping k out kept out' kept' h go = absurd h

-- From an echo connection that is established, is sound, has nothing in its input and keeps some
-- bytes, over any reads and writes, the stream not ending, with any answers of the socket: no call
-- aborts; the socket gets, and the connection keeps, exactly what is meant. Bytes that are read while
-- none are kept are offered to the socket, and what it does not take is kept and offered again; but
-- bytes that are read while some are kept, or whose write fails, are lost.
pub run-Answers :
    (es : List Event) (c : Connection) (kept : Bytes)
    → Shows kept c
    → AllPossible es kept
    → Answers (all_echoed es kept) (all_kept es kept) (run es c)
unfolding run
run-Answers [] c kept s h = (s, refl)
run-Answers (e ∷ es) c kept s h =
    then-Answers (step e c) (run es) (echoed e kept) (kept_next e kept) _ _
      (step-Answers c e kept s h.0) (λ d t. run-Answers es d (kept_next e kept) t h.1)
