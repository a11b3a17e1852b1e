-- ===== src/Example/Echo/Line.antt =====
-- What an echo connection (example/echo/server.cc) does with the bytes it reads.
use mathlib.Core.List.{append_cancel_left}
use winterfell.Prelude.{
  ℕ, suc, Bool, ◌≡◌, refl, sym, ap, ◌∙◌, true, false, not, ◌&&◌, List, [], ◌∷◌, ◌++◌, length, take,
  drop, Bytes, Run, done, ◌==◌, arith, append-nil, take-append-drop,
}
use winterfell.Buffer.{peek, readable_bytes, failed, received}
use winterfell.Buffer.Content.{IsValid, length-peek}
use winterfell.Net.Channel.{is_writing}
use winterfell.Net.TcpConnection.{
  Connection, connected, Effect, WriteResult, wrote, write_failed, is_connected, after_write,
  send_in_loop, send,
}
use winterfell.Net.TcpConnection.Output.{IsSound, sent_bytes, after_write-Accounts}
use winterfell.Net.TcpConnection.Flush.{taken, left, Fits}
use winterfell.Example.Echo.{Event, reads, flushes}

-- The connection is established and keeps these bytes; nothing is in its input.
pub record Shows (kept : Bytes) (c : Connection) : Type 0 where
  pub sound : IsSound c
  pub is_up : c.state ≡ connected
  pub input_valid : IsValid c.input
  pub input_empty : peek c.input ≡ []
  pub output_kept : peek c.output ≡ kept

-- The call returns, the socket took these bytes on the way, and the connection keeps those.
abbrev pub Answers : Bytes → Bytes → Run (List Effect × Connection) → Type 0
Answers out kept (done (fx, c)) = Shows kept c × (sent_bytes fx ≡ out)
Answers out kept _ = ⊥

-- What is meant: bytes that are read while none are kept go to the socket, and what it does not take is kept,
-- unless the write fails; bytes that are read while some are kept are lost.
abbrev pub echoed : Event → Bytes → Bytes
echoed (reads (failed e) w) kept = []
echoed (reads (received xs) w) [] = taken w xs
echoed (reads (received xs) w) (k ∷ ks) = []
echoed (flushes w) kept = taken w kept

abbrev pub kept_next : Event → Bytes → Bytes
kept_next (reads (failed e) w) kept = kept
kept_next (reads (received xs) (wrote n)) [] = drop n xs
kept_next (reads (received xs) (write_failed e)) [] = []
kept_next (reads (received xs) w) (k ∷ ks) = k ∷ ks
kept_next (flushes w) kept = left w kept

abbrev pub all_echoed : List Event → Bytes → Bytes
all_echoed [] kept = []
all_echoed (e ∷ es) kept = echoed e kept ++ all_echoed es (kept_next e kept)

abbrev pub all_kept : List Event → Bytes → Bytes
all_kept [] kept = kept
all_kept (e ∷ es) kept = all_kept es (kept_next e kept)

-- The stream does not end, and the socket takes no more than it is offered.
abbrev pub IsPossible : Event → Bytes → Type 0
IsPossible (reads (failed e) w) kept = Unit
IsPossible (reads (received []) w) kept = ⊥
IsPossible (reads (received (x ∷ xs)) w) kept = Fits w (x ∷ xs)
IsPossible (flushes w) kept = Fits w kept

abbrev pub AllPossible : List Event → Bytes → Type 0
AllPossible [] kept = Unit
AllPossible (e ∷ es) kept = IsPossible e kept × AllPossible es (kept_next e kept)

sent_bytes-after_write :
    (n : ℕ) (m : Bytes) (c : Connection) → sent_bytes (after_write n m c).0 ≡ []
unfolding after_write
sent_bytes-after_write n m c = ground arith

same_state : (n : ℕ) (m : Bytes) (c : Connection) → (after_write n m c).1.state ≡ c.state
unfolding after_write
same_state n m c = ground arith

same_input : (n : ℕ) (m : Bytes) (c : Connection) → (after_write n m c).1.input ≡ c.input
unfolding after_write
same_input n m c = ground arith

module _ (c : Connection) where
  idle : (s : IsSound c) → peek c.output ≡ [] → readable_bytes c.output ≡ 0
  idle s h = sym (length-peek c.output s.output_valid) ∙ ap length h

  unpolled : (s : IsSound c) → peek c.output ≡ [] → is_writing c.channel ≡ false
  unpolled s h = s.polled ∙ rw (idle s h) refl

  abbrev guard : Bool
  guard = not (is_writing c.channel) && (readable_bytes c.output == 0)

  idle_guard : (s : IsSound c) → peek c.output ≡ [] → guard ≡ true
  idle_guard s h = rw (unpolled s h, idle s h) refl

  busy :
      (k : ℕ) (ks : Bytes) (s : IsSound c)
      → peek c.output ≡ k ∷ ks
      → readable_bytes c.output ≡ suc (length ks)
  busy k ks s h = sym (length-peek c.output s.output_valid) ∙ ap length h

  busy_guard : (k : ℕ) (ks : Bytes) (s : IsSound c) → peek c.output ≡ k ∷ ks → guard ≡ false
  busy_guard k ks s h = rw (busy k ks s h) (ground arith)

  pub send-idle :
      (w : WriteResult) (m : Bytes)
      → Shows [] c
      → Fits w m
      → Answers (taken w m) (kept_next (reads (received m) w) []) (done (send w m c))
  unfolding send send_in_loop
  send-idle (write_failed e) m s h =
      rw (ap is_connected s.is_up, idle_guard s.sound s.output_kept) (s, refl)
  send-idle (wrote n) m s h =
      let none_kept = idle s.sound s.output_kept in
      let (sound, total) = after_write-Accounts c s.sound n m none_kept h in
      let none_sent = sent_bytes-after_write n m c in
      rw (ap is_connected s.is_up, idle_guard s.sound s.output_kept)
        (
          record {
            sound = sound;
            is_up = same_state n m c ∙ s.is_up;
            input_valid = rw (same_input n m c) s.input_valid;
            input_empty = rw (same_input n m c) s.input_empty;
            output_kept = append_cancel_left (take n m) _ _ (
                ap (λ f. take n m ++ (f ++ peek (after_write n m c).1.output)) (sym none_sent)
                ∙ total
                ∙ sym (take-append-drop n m));
          },
          ap (◌++◌ (take n m)) none_sent ∙ append-nil (take n m),
        )

  pub send-busy :
      (w : WriteResult) (m : Bytes) (k : ℕ) (ks : Bytes)
      → Shows (k ∷ ks) c
      → Answers [] (k ∷ ks) (done (send w m c))
  unfolding send send_in_loop
  send-busy w m k ks s =
      rw (ap is_connected s.is_up, busy_guard k ks s.sound s.output_kept) (s, refl)
