-- ===== src/Net/TcpConnection/Closing.antt =====
-- Two consequences for users of winterfell/net/wf_tcp_connection.cc: a graceful shutdown, and a
-- second message behind a slow first one.
use winterfell.Prelude.{
  ℕ, zero, suc, ◌<◌, ◌≡◌, refl, sym, ap, subst, ◌∙◌, Bool-cases, inl, inr, true, false, not, List,
  [], ◌∷◌, ◌++◌, length, take, drop, Bytes, Run, done, aborted, looping, ◌>>=◌, if◌then◌else◌,
  arith, append-nil,
}
use winterfell.Buffer.{peek, readable_bytes, append}
use winterfell.Buffer.Content.{length-peek, append_lem}
use winterfell.Net.Channel.{is_writing, enable_writing}
use winterfell.Net.Channel.Masks.{setters_lem}
use winterfell.Net.TcpConnection.{
  Connection, connected, disconnecting, Effect, sent, polls, shut_write, WriteResult, wrote,
  write_failed, is_connected, with_channel, shutdown_in_loop, after_write, send_in_loop, send,
  shutdown, handle_write,
}
use winterfell.Net.TcpConnection.Output.{IsSound, sent_bytes, peek-nil, state-IsSound}
use winterfell.Net.TcpConnection.Flush.{taken, left, Fits, Flushes, handle_write-Flushes}
use winterfell.Net.TcpConnection.Wire.{
  Signal, carry, wire, end_if_none, Wires, none_left, some_left, handle_write-Wires, idle_write,
  wire-append,
}

-- What is meant to follow: what the socket takes at each write, and the end behind the last byte, once.
abbrev pub wire_after : List WriteResult → Bytes → List Signal
wire_after ws [] = []
wire_after [] (k ∷ ks) = []
wire_after (w ∷ ws) (k ∷ ks) =
    let rest = left w (k ∷ ks) in
    (carry (taken w (k ∷ ks)) ++ end_if_none rest) ++ wire_after ws rest

abbrev pub left_after : List WriteResult → Bytes → Bytes
left_after [] kept = kept
left_after (w ∷ ws) kept = left_after ws (left w kept)

-- The socket takes no more than it is offered.
abbrev pub AllFit : List WriteResult → Bytes → Type 0
AllFit [] kept = Unit
AllFit (w ∷ ws) kept = Fits w kept × AllFit ws (left w kept)

-- `handleWrite` again and again.
unfoldable pub writes : List WriteResult → Connection → Run (List Effect × Connection)
writes [] c = done ([], c)
writes (w ∷ ws) c =
    handle_write w c >>= λ (fx, c'). writes ws c' >>= λ (fx', c''). done (fx ++ fx', c'')

unfoldable pub shut_and_write : List WriteResult → Connection → Run (List Effect × Connection)
shut_and_write ws c =
    let (fx, c') = shutdown c in writes ws c' >>= λ (fx', c''). done (fx ++ fx', c'')

left_nil : (w : WriteResult) → left w [] ≡ []
left_nil (wrote zero) = refl
left_nil (wrote (suc n)) = refl
left_nil (write_failed e) = refl

-- The call returns; this goes out on the wire, and these bytes are kept.
abbrev pub Sends : List Signal → Bytes → Run (List Effect × Connection) → Type 0
Sends out kept (done (fx, d)) = (wire fx ≡ out) × (peek d.output ≡ kept)
Sends out kept _ = ⊥

-- Effects that come before a run.
Sends-before :
    (fx : List Effect) (out out' : List Signal) (kept : Bytes) (m : Run (List Effect × Connection))
    → wire fx ≡ out
    → Sends out' kept m
    → Sends (out ++ out') kept (m >>= λ (fx', d). done (fx ++ fx', d))
Sends-before fx out out' kept (done (fx', d)) h (k, e) =
    (wire-append fx fx' ∙ ap (λ l. l ++ wire fx') h ∙ ap (◌++◌ out) k, e)
Sends-before fx out out' kept aborted h k = absurd k
Sends-before fx out out' kept looping h k = absurd k

write_then :
    (c : Connection) (w : WriteResult) (ws : List WriteResult) (m : Run (List Effect × Connection))
    (out out' : List Signal) (kept : Bytes)
    → c.state ≡ disconnecting
    → Flushes c w m
    → Wires out m
    → ((d : Connection)
        → IsSound d
        → d.state ≡ disconnecting
        → peek d.output ≡ left w (peek c.output)
        → Sends out' kept (writes ws d))
    → Sends
        (out ++ out')
        kept
        (m >>= λ (fx, c'). writes ws c' >>= λ (fx', c''). done (fx ++ fx', c''))
write_then c w ws (done (fx, d)) out out' kept e (sound, gone, rest, state, input) h go =
    Sends-before fx out out' kept (writes ws d) h (go d sound (state ∙ e) rest)
write_then c w ws aborted out out' kept e f h go = absurd f
write_then c w ws looping out out' kept e f h go = absurd f

writes-Sends :
    (ws : List WriteResult) (c : Connection) (kept : Bytes)
    → IsSound c
    → c.state ≡ disconnecting
    → peek c.output ≡ kept
    → AllFit ws kept
    → Sends (wire_after ws kept) (left_after ws kept) (writes ws c)
unfolding writes
writes-Sends [] c [] s e k h = (refl, k)
writes-Sends [] c (x ∷ xs) s e k h = (refl, k)
writes-Sends (w ∷ ws) c [] s e k h =
    let fits : AllFit ws [] = subst (AllFit ws) (left_nil w) h.1 in
    rw (idle_write c s e w k, left_nil w)
      (Sends-before [] [] (wire_after ws []) (left_after ws []) (writes ws c) refl
        (writes-Sends ws c [] s e k fits))
writes-Sends (w ∷ ws) c (x ∷ xs) s e k h =
    let fits : Fits w (peek c.output) = subst (Fits w) (sym k) h.0 in
    let out =
      subst (λ l. Wires (carry (taken w l) ++ end_if_none (left w l)) (handle_write w c)) k
        (handle_write-Wires c s e w (rw k (omega arith)) fits) in
    write_then c w ws (handle_write w c) _ _ _ e (handle_write-Flushes c s w fits) out
      (λ d sound state rest.
        writes-Sends ws d (left w (x ∷ xs)) sound state (rest ∙ ap (left w) k) h.1)

module _ (c : Connection) (s : IsSound c) where
  open c use {channel, output}

  shutdown-eq :
      c.state ≡ connected
      → shutdown c ≡ (
        if not (is_writing channel) then shut_write ∷ [] else [],
        record c { state = disconnecting },
      )
  unfolding shutdown shutdown_in_loop
  shutdown-eq e = rw (ap is_connected e) refl

  wire-shutdown :
      wire (if not (is_writing channel) then shut_write ∷ [] else []) ≡ end_if_none (peek output)
  wire-shutdown = elim (Bool-cases (is_writing channel)) [
    | inl e ↦ rw e (
        sym (
          some_left (peek output) (ground (arith, e, s.polled, length-peek output s.output_valid))))
    | inr e ↦ rw e (
        sym (
          none_left (peek output) (ground (arith, e, s.polled, length-peek output s.output_valid))))
  ]

  -- On a connected connection, with some bytes kept or none, shutdown and then any number of
  -- handleWrites, the socket taking at each as much as it likes of what it is offered or refusing
  -- it: none of them aborts. Out on the wire go the bytes that the socket takes, in order, and what
  -- it leaves is kept; and the end of the sending side comes right behind the last of the bytes,
  -- once, as soon as none are left: at once if none were kept, and not as long as some are.
  pub shutdown_waits :
      (ws : List WriteResult)
      → c.state ≡ connected
      → AllFit ws (peek output)
      → Sends
          (end_if_none (peek output) ++ wire_after ws (peek output))
          (left_after ws (peek output))
          (shut_and_write ws c)
  unfolding shut_and_write
  shutdown_waits ws e fits = rw (shutdown-eq e) (
      Sends-before _ _ (wire_after ws (peek output)) (left_after ws (peek output)) _ wire-shutdown (
        writes-Sends ws (record c { state = disconnecting }) (peek output)
          (state-IsSound c s disconnecting) refl refl fits))

module _ (c : Connection) (s : IsSound c) where
  open c use {channel, output}

  kept : Bytes → Connection
  kept rest = with_channel enable_writing (record c { output = append rest output })

  idle_polled : readable_bytes output ≡ 0 → is_writing channel ≡ false
  idle_polled h = s.polled ∙ ground arith

  first_kept :
      (n : ℕ) (first : Bytes)
      → c.state ≡ connected
      → readable_bytes output ≡ 0
      → n < length first
      → send (wrote n) first c ≡ (
        sent (take n first) ∷ polls ((kept (drop n first)).channel.events) ∷ [],
        kept (drop n first),
      )
  unfolding send send_in_loop after_write kept
  first_kept n first e idle more = ground (arith, idle_polled idle)

  second_kept :
      (rest : Bytes) (w : WriteResult) (second : Bytes)
      → send w second (kept rest) ≡ ([], kept rest)
  unfolding send send_in_loop kept
  second_kept rest w second =
      let writing : is_writing (enable_writing channel) ≡ true =
        ((setters_lem channel s.mask_valid).1).2 in
      ground (arith, writing)

  -- A connected connection that keeps nothing sends a message of which the socket takes only a part:
  -- the rest is kept. A second message that is sent before the rest has gone is dropped whole: the
  -- call has no effect and keeps none of it.
  pub second_dropped :
      (n : ℕ) (first : Bytes)
      → c.state ≡ connected
      → readable_bytes output ≡ 0
      → n < length first
      → let (fx, d) = send (wrote n) first c in
        (sent_bytes fx ≡ take n first)
        × (peek d.output ≡ drop n first)
        × ((w : WriteResult) (second : Bytes) → send w second d ≡ ([], d))
  unfolding kept
  second_dropped n first e idle more =
      rw (first_kept n first e idle more)
        (append-nil (take n first), kept_bytes, second_kept (drop n first))
    where
      kept_bytes : peek ((kept (drop n first)).output) ≡ drop n first
      kept_bytes =
          (append_lem (drop n first) output s.output_valid).1
          ∙ ap (λ k. k ++ drop n first) (peek-nil c s idle)
