-- ===== src/Net/TcpConnection/Flush.antt =====
-- The bytes that `handleWrite` of winterfell/net/wf_tcp_connection.cc takes from those that are kept, exactly.
use mathlib.Core.List.{append_cancel_left}
use winterfell.Prelude.{
  ◌++◌, aborted, looping, length, drop, take-append-drop, ℕ, zero, suc, ◌+◌, ◌≤◌, ◌≡◌, refl, sym,
  ap, ◌∙◌, inl, inr, Bool-cases, List, [], take, Bytes, Run, done, ◌==◌, ltb, arith, append-nil,
}
use winterfell.Buffer.{Buffer, peek, readable_bytes}
use winterfell.Buffer.Content.{IsValid, length-peek}
use winterfell.Net.Channel.{is_writing}
use winterfell.Net.TcpConnection.{
  Connection, Effect, WriteResult, wrote, write_failed, drained, after_flush, handle_write,
  shutdown_in_loop,
}
use winterfell.Net.TcpConnection.Output.{IsSound, sent_bytes, peek-nil}
use winterfell.Buffer.Content.{retrieve_lem}
use winterfell.Net.TcpConnection.Output.{handle_write-Accounts}
use winterfell.Net.TcpConnection.History.{Kept, Accounts-Kept}

-- What the socket takes of bytes that it is offered, and what it leaves.
abbrev pub taken : WriteResult → Bytes → Bytes
taken (wrote n) xs = take n xs
taken (write_failed e) xs = []

abbrev pub left : WriteResult → Bytes → Bytes
left (wrote n) xs = drop n xs
left (write_failed e) xs = xs

abbrev pub Fits : WriteResult → Bytes → Type 0
Fits (wrote n) xs = n ≤ length xs
Fits (write_failed e) xs = Unit

taken-left : (w : WriteResult) (xs : Bytes) → taken w xs ++ left w xs ≡ xs
taken-left (wrote n) xs = take-append-drop n xs
taken-left (write_failed e) xs = refl

Fits-readable :
    (w : WriteResult) (xs : Bytes) (size : ℕ)
    → Fits w xs
    → length xs ≡ size
    → (n : ℕ) → w ≡ wrote n
    → n ≤ size
Fits-readable (wrote m) xs size h e n p = ground arith
Fits-readable (write_failed f) xs size h e n p = cc

sent_bytes-drained : (c : Connection) → sent_bytes (drained c).0 ≡ []
unfolding drained shutdown_in_loop
sent_bytes-drained c = ground arith

take_nil : (n : ℕ) → take {A = ℕ} n [] ≡ []
take_nil zero = refl
take_nil (suc n) = refl

-- The call returns, the socket took these bytes, and the state and the input are as before.
abbrev Writes : Connection → Bytes → Run (List Effect × Connection) → Type 0
Writes c out (done (fx, d)) = (sent_bytes fx ≡ out) × (d.state ≡ c.state) × (d.input ≡ c.input)
Writes c out _ = ⊥

module _ (c : Connection) where
  drained-Writes :
      (b : Buffer)
      → let (fx, d) = drained (record c { output = b }) in (d.state ≡ c.state) × (d.input ≡ c.input)
  unfolding drained
  drained-Writes b = (refl, refl)

  after_flush-Writes :
      (n : ℕ)
      → IsValid c.output
      → n ≤ readable_bytes c.output
      → Writes c (take n (peek c.output)) (after_flush n c)
  unfolding after_flush
  after_flush-Writes n v h =
      let rest : Buffer = record c.output { reader_index = c.output.reader_index + n } in
      let none_more = sent_bytes-drained (record c { output = rest }) in
      rw ((retrieve_lem n c.output v h).0) (elim (Bool-cases (readable_bytes rest == 0)) [
        | inl e ↦
            let (state, input) = drained-Writes rest in
            rw (e, none_more) (append-nil _, state, input)
        | inr e ↦ rw e (append-nil _, refl, refl)
      ])

  handle_write-Writes :
      (s : IsSound c) (w : WriteResult)
      → Fits w (peek c.output)
      → Writes c (taken w (peek c.output)) (handle_write w c)
  unfolding handle_write
  handle_write-Writes s (write_failed e) h = elim (Bool-cases (is_writing c.channel)) [
    | inl e ↦ rw e (refl, refl, refl)
    | inr e ↦ rw e (refl, refl, refl)
  ]
  handle_write-Writes s (wrote n) h = elim (Bool-cases (is_writing c.channel)) [
    | inl e ↦ elim (Bool-cases (ltb 0 n)) [
      | inl p ↦
          rw (e, p)
            (after_flush-Writes n s.output_valid
              (omega (arith, h, length-peek c.output s.output_valid)))
      | inr p ↦ let z : n ≡ 0 = ground arith in rw (e, p, z) (refl, refl, refl)
    ]
    | inr e ↦
        let none_kept : peek c.output ≡ [] = peek-nil c s (ground (arith, s.polled)) in
        rw e (sym (ap (take n) none_kept ∙ take_nil n), refl, refl)
  ]

  abbrev pub Flushes : WriteResult → Run (List Effect × Connection) → Type 0
  Flushes w (done (fx, d)) =
      IsSound d
      × (sent_bytes fx ≡ taken w (peek c.output))
      × (peek d.output ≡ left w (peek c.output))
      × (d.state ≡ c.state)
      × (d.input ≡ c.input)
  Flushes w _ = ⊥

  joined :
      (w : WriteResult) (m : Run (List Effect × Connection))
      → Writes c (taken w (peek c.output)) m
      → Kept (peek c.output) m
      → Flushes w m
  joined w (done (fx, d)) (out, state, input) (sound, total) = (
    sound,
    out,
    append_cancel_left (taken w (peek c.output)) _ _
        (ap (λ f. f ++ peek d.output) (sym out) ∙ total ∙ sym (taken-left w (peek c.output))),
    state,
    input,
  )
  joined w aborted h k = absurd h
  joined w looping h k = absurd h

  -- The socket gets what it takes of the bytes kept, the rest is kept, and the state and the input are as before.
  pub handle_write-Flushes :
      (s : IsSound c) (w : WriteResult) → Fits w (peek c.output) → Flushes w (handle_write w c)
  handle_write-Flushes s w fits = joined w (handle_write w c) (handle_write-Writes s w fits) (
      Accounts-Kept (
        handle_write-Accounts c s w
          (Fits-readable w (peek c.output) _ fits (length-peek c.output s.output_valid))))
