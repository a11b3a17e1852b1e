-- ===== src/Net/TcpConnection/Output.antt =====
-- The bytes that a connection of winterfell/net/wf_tcp_connection.cc has taken from its user: where
-- they go, and which it loses.
use winterfell.Prelude.{
  ℕ, ◌+◌, ◌<◌, ◌≤◌, ◌≡◌, refl, sym, ap, ◌∙◌, true, false, not, ◌&&◌, inl, inr, Bool-cases, List, [],
  ◌∷◌, ◌++◌, length, take, drop, Bytes, Run, done, aborted, ◌==◌, ltb, if◌then◌else◌, arith,
  append_assoc, append-nil, take-append-drop, length-drop, take_ge,
}
use winterfell.Buffer.{Buffer, peek, readable_bytes, append}
use winterfell.Buffer.Content.{IsValid, length-peek, append_lem, retrieve_lem}
use winterfell.Net.Channel.{
  enable_reading, enable_writing, disable_writing, disable_all, is_writing,
}
use winterfell.Net.Channel.Masks.{IsMask, setters_lem}
use winterfell.Net.TcpConnection.{
  Connection, State, Effect, sent, WriteResult, wrote, write_failed, with_channel, notify,
  shutdown_in_loop, after_write, send_in_loop, drained, after_flush, handle_write,
}

-- The connection polls for writing exactly while it keeps bytes to write.
pub record IsSound (c : Connection) : Type 0 where
  pub output_valid : IsValid c.output
  pub mask_valid : IsMask c.channel
  pub polled : is_writing c.channel ≡ ltb 0 (readable_bytes c.output)

-- What the socket took, in order.
abbrev pub sent_bytes : List Effect → Bytes
sent_bytes [] = []
sent_bytes (sent xs ∷ fx) = xs ++ sent_bytes fx
sent_bytes (_ ∷ fx) = sent_bytes fx

-- After the call the connection is sound, and what the socket took and what is kept add up to this.
pub data Accounts (total : Bytes) : Run (List Effect × Connection) → Type 0 where
  returns :
      {fx : List Effect} {c : Connection}
      → IsSound c
      → sent_bytes fx ++ peek c.output ≡ total
      → Accounts total (done (fx, c))
  aborts : Accounts total aborted

module _ (c : Connection) (s : IsSound c) where
  open c use {channel, output}

  pub enable_writing-IsSound :
      (b : Buffer)
      → IsValid b
      → 0 < readable_bytes b
      → IsSound (with_channel enable_writing (record c { output = b }))
  enable_writing-IsSound b v h =
      let (mask, _, writing) = (setters_lem channel s.mask_valid).1 in
      record { output_valid = v; mask_valid = mask; polled = writing ∙ ground arith }

  disable_writing-IsSound :
      (b : Buffer)
      → IsValid b
      → readable_bytes b ≡ 0
      → IsSound (with_channel disable_writing (record c { output = b }))
  disable_writing-IsSound b v h =
      let (mask, _, writing) = (setters_lem channel s.mask_valid).2 in
      record { output_valid = v; mask_valid = mask; polled = writing ∙ ground arith }

  pub enable_reading-IsSound :
      (t : State) → IsSound (with_channel enable_reading (record c { state = t }))
  enable_reading-IsSound t =
      let (mask, _, writing) = (setters_lem channel s.mask_valid).0 in
      record { output_valid = s.output_valid; mask_valid = mask; polled = writing ∙ s.polled }

  pub disable_all-IsSound :
      (t : State) → IsSound (with_channel disable_all (record c { state = t }))
  disable_all-IsSound t =
      let (mask, _, writing) = (setters_lem channel s.mask_valid).3 in
      record { output_valid = s.output_valid; mask_valid = mask; polled = writing ∙ s.polled }

  pub state-IsSound : (t : State) → IsSound (record c { state = t })
  state-IsSound t = record {
    output_valid = s.output_valid;
    mask_valid = s.mask_valid;
    polled = s.polled;
  }

  -- What `sendInLoop` takes over: the message, if nothing is waiting and the write did not fail.
  abbrev pub taken_over : WriteResult → Bytes → Bytes
  taken_over (write_failed e) message = []
  taken_over (wrote n) message =
      if not (is_writing channel) && (readable_bytes output == 0) then message else []

nil_of_length {ℓ} : {A : Type ℓ} (xs : List A) → length xs ≡ 0 → xs ≡ []
nil_of_length [] h = refl
nil_of_length (x ∷ xs) h = absurd (omega arith)

sent_bytes-notify : (c : Connection) → sent_bytes (notify c) ≡ []
sent_bytes-notify c = ground arith

module _ (c : Connection) (s : IsSound c) where
  open c use {channel, output}

  pub peek-nil : readable_bytes output ≡ 0 → peek output ≡ []
  peek-nil h = nil_of_length (peek output) (length-peek output s.output_valid ∙ h)

  idle_polled : readable_bytes output ≡ 0 → is_writing channel ≡ false
  idle_polled h = s.polled ∙ ground arith

  pub after_write-Accounts :
      (n : ℕ) (message : Bytes)
      → readable_bytes output ≡ 0
      → n ≤ length message
      → let (fx, c') = after_write n message c in
        IsSound c' × (take n message ++ (sent_bytes fx ++ peek c'.output) ≡ message)
  unfolding after_write
  after_write-Accounts n message idle fits = elim (Bool-cases (ltb n (length message))) [
    | inl more ↦ rw (more, idle_polled idle) (enabled (ground arith), kept)
    | inr all ↦ rw (all, sent_bytes-notify c, peek-nil idle) (s, whole (ground arith))
  ]
    where
      rest : Bytes
      rest = drop n message

      later : IsValid (append rest output) × (peek (append rest output) ≡ peek output ++ rest)
      later = append_lem rest output s.output_valid

      size : readable_bytes (append rest output) ≡ length rest
      size =
          sym (length-peek (append rest output) later.0)
          ∙ ap length (later.1 ∙ ap (λ k. k ++ rest) (peek-nil idle))

      enabled :
          n < length message
          → IsSound (with_channel enable_writing (record c { output = append rest output }))
      enabled h =
          enable_writing-IsSound c s (append rest output) later.0
            (omega (arith, size, length-drop n message))

      kept : take n message ++ peek (append rest output) ≡ message
      kept = rw (later.1, peek-nil idle) (take-append-drop n message)

      whole : length message ≤ n → take n message ++ [] ≡ message
      whole h = append-nil (take n message) ∙ take_ge n message h

  -- Every byte of a message that `sendInLoop` takes over is sent or kept.
  pub send_in_loop-Accounts :
      (w : WriteResult) (message : Bytes)
      → ((n : ℕ) → w ≡ wrote n → n ≤ length message)
      → Accounts (peek output ++ taken_over c s w message) (done (send_in_loop w message c))
  unfolding send_in_loop
  send_in_loop-Accounts (write_failed e) message fits =
      elim (Bool-cases (not (is_writing channel) && (readable_bytes output == 0))) [
        | inl idle ↦ rw idle (returns s (sym (append-nil (peek output))))
        | inr busy ↦ rw busy (returns s (sym (append-nil (peek output))))
      ]
  send_in_loop-Accounts (wrote n) message fits =
      elim (Bool-cases (not (is_writing channel) && (readable_bytes output == 0))) [
        | inl idle ↦
            let none_kept : readable_bytes output ≡ 0 = ground arith in
            let (sound, total) = after_write-Accounts n message none_kept (fits n refl) in
            rw (idle, peek-nil none_kept)
              (returns sound (append_assoc (take n message) _ _ ∙ total))
        | inr busy ↦ rw busy (returns s (sym (append-nil (peek output))))
      ]

sent_bytes-drained : (c : Connection) → sent_bytes (drained c).0 ≡ []
unfolding drained shutdown_in_loop
sent_bytes-drained c = ground arith

drained-IsSound :
    (c : Connection) (s : IsSound c) (b : Buffer)
    → IsValid b
    → readable_bytes b ≡ 0
    → IsSound (drained (record c { output = b })).1
unfolding drained
drained-IsSound c s b v h = disable_writing-IsSound c s b v h

peek-drained : (c : Connection) → peek ((drained c).1.output) ≡ peek c.output
unfolding drained
peek-drained c = refl

module _ (c : Connection) (s : IsSound c) where
  open c use {channel, output}

  after_flush-Accounts :
      (n : ℕ)
      → is_writing channel ≡ true
      → n ≤ readable_bytes output
      → Accounts (peek output) (after_flush n c)
  unfolding after_flush
  after_flush-Accounts n writing fits =
      let (run, valid, rest) = retrieve_lem n output s.output_valid fits in
      rw run (elim (Bool-cases (readable_bytes left == 0)) [
        | inl e ↦ rw e (
            returns (drained-IsSound c s left valid (ground arith)) (
              rw (sent_bytes-drained (record c { output = left })) (
                rw (append-nil (take n (peek output))) (
                  ap (◌++◌ (take n (peek output)))
                    (peek-drained (record c { output = left }) ∙ rest)
                  ∙ take-append-drop n (peek output)))))
        | inr e ↦ rw e (
            returns
              (record {
                output_valid = valid;
                mask_valid = s.mask_valid;
                polled = writing ∙ ground arith;
              })
              (rw (append-nil (take n (peek output)))
                (ap (◌++◌ (take n (peek output))) rest ∙ take-append-drop n (peek output))))
      ])
    where
      left : Buffer
      left = record output { reader_index = output.reader_index + n }

  -- What `handleWrite` hands to the socket comes off the front of what is kept.
  pub handle_write-Accounts :
      (w : WriteResult)
      → ((n : ℕ) → w ≡ wrote n → n ≤ readable_bytes output)
      → Accounts (peek output) (handle_write w c)
  unfolding handle_write
  handle_write-Accounts w fits = elim (Bool-cases (is_writing channel)) [
    | inl writing ↦ rw writing (flush w fits writing)
    | inr waiting ↦ rw waiting (returns s refl)
  ]
    where
      some_written :
          (n : ℕ)
          → n ≤ readable_bytes output
          → is_writing channel ≡ true
          → Accounts (peek output) (if ltb 0 n then after_flush n c else done ([], c))
      some_written n h writing = elim (Bool-cases (ltb 0 n)) [
        | inl e ↦ rw e (after_flush-Accounts n writing h)
        | inr e ↦ rw e (returns s refl)
      ]

      flush :
          (w : WriteResult)
          → ((n : ℕ) → w ≡ wrote n → n ≤ readable_bytes output)
          → is_writing channel ≡ true
          → Accounts (peek output) (elim w [
            | wrote n ↦ if ltb 0 n then after_flush n c else done ([], c)
            | write_failed e ↦ done ([], c)
          ])
      flush (write_failed e) h writing = returns s refl
      flush (wrote n) h writing = some_written n (h n refl) writing
