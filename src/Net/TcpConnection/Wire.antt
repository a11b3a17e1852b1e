-- ===== src/Net/TcpConnection/Wire.antt =====
-- What goes out on the wire when a connection of winterfell/net/wf_tcp_connection.cc that is shut down can be
-- written.
use winterfell.Prelude.{
  ℕ, ◌+◌, ◌-◌, ◌<◌, ◌≤◌, ◌≡◌, refl, sym, ap, ◌∙◌, Bool-cases, inl, inr, true, false, List, [], ◌∷◌,
  ◌++◌, Option, some, none, map, length, take, drop, Bytes, Run, done, ◌==◌, ltb, if◌then◌else◌,
  arith, append_assoc, length-drop,
}
use winterfell.Buffer.{Buffer, peek, readable_bytes}
use winterfell.Buffer.Content.{length-peek, retrieve_lem}
use winterfell.Net.Channel.{is_writing, disable_writing}
use winterfell.Net.Channel.Masks.{setters_lem}
use winterfell.Net.TcpConnection.{
  Connection, disconnecting, Effect, sent, polls, completed, shut_write, established, messages,
  closes, removes, WriteResult, wrote, write_failed, notify, is_disconnecting, shutdown_in_loop,
  drained, after_flush, handle_write,
}
use winterfell.Net.TcpConnection.Output.{IsSound}
use winterfell.Net.TcpConnection.Flush.{taken, left, Fits}

-- What goes out on the wire: bytes, and the end of the sending side.
abbrev pub Signal : Type 0
Signal = Option ℕ

abbrev pub carry : Bytes → List Signal
carry xs = map some xs

abbrev pub wire : List Effect → List Signal
wire [] = []
wire (sent xs ∷ fx) = carry xs ++ wire fx
wire (shut_write ∷ fx) = none ∷ wire fx
wire (_ ∷ fx) = wire fx

-- The sending side is closed when no bytes are left.
abbrev pub end_if_none : Bytes → List Signal
end_if_none [] = none ∷ []
end_if_none (k ∷ ks) = []

abbrev pub Wires : List Signal → Run (List Effect × Connection) → Type 0
Wires out (done (fx, d)) = wire fx ≡ out
Wires out _ = ⊥

wire-notify : (c : Connection) (fx : List Effect) → wire (notify c ++ fx) ≡ wire fx
wire-notify c fx = elim (Bool-cases c.notifies) [ inl e ↦ rw e refl | inr e ↦ rw e refl ]

pub none_left : (xs : Bytes) → length xs ≡ 0 → end_if_none xs ≡ none ∷ []
none_left [] h = refl
none_left (x ∷ xs) h = absurd (omega arith)

pub some_left : (xs : Bytes) → 0 < length xs → end_if_none xs ≡ []
some_left [] h = absurd (omega arith)
some_left (x ∷ xs) h = refl

module _ (c : Connection) (s : IsSound c) (closing : c.state ≡ disconnecting) where
  open c use {channel, output}

  stopped : is_writing (disable_writing channel) ≡ false
  stopped = ((setters_lem channel s.mask_valid).2).2

  wire-drained : (b : Buffer) → wire (drained (record c { output = b })).0 ≡ none ∷ []
  unfolding drained shutdown_in_loop
  wire-drained b = rw (wire-notify, ap is_disconnecting closing, stopped) refl

  after_flush-Wires :
      (n : ℕ)
      → n ≤ readable_bytes output
      → Wires (carry (take n (peek output)) ++ end_if_none (drop n (peek output))) (after_flush n c)
  unfolding after_flush
  after_flush-Wires n h =
      let rest : Buffer = record output { reader_index = output.reader_index + n } in
      let size : length (drop n (peek output)) ≡ readable_bytes output - n =
        length-drop n (peek output) ∙ ap (λ k. k - n) (length-peek output s.output_valid) in
      let valid = s.output_valid in
      let gone = carry (take n (peek output)) in
      rw ((retrieve_lem n output s.output_valid h).0)
        (elim (Bool-cases (readable_bytes rest == 0)) [
          | inl e ↦
              rw (e, wire-drained rest)
                (ap (◌++◌ gone) (sym (none_left (drop n (peek output)) (ground (arith, size, e)))))
          | inr e ↦
              rw e
                (ap (◌++◌ gone) (sym (some_left (drop n (peek output)) (ground (arith, size, e)))))
        ])

  -- One write, while bytes are kept.
  pub handle_write-Wires :
      (w : WriteResult)
      → 0 < length (peek output)
      → Fits w (peek output)
      → Wires
          (carry (taken w (peek output)) ++ end_if_none (left w (peek output)))
          (handle_write w c)
  unfolding handle_write
  handle_write-Wires w more fits =
      let writing : is_writing channel ≡ true =
        s.polled ∙ ground (arith, more, length-peek output s.output_valid) in
      rw writing (flush w fits)
    where
      flush :
          (w : WriteResult)
          → Fits w (peek output)
          → Wires (carry (taken w (peek output)) ++ end_if_none (left w (peek output))) (elim w [
            | wrote n ↦ if ltb 0 n then after_flush n c else done ([], c)
            | write_failed e ↦ done ([], c)
          ])
      flush (write_failed e) h = sym (some_left (peek output) more)
      flush (wrote n) h = elim (Bool-cases (ltb 0 n)) [
        | inl e ↦ rw e (after_flush-Wires n (omega (arith, h, length-peek output s.output_valid)))
        | inr e ↦ let z : n ≡ 0 = ground arith in rw (e, z) (sym (some_left (peek output) more))
      ]

  -- A write when nothing is kept does nothing.
  pub idle_write : (w : WriteResult) → peek output ≡ [] → handle_write w c ≡ done ([], c)
  unfolding handle_write
  idle_write w h =
      let idle : is_writing channel ≡ false =
        s.polled ∙ ground (arith, ap length h, length-peek output s.output_valid) in
      rw idle refl

pub wire-append : (fx gx : List Effect) → wire (fx ++ gx) ≡ wire fx ++ wire gx
wire-append [] gx = refl
wire-append (sent xs ∷ fx) gx =
    ap (◌++◌ (carry xs)) (wire-append fx gx) ∙ sym (append_assoc (carry xs) (wire fx) (wire gx))
wire-append (shut_write ∷ fx) gx = ap (λ l. none ∷ l) (wire-append fx gx)
wire-append (polls mask ∷ fx) gx = wire-append fx gx
wire-append (completed ∷ fx) gx = wire-append fx gx
wire-append (established ∷ fx) gx = wire-append fx gx
wire-append (messages ∷ fx) gx = wire-append fx gx
wire-append (closes ∷ fx) gx = wire-append fx gx
wire-append (removes ∷ fx) gx = wire-append fx gx
