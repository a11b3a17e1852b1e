-- ===== src/Net/TcpServer/World/Steps.antt =====
-- The steps of a server of winterfell/net/wf_tcp_server.cc and its connections, one by one.
use winterfell.Prelude.{
  ℕ, ◌+◌, ◌^◌, ◌<◌, ◌≤◌, ◌≡◌, refl, sym, ap, ◌∙◌, subst, Bool, true, false, not, ◌||◌, some, done,
  aborted, inl, inr, Bool-cases, arith, set_at_same, leb,
}
use winterfell.Net.TcpConnection.{
  Connection, connected, disconnecting, fresh_connection, is_connected, is_disconnecting,
  enable_read_in_loop, shutdown, handle_read, handle_close, connect_established, connect_destroyed,
}
use winterfell.Net.TcpServer.Registry.{Refines, dropped, arrives-Matches, closes-Matches}
use winterfell.Net.TcpServer.World.{
  World, Event, arrives, enables, establishes, shuts, ends, close, with_connection, step,
}
use winterfell.Net.TcpServer.World.Roll.{
  Status, absent, arrived, up, closing, gone, Roll, is_alive, is_absent, is_arrived, after_shut,
  after_end, becomes, roll_step, is_proper,
}
use winterfell.Net.TcpServer.World.Follows.{
  Agrees, book_of, Follows, Meets, given, set-Agrees, alive-mark, set-later, same_map,
}

-- What the methods make of the state.
module _ (c : Connection) where
  enable-state : (enable_read_in_loop c).1.state ≡ c.state
  unfolding enable_read_in_loop
  enable-state = refl

  shutdown-connected : c.state ≡ connected → (shutdown c).1.state ≡ disconnecting
  unfolding shutdown
  shutdown-connected e = rw e refl

  shutdown-others : is_connected c.state ≡ false → (shutdown c).1 ≡ c
  unfolding shutdown
  shutdown-others e = rw e refl

module _ (loop id : ℕ) (w : World) (r : Roll) (f : Follows w r) (small : r.next ≤ 2 ^ 31) where
  -- The end of the stream, read when the state allows a close.
  closed_now :
      (h : id < r.next)
      → (is_connected (w.connection id).state || is_disconnecting (w.connection id).state) ≡ true
      → is_alive (r.status id) ≡ true
      → Meets (r.next + 1) (close loop id w) (some (given id gone r))
  unfolding close handle_read handle_close connect_destroyed
  closed_now h e a =
      let (q, refines) = closes-Matches w.server (book_of r) f.book loop id (omega arith) a in
      rw (e, q, e)
        (
          record {
            book =
                subst (λ al. Refines (dropped id w.server) (record { next = r.next; alive = al }))
                  (alive-mark id gone r) refines;
            states = set-Agrees id gone _ r.status w.connection f.states refl;
            later = set-later id gone r r.next h (omega arith) f.later;
          },
          omega arith,
        )

  not_closed :
      (is_connected (w.connection id).state || is_disconnecting (w.connection id).state) ≡ false
      → close loop id w ≡ aborted
  unfolding close handle_read handle_close
  not_closed e = rw e refl

module _ (w : World) (r : Roll) (f : Follows w r) where
  alive_below : (id : ℕ) → is_absent (r.status id) ≡ false → id < r.next
  alive_below id e = elim (Bool-cases (leb r.next id)) [
    | inl g ↦
        let none_yet : is_absent (r.status id) ≡ true = ap is_absent (f.later id (ground arith)) in
        absurd cc
    | inr g ↦ ground arith
  ]

  seen : {s : Status} (id : ℕ) → r.status id ≡ s → Agrees s (w.connection id)
  seen id e = subst (λ s. Agrees s (w.connection id)) e (f.states id)

  -- The clauses are those of the status of the connection.
  ends-Meets :
      (loop id : ℕ) (s : Status)
      → r.status id ≡ s
      → is_absent s ≡ false
      → r.next ≤ 2 ^ 31
      → Meets (r.next + 1) (close loop id w) (becomes id r (after_end s))
  ends-Meets loop id absent e p h = absurd cc
  ends-Meets loop id arrived e p h = rw (not_closed loop id w r f h (rw (seen id e) refl)) tt
  ends-Meets loop id up e p h =
      closed_now loop id w r f h (alive_below id (ap is_absent e ∙ p)) (rw (seen id e) refl)
        (ap is_alive e)
  ends-Meets loop id closing e p h =
      closed_now loop id w r f h (alive_below id (ap is_absent e ∙ p)) (rw (seen id e) refl)
        (ap is_alive e)
  ends-Meets loop id gone e p h = rw (not_closed loop id w r f h (rw (seen id e) refl)) tt

  after_shut-Agrees :
      (id : ℕ) (s : Status) → r.status id ≡ s → Agrees (after_shut s) (shutdown (w.connection id)).1
  after_shut-Agrees id absent e = tt
  after_shut-Agrees id arrived e =
      let a = seen id e in rw (shutdown-others (w.connection id) (rw a refl)) a
  after_shut-Agrees id up e = shutdown-connected (w.connection id) (seen id e)
  after_shut-Agrees id closing e =
      let a = seen id e in rw (shutdown-others (w.connection id) (rw a refl)) a
  after_shut-Agrees id gone e =
      let a = seen id e in rw (shutdown-others (w.connection id) (rw a refl)) a

  enable-Agrees :
      (id : ℕ) (s : Status)
      → Agrees s (w.connection id)
      → Agrees s (enable_read_in_loop (w.connection id)).1
  enable-Agrees id absent a = tt
  enable-Agrees id arrived a = enable-state (w.connection id) ∙ a
  enable-Agrees id up a = enable-state (w.connection id) ∙ a
  enable-Agrees id closing a = enable-state (w.connection id) ∙ a
  enable-Agrees id gone a = enable-state (w.connection id) ∙ a

  establish-Agrees : (c : Connection) → Agrees up (connect_established c).1
  unfolding connect_established
  establish-Agrees c = refl

  arrive-Meets :
      (fd : ℕ)
      → r.next < 2 ^ 31
      → Meets (r.next + 1) (step (arrives fd) w) (roll_step (arrives fd) r)
  unfolding step fresh_connection
  arrive-Meets fd h =
      let (fx, s, e, q) = arrives-Matches w.server (book_of r) f.book h in
      let id : w.server.next_conn_id ≡ r.next = f.book.same_next in
      rw (e, id)
        (
          record {
            book =
                subst (λ al. Refines s (record { next = r.next + 1; alive = al }))
                  (alive-mark r.next arrived r) q;
            states = set-Agrees r.next arrived _ r.status w.connection f.states refl;
            later = set-later r.next arrived r (r.next + 1) (omega arith) (omega arith) f.later;
          },
          omega arith,
        )

after_shut-alive : (s : Status) → is_alive (after_shut s) ≡ is_alive s
after_shut-alive absent = refl
after_shut-alive arrived = refl
after_shut-alive up = refl
after_shut-alive closing = refl
after_shut-alive gone = refl

not-true : (b : Bool) → not b ≡ true → b ≡ false
not-true true e = absurd cc
not-true false e = refl

arrived_there : (s : Status) → is_arrived s ≡ true → (is_absent s ≡ false) × (is_alive s ≡ true)
arrived_there arrived e = (refl, refl)
arrived_there absent e = absurd cc
arrived_there up e = absurd cc
arrived_there closing e = absurd cc
arrived_there gone e = absurd cc

module _ (w : World) (r : Roll) (f : Follows w r) (h : r.next < 2 ^ 31) where
  -- The status of a connection that is there changes.
  given-Meets :
      (id : ℕ) (s : Status) (c : Connection)
      → Agrees s c
      → is_alive s ≡ is_alive (r.status id)
      → is_absent (r.status id) ≡ false
      → Meets (r.next + 1) (done (with_connection id c w)) (becomes id r (some s))
  given-Meets id s c a e p = (same_map id s c w r f a e (alive_below w r f id p), omega arith)

  pub step-Meets :
      (e : Event) → is_proper e r ≡ true → Meets (r.next + 1) (step e w) (roll_step e r)
  unfolding step
  step-Meets (arrives fd) p = arrive-Meets w r f fd h
  step-Meets (enables id) p =
      let same : becomes id r (some (r.status id)) ≡ some r =
        ap (λ st. some (record { next = r.next; status = st }))
          (set_at_same id (r.status id) r.status refl) in
      subst (Meets (r.next + 1) (step (enables id) w)) same (
        given-Meets id (r.status id) _ (enable-Agrees w r f id (r.status id) (f.states id)) refl
          (not-true _ p))
  step-Meets (establishes id) p =
      let (there, alive) = arrived_there (r.status id) p in
      given-Meets id up _ (establish-Agrees w r f (w.connection id)) (sym alive) there
  step-Meets (shuts id) p =
      given-Meets id (after_shut (r.status id)) _ (after_shut-Agrees w r f id (r.status id) refl)
        (after_shut-alive (r.status id)) (not-true _ p)
  step-Meets (ends loop id) p =
      ends-Meets w r f loop id (r.status id) refl (not-true _ p) (omega arith)
