-- ===== src/Net/TcpServer/World/Follows.antt =====
-- A server of winterfell/net/wf_tcp_server.cc and its connections against the lives that are meant.
use winterfell.Prelude.{
  ℕ, ◌<◌, ◌≤◌, ◌≡◌, refl, sym, ◌∙◌, subst, false, Option, some, none, Run, done, aborted, looping,
  inl, inr, Bool-cases, arith, set_at, set_at_same, ◌==◌,
}
use mathlib.Core.Path.{fun_ext}
use winterfell.Net.TcpConnection.{Connection, connecting, connected, disconnecting, disconnected}
use winterfell.Net.TcpServer.Registry.{Book, Refines, mark}
use winterfell.Net.TcpServer.World.{World, with_connection}
use winterfell.Net.TcpServer.World.Roll.{Status, absent, arrived, up, closing, gone, Roll, is_alive}

abbrev pub Agrees : Status → Connection → Type 0
Agrees absent c = Unit
Agrees arrived c = c.state ≡ connecting
Agrees up c = c.state ≡ connected
Agrees closing c = c.state ≡ disconnecting
Agrees gone c = c.state ≡ disconnected

abbrev pub book_of : Roll → Book
book_of r = record { next = r.next; alive = λ k. is_alive (r.status k) }

-- The map holds the connections that are accepted and not closed, and each connection is in the state that is meant.
pub record Follows (w : World) (r : Roll) : Type 0 where
  pub book : Refines w.server (book_of r)
  pub states : (k : ℕ) → Agrees (r.status k) (w.connection k)
  pub later : (k : ℕ) → r.next ≤ k → r.status k ≡ absent

abbrev pub Meets : ℕ → Run World → Option Roll → Type 0
Meets n (done w) (some r) = Follows w r × (r.next ≤ n)
Meets n (done w) none = ⊥
Meets n aborted none = Unit
Meets n aborted (some r) = ⊥
Meets n looping r = ⊥

abbrev pub given : ℕ → Status → Roll → Roll
given id s r = record r { status = set_at id s r.status }

module _ (id : ℕ) (s : Status) where
  pub set-Agrees :
      (c : Connection) (status : ℕ → Status) (connection : ℕ → Connection)
      → ((k : ℕ) → Agrees (status k) (connection k))
      → Agrees s c
      → (k : ℕ) → Agrees (set_at id s status k) (set_at id c connection k)
  set-Agrees c status connection states a k = elim (Bool-cases (k == id)) [
    | inl e ↦ rw e a
    | inr e ↦ rw e (states k)
  ]

  pub alive-mark :
      (r : Roll) → mark id (is_alive s) (book_of r).alive ≡ (book_of (given id s r)).alive
  alive-mark r = fun_ext λ k. elim (Bool-cases (k == id)) [ inl e ↦ rw e refl | inr e ↦ rw e refl ]

  pub set-later :
      (r : Roll) (n : ℕ)
      → id < n
      → r.next ≤ n
      → ((k : ℕ) → r.next ≤ k → r.status k ≡ absent)
      → (k : ℕ) → n ≤ k
      → set_at id s r.status k ≡ absent
  set-later r n h l later k g =
      let e : (k == id) ≡ false = ground arith in rw e (later k (omega arith))

  -- The status of a connection changes, and the map need not.
  pub same_map :
      (c : Connection) (w : World) (r : Roll)
      → Follows w r
      → Agrees s c
      → is_alive s ≡ is_alive (r.status id)
      → id < r.next
      → Follows (with_connection id c w) (given id s r)
  same_map c w r f a e h = record {
    book =
        subst (λ al. Refines w.server (record { next = r.next; alive = al }))
          (sym (set_at_same id (is_alive s) (book_of r).alive (sym e)) ∙ alive-mark r) f.book;
    states = set-Agrees c r.status w.connection f.states a;
    later = set-later r r.next h (omega arith) f.later;
  }
