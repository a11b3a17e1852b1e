-- ===== src/Net/TcpServer/Registry.antt =====
-- The connections that winterfell/net/wf_tcp_server.cc keeps.
use winterfell.Prelude.{
  ℕ, ◌+◌, ◌^◌, ◌<◌, ◌≤◌, ◌≡◌, refl, sym, ap, Bool, true, false, List, [], ◌∷◌, Option, some, none,
  length, Run, done, aborted, looping, ◌>>=◌, Bytes, Bool-cases, inl, inr, arith, ◌==◌,
  if◌then◌else◌, subst,
}
use winterfell.Net.SubLoops.{SubLoops}
use winterfell.Net.SubLoops.Turns.{IsReady, get_next_loop-IsReady}
use winterfell.Net.TcpServer.{
  Server, ConnectionMap, Effect, establishes, destroys, put, conn_name, new_connection,
  remove_connection,
}
use winterfell.Net.TcpServer.Names.{conn_name-eq}

-- A connection arrives, or the one of this loop and number is closed.
pub data Event : Type 0 where
  arrives : Event
  closes : ℕ → ℕ → Event

unfoldable pub step : Event → Server → Run (Effect × Server)
step arrives s = new_connection s
step (closes loop id) s = remove_connection loop id s

unfoldable pub run : List Event → Server → Run Server
run [] s = done s
run (e ∷ es) s = step e s >>= λ (fx, t). run es t

-- What a server promises: numbers are given in turn, and a connection is alive from its arrival until it
-- is closed. To close one that is not alive is a fault.
pub record Book : Type 0 where
  pub next : ℕ
  pub alive : ℕ → Bool

abbrev pub mark : ℕ → Bool → (ℕ → Bool) → ℕ → Bool
mark k b alive j = if j == k then b else alive j

abbrev pub book_step : Event → Book → Option Book
book_step arrives b = some (record { next = b.next + 1; alive = mark b.next true b.alive })
book_step (closes loop id) b =
    if b.alive id then some (record b { alive = mark id false b.alive }) else none

abbrev pub and_then : Option Book → (Book → Option Book) → Option Book
and_then none f = none
and_then (some c) f = f c

abbrev pub book_run : List Event → Book → Option Book
book_run [] b = some b
book_run (e ∷ es) b = and_then (book_step e b) (λ c. book_run es c)

-- The server's map holds exactly the connections that are alive.
pub record Refines (s : Server) (b : Book) : Type 0 where
  pub same_next : s.next_conn_id ≡ b.next
  pub ready : IsReady s.sub_loops
  pub entries :
      (k : ℕ)
      → k < 2 ^ 31
      → s.connections (conn_name s.name k) ≡ (if b.alive k then some k else none)

abbrev pub Matches : Run Server → Option Book → Type 0
Matches (done s) (some b) = Refines s b
Matches (done s) none = ⊥
Matches aborted none = Unit
Matches aborted (some b) = ⊥
Matches looping b = ⊥

-- The numbers of the connections that are closed are those of the type `int`.
abbrev pub InRange : List Event → Type 0
InRange [] = Unit
InRange (arrives ∷ es) = InRange es
InRange (closes loop id ∷ es) = (id < 2 ^ 31) × InRange es

-- What the map holds of a connection, alive or not.
abbrev entry : Bool → ℕ → Option ℕ
entry alive k = if alive then some k else none

abbrev Holds : Bytes → ConnectionMap → (ℕ → Bool) → Type 0
Holds name m alive = (k : ℕ) → k < 2 ^ 31 → m (conn_name name k) ≡ entry (alive k) k

put-Holds :
    (name : Bytes) (m : ConnectionMap) (alive : ℕ → Bool) (id : ℕ) (on : Bool)
    → id < 2 ^ 31
    → Holds name m alive
    → Holds name (put (conn_name name id) (entry on id) m) (mark id on alive)
put-Holds name m alive id on h holds k l = elim (Bool-cases (k == id)) [
  | inl e ↦
      let same : k ≡ id = ground (arith, e) in
      rw (conn_name-eq name k id l h, e) (ap (entry on) (sym same))
  | inr e ↦ rw (conn_name-eq name k id l h, e) (holds k l)
]

-- The server after a connection, and after one has gone.
abbrev pub taken : SubLoops ℕ → Server → Server
taken sub s = record s {
  next_conn_id = s.next_conn_id + 1;
  connections = put (conn_name s.name s.next_conn_id) (some s.next_conn_id) s.connections;
  sub_loops = sub;
}

abbrev pub dropped : ℕ → Server → Server
dropped id s = record s { connections = put (conn_name s.name id) none s.connections }

module _ (s : Server) (b : Book) (r : Refines s b) where
  pub arrives-Matches :
      b.next < 2 ^ 31
      → (fx : Effect) × (t : Server) × (new_connection s ≡ done (fx, t))
        × Refines t (record { next = b.next + 1; alive = mark b.next true b.alive })
  unfolding new_connection
  arrives-Matches h =
      let (l, sub, e, ready) = get_next_loop-IsReady s.sub_loops r.ready in
      let small : s.next_conn_id < 2 ^ 31 = omega (arith, r.same_next) in
      (
        establishes l s.next_conn_id,
        taken sub s,
        rw e refl,
        record {
          same_next = ap (λ n. n + 1) r.same_next;
          ready = ready;
          entries =
              subst (λ n. Holds s.name (taken sub s).connections (mark n true b.alive)) r.same_next
                (put-Holds s.name s.connections b.alive s.next_conn_id true small r.entries);
        },
      )

  pub closes-Matches :
      (loop id : ℕ)
      → id < 2 ^ 31
      → b.alive id ≡ true
      → (remove_connection loop id s ≡ done (destroys loop id, dropped id s))
        × Refines (dropped id s) (record b { alive = mark id false b.alive })
  unfolding remove_connection
  closes-Matches loop id h a = (
    rw (r.entries id h, a) refl,
    record {
      same_next = r.same_next;
      ready = r.ready;
      entries = put-Holds s.name s.connections b.alive id false h r.entries;
    },
  )

  pub not_alive :
      (loop id : ℕ) → id < 2 ^ 31 → b.alive id ≡ false → remove_connection loop id s ≡ aborted
  unfolding remove_connection
  not_alive loop id h a = rw (r.entries id h, a) refl

-- From a server whose threads have pushed their loops, over any arrivals and closes, the numbers staying
-- within `int`: the server aborts exactly when a connection is closed that is not alive; otherwise
-- it ends with a map that holds exactly the connections alive, each under its own name, the next number,
-- and its loops in place.
pub run-Matches :
    (es : List Event) (s : Server) (b : Book)
    → Refines s b
    → InRange es
    → b.next + length es ≤ 2 ^ 31
    → Matches (run es s) (book_run es b)
unfolding run step
run-Matches [] s b r i h = r
run-Matches (arrives ∷ es) s b r i h =
    let (fx, t, e, q) = arrives-Matches s b r (omega arith) in
    rw e (
      run-Matches es t (record { next = b.next + 1; alive = mark b.next true b.alive }) q i
        (omega arith))
run-Matches (closes loop id ∷ es) s b r i h = elim (Bool-cases (b.alive id)) [
  | inl a ↦
      let (e, q) = closes-Matches s b r loop id i.0 a in
      rw (e, a)
        (run-Matches es (dropped id s) (record b { alive = mark id false b.alive }) q i.1
          (omega arith))
  | inr a ↦ rw (not_alive s b r loop id i.0 a, a) tt
]
