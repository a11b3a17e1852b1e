-- ===== src/Example/EchoRate/Same.antt =====
-- The limited echo server, example/echo_rate/server.cc, against the plain one, example/echo/server.cc.
use winterfell.Prelude.{
  ℕ, ◌≡◌, refl, ap, subst, true, false, inl, inr, Bool-cases, List, [], ◌∷◌, Run, done, aborted,
  looping, ◌>>=◌,
}
use winterfell.Prelude.Int.{pos, ltb_ℤ}
use winterfell.Base.Timestamp.{Timestamp}
use winterfell.Base.Rate.{Doubles, Limiter, reserve_n, infinite}
use winterfell.Buffer.{failed, received}
use winterfell.Net.TcpConnection.{Connection, Effect, WriteResult, handle_read}
use winterfell.Example.Echo.{Event, reads, flushes}
use winterfell.Example.Echo
use winterfell.Example.EchoRate.{Readings, Answer, on_message, step, run}

abbrev Pair : Type 0
Pair = List Effect × Connection

abbrev pub events : List (Readings × Event) → List Event
events [] = []
events ((t, e) ∷ es) = e ∷ events es

module _ (d : Doubles) where
  -- What is done to the connection, whatever the pauses and the limiter.
  abbrev pub replies : Run (Answer d) → Run Pair
  replies m = m >>= λ (p, ps, l). done p

  abbrev HasBurst : Limiter d → Type 0
  HasBurst l = ltb_ℤ l.burst (pos 1) ≡ false

  reserve_n-granted :
      (t t' : Timestamp) (l : Limiter d)
      → HasBurst l
      → ((reserve_n d (pos 1) t t' l).0.granted ≡ true) × HasBurst (reserve_n d (pos 1) t t' l).1
  unfolding reserve_n
  reserve_n-granted t t' l h = elim (Bool-cases (d.equal l.limit (infinite d))) [
    | inl e ↦ rw e (refl, h)
    | inr e ↦ rw (e, h) (refl, h)
  ]

  abbrev Same : Run (Answer d) → Run Pair → Type 0
  Same (done (p, ps, l)) (done q) = (p ≡ q) × HasBurst l
  Same aborted aborted = Unit
  Same looping looping = Unit
  Same _ _ = ⊥

  Same-replies : (m : Run (Answer d)) (n : Run Pair) → Same m n → replies m ≡ n
  Same-replies (done (p, ps, l)) (done q) (e, h) = ap (λ p. done p) e
  Same-replies (done (p, ps, l)) aborted h = absurd h
  Same-replies (done (p, ps, l)) looping h = absurd h
  Same-replies aborted (done q) h = absurd h
  Same-replies aborted aborted h = refl
  Same-replies aborted looping h = absurd h
  Same-replies looping (done q) h = absurd h
  Same-replies looping aborted h = absurd h
  Same-replies looping looping h = refl

  unpaused-Same :
      (l : Limiter d) (ps : List ℕ) (n : Run Pair)
      → HasBurst l
      → Same (n >>= λ p. done (p, ps, l)) n
  unpaused-Same l ps (done q) h = (refl, h)
  unpaused-Same l ps aborted h = tt
  unpaused-Same l ps looping h = tt

  bind-Same :
      (m : Run (Answer d)) (n : Run Pair) (k : Answer d → Run (Answer d)) (g : Pair → Run Pair)
      → Same m n
      → ((p : Pair) (ps : List ℕ) (l : Limiter d) → HasBurst l → Same (k (p, ps, l)) (g p))
      → Same (m >>= k) (n >>= g)
  bind-Same (done (p, ps, l)) (done q) k g (e, h) go =
      subst (λ q. Same (k (p, ps, l)) (g q)) e (go p ps l h)
  bind-Same (done (p, ps, l)) aborted k g h go = absurd h
  bind-Same (done (p, ps, l)) looping k g h go = absurd h
  bind-Same aborted (done q) k g h go = absurd h
  bind-Same aborted aborted k g h go = tt
  bind-Same aborted looping k g h go = absurd h
  bind-Same looping (done q) k g h go = absurd h
  bind-Same looping aborted k g h go = absurd h
  bind-Same looping looping k g h go = tt

  module _ (t : Readings) (l : Limiter d) (h : HasBurst l) where
    on_message-Same :
        (w : WriteResult) (c : Connection) → Same (on_message d t w l c) (Echo.on_message w c)
    unfolding on_message
    on_message-Same w c =
        let (granted, more) = reserve_n-granted t.reserved t.advanced l h in
        rw granted (unpaused-Same _ _ (Echo.on_message w c) more)

    step-Same : (e : Event) (c : Connection) → Same (step d t e l c) (Echo.step e c)
    unfolding step Echo.step handle_read
    step-Same (reads (received (x ∷ xs)) w) c =
        bind-Same _ _ _ _ (on_message-Same w _) λ p ps l more. (refl, more)
    step-Same (reads (received []) w) c = unpaused-Same l [] _ h
    step-Same (reads (failed e) w) c = (refl, h)
    step-Same (flushes w) c = unpaused-Same l [] _ h

  run-Same :
      (es : List (Readings × Event)) (l : Limiter d) (c : Connection)
      → HasBurst l
      → Same (run d es l c) (Echo.run (events es) c)
  unfolding run Echo.run
  run-Same [] l c h = (refl, h)
  run-Same ((t, e) ∷ es) l c h =
      bind-Same (step d t e l c) (Echo.step e c) _ _ (step-Same t l h e c) λ p ps l more.
        bind-Same (run d es l p.1) (Echo.run (events es) p.1) _ _ (run-Same es l p.1 more)
          λ q ps l more. (refl, more)

  -- If the burst of the limiter is at least one, then over any reads and writes, at any readings of the
  -- clock, the limited echo server does to the connection exactly what the plain one does, and aborts
  -- exactly when that does: the limiter never refuses a message, and can only make the loop pause.
  pub run-replies :
      (es : List (Readings × Event)) (l : Limiter d) (c : Connection)
      → ltb_ℤ l.burst (pos 1) ≡ false
      → replies (run d es l c) ≡ Echo.run (events es) c
  run-replies es l c h = Same-replies _ _ (run-Same es l c h)
