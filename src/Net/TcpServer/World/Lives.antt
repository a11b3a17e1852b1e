-- ===== src/Net/TcpServer/World/Lives.antt =====
-- The lives of the connections of a server of winterfell/net/wf_tcp_server.cc, to the end of the server.
use winterfell.Prelude.{
  ℕ, zero, suc, ◌+◌, ◌^◌, ◌≤◌, ◌≡◌, refl, ap, ◌∙◌, Bool, true, false, ◌&&◌, List, [], ◌∷◌, length,
  Option, some, none, Run, done, aborted, looping, ◌>>=◌, inl, inr, Bool-cases, arith,
  if◌then◌else◌,
}
use winterfell.Net.TcpConnection.{Connection, is_connected}
use winterfell.Net.TcpServer.World.{World, Event, step, run, delete_below, destroy, in_map}
use winterfell.Net.TcpServer.World.Roll.{
  Status, absent, arrived, up, closing, gone, Roll, is_alive, is_up, roll_step, and_then, roll_run,
  Afterwards, AllProper, none_up, none_up_at_end,
}
use winterfell.Net.TcpServer.World.Follows.{Agrees, Follows, Meets}
use winterfell.Net.TcpServer.World.Steps.{step-Meets}

-- The server lives through these events, and is then destroyed.
unfoldable pub live : List Event → World → Run (Unit {0})
live es w = run es w >>= destroy

abbrev pub verdict : Bool → Run (Unit {0})
verdict true = done tt
verdict false = aborted

-- An entry of the map, for a connection whose state is the one that is meant.
is_up-entry :
    (s : Status) (id : ℕ) (c : Connection) (m : Option ℕ)
    → m ≡ (if is_alive s then some id else none)
    → Agrees s c
    → (in_map m && is_connected c.state) ≡ is_up s
is_up-entry absent id c m e a = rw e refl
is_up-entry arrived id c m e a = rw (e, a) refl
is_up-entry up id c m e a = rw (e, a) refl
is_up-entry closing id c m e a = rw (e, a) refl
is_up-entry gone id c m e a = rw e refl

module _ (w : World) (r : Roll) (f : Follows w r) where
  delete_below_lem : (n : ℕ) → n ≤ 2 ^ 31 → delete_below n w ≡ verdict (none_up n r)
  unfolding delete_below
  delete_below_lem zero h = refl
  delete_below_lem (suc n) h =
      let e =
        is_up-entry (r.status n) n (w.connection n) _ (f.book.entries n (omega arith))
          (f.states n) in
      elim (Bool-cases (is_up (r.status n))) [
        | inl y ↦ rw (e, y) refl
        | inr y ↦ rw (e, y) (delete_below_lem n (omega arith))
      ]

  destroy_lem : r.next ≤ 2 ^ 31 → destroy w ≡ verdict (none_up r.next r)
  unfolding destroy
  destroy_lem h =
      let e : w.server.next_conn_id ≡ r.next = f.book.same_next in
      ap (λ n. delete_below n w) e ∙ delete_below_lem r.next h

bind-Meets :
    (m : Run World) (o : Option Roll) (k : World → Run World) (g : Roll → Option Roll)
    (P : Roll → Type 0) (a b : ℕ)
    → Meets a m o
    → Afterwards P o
    → ((w : World) (r : Roll) → Follows w r → r.next ≤ a → P r → Meets b (k w) (g r))
    → Meets b (m >>= k) (and_then o g)
bind-Meets (done w) (some r) k g P a b (f, h) p go = go w r f h p
bind-Meets (done w) none k g P a b h p go = absurd h
bind-Meets aborted none k g P a b h p go = tt
bind-Meets aborted (some r) k g P a b h p go = absurd h
bind-Meets looping o k g P a b h p go = absurd h

run-Meets :
    (es : List Event) (w : World) (r : Roll) (n : ℕ)
    → Follows w r
    → AllProper es r
    → r.next + length es ≤ n
    → n ≤ 2 ^ 31
    → Meets n (run es w) (roll_run es r)
unfolding run
run-Meets [] w r n f p h l = (f, omega arith)
run-Meets (e ∷ es) w r n f p h l =
    bind-Meets (step e w) (roll_step e r) (run es) (roll_run es) (AllProper es) (r.next + 1) n
      (step-Meets w r f (omega arith) e p.0) p.1
      (λ v q g b i. run-Meets es v q n g i (omega arith) l)

-- What the destructor does after the events.
bind-verdict :
    (m : Run World) (o : Option Roll) (n : ℕ)
    → Meets n m o
    → n ≤ 2 ^ 31
    → (m >>= destroy) ≡ verdict (none_up_at_end o)
bind-verdict (done w) (some r) n (f, h) l = destroy_lem w r f (omega arith)
bind-verdict (done w) none n h l = absurd h
bind-verdict aborted none n h l = refl
bind-verdict aborted (some r) n h l = absurd h
bind-verdict looping o n h l = absurd h

-- From a server and its connections that follow a roll of their lives, over any events in which a
-- connection is called only after it was accepted and is established once, the numbers staying within
-- int: the run aborts exactly when the end of a stream is read from a connection that is not
-- established yet, or is closed. Otherwise the map holds exactly the connections accepted and not
-- closed, and each is in the state that is meant. If the server is then destroyed, this aborts exactly
-- if some connection is established and neither shut down nor closed.
pub live_lem :
    (es : List Event) (w : World) (r : Roll)
    → Follows w r
    → AllProper es r
    → r.next + length es ≤ 2 ^ 31
    → Meets (2 ^ 31) (run es w) (roll_run es r)
      × (live es w ≡ verdict (none_up_at_end (roll_run es r)))
unfolding live
live_lem es w r f p h =
    let m = run-Meets es w r (2 ^ 31) f p h (omega arith) in
    (m, bind-verdict (run es w) (roll_run es r) (2 ^ 31) m (omega arith))
