-- ===== src/Net/TcpClient/Lifetimes.antt =====
-- The life of each connection of winterfell/net/wf_tcp_client.cc.
use winterfell.Prelude.{
  ℕ, ◌≡◌, refl, sym, ap, subst, ◌∙◌, Bool, true, false, ◌&&◌, ◌==◌, List, [], ◌∷◌, ◌++◌, Option,
  some, none, Run, done, aborted, looping, if◌then◌else◌, arith, append_assoc, append-nil,
  Bool-cases, inl, inr,
}
use winterfell.Net.TcpClient.{
  Client, Effect, stops, restarts, establishes, destroys, detaches, destroy, enable_retry, connect,
  disconnect, stop, new_connection, remove_connection,
}

-- What may happen to a client.
pub data Event : Type 0 where
  retries connects disconnects halts connected : Event
  closed : ℕ → Event

unfoldable pub step : Event → Client → Run (List Effect × Client)
step retries c = done ([], enable_retry c)
step connects c = done (connect c)
step disconnects c = done (disconnect c)
step halts c = done (stop c)
step connected c = done (new_connection c)
step (closed k) c = remove_connection k c

-- The connections that were established, and those whose end was asked for, in order.
abbrev pub established : List Effect → List ℕ
established [] = []
established (establishes k ∷ fx) = k ∷ established fx
established (_ ∷ fx) = established fx

abbrev pub destroyed : List Effect → List ℕ
destroyed [] = []
destroyed (destroys k ∷ fx) = k ∷ destroyed fx
destroyed (_ ∷ fx) = destroyed fx

abbrev pub held : Option ℕ → List ℕ
held none = []
held (some k) = k ∷ []

-- The connector makes a connection only when the client has none.
abbrev pub IsPossible : Event → Client → Type 0
IsPossible connected c = c.connection ≡ none
IsPossible _ c = Unit

abbrev Keeps : Client → Run (List Effect × Client) → Type 0
Keeps c (done (fx, d)) = destroyed fx ++ held d.connection ≡ held c.connection ++ established fx
Keeps c aborted = Unit
Keeps c looping = Unit

abbrev of_parts : Bool → Bool → ℕ → Option ℕ → Client
of_parts r w n k = record { retry = r; wanted = w; next_conn_id = n; connection = k }

restart_lists :
    (b : Bool)
    → (destroyed (if b then restarts ∷ [] else []) ≡ [])
      × (established (if b then restarts ∷ [] else []) ≡ [])
restart_lists true = (refl, refl)
restart_lists false = (refl, refl)

step_parts :
    (e : Event) (r w : Bool) (n : ℕ) (k : Option ℕ)
    → IsPossible e (of_parts r w n k)
    → Keeps (of_parts r w n k) (step e (of_parts r w n k))
unfolding step enable_retry connect disconnect stop new_connection remove_connection
step_parts retries r w n k h = sym (append-nil (held k))
step_parts connects r w n k h = sym (append-nil (held k))
step_parts disconnects r w n none h = refl
step_parts disconnects r w n (some k) h = refl
step_parts halts r w n k h = sym (append-nil (held k))
step_parts connected r w n none h = refl
step_parts connected r w n (some k) h = cc
step_parts (closed j) r w n none h = tt
step_parts (closed j) r w n (some k) h = elim (Bool-cases (j == k)) [
  | inl e ↦
      let same : j ≡ k = ground (arith, e) in
      rw (e, (restart_lists (r && w)).0, (restart_lists (r && w)).1) (ap (λ i. i ∷ []) same)
  | inr e ↦ rw e tt
]

-- What the destructor asks for, with these connections held.
abbrev pub ends_of : List ℕ → List Effect
ends_of [] = stops ∷ []
ends_of (k ∷ ks) = detaches k ∷ []

destroy-held : (c : Client) → destroy c ≡ ends_of (held c.connection)
unfolding destroy
destroy-held c = go c.connection
  where
    go : (k : Option ℕ) → elim k [ none ↦ stops ∷ [] | some k ↦ detaches k ∷ [] ] ≡ ends_of (held k)
    go none = refl
    go (some k) = refl

-- A history: the connections established and ended on the way, and the end.
pub data History (c : Client) : List ℕ → List ℕ → Client → Type 0 where
  start : History c [] [] c
  next :
      {d e : Client} {made ended : List ℕ} {fx : List Effect} (event : Event)
      → History c made ended d
      → IsPossible event d
      → step event d ≡ done (fx, e)
      → History c (made ++ established fx) (ended ++ destroyed fx) e

History-held :
    {c d : Client} {made ended : List ℕ}
    → History c made ended d
    → ended ++ held d.connection ≡ held c.connection ++ made
History-held {c = c} start = sym (append-nil (held c.connection))
History-held {c = c}
      (next {d = d} {e = e} {made = made} {ended = ended} {fx = fx} event h fits run) =
    let total = History-held h in
    let more =
      subst (Keeps d) run (step_parts event d.retry d.wanted d.next_conn_id d.connection fits) in
    append_assoc ended (destroyed fx) (held e.connection)
    ∙ ap (λ k. ended ++ k) more
    ∙ sym (append_assoc ended (held d.connection) (established fx))
    ∙ ap (λ k. k ++ established fx) total
    ∙ append_assoc (held c.connection) made (established fx)

-- Over any history in which a connection is made only when the client has none: the connections whose
-- end was asked for, followed by the one still held, are the one held at the start followed by those
-- established since, in order; so none is dropped, and none is destroyed twice. And the destructor
-- gives the one still held, and no other, the callback that ends it; without one it stops the
-- connector.
pub History-keeps :
    {c d : Client} {made ended : List ℕ}
    → History c made ended d
    → (ended ++ held d.connection ≡ held c.connection ++ made)
      × (destroy d ≡ ends_of (held d.connection))
History-keeps {d = d} h = (History-held h, destroy-held d)
