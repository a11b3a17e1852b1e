-- ===== src/Net/EventLoop/Wakeups.antt =====
-- The order in which the functors of winterfell/net/wf_event_loop.cc are called, and the wake-ups of
-- its eventfd.
use winterfell.Prelude.{
  ℕ, zero, suc, ◌<◌, ◌≡◌, refl, sym, ap, ◌∙◌, Bool, true, false, ◌⊎◌, inl, inr, List, [], ◌∷◌, ◌++◌,
  Option, some, none, arith, append_assoc, append-nil, subst,
}
use winterfell.Net.EventLoop.{
  Phase, polling, handling, stopped, calling, Loop, Event, runs_from_outside, quits_from_outside,
  wakes_from_outside, poll_returned, handler_runs, handler_queues, handler_quits, queues, takes,
  calls_next, ends, step, wakeup, clear_wakeups, owe, pay, when_owed, queue_in_loop, queue_next,
  run_in_loop, quit_loop, take_pending, call_next, end_pending,
}

-- If something is queued, the counter of the eventfd is positive, so that `poll` returns at once, or
-- another thread is on its way to make it so.
abbrev pub Woken : {Task : Type 0} → Loop Task → Type 0
Woken s = (s.pending ≡ []) ⊎ ((0 < s.wakeups) ⊎ (0 < s.owed))

-- What holds of a loop in each phase: in `poll`, and while functors are called, it is woken.
abbrev pub PhaseOk : {Task : Type 0} → Phase Task → Loop Task → Type 0
PhaseOk polling s = Woken s
PhaseOk (handling ts) s = Unit
PhaseOk stopped s = Woken s
PhaseOk (calling ts us) s = (s.calling_pending ≡ true) × Woken s

abbrev pub IsWatched : {Task : Type 0} → Loop Task → Type 0
IsWatched s = PhaseOk s.phase s

-- The functors taken and not yet called.
abbrev pub in_hand : {Task : Type 0} → Phase Task → List Task
in_hand polling = []
in_hand (handling ts) = []
in_hand stopped = []
in_hand (calling ts us) = us

module _ {Task : Type 0} (queued_by : Task → List Task) where
  -- A loop of these parts, for clauses on them.
  abbrev of_parts : Phase Task → Bool → List Task → Bool → ℕ → ℕ → Loop Task
  of_parts p q ts flag n m = record {
    phase = p;
    quit = q;
    pending = ts;
    calling_pending = flag;
    wakeups = n;
    owed = m;
  }

  -- The functors that a step queues, and the queued functor that it calls.
  abbrev pub queued_in : Event queued_by → Phase Task → List Task
  queued_in (runs_from_outside t) p = t ∷ []
  queued_in (handler_queues t) p = t ∷ []
  queued_in queues (handling (t ∷ ts)) = t ∷ []
  queued_in queues (calling (t ∷ ts) us) = t ∷ []
  queued_in e p = []

  abbrev pub called_in : Event queued_by → Phase Task → List Task
  called_in calls_next (calling [] (t ∷ ts)) = t ∷ []
  called_in e p = []

  abbrev Goes : Event queued_by → Loop Task → Option (Loop Task) → Type 0
  Goes e s none = Unit
  Goes e s (some s') =
      IsWatched s'
      × (called_in e s.phase ++ (in_hand s'.phase ++ s'.pending)
          ≡ (in_hand s.phase ++ s.pending) ++ queued_in e s.phase)

  woken_ok :
      (p : Phase Task) (s s' : Loop Task)
      → PhaseOk p s
      → s'.calling_pending ≡ s.calling_pending
      → (0 < s'.wakeups) ⊎ (0 < s'.owed)
      → PhaseOk p s'
  woken_ok polling s s' w f k = inr k
  woken_ok (handling ts) s s' w f k = tt
  woken_ok stopped s s' w f k = inr k
  woken_ok (calling ts us) s s' w f k = (f ∙ w.0, inr k)

  paid :
      (m : ℕ) (p : Phase Task) (q : Bool) (ts : List Task) (flag : Bool) (n k : ℕ)
      → IsWatched (of_parts p q ts flag n k)
      → Goes wakes_from_outside
          (of_parts p q ts flag n k)
          (when_owed queued_by m (of_parts p q ts flag n k))
  unfolding pay wakeup
  paid zero p q ts flag n k w = tt
  paid (suc m) p q ts flag n k w = (
    woken_ok p (of_parts p q ts flag n k) _ w refl (inl (omega arith)),
    sym (append-nil (in_hand p ++ ts)),
  )

  -- In a handler the flag may be set or not.
  queued_handling :
      (us : List Task) (t : Task) (q : Bool) (ts : List Task) (flag : Bool) (n m : ℕ)
      → let s' = queue_in_loop queued_by true t (of_parts (handling us) q ts flag n m) in
        IsWatched s' × (in_hand s'.phase ++ s'.pending ≡ ts ++ t ∷ [])
  unfolding queue_in_loop wakeup
  queued_handling us t q ts true n m = (tt, refl)
  queued_handling us t q ts false n m = (tt, refl)

  -- A functor that queues another one wakes the loop up.
  queued_calling :
      (vs us : List Task) (t : Task) (q : Bool) (ts : List Task) (flag : Bool) (n m : ℕ)
      → flag ≡ true
      → let s' = queue_in_loop queued_by true t (of_parts (calling vs us) q ts flag n m) in
        IsWatched s' × (in_hand s'.phase ++ s'.pending ≡ (us ++ ts) ++ t ∷ [])
  unfolding queue_in_loop wakeup
  queued_calling vs us t q ts true n m e =
      ((refl, inr (inl (omega arith))), sym (append_assoc us ts (t ∷ [])))
  queued_calling vs us t q ts false n m e = cc

  step_parts :
      (e : Event queued_by) (p : Phase Task) (q : Bool) (ts : List Task) (flag : Bool) (n m : ℕ)
      → IsWatched (of_parts p q ts flag n m)
      → Goes e (of_parts p q ts flag n m) (step queued_by e (of_parts p q ts flag n m))
  unfolding step run_in_loop quit_loop queue_in_loop queue_next owe wakeup clear_wakeups
      take_pending call_next end_pending
  step_parts (runs_from_outside t) p q ts flag n m w = (
    woken_ok p (of_parts p q ts flag n m) _ w refl (inr (omega arith)),
    sym (append_assoc (in_hand p) ts (t ∷ [])),
  )
  step_parts quits_from_outside p q ts flag n m w = (
    woken_ok p (of_parts p q ts flag n m) _ w refl (inr (omega arith)),
    sym (append-nil (in_hand p ++ ts)),
  )
  step_parts wakes_from_outside p q ts flag n m w = paid m p q ts flag n m w
  step_parts (poll_returned true) polling q ts flag n m w = (tt, sym (append-nil ts))
  step_parts (poll_returned false) polling q ts flag n m w = (tt, sym (append-nil ts))
  step_parts (handler_runs t) (handling []) q ts flag n m w = (tt, sym (append-nil ts))
  step_parts (handler_queues t) (handling []) q ts flag n m w = queued_handling [] t q ts flag n m
  step_parts handler_quits (handling []) q ts flag n m w = (tt, sym (append-nil ts))
  step_parts queues (handling (t ∷ us)) q ts flag n m w = queued_handling us t q ts flag n m
  step_parts queues (calling (t ∷ vs) us) q ts flag n m w = queued_calling vs us t q ts flag n m w.0
  step_parts takes (handling []) q ts flag n m w = ((refl, inl refl), refl)
  step_parts calls_next (calling [] (t ∷ us)) q ts flag n m w =
      (w, ap (λ l. t ∷ l) (sym (append-nil (us ++ ts))))
  step_parts ends (calling [] []) true ts flag n m w = (w.1, sym (append-nil ts))
  step_parts ends (calling [] []) false ts flag n m w = (w.1, sym (append-nil ts))
  step_parts (poll_returned true) (handling us) q ts flag n m w = tt
  step_parts (poll_returned true) stopped q ts flag n m w = tt
  step_parts (poll_returned true) (calling vs us) q ts flag n m w = tt
  step_parts (poll_returned false) (handling us) q ts flag n m w = tt
  step_parts (poll_returned false) stopped q ts flag n m w = tt
  step_parts (poll_returned false) (calling vs us) q ts flag n m w = tt
  step_parts (handler_runs t) polling q ts flag n m w = tt
  step_parts (handler_runs t) stopped q ts flag n m w = tt
  step_parts (handler_runs t) (handling (u ∷ us)) q ts flag n m w = tt
  step_parts (handler_runs t) (calling vs us) q ts flag n m w = tt
  step_parts (handler_queues t) polling q ts flag n m w = tt
  step_parts (handler_queues t) stopped q ts flag n m w = tt
  step_parts (handler_queues t) (handling (u ∷ us)) q ts flag n m w = tt
  step_parts (handler_queues t) (calling vs us) q ts flag n m w = tt
  step_parts handler_quits polling q ts flag n m w = tt
  step_parts handler_quits stopped q ts flag n m w = tt
  step_parts handler_quits (handling (u ∷ us)) q ts flag n m w = tt
  step_parts handler_quits (calling vs us) q ts flag n m w = tt
  step_parts takes polling q ts flag n m w = tt
  step_parts takes stopped q ts flag n m w = tt
  step_parts takes (handling (u ∷ us)) q ts flag n m w = tt
  step_parts takes (calling vs us) q ts flag n m w = tt
  step_parts queues polling q ts flag n m w = tt
  step_parts queues stopped q ts flag n m w = tt
  step_parts queues (handling []) q ts flag n m w = tt
  step_parts queues (calling [] us) q ts flag n m w = tt
  step_parts calls_next polling q ts flag n m w = tt
  step_parts calls_next stopped q ts flag n m w = tt
  step_parts calls_next (handling us) q ts flag n m w = tt
  step_parts calls_next (calling [] []) q ts flag n m w = tt
  step_parts calls_next (calling (v ∷ vs) us) q ts flag n m w = tt
  step_parts ends polling q ts flag n m w = tt
  step_parts ends stopped q ts flag n m w = tt
  step_parts ends (handling us) q ts flag n m w = tt
  step_parts ends (calling [] (t ∷ us)) q ts flag n m w = tt
  step_parts ends (calling (v ∷ vs) us) q ts flag n m w = tt

  -- A run of the loop: what was queued on the way, what was called, and the end.
  pub data Execution (s : Loop Task) : List Task → List Task → Loop Task → Type 0 where
    start : Execution s [] [] s
    next :
        {t u : Loop Task} {queued called : List Task} (e : Event queued_by)
        → Execution s queued called t
        → step queued_by e t ≡ some u
        → Execution s (queued ++ queued_in e t.phase) (called ++ called_in e t.phase) u

  -- From a loop that is watched, whatever the threads do and in whatever order, another thread queuing
  -- a functor, or quitting, and writing to the eventfd in two steps: the queued functors called so
  -- far, followed by those in hand and those pending, are those in hand and pending at the start
  -- followed by those queued since, in order, so none is lost, called twice or overtaken; and whenever
  -- the loop is in poll and a functor is pending, the counter of the eventfd is positive, or another
  -- thread has queued or quit and is on its way to write to it.
  pub Execution-IsWatched :
      {s t : Loop Task} {queued called : List Task}
      → IsWatched s
      → Execution s queued called t
      → IsWatched t
        × (called ++ (in_hand t.phase ++ t.pending) ≡ (in_hand s.phase ++ s.pending) ++ queued)
  Execution-IsWatched {s = s} w start = (w, sym (append-nil (in_hand s.phase ++ s.pending)))
  Execution-IsWatched {s = s} w (next {t = t} {u = u} {queued = queued} {called = called} e h run) =
      let (w', total) = Execution-IsWatched w h in
      let (w'', more) =
        subst (Goes e t) run
          (step_parts e t.phase t.quit t.pending t.calling_pending t.wakeups t.owed w') in
      (
        w'',
        append_assoc called (called_in e t.phase) (in_hand u.phase ++ u.pending)
            ∙ ap (λ k. called ++ k) more
            ∙ sym (append_assoc called (in_hand t.phase ++ t.pending) (queued_in e t.phase))
            ∙ ap (λ k. k ++ queued_in e t.phase) total
            ∙ append_assoc (in_hand s.phase ++ s.pending) queued (queued_in e t.phase),
      )
