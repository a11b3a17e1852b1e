-- ===== src/Net/EventLoop/Turn.antt =====
-- A turn of the loop of winterfell/net/wf_event_loop.cc that no other thread disturbs: every functor that is pending is
-- called.
use winterfell.Prelude.{
  ◌≡◌, refl, sym, ap, ◌∙◌, Bool, true, false, List, [], ◌∷◌, ◌++◌, append_assoc, append-nil, subst,
  if◌then◌else◌, arith,
}
use winterfell.Net.EventLoop.{
  call_all, do_pending_functors, polling, handling, stopped, calling, Loop, poll_returned, queues,
  takes, calls_next, ends, step, wakeup, clear_wakeups, queue_in_loop, queue_next, queue_all,
  take_pending, call_next, end_pending, when_queueing, when_called, when_done, when_polling,
}
use winterfell.Net.EventLoop.Wakeups.{Execution, start, next, queued_in, called_in}

module _ {Task : Type 0} (queued_by : Task → List Task) where
  -- What these functors queue.
  abbrev pub queued_by_all : List Task → List Task
  queued_by_all [] = []
  queued_by_all (t ∷ ts) = queued_by t ++ queued_by_all ts

  queue_one :
      (ts us : List Task) (t : Task) (s : Loop Task)
      → let s' = queue_next queued_by (calling ts us) t s in
        (s'.phase ≡ calling ts us) × (s'.quit ≡ s.quit) × (s'.pending ≡ s.pending ++ t ∷ [])
  unfolding queue_next queue_in_loop wakeup
  queue_one ts us t s = (ground arith, ground arith, ground arith)

  -- The loop is the same but for what is pending and the wake-ups.
  queue_all_keeps :
      (ts us : List Task) (s : Loop Task)
      → s.phase ≡ calling ts us
      → let s' = queue_all queued_by ts us s in
        (s'.phase ≡ calling [] us) × (s'.quit ≡ s.quit) × (s'.pending ≡ s.pending ++ ts)
  unfolding queue_all
  queue_all_keeps [] us s e = (e, refl, sym (append-nil s.pending))
  queue_all_keeps (t ∷ ts) us s e =
      let (p', q', r') = queue_one ts us t s in
      let (p, q, r) = queue_all_keeps ts us (queue_next queued_by (calling ts us) t s) p' in
      (p, q ∙ q', r ∙ ap (λ l. l ++ ts) r' ∙ append_assoc s.pending (t ∷ []) ts)

  relisted :
      {s t : Loop Task} {q q' c c' : List Task}
      → q ≡ q'
      → c ≡ c'
      → Execution queued_by s q c t
      → Execution queued_by s q' c' t
  relisted {s} {t} {q' = q'} {c = c} e f h =
      subst (λ l. Execution queued_by s q' l t) f (subst (λ l. Execution queued_by s l c t) e h)

  -- What a functor queues, step by step.
  queueing :
      {s : Loop Task} (ts us : List Task) {q c : List Task} (u : Loop Task)
      → u.phase ≡ calling ts us
      → Execution queued_by s q c u
      → Execution queued_by s (q ++ ts) c (queue_all queued_by ts us u)
  unfolding step queue_all
  queueing [] us {q} {c} u e h = relisted (sym (append-nil q)) refl h
  queueing (t ∷ ts) us {q} {c} u e h = relisted (append_assoc q (t ∷ []) ts) refl (
      queueing ts us (queue_next queued_by (calling ts us) t u) (queue_one ts us t u).0 (
        relisted (ap (λ x. q ++ queued_in queued_by queues x) e)
          (ap (λ x. c ++ called_in queued_by queues x) e ∙ append-nil c)
          (next queues h (ap (λ x. when_queueing queued_by x u) e))))

  -- The rest of `doPendingFunctors`, step by step.
  calls :
      {s : Loop Task} (ts : List Task) {q c : List Task} (u : Loop Task)
      → u.phase ≡ calling [] ts
      → Execution queued_by s q c u
      → Execution queued_by s (q ++ queued_by_all ts) (c ++ ts) (call_all queued_by ts u)
  unfolding step call_all call_next end_pending
  calls [] {q} {c} u e h =
      relisted (ap (λ x. q ++ queued_in queued_by ends x) e)
        (ap (λ x. c ++ called_in queued_by ends x) e)
        (next ends h (ap (λ x. when_done queued_by x u) e))
  calls (t ∷ ts) {q} {c} u e h =
      let (p, r, k) = queue_all_keeps (queued_by t) ts (call_next queued_by t ts u) refl in
      let called : Execution queued_by _ q (c ++ t ∷ []) (call_next queued_by t ts u) =
        relisted (ap (λ x. q ++ queued_in queued_by calls_next x) e ∙ append-nil q)
          (ap (λ x. c ++ called_in queued_by calls_next x) e)
          (next calls_next h (ap (λ x. when_called queued_by x u) e)) in
      relisted (append_assoc q (queued_by t) (queued_by_all ts)) (append_assoc c (t ∷ []) ts) (
        calls ts (queue_all queued_by (queued_by t) ts (call_next queued_by t ts u)) p
          (queueing (queued_by t) ts (call_next queued_by t ts u) refl called))

  -- What they leave.
  call_all_leaves :
      (ts : List Task) (u : Loop Task)
      → let t = call_all queued_by ts u in
        (t.phase ≡ (if u.quit then stopped else polling))
        × (t.pending ≡ u.pending ++ queued_by_all ts)
  unfolding call_all call_next end_pending
  call_all_leaves [] u = (refl, sym (append-nil u.pending))
  call_all_leaves (t ∷ ts) u =
      let (p, r, k) = queue_all_keeps (queued_by t) ts (call_next queued_by t ts u) refl in
      let (a, b) =
        call_all_leaves ts (queue_all queued_by (queued_by t) ts (call_next queued_by t ts u)) in
      (
        a ∙ ap (λ q. if q then stopped else polling) r,
        b
            ∙ ap (λ l. l ++ queued_by_all ts) k
            ∙ append_assoc u.pending (queued_by t) (queued_by_all ts),
      )

  -- When `poll` has returned, and whether for the eventfd.
  abbrev pub returned : Bool → Loop Task → Loop Task
  returned true s = clear_wakeups queued_by (record s { phase = handling [] })
  returned false s = record s { phase = handling [] }

  -- From a loop in `poll`, its own next steps, the return of `poll`, for the eventfd or not, and then those of
  -- `doPendingFunctors`, are all possible; they call exactly the functors that were pending, in order, and then
  -- the loop is in `poll` again, or stopped if it was told to quit, and what is pending is what those functors
  -- queued.
  pub turn-calls :
      (ready : Bool) (s : Loop Task)
      → s.phase ≡ polling
      → let t = do_pending_functors queued_by (returned ready s) in
        Execution queued_by s (queued_by_all s.pending) s.pending t
        × (t.phase ≡ (if s.quit then stopped else polling))
        × (t.pending ≡ queued_by_all s.pending)
  unfolding step do_pending_functors take_pending clear_wakeups
  turn-calls true s e =
      let polled : Execution queued_by s [] [] (returned true s) =
        next (poll_returned true) start (ap (λ x. when_polling queued_by true x s) e) in
      let (a, b) = call_all_leaves s.pending (take_pending queued_by (returned true s)) in
      (
        calls s.pending (take_pending queued_by (returned true s)) refl (next takes polled refl),
        a,
        b,
      )
  turn-calls false s e =
      let polled : Execution queued_by s [] [] (returned false s) =
        next (poll_returned false) start (ap (λ x. when_polling queued_by false x s) e) in
      let (a, b) = call_all_leaves s.pending (take_pending queued_by (returned false s)) in
      (
        calls s.pending (take_pending queued_by (returned false s)) refl (next takes polled refl),
        a,
        b,
      )
