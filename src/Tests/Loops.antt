-- ===== src/Tests/Loops.antt =====
-- The theorems on the event loop and the loops of the threads at concrete runs.
use winterfell.Prelude.{
  set_at, Ends, some, none, ℕ, ◌≡◌, refl, true, false, inl, List, [], ◌∷◌, ◌++◌, length, ◌+◌, ◌%◌,
  ◌≤◌, done, aborted, ◌==◌, if◌then◌else◌,
}
use winterfell.Net.EventLoop.{
  do_pending_functors, polling, Loop, handling, calling, fresh_loop, runs_from_outside,
  wakes_from_outside, poll_returned, takes, calls_next, queues, step, run_in_loop, clear_wakeups,
  queue_in_loop, wakeup, owe, pay, take_pending, call_next, queue_next,
}
use winterfell.Net.EventLoop.Owner.{Process, Owner, construct, begin_loop, constructs, begins}
use winterfell.Net.EventLoop.Owner.Single.{Life, starts, later, IsSingle, Life-one}
use winterfell.Net.EventLoop.Turn.{turn-calls, returned}
use winterfell.Net.EventLoop.Wakeups.{
  IsWatched, in_hand, Execution, start, next, Execution-IsWatched,
}
use winterfell.Net.SubLoops.{SubLoops, get_next_loop, get_loops}
use winterfell.Net.SubLoops.Turns.{running, turns_lem}

-- The functor 1 queues the functor 2, which queues nothing.
abbrev follow_up : ℕ → List ℕ
follow_up t = if t == 1 then 2 ∷ [] else []

-- Another thread queues the functor 1 and wakes the loop up; a round of the loop up to what the functor queues.
abbrev one_queued : Loop ℕ
one_queued = pay follow_up 0 (run_in_loop follow_up false 1 (fresh_loop follow_up false))

abbrev after_one : Loop ℕ
after_one = queue_next follow_up (calling [] []) 2 (
    call_next follow_up 1 [] (
      take_pending follow_up (clear_wakeups follow_up (record one_queued { phase = handling [] }))))

ran_one : Execution follow_up (fresh_loop follow_up false) (1 ∷ 2 ∷ []) (1 ∷ []) after_one
unfolding step run_in_loop queue_in_loop wakeup clear_wakeups take_pending call_next queue_next owe
    pay
ran_one =
    next queues
      (next calls_next
        (next takes
          (next (poll_returned true)
            (next wakes_from_outside (next (runs_from_outside 1) start refl) refl) refl)
          refl)
        refl)
      refl

Execution-IsWatched_example :
    IsWatched after_one × (1 ∷ (in_hand after_one.phase ++ after_one.pending) ≡ 1 ∷ 2 ∷ [])
Execution-IsWatched_example = Execution-IsWatched follow_up (inl refl) ran_one

-- The functors 1 and 3 are pending.
abbrev two_pending : Loop ℕ
two_pending =
    run_in_loop follow_up false 3 (run_in_loop follow_up false 1 (fresh_loop follow_up false))

turn-calls_example :
    Execution follow_up two_pending
      (2 ∷ [])
      (1 ∷ 3 ∷ [])
      (do_pending_functors follow_up (returned follow_up true two_pending))
    × ((do_pending_functors follow_up (returned follow_up true two_pending)).phase ≡ polling)
    × ((do_pending_functors follow_up (returned follow_up true two_pending)).pending ≡ 2 ∷ [])
unfolding run_in_loop queue_in_loop owe
turn-calls_example = turn-calls follow_up true two_pending refl

turns_lem_example :
    (get_loops {Loop = ℕ} 2 (running (7 ∷ 8 ∷ 9 ∷ []) 0)
      ≡ done (8 ∷ 9 ∷ [], running (7 ∷ 8 ∷ 9 ∷ []) 2))
    × (get_loops {Loop = ℕ} 3 (running (7 ∷ 8 ∷ 9 ∷ []) 2)
        ≡ done (7 ∷ 8 ∷ 9 ∷ [], running (7 ∷ 8 ∷ 9 ∷ []) 2))
    × ((s : SubLoops ℕ) → length s.loops ≤ (s.next + 1) % s.num_threads → get_next_loop s ≡ aborted)
turns_lem_example = turns_lem {Loop = ℕ} 7 (8 ∷ 9 ∷ [])

-- Thread 7 has constructed its loop at 40.
abbrev one_loop : Process
one_loop = record {
  here = set_at 7 (some 40) (λ t. none);
  loops = set_at 40 (some (record { thread = 7; looping = false })) (λ l. none);
}

one_loop-Life : Life one_loop
unfolding construct
one_loop-Life = later (constructs 7 40) starts refl refl

Life-one_example :
    ((k l : ℕ) (o p : Owner)
      → one_loop.loops k ≡ some o
      → one_loop.loops l ≡ some p
      → o.thread ≡ p.thread
      → k ≡ l)
    × Ends true (begin_loop 7 40 one_loop) IsSingle
Life-one_example = Life-one (begins 7 40) one_loop-Life refl
