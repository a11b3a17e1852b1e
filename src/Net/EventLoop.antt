-- ===== src/Net/EventLoop.antt =====
-- The class `EventLoop` of winterfell/net/wf_event_loop.h and winterfell/net/wf_event_loop.cc: the queue of
-- functors and the wake-ups. A step is what one thread does between two points at which another may
-- come in. Another thread that queues a functor, or quits, writes to the eventfd in a step of its own. The thread of
-- the loop writes to it in the step in which it queues: other threads cannot tell.
pub mod Owner
pub mod Services
pub mod Turn
pub mod Wakeups
use winterfell.Prelude.{
  ℕ, zero, suc, ◌+◌, Bool, true, false, not, List, [], ◌∷◌, ◌++◌, Option, some, none, if◌then◌else◌,
}

-- Where the thread of the loop is: in `poll`, in the handlers of the channels, or in the functors that it
-- has taken from the queue. The first list is what the code that runs has still to queue, the other one
-- the functors that are left.
pub data Phase (Task : Type 0) : Type 0 where
  polling stopped : Phase Task
  handling : List Task → Phase Task
  calling : List Task → List Task → Phase Task

pub record Loop (Task : Type 0) : Type 0 where
  pub phase : Phase Task
  pub quit : Bool
  pub pending : List Task
  pub calling_pending : Bool
  -- the counter of the eventfd
  pub wakeups : ℕ
  -- how many other threads have queued or quit, and not yet called `wakeup`
  pub owed : ℕ

-- A functor is known by the functors that it queues in turn.
module _ {Task : Type 0} (queued_by : Task → List Task) where
  -- A new loop at the start of `loop()`. The constructor leaves `callingPendingFunctors_` as it is.
  abbrev pub fresh_loop : Bool → Loop Task
  fresh_loop garbage = record {
    phase = polling;
    quit = false;
    pending = [];
    calling_pending = garbage;
    wakeups = 0;
    owed = 0;
  }

  unfoldable pub wakeup : Loop Task → Loop Task
  wakeup s = record s { wakeups = s.wakeups + 1 }

  -- `handleRead`
  unfoldable pub clear_wakeups : Loop Task → Loop Task
  clear_wakeups s = record s { wakeups = 0 }

  -- Another thread is on its way to `wakeup`, and gets there.
  unfoldable pub owe : Loop Task → Loop Task
  owe s = record s { owed = s.owed + 1 }

  unfoldable pub pay : ℕ → Loop Task → Loop Task
  pay n s = wakeup (record s { owed = n })

  -- The flag tells whether the caller is in the thread of the loop.
  unfoldable pub queue_in_loop : Bool → Task → Loop Task → Loop Task
  queue_in_loop in_loop t s =
      let queued = record s { pending = s.pending ++ t ∷ [] } in
      if not in_loop then owe queued else if s.calling_pending then wakeup queued else queued

  -- The code that runs queues a functor, and has these still to queue.
  unfoldable pub queue_next : Phase Task → Task → Loop Task → Loop Task
  queue_next rest t s = queue_in_loop true t (record s { phase = rest })

  -- A handler calls `runInLoop`, which calls the functor at once, or queues it if in another thread.
  unfoldable pub run_in_loop : Bool → Task → Loop Task → Loop Task
  run_in_loop in_loop t s =
      if in_loop then record s { phase = handling (queued_by t) } else queue_in_loop false t s

  unfoldable pub quit_loop : Bool → Loop Task → Loop Task
  quit_loop in_loop s =
      let quitting = record s { quit = true } in if not in_loop then owe quitting else quitting

  -- `doPendingFunctors`: its start, up to the swap; a functor; its end, with the test of `while (!quit_)`.
  unfoldable pub take_pending : Loop Task → Loop Task
  take_pending s = record s { phase = calling [] s.pending; pending = []; calling_pending = true }

  unfoldable pub call_next : Task → List Task → Loop Task → Loop Task
  call_next t ts s = record s { phase = calling (queued_by t) ts }

  unfoldable pub end_pending : Loop Task → Loop Task
  end_pending s = record s { phase = if s.quit then stopped else polling; calling_pending = false }

  -- The steps. Those of the loop's thread need their phase.
  pub data Event : Type 0 where
    -- a call from another thread, and its write to the eventfd
    runs_from_outside : Task → Event
    quits_from_outside wakes_from_outside : Event
    -- `poll` returned; the flag tells whether the eventfd was among what is ready
    poll_returned : Bool → Event
    -- a handler of a channel called `runInLoop`, `queueInLoop` or `quit`
    handler_runs handler_queues : Task → Event
    handler_quits : Event
    -- the code that runs queues what it has to
    queues : Event
    -- the steps of `doPendingFunctors`
    takes calls_next ends : Event

  -- What the loop's thread does next, when it has nothing to queue in a handler.
  abbrev pub when_free : (Loop Task → Loop Task) → Phase Task → Loop Task → Option (Loop Task)
  when_free f (handling []) s = some (f s)
  when_free f p s = none

  abbrev pub when_called : Phase Task → Loop Task → Option (Loop Task)
  when_called (calling [] (t ∷ ts)) s = some (call_next t ts s)
  when_called p s = none

  abbrev pub when_done : Phase Task → Loop Task → Option (Loop Task)
  when_done (calling [] []) s = some (end_pending s)
  when_done p s = none

  abbrev pub when_queueing : Phase Task → Loop Task → Option (Loop Task)
  when_queueing (handling (t ∷ ts)) s = some (queue_next (handling ts) t s)
  when_queueing (calling (t ∷ ts) us) s = some (queue_next (calling ts us) t s)
  when_queueing p s = none

  abbrev pub when_polling : Bool → Phase Task → Loop Task → Option (Loop Task)
  when_polling true polling s = some (clear_wakeups (record s { phase = handling [] }))
  when_polling false polling s = some (record s { phase = handling [] })
  when_polling ready p s = none

  abbrev pub when_owed : ℕ → Loop Task → Option (Loop Task)
  when_owed zero s = none
  when_owed (suc n) s = some (pay n s)

  unfoldable pub step : Event → Loop Task → Option (Loop Task)
  step (runs_from_outside t) s = some (run_in_loop false t s)
  step quits_from_outside s = some (quit_loop false s)
  step wakes_from_outside s = when_owed s.owed s
  step (poll_returned ready) s = when_polling ready s.phase s
  step (handler_runs t) s = when_free (run_in_loop true t) s.phase s
  step (handler_queues t) s = when_free (queue_in_loop true t) s.phase s
  step handler_quits s = when_free (quit_loop true) s.phase s
  step queues s = when_queueing s.phase s
  step takes s = when_free take_pending s.phase s
  step calls_next s = when_called s.phase s
  step ends s = when_done s.phase s

  -- `doPendingFunctors`, when no other thread comes in. A functor queues these, with those left.
  unfoldable pub queue_all : List Task → List Task → Loop Task → Loop Task
  queue_all [] us s = s
  queue_all (t ∷ ts) us s = queue_all ts us (queue_next (calling ts us) t s)

  unfoldable pub call_all : List Task → Loop Task → Loop Task
  call_all [] s = end_pending s
  call_all (t ∷ ts) s = call_all ts (queue_all (queued_by t) ts (call_next t ts s))

  unfoldable pub do_pending_functors : Loop Task → Loop Task
  do_pending_functors s = call_all s.pending (take_pending s)
