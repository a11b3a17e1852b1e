-- ===== src/Net/TimerQueue.antt =====
-- The classes `Timer` and `TimerQueue` of winterfell/net/wf_timer.h, winterfell/net/wf_timer.cc,
-- winterfell/net/wf_timer_queue.h and winterfell/net/wf_timer_queue.cc. Each reading of the clock is
-- an argument; an interval is its length in microseconds, as `addTime` converts it.
pub mod Order
pub mod Arming
use winterfell.Prelude.{
  ℕ, ◌+◌, ◌/◌, ◌%◌, ◌*◌, Bool, true, false, not, List, [], ◌∷◌, ◌++◌, Option, some, none,
  if◌then◌else◌,
}
use winterfell.Prelude.Int.{ℤ, pos, negsuc, ◌+ℤ◌, ◌-ℤ◌, ltb_ℤ}
use winterfell.Base.Timestamp.{Timestamp, micro_seconds_per_second, before, sub}

-- A timer calls the callback that this number stands for.
pub record Timer : Type 0 where
  pub when : Timestamp
  pub repeated : Bool
  pub interval : ℤ
  pub callback : ℕ

-- The constructor: a timer repeats if its interval is positive.
unfoldable pub new_timer : Timestamp → ℤ → ℕ → Timer
new_timer at interval callback = record {
  when = at;
  repeated = ltb_ℤ (pos 0) interval;
  interval = interval;
  callback = callback;
}

-- `updateWhen`
unfoldable pub update_when : Timestamp → Timer → Timer
update_when now t = record t { when = record { micro_seconds = now.micro_seconds +ℤ t.interval } }

-- What `timerfd_settime` was last told: to fire at this time, or never.
pub record TimerQueue : Type 0 where
  -- the multimap, in the order of its keys
  pub heap : List Timer
  pub fires : Option ℤ

abbrev pub fresh_queue : TimerQueue
fresh_queue = record { heap = []; fires = none }

-- `multimap::insert`: behind the entries with the same key.
unfoldable pub insert : Timer → List Timer → List Timer
insert t [] = t ∷ []
insert t (u ∷ us) = let rest = insert t us in if before t.when u.when then t ∷ u ∷ us else u ∷ rest

-- `timerfd_settime` with this many microseconds from now: zero disarms the timer, and a negative
-- value is refused and leaves it as it was.
unfoldable pub arm : Timestamp → ℤ → Option ℤ → Option ℤ
arm now (negsuc n) fires = fires
arm now (pos n) fires = if ltb_ℤ (pos 0) (pos n) then some (now.micro_seconds +ℤ pos n) else none

-- `addTimerInLoop`
unfoldable pub add_timer_in_loop : Timestamp → Timer → TimerQueue → TimerQueue
add_timer_in_loop now t q = record {
  heap = insert t q.heap;
  fires = arm now ((sub t.when now).micro_seconds) q.fires;
}

-- The entries before `lower_bound(now)`, and those from it on.
unfoldable pub expired : Timestamp → List Timer → List Timer
expired now [] = []
expired now (t ∷ ts) = let rest = expired now ts in if before t.when now then t ∷ rest else []

unfoldable pub remaining : Timestamp → List Timer → List Timer
remaining now [] = []
remaining now (t ∷ ts) = let rest = remaining now ts in if before t.when now then rest else t ∷ ts

-- What happens while one callback runs and after it: the timers that it adds in the loop's thread, each with the
-- reading of the clock by `addTimerInLoop`; and the readings by `updateWhen` and by `addTimerInLoop`, if the timer
-- repeats.
pub record Turn : Type 0 where
  pub added : List (Timestamp × Timer)
  pub updated : Timestamp
  pub armed : Timestamp

-- The callback runs: it adds these timers.
unfoldable pub run_tcb : List (Timestamp × Timer) → TimerQueue → TimerQueue
run_tcb [] q = q
run_tcb ((now, t) ∷ ts) q = run_tcb ts (add_timer_in_loop now t q)

-- `reset`: the callbacks that run, in order, and the queue with what they add and the repeated timers.
-- The turns are counted from 0.
unfoldable pub reset : (ℕ → Turn) → List Timer → TimerQueue → List ℕ × TimerQueue
reset turns [] q = ([], q)
reset turns (t ∷ ts) q =
    let turn = turns 0 in
    let ran = run_tcb turn.added q in
    let q' =
      if t.repeated then add_timer_in_loop turn.armed (update_when turn.updated t) ran else ran in
    let (calls, q'') = reset (λ k. turns (k + 1)) ts q' in (t.callback ∷ calls, q'')

-- `timerQueueCallBack`, when the timer has fired: it is disarmed until it is set again. The reading is that for
-- `lower_bound`.
unfoldable pub timer_queue_call_back : (ℕ → Turn) → Timestamp → TimerQueue → List ℕ × TimerQueue
timer_queue_call_back turns now q =
    reset turns (expired now q.heap) (record { heap = remaining now q.heap; fires = none })
