-- ===== src/Tests/Reactor.antt =====
-- The theorems on timers and on connecting at concrete inputs.
use winterfell.Prelude.{
  ℕ, ◌≡◌, ltb, refl, true, false, List, [], ◌∷◌, ◌++◌, ◌+◌, map, none, some, done, aborted, arith,
}
use winterfell.Prelude.Int.{pos, ◌+ℤ◌}
use winterfell.Base.Timestamp.{Timestamp, before}
use winterfell.Net.TimerQueue.{
  fresh_queue, Timer, Turn, TimerQueue, insert, add_timer_in_loop, timer_queue_call_back,
}
use winterfell.Net.TimerQueue.Order.{IsSorted, Before, From, add_again, call_back-expired}
use winterfell.Net.TimerQueue.Arming.{add_later_rearms, earlier_strands}
use winterfell.Net.EventLoop.Services.{run_every}
use winterfell.Net.EventLoop.Services.Every.{alone, quiet, fire_all, run_every-fires}
use winterfell.Net.Connector.{
  ConnectResult, fresh_connector, refused, again, success, start_in_loop, restart, handle_write,
  init_retry_delay,
}
use winterfell.Net.Connector.Attempts.{attempts, attempts_lem, asked, trying, delay_after}
use winterfell.Net.Connector.Safety.{
  IsValid, IsSafe, start_ran, restart_ran, write_ran, may_run, step, step-IsSafe,
}

abbrev at_micro : ℕ → Timestamp
at_micro n = record { micro_seconds = pos n }

abbrev once : ℕ → ℕ → Timer
once n callback = record {
  when = at_micro n;
  repeated = false;
  interval = pos 0;
  callback = callback;
}

abbrev two_timers : TimerQueue
two_timers = record {
  heap =
      record { when = at_micro 10; repeated = true; interval = pos 5; callback = 1 }
      ∷ once 20 2
      ∷ [];
  fires = none;
}

two-IsSorted : IsSorted two_timers.heap
two-IsSorted = ((omega arith, tt), (tt, tt))

-- Each callback adds a timer, and the clock goes on.
abbrev adding : ℕ → Turn
adding k = record {
  added = (at_micro (13 + k), once (30 + k) 3) ∷ [];
  updated = at_micro (14 + k);
  armed = at_micro (15 + k);
}

call_back-expired_example :
    ((front : List Timer) × (rest : List Timer) × (front ++ rest ≡ two_timers.heap)
      × Before (at_micro 12) front
      × From (pos 12) rest
      × ((timer_queue_call_back adding (at_micro 12) two_timers).0 ≡ map (λ t. t.callback) front)
      × ((timer_queue_call_back adding (at_micro 12) two_timers).1.heap
          ≡ add_again adding front rest))
    × IsSorted ((timer_queue_call_back adding (at_micro 12) two_timers).1.heap)
call_back-expired_example = call_back-expired adding (at_micro 12) two_timers two-IsSorted

is_before : (a b : ℕ) → ltb a b ≡ true → before (at_micro a) (at_micro b) ≡ true
unfolding before
is_before a b e = ground (arith, e)

add_later_rearms_example :
    let q =
      add_timer_in_loop
        (at_micro 5)
        (once 30 2)
        (record { heap = once 10 1 ∷ []; fires = some (pos 10) }) in
    (q.heap ≡ once 10 1 ∷ insert (once 30 2) []) × (q.fires ≡ some (pos 30))
add_later_rearms_example =
    add_later_rearms (at_micro 5) (once 10 1) [] (some (pos 10)) (once 30 2) (is_before 5 10 refl)
      (is_before 10 30 refl) (is_before 5 30 refl)

earlier_strands_example :
    let q =
      add_timer_in_loop
        (at_micro 5)
        (once 10 1)
        (record { heap = once 20 2 ∷ []; fires = some (pos 20) }) in
    (q.fires ≡ some (pos 10))
    × (timer_queue_call_back (quiet (at_micro 12)) (at_micro 12) q
        ≡ (1 ∷ [], record { heap = once 20 2 ∷ []; fires = none }))
earlier_strands_example =
    earlier_strands (quiet (at_micro 12)) (at_micro 5) (at_micro 12) (once 10 1) (once 20 2 ∷ [])
      (some (pos 20)) refl refl (is_before 5 10 refl) (is_before 10 12 refl) (omega arith, tt)

attempts_lem_example :
    attempts ((7, refused) ∷ (8, again) ∷ []) (trying init_retry_delay none)
    ≡ done (asked 0 ((7, refused) ∷ (8, again) ∷ []), trying (delay_after 2) none)
attempts_lem_example = attempts_lem ((7, refused) ∷ (8, again) ∷ []) none (refl, (refl, tt))

fresh-IsValid : IsValid fresh_connector
fresh-IsValid = record { has_channel = λ e. cc; delay_low = omega arith; delay_high = omega arith }

step-IsSafe_example :
    (may_run (start_ran 4 success) fresh_connector ≡ true
      → IsSafe (step (start_ran 4 success) fresh_connector))
    × ((sock : ℕ) (r : ConnectResult)
        → may_run (start_ran sock r) fresh_connector ≡ false
        → start_in_loop sock r fresh_connector ≡ aborted)
    × ((sock : ℕ) (r : ConnectResult)
        → may_run (restart_ran sock r) fresh_connector ≡ false
        → restart sock r fresh_connector ≡ aborted)
    × ((err : ℕ)
        → may_run (write_ran err) fresh_connector ≡ false
        → handle_write err fresh_connector ≡ aborted)
step-IsSafe_example = step-IsSafe (start_ran 4 success) fresh_connector fresh-IsValid

run_every-fires_example :
    fire_all
      (at_micro 18 ∷ at_micro 30 ∷ [])
      ((run_every true (at_micro 5) (at_micro 5) (pos 10) 7 fresh_queue).1)
    ≡ ((7 ∷ []) ∷ (7 ∷ []) ∷ [], alone 10 7 (pos 40))
unfolding ◌+ℤ◌
run_every-fires_example =
    run_every-fires (at_micro 5) 10 7 (at_micro 18 ∷ at_micro 30 ∷ []) (omega arith) refl
