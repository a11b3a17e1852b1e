-- ===== src/Net/EventLoop/Services/Every.antt =====
-- A timer of `runEvery` of winterfell/net/wf_event_loop.cc that is alone in its queue.
use winterfell.Prelude.{
  both, ◌&&◌, map, ℕ, ◌<◌, ◌≡◌, refl, ap, ◌∙◌, Bool, true, List, [], ◌∷◌, Option, some, none, arith,
}
use winterfell.Prelude.Int.{ℤ, pos, ◌+ℤ◌, ◌-ℤ◌, ltb_ℤ, +ℤ_parts, -ℤ_parts, eq_of_parts}
use winterfell.Base.Timestamp.{Timestamp, before, sub}
use winterfell.Net.TimerQueue.{
  fresh_queue, TimerQueue, new_timer, insert, arm, update_when, add_timer_in_loop, Turn, run_tcb,
  timer_queue_call_back, reset, expired, remaining,
}
use winterfell.Net.EventLoop.Services.{add_timer, run_every}

after_now : (now interval : ℤ) → (now +ℤ interval) -ℤ now ≡ interval
after_now now interval =
    eq_of_parts ((now +ℤ interval) -ℤ now) interval
      (omega (arith, +ℤ_parts now interval, -ℤ_parts (now +ℤ interval) now))

-- No callback adds a timer, and the clock stands still.
abbrev pub quiet : Timestamp → ℕ → Turn
quiet now k = record { added = []; updated = now; armed = now }

-- The descriptor fires again and again, at these times.
unfoldable pub fire_all : List Timestamp → TimerQueue → List (List ℕ) × TimerQueue
fire_all [] q = ([], q)
fire_all (now ∷ nows) q =
    let (calls, q') = timer_queue_call_back (quiet now) now q in
    let (rest, q'') = fire_all nows q' in (calls ∷ rest, q'')

-- The queue holds this timer only, due then, and the descriptor fires when it is due.
abbrev pub alone : ℕ → ℕ → ℤ → TimerQueue
alone interval callback due = record {
  heap =
      record {
        when = record { micro_seconds = due };
        repeated = true;
        interval = pos interval;
        callback = callback;
      }
      ∷ [];
  fires = some due;
}

arm_later :
    (now : Timestamp) (interval : ℕ) (fires : Option ℤ)
    → 0 < interval
    → arm now ((now.micro_seconds +ℤ pos interval) -ℤ now.micro_seconds) fires
      ≡ some (now.micro_seconds +ℤ pos interval)
unfolding arm
arm_later now interval fires lt =
    let armed : ltb_ℤ (pos 0) (pos interval) ≡ true = ground (arith, lt) in
    rw (after_now now.micro_seconds (pos interval), armed) refl

call_back_again :
    (interval callback : ℕ) (due : ℤ) (now : Timestamp)
    → 0 < interval
    → ltb_ℤ due now.micro_seconds ≡ true
    → timer_queue_call_back (quiet now) now (alone interval callback due)
      ≡ (callback ∷ [], alone interval callback (now.micro_seconds +ℤ pos interval))
unfolding timer_queue_call_back run_tcb reset expired remaining before add_timer_in_loop insert
    update_when sub
call_back_again interval callback due now lt d = rw (d, arm_later now interval none lt) refl

run_every-alone :
    (now : Timestamp) (interval callback : ℕ)
    → 0 < interval
    → run_every true now now (pos interval) callback fresh_queue
      ≡ (none, alone interval callback (now.micro_seconds +ℤ pos interval))
unfolding run_every add_timer new_timer add_timer_in_loop insert sub
run_every-alone now interval callback lt =
    let armed : ltb_ℤ (pos 0) (pos interval) ≡ true = ground (arith, lt) in
    rw (arm_later now interval none lt, armed) refl

-- Each time is behind that at which the timer is due, which is an interval after the last one.
abbrev pub is_behind : ℤ → ℕ → List Timestamp → Bool
is_behind due interval [] = true
is_behind due interval (now ∷ nows) =
    ltb_ℤ due now.micro_seconds && is_behind (now.micro_seconds +ℤ pos interval) interval nows

abbrev pub due_after : ℤ → ℕ → List Timestamp → ℤ
due_after due interval [] = due
due_after due interval (now ∷ nows) = due_after (now.micro_seconds +ℤ pos interval) interval nows

fire_all-alone :
    (nows : List Timestamp) (interval callback : ℕ) (due : ℤ)
    → 0 < interval
    → is_behind due interval nows ≡ true
    → fire_all nows (alone interval callback due)
      ≡ (map (λ now. callback ∷ []) nows, alone interval callback (due_after due interval nows))
unfolding fire_all
fire_all-alone [] interval callback due lt h = refl
fire_all-alone (now ∷ nows) interval callback due lt h =
    let (d, more) = both _ _ h in
    rw
      (
        call_back_again interval callback due now lt d,
        fire_all-alone nows interval callback (now.micro_seconds +ℤ pos interval) lt more,
      )
      refl

-- After runEvery with a positive interval, in the thread of the loop, on an empty queue, the clock
-- standing still within a call, and the callback adding no timer: each time the descriptor fires, at
-- a time behind that at which the timer is due, its callback is called, once; the timer is then due
-- an interval later, and the descriptor set to that time.
pub run_every-fires :
    (now : Timestamp) (interval callback : ℕ) (nows : List Timestamp)
    → 0 < interval
    → is_behind (now.micro_seconds +ℤ pos interval) interval nows ≡ true
    → fire_all nows ((run_every true now now (pos interval) callback fresh_queue).1) ≡ (
      map (λ t. callback ∷ []) nows,
      alone interval callback (due_after (now.micro_seconds +ℤ pos interval) interval nows),
    )
run_every-fires now interval callback nows lt h =
    ap (λ r. fire_all nows (r.1)) (run_every-alone now interval callback lt)
    ∙ fire_all-alone nows interval callback (now.micro_seconds +ℤ pos interval) lt h
