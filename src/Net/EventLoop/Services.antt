-- ===== src/Net/EventLoop/Services.antt =====
-- What a loop of winterfell/net/wf_event_loop.cc passes on to its timer queue and to its poller. Each reading of
-- the clock is an argument; a delay is its length in microseconds, as `addTime` converts it.
pub mod Every
use winterfell.Prelude.{
  ℕ, ◌==◌, Bool, Option, some, none, Run, done, assert, ◌>>=◌, ◌>>◌, if◌then◌else◌,
}
use winterfell.Prelude.Int.{ℤ, pos, ◌+ℤ◌}
use winterfell.Base.Timestamp.{Timestamp}
use winterfell.Net.TimerQueue.{Timer, TimerQueue, new_timer, add_timer_in_loop}
use winterfell.Net.PollPoller.{Pointer, Poller, update_channel, remove_channel}
use winterfell.Net.EventLoop.Owner.{Owner, is_in_loop_thread}

-- `TimerQueue::addTimer`: in the loop's thread at once, elsewhere a functor with the timer is queued.
unfoldable pub add_timer : Bool → Timestamp → Timer → TimerQueue → Option Timer × TimerQueue
add_timer in_loop now t q = if in_loop then (none, add_timer_in_loop now t q) else (some t, q)

abbrev pub later : Timestamp → ℤ → Timestamp
later now delta = record { micro_seconds = now.micro_seconds +ℤ delta }

unfoldable pub run_at : Bool → Timestamp → Timestamp → ℕ → TimerQueue → Option Timer × TimerQueue
run_at in_loop now at callback q = add_timer in_loop now (new_timer at (pos 0) callback) q

-- The clock is read for the time of the timer, and again when it is added.
unfoldable pub run_after :
    Bool → Timestamp → Timestamp → ℤ → ℕ → TimerQueue → Option Timer × TimerQueue
run_after in_loop now now' delta callback q =
    add_timer in_loop now' (new_timer (later now delta) (pos 0) callback) q

unfoldable pub run_every :
    Bool → Timestamp → Timestamp → ℤ → ℕ → TimerQueue → Option Timer × TimerQueue
run_every in_loop now now' interval callback q =
    add_timer in_loop now' (new_timer (later now interval) interval callback) q

-- `updateChannel` and `removeChannel`, called by this thread on the loop at this address; a channel knows
-- the address of its own loop.
unfoldable pub update_channel_of : (Pointer → ℕ) → ℕ → ℕ → Owner → Pointer → Poller → Run Poller
update_channel_of owner_loop t l o p s =
    assert (owner_loop p == l) >> (assert (is_in_loop_thread t o) >> update_channel p s)

unfoldable pub remove_channel_of : ℕ → Owner → Pointer → Poller → Run Poller
remove_channel_of t o p s = assert (is_in_loop_thread t o) >> remove_channel p s
