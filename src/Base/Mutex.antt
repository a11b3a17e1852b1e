-- ===== src/Base/Mutex.antt =====
-- The classes `MutexLock` and `MutexLockGuard` of winterfell/base/wf_mutex.h, used by many threads. A step is one
-- statement of one thread. Of pthreads the model has what it documents: `pthread_mutex_lock` returns only
-- when no thread has the mutex, and `pthread_mutex_unlock` gives it back.
pub mod Holders
use winterfell.Prelude.{ℕ, Bool, true, false, Option, some, none, ◌==◌, if◌then◌else◌}

-- Where a thread is: outside, in `lock` behind the write of `holder_`, between `lock` and `unlock`, or in
-- `unlock` behind the write of `holder_`.
pub data Place : Type 0 where
  outside waiting inside leaving : Place

pub record MutexLock : Type 0 where
  -- which thread has the mutex of pthreads
  pub owner : Option ℕ
  pub holder : ℕ
  pub place : ℕ → Place

-- The constructor, in the thread of this id: it sets `holder_` to it.
abbrev pub fresh_mutex : ℕ → MutexLock
fresh_mutex id = record { owner = none; holder = id; place = λ t. outside }

abbrev pub move : ℕ → Place → (ℕ → Place) → ℕ → Place
move t p place u = if u == t then p else place u

-- The two statements of `lock`, and the two of `unlock`.
pub data Event : Type 0 where
  writes_holder locks clears_holder unlocks : ℕ → Event

abbrev pub is_free : Option ℕ → Bool
is_free none = true
is_free (some t) = false

abbrev pub is_place : Place → Place → Bool
is_place outside outside = true
is_place waiting waiting = true
is_place inside inside = true
is_place leaving leaving = true
is_place p q = false

unfoldable pub step : Event → MutexLock → Option MutexLock
step (writes_holder t) m =
    if is_place (m.place t) outside
    then some (record m { holder = t; place = move t waiting m.place })
    else none
step (locks t) m =
    if is_place (m.place t) waiting
    then (if is_free m.owner
        then some (record m { owner = some t; place = move t inside m.place })
        else none)
    else none
step (clears_holder t) m =
    if is_place (m.place t) inside
    then some (record m { holder = 0; place = move t leaving m.place })
    else none
step (unlocks t) m =
    if is_place (m.place t) leaving
    then some (record m { owner = none; place = move t outside m.place })
    else none

-- `isLockeddByThisThread`, called by this thread.
unfoldable pub is_locked_by_this_thread : ℕ → MutexLock → Bool
is_locked_by_this_thread t m = m.holder == t
