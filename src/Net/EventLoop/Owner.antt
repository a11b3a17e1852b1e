-- ===== src/Net/EventLoop/Owner.antt =====
-- One loop for each thread, in winterfell/net/wf_event_loop.cc: the pointer that a thread keeps to its loop, and what a
-- loop asserts of the thread that calls it.
pub mod Single
use winterfell.Prelude.{
  set_at, ℕ, Bool, true, false, not, ◌&&◌, Option, some, none, Run, done, assert, follow, ◌>>=◌,
  ◌>>◌, ◌==◌, if◌then◌else◌,
}

-- `threadId_` and `looping_`
pub record Owner : Type 0 where
  pub thread : ℕ
  pub looping : Bool

-- `t_loopInThisThread` of each thread, and the loops that are alive, by their addresses.
pub record Process : Type 0 where
  pub here : ℕ → Option ℕ
  pub loops : ℕ → Option Owner

abbrev pub fresh_process : Process
fresh_process = record { here = λ t. none; loops = λ l. none }

abbrev pub has_loop {ℓ} : {A : Type ℓ} → Option A → Bool
has_loop none = false
has_loop (some a) = true

-- The calling thread comes first, and then the address of the loop.
unfoldable pub construct : ℕ → ℕ → Process → Run Process
construct t l w =
    assert (not (has_loop (w.here t)))
    >> done (record {
      here = set_at t (some l) w.here;
      loops = set_at l (some (record { thread = t; looping = false })) w.loops;
    })

unfoldable pub destroy : ℕ → ℕ → Process → Run Process
destroy t l w = do
  o ← follow (w.loops l)
  assert (not o.looping)
  done (record { here = set_at t none w.here; loops = set_at l none w.loops })

abbrev pub is_in_loop_thread : ℕ → Owner → Bool
is_in_loop_thread t o = o.thread == t

-- `loop()` up to its first turn, and its end.
unfoldable pub begin_loop : ℕ → ℕ → Process → Run Process
begin_loop t l w = do
  o ← follow (w.loops l)
  assert (not o.looping)
  assert (is_in_loop_thread t o)
  done (record w { loops = set_at l (some (record o { looping = true })) w.loops })

unfoldable pub end_loop : ℕ → Process → Run Process
end_loop l w = do
  o ← follow (w.loops l)
  done (record w { loops = set_at l (some (record o { looping = false })) w.loops })

pub data Act : Type 0 where
  constructs destroys begins : ℕ → ℕ → Act
  finishes : ℕ → Act

abbrev pub act : Act → Process → Run Process
act (constructs t l) w = construct t l w
act (destroys t l) w = destroy t l w
act (begins t l) w = begin_loop t l w
act (finishes l) w = end_loop l w
