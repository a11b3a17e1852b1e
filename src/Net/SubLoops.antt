-- ===== src/Net/SubLoops.antt =====
-- The class `SubLoops` of winterfell/net/wf_sub_loops.h and winterfell/net/wf_sub_loops.cc: handing out the
-- loops of the threads. A thread makes its loop and pushes it when it runs, which may be after `start`
-- has returned.
pub mod Turns
use winterfell.Prelude.{
  ℕ, zero, suc, ◌+◌, ◌%◌, Bool, true, false, not, List, [], ◌∷◌, ◌++◌, get_elem?, Run, done,
  aborted, looping, ◌>>=◌, ◌>>◌, assert, follow, ◌==◌,
}

pub record SubLoops (Loop : Type 0) : Type 0 where
  pub started : Bool
  pub num_threads : ℕ
  pub next : ℕ
  pub loops : List Loop

module _ {Loop : Type 0} where
  -- The constructor.
  abbrev pub fresh_sub_loops : SubLoops Loop
  fresh_sub_loops = record { started = false; num_threads = 1; next = 0; loops = [] }

  unfoldable pub set_thread_num : ℕ → SubLoops Loop → SubLoops Loop
  set_thread_num n s = record s { num_threads = n }

  -- `start`: the threads are started, no loop has been pushed yet.
  unfoldable pub start : SubLoops Loop → Run (SubLoops Loop)
  start s = assert (not s.started) >> done (record s { started = true })

  -- `loops_.push_back` in one of the threads.
  unfoldable pub push_loop : Loop → SubLoops Loop → SubLoops Loop
  push_loop l s = record s { loops = s.loops ++ l ∷ [] }

  -- `getNextLoop`: no threads is a division by zero, and a loop that is not there is read out of
  -- range.
  unfoldable pub get_next_loop : SubLoops Loop → Run (Loop × SubLoops Loop)
  get_next_loop s = do
    assert (not (s.num_threads == 0))
    let next = (s.next + 1) % s.num_threads
    l ← follow (get_elem? s.loops next)
    done (l, record s { next = next })

  -- This many calls of `getNextLoop`.
  unfoldable pub get_loops : ℕ → SubLoops Loop → Run (List Loop × SubLoops Loop)
  get_loops zero s = done ([], s)
  get_loops (suc k) s =
      get_next_loop s >>= λ (l, s'). get_loops k s' >>= λ (ls, s''). done (l ∷ ls, s'')
