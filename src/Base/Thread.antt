-- ===== src/Base/Thread.antt =====
-- The class `Thread` of winterfell/base/wf_thread.h and winterfell/base/wf_thread.cc. What the calls of
-- pthreads returned is an argument.
pub mod Lifetime
use winterfell.Prelude.{
  ℕ, Bool, true, false, not, ◌&&◌, List, [], ◌∷◌, Run, done, aborted, ◌>>=◌, ◌>>◌, assert, ◌==◌,
  if◌then◌else◌,
}

pub record Thread : Type 0 where
  pub started : Bool
  pub joined : Bool
  pub tid : ℕ

-- The calls of pthreads.
pub data Call : Type 0 where
  creates joins detaches : Call

-- The constructor.
abbrev pub fresh_thread : Thread
fresh_thread = record { started = false; joined = false; tid = 0 }

-- `start`, with what `pthread_create` returned: a failure ends the program.
unfoldable pub start : ℕ → Thread → Run (List Call × Thread)
start ret t = do
  assert (not t.started)
  assert (ret == 0)
  done (creates ∷ [], record t { started = true })

unfoldable pub join : Thread → Run (List Call × Thread)
join t = do assert t.started; assert (not t.joined); done (joins ∷ [], record t { joined = true })

-- `runInThread`, up to the call of the function.
unfoldable pub run_in_thread : ℕ → Thread → Thread
run_in_thread id t = record t { tid = id }

-- The destructor.
unfoldable pub destroy : Thread → List Call
destroy t = if t.started && not t.joined then detaches ∷ [] else []
