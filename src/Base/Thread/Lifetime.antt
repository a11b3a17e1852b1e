-- ===== src/Base/Thread/Lifetime.antt =====
-- What becomes of the thread of winterfell/base/wf_thread.cc.
use winterfell.Prelude.{
  ℕ, Bool, true, false, not, ◌&&◌, List, [], ◌∷◌, ◌++◌, Run, done, aborted, looping, ◌>>=◌, ◌==◌,
  Bool-cases, inl, inr,
}
use winterfell.Base.Thread.{
  Thread, Call, creates, joins, detaches, fresh_thread, start, join, run_in_thread, destroy,
}

-- What the program does with a thread before it is destroyed.
pub data Event : Type 0 where
  starts runs : ℕ → Event
  waits : Event

unfoldable pub step : Event → Thread → Run (List Call × Thread)
step (starts ret) t = start ret t
step (runs id) t = done ([], run_in_thread id t)
step waits t = join t

-- The calls of a thread's whole life.
unfoldable pub life : List Event → Thread → Run (List Call)
life [] t = done (destroy t)
life (e ∷ es) t = step e t >>= λ (calls, u). life es u >>= λ more. done (calls ++ more)

-- What a life may still call: a thread that was not started is created, if ever, once, and then joined
-- or detached.
pub data Ends : Bool → Bool → List Call → Type 0 where
  never : Ends false false []
  created : {calls : List Call} → Ends true false calls → Ends false false (creates ∷ calls)
  joined : Ends true false (joins ∷ [])
  detached : Ends true false (detaches ∷ [])
  over : Ends true true []

-- `start` comes at most once, and succeeds; `join` comes after it, and at most once.
abbrev pub is_legal : List Event → Bool → Bool → Bool
is_legal [] s j = true
is_legal (starts ret ∷ es) s j = not s && (ret == 0 && is_legal es true j)
is_legal (runs id ∷ es) s j = is_legal es s j
is_legal (waits ∷ es) s j = s && (not j && is_legal es s true)

-- A legal life ends well, any other is aborted.
abbrev pub EndsWell : Bool → Bool → Bool → Run (List Call) → Type 0
EndsWell true s j (done calls) = Ends s j calls
EndsWell false s j (done calls) = ⊥
EndsWell true s j aborted = ⊥
EndsWell false s j aborted = Unit
EndsWell ok s j looping = ⊥

abbrev of_parts : Bool → Bool → ℕ → Thread
of_parts s j id = record { started = s; joined = j; tid = id }

abbrev Possible : Bool → Bool → Type 0
Possible false true = ⊥
Possible s j = Unit

-- What the calls of the rest become behind a call.
carry :
    (ok s j s' j' : Bool) (front : List Call) (m : Run (List Call))
    → ((calls : List Call) → Ends s' j' calls → Ends s j (front ++ calls))
    → EndsWell ok s' j' m
    → EndsWell ok s j (m >>= λ more. done (front ++ more))
carry true s j s' j' front (done calls) f h = f calls h
carry false s j s' j' front (done calls) f h = absurd h
carry true s j s' j' front aborted f h = absurd h
carry false s j s' j' front aborted f h = tt
carry true s j s' j' front looping f h = absurd h
carry false s j s' j' front looping f h = absurd h

last_join : (calls : List Call) → Ends true true calls → Ends true false (joins ∷ calls)
last_join [] over = joined
last_join (c ∷ cs) h = elim h [ ]

life-EndsWell :
    (es : List Event) (s j : Bool) (id : ℕ)
    → Possible s j
    → EndsWell (is_legal es s j) s j (life es (of_parts s j id))
unfolding life step start join run_in_thread destroy
life-EndsWell [] false false id p = never
life-EndsWell [] true false id p = detached
life-EndsWell [] true true id p = over
life-EndsWell [] false true id p = absurd p
life-EndsWell (starts ret ∷ es) false false id p = elim (Bool-cases (ret == 0)) [
  | inl e ↦ rw e (
      carry (is_legal es true false) false false true false (creates ∷ [])
        (life es (of_parts true false id)) (λ calls h. created h)
        (life-EndsWell es true false id tt))
  | inr e ↦ rw e tt
]
life-EndsWell (starts ret ∷ es) true j id p = tt
life-EndsWell (starts ret ∷ es) false true id p = absurd p
life-EndsWell (runs n ∷ es) s j id p =
    carry (is_legal es s j) s j s j [] (life es (of_parts s j n)) (λ calls h. h)
      (life-EndsWell es s j n p)
life-EndsWell (waits ∷ es) true false id p =
    carry (is_legal es true true) true false true true (joins ∷ [])
      (life es (of_parts true true id)) last_join (life-EndsWell es true true id tt)
life-EndsWell (waits ∷ es) true true id p = tt
life-EndsWell (waits ∷ es) false j id p = tt

-- A new thread that is used and then destroyed: if `start` comes at most once, and succeeds, and `join`
-- after it at most once, the life is not aborted, and what it asks of pthreads is nothing, or one
-- creation and then one join or one detachment; any other use is aborted.
pub life_lem :
    (es : List Event) → EndsWell (is_legal es false false) false false (life es fresh_thread)
life_lem es = life-EndsWell es false false 0 tt
