-- ===== src/Net/TimerQueue/Order.antt =====
-- The order of the timers of winterfell/net/wf_timer_queue.cc.
use winterfell.Prelude.{
  ℕ, ◌+◌, none, ◌≡◌, refl, ap, ◌∙◌, Bool, true, false, Bool-cases, inl, inr, List, [], ◌∷◌, ◌++◌,
  arith, if◌then◌else◌, map,
}
use winterfell.Prelude.Int.{ℤ, ◌≤ℤ◌}
use winterfell.Base.Timestamp.{Timestamp, before}
use winterfell.Net.TimerQueue.{
  Timer, TimerQueue, insert, expired, remaining, reset, timer_queue_call_back, add_timer_in_loop,
  update_when, Turn, run_tcb,
}

abbrev pub due : Timer → ℤ
due t = t.when.micro_seconds

-- No timer of the list is due before this time.
abbrev pub From : ℤ → List Timer → Type 0
From k [] = Unit
From k (t ∷ ts) = (k ≤ℤ due t) × From k ts

-- The timers are in the order of their times.
abbrev pub IsSorted : List Timer → Type 0
IsSorted [] = Unit
IsSorted (t ∷ ts) = From (due t) ts × IsSorted ts

insert-From : (k : ℤ) (t : Timer) (ts : List Timer) → k ≤ℤ due t → From k ts → From k (insert t ts)
unfolding insert
insert-From k t [] h f = (h, tt)
insert-From k t (u ∷ us) h f = ground (arith, insert-From k t us h f.1)

From-mono : (j k : ℤ) (ts : List Timer) → j ≤ℤ k → From k ts → From j ts
From-mono j k [] h f = tt
From-mono j k (t ∷ ts) h f = (omega (arith, f.0), From-mono j k ts h f.1)

before-le : (s t : Timestamp) → before s t ≡ true → s.micro_seconds ≤ℤ t.micro_seconds
unfolding before
before-le s t e = ground arith

not_before-le : (s t : Timestamp) → before s t ≡ false → t.micro_seconds ≤ℤ s.micro_seconds
unfolding before
not_before-le s t e = ground arith

pub insert-IsSorted : (t : Timer) (ts : List Timer) → IsSorted ts → IsSorted (insert t ts)
unfolding insert
insert-IsSorted t [] s = (tt, tt)
insert-IsSorted t (u ∷ us) s = elim (Bool-cases (before t.when u.when)) [
  | inl e ↦ let h = before-le t.when u.when e in rw e ((h, From-mono (due t) (due u) us h s.0), s)
  | inr e ↦
      rw e (insert-From (due u) t us (not_before-le t.when u.when e) s.0, insert-IsSorted t us s.1)
]

-- Taking the expired timers off the front splits a sorted queue in two; all that expire are due before
-- `now`, and none of the others is.
From-remaining : (k : ℤ) (now : Timestamp) (ts : List Timer) → From k ts → From k (remaining now ts)
unfolding remaining
From-remaining k now [] f = tt
From-remaining k now (t ∷ ts) f = elim (Bool-cases (before t.when now)) [
  | inl e ↦ rw e (From-remaining k now ts f.1)
  | inr e ↦ rw e f
]

remaining-IsSorted : (now : Timestamp) (ts : List Timer) → IsSorted ts → IsSorted (remaining now ts)
unfolding remaining
remaining-IsSorted now [] s = tt
remaining-IsSorted now (t ∷ ts) s = elim (Bool-cases (before t.when now)) [
  | inl e ↦ rw e (remaining-IsSorted now ts s.1)
  | inr e ↦ rw e s
]

remaining-From :
    (now : Timestamp) (ts : List Timer) → IsSorted ts → From now.micro_seconds (remaining now ts)
unfolding remaining
remaining-From now [] s = tt
remaining-From now (t ∷ ts) s = elim (Bool-cases (before t.when now)) [
  | inl e ↦ rw e (remaining-From now ts s.1)
  | inr e ↦
      let h = not_before-le t.when now e in rw e (h, From-mono now.micro_seconds (due t) ts h s.0)
]

-- Every timer of the list is due before this time.
abbrev pub Before : Timestamp → List Timer → Type 0
Before now [] = Unit
Before now (t ∷ ts) = (before t.when now ≡ true) × Before now ts

expired-Before : (now : Timestamp) (ts : List Timer) → Before now (expired now ts)
unfolding expired
expired-Before now [] = tt
expired-Before now (t ∷ ts) = elim (Bool-cases (before t.when now)) [
  | inl e ↦ rw e (e, expired-Before now ts)
  | inr e ↦ rw e tt
]

expired-remaining : (now : Timestamp) (ts : List Timer) → expired now ts ++ remaining now ts ≡ ts
unfolding expired remaining
expired-remaining now [] = refl
expired-remaining now (t ∷ ts) = elim (Bool-cases (before t.when now)) [
  | inl e ↦ rw e (ap (λ us. t ∷ us) (expired-remaining now ts))
  | inr e ↦ rw e refl
]

-- The timers that a callback adds.
abbrev pub with_added : List (Timestamp × Timer) → List Timer → List Timer
with_added [] ts = ts
with_added ((now, t) ∷ us) ts = with_added us (insert t ts)

-- What the front part leaves in the queue, one timer after another: what its callback adds, and the timer
-- itself, an interval after its reading of the clock, if it repeats.
abbrev pub add_again : (ℕ → Turn) → List Timer → List Timer → List Timer
add_again turns [] ts = ts
add_again turns (t ∷ us) ts =
    let ran = with_added (turns 0).added ts in
    add_again (λ k. turns (k + 1)) us
      (if t.repeated then insert (update_when (turns 0).updated t) ran else ran)

heap-if : (b : Bool) (p q : TimerQueue) → (if b then p else q).heap ≡ (if b then p.heap else q.heap)
heap-if true p q = refl
heap-if false p q = refl

run_tcb-heap :
    (us : List (Timestamp × Timer)) (q : TimerQueue) → (run_tcb us q).heap ≡ with_added us q.heap
unfolding run_tcb add_timer_in_loop
run_tcb-heap [] q = refl
run_tcb-heap ((now, t) ∷ us) q = run_tcb-heap us (add_timer_in_loop now t q)

-- The queue after the turn of one timer.
abbrev turned : Turn → Timer → TimerQueue → TimerQueue
turned turn t q =
    let ran = run_tcb turn.added q in
    if t.repeated then add_timer_in_loop turn.armed (update_when turn.updated t) ran else ran

turned-heap :
    (turn : Turn) (t : Timer) (q : TimerQueue)
    → (turned turn t q).heap ≡ (
        let ran = with_added turn.added q.heap in
        if t.repeated then insert (update_when turn.updated t) ran else ran)
unfolding add_timer_in_loop
turned-heap turn t q =
    heap-if t.repeated _ _
    ∙ ap (λ ts. if t.repeated then insert (update_when turn.updated t) ts else ts)
        (run_tcb-heap turn.added q)

reset-heap :
    (turns : ℕ → Turn) (us : List Timer) (q : TimerQueue)
    → (reset turns us q).1.heap ≡ add_again turns us q.heap
unfolding reset
reset-heap turns [] q = refl
reset-heap turns (t ∷ us) q =
    reset-heap (λ k. turns (k + 1)) us (turned (turns 0) t q)
    ∙ ap (add_again (λ k. turns (k + 1)) us) (turned-heap (turns 0) t q)

reset-calls :
    (turns : ℕ → Turn) (us : List Timer) (q : TimerQueue)
    → (reset turns us q).0 ≡ map (λ t. t.callback) us
unfolding reset
reset-calls turns [] q = refl
reset-calls turns (t ∷ us) q =
    ap (λ cs. t.callback ∷ cs) (reset-calls (λ k. turns (k + 1)) us (turned (turns 0) t q))

if_IsSorted :
    (b : Bool) (ts us : List Timer) → IsSorted ts → IsSorted us → IsSorted (if b then ts else us)
if_IsSorted true ts us s r = s
if_IsSorted false ts us s r = r

with_added-IsSorted :
    (us : List (Timestamp × Timer)) (ts : List Timer) → IsSorted ts → IsSorted (with_added us ts)
with_added-IsSorted [] ts s = s
with_added-IsSorted ((now, t) ∷ us) ts s =
    with_added-IsSorted us (insert t ts) (insert-IsSorted t ts s)

add_again-IsSorted :
    (turns : ℕ → Turn) (us ts : List Timer) → IsSorted ts → IsSorted (add_again turns us ts)
add_again-IsSorted turns [] ts s = s
add_again-IsSorted turns (t ∷ us) ts s =
    let r = with_added-IsSorted (turns 0).added ts s in
    add_again-IsSorted (λ k. turns (k + 1)) us _
      (if_IsSorted t.repeated _ _ (insert-IsSorted (update_when (turns 0).updated t) _ r) r)

-- On a queue that is in order, the callback of the timer descriptor runs, in the order of the queue,
-- the callbacks of exactly a front part of it, all of whose timers are due before now; no timer of
-- the rest is. Whatever timers these callbacks add in turn, and whatever the clock reads on the way,
-- the queue that is left is the rest with, for each timer of the front part, the timers that its
-- callback adds and, if it repeats, itself again; and it is in order.
pub call_back-expired :
    (turns : ℕ → Turn) (now : Timestamp) (q : TimerQueue)
    → IsSorted q.heap
    → ((front : List Timer) × (rest : List Timer) × (front ++ rest ≡ q.heap)
        × Before now front
        × From now.micro_seconds rest
        × ((timer_queue_call_back turns now q).0 ≡ map (λ t. t.callback) front)
        × ((timer_queue_call_back turns now q).1.heap ≡ add_again turns front rest))
      × IsSorted ((timer_queue_call_back turns now q).1.heap)
unfolding timer_queue_call_back
call_back-expired turns now q s = (
  (
    expired now q.heap,
    remaining now q.heap,
    expired-remaining now q.heap,
    expired-Before now q.heap,
    remaining-From now q.heap s,
    reset-calls turns _ _,
    reset-heap turns _ _,
  ),
  rw (reset-heap turns (expired now q.heap) (record { heap = remaining now q.heap; fires = none }))
      (add_again-IsSorted turns (expired now q.heap) (remaining now q.heap)
        (remaining-IsSorted now q.heap s)),
)
