-- ===== src/Net/TimerQueue/Arming.antt =====
-- When the descriptor of winterfell/net/wf_timer_queue.cc fires next.
use winterfell.Prelude.{
  ℕ, ◌≡◌, refl, ap, true, false, List, [], ◌∷◌, Option, some, none, arith, ◌+◌,
}
use winterfell.Prelude.Int.{
  ℤ, pos, negsuc, ◌+ℤ◌, ◌-ℤ◌, ltb_ℤ, pos_part, neg_part, eq_of_parts, -ℤ_parts, +ℤ_parts,
}
use winterfell.Base.Timestamp.{Timestamp, before, sub}
use winterfell.Net.TimerQueue.{
  Timer, Turn, run_tcb, arm, insert, add_timer_in_loop, reset, timer_queue_call_back, expired,
  remaining,
}
use winterfell.Net.TimerQueue.Order.{due, From}

-- Armed to fire in a positive time: at that time.
arm_positive :
    (now : Timestamp) (at d : ℤ) (f : Option ℤ)
    → before now (record { micro_seconds = at }) ≡ true
    → at -ℤ now.micro_seconds ≡ d
    → arm now d f ≡ some at
unfolding arm before
arm_positive now at (pos n) f e h = rw positive (ap some (eq_of_parts _ at same))
  where
    parts : pos_part at + neg_part now.micro_seconds ≡ n + neg_part at + pos_part now.micro_seconds
    parts = omega (arith, ap pos_part h, ap neg_part h, -ℤ_parts at now.micro_seconds)

    positive : ltb_ℤ (pos 0) (pos n) ≡ true
    positive = ground (arith, parts)

    same :
        pos_part (now.micro_seconds +ℤ pos n) + neg_part at
        ≡ pos_part at + neg_part (now.micro_seconds +ℤ pos n)
    same = omega (arith, parts, +ℤ_parts now.micro_seconds (pos n))
arm_positive now at (negsuc n) f e h =
    absurd (ground (arith, ap pos_part h, ap neg_part h, -ℤ_parts at now.micro_seconds))

insert_behind :
    (t u : Timer) (us : List Timer)
    → before t.when u.when ≡ false
    → insert t (u ∷ us) ≡ u ∷ insert t us
unfolding insert
insert_behind t u us e = ground arith

before_asym : (s t : Timestamp) → before s t ≡ true → before t s ≡ false
unfolding before
before_asym s t e = ground arith

-- With a timer `u` first in the queue and not yet due, adding a later timer leaves `u` first, but sets
-- the descriptor to fire at the time of the later timer only: `u` will run late.
pub add_later_rearms :
    (now : Timestamp) (u : Timer) (us : List Timer) (f : Option ℤ) (t : Timer)
    → before now u.when ≡ true
    → before u.when t.when ≡ true
    → before now t.when ≡ true
    → let q = add_timer_in_loop now t (record { heap = u ∷ us; fires = f }) in
      (q.heap ≡ u ∷ insert t us) × (q.fires ≡ some (due t))
unfolding add_timer_in_loop sub
add_later_rearms now u us f t h k e =
    (insert_behind t u us (before_asym u.when t.when k), arm_positive now (due t) _ f e refl)

-- Before all timers of a queue, none of which is due yet.
insert_front :
    (t : Timer) (now : Timestamp) (us : List Timer)
    → before t.when now ≡ true
    → From now.micro_seconds us
    → insert t us ≡ t ∷ us
unfolding insert before
insert_front t now [] e f = refl
insert_front t now (u ∷ us) e f =
    let first : ltb_ℤ t.when.micro_seconds u.when.micro_seconds ≡ true = ground (arith, f.0, e) in
    rw first refl

none_expired : (now : Timestamp) (us : List Timer) → From now.micro_seconds us → expired now us ≡ []
unfolding expired before
none_expired now [] f = refl
none_expired now (u ∷ us) f =
    let later : ltb_ℤ u.when.micro_seconds now.micro_seconds ≡ false = ground (arith, f.0) in
    rw later refl

all_remain : (now : Timestamp) (us : List Timer) → From now.micro_seconds us → remaining now us ≡ us
unfolding remaining before
all_remain now [] f = refl
all_remain now (u ∷ us) f =
    let later : ltb_ℤ u.when.micro_seconds now.micro_seconds ≡ false = ground (arith, f.0) in
    rw later refl

-- A timer that does not repeat, and whose callback adds none, is added before it is due to a queue
-- of timers: the descriptor is set to its time. When the descriptor fires, at a time behind that at
-- which the timer is due and at which none of the others is due, exactly its callback runs, all the
-- others stay in the queue, and the descriptor is left disarmed, whatever it was set to before.
pub earlier_strands :
    (turns : ℕ → Turn) (now later : Timestamp) (t : Timer) (us : List Timer) (f : Option ℤ)
    → t.repeated ≡ false
    → (turns 0).added ≡ []
    → before now t.when ≡ true
    → before t.when later ≡ true
    → From later.micro_seconds us
    → let q = add_timer_in_loop now t (record { heap = us; fires = f }) in
      (q.fires ≡ some (due t))
      × (timer_queue_call_back turns later q
          ≡ (t.callback ∷ [], record { heap = us; fires = none }))
unfolding add_timer_in_loop sub timer_queue_call_back reset run_tcb expired remaining
earlier_strands turns now later t us f once quiet h e from = (
  arm_positive now (due t) _ f h refl,
  rw
      (
        insert_front t later us e from,
        e,
        none_expired later us from,
        all_remain later us from,
        quiet,
        once,
      )
      refl,
)
