-- ===== src/Base/Mutex/Holders.antt =====
-- Who has the mutex of winterfell/base/wf_mutex.h, and what `holder_` says of it.
use winterfell.Prelude.{
  ℕ, ◌≡◌, ◌≢◌, refl, sym, ap, ◌∙◌, Bool, true, false, Bool-cases, inl, inr, Option, some, none,
  ◌==◌, arith, ==_refl, subst,
}
use winterfell.Base.Mutex.{
  Place, outside, waiting, inside, leaving, MutexLock, fresh_mutex, move, Event, writes_holder,
  locks, clears_holder, unlocks, is_free, is_place, step, is_locked_by_this_thread,
}

abbrev pub has_mutex : Place → Bool
has_mutex outside = false
has_mutex waiting = false
has_mutex inside = true
has_mutex leaving = true

abbrev pub owns : Option ℕ → ℕ → Bool
owns none t = false
owns (some u) t = t == u

-- A thread has the mutex exactly while it is between `lock` and the end of `unlock`.
abbrev pub IsOwned : MutexLock → Type 0
IsOwned m = (t : ℕ) → has_mutex (m.place t) ≡ owns m.owner t

abbrev Keeps : Option MutexLock → Type 0
Keeps none = Unit
Keeps (some m) = IsOwned m

place_is : (p q : Place) → is_place p q ≡ true → p ≡ q
place_is outside outside e = refl
place_is waiting waiting e = refl
place_is inside inside e = refl
place_is leaving leaving e = refl
place_is outside waiting e = cc
place_is outside inside e = cc
place_is outside leaving e = cc
place_is waiting outside e = cc
place_is waiting inside e = cc
place_is waiting leaving e = cc
place_is inside outside e = cc
place_is inside waiting e = cc
place_is inside leaving e = cc
place_is leaving outside e = cc
place_is leaving waiting e = cc
place_is leaving inside e = cc

-- A move that does not change who has the mutex.
same_owner :
    (m : MutexLock) (t : ℕ) (p : Place)
    → IsOwned m
    → has_mutex p ≡ has_mutex (m.place t)
    → (u : ℕ) → has_mutex (move t p m.place u) ≡ owns m.owner u
same_owner m t p o e u = elim (Bool-cases (u == t)) [
  | inl h ↦
      let same : u ≡ t = ground (arith, h) in
      rw h (e ∙ ap (λ v. has_mutex (m.place v)) (sym same) ∙ o u)
  | inr h ↦ rw h (o u)
]

free_owns : (w : Option ℕ) (u : ℕ) → is_free w ≡ true → owns w u ≡ false
free_owns none u f = refl
free_owns (some v) u f = cc

one_owner : (w : Option ℕ) (t u : ℕ) → owns w t ≡ true → (u == t) ≡ false → owns w u ≡ false
one_owner none t u h e = refl
one_owner (some v) t u h e = ground (arith, h, e)

lock_owner :
    (m : MutexLock) (t : ℕ)
    → IsOwned m
    → is_free m.owner ≡ true
    → (u : ℕ) → has_mutex (move t inside m.place u) ≡ owns (some t) u
lock_owner m t o f u = elim (Bool-cases (u == t)) [
  | inl h ↦ rw h refl
  | inr h ↦ rw h (o u ∙ free_owns m.owner u f)
]

unlock_owner :
    (m : MutexLock) (t : ℕ)
    → IsOwned m
    → has_mutex (m.place t) ≡ true
    → (u : ℕ) → has_mutex (move t outside m.place u) ≡ false
unlock_owner m t o h u = elim (Bool-cases (u == t)) [
  | inl e ↦ rw e refl
  | inr e ↦ rw e (o u ∙ one_owner m.owner t u (sym (o t) ∙ h) e)
]

step-IsOwned : (e : Event) (m : MutexLock) → IsOwned m → Keeps (step e m)
unfolding step
step-IsOwned (writes_holder t) m o = elim (Bool-cases (is_place (m.place t) outside)) [
  | inl e ↦ rw e (same_owner m t waiting o (ap has_mutex (sym (place_is (m.place t) outside e))))
  | inr e ↦ rw e tt
]
step-IsOwned (locks t) m o = elim (Bool-cases (is_place (m.place t) waiting)) [
  | inl e ↦ elim (Bool-cases (is_free m.owner)) [
    | inl f ↦ rw (e, f) (lock_owner m t o f)
    | inr f ↦ rw (e, f) tt
  ]
  | inr e ↦ rw e tt
]
step-IsOwned (clears_holder t) m o = elim (Bool-cases (is_place (m.place t) inside)) [
  | inl e ↦ rw e (same_owner m t leaving o (ap has_mutex (sym (place_is (m.place t) inside e))))
  | inr e ↦ rw e tt
]
step-IsOwned (unlocks t) m o = elim (Bool-cases (is_place (m.place t) leaving)) [
  | inl e ↦ rw e (unlock_owner m t o (ap has_mutex (place_is (m.place t) leaving e)))
  | inr e ↦ rw e tt
]

-- What the threads have done, in some order.
pub data Execution (m : MutexLock) : MutexLock → Type 0 where
  start : Execution m m
  next : {n k : MutexLock} (e : Event) → Execution m n → step e n ≡ some k → Execution m k

Execution-IsOwned : {m n : MutexLock} → IsOwned m → Execution m n → IsOwned n
Execution-IsOwned o start = o
Execution-IsOwned o (next {n = n} e h run) =
    subst Keeps run (step-IsOwned e n (Execution-IsOwned o h))

-- From a new lock, whatever the threads do, no two threads are between `lock` and the end of `unlock`.
pub Execution-exclusive :
    {m : MutexLock} (id t u : ℕ)
    → Execution (fresh_mutex id) m
    → has_mutex (m.place t) ≡ true
    → has_mutex (m.place u) ≡ true
    → t ≡ u
Execution-exclusive {m} id t u run h k = same m.owner (sym (o t) ∙ h) (sym (o u) ∙ k)
  where
    o : IsOwned m
    o = Execution-IsOwned (λ v. refl) run

    same : (w : Option ℕ) → owns w t ≡ true → owns w u ≡ true → t ≡ u
    same none a b = cc
    same (some v) a b = ground (arith, a, b)

-- `isLockeddByThisThread` is no test of it: a new lock says that its maker has it; and when one thread
-- has the lock and another begins to wait for it, the answer to the first becomes false.
pub is_locked_by_this_thread_fails :
    (m : MutexLock) (t u : ℕ)
    → t ≢ u
    → m.place t ≡ inside
    → m.place u ≡ outside
    → (is_locked_by_this_thread t (fresh_mutex t) ≡ true)
      × (has_mutex ((fresh_mutex t).place t) ≡ false)
      × ((n : MutexLock) × (step (writes_holder u) m ≡ some n)
          × (n.place t ≡ inside)
          × (is_locked_by_this_thread t n ≡ false))
unfolding step is_locked_by_this_thread
is_locked_by_this_thread_fails m t u d h k = (
  ==_refl t,
  refl,
  (
    record m { holder = u; place = move u waiting m.place },
    ground (arith, k),
    ground (arith, h),
    ground arith,
  ),
)
