-- ===== src/Net/EventLoop/Owner/Single.antt =====
-- A thread has one loop of winterfell/net/wf_event_loop.cc at a time.
use winterfell.Prelude.{
  set_at, set_at_here, set_at_there, ℕ-cases, none_ne, ℕ, ◌≡◌, ◌≢◌, refl, sym, ap, subst, ◌∙◌, inl,
  inr, Bool, true, false, not, ◌&&◌, Option, some, none, Run, done, aborted, looping, Ends, arith,
}
use winterfell.Net.EventLoop.Owner.{
  Owner, Process, fresh_process, has_loop, construct, destroy, is_in_loop_thread, begin_loop,
  end_loop, Act, constructs, destroys, begins, finishes, act,
}

-- Each thread with a loop that is alive points to it.
abbrev pub IsSingle : Process → Type 0
IsSingle w = (l : ℕ) (o : Owner) → w.loops l ≡ some o → w.here o.thread ≡ some l

-- A new loop has an address of its own, only loops that are alive are used, and a loop is destroyed by its
-- own thread.
abbrev pub is_proper : Act → Process → Bool
is_proper (constructs t l) w = not (has_loop (w.loops l))
is_proper (destroys t l) w = elim (w.loops l) [ none ↦ false | some o ↦ is_in_loop_thread t o ]
is_proper (begins t l) w = has_loop (w.loops l)
is_proper (finishes l) w = has_loop (w.loops l)

-- The condition under which the code does not abort.
abbrev pub may_act : Act → Process → Bool
may_act (constructs t l) w = not (has_loop (w.here t))
may_act (destroys t l) w = elim (w.loops l) [ none ↦ false | some o ↦ not o.looping ]
may_act (begins t l) w = elim (w.loops l) [
  | none ↦ false
  | some o ↦ not o.looping && is_in_loop_thread t o
]
may_act (finishes l) w = has_loop (w.loops l)

abbrev thread_of : Option Owner → ℕ
thread_of none = 0
thread_of (some o) = o.thread

abbrev address_of : Option ℕ → ℕ
address_of none = 0
address_of (some l) = l

abbrev left : Process → Run Process → Process
left w (done w') = w'
left w aborted = w
left w looping = w

done_process : {v w : Process} → done v ≡ done w → v ≡ w
done_process {v} e = ap (left v) e

not_aborted : {w : Process} → aborted ≢ done w
not_aborted = cc

construct-IsSingle :
    (t l : ℕ) (w : Process)
    → IsSingle w
    → w.here t ≡ none
    → IsSingle (record {
      here = set_at t (some l) w.here;
      loops = set_at l (some (record { thread = t; looping = false })) w.loops;
    })
construct-IsSingle t l w s free j o h = elim (ℕ-cases j l) [
  | inl e ↦
      let own : o.thread ≡ t =
        ap thread_of (sym h ∙ ap (set_at l _ w.loops) e ∙ set_at_here l _ w.loops) in
      ap (set_at t (some l) w.here) own ∙ set_at_here t (some l) w.here ∙ ap some (sym e)
  | inr ne ↦
      let old = s j o (sym (set_at_there l _ w.loops j ne) ∙ h) in
      set_at_there t (some l) w.here o.thread (λ d. none_ne (sym free ∙ ap w.here (sym d) ∙ old))
      ∙ old
]

destroy-IsSingle :
    (t l : ℕ) (w : Process) (o : Owner)
    → IsSingle w
    → w.loops l ≡ some o
    → o.thread ≡ t
    → IsSingle (record { here = set_at t none w.here; loops = set_at l none w.loops })
destroy-IsSingle t l w o s at own j o' h = elim (ℕ-cases j l) [
  | inl e ↦
      absurd (none_ne (sym (set_at_here l none w.loops) ∙ ap (set_at l none w.loops) (sym e) ∙ h))
  | inr ne ↦
      let old = s j o' (sym (set_at_there l none w.loops j ne) ∙ h) in
      set_at_there t none w.here o'.thread
        (λ d. ne (ap address_of (sym old ∙ ap w.here (d ∙ sym own) ∙ s l o at)))
      ∙ old
]

-- The loop at l is told that it runs, or no longer does.
told-IsSingle :
    (l : ℕ) (w : Process) (o : Owner) (b : Bool)
    → IsSingle w
    → w.loops l ≡ some o
    → IsSingle (record w { loops = set_at l (some (record o { looping = b })) w.loops })
told-IsSingle l w o b s at j o' h = elim (ℕ-cases j l) [
  | inl e ↦
      let own : o.thread ≡ o'.thread =
        ap thread_of (sym (set_at_here l _ w.loops) ∙ ap (set_at l _ w.loops) (sym e) ∙ h) in
      ap w.here (sym own) ∙ s l o at ∙ ap some (sym e)
  | inr ne ↦ s j o' (sym (set_at_there l _ w.loops j ne) ∙ h)
]

construct_ends :
    (t l : ℕ) (w : Process) (h : Option ℕ)
    → w.here t ≡ h
    → IsSingle w
    → Ends (not (has_loop h)) (construct t l w) IsSingle
unfolding construct
construct_ends t l w none e s = (_, rw e refl, construct-IsSingle t l w s e)
construct_ends t l w (some k) e s = rw e refl

destroy_of :
    (t l : ℕ) (w : Process) (o : Owner) (b : Bool)
    → w.loops l ≡ some o
    → o.looping ≡ b
    → IsSingle w
    → is_in_loop_thread t o ≡ true
    → Ends (not b) (destroy t l w) IsSingle
unfolding destroy
destroy_of t l w o true e f s own = rw (e, f) refl
destroy_of t l w o false e f s own =
    (_, rw (e, f) refl, destroy-IsSingle t l w o s e (ground arith))

destroy_ends :
    (t l : ℕ) (w : Process) (o : Option Owner)
    → w.loops l ≡ o
    → IsSingle w
    → elim o [ none ↦ false | some o ↦ is_in_loop_thread t o ] ≡ true
    → Ends (elim o [ none ↦ false | some o ↦ not o.looping ]) (destroy t l w) IsSingle
unfolding destroy
destroy_ends t l w none e s own = rw e refl
destroy_ends t l w (some o) e s own = destroy_of t l w o o.looping e refl s own

begin_of :
    (t l : ℕ) (w : Process) (o : Owner) (b mine : Bool)
    → w.loops l ≡ some o
    → o.looping ≡ b
    → is_in_loop_thread t o ≡ mine
    → IsSingle w
    → Ends (not b && mine) (begin_loop t l w) IsSingle
unfolding begin_loop
begin_of t l w o true mine e f g s = rw (e, f) refl
begin_of t l w o false false e f g s = rw (e, f, g) refl
begin_of t l w o false true e f g s = (_, rw (e, f, g) refl, told-IsSingle l w o true s e)

begin_ends :
    (t l : ℕ) (w : Process) (o : Option Owner)
    → w.loops l ≡ o
    → IsSingle w
    → Ends
        (elim o [ none ↦ false | some o ↦ not o.looping && is_in_loop_thread t o ])
        (begin_loop t l w)
        IsSingle
unfolding begin_loop
begin_ends t l w none e s = rw e refl
begin_ends t l w (some o) e s = begin_of t l w o o.looping (is_in_loop_thread t o) e refl refl s

end_ends :
    (l : ℕ) (w : Process) (o : Option Owner)
    → w.loops l ≡ o
    → IsSingle w
    → Ends (has_loop o) (end_loop l w) IsSingle
unfolding end_loop
end_ends l w none e s = rw e refl
end_ends l w (some o) e s = (_, rw e refl, told-IsSingle l w o false s e)

-- A step that keeps to the rules is done or aborts as the test says, and threads keep pointing to their loops.
pub act-IsSingle :
    (a : Act) (w : Process)
    → IsSingle w
    → is_proper a w ≡ true
    → Ends (may_act a w) (act a w) IsSingle
act-IsSingle (constructs t l) w s h = construct_ends t l w (w.here t) refl s
act-IsSingle (destroys t l) w s h = destroy_ends t l w (w.loops l) refl s h
act-IsSingle (begins t l) w s h = begin_ends t l w (w.loops l) refl s
act-IsSingle (finishes l) w s h = end_ends l w (w.loops l) refl s

-- A history of the process, each of its steps done.
pub data Life : Process → Type 0 where
  starts : Life fresh_process
  later : {w w' : Process} (a : Act) → Life w → is_proper a w ≡ true → act a w ≡ done w' → Life w'

of_ends : (b : Bool) {r : Run Process} (w : Process) → Ends b r IsSingle → r ≡ done w → IsSingle w
of_ends true w (w', e, s) h = subst IsSingle (done_process (sym e ∙ h)) s
of_ends false w e h = absurd (not_aborted (sym e ∙ h))

Life-IsSingle : {w : Process} → Life w → IsSingle w
Life-IsSingle starts = λ l o h. absurd (none_ne h)
Life-IsSingle (later {w' = w'} a h p e) = of_ends _ w' (act-IsSingle a _ (Life-IsSingle h) p) e

-- Over any history in which new loops have addresses of their own, only loops that are alive are used, and a
-- loop is destroyed by its own thread: two loops that are alive and have the same thread are one loop. And a
-- further step of this kind is done exactly if, to construct a loop, the thread has none; to run `loop()`, the
-- loop does not run yet and the thread is its own; to destroy a loop, it does not
-- run. Otherwise it aborts. The end of `loop()` is always done.
pub Life-one :
    {w : Process} (a : Act)
    → Life w
    → is_proper a w ≡ true
    → ((k l : ℕ) (o p : Owner)
        → w.loops k ≡ some o
        → w.loops l ≡ some p
        → o.thread ≡ p.thread
        → k ≡ l)
      × Ends (may_act a w) (act a w) IsSingle
Life-one {w} a h q = (
  λ k l o p x y e.
      ap address_of (sym (Life-IsSingle h k o x) ∙ ap w.here e ∙ Life-IsSingle h l p y),
  act-IsSingle a w (Life-IsSingle h) q,
)
