-- ===== src/Net/SubLoops/Turns.antt =====
-- The order in which winterfell/net/wf_sub_loops.cc hands out the loops.
use native.Mathlib.Nat.{mod_self, mod-eq_of_lt}
use winterfell.Prelude.{
  ℕ, zero, suc, ◌+◌, ◌<◌, ◌-◌, ◌%◌, ◌≤◌, ◌≡◌, refl, sym, ap, subst, ◌∙◌, true, false, List, [], ◌∷◌,
  ◌++◌, length, length-append, append_assoc, append-nil, Bool-cases, inl, inr, some, none,
  get_elem?, done, aborted, ◌==◌, arith,
}
use winterfell.Net.SubLoops.{SubLoops, get_next_loop, get_loops}

module _ {Loop : Type 0} where
  elem_at :
      (before : List Loop) (l : Loop) (after : List Loop)
      → get_elem? (before ++ l ∷ after) (length before) ≡ some l
  elem_at [] l after = refl
  elem_at (b ∷ before) l after = elem_at before l after

  -- All threads have pushed their loops.
  abbrev pub running : List Loop → ℕ → SubLoops Loop
  running loops next = record {
    started = true;
    num_threads = length loops;
    next = next;
    loops = loops;
  }

  next_is :
      (before : List Loop) (l : Loop) (after : List Loop) (next : ℕ)
      → (next + 1) % length (before ++ l ∷ after) ≡ length before
      → get_next_loop (running (before ++ l ∷ after) next)
        ≡ done (l, running (before ++ l ∷ after) (length before))
  unfolding get_next_loop
  next_is before l after next e = rw (some_threads, e, elem_at before l after) refl
    where
      some_threads : (length (before ++ l ∷ after) == 0) ≡ false
      some_threads = ground (arith, length-append before (l ∷ after))

  small :
      (before : List Loop) (l : Loop) (after : List Loop) (next : ℕ)
      → next + 1 ≡ length before
      → (next + 1) % length (before ++ l ∷ after) ≡ length before
  small before l after next e =
      rw e (mod-eq_of_lt (omega (arith, length-append before (l ∷ after))))

  -- From the loop behind `before`, the rest in order.
  rest_in_order :
      (loops before after : List Loop) (next : ℕ)
      → before ++ after ≡ loops
      → next + 1 ≡ length before
      → get_loops (length after) (running loops next)
        ≡ done (after, running loops (length loops - 1))
  unfolding get_loops
  rest_in_order loops before [] next e h = ap (λ n. done ([], running loops n)) last
    where
      last : next ≡ length loops - 1
      last = omega (arith, h, ap length (sym (append-nil before) ∙ e))
  rest_in_order loops before (l ∷ after) next e h =
      rw
        (
          this,
          rest_in_order loops (before ++ l ∷ []) after (length before)
              (append_assoc before (l ∷ []) after ∙ e) one_more,
        )
        refl
    where
      this : get_next_loop (running loops next) ≡ done (l, running loops (length before))
      this =
          subst (λ ls. get_next_loop (running ls next) ≡ done (l, running ls (length before))) e
            (next_is before l after next (small before l after next h))

      one_more : length before + 1 ≡ length (before ++ l ∷ [])
      one_more = omega (arith, length-append before (l ∷ []))

  none_there : (ls : List Loop) (i : ℕ) → length ls ≤ i → get_elem? ls i ≡ none
  none_there [] i h = refl
  none_there (l ∷ ls) zero h = absurd (omega arith)
  none_there (l ∷ ls) (suc i) h = none_there ls i (omega arith)

  -- Once all threads have pushed their loops, there being one more than `rest` of them: the first
  -- calls after the start hand out all loops but the first, in order; and from there each turn of as many
  -- calls as there are loops hands out all loops in order and ends where it began. But while the loop
  -- whose turn it is has not been pushed, a call reads out of range.
  pub turns_lem :
      (l : Loop) (rest : List Loop)
      → (get_loops (length rest) (running (l ∷ rest) 0)
          ≡ done (rest, running (l ∷ rest) (length rest)))
        × (get_loops (length (l ∷ rest)) (running (l ∷ rest) (length rest))
            ≡ done (l ∷ rest, running (l ∷ rest) (length rest)))
        × ((s : SubLoops Loop)
            → length s.loops ≤ (s.next + 1) % s.num_threads
            → get_next_loop s ≡ aborted)
  unfolding get_loops get_next_loop
  turns_lem l rest = (first 0 refl, again, missing)
    where
      ends_at : length (l ∷ rest) - 1 ≡ length rest
      ends_at = omega arith

      first :
          (i : ℕ)
          → i ≡ 0
          → get_loops (length rest) (running (l ∷ rest) i)
            ≡ done (rest, running (l ∷ rest) (length rest))
      first i z =
          rest_in_order (l ∷ rest) (l ∷ []) rest i refl (omega arith)
          ∙ ap (λ n. done (rest, running (l ∷ rest) n)) ends_at

      again :
          get_loops (length (l ∷ rest)) (running (l ∷ rest) (length rest))
          ≡ done (l ∷ rest, running (l ∷ rest) (length rest))
      again = rw (next_is [] l rest (length rest) whole, first 0 refl) refl
        where
          whole : (length rest + 1) % length (l ∷ rest) ≡ 0
          whole = ap (λ n. n % length (l ∷ rest)) (omega arith) ∙ mod_self (length (l ∷ rest))

      missing :
          (s : SubLoops Loop)
          → length s.loops ≤ (s.next + 1) % s.num_threads
          → get_next_loop s ≡ aborted
      missing s h = elim (Bool-cases (s.num_threads == 0)) [
        | inl e ↦ rw e refl
        | inr e ↦ rw (e, none_there s.loops ((s.next + 1) % s.num_threads) h) refl
      ]

module _ {Loop : Type 0} where
  -- Every thread has pushed its loop, and there is one.
  pub record IsReady (s : SubLoops Loop) : Type 0 where
    pub some_thread : 0 < s.num_threads
    pub all_there : length s.loops ≡ s.num_threads

  is_there : (ls : List Loop) (i : ℕ) → i < length ls → (l : Loop) × (get_elem? ls i ≡ some l)
  is_there [] i h = absurd (omega arith)
  is_there (l ∷ ls) zero h = (l, refl)
  is_there (l ∷ ls) (suc i) h = is_there ls i (omega arith)

  pub get_next_loop-IsReady :
      (s : SubLoops Loop)
      → IsReady s
      → (l : Loop) × (t : SubLoops Loop) × (get_next_loop s ≡ done (l, t)) × IsReady t
  unfolding get_next_loop
  get_next_loop-IsReady s r =
      let next = (s.next + 1) % s.num_threads in
      let below : next < length s.loops = grind (arith, r.some_thread, r.all_there) in
      let (l, e) = is_there s.loops next below in
      let threads : (s.num_threads == 0) ≡ false = ground (arith, r.some_thread) in
      (
        l,
        record s { next = next },
        rw (threads, e) refl,
        record { some_thread = r.some_thread; all_there = r.all_there },
      )
