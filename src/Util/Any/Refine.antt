-- ===== src/Util/Any/Refine.antt =====
-- The class `Any` of winterfell/util/wf_any.h against plain places for values: any sequence of operations, and the
-- data that is read back.
use winterfell.Prelude.{
  ℕ, ◌≡◌, refl, List, [], ◌∷◌, Option, some, none, none_ne, Run, done, ◌>>=◌, set_at, ◌==◌,
  if◌then◌else◌,
}
use winterfell.Util.Any.{
  fresh_memory, Data, Memory, construct, construct_of, copy, move, copy_assign, move_assign,
  destroy,
}
use winterfell.Util.Any.Values.{Contents, view, Shows}
use winterfell.Util.Any.Steps.{Meets}
use winterfell.Util.Any.Meaning.{
  Operation, constructs, constructs_of, copies, moves, copy_assigns, move_assigns, destroys,
  perform, if_dead, if_alive, if_value, meant, IsPossible,
}
use winterfell.Util.Any.Made.{
  at_object, constructs_at, constructs_of_at, copies_at, moves_at, destroys_at,
}
use winterfell.Util.Any.Assigned.{copy_assign_object, move_assign_object}

module _ (T : ℕ → Type 0) where
  pub perform-Meets :
      (op : Operation T) (m : Memory T) (held : Contents T)
      → Shows T m held
      → IsPossible T op m
      → Meets T (meant T op held) (perform T op m)
  perform-Meets (constructs i) m held s f =
      at_object T m held s i
        (λ c. Meets T (if_dead T c (some (set_at i (some none) held))) (construct T i m))
        (constructs_at T m held s i)
  perform-Meets (constructs_of i a v) m held s f =
      at_object T m held s i
        (λ c. Meets T (if_dead T c (some (set_at i (some (some v)) held))) (construct_of T i a v m))
        (constructs_of_at T m held s i a v f)
  perform-Meets (destroys i) m held s f =
      at_object T m held s i
        (λ c. Meets T (if_alive T c λ o. some (set_at i none held)) (destroy T i m))
        (destroys_at T m held s i)
  perform-Meets (copies i j a) m held s f =
      let F = λ (c : Option (Option (Data T))).
        if_alive T c λ o. if_value T o λ v. some (set_at i (some (some v)) held) in
      at_object T m held s i (λ c. Meets T (if_dead T c (F (held j))) (copy T i j a m))
        λ o e.
          at_object T m held s j
            (λ c. Meets T (if_dead T (view T m.cells o) (F c)) (copy T i j a m))
            λ o' e'. copies_at T m held s i j a f o o' e e'
  perform-Meets (moves i j) m held s f =
      let F = λ (c : Option (Option (Data T))).
        if_alive T c λ o. some (set_at j (some none) (set_at i (some o) held)) in
      at_object T m held s i (λ c. Meets T (if_dead T c (F (held j))) (move T i j m))
        λ o e.
          at_object T m held s j (λ c. Meets T (if_dead T (view T m.cells o) (F c)) (move T i j m))
            λ o' e'. moves_at T m held s i j o o' e e'
  perform-Meets (copy_assigns i j a) m held s f =
      let F = λ (c : Option (Option (Data T))). if_alive T c λ old.
        if_alive T (held j)
          λ o. if i == j then none else if_value T o λ v. some (set_at i (some (some v)) held) in
      at_object T m held s i (λ c. Meets T (F c) (copy_assign T i j a m))
        (copy_assign_object T m held s i j a f)
  perform-Meets (move_assigns i j) m held s f =
      let F = λ (c : Option (Option (Data T))).
        if_alive T c
          λ old. if_alive T (held j) λ o. some (set_at j (some none) (set_at i (some o) held)) in
      at_object T m held s i (λ c. Meets T (F c) (move_assign T i j m))
        (move_assign_object T m held s i j)

  -- Sequences of operations, on the memory and on the values.
  unfoldable pub perform_all : List (Operation T) → Memory T → Run (Memory T)
  perform_all [] m = done m
  perform_all (op ∷ ops) m = perform T op m >>= perform_all ops

  abbrev pub then_mean :
      Option (Contents T) → (Contents T → Option (Contents T)) → Option (Contents T)
  then_mean none f = none
  then_mean (some held) f = f held

  unfoldable pub meant_all : List (Operation T) → Contents T → Option (Contents T)
  meant_all [] held = some held
  meant_all (op ∷ ops) held = then_mean (meant T op held) (meant_all ops)

  abbrev pub ArePossible : List (Operation T) → Memory T → Type 0
  ArePossible [] m = Unit
  ArePossible (op ∷ ops) m =
      IsPossible T op m × ((m' : Memory T) → perform T op m ≡ done m' → ArePossible ops m')

  run_from :
      (ops : List (Operation T)) (m : Memory T) (held : Contents T)
      → Shows T m held
      → ArePossible ops m
      → Meets T (meant_all ops held) (perform_all ops m)
  unfolding perform_all meant_all
  run_from [] m held s f = (m, refl, s)
  run_from (op ∷ ops) m held s (f, fs) =
      go (run_from ops) fs (meant T op held) (perform-Meets op m held s f)
    where
      go :
          ((m' : Memory T) (held' : Contents T)
            → Shows T m' held'
            → ArePossible ops m'
            → Meets T (meant_all ops held') (perform_all ops m'))
          → ((m' : Memory T) → perform T op m ≡ done m' → ArePossible ops m')
          → (h : Option (Contents T)) → Meets T h (perform T op m)
          → Meets T (then_mean h (meant_all ops)) (perform T op m >>= perform_all ops)
      go rest fs none e = rw e refl
      go rest fs (some held') (m', e, s') = rw e (rest m' held' s' (fs m' e))

  pub fresh-Shows : Shows T (fresh_memory T) (λ i. none)
  fresh-Shows = record {
    shown = λ i. refl;
    owned = λ i a h. absurd (none_ne h);
    unique = λ i j a h h'. absurd (none_ne h);
    no_leak = λ a v h. absurd (none_ne h);
  }

  -- Any sequence of operations, whatever free addresses the allocator gives: it aborts exactly when the values say so,
  -- that is when a name is constructed twice or used when not alive, or an object without a value is copied, or an
  -- object is assigned a copy of itself. Otherwise the objects hold the values that are meant, and each cell in use is owned by
  -- exactly one object: nothing is leaked, and nothing is given back twice.
  pub perform_all-Meets :
      (ops : List (Operation T))
      → ArePossible ops (fresh_memory T)
      → Meets T (meant_all ops (λ i. none)) (perform_all ops (fresh_memory T))
  perform_all-Meets ops f = run_from ops (fresh_memory T) (λ i. none) fresh-Shows f
