-- ===== src/Util/Any/Assigned.antt =====
-- The assignments of winterfell/util/wf_any.h against what they mean.
use winterfell.Prelude.{
  ℕ, ◌≡◌, ◌≢◌, refl, sym, ap, subst, ◌∙◌, inl, inr, false, Option, some, none, done, aborted,
  follow, ◌>>=◌, set_at, set_at_here, set_at_there, set_at_again, ℕ-cases, ◌==◌, ==_refl, arith,
  if◌then◌else◌,
}
use winterfell.Util.Any.{Pointer, Data, Memory, allocate, point, clone, copy_assign, move_assign}
use winterfell.Util.Any.Values.{content, Contents, view, Shows, Shows-allocate}
use winterfell.Util.Any.Steps.{
  freed, Shows-same, Meets, none_owns, holds, transfer-Shows, given_back, release_runs,
  release-Shows,
}
use winterfell.Util.Any.Meaning.{copy_assigns, if_alive, if_value, IsPossible}

module _ (T : ℕ → Type 0) where
  module _ (m : Memory T) (held : Contents T) (s : Shows T m held) where
    module _ (i : ℕ) (p : Pointer) (e : m.objects i ≡ some p) where
      -- The memory and the values once the old value is given back.
      after : Shows T (point T i none (given_back T m p)) (set_at i (some none) held)
      after = release-Shows T m held s i p e

      copy_self : (a : ℕ) → copy_assign T i i a m ≡ aborted
      unfolding copy_assign clone
      copy_self a = rw (e, release_runs T m held s i p e, e) (gone p)
        where
          gone :
              (p : Pointer)
              → (follow p >>= λ b. follow ((freed T p m.cells) b) >>= λ v.
                    done (allocate T a v (given_back T m p)))
                  >>= (λ m'. done (point T i (some a) m'))
                ≡ aborted
          gone none = refl
          gone (some b) = rw (set_at_here b none m.cells) refl

      copy_other :
          (j a : ℕ)
          → i ≢ j
          → freed T p m.cells a ≡ none
          → (o : Option Pointer) → m.objects j ≡ o
          → Meets T
              (if_alive T
                (view T (freed T p m.cells) o)
                λ c. if_value T c λ v. some (set_at i (some (some v)) held))
              (copy_assign T i j a m)
      unfolding copy_assign clone point allocate
      copy_other j a ne free none e' = rw (e, release_runs T m held s i p e, e') refl
      copy_other j a ne free (some none) e' = rw (e, release_runs T m held s i p e, e') refl
      copy_other j a ne free (some (some b)) e' =
          let (v, full) =
            after.owned j b (set_at_there i (some none) m.objects j (λ d. ne (sym d)) ∙ e') in
          let copied =
            Shows-allocate T _ _ after i a v
              (λ c h. none_owns c (sym (set_at_here i (some none) m.objects) ∙ h)) free in
          rw (e, release_runs T m held s i p e, e', full)
            (
              _,
              refl,
              Shows-same T refl (set_at_again i (some (some a)) m.objects (some none))
                  (set_at_again i (some (some v)) held (some none)) copied,
            )

      -- The others hold what they held.
      held_on :
          (j : ℕ)
          → i ≢ j
          → (o : Option Pointer) → m.objects j ≡ o
          → view T (freed T p m.cells) o ≡ held j
      unfolding point
      held_on j ne o e' =
          let ne' : j ≢ i = λ d. ne (sym d) in
          ap (view T (freed T p m.cells)) (sym (set_at_there i (some none) m.objects j ne' ∙ e'))
          ∙ after.shown j
          ∙ set_at_there i (some none) held j ne'

      move_self :
          Shows T
            (point T i none (point T i p (given_back T m p)))
            (set_at i (some none) (set_at i (some (content T m.cells p)) held))
      unfolding point
      move_self =
          Shows-same T refl (sym (set_at_again i (some none) m.objects (some p)))
            (sym (set_at_again i (some none) held _)) after

      move_other :
          (j : ℕ)
          → i ≢ j
          → (o : Option Pointer) → m.objects j ≡ o
          → Meets T
              (if_alive T
                (view T (freed T p m.cells) o)
                λ c. some (set_at j (some none) (set_at i (some c) held)))
              (move_assign T i j m)
      unfolding move_assign point
      move_other j ne none e' = rw (e, release_runs T m held s i p e, e') refl
      move_other j ne (some q) e' =
          rw (e, release_runs T m held s i p e, e')
            (
              _,
              refl,
              Shows-same T refl
                  (ap (set_at j (some none)) (set_at_again i (some q) m.objects (some none)))
                  (ap (set_at j (some none)) (
                    set_at_again i _ held (some none)
                    ∙ ap (λ c. set_at i c held)
                        (set_at_there i (some none) held j (λ d. ne (sym d))
                          ∙ sym (held_on j ne (some q) e'))))
                  (transfer-Shows T _ _ after i j q
                    (λ c h. none_owns c (sym (set_at_here i (some none) m.objects) ∙ h))
                    (set_at_there i (some none) m.objects j (λ d. ne (sym d)) ∙ e') ne),
            )

      -- `==` on the names, decided.
      self_copy :
          (a : ℕ) (c : Option (Option (Data T)))
          → if_alive T c
              (λ o. if i == i then none else if_value T o λ v. some (set_at i (some (some v)) held))
            ≡ none
      self_copy a none = refl
      self_copy a (some o) = rw (==_refl i) refl

      copy_assigns_at :
          (j a : ℕ)
          → freed T p m.cells a ≡ none
          → Meets T
              (if_alive T (held j) λ o.
                if i == j then none else if_value T o λ v. some (set_at i (some (some v)) held))
              (copy_assign T i j a m)
      copy_assigns_at j a free = elim (ℕ-cases i j) [
        | inl d ↦
            subst
              (λ k.
                Meets T
                  (if_alive T (held k) λ o.
                    if i == k then none else if_value T o λ v. some (set_at i (some (some v)) held))
                  (copy_assign T i k a m))
              d
              (subst (λ r. Meets T r (copy_assign T i i a m)) (sym (self_copy a (held i)))
                (copy_self a))
        | inr ne ↦
            let off : (i == j) ≡ false = ground arith in
            rw off (
              subst
                (λ c.
                  Meets T (if_alive T c λ o. if_value T o λ v. some (set_at i (some (some v)) held))
                    (copy_assign T i j a m))
                (held_on j ne _ refl) (copy_other j a ne free _ refl))
      ]

      move_assigns_at :
          (j : ℕ)
          → Meets T
              (if_alive T (held j) λ o. some (set_at j (some none) (set_at i (some o) held)))
              (move_assign T i j m)
      unfolding move_assign
      move_assigns_at j = elim (ℕ-cases i j) [
        | inl d ↦
            subst
              (λ k.
                Meets T
                  (if_alive T (held k) λ o. some (set_at k (some none) (set_at i (some o) held)))
                  (move_assign T i k m))
              d
              (subst
                (λ c.
                  Meets T (if_alive T c λ o. some (set_at i (some none) (set_at i (some o) held)))
                    (move_assign T i i m))
                (sym (holds T m held s i _ e))
                (_, rw (e, release_runs T m held s i p e, e) refl, move_self))
        | inr ne ↦
            subst
              (λ c.
                Meets T (if_alive T c λ o. some (set_at j (some none) (set_at i (some o) held)))
                  (move_assign T i j m))
              (held_on j ne _ refl) (move_other j ne _ refl)
      ]

    pub copy_assign_object :
        (i j a : ℕ)
        → IsPossible T (copy_assigns i j a) m
        → (o : Option Pointer) → m.objects i ≡ o
        → Meets T
            (if_alive T (view T m.cells o) λ old.
              if_alive T (held j) λ c.
                if i == j then none else if_value T c λ v. some (set_at i (some (some v)) held))
            (copy_assign T i j a m)
    unfolding copy_assign
    copy_assign_object i j a f none e = rw e refl
    copy_assign_object i j a f (some p) e =
        copy_assigns_at i p e j a (f p (given_back T m p) e (release_runs T m held s i p e))

    pub move_assign_object :
        (i j : ℕ) (o : Option Pointer)
        → m.objects i ≡ o
        → Meets T
            (if_alive T
              (view T m.cells o)
              λ old. if_alive T (held j) λ c. some (set_at j (some none) (set_at i (some c) held)))
            (move_assign T i j m)
    unfolding move_assign
    move_assign_object i j none e = rw e refl
    move_assign_object i j (some p) e = move_assigns_at i p e j
