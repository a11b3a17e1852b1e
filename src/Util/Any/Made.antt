-- ===== src/Util/Any/Made.antt =====
-- The constructors of winterfell/util/wf_any.h, and the destructor, against what they mean.
use winterfell.Prelude.{
  ℕ, ◌≡◌, ◌≢◌, refl, sym, ap, subst, ◌∙◌, Option, some, none, none_ne, done, ◌>>=◌, set_at,
  set_at_here, set_at_again,
}
use winterfell.Util.Any.{
  Pointer, Data, Memory, point, clone, construct, construct_of, copy, move, destroy,
}
use winterfell.Util.Any.Values.{content, Contents, view, Shows, OwnsNone, Shows-put, Shows-allocate}
use winterfell.Util.Any.Steps.{
  Shows-same, Meets, none_owns, dead_owns, holds, is_dead, transfer-Shows, release_runs,
  release-Shows,
}
use winterfell.Util.Any.Meaning.{if_dead, if_alive, if_value}

module _ (T : ℕ → Type 0) where
  module _ (m : Memory T) (held : Contents T) (s : Shows T m held) where
    -- To show something of what an object holds, look at the object.
    pub at_object :
        (i : ℕ) (P : Option (Option (Data T)) → Type 0)
        → ((o : Option Pointer) → m.objects i ≡ o → P (view T m.cells o))
        → P (held i)
    at_object i P f = subst P (s.shown i) (f (m.objects i) refl)

    pub constructs_at :
        (i : ℕ) (o : Option Pointer)
        → m.objects i ≡ o
        → Meets T
            (if_dead T (view T m.cells o) (some (set_at i (some none) held)))
            (construct T i m)
    unfolding construct point
    constructs_at i none e =
        (_, rw e refl, Shows-put T m held s i (some none) (is_dead T m held s e) none_owns)
    constructs_at i (some p) e = rw e refl

    pub constructs_of_at :
        (i a : ℕ) (v : Data T)
        → m.cells a ≡ none
        → (o : Option Pointer) → m.objects i ≡ o
        → Meets T
            (if_dead T (view T m.cells o) (some (set_at i (some (some v)) held)))
            (construct_of T i a v m)
    unfolding construct_of
    constructs_of_at i a v free none e =
        (_, rw e refl, Shows-allocate T m held s i a v (is_dead T m held s e) free)
    constructs_of_at i a v free (some p) e = rw e refl

    -- `clone` of an object's pointer for an object that owns nothing.
    cloned :
        (i a : ℕ) (j : ℕ) (p : Pointer)
        → OwnsNone (m.objects i)
        → m.cells a ≡ none
        → m.objects j ≡ some p
        → Meets T
            (if_value T (content T m.cells p) λ v. some (set_at i (some (some v)) held))
            (clone T a p m >>= λ m'. done (point T i (some a) m'))
    unfolding clone
    cloned i a j none was free e = refl
    cloned i a j (some b) was free e =
        let (v, full) = s.owned j b e in rw full (_, refl, Shows-allocate T m held s i a v was free)

    pub copies_at :
        (i j a : ℕ)
        → m.cells a ≡ none
        → (o o' : Option Pointer) → m.objects i ≡ o
        → m.objects j ≡ o'
        → Meets T
            (if_dead T (view T m.cells o) (
              if_alive T
                (view T m.cells o')
                λ c. if_value T c λ v. some (set_at i (some (some v)) held)))
            (copy T i j a m)
    unfolding copy
    copies_at i j a free (some p) o' e e' = rw e refl
    copies_at i j a free none none e e' = rw (e, e') refl
    copies_at i j a free none (some p) e e' =
        rw (e, e') (cloned i a j p (is_dead T m held s e) free e')

    pub moves_at :
        (i j : ℕ) (o o' : Option Pointer)
        → m.objects i ≡ o
        → m.objects j ≡ o'
        → Meets T
            (if_dead T (view T m.cells o) (
              if_alive T
                (view T m.cells o')
                λ c. some (set_at j (some none) (set_at i (some c) held))))
            (move T i j m)
    unfolding move
    moves_at i j (some p) o' e e' = rw e refl
    moves_at i j none none e e' = rw (e, e') refl
    moves_at i j none (some p) e e' =
        let ne : i ≢ j = λ d. none_ne (sym e ∙ ap m.objects d ∙ e') in
        (
          _,
          rw (e, e') refl,
          subst
              (λ c.
                Shows T (point T j none (point T i p m)) (set_at j (some none) (set_at i c held)))
              (holds T m held s j _ e')
              (transfer-Shows T m held s i j p (is_dead T m held s e) e' ne),
        )

    pub destroys_at :
        (i : ℕ) (o : Option Pointer)
        → m.objects i ≡ o
        → Meets T (if_alive T (view T m.cells o) λ c. some (set_at i none held)) (destroy T i m)
    unfolding destroy point
    destroys_at i none e = rw e refl
    destroys_at i (some p) e =
        let freed = release-Shows T m held s i p e in
        let ended =
          Shows-put T _ _ freed i none
            (λ a h. none_owns a (sym (set_at_here i (some none) m.objects) ∙ h)) dead_owns in
        (
          _,
          rw (e, release_runs T m held s i p e) refl,
          Shows-same T refl (set_at_again i none m.objects (some none))
              (set_at_again i none held (some none)) ended,
        )
