-- ===== src/Util/Any/Steps.antt =====
-- Each operation of winterfell/util/wf_any.h against the values that the objects hold.
use winterfell.Prelude.{
  ℕ, ◌≡◌, ◌≢◌, refl, sym, ap, subst, ◌∙◌, Option, some, none, some_inj, none_ne, Run, done, aborted,
  set_at, set_at_here, set_at_there, set_at_again, set_at_swap, set_at_same,
}
use winterfell.Util.Any.{Pointer, Data, Memory, allocate, point, release}
use winterfell.Util.Any.Values.{
  Contents, view, Shows, OwnsNone, Shows-put, Shows-allocate, Shows-release,
}

pub none_owns : OwnsNone (some none)
none_owns a e = none_ne (some_inj e)

pub dead_owns : OwnsNone none
dead_owns a e = none_ne e

module _ (T : ℕ → Type 0) where
  -- A run that ends as the values say.
  abbrev pub Meets : Option (Contents T) → Run (Memory T) → Type 0
  Meets none r = r ≡ aborted
  Meets (some held) r = (m : Memory T) × (r ≡ done m) × Shows T m held

  abbrev memory : (ℕ → Option (Data T)) → (ℕ → Option Pointer) → Memory T
  memory cells objects = record { cells = cells; objects = objects }

  -- The same memory and values, written otherwise.
  pub Shows-same :
      {cells cells' : ℕ → Option (Data T)} {objects objects' : ℕ → Option Pointer}
      {held held' : Contents T}
      → cells ≡ cells'
      → objects ≡ objects'
      → held ≡ held'
      → Shows T (memory cells objects) held
      → Shows T (memory cells' objects') held'
  Shows-same {cells' = cells'} {objects} {objects'} {held} c o h s =
      subst (Shows T (memory cells' objects')) h (
        subst (λ f. Shows T (memory cells' f) held) o
          (subst (λ f. Shows T (memory f objects) held) c s))

  -- After `delete p`.
  abbrev pub freed : Pointer → (ℕ → Option (Data T)) → ℕ → Option (Data T)
  freed none cells = cells
  freed (some a) cells = set_at a none cells

  abbrev pub given_back : Memory T → Pointer → Memory T
  given_back m p = record m { cells = freed p m.cells }

  module _ (m : Memory T) (held : Contents T) (s : Shows T m held) where
    -- What an object that is alive holds.
    pub holds : (i : ℕ) (o : Option Pointer) → m.objects i ≡ o → held i ≡ view T m.cells o
    holds i o e = sym (s.shown i) ∙ ap (view T m.cells) e

    pub owns_nothing : {i : ℕ} → m.objects i ≡ some none → OwnsNone (m.objects i)
    owns_nothing e a h = none_owns a (sym e ∙ h)

    pub is_dead : {i : ℕ} → m.objects i ≡ none → OwnsNone (m.objects i)
    is_dead e a h = dead_owns a (sym e ∙ h)

    pub transfer-Shows :
        (i j : ℕ) (p : Pointer)
        → OwnsNone (m.objects i)
        → m.objects j ≡ some p
        → i ≢ j
        → Shows T (point T j none (point T i p m)) (set_at j (some none) (set_at i (held j) held))
    unfolding point allocate
    transfer-Shows i j none was at ne =
        let one = Shows-put T m held s i (some none) was none_owns in
        let two =
          Shows-put T _ _ one j (some none)
            (λ a h.
              none_owns a
                (sym at ∙ sym (set_at_there i (some none) m.objects j (λ e. ne (sym e))) ∙ h))
            none_owns in
        subst
          (λ c.
            Shows T (point T j none (point T i none m)) (set_at j (some none) (set_at i c held)))
          (sym (holds j _ at)) two
    transfer-Shows i j (some a) was at ne =
        let (v, full) = s.owned j a at in
        let freed = Shows-release T m held s j a at in
        let got =
          Shows-allocate T _ _ freed i a v
            (λ b h. was b (sym (set_at_there j (some none) m.objects i ne) ∙ h))
            (set_at_here a none m.cells) in
        Shows-same (set_at_again a (some v) m.cells none ∙ set_at_same a (some v) m.cells full)
          (set_at_swap i (some (some a)) m.objects j (some none) ne)
          (set_at_swap i (some (some v)) held j (some none) ne
            ∙ ap (λ c. set_at j (some none) (set_at i c held))
                (sym (holds j _ at ∙ ap (λ c. some c) full)))
          got

    pub release_runs :
        (i : ℕ) (p : Pointer) → m.objects i ≡ some p → release T p m ≡ done (given_back m p)
    unfolding release
    release_runs i none e = refl
    release_runs i (some a) e = let (v, full) = s.owned i a e in rw full refl

    pub release-Shows :
        (i : ℕ) (p : Pointer)
        → m.objects i ≡ some p
        → Shows T (point T i none (given_back m p)) (set_at i (some none) held)
    unfolding point
    release-Shows i none e = Shows-put T m held s i (some none) (owns_nothing e) none_owns
    release-Shows i (some a) e = Shows-release T m held s i a e
