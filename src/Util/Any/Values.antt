-- ===== src/Util/Any/Values.antt =====
-- The objects of winterfell/util/wf_any.h as places for values, and who owns which memory.
use winterfell.Prelude.{
  ℕ, ◌≡◌, ◌≢◌, refl, sym, ap, ◌∙◌, inl, inr, Option, some, none, some_inj, none_ne, set_at,
  set_at_here, set_at_there, ℕ-cases,
}
use winterfell.Util.Any.{Pointer, Data, Memory, allocate, point}

abbrev pub OwnsNone : Option Pointer → Type 0
OwnsNone o = (a : ℕ) → o ≢ some (some a)

owner_of : {a b : ℕ} → ◌≡◌ {A = Option Pointer} (some (some a)) (some (some b)) → a ≡ b
owner_of e = some_inj (some_inj e)

-- At the changed object, and at the others.
here :
    {i k : ℕ} {o : Option Pointer} (objects : ℕ → Option Pointer) → k ≡ i → set_at i o objects k ≡ o
here {i} {o = o} objects e = ap (set_at i o objects) e ∙ set_at_here i o objects

there :
    {i k : ℕ} (o : Option Pointer) {p : Option Pointer} (objects : ℕ → Option Pointer)
    → k ≢ i
    → set_at i o objects k ≡ p
    → objects k ≡ p
there {i} {k} o objects ne h = sym (set_at_there i o objects k ne) ∙ h

module _ (T : ℕ → Type 0) where
  -- What the objects hold: not alive, without a value, or a value.
  abbrev pub Contents : Type 0
  Contents = ℕ → Option (Option (Data T))

  -- What is behind a pointer.
  abbrev pub content : (ℕ → Option (Data T)) → Pointer → Option (Data T)
  content cells none = none
  content cells (some a) = cells a

  abbrev pub view : (ℕ → Option (Data T)) → Option Pointer → Option (Option (Data T))
  view cells none = none
  view cells (some p) = some (content cells p)

  -- The objects hold these values; each cell in use is owned by exactly one object.
  pub record Shows (m : Memory T) (held : Contents) : Type 0 where
    pub shown : (i : ℕ) → view m.cells (m.objects i) ≡ held i
    pub owned : (i a : ℕ) → m.objects i ≡ some (some a) → (v : Data T) × (m.cells a ≡ some v)
    pub unique : (i j a : ℕ) → m.objects i ≡ some (some a) → m.objects j ≡ some (some a) → i ≡ j
    pub no_leak :
        (a : ℕ) (v : Data T) → m.cells a ≡ some v → (i : ℕ) × (m.objects i ≡ some (some a))

  -- A view depends on the cell that is owned only.
  view_same :
      (cells cells' : ℕ → Option (Data T)) (o : Option Pointer)
      → ((a : ℕ) → o ≡ some (some a) → cells' a ≡ cells a)
      → view cells' o ≡ view cells o
  view_same cells cells' none h = refl
  view_same cells cells' (some none) h = refl
  view_same cells cells' (some (some a)) h = ap some (h a refl)

  module _ (m : Memory T) (held : Contents) (s : Shows m held) where
    -- An object that owns nothing is left owning nothing, or comes to life, or ends.
    pub Shows-put :
        (i : ℕ) (o : Option Pointer)
        → OwnsNone (m.objects i)
        → OwnsNone o
        → Shows (record m { objects = set_at i o m.objects }) (set_at i (view m.cells o) held)
    Shows-put i o was is = record {
      shown = λ k. elim (ℕ-cases k i) [
        | inl e ↦
            ap (view m.cells) (here m.objects e)
            ∙ sym (ap (set_at i (view m.cells o) held) e ∙ set_at_here i _ held)
        | inr ne ↦
            ap (view m.cells) (set_at_there i o m.objects k ne)
            ∙ s.shown k
            ∙ sym (set_at_there i _ held k ne)
      ];
      owned = λ k a h. elim (ℕ-cases k i) [
        | inl e ↦ absurd (is a (sym (here m.objects e) ∙ h))
        | inr ne ↦ s.owned k a (there o m.objects ne h)
      ];
      unique = λ j k a h h'. elim (ℕ-cases j i) [
        | inl e ↦ absurd (is a (sym (here m.objects e) ∙ h))
        | inr ne ↦ elim (ℕ-cases k i) [
          | inl e ↦ absurd (is a (sym (here m.objects e) ∙ h'))
          | inr ne' ↦ s.unique j k a (there o m.objects ne h) (there o m.objects ne' h')
        ]
      ];
      no_leak = λ a v h.
          let (k, at) = s.no_leak a v h in
          (k, set_at_there i o m.objects k (λ e. was a (ap m.objects (sym e) ∙ at)) ∙ at);
    }

    -- An object that owns nothing gets a new cell.
    pub Shows-allocate :
        (i a : ℕ) (v : Data T)
        → OwnsNone (m.objects i)
        → m.cells a ≡ none
        → Shows (point T i (some a) (allocate T a v m)) (set_at i (some (some v)) held)
    unfolding point allocate
    Shows-allocate i a v was free =
        let other : (k b : ℕ) → m.objects k ≡ some (some b) → b ≢ a = λ k b h e.
          let (w, full) = s.owned k b h in none_ne (sym free ∙ ap m.cells (sym e) ∙ full) in
        record {
          shown = λ k. elim (ℕ-cases k i) [
            | inl e ↦
                ap (view (set_at a (some v) m.cells)) (here m.objects e)
                ∙ ap (λ c. some c) (set_at_here a (some v) m.cells)
                ∙ sym (ap (set_at i (some (some v)) held) e ∙ set_at_here i _ held)
            | inr ne ↦
                ap (view (set_at a (some v) m.cells))
                  (set_at_there i (some (some a)) m.objects k ne)
                ∙ view_same m.cells (set_at a (some v) m.cells) (m.objects k)
                    (λ b h. set_at_there a (some v) m.cells b (other k b h))
                ∙ s.shown k
                ∙ sym (set_at_there i _ held k ne)
          ];
          owned = λ k b h. elim (ℕ-cases k i) [
            | inl e ↦ (
              v,
              ap (set_at a (some v) m.cells) (owner_of (sym h ∙ here m.objects e))
                  ∙ set_at_here a (some v) m.cells,
            )
            | inr ne ↦
                let old = there (some (some a)) m.objects ne h in
                let (w, full) = s.owned k b old in
                (w, set_at_there a (some v) m.cells b (other k b old) ∙ full)
          ];
          unique = λ j k b h h'. elim (ℕ-cases j i) [
            | inl e ↦ elim (ℕ-cases k i) [
              | inl e' ↦ e ∙ sym e'
              | inr ne ↦ absurd (
                  other k b (there (some (some a)) m.objects ne h')
                    (owner_of (sym h ∙ here m.objects e)))
            ]
            | inr ne ↦ elim (ℕ-cases k i) [
              | inl e' ↦ absurd (
                  other j b (there (some (some a)) m.objects ne h)
                    (owner_of (sym h' ∙ here m.objects e')))
              | inr ne' ↦
                  s.unique j k b (there (some (some a)) m.objects ne h)
                    (there (some (some a)) m.objects ne' h')
            ]
          ];
          no_leak = λ b w h. elim (ℕ-cases b a) [
            | inl e ↦ (i, set_at_here i (some (some a)) m.objects ∙ ap (λ c. some (some c)) (sym e))
            | inr ne ↦
                let (k, at) = s.no_leak b w (sym (set_at_there a (some v) m.cells b ne) ∙ h) in
                (
                  k,
                  set_at_there i (some (some a)) m.objects k
                        (λ e. was b (ap m.objects (sym e) ∙ at))
                      ∙ at,
                )
          ];
        }

    -- An object gives its cell back.
    pub Shows-release :
        (i a : ℕ)
        → m.objects i ≡ some (some a)
        → Shows
            (record { cells = set_at a none m.cells; objects = set_at i (some none) m.objects })
            (set_at i (some none) held)
    Shows-release i a at =
        let other : (k b : ℕ) → k ≢ i → m.objects k ≡ some (some b) → b ≢ a =
          λ k b ne h e. ne (s.unique k i a (h ∙ ap (λ c. some (some c)) e) at) in
        record {
          shown = λ k. elim (ℕ-cases k i) [
            | inl e ↦
                ap (view (set_at a none m.cells)) (here m.objects e)
                ∙ sym (ap (set_at i (some none) held) e ∙ set_at_here i _ held)
            | inr ne ↦
                ap (view (set_at a none m.cells)) (set_at_there i (some none) m.objects k ne)
                ∙ view_same m.cells (set_at a none m.cells) (m.objects k)
                    (λ b h. set_at_there a none m.cells b (other k b ne h))
                ∙ s.shown k
                ∙ sym (set_at_there i _ held k ne)
          ];
          owned = λ k b h. elim (ℕ-cases k i) [
            | inl e ↦ absurd (none_ne (some_inj (sym (here m.objects e) ∙ h)))
            | inr ne ↦
                let old = there (some none) m.objects ne h in
                let (w, full) = s.owned k b old in
                (w, set_at_there a none m.cells b (other k b ne old) ∙ full)
          ];
          unique = λ j k b h h'. elim (ℕ-cases j i) [
            | inl e ↦ absurd (none_ne (some_inj (sym (here m.objects e) ∙ h)))
            | inr ne ↦ elim (ℕ-cases k i) [
              | inl e' ↦ absurd (none_ne (some_inj (sym (here m.objects e') ∙ h')))
              | inr ne' ↦
                  s.unique j k b (there (some none) m.objects ne h)
                    (there (some none) m.objects ne' h')
            ]
          ];
          no_leak = λ b w h. elim (ℕ-cases b a) [
            | inl e ↦ absurd (
                none_ne (sym (set_at_here a none m.cells) ∙ ap (set_at a none m.cells) (sym e) ∙ h))
            | inr ne ↦
                let (k, full) = s.no_leak b w (sym (set_at_there a none m.cells b ne) ∙ h) in
                (
                  k,
                  set_at_there i (some none) m.objects k
                        (λ e. ne (owner_of (sym full ∙ ap m.objects e ∙ at)))
                      ∙ full,
                )
          ];
        }
