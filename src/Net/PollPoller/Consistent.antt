-- ===== src/Net/PollPoller/Consistent.antt =====
-- The changes that winterfell/net/poller/wf_poll_poller.cc makes to its tables keep them in agreement.
use winterfell.Prelude.{
  ℕ-cases, none_ne, ℕ, suc, ◌<◌, ◌≡◌, ◌≢◌, sym, ap, subst, ◌∙◌, inl, inr, List, Option, some, none,
  length, length-set, get_elem?, set, get_elem?-set_self, get_elem?-set_ne, arith,
}
use winterfell.Prelude.Int.{ℤ, pos, pos_part}
use winterfell.Net.PollPoller.{PollFd, Pointer, put}
use winterfell.Net.PollPoller.Tables.{
  IsConsistent, Watches, put_at, put_off, fd_cases, place, place_at, place_off, elem_bound,
}

places_differ :
    (idx : Pointer → ℤ) {p r : Pointer} {i j : ℕ} → idx r ≡ pos j → idx p ≡ pos i → j ≢ i → r ≢ p
places_differ idx h k ne e = ne (ap pos_part (sym h ∙ ap idx e ∙ k))

module _ (fd : Pointer → ℤ) (m : ℤ → Option Pointer) where
  -- No two channels of the map stand under one descriptor.
  pub one_channel : (p q : Pointer) → m (fd p) ≡ some p → m (fd q) ≡ some q → fd p ≡ fd q → p ≡ q
  one_channel p q h k e = ap (λ o. elim o [ none ↦ 0 | some r ↦ r ]) (sym h ∙ ap m e ∙ k)

  pub erased_kept :
      (p : Pointer) {k : ℤ} {r : Pointer}
      → put (fd p) none m k ≡ some r
      → (m k ≡ some r) × (k ≢ fd p)
  erased_kept p {k} {r} h = elim (fd_cases k (fd p)) [
    | inl e ↦ absurd (none_ne (sym (put_at (fd p) none m) ∙ ap (put (fd p) none m) (sym e) ∙ h))
    | inr ne ↦ (sym (put_off (fd p) k none m ne) ∙ h, ne)
  ]

  pub kept_others :
      (p r : Pointer)
      → m (fd p) ≡ some p
      → m (fd r) ≡ some r
      → r ≢ p
      → put (fd p) none m (fd r) ≡ some r
  kept_others p r hp hr ne = put_off (fd p) (fd r) none m (λ e. ne (one_channel r p hr hp e)) ∙ hr

module _ (fd : Pointer → ℤ) (entries : List PollFd) (m : ℤ → Option Pointer) (idx : Pointer → ℤ)
    (c : IsConsistent fd entries m idx) where
  pub other_place :
      {p r : Pointer} {i j : ℕ}
      → m (fd p) ≡ some p
      → m (fd r) ≡ some r
      → idx p ≡ pos i
      → idx r ≡ pos j
      → r ≢ p
      → j ≢ i
  other_place {p} {r} hp hr h k ne e = ne (c.unique r p hr hp (k ∙ ap pos e ∙ sym h))

  -- The last entry is taken off, for the channel that has it.
  pub remove_last-IsConsistent :
      (p : Pointer) (n : ℕ) (rest : List PollFd)
      → m (fd p) ≡ some p
      → idx p ≡ pos n
      → length entries ≡ suc n
      → length rest ≡ n
      → ((j : ℕ) → j < n → get_elem? rest j ≡ get_elem? entries j)
      → IsConsistent fd rest (put (fd p) none m) idx
  remove_last-IsConsistent p n rest hp at len len' same = record {
    keyed = λ k r h. c.keyed k r ((erased_kept fd m p h).0);
    placed = λ r h.
        let (hr, ne) = erased_kept fd m p h in
        let (j, x, e, g, w) = c.placed r hr in
        let off : j ≢ n = other_place hp hr at e (λ rp. ne (ap fd rp)) in
        (j, x, e, same j (omega (arith, elem_bound entries j g)) ∙ g, w);
    owned = λ j lt.
        let (r, hr, e) = c.owned j (omega arith) in
        (r, kept_others fd m p r hp hr (places_differ idx e at (omega arith)), e);
    unique = λ r s hr hs e. c.unique r s ((erased_kept fd m p hr).0) ((erased_kept fd m p hs).0) e;
  }

  -- Another channel of the map is not at this place.
  moved :
      (p r : Pointer) (i : ℕ)
      → m (fd p) ≡ some p
      → idx p ≡ pos i
      → m (fd r) ≡ some r
      → fd r ≢ fd p
      → idx r ≢ pos i
  moved p r i hp at hr ne e = ne (ap fd (c.unique r p hr hp (e ∙ sym at)))

  -- With q moved to a place that neither has, two places differ as they did.
  pub place_unique :
      (q : Pointer) (i : ℕ) (r s : Pointer)
      → (r ≢ q → s ≢ q → idx r ≡ idx s → r ≡ s)
      → (r ≢ q → idx r ≢ pos i)
      → (s ≢ q → idx s ≢ pos i)
      → place q (pos i) idx r ≡ place q (pos i) idx s
      → r ≡ s
  place_unique q i r s u nr ns e = elim (ℕ-cases r q) [
    | inl a ↦
        let at = sym e ∙ ap (place q (pos i) idx) a ∙ place_at q (pos i) idx in
        elim (ℕ-cases s q) [
          | inl b ↦ a ∙ sym b
          | inr b ↦ absurd (ns b (sym (place_off q s (pos i) idx b) ∙ at))
        ]
    | inr a ↦
        let at = sym (place_off q r (pos i) idx a) ∙ e in
        elim (ℕ-cases s q) [
          | inl b ↦ absurd (nr a (at ∙ ap (place q (pos i) idx) b ∙ place_at q (pos i) idx))
          | inr b ↦ u a b (at ∙ place_off q s (pos i) idx b)
        ]
  ]

  -- The last entry, that of q, takes the place of p's.
  pub remove_middle-IsConsistent :
      (p q : Pointer) (i n : ℕ) (last : PollFd) (rest : List PollFd)
      → m (fd p) ≡ some p
      → m (fd q) ≡ some q
      → idx p ≡ pos i
      → idx q ≡ pos n
      → q ≢ p
      → length entries ≡ suc n
      → length rest ≡ n
      → get_elem? entries n ≡ some last
      → get_elem? rest i ≡ some last
      → Watches last (fd q)
      → ((j : ℕ) → j < n → j ≢ i → get_elem? rest j ≡ get_elem? entries j)
      → IsConsistent fd rest (put (fd p) none m) (place q (pos i) idx)
  remove_middle-IsConsistent p q i n last rest hp hq ap_ aq qp len len' atn ati wq same = record {
    keyed = λ k r h. c.keyed k r ((erased_kept fd m p h).0);
    placed = λ r h.
        let (hr, ne) = erased_kept fd m p h in
        elim (ℕ-cases r q) [
          | inl e ↦ (
            i,
            last,
            ap (place q (pos i) idx) e ∙ place_at q (pos i) idx,
            ati,
            subst (λ t. Watches last (fd t)) (sym e) wq,
          )
          | inr rq ↦
              let (j, x, e, g, w) = c.placed r hr in
              let off : j ≢ n = other_place hq hr aq e rq in
              let off' : j ≢ i = other_place hp hr ap_ e (λ rp. ne (ap fd rp)) in
              (
                j,
                x,
                place_off q r (pos i) idx rq ∙ e,
                same j (omega (arith, elem_bound entries j g)) off' ∙ g,
                w,
              )
        ];
    owned = λ j lt. elim (ℕ-cases j i) [
      | inl e ↦ (q, kept_others fd m p q hp hq qp, place_at q (pos i) idx ∙ ap pos (sym e))
      | inr ne ↦
          let (r, hr, e) = c.owned j (omega arith) in
          (
            r,
            kept_others fd m p r hp hr (places_differ idx e ap_ ne),
            place_off q r (pos i) idx (places_differ idx e aq (omega arith)) ∙ e,
          )
    ];
    unique = λ r s hr hs e.
        let (kr, r_ne) = erased_kept fd m p hr in
        let (ks, s_ne) = erased_kept fd m p hs in
        place_unique q i r s (λ _ _. c.unique r s kr ks) (λ _. moved p r i hp ap_ kr r_ne)
          (λ _. moved p s i hp ap_ ks s_ne) e;
  }

  -- One entry is changed, that of p.
  pub change-IsConsistent :
      (p : Pointer) (i : ℕ) (y : PollFd)
      → m (fd p) ≡ some p
      → idx p ≡ pos i
      → Watches y (fd p)
      → IsConsistent fd (set entries i y) m idx
  change-IsConsistent p i y hp at wy = record {
    keyed = c.keyed;
    placed = λ r hr. elim (ℕ-cases r p) [
      | inl e ↦
          let (j, x, e', g, w) = c.placed p hp in
          let ij : i ≡ j = ap pos_part (sym at ∙ e') in
          (
            i,
            y,
            ap idx e ∙ at,
            get_elem?-set_self entries i y (omega (arith, elem_bound entries j g)),
            subst (λ t. Watches y (fd t)) (sym e) wy,
          )
      | inr ne ↦
          let (j, x, e, g, w) = c.placed r hr in
          (j, x, e, get_elem?-set_ne entries y (λ ij. other_place hp hr at e ne (sym ij)) ∙ g, w)
    ];
    owned = λ j lt. c.owned j (omega (arith, length-set entries i y));
    unique = c.unique;
  }
