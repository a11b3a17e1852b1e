-- ===== src/Net/PollPoller/Additions.antt =====
-- A channel that is added to the tables of winterfell/net/poller/wf_poll_poller.cc.
use winterfell.Prelude.{
  ℕ-cases, none_ne, some_inj, ◌≡◌, ◌≢◌, sym, ap, ◌∙◌, ◌⊎◌, inl, inr, List, [], ◌∷◌, ◌++◌, Option,
  some, none, length, length-append, arith,
}
use winterfell.Prelude.Int.{ℤ, pos, pos_part}
use winterfell.Net.PollPoller.{PollFd, Pointer, put}
use winterfell.Net.PollPoller.Tables.{
  IsConsistent, put_at, put_off, fd_cases, place, place_at, place_off, elem_bound,
  elem-append_front, elem-append_last,
}
use winterfell.Net.PollPoller.Consistent.{place_unique}

-- An entry is appended, for a channel whose descriptor is free.
module _ (fd : Pointer → ℤ) (entries : List PollFd) (m : ℤ → Option Pointer) (idx : Pointer → ℤ)
    (c : IsConsistent fd entries m idx) (p : Pointer) (free : m (fd p) ≡ none) where
  added_key :
      (k : ℤ) {r : Pointer}
      → put (fd p) (some p) m k ≡ some r
      → ((k ≡ fd p) × (r ≡ p)) ⊎ (m k ≡ some r)
  added_key k {r} h = elim (fd_cases k (fd p)) [
    | inl e ↦ inl (e, some_inj (sym h ∙ ap (put (fd p) (some p) m) e ∙ put_at (fd p) (some p) m))
    | inr ne ↦ inr (sym (put_off (fd p) k (some p) m ne) ∙ h)
  ]

  kept_added : (r : Pointer) → put (fd p) (some p) m (fd r) ≡ some r → r ≢ p → m (fd r) ≡ some r
  kept_added r h ne = elim (added_key (fd r) h) [ inl er ↦ absurd (ne er.1) | inr h' ↦ h' ]

  in_map_ne : (r : Pointer) → m (fd r) ≡ some r → fd r ≢ fd p
  in_map_ne r h e = none_ne (sym free ∙ ap m (sym e) ∙ h)

  fresh_place : (r : Pointer) → m (fd r) ≡ some r → idx r ≢ pos (length entries)
  fresh_place r h e =
      let (j, x, e', g, w) = c.placed r h in
      absurd (omega (arith, elem_bound entries j g, ap pos_part (sym e ∙ e')))

  pub add-IsConsistent :
      (x : PollFd)
      → x.fd ≡ fd p
      → IsConsistent fd
          (entries ++ x ∷ [])
          (put (fd p) (some p) m)
          (place p (pos (length entries)) idx)
  add-IsConsistent x ex = record {
    keyed = λ k r h. elim (added_key k h) [
      | inl er ↦ er.0 ∙ ap fd (sym er.1)
      | inr h' ↦ c.keyed k r h'
    ];
    placed = λ r h. elim (added_key (fd r) h) [
      | inl er ↦
          let rp = er.1 in
          (
            length entries,
            x,
            ap (place p (pos (length entries)) idx) rp ∙ place_at p (pos (length entries)) idx,
            elem-append_last entries x,
            inl (ex ∙ ap fd (sym rp)),
          )
      | inr h' ↦
          let (j, y, e, g, w) = c.placed r h' in
          (
            j,
            y,
            place_off p r (pos (length entries)) idx (λ rp. in_map_ne r h' (ap fd rp)) ∙ e,
            elem-append_front entries (x ∷ []) j (elem_bound entries j g) ∙ g,
            w,
          )
    ];
    owned = λ j lt. elim (ℕ-cases j (length entries)) [
      | inl e ↦
          (p, put_at (fd p) (some p) m, place_at p (pos (length entries)) idx ∙ ap pos (sym e))
      | inr ne ↦
          let (r, hr, e) = c.owned j (omega (arith, length-append entries (x ∷ []))) in
          (
            r,
            put_off (fd p) (fd r) (some p) m (in_map_ne r hr) ∙ hr,
            place_off p r (pos (length entries)) idx (λ rp. in_map_ne r hr (ap fd rp)) ∙ e,
          )
    ];
    unique = λ r s hr hs e.
        place_unique fd entries m idx c p (length entries) r s
          (λ rp sp. c.unique r s (kept_added r hr rp) (kept_added s hs sp))
          (λ rp. fresh_place r (kept_added r hr rp)) (λ sp. fresh_place s (kept_added s hs sp)) e;
  }
