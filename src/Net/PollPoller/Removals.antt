-- ===== src/Net/PollPoller/Removals.antt =====
-- `removeChannel` of winterfell/net/poller/wf_poll_poller.cc: when it passes its asserts and follows no null
-- pointer, and that it then keeps the tables in agreement.
use mathlib.Core.Path.{fun_ext}
use winterfell.Prelude.{
  ℕ-cases, Ends, ℕ, ◌-◌, ◌<◌, ◌≡◌, refl, sym, ap, subst, ◌∙◌, inl, inr, Bool, true, false, not,
  ◌&&◌, Option, some, none, length, get_elem?, arith, done, aborted, assert, ◌>>◌,
}
use winterfell.Prelude.Int.{ℤ, pos, negsuc, neg_part}
use winterfell.Net.PollPoller.{
  PollFd, Poller, Pointer, same_fd, put, is_some, maps_to, remove_channel, drop_channel,
}
use winterfell.Net.PollPoller.Tables.{fd_cases, same_fd_ne, put_at, put_off, elem_bound}
use winterfell.Net.PollPoller.Consistent.{other_place, kept_others, one_channel}
use winterfell.Net.PollPoller.Updates.{IsKept, Has, fds, places, maps_to-Has}
use winterfell.Net.PollPoller.Entries.{
  last_entry, is_off, popped, swapped, last_runs, middle_runs, off_aborts, LastOf, last_of,
  place_of, last_own, last_other,
}

-- The tables agree and the map is this.
abbrev pub Leaves : (ℤ → Option Pointer) → Poller → Type 0
Leaves m s = IsKept s × (s.channels ≡ m)

off_pos : (n : ℕ) → same_fd (pos n) (negsuc 0) ≡ false
off_pos n = ground arith

-- No channel stands under -1.
none_off : (s : Poller) → IsKept s → (o : Option Pointer) → s.channels (negsuc 0) ≡ o → o ≡ none
none_off s k none e = refl
none_off s k (some q) e = absurd (omega (arith, ap neg_part (k.keyed (negsuc 0) q e)))

drop_off :
    (p : Pointer) (i : ℕ) (s : Poller) (last : PollFd)
    → IsKept s
    → Has s p
    → last_entry s ≡ some last
    → last.fd ≡ negsuc 0
    → drop_channel p i s ≡ aborted
drop_off p i s last k h g e =
    off_aborts p i s last h g (ap (same_fd (fds s.store p)) e ∙ off_pos _) (
      ap (put (fds s.store p) none s.channels) e
      ∙ put_off (fds s.store p) (negsuc 0) none s.channels
          (λ d. absurd (omega (arith, ap neg_part d)))
      ∙ none_off s k _ refl)

drop_on :
    (p : Pointer) (i : ℕ) (s : Poller) (l : LastOf s) (mine : PollFd)
    → IsKept s
    → Has s p
    → places s.store p ≡ pos i
    → get_elem? s.pollfds i ≡ some mine
    → l.last.fd ≡ fds s.store l.owner
    → Ends true (drop_channel p i s) (Leaves (put (fds s.store p) none s.channels))
drop_on p i s l mine k h at gi e = elim (ℕ-cases l.owner p) [
  | inl own ↦ (
    popped p s,
    last_runs p i s l.last h l.stands (e ∙ ap (fds s.store) own),
    (
      last_own p i s l.last k h (ap (places s.store) (sym own) ∙ l.at)
          (omega (arith, elem_bound s.pollfds i gi)),
      refl,
    ),
  )
  | inr ne ↦
      let lt : i < length s.pollfds - 1 = omega (
        arith,
        elem_bound s.pollfds i gi,
        other_place (fds s.store) s.pollfds s.channels (places s.store) k l.has h l.at at
            (λ d. ne (sym d)),
      ) in
      (
        swapped p l.owner i l.last mine s,
        middle_runs p l.owner i s l.last mine h l.stands
            (same_fd_ne (fds s.store p) l.last.fd
              (λ d. ne (one_channel (fds s.store) s.channels l.owner p l.has h (sym e ∙ sym d))))
            (ap (put (fds s.store p) none s.channels) e
              ∙ kept_others (fds s.store) s.channels p l.owner h l.has ne)
            gi,
        (last_other p l.owner i s l.last mine k h l.has at l.at ne lt l.stands l.watches, refl),
      )
]

drop_channel-keeps :
    (p : Pointer) (i : ℕ) (s : Poller)
    → IsKept s
    → Has s p
    → places s.store p ≡ pos i
    → Ends
        (not (is_off (last_entry s)))
        (drop_channel p i s)
        (Leaves (put (fds s.store p) none s.channels))
drop_channel-keeps p i s k h at =
    let (mine, gi) = place_of p i s k h at in
    let l = last_of s k (omega (arith, elem_bound s.pollfds i gi)) in
    let test = ap (λ o. not (is_off o)) l.stands in
    elim l.watches [
      | inl e ↦
          subst (λ b. Ends b (drop_channel p i s) (Leaves (put (fds s.store p) none s.channels)))
            (sym (test ∙ ap (λ a. not (same_fd a (negsuc 0))) e ∙ ap not (off_pos _)))
            (drop_on p i s l mine k h at gi e)
      | inr e ↦
          subst (λ b. Ends b (drop_channel p i s) (Leaves (put (fds s.store p) none s.channels)))
            (sym (test ∙ ap (λ a. not (same_fd a (negsuc 0))) e))
            (drop_off p i s l.last k h l.stands e)
    ]

-- The condition of the asserts of `removeChannel`, for a channel with this index; the last entry is not
-- switched off.
abbrev may_remove_at : ℤ → Pointer → Poller → Bool
may_remove_at (negsuc n) p s = not (is_some (s.channels (fds s.store p)))
may_remove_at (pos i) p s = maps_to s p && not (is_off (last_entry s))

abbrev pub may_remove : Pointer → Poller → Bool
may_remove p s = may_remove_at ((s.store p).index) p s

put_free : (key : ℤ) (m : ℤ → Option Pointer) → m key ≡ none → put key none m ≡ m
put_free key m e = fun_ext λ k. elim (fd_cases k key) [
  | inl d ↦ ap (put key none m) d ∙ put_at key none m ∙ sym e ∙ ap m (sym d)
  | inr ne ↦ put_off key k none m ne
]

remove_unknown :
    (o : Option Pointer) (p : Pointer) (s : Poller)
    → IsKept s
    → s.channels (fds s.store p) ≡ o
    → Ends
        (not (is_some o))
        (assert (not (is_some o)) >> done s)
        (Leaves (put (fds s.store p) none s.channels))
remove_unknown none p s k e = (s, refl, (k, sym (put_free (fds s.store p) s.channels e)))
remove_unknown (some q) p s k e = refl

remove_known :
    (i : ℕ) (p : Pointer) (s : Poller) (b : Bool)
    → IsKept s
    → (s.store p).index ≡ pos i
    → maps_to s p ≡ b
    → Ends
        (b && not (is_off (last_entry s)))
        (drop_channel p i s)
        (Leaves (put (fds s.store p) none s.channels))
unfolding drop_channel
remove_known i p s true k at e = drop_channel-keeps p i s k (maps_to-Has s p e) at
remove_known i p s false k at e = rw (drop_channel, e) refl

remove_at :
    (i : ℤ) (p : Pointer) (s : Poller)
    → IsKept s
    → (s.store p).index ≡ i
    → Ends (may_remove_at i p s) (remove_channel p s) (Leaves (put (fds s.store p) none s.channels))
unfolding remove_channel
remove_at (negsuc n) p s k e = rw (e, remove_channel) (remove_unknown _ p s k refl)
remove_at (pos i) p s k e = rw (e, remove_channel) (remove_known i p s _ k e refl)

-- On a poller whose tables agree, `removeChannel` of a channel with a negative index is done if the map has
-- none under its descriptor; with another index, if the map has this channel under it and the last entry of
-- the array is not switched off. It then leaves the map without the channel, no other one lost, and
-- tables that agree. Otherwise it aborts: also when the last entry is switched off.
pub remove_channel-IsKept :
    (p : Pointer) (s : Poller)
    → IsKept s
    → Ends (may_remove p s) (remove_channel p s) (Leaves (put (fds s.store p) none s.channels))
remove_channel-IsKept p s k = remove_at ((s.store p).index) p s k refl
