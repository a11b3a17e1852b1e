-- ===== src/Net/PollPoller/Entries.antt =====
-- The ways in which `removeChannel` of winterfell/net/poller/wf_poll_poller.cc takes an entry out of the array: the
-- last one goes, or it moves to the free place.
use winterfell.Prelude.{
  ℕ, ◌-◌, ◌<◌, ◌≡◌, ◌≢◌, refl, sym, ap, ◌∙◌, Bool, true, false, Option, some, none, length,
  length-take, take, get_elem?, set, arith, done, aborted,
}
use winterfell.Prelude.Int.{pos, negsuc, pos_part}
use winterfell.Net.PollPoller.{
  PollFd, Poller, Pointer, same_fd, put, set_index, drop_channel, fill_place,
}
use winterfell.Net.PollPoller.Tables.{
  Watches, same_fd_refl, elem-take, length-swap_out, swap_out_at, swap_out_off,
}
use winterfell.Net.PollPoller.Consistent.{remove_last-IsConsistent, remove_middle-IsConsistent}
use winterfell.Net.PollPoller.Updates.{
  IsKept, Has, fds, places, set_index-IsConsistent, Has-maps_to,
}

-- The last entry of the array, and whether it is switched off.
abbrev pub last_entry : Poller → Option PollFd
last_entry s = get_elem? s.pollfds (length s.pollfds - 1)

abbrev pub is_off : Option PollFd → Bool
is_off none = true
is_off (some x) = same_fd x.fd (negsuc 0)

-- The poller that is left when p has the last entry.
abbrev pub popped : Pointer → Poller → Poller
popped p s = record s {
  pollfds = take (length s.pollfds - 1) s.pollfds;
  channels = put (fds s.store p) none s.channels;
}

-- The poller that is left when q has the last entry, and p that at i.
abbrev pub swapped : Pointer → Pointer → ℕ → PollFd → PollFd → Poller → Poller
swapped p q i last mine s =
    let moved = set (set s.pollfds i last) (length s.pollfds - 1) mine in
    record {
      pollfds = take (length moved - 1) moved;
      channels = put (fds s.store p) none s.channels;
      store = set_index q (pos i) s.store;
    }

pub last_runs :
    (p : Pointer) (i : ℕ) (s : Poller) (last : PollFd)
    → Has s p
    → last_entry s ≡ some last
    → last.fd ≡ fds s.store p
    → drop_channel p i s ≡ done (popped p s)
unfolding drop_channel fill_place
last_runs p i s last h g e =
    let own : same_fd (fds s.store p) last.fd ≡ true =
      ap (same_fd (fds s.store p)) e ∙ same_fd_refl (fds s.store p) in
    rw (Has-maps_to s p h, g, own) refl

pub middle_runs :
    (p q : Pointer) (i : ℕ) (s : Poller) (last mine : PollFd)
    → Has s p
    → last_entry s ≡ some last
    → same_fd (fds s.store p) last.fd ≡ false
    → put (fds s.store p) none s.channels last.fd ≡ some q
    → get_elem? s.pollfds i ≡ some mine
    → drop_channel p i s ≡ done (swapped p q i last mine s)
unfolding drop_channel fill_place
middle_runs p q i s last mine h g other hq gi = rw (Has-maps_to s p h, g, other, hq, gi) refl

pub off_aborts :
    (p : Pointer) (i : ℕ) (s : Poller) (last : PollFd)
    → Has s p
    → last_entry s ≡ some last
    → same_fd (fds s.store p) last.fd ≡ false
    → put (fds s.store p) none s.channels last.fd ≡ none
    → drop_channel p i s ≡ aborted
unfolding drop_channel fill_place
off_aborts p i s last h g other hq = rw (Has-maps_to s p h, g, other, hq) refl

-- The last entry belongs to a channel.
pub record LastOf (s : Poller) : Type 0 where
  pub owner : Pointer
  pub last : PollFd
  pub has : Has s owner
  pub at : places s.store owner ≡ pos (length s.pollfds - 1)
  pub stands : last_entry s ≡ some last
  pub watches : Watches last (fds s.store owner)

pub last_of : (s : Poller) → IsKept s → 0 < length s.pollfds → LastOf s
last_of s k h =
    let (q, hq, at) = k.owned (length s.pollfds - 1) (omega arith) in
    let (n, x, e, g, w) = k.placed q hq in
    let same : n ≡ length s.pollfds - 1 = ap pos_part (sym e ∙ at) in
    record {
      owner = q;
      last = x;
      has = hq;
      at = at;
      stands = ap (get_elem? s.pollfds) (sym same) ∙ g;
      watches = w;
    }

pub place_of :
    (p : Pointer) (i : ℕ) (s : Poller)
    → IsKept s
    → Has s p
    → places s.store p ≡ pos i
    → (x : PollFd) × (get_elem? s.pollfds i ≡ some x)
place_of p i s k h at =
    let (j, x, e, g, w) = k.placed p h in
    (x, ap (get_elem? s.pollfds) (ap pos_part (sym at ∙ e)) ∙ g)

pub last_own :
    (p : Pointer) (i : ℕ) (s : Poller) (x : PollFd)
    → IsKept s
    → Has s p
    → places s.store p ≡ pos (length s.pollfds - 1)
    → 0 < length s.pollfds
    → IsKept (popped p s)
last_own p i s x k h at lt =
    remove_last-IsConsistent (fds s.store) s.pollfds s.channels (places s.store) k p
      (length s.pollfds - 1) _ h at (omega arith)
      (omega (arith, length-take (length s.pollfds - 1) s.pollfds))
      (λ j l. elem-take s.pollfds (length s.pollfds - 1) j l)

pub last_other :
    (p q : Pointer) (i : ℕ) (s : Poller) (last mine : PollFd)
    → IsKept s
    → Has s p
    → Has s q
    → places s.store p ≡ pos i
    → places s.store q ≡ pos (length s.pollfds - 1)
    → q ≢ p
    → i < length s.pollfds - 1
    → last_entry s ≡ some last
    → Watches last (fds s.store q)
    → IsKept (swapped p q i last mine s)
last_other p q i s last mine k hp hq at atq ne lt g w = set_index-IsConsistent q (pos i) s.store (
    remove_middle-IsConsistent (fds s.store) s.pollfds s.channels (places s.store) k p q i
      (length s.pollfds - 1) last _ hp hq at atq ne (omega arith)
      (length-swap_out s.pollfds i last mine) g (swap_out_at s.pollfds i last mine lt) w
      (swap_out_off s.pollfds i last mine))
