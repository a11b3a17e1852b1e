-- ===== src/Net/PollPoller/SwitchedOff.antt =====
-- `updateChannel` of winterfell/net/poller/wf_poll_poller.cc on a channel without interest, and on one that has
-- interest again.
use mathlib.Core.Path.{fun_ext}
use winterfell.Prelude.{
  some_inj, Ends, List, [], ◌∷◌, ℕ, ◌≡◌, refl, sym, ap, subst, ◌∙◌, ◌⊎◌, inl, inr, Bool, true,
  false, some, get_elem?, get_elem?-set_self, ◌==◌, ==_refl, if◌then◌else◌, arith, Run, done, ◌>>=◌,
}
use winterfell.Prelude.Int.{pos_part, ℤ, pos, negsuc}
use winterfell.Net.Channel.{Channel, is_none_event}
use winterfell.Net.PollPoller.{PollFd, Poller, Pointer, update_channel}
use winterfell.Net.PollPoller.Tables.{IsConsistent, elem_bound, Watches}
use winterfell.Net.PollPoller.Consistent.{change-IsConsistent}
use winterfell.Net.PollPoller.Updates.{
  IsKept, Has, fds, places, written, written-Watches, change_runs,
}

-- The channel's entry is switched off.
abbrev pub IsOff : Pointer → Poller → Type 0
IsOff p s =
    (i : ℕ) × (x : PollFd) × (places s.store p ≡ pos i)
    × (get_elem? s.pollfds i ≡ some x)
    × (x.fd ≡ negsuc 0)

abbrev pub StaysOff : Pointer → Poller → Type 0
StaysOff p s = IsKept s × Has s p × IsOff p s

-- The channel's interest is set.
abbrev pub set_events : Pointer → ℕ → Poller → Poller
set_events p events s = record s {
  store = λ q. if q == p then record (s.store q) { events = events } else s.store q;
}

set_events-fds : (p : Pointer) (e : ℕ) (s : Poller) → fds ((set_events p e s).store) ≡ fds s.store
set_events-fds p e s = fun_ext λ q. ground arith

set_events-places :
    (p : Pointer) (e : ℕ) (s : Poller) → places ((set_events p e s).store) ≡ places s.store
set_events-places p e s = fun_ext λ q. ground arith

pub set_events-IsKept : (p : Pointer) (e : ℕ) (s : Poller) → IsKept s → IsKept (set_events p e s)
set_events-IsKept p e s k =
    subst (λ f. IsConsistent f s.pollfds s.channels (places ((set_events p e s).store)))
      (sym (set_events-fds p e s))
      (subst (λ f. IsConsistent (fds s.store) s.pollfds s.channels f)
        (sym (set_events-places p e s)) k)

set_events-Has : (p : Pointer) (e : ℕ) (s : Poller) → Has s p → Has (set_events p e s) p
set_events-Has p e s h = ap (λ f. s.channels (f p)) (set_events-fds p e s) ∙ h

set_events-IsOff : (p : Pointer) (e : ℕ) (s : Poller) → IsOff p s → IsOff p (set_events p e s)
set_events-IsOff p e s (i, x, at, g, off) =
    (i, x, ap (λ f. f p) (set_events-places p e s) ∙ at, g, off)

set_none : (p : Pointer) (s : Poller) → is_none_event ((set_events p 0 s).store p) ≡ true
unfolding is_none_event
set_none p s = rw (==_refl p) refl

switch_off : (b : Bool) (fd : ℤ) → fd ≡ negsuc 0 → (if b then negsuc 0 else fd) ≡ negsuc 0
switch_off true fd e = refl
switch_off false fd e = e

written_off :
    (c : Channel) (x : PollFd)
    → (is_none_event c ≡ true) ⊎ (x.fd ≡ negsuc 0)
    → (written c x).fd ≡ negsuc 0
written_off c x (inl e) = rw e refl
written_off c x (inr e) = switch_off (is_none_event c) x.fd e

update_at :
    (p : Pointer) (s : Poller) (i : ℕ) (x : PollFd)
    → IsKept s
    → Has s p
    → places s.store p ≡ pos i
    → get_elem? s.pollfds i ≡ some x
    → (is_none_event (s.store p) ≡ true) ⊎ (x.fd ≡ negsuc 0)
    → Ends true (update_channel p s) (StaysOff p)
unfolding update_channel
update_at p s i x k h at g off =
    let (j, x', e, g', w) = k.placed p h in
    let ij = ap pos_part (sym at ∙ e) in
    let same : x' ≡ x = some_inj (sym g' ∙ ap (get_elem? s.pollfds) (sym ij) ∙ g) in
    let w' = subst (λ t. Watches t (fds s.store p)) same w in
    let y = written (s.store p) x in
    rw (at, update_channel)
      (
        _,
        change_runs p i s x h g w',
        (
          change-IsConsistent (fds s.store) s.pollfds s.channels (places s.store) k p i y h at
              (written-Watches (s.store p) x (fds s.store p) w'),
          h,
          (
            i,
            y,
            at,
            get_elem?-set_self s.pollfds i y (elem_bound s.pollfds i g),
            written_off (s.store p) x off,
          ),
        ),
      )

-- The channel's interest is set, and `updateChannel` called, for each of these masks in turn.
unfoldable pub set_all : Pointer → List ℕ → Poller → Run Poller
set_all p [] s = done s
set_all p (e ∷ es) s = update_channel p (set_events p e s) >>= set_all p es

set_all-StaysOff :
    (p : Pointer) (es : List ℕ) (s : Poller)
    → StaysOff p s
    → Ends true (set_all p es s) (StaysOff p)
unfolding set_all
set_all-StaysOff p [] s off = (s, refl, off)
set_all-StaysOff p (e ∷ es) s (k, h, off) =
    let (i, x, at, g, fd) = set_events-IsOff p e s off in
    let (s', eq, off') =
      update_at p (set_events p e s) i x (set_events-IsKept p e s k) (set_events-Has p e s h) at g
        (inr fd) in
    let (t, eq', off'') = set_all-StaysOff p es s' off' in (t, rw eq eq', off'')

-- On a poller whose tables agree, a channel that it has, once updated without interest, keeps an entry that is switched
-- off, whatever interest it is then given and however often it is updated; all the updates are done.
pub set_all-off :
    (p : Pointer) (es : List ℕ) (s : Poller)
    → IsKept s
    → Has s p
    → Ends true (set_all p (0 ∷ es) s) (StaysOff p)
unfolding set_all
set_all-off p es s k h =
    let s0 = set_events p 0 s in
    let (i, x, at, g, w) = (set_events-IsKept p 0 s k).placed p (set_events-Has p 0 s h) in
    let (s', eq, off) =
      update_at p s0 i x (set_events-IsKept p 0 s k) (set_events-Has p 0 s h) at g
        (inl (set_none p s)) in
    let (t, eq', off') = set_all-StaysOff p es s' off in (t, rw eq eq', off')
