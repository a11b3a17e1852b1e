-- ===== src/Net/PollPoller/Updates.antt =====
-- `updateChannel` of winterfell/net/poller/wf_poll_poller.cc: when it passes its asserts, and that it then keeps
-- the tables in agreement.
use mathlib.Core.Path.{fun_ext}
use winterfell.Prelude.{
  none_ne, Ends, get_elem?-set_self, ℕ, ◌-◌, ◌≡◌, refl, sym, ap, subst, ◌∙◌, ◌⊎◌, inl, inr, Bool,
  true, false, not, Bool-cases, ◌||◌, List, [], ◌∷◌, ◌++◌, Option, some, none, length,
  length-append, get_elem?, set, ltb, ◌==◌, ==_refl, if◌then◌else◌, arith, done,
}
use winterfell.Prelude.Int.{ℤ, pos, negsuc, pos_part, neg_part}
use winterfell.Net.Channel.{Channel, is_none_event}
use winterfell.Net.PollPoller.{
  fresh_poller, PollFd, Poller, Pointer, same_fd, put, set_index, is_some, maps_to, to_short,
  update_channel, add_channel, change_channel,
}
use winterfell.Net.PollPoller.Tables.{
  place_at, elem-append_last, put_at, IsConsistent, Watches, place, elem_bound,
}
use winterfell.Net.PollPoller.Additions.{add-IsConsistent}
use winterfell.Net.PollPoller.Consistent.{change-IsConsistent}

abbrev pub fds : (Pointer → Channel) → Pointer → ℤ
fds store p = pos ((store p).fd)

abbrev pub places : (Pointer → Channel) → Pointer → ℤ
places store p = (store p).index

-- The tables of this poller agree.
abbrev pub IsKept : Poller → Type 0
IsKept s = IsConsistent (fds s.store) s.pollfds s.channels (places s.store)

-- The poller has this channel.
abbrev pub Has : Poller → Pointer → Type 0
Has s p = s.channels (fds s.store p) ≡ some p

pub set_index-fds :
    (p : Pointer) (i : ℤ) (store : Pointer → Channel) → fds (set_index p i store) ≡ fds store
set_index-fds p i store = fun_ext λ q. ground arith

pub set_index-places :
    (p : Pointer) (i : ℤ) (store : Pointer → Channel)
    → places (set_index p i store) ≡ place p i (places store)
set_index-places p i store = fun_ext λ q. ground arith

pub set_index-IsConsistent :
    (p : Pointer) (i : ℤ) (store : Pointer → Channel) {entries : List PollFd}
    {m : ℤ → Option Pointer}
    → IsConsistent (fds store) entries m (place p i (places store))
    → IsConsistent (fds (set_index p i store)) entries m (places (set_index p i store))
set_index-IsConsistent p i store {entries} {m} h =
    subst (λ f. IsConsistent f entries m (places (set_index p i store)))
      (sym (set_index-fds p i store))
      (subst (λ f. IsConsistent (fds store) entries m f) (sym (set_index-places p i store)) h)

abbrev points_at : Pointer → Option Pointer → Bool
points_at p none = false
points_at p (some q) = q == p

points_to : (o : Option Pointer) (p : Pointer) → points_at p o ≡ true → o ≡ some p
points_to none p h = cc
points_to (some q) p h = ap some (ground arith)

pub maps_to-Has : (s : Poller) (p : Pointer) → maps_to s p ≡ true → Has s p
maps_to-Has s p h = points_to (s.channels (fds s.store p)) p h

pub Has-maps_to : (s : Poller) (p : Pointer) → Has s p → maps_to s p ≡ true
Has-maps_to s p h = ap (points_at p) h ∙ ==_refl p

-- The condition of the asserts of `updateChannel`, for a channel with this index.
abbrev may_update_at : ℤ → Pointer → Poller → Bool
may_update_at (negsuc n) p s = not (is_some (s.channels (fds s.store p)))
may_update_at (pos i) p s = maps_to s p

abbrev pub may_update : Pointer → Poller → Bool
may_update p s = may_update_at ((s.store p).index) p s

-- The channel's entry asks for these events.
abbrev pub Asks : Poller → Pointer → ℕ → Type 0
Asks s p events =
    (i : ℕ) × (x : PollFd) × (places s.store p ≡ pos i)
    × (get_elem? s.pollfds i ≡ some x)
    × (x.events ≡ events)

-- The tables agree and have the channel, whose entry asks for its events.
abbrev pub Updated : Pointer → Poller → Poller → Type 0
Updated p s s' = IsKept s' × Has s' p × Asks s' p (to_short ((s.store p).events))

no_channel : (o : Option Pointer) → not (is_some o) ≡ true → o ≡ none
no_channel none h = refl
no_channel (some q) h = cc

last_place : (xs : List PollFd) (x : PollFd) → length (xs ++ x ∷ []) - 1 ≡ length xs
last_place xs x = omega (arith, length-append xs (x ∷ []))

-- The entry that `add_channel` appends, and the poller that it leaves.
abbrev new_entry : Pointer → Poller → PollFd
new_entry p s = record { fd = fds s.store p; events = to_short ((s.store p).events); revents = 0 }

abbrev pub added : Pointer → Poller → Poller
added p s = record {
  pollfds = s.pollfds ++ new_entry p s ∷ [];
  channels = put (fds s.store p) (some p) s.channels;
  store = set_index p (pos (length (s.pollfds ++ new_entry p s ∷ []) - 1)) s.store;
}

add_runs :
    (p : Pointer) (s : Poller)
    → s.channels (fds s.store p) ≡ none
    → add_channel p s ≡ done (added p s)
unfolding add_channel
add_runs p s free = rw free refl

pub add_channel-keeps :
    (p : Pointer) (s : Poller)
    → IsKept s
    → s.channels (fds s.store p) ≡ none
    → (s' : Poller) × (add_channel p s ≡ done s') × Updated p s s'
add_channel-keeps p s k free =
    let len = last_place s.pollfds (new_entry p s) in
    let m = put (fds s.store p) (some p) s.channels in
    (
      added p s,
      add_runs p s free,
      (
        set_index-IsConsistent p _ s.store (
            subst
              (λ n.
                IsConsistent (fds s.store) (added p s).pollfds m (place p (pos n) (places s.store)))
              (sym len)
              (add-IsConsistent (fds s.store) s.pollfds s.channels (places s.store) k p free
                (new_entry p s) refl)),
        ap m (ap (λ f. f p) (set_index-fds p _ s.store))
            ∙ put_at (fds s.store p) (some p) s.channels,
        (
          length s.pollfds,
          new_entry p s,
          ap (λ f. f p) (set_index-places p _ s.store) ∙ place_at p _ (places s.store) ∙ ap pos len,
          elem-append_last s.pollfds (new_entry p s),
          refl,
        ),
      ),
    )

watches_passes :
    (a fd : ℤ) → (a ≡ fd) ⊎ (a ≡ negsuc 0) → (same_fd a fd || same_fd a (negsuc 0)) ≡ true
watches_passes a fd (inl e) = ground (arith, ap pos_part e, ap neg_part e)
watches_passes a fd (inr e) = ground (arith, ap pos_part e, ap neg_part e)

-- The entry that `change_channel` writes.
abbrev pub written : Channel → PollFd → PollFd
written c x = record {
  fd = if is_none_event c then negsuc 0 else x.fd;
  events = to_short c.events;
  revents = 0;
}

pub written-Watches : (c : Channel) (x : PollFd) (fd : ℤ) → Watches x fd → Watches (written c x) fd
written-Watches c x fd w = elim (Bool-cases (is_none_event c)) [
  | inl e ↦ inr (rw e refl)
  | inr e ↦ rw e w
]

pub change_runs :
    (p : Pointer) (i : ℕ) (s : Poller) (x : PollFd)
    → Has s p
    → get_elem? s.pollfds i ≡ some x
    → Watches x (fds s.store p)
    → change_channel p i s ≡ done (record s { pollfds = set s.pollfds i (written (s.store p) x) })
unfolding change_channel
change_runs p i s x h g w =
    let inside : ltb i (length s.pollfds) ≡ true = ground (arith, elem_bound s.pollfds i g) in
    rw (Has-maps_to s p h, inside, g, watches_passes x.fd (fds s.store p) w) refl

pub change_channel-keeps :
    (p : Pointer) (i : ℕ) (s : Poller)
    → IsKept s
    → Has s p
    → (s.store p).index ≡ pos i
    → (s' : Poller) × (change_channel p i s ≡ done s') × Updated p s s'
change_channel-keeps p i s k h at =
    let (j, x, e, g, w) = k.placed p h in
    let gi = ap (get_elem? s.pollfds) (ap pos_part (sym at ∙ e)) ∙ g in
    let y = written (s.store p) x in
    (
      _,
      change_runs p i s x h gi w,
      (
        change-IsConsistent (fds s.store) s.pollfds s.channels (places s.store) k p i y h at
            (written-Watches (s.store p) x (fds s.store p) w),
        h,
        (i, y, at, get_elem?-set_self s.pollfds i y (elem_bound s.pollfds i gi), refl),
      ),
    )

update_at :
    (i : ℤ) (p : Pointer) (s : Poller) (b : Bool)
    → IsKept s
    → (s.store p).index ≡ i
    → may_update_at i p s ≡ b
    → Ends b (update_channel p s) (Updated p s)
unfolding update_channel add_channel change_channel
update_at (negsuc n) p s true k e h =
    rw (e, update_channel) (add_channel-keeps p s k (no_channel _ h))
update_at (pos i) p s true k e h =
    rw (e, update_channel) (change_channel-keeps p i s k (maps_to-Has s p h) e)
update_at (negsuc n) p s false k e h = rw (e, h, update_channel) refl
update_at (pos i) p s false k e h = rw (e, h, update_channel) refl

-- On a poller whose tables agree, `updateChannel` is done if the channel has a negative index and the map
-- has none under its descriptor, or another index and the map has this channel. It then
-- leaves tables that agree, with the channel in the map, and its entry asking for its events, cut to a
-- short. Otherwise it aborts.
pub update_channel-IsKept :
    (p : Pointer) (s : Poller) → IsKept s → Ends (may_update p s) (update_channel p s) (Updated p s)
update_channel-IsKept p s k = update_at ((s.store p).index) p s _ k refl refl

-- A poller without channels.
pub fresh_poller-IsKept : (store : Pointer → Channel) → IsKept (fresh_poller store)
fresh_poller-IsKept store = record {
  keyed = λ k p h. absurd (none_ne h);
  placed = λ p h. absurd (none_ne h);
  owned = λ i lt. absurd (omega arith);
  unique = λ p q h k e. absurd (none_ne h);
}
