-- ===== src/Net/PollPoller.antt =====
-- The classes `Poller` and `PollPoller` of winterfell/net/wf_poller.h, winterfell/net/wf_poller.cc and
-- winterfell/net/poller/wf_poll_poller.cc. Channels are shared objects: the poller's map holds
-- pointers, and the objects stand in a store.
pub mod Additions
pub mod Consistent
pub mod Tables
pub mod Entries
pub mod Removals
pub mod SwitchedOff
pub mod Updates
use winterfell.Prelude.{
  ℕ, ◌-◌, ◌%◌, ◌^◌, Bool, true, false, not, ◌&&◌, ◌||◌, List, [], ◌∷◌, ◌++◌, Option, some, none,
  length, take, get_elem?, set, Run, done, ◌>>=◌, ◌>>◌, assert, follow, ltb, ◌==◌, if◌then◌else◌,
}
use winterfell.Prelude.Int.{ℤ, pos, negsuc, pos_part, neg_part}
use winterfell.Net.Channel.{Channel, is_none_event}

-- A pointer to a channel.
abbrev pub Pointer : Type 0
Pointer = ℕ

-- `struct pollfd`
pub record PollFd : Type 0 where
  pub fd : ℤ
  pub events : ℕ
  pub revents : ℕ

pub record Poller : Type 0 where
  pub pollfds : List PollFd
  -- `channels_`
  pub channels : ℤ → Option Pointer
  -- the channel objects
  pub store : Pointer → Channel

abbrev pub same_fd : ℤ → ℤ → Bool
same_fd a b = (pos_part a == pos_part b) && (neg_part a == neg_part b)

abbrev pub is_some {ℓ} : {A : Type ℓ} → Option A → Bool
is_some none = false
is_some (some a) = true

-- The constructor.
abbrev pub fresh_poller : (Pointer → Channel) → Poller
fresh_poller store = record { pollfds = []; channels = λ k. none; store = store }

unfoldable pub has_channel : Pointer → Poller → Bool
has_channel p s = is_some (s.channels (pos ((s.store p).fd)))

-- `channels_[key] = …` and `channels_.erase(key)`
abbrev pub put : ℤ → Option Pointer → (ℤ → Option Pointer) → ℤ → Option Pointer
put key value channels k = if same_fd k key then value else channels k

-- `channel->set_index(i)`
abbrev pub set_index : Pointer → ℤ → (Pointer → Channel) → Pointer → Channel
set_index p i store q = if q == p then record (store q) { index = i } else store q

-- `channel->set_revents(r)`
abbrev pub set_revents : Pointer → ℕ → (Pointer → Channel) → Pointer → Channel
set_revents p r store q = if q == p then record (store q) { revents = r } else store q

-- The map holds this pointer under the descriptor of its channel.
abbrev pub maps_to : Poller → Pointer → Bool
maps_to s p = elim (s.channels (pos ((s.store p).fd))) [ none ↦ false | some q ↦ q == p ]

-- `static_cast<short>`
abbrev pub to_short : ℕ → ℕ
to_short n = n % 2 ^ 16

-- `updateChannel`, for a channel that was not added.
unfoldable pub add_channel : Pointer → Poller → Run Poller
add_channel p s =
    let c = s.store p in
    let pfd : PollFd = record { fd = pos c.fd; events = to_short c.events; revents = 0 } in
    let pollfds = s.pollfds ++ pfd ∷ [] in
    assert (not (is_some (s.channels (pos c.fd))))
    >> done (record {
      pollfds = pollfds;
      channels = put (pos c.fd) (some p) s.channels;
      store = set_index p (pos (length pollfds - 1)) s.store;
    })

-- `updateChannel`, for a channel at this place of the array.
unfoldable pub change_channel : Pointer → ℕ → Poller → Run Poller
change_channel p i s = do
  let c = s.store p
  assert (maps_to s p)
  assert (ltb i (length s.pollfds))
  pfd ← follow (get_elem? s.pollfds i)
  assert (same_fd pfd.fd (pos c.fd) || same_fd pfd.fd (negsuc 0))
  done (record s {
    pollfds = set s.pollfds i (record {
      fd = if is_none_event c then negsuc 0 else pfd.fd;
      events = to_short c.events;
      revents = 0;
    });
  })

unfoldable pub update_channel : Pointer → Poller → Run Poller
update_channel p s = elim ((s.store p).index) [
  | negsuc n ↦ add_channel p s
  | pos i ↦ change_channel p i s
]

-- The last entry, unless it is the channel's own, moves to the channel's place.
unfoldable pub fill_place : Pointer → ℕ → PollFd → Poller → Run Poller
fill_place p i last s = if same_fd (pos ((s.store p).fd)) last.fd then done s else (do
  q ← follow (s.channels last.fd)
  mine ← follow (get_elem? s.pollfds i)
  done (record s {
    pollfds = set (set s.pollfds i last) (length s.pollfds - 1) mine;
    store = set_index q (pos i) s.store;
  }))

unfoldable pub drop_channel : Pointer → ℕ → Poller → Run Poller
drop_channel p i s = do
  assert (maps_to s p)
  last ← follow (get_elem? s.pollfds (length s.pollfds - 1))
  filled ← fill_place p i last (record s { channels = put (pos ((s.store p).fd)) none s.channels })
  done (record filled { pollfds = take (length filled.pollfds - 1) filled.pollfds })

unfoldable pub remove_channel : Pointer → Poller → Run Poller
remove_channel p s = elim ((s.store p).index) [
  | negsuc n ↦ assert (not (is_some (s.channels (pos ((s.store p).fd))))) >> done s
  | pos i ↦ drop_channel p i s
]

-- The loop of `fillActiveChannels` over the entries, with the number of events left.
unfoldable pub fill_active_channels :
    List PollFd
    → ℕ
    → (ℤ → Option Pointer)
    → (Pointer → Channel)
    → Run (List Pointer × (Pointer → Channel))
fill_active_channels [] n channels store = done ([], store)
fill_active_channels (pfd ∷ pfds) n channels store =
    let skip = fill_active_channels pfds n channels store in
    let take_it : Run (List Pointer × (Pointer → Channel)) = follow (channels pfd.fd) >>= λ p.
    assert (same_fd (pos ((store p).fd)) pfd.fd)
    >> (fill_active_channels pfds (n - 1) channels (set_revents p pfd.revents store)
        >>= λ (active, store'). done (p ∷ active, store')) in
    if n == 0 then done ([], store) else if ltb 0 pfd.revents then take_it else skip
