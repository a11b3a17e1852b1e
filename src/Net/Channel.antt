-- ===== src/Net/Channel.antt =====
-- The class `Channel` of winterfell/net/wf_channel.h and winterfell/net/wf_channel.cc: the events that
-- a descriptor is polled for, and the callbacks for those that occurred. A mask is a number; the
-- complement is that of a 32-bit integer.
pub mod Masks
use Prim.Native.Nat.{bit_and, bit_or}
use winterfell.Prelude.{
  ℕ, ◌-◌, ◌^◌, Bool, true, false, not, ◌&&◌, ◌||◌, List, [], ◌∷◌, ◌++◌, ◌==◌, if◌then◌else◌,
}
use winterfell.Prelude.Int.{ℤ, negsuc}

-- The constants of <poll.h>.
abbrev pub poll_in : ℕ
poll_in = 1

abbrev pub poll_pri : ℕ
poll_pri = 2

abbrev pub poll_out : ℕ
poll_out = 4

abbrev pub poll_err : ℕ
poll_err = 8

abbrev pub poll_hup : ℕ
poll_hup = 16

abbrev pub poll_nval : ℕ
poll_nval = 32

abbrev pub poll_rdhup : ℕ
poll_rdhup = 0x2000

abbrev pub none_event : ℕ
none_event = 0

abbrev pub read_event : ℕ
read_event = bit_or poll_in poll_pri

abbrev pub write_event : ℕ
write_event = poll_out

-- `index` is the place in the poller's array; the callbacks are told apart by which are set.
pub record Channel : Type 0 where
  pub fd : ℕ
  pub events : ℕ
  pub revents : ℕ
  pub index : ℤ
  pub has_read : Bool
  pub has_write : Bool
  pub has_error : Bool
  pub has_close : Bool

-- The constructor.
abbrev pub fresh_channel : ℕ → Channel
fresh_channel fd = record {
  fd = fd;
  events = 0;
  revents = 0;
  index = negsuc 0;
  has_read = false;
  has_write = false;
  has_error = false;
  has_close = false;
}

-- The changes of `events_`; the call of `update()` that follows is the poller's part.
unfoldable pub enable_reading : Channel → Channel
enable_reading c = record c { events = bit_or c.events read_event }

unfoldable pub enable_writing : Channel → Channel
enable_writing c = record c { events = bit_or c.events write_event }

unfoldable pub disable_writing : Channel → Channel
disable_writing c = record c { events = bit_and c.events (2 ^ 32 - 1 - write_event) }

unfoldable pub disable_all : Channel → Channel
disable_all c = record c { events = bit_or c.events none_event }

-- A mask as a condition.
abbrev pub overlaps : ℕ → ℕ → Bool
overlaps a b = not (bit_and a b == 0)

unfoldable pub is_writing : Channel → Bool
is_writing c = overlaps c.events write_event

unfoldable pub is_none_event : Channel → Bool
is_none_event c = c.events == none_event

-- A callback of the channel.
pub data Callback : Type 0 where
  on_close on_error on_read on_write : Callback

-- The callback, if it is set.
abbrev pub call : Bool → Callback → List Callback
call has callback = if has then callback ∷ [] else []

-- The calls that `handleEvent` makes, in order.
unfoldable pub handle_event : Channel → List Callback
handle_event c =
    (if overlaps c.revents poll_hup && not (overlaps c.events poll_in)
      then call c.has_close on_close
      else [])
    ++ ((if overlaps c.revents (bit_or poll_err poll_nval) then call c.has_error on_error else [])
        ++ ((if overlaps c.revents (bit_or (bit_or poll_in poll_pri) poll_rdhup)
              then call c.has_read on_read
              else [])
            ++ (if overlaps c.revents poll_out then call c.has_write on_write else [])))
