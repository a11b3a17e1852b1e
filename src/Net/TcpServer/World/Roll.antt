-- ===== src/Net/TcpServer/World/Roll.antt =====
-- The life of each connection of a server of winterfell/net/wf_tcp_server.cc, as the server means it.
use winterfell.Prelude.{
  not, ℕ, zero, suc, ◌+◌, ◌≡◌, Bool, true, false, ◌&&◌, List, [], ◌∷◌, Option, some, none, set_at,
}
use winterfell.Net.TcpServer.World.{Event, arrives, enables, establishes, shuts, ends}

-- Not there yet; accepted; established; shut down by the user; closed.
pub data Status : Type 0 where
  absent arrived up closing gone : Status

pub record Roll : Type 0 where
  pub next : ℕ
  pub status : ℕ → Status

abbrev pub is_alive : Status → Bool
is_alive absent = false
is_alive arrived = true
is_alive up = true
is_alive closing = true
is_alive gone = false

abbrev pub is_up : Status → Bool
is_up up = true
is_up _ = false

abbrev pub is_absent : Status → Bool
is_absent absent = true
is_absent _ = false

abbrev pub is_arrived : Status → Bool
is_arrived arrived = true
is_arrived _ = false

abbrev pub after_shut : Status → Status
after_shut up = closing
after_shut s = s

-- The end of the stream is a fault for a connection that is not established yet, or is closed.
abbrev pub after_end : Status → Option Status
after_end up = some gone
after_end closing = some gone
after_end _ = none

abbrev pub becomes : ℕ → Roll → Option Status → Option Roll
becomes id r none = none
becomes id r (some s) = some (record r { status = set_at id s r.status })

abbrev pub roll_step : Event → Roll → Option Roll
roll_step (arrives fd) r =
    some (record { next = r.next + 1; status = set_at r.next arrived r.status })
roll_step (enables id) r = some r
roll_step (establishes id) r = becomes id r (some up)
roll_step (shuts id) r = becomes id r (some (after_shut (r.status id)))
roll_step (ends loop id) r = becomes id r (after_end (r.status id))

-- The loops call a connection that was accepted, and establish it once.
abbrev pub is_proper : Event → Roll → Bool
is_proper (arrives fd) r = true
is_proper (enables id) r = not (is_absent (r.status id))
is_proper (establishes id) r = is_arrived (r.status id)
is_proper (shuts id) r = not (is_absent (r.status id))
is_proper (ends loop id) r = not (is_absent (r.status id))

abbrev pub and_then : Option Roll → (Roll → Option Roll) → Option Roll
and_then none f = none
and_then (some r) f = f r

abbrev pub roll_run : List Event → Roll → Option Roll
roll_run [] r = some r
roll_run (e ∷ es) r = and_then (roll_step e r) (roll_run es)

abbrev pub Afterwards : (Roll → Type 0) → Option Roll → Type 0
Afterwards P none = Unit
Afterwards P (some r) = P r

abbrev pub AllProper : List Event → Roll → Type 0
AllProper [] r = Unit
AllProper (e ∷ es) r = (is_proper e r ≡ true) × Afterwards (AllProper es) (roll_step e r)

-- None of the connections with numbers below this one is established and not shut down.
abbrev pub none_up : ℕ → Roll → Bool
none_up zero r = true
none_up (suc id) r = not (is_up (r.status id)) && none_up id r

abbrev pub none_up_at_end : Option Roll → Bool
none_up_at_end none = false
none_up_at_end (some r) = none_up r.next r
